-- ===== src/Modbus/Pdu.antt =====
-- apps/agri_station_demo/agri_modbus_tcp.hpp: HandlePdu, for function codes 3 and 6.
use openember.Prelude.{
  ℕ, ◌+◌, ◌*◌, ◌||◌, List, [], ◌∷◌, Option, none, some, ltb, ◌==◌, if◌then◌else◌, length, take,
}
use openember.Prelude.Word.{u8}
use openember.Modbus.Bytes.{be16_at, put_words}
use openember.Modbus.Bank.{Bank, read_holding, write_single}

abbrev pub fc_read_holding : ℕ
fc_read_holding = 0x03

abbrev pub fc_write_single : ℕ
fc_write_single = 0x06

abbrev pub ex_illegal_function : ℕ
ex_illegal_function = 0x01

abbrev pub ex_illegal_data_address : ℕ
ex_illegal_data_address = 0x02

abbrev pub ex_illegal_data_value : ℕ
ex_illegal_data_value = 0x03

-- A function code with its top bit set, `fc | 0x80`.
abbrev pub exception_code : ℕ → ℕ
exception_code fc = if ltb fc 128 then fc + 128 else fc

abbrev pub exception : ℕ → ℕ → List ℕ
exception fc code = exception_code fc ∷ code ∷ []

abbrev pub read_response : Option (List ℕ) → List ℕ
read_response none = exception fc_read_holding ex_illegal_data_address
read_response (some values) = fc_read_holding ∷ u8 (length values * 2) ∷ put_words values

unfoldable pub handle_read : Bank → List ℕ → Option (List ℕ)
handle_read bank pdu =
    let start = be16_at pdu 1 in
    let qty = be16_at pdu 3 in
    if ltb (length pdu) 5
    then none
    else if ltb qty 1 || ltb 125 qty
    then some (exception fc_read_holding ex_illegal_data_value)
    else some (read_response (read_holding bank start qty))

abbrev pub write_response : Bank → List ℕ → Option Bank → Option (List ℕ) × Bank
write_response bank pdu none = (some (exception fc_write_single ex_illegal_data_address), bank)
write_response bank pdu (some bank') = (some (take 5 pdu), bank')

unfoldable pub handle_write : Bank → List ℕ → Option (List ℕ) × Bank
handle_write bank pdu =
    if ltb (length pdu) 5
    then (none, bank)
    else write_response bank pdu (write_single bank (be16_at pdu 1) (be16_at pdu 3))

-- HandlePdu: the response, or `none` where it returns false, and the bank.
unfoldable pub handle_pdu : Bank → List ℕ → Option (List ℕ) × Bank
handle_pdu bank [] = (none, bank)
handle_pdu bank (fc ∷ rest) =
    if fc == fc_read_holding
    then (handle_read bank (fc ∷ rest), bank)
    else if fc == fc_write_single
    then handle_write bank (fc ∷ rest)
    else (some (exception fc ex_illegal_function), bank)
