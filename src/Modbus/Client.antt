-- ===== src/Modbus/Client.antt =====
-- apps/agri_station_demo/agri_modbus_tcp.hpp: class TcpClient, once it is connected.
use openember.Prelude.{
  ℕ, zero, suc, ◌+◌, ◌-◌, ◌*◌, Bool, true, false, not, ◌&&◌, ◌||◌, List, [], ◌∷◌, ◌++◌, Option,
  none, some, ltb, leb, ◌==◌, if◌then◌else◌, length, drop, get_or,
}
use openember.Prelude.Word.{u16}
use openember.Modbus.Bytes.{be16_at, put_be16}
use openember.Modbus.Pdu.{fc_read_holding, fc_write_single}
use openember.Modbus.Socket.{Network, read_full, write_full}

-- The request of both operations: function code and two words.
abbrev pub request : ℕ → ℕ → ℕ → ℕ → ℕ → List ℕ
request tid unit fc a b =
    put_be16 tid ++ (put_be16 0 ++ (put_be16 6 ++ unit ∷ fc ∷ (put_be16 a ++ put_be16 b)))

-- The registers of a read response, from its third byte on.
unfoldable pub words : ℕ → List ℕ → List ℕ
words zero bytes = []
words (suc n) bytes = be16_at bytes 0 ∷ words n (drop 2 bytes)

-- ReadHoldingRegisters, from the response PDU on. `p[0] & 0x80` of a byte is a test against 128.
unfoldable pub decode_read : ℕ → List ℕ → Option (List ℕ)
decode_read quantity pdu =
    let byte_count = get_or pdu 1 0 in
    if ltb (length pdu) 2
      || leb 128 (get_or pdu 0 0)
      || not (get_or pdu 0 0 == fc_read_holding)
      || not (byte_count == quantity * 2)
      || ltb (length pdu) (2 + byte_count)
    then none
    else some (words quantity (drop 2 pdu))

-- WriteSingleRegister, from the response PDU on.
unfoldable pub decode_write : List ℕ → Bool
decode_write pdu = leb 5 (length pdu) && get_or pdu 0 0 == fc_write_single

module _ (net : Network) where
  open net use {Socket}

  -- `socket` is none while the client is closed.
  pub record Client : Type 0 where
    pub socket : Option Socket
    pub next_tid : ℕ

  abbrev pub close : Client → Client
  close c = record c { socket = none }

  abbrev receive_pdu : Client → Option (List ℕ) × Socket → Option (List ℕ) × Client
  receive_pdu c (none, s) = (none, close c)
  receive_pdu c (some pdu, s) = (some pdu, record c { socket = some s })

  -- `limit`: reads refuse a length above 260, writes do not look.
  abbrev receive_header : Bool → ℕ → Client → Option (List ℕ) × Socket → Option (List ℕ) × Client
  receive_header limit unit c (none, s) = (none, close c)
  receive_header limit unit c (some mbap, s) =
      let len = be16_at mbap 4 in
      let rest = receive_pdu c (read_full net (len - 1) s) in
      if ltb len 2 || (limit && ltb 260 len) || not (get_or mbap 6 0 == unit)
      then (none, close c)
      else rest

  abbrev receive : Bool → ℕ → Client → Bool × Socket → Option (List ℕ) × Client
  receive limit unit c (false, s) = (none, close c)
  receive limit unit c (true, s) = receive_header limit unit c (read_full net 7 s)

  -- One exchange: the request out, and the response PDU in.
  unfoldable pub exchange : Bool → ℕ → ℕ → ℕ → ℕ → Client → Socket → Option (List ℕ) × Client
  exchange limit unit fc a b c s =
      receive limit unit (record c { next_tid = u16 (suc c.next_tid) })
        (write_full net (request c.next_tid unit fc a b) s)

  abbrev finish_read : ℕ → Option (List ℕ) × Client → Option (List ℕ) × Client
  finish_read quantity (none, c) = (none, c)
  finish_read quantity (some pdu, c) = (decode_read quantity pdu, c)

  abbrev pub read_connected : ℕ → ℕ → ℕ → Client → Option Socket → Option (List ℕ) × Client
  read_connected unit start quantity c none = (none, c)
  read_connected unit start quantity c (some s) =
      let rest = finish_read quantity (exchange true unit fc_read_holding start quantity c s) in
      if quantity == 0 || ltb 125 quantity then (none, c) else rest

  -- ReadHoldingRegisters: the registers, or `none` where it returns false.
  unfoldable pub read_holding_registers : ℕ → ℕ → ℕ → Client → Option (List ℕ) × Client
  read_holding_registers unit start quantity c = read_connected unit start quantity c c.socket

  abbrev finish_write : Option (List ℕ) × Client → Bool × Client
  finish_write (none, c) = (false, c)
  finish_write (some pdu, c) = (decode_write pdu, c)

  abbrev write_connected : ℕ → ℕ → ℕ → Client → Option Socket → Bool × Client
  write_connected unit address value c none = (false, c)
  write_connected unit address value c (some s) =
      finish_write (exchange false unit fc_write_single address value c s)

  -- WriteSingleRegister.
  unfoldable pub write_single_register : ℕ → ℕ → ℕ → Client → Bool × Client
  write_single_register unit address value c = write_connected unit address value c c.socket
