-- ===== src/Modbus/Responses.antt =====
-- apps/agri_station_demo/agri_modbus_tcp.hpp: what HandlePdu answers, and what it does to the bank.
use openember.Prelude.{
  ℕ, zero, suc, ◌≤◌, ◌<◌, ◌≡◌, refl, ◌≢◌, ◌∙◌, ap, false, Bool-cases, ◌||◌, inl, inr, List, [], ◌∷◌,
  Option, none, some, arith, length, take, drop, length-take, length-set, ltb, leb, ◌==◌, set,
}
use openember.Modbus.Bytes.{IsWord, be16_at, be16-put_be16, put_words}
use openember.Modbus.Bank.{
  Bank, read_holding, write_single, set_register, get_register, write_single-get_register,
}
use openember.Modbus.Pdu.{
  fc_read_holding, fc_write_single, handle_pdu, handle_read, handle_write, read_response,
}
use openember.Modbus.Exchange.{query, handle_pdu_read, length-put_words}

-- A response of 2 to 252 bytes, if there is one.
abbrev pub Fits : Option (List ℕ) → Type 0
Fits none = Unit
Fits (some r) = (2 ≤ length r) × (length r ≤ 252)

read_response-Fits :
    (bank : Bank) (start quantity : ℕ)
    → quantity ≤ 125
    → Fits (some (read_response (read_holding bank start quantity)))
unfolding read_holding
read_response-Fits bank start quantity h = ground (
  arith,
  length-put_words (take quantity (drop start bank)),
  length-take quantity (drop start bank),
)

handle_read-Fits : (bank : Bank) (pdu : List ℕ) → Fits (handle_read bank pdu)
unfolding handle_read
handle_read-Fits bank pdu = elim (Bool-cases (ltb (length pdu) 5)) [
  | inl e ↦ rw e tt
  | inr e ↦ rw e (elim (Bool-cases (ltb (be16_at pdu 3) 1 || ltb 125 (be16_at pdu 3))) [
    | inl e' ↦ rw e' (omega arith, omega arith)
    | inr e' ↦ rw e' (read_response-Fits bank (be16_at pdu 1) (be16_at pdu 3) (ground arith))
  ])
]

handle_write-Fits :
    (bank : Bank) (pdu : List ℕ)
    → Fits (handle_write bank pdu).0 × (length (handle_write bank pdu).1 ≡ length bank)
unfolding handle_write write_single
handle_write-Fits bank pdu = elim (Bool-cases (ltb (length pdu) 5)) [
  | inl e ↦ rw e (tt, refl)
  | inr e ↦ rw e (elim (Bool-cases (leb (length bank) (be16_at pdu 1))) [
    | inl e' ↦ rw e' ((omega arith, omega arith), refl)
    | inr e' ↦ rw e' (
      omega (arith, length-take 5 pdu, (ltb_false (length pdu) 5 e)),
      length-set bank (be16_at pdu 1) (be16_at pdu 3),
    )
  ])
]
  where
    ltb_false : (a b : ℕ) → ltb a b ≡ false → b ≤ a
    ltb_false a b h = ground arith

-- Whatever request arrives, the response, if there is one, has 2 to 252 bytes, so that the length
-- field of its frame does not wrap, and the bank keeps its size.
pub handle_pdu_bounds :
    (bank : Bank) (pdu : List ℕ)
    → Fits (handle_pdu bank pdu).0 × (length (handle_pdu bank pdu).1 ≡ length bank)
unfolding handle_pdu
handle_pdu_bounds bank [] = (tt, refl)
handle_pdu_bounds bank (fc ∷ rest) = elim (Bool-cases (fc == fc_read_holding)) [
  | inl e ↦ rw e (handle_read-Fits bank (fc ∷ rest), refl)
  | inr e ↦ rw e (elim (Bool-cases (fc == fc_write_single)) [
    | inl e' ↦ rw e' (handle_write-Fits bank (fc ∷ rest))
    | inr e' ↦ rw e' ((omega arith, omega arith), refl)
  ])
]

handle_pdu_write :
    (bank : Bank) (address value : ℕ)
    → address < length bank
    → IsWord address
    → IsWord value
    → handle_pdu bank (query fc_write_single address value)
      ≡ (some (query fc_write_single address value), set bank address value)
unfolding handle_pdu handle_write write_single
handle_pdu_write bank address value h wa wv =
    rw (be16-put_be16 address wa, be16-put_be16 value wv) (ground arith)

slice-set : (bank : Bank) (i v : ℕ) → i < length bank → take 1 (drop i (set bank i v)) ≡ v ∷ []
slice-set [] i v h = absurd (omega arith)
slice-set (r ∷ bank) zero v h = refl
slice-set (r ∷ bank) (suc i) v h = slice-set bank i v (omega arith)

-- A write request to a register of the bank is answered by the request itself, and a read request
-- of that register after it by the value written; the other registers are as before.
pub handle_pdu_write_read :
    (bank : Bank) (address value : ℕ)
    → address < length bank
    → IsWord address
    → IsWord value
    → let bank' = (handle_pdu bank (query fc_write_single address value)).1 in
      ((handle_pdu bank (query fc_write_single address value)).0
        ≡ some (query fc_write_single address value))
      × ((handle_pdu bank' (query fc_read_holding address 1)).0
          ≡ some (fc_read_holding ∷ 2 ∷ put_words (value ∷ [])))
      × ((j : ℕ) → j ≢ address → get_register bank' j ≡ get_register bank j)
handle_pdu_write_read bank address value h wa wv =
    let e = handle_pdu_write bank address value h wa wv in
    rw e (
      refl,
      ap (λ (r : Option (List ℕ) × Bank). r.0)
            (handle_pdu_read (set bank address value) address 1
              (omega arith, omega arith, omega (arith, length-set bank address value), wa))
          ∙ ap (λ vs. some (fc_read_holding ∷ 2 ∷ put_words vs)) (slice-set bank address value h),
      λ j n.
          unfold set_register in
          ground (arith, (write_single-get_register bank address value).1 j, n),
    )
