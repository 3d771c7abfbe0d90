-- ===== src/Checksum/Appended.antt =====
-- components/algorithm/src/checksum.cpp: a message with its checksum behind it.
use openember.Prelude.{
  ℕ, zero, suc, ◌*◌, ◌/◌, ◌%◌, ◌≤◌, ◌<◌, ◌≡◌, refl, ap, ◌∙◌, List, [], ◌∷◌, ◌++◌, arith, ◌==◌,
  false,
}
use openember.Prelude.Bits.{bit_xor, bit_xor_self, bit_xor-low, bit_xor-shifted, low, high, shifted}
use openember.Prelude.Word.{u16}
use openember.Checksum.{
  xor_from, xor_checksum, times, crc8_bit, crc8, modbus_bit, crc16_modbus, ccitt_bit,
  crc16_ccitt_false,
}

-- The turns of a register of zeros.
times_zero : (n : ℕ) (turn : ℕ → ℕ) → turn 0 ≡ 0 → times n turn 0 ≡ 0
unfolding times
times_zero zero turn h = refl
times_zero (suc n) turn h = ap (times n turn) h ∙ times_zero n turn h

half : (d : ℕ) → d < 65536 → modbus_bit (d * 2) ≡ d
half d h = let even : (d * 2) % 2 == 1 ≡ false = ground arith in rw even (omega arith)

-- Low digits 0 are shifted out to the right.
times-shifted : (k y : ℕ) → shifted k y < 65536 → times k modbus_bit (shifted k y) ≡ y
unfolding times
times-shifted zero y h = refl
times-shifted (suc k) y h =
    ap (times k modbus_bit) (half (shifted k y) (omega arith)) ∙ times-shifted k y (omega arith)

-- High digits 0 are shifted out to the left.
double : (d : ℕ) → d < 32768 → ccitt_bit d ≡ d * 2
double d h = let small : d / 32768 % 2 == 1 ≡ false = ground arith in rw small (omega arith)

shifted_double : (k y : ℕ) → shifted k (y * 2) ≡ shifted k y * 2
shifted_double zero y = refl
shifted_double (suc k) y = omega (arith, shifted_double k y)

shifted_grows : (k y : ℕ) → y ≤ shifted k y
shifted_grows zero y = omega arith
shifted_grows (suc k) y = omega (arith, shifted_grows k y)

times-double : (k y : ℕ) → shifted k y < 65536 → times k ccitt_bit y ≡ shifted k y
unfolding times
times-double zero y h = refl
times-double (suc k) y h =
    let fits = shifted_double k y in
    ap (times k ccitt_bit) (double y (omega (arith, shifted_grows k y)))
    ∙ times-double k (y * 2) (omega arith)
    ∙ fits

-- A register stays within its width.
times_below :
    (w n : ℕ) (turn : ℕ → ℕ) → ((c : ℕ) → turn c < w) → (c : ℕ) → c < w → times n turn c < w
unfolding times
times_below w zero turn h c l = l
times_below w (suc n) turn h c l = times_below w n turn h (turn c) (h c)

modbus_bit_below : (c : ℕ) → modbus_bit c < 65536
modbus_bit_below c = ground arith

ccitt_bit_below : (c : ℕ) → ccitt_bit c < 65536
ccitt_bit_below c = ground arith

crc16_modbus_below : (bytes : List ℕ) (c : ℕ) → c < 65536 → crc16_modbus bytes c < 65536
unfolding crc16_modbus times
crc16_modbus_below [] c h = h
crc16_modbus_below (b ∷ bytes) c h = crc16_modbus_below bytes (times 8 modbus_bit (bit_xor c b)) (
    times_below 65536 7 modbus_bit modbus_bit_below (modbus_bit (bit_xor c b))
      (modbus_bit_below (bit_xor c b)))

crc16_ccitt_false_below : (bytes : List ℕ) (c : ℕ) → c < 65536 → crc16_ccitt_false bytes c < 65536
unfolding crc16_ccitt_false times
crc16_ccitt_false_below [] c h = h
crc16_ccitt_false_below (b ∷ bytes) c h =
    let d = bit_xor c (u16 (b * 256)) in
    crc16_ccitt_false_below bytes (times 8 ccitt_bit d)
      (times_below 65536 7 ccitt_bit ccitt_bit_below (ccitt_bit d) (ccitt_bit_below d))

-- The checksum of a longer message goes on from that of its beginning.
xor_from-append : (xs ys : List ℕ) (c : ℕ) → xor_from c (xs ++ ys) ≡ xor_from (xor_from c xs) ys
unfolding xor_from
xor_from-append [] ys c = refl
xor_from-append (x ∷ xs) ys c = xor_from-append xs ys (bit_xor c x)

crc8-append : (xs ys : List ℕ) (p c : ℕ) → crc8 (xs ++ ys) p c ≡ crc8 ys p (crc8 xs p c)
unfolding crc8
crc8-append [] ys p c = refl
crc8-append (x ∷ xs) ys p c = crc8-append xs ys p (times 8 (crc8_bit p) (bit_xor c x))

crc16_modbus-append :
    (xs ys : List ℕ) (c : ℕ) → crc16_modbus (xs ++ ys) c ≡ crc16_modbus ys (crc16_modbus xs c)
unfolding crc16_modbus
crc16_modbus-append [] ys c = refl
crc16_modbus-append (x ∷ xs) ys c = crc16_modbus-append xs ys (times 8 modbus_bit (bit_xor c x))

crc16_ccitt_false-append :
    (xs ys : List ℕ) (c : ℕ)
    → crc16_ccitt_false (xs ++ ys) c ≡ crc16_ccitt_false ys (crc16_ccitt_false xs c)
unfolding crc16_ccitt_false
crc16_ccitt_false-append [] ys c = refl
crc16_ccitt_false-append (x ∷ xs) ys c =
    crc16_ccitt_false-append xs ys (times 8 ccitt_bit (bit_xor c (u16 (x * 256))))

xor_own : (c : ℕ) → xor_from c (c ∷ []) ≡ 0
unfolding xor_from
xor_own c = bit_xor_self c

crc8_own : (p c : ℕ) → crc8 (c ∷ []) p c ≡ 0
unfolding crc8
crc8_own p c = ap (times 8 (crc8_bit p)) (bit_xor_self c) ∙ times_zero 8 (crc8_bit p) refl

modbus_first : (c : ℕ) → c < 65536 → times 8 modbus_bit (bit_xor c (c % 256)) ≡ c / 256
modbus_first c h =
    let lowest : c % 256 ≡ low 8 c = omega arith in
    let others : high 8 c ≡ c / 256 = omega arith in
    ap (λ d. times 8 modbus_bit (bit_xor c d)) lowest
    ∙ ap (times 8 modbus_bit) (bit_xor-low 8 c)
    ∙ times-shifted 8 (high 8 c) (omega arith)
    ∙ others

crc16_modbus_own : (c : ℕ) → c < 65536 → crc16_modbus (c % 256 ∷ c / 256 ∷ []) c ≡ 0
unfolding crc16_modbus
crc16_modbus_own c h =
    ap (λ d. times 8 modbus_bit (bit_xor d (c / 256))) (modbus_first c h)
    ∙ ap (times 8 modbus_bit) (bit_xor_self (c / 256))
    ∙ times_zero 8 modbus_bit refl

ccitt_first :
    (c : ℕ) → c < 65536 → times 8 ccitt_bit (bit_xor c (u16 (c / 256 * 256))) ≡ u16 (c % 256 * 256)
ccitt_first c h =
    let highest : u16 (c / 256 * 256) ≡ shifted 8 (high 8 c) = omega arith in
    let others : shifted 8 (low 8 c) ≡ u16 (c % 256 * 256) = omega arith in
    ap (λ d. times 8 ccitt_bit (bit_xor c d)) highest
    ∙ ap (times 8 ccitt_bit) (bit_xor-shifted 8 c)
    ∙ times-double 8 (low 8 c) (omega arith)
    ∙ others

crc16_ccitt_false_own : (c : ℕ) → c < 65536 → crc16_ccitt_false (c / 256 ∷ c % 256 ∷ []) c ≡ 0
unfolding crc16_ccitt_false
crc16_ccitt_false_own c h =
    ap (λ d. times 8 ccitt_bit (bit_xor d (u16 (c % 256 * 256)))) (ccitt_first c h)
    ∙ ap (times 8 ccitt_bit) (bit_xor_self (u16 (c % 256 * 256)))
    ∙ times_zero 8 ccitt_bit refl

-- A receiver that runs a checksum over a message and the checksum behind it gets 0: for the
-- exclusive or and CRC-8 with its byte appended, for CRC-16/Modbus with its low byte first, and for
-- CRC-16/CCITT-FALSE with its high byte first. The initial values are 16-bit words.
pub appended_cancels :
    (bytes : List ℕ) (polynomial initial : ℕ)
    → initial < 65536
    → let modbus = crc16_modbus bytes initial in
      let ccitt = crc16_ccitt_false bytes initial in
      (xor_checksum (bytes ++ xor_checksum bytes ∷ []) ≡ 0)
      × (crc8 (bytes ++ crc8 bytes polynomial initial ∷ []) polynomial initial ≡ 0)
      × (crc16_modbus (bytes ++ modbus % 256 ∷ modbus / 256 ∷ []) initial ≡ 0)
      × (crc16_ccitt_false (bytes ++ ccitt / 256 ∷ ccitt % 256 ∷ []) initial ≡ 0)
appended_cancels bytes polynomial initial h =
    let x = xor_checksum bytes in
    let c = crc8 bytes polynomial initial in
    let m = crc16_modbus bytes initial in
    let f = crc16_ccitt_false bytes initial in
    (
      xor_from-append bytes (x ∷ []) 0 ∙ xor_own x,
      crc8-append bytes (c ∷ []) polynomial initial ∙ crc8_own polynomial c,
      crc16_modbus-append bytes (m % 256 ∷ m / 256 ∷ []) initial
          ∙ crc16_modbus_own m (crc16_modbus_below bytes initial h),
      crc16_ccitt_false-append bytes (f / 256 ∷ f % 256 ∷ []) initial
          ∙ crc16_ccitt_false_own f (crc16_ccitt_false_below bytes initial h),
    )
