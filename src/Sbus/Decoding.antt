-- ===== src/Sbus/Decoding.antt =====
-- platform/lpio/src/SBUSReader.cpp: what decodeFrame reads of a channel, against the layout of the
-- frame: sixteen channels of eleven bits, lowest bit first, from the second byte on.
use openember.Prelude.{
  ℕ, zero, suc, ◌+◌, ◌-◌, ◌*◌, ◌/◌, ◌%◌, ◌^◌, ◌≤◌, ◌<◌, ◌≡◌, refl, sym, ◌∙◌, ap, List, [], ◌∷◌,
  arith, get_or, drop, length, length-drop, drop-add, All,
}
use native.Mathlib.Nat.{suc-add}
use openember.Prelude.Word.{u16}
use openember.Sbus.Frame.{channel}

-- The number whose bytes these are, lowest first.
unfoldable pub number : List ℕ → ℕ
number [] = 0
number (b ∷ bs) = b + 256 * number bs

abbrev pub IsByte : ℕ → Type 0
IsByte b = b < 256

-- The bits of a byte string from a position on.
abbrev pub bits_from : List ℕ → ℕ → ℕ
bits_from bytes position = number (drop (position / 8) bytes) / 2 ^ (position % 8)

-- Channel i of a frame.
abbrev pub sent_channel : List ℕ → ℕ → ℕ
sent_channel raw i = bits_from (drop 1 raw) (i * 11) % 2048

get_or-drop : (n i : ℕ) (xs : List ℕ) → get_or (drop n xs) i 0 ≡ get_or xs (n + i) 0
get_or-drop zero i xs = ground arith
get_or-drop (suc n) i [] = refl
get_or-drop (suc n) i (x ∷ xs) = rw suc-add (get_or-drop n i xs)

drop-All : (n : ℕ) (xs : List ℕ) → All IsByte xs → All IsByte (drop n xs)
drop-All zero xs h = h
drop-All (suc n) [] h = tt
drop-All (suc n) (x ∷ xs) h = drop-All n xs h.1

-- Two bytes hold the lower 16 - r of the bits from bit r on.
window :
    (r x y z : ℕ)
    → r < 8
    → x < 256
    → y < 256
    → (u16 (x / 2 ^ r) + u16 (y * 2 ^ (8 - r))) % 2048
      ≡ (x + 256 * (y + 256 * z)) / 2 ^ r % 2048 % 2 ^ (16 - r)
window zero x y z h hx hy = omega arith
window (suc zero) x y z h hx hy = omega arith
window (suc (suc zero)) x y z h hx hy = omega arith
window (suc (suc (suc zero))) x y z h hx hy = omega arith
window (suc (suc (suc (suc zero)))) x y z h hx hy = omega arith
window (suc (suc (suc (suc (suc zero))))) x y z h hx hy = omega arith
window (suc (suc (suc (suc (suc (suc zero)))))) x y z h hx hy = omega arith
window (suc (suc (suc (suc (suc (suc (suc zero))))))) x y z h hx hy = omega arith
window (suc (suc (suc (suc (suc (suc (suc (suc r)))))))) x y z h hx hy = absurd (omega arith)

-- `channel` reads the two bytes at a place of the frame.
two_bytes :
    (xs : List ℕ) (r : ℕ)
    → r < 8
    → 2 ≤ length xs
    → All IsByte xs
    → (u16 (get_or xs 0 0 / 2 ^ r) + u16 (get_or xs 1 0 * 2 ^ (8 - r))) % 2048
      ≡ number xs / 2 ^ r % 2048 % 2 ^ (16 - r)
unfolding number
two_bytes [] r hr h b = absurd (omega arith)
two_bytes (x ∷ []) r hr h b = absurd (omega arith)
two_bytes (x ∷ y ∷ zs) r hr h b = window r x y (number zs) hr b.0 b.1.0

-- What decodeFrame makes of channel i is the channel sent, cut down to the 16 - r bits that two
-- bytes hold from bit r = 11 i % 8 on: all eleven bits if r is at most 5.
pub channel_lem :
    (raw : List ℕ) (i : ℕ)
    → i < 16
    → length raw ≡ 25
    → All IsByte raw
    → channel raw i ≡ sent_channel raw i % 2 ^ (16 - i * 11 % 8)
unfolding channel
channel_lem raw i hi l b =
    let q = i * 11 / 8 in
    let xs = drop q (drop 1 raw) in
    let e : xs ≡ drop (1 + q) raw = drop-add 1 q raw in
    let first : get_or raw (1 + q) 0 ≡ get_or xs 0 0 = sym (
      ap (λ (ys : List ℕ). get_or ys 0 0) e
      ∙ get_or-drop (1 + q) 0 raw
      ∙ ap (λ n. get_or raw n 0) (omega arith)) in
    let second : get_or raw (1 + q + 1) 0 ≡ get_or xs 1 0 =
      sym (ap (λ (ys : List ℕ). get_or ys 1 0) e ∙ get_or-drop (1 + q) 1 raw) in
    rw (first, second)
      (two_bytes xs (i * 11 % 8) (omega arith)
        (omega (arith, length-drop q (drop 1 raw), length-drop 1 raw))
        (drop-All q (drop 1 raw) (drop-All 1 raw b)))
