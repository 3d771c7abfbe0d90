-- ===== src/Prelude/Bits.antt =====
-- Exclusive or of the binary digits of numbers.
use Prim.Native.Nat.{digits, differ, bit_xor-bitwise}
use openember.Prelude.{ℕ, zero, suc, ◌+◌, ◌*◌, ◌/◌, ◌%◌, ◌≤◌, ◌≡◌, refl, ap, ◌∙◌, arith}
pub use Prim.Native.Nat.{bit_xor}

abbrev xor_count : ℕ → ℕ → ℕ → ℕ
xor_count n a b = digits (λ c. c) differ n a b

-- More digits to go than the first number has change nothing.
xor_count_enough : (n m a b : ℕ) → a ≤ n → a ≤ m → xor_count n a b ≡ xor_count m a b
xor_count_enough zero zero a b p q = refl
xor_count_enough zero (suc m) zero b p q = refl
xor_count_enough zero (suc m) (suc a) b p q = absurd (omega arith)
xor_count_enough (suc n) zero zero b p q = refl
xor_count_enough (suc n) zero (suc a) b p q = absurd (omega arith)
xor_count_enough (suc n) (suc m) zero b p q = refl
xor_count_enough (suc n) (suc m) (suc a) b p q =
    omega (arith, xor_count_enough n m (suc a / 2) (b / 2) (omega arith) (omega arith))

zero-bit_xor : (b : ℕ) → bit_xor 0 b ≡ b
zero-bit_xor b = bit_xor-bitwise 0 b

zero-differ : (b : ℕ) → differ 0 b ≡ b
zero-differ b = refl

pub differ_self : (a : ℕ) → differ a a ≡ 0
differ_self zero = refl
differ_self (suc a) = differ_self a

-- The lowest digit and the others.
pub bit_xor_digit : (a b : ℕ) → bit_xor a b ≡ bit_xor (a / 2) (b / 2) * 2 + differ (a % 2) (b % 2)
bit_xor_digit zero b = omega (arith, zero-bit_xor b, zero-bit_xor (b / 2))
bit_xor_digit (suc a) b = omega (
  arith,
  bit_xor-bitwise (suc a) b,
  bit_xor-bitwise (suc a / 2) (b / 2),
  xor_count_enough a (suc a / 2) (suc a / 2) (b / 2) (omega arith) (omega arith),
)

self_below : (n a : ℕ) → a ≤ n → bit_xor a a ≡ 0
self_below n zero h = refl
self_below zero (suc a) h = absurd (omega arith)
self_below (suc n) (suc a) h = omega (
  arith,
  bit_xor_digit (suc a) (suc a),
  differ_self (suc a % 2),
  self_below n (suc a / 2) (omega arith),
)

pub bit_xor_self : (a : ℕ) → bit_xor a a ≡ 0
bit_xor_self a = self_below a a (omega arith)

-- The lowest k digits of a number, the others, and a number with k digits 0 behind it.
abbrev pub low : ℕ → ℕ → ℕ
low zero x = 0
low (suc k) x = low k (x / 2) * 2 + x % 2

abbrev pub high : ℕ → ℕ → ℕ
high zero x = x
high (suc k) x = high k (x / 2)

abbrev pub shifted : ℕ → ℕ → ℕ
shifted zero x = x
shifted (suc k) x = shifted k x * 2

-- Two numbers digit by digit.
bit_xor_pair :
    (a b c d : ℕ) → b / 2 ≡ c → differ (a % 2) (b % 2) ≡ d → bit_xor a b ≡ bit_xor (a / 2) c * 2 + d
bit_xor_pair a b c d e f =
    bit_xor_digit a b
    ∙ ap (λ n. bit_xor (a / 2) n * 2 + differ (a % 2) (b % 2)) e
    ∙ ap (λ n. bit_xor (a / 2) c * 2 + n) f

differ_zero : (a : ℕ) → differ a 0 ≡ a
differ_zero zero = refl
differ_zero (suc a) = refl

right_below : (n a : ℕ) → a ≤ n → bit_xor a 0 ≡ a
right_below n zero h = refl
right_below zero (suc a) h = absurd (omega arith)
right_below (suc n) (suc a) h = omega (
  arith,
  bit_xor_digit (suc a) 0,
  differ_zero (suc a % 2),
  right_below n (suc a / 2) (omega arith),
)

-- Exclusive or with its lowest digits clears them.
pub bit_xor-low : (k x : ℕ) → bit_xor x (low k x) ≡ shifted k (high k x)
bit_xor-low zero x = right_below x x (omega arith)
bit_xor-low (suc k) x =
    bit_xor_pair x (low k (x / 2) * 2 + x % 2) (low k (x / 2)) 0 (omega arith)
      (ap (differ (x % 2)) (omega arith) ∙ differ_self (x % 2))
    ∙ omega (arith, bit_xor-low k (x / 2))

-- Exclusive or with its highest digits clears those.
pub bit_xor-shifted : (k x : ℕ) → bit_xor x (shifted k (high k x)) ≡ low k x
bit_xor-shifted zero x = bit_xor_self x
bit_xor-shifted (suc k) x =
    bit_xor_pair x (shifted k (high k (x / 2)) * 2) (shifted k (high k (x / 2))) (x % 2)
      (omega arith) (ap (differ (x % 2)) (omega arith) ∙ differ_zero (x % 2))
    ∙ omega (arith, bit_xor-shifted k (x / 2))
