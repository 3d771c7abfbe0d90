-- ===== src/Prelude/Text.antt =====
-- `std::string` as the list of its bytes, with the searches that the sources call.
use Prim.Native.Char.{code}
use Prim.Native.String.{String}
use openember.Prelude.{
  ℕ, zero, suc, ◌+◌, ◌/◌, ◌%◌, ◌≡◌, refl, Bool, true, false, ◌&&◌, List, [], ◌∷◌, Option, none,
  some, arith, ◌==◌, ltb, if◌then◌else◌,
}
use openember.Prelude.Int.{ℤ, pos, negsuc}
use mathlib.Core.Option

abbrev pub Text : Type 0
Text = List ℕ

-- The code points of a literal. It stays shut in proofs.
unfoldable pub codes : String → Text
codes String.[] = []
codes (String.◌∷◌ c s) = code c ∷ codes s

unfoldable pub text_eq : Text → Text → Bool
text_eq [] [] = true
text_eq [] (y ∷ ys) = false
text_eq (x ∷ xs) [] = false
text_eq (x ∷ xs) (y ∷ ys) = x == y && text_eq xs ys

pub text_eq→eq : (s t : Text) → text_eq s t ≡ true → s ≡ t
unfolding text_eq
text_eq→eq [] [] h = refl
text_eq→eq [] (y ∷ ys) h = ground arith
text_eq→eq (x ∷ xs) [] h = ground arith
text_eq→eq (x ∷ xs) (y ∷ ys) h = ground (arith, text_eq→eq xs ys)

pub text_eq_refl : (s : Text) → text_eq s s ≡ true
unfolding text_eq
text_eq_refl [] = refl
text_eq_refl (x ∷ xs) = ground (arith, text_eq_refl xs)

-- `empty()`.
abbrev pub is_empty {ℓ} : {A : Type ℓ} → List A → Bool
is_empty [] = true
is_empty (x ∷ xs) = false

-- `s.substr(0, p.size()) == p`.
unfoldable pub starts_with : Text → Text → Bool
starts_with s [] = true
starts_with [] (c ∷ p) = false
starts_with (x ∷ s) (c ∷ p) = x == c && starts_with s p

-- `find(c)`: the first place of a character.
unfoldable pub find : ℕ → Text → Option ℕ
find c [] = none
find c (x ∷ s) = let rest = Option.map suc (find c s) in if x == c then some 0 else rest

-- `rfind(c)`: the last place of a character.
unfoldable pub rfind : ℕ → Text → Option ℕ
rfind c [] = none
rfind c (x ∷ s) = elim (rfind c s) [
  | some i ↦ some (suc i)
  | none ↦ if x == c then some 0 else none
]

-- The decimal digits of a number, most significant first; `f` bounds their count.
unfoldable pub digits_of : ℕ → ℕ → Text → Text
digits_of zero n acc = acc
digits_of (suc f) n acc =
    let d = b'0' + n % 10 in
    let rest = digits_of f (n / 10) (d ∷ acc) in if ltb n 10 then d ∷ acc else rest

-- `std::to_string`.
unfoldable pub to_string : ℤ → Text
unfolding digits_of
to_string (pos n) = digits_of (suc n) n []
to_string (negsuc n) = b'-' ∷ digits_of (suc (suc n)) (suc n) []
