-- ===== src/Prelude/Result.antt =====
-- Results of fallible steps: `std::exception`s as values.
use mathlib.Core.Path.{◌≡◌, refl, subst}
use mathlib.Core.Bool.{Bool, true, false}

pub data Result {ℓ κ} (E : Type κ) (A : Type ℓ) : Type (ℓ ⊔ κ) where
  good : A → Result E A
  bad : E → Result E A

module _ {κ} {E : Type κ} where
  infixl 5 ◌>>=◌ ◌>>◌
  abbrev pub ◌>>=◌ {ℓ μ} : {A : Type ℓ} {B : Type μ} → Result E A → (A → Result E B) → Result E B
  good a >>= f = f a
  bad e >>= f = bad e

  abbrev pub ◌>>◌ {ℓ} : {B : Type ℓ} → Result E (Unit {0}) → Result E B → Result E B
  m >> k = m >>= λ _. k

  -- `if (failed) throw e;`.
  abbrev pub refuse_if : Bool → E → Result E (Unit {0})
  refuse_if true e = bad e
  refuse_if false e = good tt

  -- What holds of the value, if there is one.
  abbrev pub Holds {ℓ μ} : {A : Type ℓ} → (A → Type μ) → Result E A → Type μ
  Holds P (good a) = P a
  Holds P (bad e) = Unit

  pub >>=-Holds {ℓ μ ν ξ} :
      {A : Type ℓ} {B : Type μ} (P : A → Type ν) (Q : B → Type ξ) (m : Result E A)
      (f : A → Result E B)
      → Holds P m
      → ((a : A) → P a → Holds Q (f a))
      → Holds Q (m >>= f)
  >>=-Holds P Q (good a) f h k = k a h
  >>=-Holds P Q (bad e) f h k = tt

  -- What follows a step of which nothing is known, and a test that did not refuse.
  pub after {ℓ μ ξ} :
      {A : Type ℓ} {B : Type μ} (Q : B → Type ξ) (m : Result E A) (f : A → Result E B)
      → ((a : A) → Holds Q (f a))
      → Holds Q (m >>= f)
  after Q (good a) f k = k a
  after Q (bad e) f k = tt

  pub unless_refused {ℓ ξ} :
      {B : Type ℓ} (Q : B → Type ξ) (b : Bool) (e : E) (k : Result E B)
      → (b ≡ false → Holds Q k)
      → Holds Q (refuse_if b e >> k)
  unless_refused Q true e k h = tt
  unless_refused Q false e k h = h refl

  -- The value is the step's.
  pub good_itself {ℓ} : {A : Type ℓ} (m : Result E A) → Holds (λ a. m ≡ good a) m
  good_itself (good a) = refl
  good_itself (bad e) = tt

  pub Holds-good {ℓ μ} :
      {A : Type ℓ} (P : A → Type μ) (m : Result E A) (a : A) → m ≡ good a → Holds P m → P a
  Holds-good P m a e h = subst (Holds P) e h
