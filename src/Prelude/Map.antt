-- ===== src/Prelude/Map.antt =====
-- `std::map<std::string, V>`: the entries in the order of their keys, no key twice.
use openember.Prelude.{
  ◌≡◌, refl, sym, ap, ◌∙◌, Bool, true, false, ◌&&◌, ◌||◌, Bool-cases, inl, inr, List, [], ◌∷◌,
  Option, none, some, arith, ltb, ◌==◌, if◌then◌else◌, if_cases, subst,
}
use openember.Prelude.Text.{Text, text_eq, text_eq→eq, text_eq_refl}

-- `operator<` of strings.
unfoldable pub text_less : Text → Text → Bool
text_less [] [] = false
text_less [] (y ∷ ys) = true
text_less (x ∷ xs) [] = false
text_less (x ∷ xs) (y ∷ ys) = ltb x y || x == y && text_less xs ys

abbrev pub Map {ℓ} : Type ℓ → Type ℓ
Map V = List (Text × V)

module _ {ℓ} {V : Type ℓ} where
  -- `find`.
  unfoldable pub lookup : Text → Map V → Option V
  lookup k [] = none
  lookup k ((j, v) ∷ m) = let rest = lookup k m in if text_eq k j then some v else rest

  -- `m[k] = v`.
  unfoldable pub insert : Text → V → Map V → Map V
  insert k v [] = (k, v) ∷ []
  insert k v ((j, w) ∷ m) =
      let rest = insert k v m in
      if text_eq k j
      then (k, v) ∷ m
      else if text_less k j
      then (k, v) ∷ (j, w) ∷ m
      else (j, w) ∷ rest

  -- The values in the order of the keys.
  unfoldable pub values : Map V → List V
  values [] = []
  values ((k, v) ∷ m) = v ∷ values m

pub text_eq_sym : (s t : Text) → text_eq s t ≡ text_eq t s
text_eq_sym s t = elim (Bool-cases (text_eq s t)) [
  | inl e ↦
      ap (λ u. text_eq s u) (sym (text_eq→eq s t e)) ∙ ap (λ u. text_eq u s) (text_eq→eq s t e)
  | inr e ↦ elim (Bool-cases (text_eq t s)) [
    | inl f ↦ absurd (cc (e, text_eq_refl t, text_eq→eq t s f))
    | inr f ↦ e ∙ sym f
  ]
]

-- A text equals at most one of two different ones.
text_eq_apart : (j k i : Text) → text_eq k i ≡ false → text_eq j i ≡ true → text_eq j k ≡ false
text_eq_apart j k i e h = ap (λ u. text_eq u k) (text_eq→eq j i h) ∙ text_eq_sym i k ∙ e

-- What a lookup and an iteration see of an insertion.
module _ {ℓ} {V : Type ℓ} where
  pub lookup-insert :
      (j k : Text) (v : V) (m : Map V)
      → lookup j (insert k v m) ≡ (if text_eq j k then some v else lookup j m)
  unfolding lookup insert
  lookup-insert j k v [] = refl
  lookup-insert j k v ((i, w) ∷ m) = elim (Bool-cases (text_eq k i)) [
    | inl e ↦ rw e (ground (arith, ap (λ u. text_eq j u) (text_eq→eq k i e)))
    | inr e ↦ ground (arith, e, text_eq_apart j k i e, lookup-insert j k v m)
  ]

  pub lookup-insert_self : (k : Text) (v : V) (m : Map V) → lookup k (insert k v m) ≡ some v
  lookup-insert_self k v m = rw (lookup-insert k k v m, text_eq_refl k) refl

  -- A property of all entries.
  abbrev pub Entries {κ} : (Text → V → Type κ) → Map V → Type κ
  Entries P [] = Unit
  Entries P ((k, v) ∷ m) = P k v × Entries P m

  pub Entries-insert {κ} :
      (P : Text → V → Type κ) (k : Text) (v : V) (m : Map V)
      → P k v
      → Entries P m
      → Entries P (insert k v m)
  unfolding insert
  Entries-insert P k v [] p h = (p, tt)
  Entries-insert P k v ((j, w) ∷ m) p h =
      if_cases (Entries P) (text_eq k j) (λ e. (p, h.1))
        (λ e.
          if_cases (Entries P) (text_less k j) (λ f. (p, h))
            (λ f. (h.0, Entries-insert P k v m p h.1)))

  pub Entries-lookup {κ} :
      (P : Text → V → Type κ) (k : Text) (v : V) (m : Map V)
      → Entries P m
      → lookup k m ≡ some v
      → P k v
  unfolding lookup
  Entries-lookup P k v [] h e = cc e
  Entries-lookup P k v ((j, w) ∷ m) h e =
      found (text_eq k j) (text_eq→eq k j) (Entries-lookup P k v m h.1) e
    where
      found :
          (b : Bool)
          → (b ≡ true → k ≡ j)
          → (lookup k m ≡ some v → P k v)
          → (if b then some w else lookup k m) ≡ some v
          → P k v
      found true same later f =
          let e' : w ≡ v = cc f in subst (λ u. P u v) (sym (same refl)) (subst (λ x. P j x) e' h.0)
      found false same later f = later f

text_less_trans :
    (s t u : Text) → text_less s t ≡ true → text_less t u ≡ true → text_less s u ≡ true
unfolding text_less
text_less_trans [] [] u h k = cc k
text_less_trans [] (y ∷ t) [] h k = cc k
text_less_trans [] (y ∷ t) (z ∷ u) h k = refl
text_less_trans (x ∷ s) [] u h k = cc h
text_less_trans (x ∷ s) (y ∷ t) [] h k = cc k
text_less_trans (x ∷ s) (y ∷ t) (z ∷ u) h k = ground (arith, text_less_trans s t u)

text_less_total : (s t : Text) → text_eq s t ≡ false → text_less s t ≡ false → text_less t s ≡ true
unfolding text_less text_eq
text_less_total [] [] h k = cc h
text_less_total [] (y ∷ t) h k = cc k
text_less_total (x ∷ s) [] h k = refl
text_less_total (x ∷ s) (y ∷ t) h k = ground (arith, text_less_total s t)

module _ {ℓ} {V : Type ℓ} where
  -- Every key is below those after it, so that no key is there twice.
  abbrev pub IsSorted : Map V → Type 0
  IsSorted [] = Unit
  IsSorted ((k, v) ∷ m) = Entries (λ j w. text_less k j ≡ true) m × IsSorted m

  below_all :
      (i k : Text) (m : Map V)
      → text_less i k ≡ true
      → Entries (λ j w. text_less k j ≡ true) m
      → Entries (λ j w. text_less i j ≡ true) m
  below_all i k [] h e = tt
  below_all i k ((j, w) ∷ m) h e = (text_less_trans i k j h e.0, below_all i k m h e.1)

  pub insert-IsSorted : (k : Text) (v : V) (m : Map V) → IsSorted m → IsSorted (insert k v m)
  unfolding insert
  insert-IsSorted k v [] h = (tt, tt)
  insert-IsSorted k v ((j, w) ∷ m) h =
      if_cases IsSorted (text_eq k j)
        (λ e.
          (subst (λ u. Entries (λ i x. text_less u i ≡ true) m) (sym (text_eq→eq k j e)) h.0, h.1))
        (λ e.
          if_cases IsSorted (text_less k j) (λ f. ((f, below_all k j m f h.0), h))
            (λ f. (
              Entries-insert (λ i x. text_less j i ≡ true) k v m (text_less_total k j e f) h.0,
              insert-IsSorted k v m h.1,
            )))

text_less_irrefl : (s : Text) → text_less s s ≡ false
unfolding text_less
text_less_irrefl [] = refl
text_less_irrefl (x ∷ s) = ground (arith, text_less_irrefl s)

apart_below : (k j : Text) → text_less k j ≡ true → text_eq k j ≡ false
apart_below k j h = elim (Bool-cases (text_eq k j)) [
  | inl e ↦
      let loop : text_less k k ≡ true =
        subst (λ t. text_less k t ≡ true) (sym (text_eq→eq k j e)) h in
      absurd (cc (loop, text_less_irrefl k))
  | inr e ↦ e
]

-- A key below all the keys of a map is not in it.
pub lookup-below {ℓ} :
    {V : Type ℓ} (k : Text) (m : Map V)
    → Entries (λ j w. text_less k j ≡ true) m
    → lookup k m ≡ none
unfolding lookup
lookup-below k [] h = refl
lookup-below k ((j, w) ∷ m) h = rw (apart_below k j h.0) (lookup-below k m h.1)
