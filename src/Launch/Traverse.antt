-- ===== src/Launch/Traverse.antt =====
-- system/launch_manager/process_manager.cpp: what the loops over `processes_` keep.
use openember.Prelude.{
  ◌≡◌, refl, Bool, true, false, Bool-cases, ◌⊎◌, inl, inr, List, [], ◌∷◌, Option, none, some, All,
}
use openember.Launch.World.{World}
use openember.Launch.Process.{ManagedProcess, visit, visit_if, for_each, behind}

-- A predicate of the list that a search through it gives back, where it finds anything.
abbrev pub Found {ℓ κ} :
    {A : Type ℓ} → (List ManagedProcess → Type κ) → Option (List ManagedProcess × A) → Type κ
Found P none = Unit
Found P (some (qs, a)) = P qs

module _ {ℓ κ} {A : Type ℓ} (P : ManagedProcess → Type κ) (test : ManagedProcess → Bool)
    (f : ManagedProcess → ManagedProcess × A)
    (keep : (p : ManagedProcess) → test p ≡ true → P p → P (f p).0) where
  behind-Found :
      (p : ManagedProcess) (r : Option (List ManagedProcess × A))
      → P p
      → Found (All P) r
      → Found (All P) (behind p r)
  behind-Found p none h k = tt
  behind-Found p (some (qs, a)) h k = (h, k)

  pub visit-All : (ps : List ManagedProcess) → All P ps → Found (All P) (visit test f ps)
  unfolding visit
  visit-All [] h = tt
  visit-All (p ∷ ps) h = elim (Bool-cases (test p)) [
    | inl e ↦ rw e (keep p e h.0, h.1)
    | inr e ↦ rw e (behind-Found p (visit test f ps) h.0 (visit-All ps h.1))
  ]

  -- A search finds nothing, or leaves a list with the same property.
  pub visit_cases :
      (ps : List ManagedProcess)
      → All P ps
      → (visit test f ps ≡ none)
        ⊎ ((qs : List ManagedProcess) × (a : A) × (visit test f ps ≡ some (qs, a)) × All P qs)
  visit_cases ps h = go (visit test f ps) refl (visit-All ps h)
    where
      go :
          (r : Option (List ManagedProcess × A))
          → visit test f ps ≡ r
          → Found (All P) r
          → (visit test f ps ≡ none)
            ⊎ ((qs : List ManagedProcess) × (a : A) × (visit test f ps ≡ some (qs, a)) × All P qs)
      go none e k = inl e
      go (some (qs, a)) e k = inr (qs, a, e, k)

  pub visit_if_cases :
      (b : Bool) (ps : List ManagedProcess)
      → All P ps
      → (visit_if b test f ps ≡ none)
        ⊎ ((qs : List ManagedProcess) × (a : A) × (visit_if b test f ps ≡ some (qs, a)) × All P qs)
  visit_if_cases true ps h = visit_cases ps h
  visit_if_cases false ps h = inl refl

module _ {κ} (P : ManagedProcess → Type κ) (f : ManagedProcess → World → ManagedProcess × World)
    (keep : (p : ManagedProcess) (w : World) → P p → P (f p w).0) where
  pub for_each-All : (ps : List ManagedProcess) (w : World) → All P ps → All P (for_each f ps w).0
  unfolding for_each
  for_each-All [] w h = tt
  for_each-All (p ∷ ps) w h = (keep p w h.0, for_each-All ps (f p w).1 h.1)
