-- ===== src/Launch/Names.antt =====
-- system/launch_manager/process_manager.cpp: StartProcess keeps the names of the processes apart.
use openember.Prelude.{
  ◌≡◌, refl, sym, ◌∙◌, ap, true, false, Bool-cases, ◌||◌, inl, inr, List, [], ◌∷◌, ◌++◌, map,
  Option, none, some, All, All-append,
}
use mathlib.Core.List.{map-append}
use openember.Prelude.Int.{is_positive}
use openember.Prelude.Text.{Text, text_eq, text_eq→eq, is_empty}
use openember.Launch.Spec.{ProcessSpec}
use openember.Launch.World.{Os, Fork, child, fork_failed, ProcessEvent, World}
use openember.Launch.Process.{ManagedProcess, Manager, managed, visit, behind, named}
use openember.Launch.Start.{
  forked, start_one, default_name, start_existing, start_named, start_process,
}

abbrev pub names : List ManagedProcess → List Text
names = map (λ p. p.spec.name)

-- No two names of the list are equal.
abbrev pub Distinct : List Text → Type 0
Distinct [] = Unit
Distinct (n ∷ ns) = All (λ k. text_eq n k ≡ false) ns × Distinct ns

abbrev found_names {ℓ} :
    {A : Type ℓ} → List ManagedProcess → Option (List ManagedProcess × A) → List Text
found_names ps none = names ps
found_names ps (some (qs, a)) = names qs

module _ {ℓ} {A : Type ℓ} (f : ManagedProcess → ManagedProcess × A) (n : Text) where
  -- A search by name that gives the process a spec of that name leaves the names alone.
  behind-names :
      (p : ManagedProcess) (ps : List ManagedProcess) (r : Option (List ManagedProcess × A))
      → found_names ps r ≡ names ps
      → found_names (p ∷ ps) (behind p r) ≡ names (p ∷ ps)
  behind-names p ps none h = refl
  behind-names p ps (some (qs, a)) h = ap (λ ns. p.spec.name ∷ ns) h

  visit-names :
      ((p : ManagedProcess) → text_eq p.spec.name n ≡ true → (f p).0.spec.name ≡ p.spec.name)
      → (ps : List ManagedProcess) → found_names ps (visit (named n) f ps) ≡ names ps
  unfolding visit
  visit-names h [] = refl
  visit-names h (p ∷ ps) = elim (Bool-cases (text_eq p.spec.name n)) [
    | inl e ↦ rw e (ap (λ k. k ∷ names ps) (h p e))
    | inr e ↦ rw e (behind-names p ps (visit (named n) f ps) (visit-names h ps))
  ]

  -- A search that finds nothing: the name is new.
  behind-none :
      (p : ManagedProcess) (r : Option (List ManagedProcess × A)) → behind p r ≡ none → r ≡ none
  behind-none p none h = refl
  behind-none p (some (qs, a)) h = cc

  visit-none :
      (ps : List ManagedProcess)
      → visit (named n) f ps ≡ none
      → All (λ k. text_eq k n ≡ false) (names ps)
  unfolding visit
  visit-none [] h = tt
  visit-none (p ∷ ps) h = elim (Bool-cases (text_eq p.spec.name n)) [
    | inl e ↦ absurd (never (rw e at h))
    | inr e ↦ (e, visit-none ps (behind-none p _ (rw e at h)))
  ]
    where
      never : {x : List ManagedProcess × A} → some x ≡ none → ⊥
      never h = cc

Distinct-snoc :
    (ns : List Text) (n : Text)
    → Distinct ns
    → All (λ k. text_eq k n ≡ false) ns
    → Distinct (ns ++ n ∷ [])
Distinct-snoc [] n d h = (tt, tt)
Distinct-snoc (k ∷ ns) n d h =
    (All-append (λ j. text_eq k j ≡ false) ns (n ∷ []) d.0 (h.0, tt), Distinct-snoc ns n d.1 h.1)

module _ (os : Os) where
  forked-spec : (r : Fork) (p : ManagedProcess) (w : World) → (forked os r p w).0.spec ≡ p.spec
  unfolding forked
  forked-spec (child n) p w = refl
  forked-spec (fork_failed e) p w = refl

  start_one-spec : (p : ManagedProcess) (w : World) → (start_one os p w).0.spec ≡ p.spec
  unfolding start_one
  start_one-spec p w = elim (Bool-cases (is_positive p.pid)) [
    | inl e ↦ rw e refl
    | inr e ↦ rw e (forked-spec (os.fork _) _ _)
  ]

  start_existing-name :
      (s : ProcessSpec) (w : World) (p : ManagedProcess)
      → text_eq p.spec.name s.name ≡ true
      → (start_existing os s w p).0.spec.name ≡ p.spec.name
  unfolding start_existing
  start_existing-name s w p h = elim (Bool-cases (is_positive p.pid)) [
    | inl e ↦ rw e refl
    | inr e ↦ rw e (
        ap (λ (t : ProcessSpec). t.name) (start_one-spec (record p { spec = s }) w)
        ∙ sym (text_eq→eq p.spec.name s.name h))
  ]

  start_named-Distinct :
      (s : ProcessSpec) (m : Manager)
      → Distinct (names m.processes)
      → Distinct (names (start_named os s m).0.processes)
  unfolding start_named
  start_named-Distinct s m d =
      go (visit (named s.name) f m.processes) refl
        (visit-names f s.name (start_existing-name s m.world) m.processes)
    where
      f : ManagedProcess → ManagedProcess × (World × ProcessEvent)
      f = start_existing os s m.world

      q : ManagedProcess
      q = (start_one os (managed s) m.world).0

      go :
          (r : Option (List ManagedProcess × (World × ProcessEvent)))
          → visit (named s.name) f m.processes ≡ r
          → found_names m.processes r ≡ names m.processes
          → Distinct (names (start_named os s m).0.processes)
      go none e h =
          rw (e, start_named)
            (rw
              (
                map-append (λ (p : ManagedProcess). p.spec.name) m.processes (q ∷ []),
                start_one-spec (managed s) m.world,
              )
              (Distinct-snoc (names m.processes) s.name d (visit-none f s.name m.processes e)))
      go (some (qs, a)) e h = rw (e, start_named) (rw h d)

  -- If the processes of a manager have different names, they still have after StartProcess.
  pub start_process-Distinct :
      (s : ProcessSpec) (m : Manager)
      → Distinct (names m.processes)
      → Distinct (names (start_process os s m).0.processes)
  unfolding start_process
  start_process-Distinct s m d =
      let t = default_name s in
      elim (Bool-cases (is_empty t.name || is_empty t.command)) [
        | inl e ↦ rw e d
        | inr e ↦ rw e (start_named-Distinct t m d)
      ]
