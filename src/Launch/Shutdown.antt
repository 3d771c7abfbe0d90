-- ===== src/Launch/Shutdown.antt =====
-- system/launch_manager/process_manager.cpp: StopAll comes to an end, with no process left.
use openember.Prelude.{
  ℕ, suc, ◌≡◌, refl, ◌∙◌, true, false, Bool-cases, ap, inl, inr, List, [], ◌∷◌, ◌++◌, some, arith,
  All,
}
use openember.Prelude.Int.{ℤ, pos, negsuc, is_positive, int_eq, int_eq→eq}
use openember.Prelude.Text.{codes}
use openember.Launch.World.{Os, WaitStatus}
use openember.Launch.Process.{Manager}
use openember.Launch.Stop.{stop_one}
use openember.Launch.Poll.{
  Wait, reaped, interrupted, poll, any_running, kill_round, stop_rounds, stop_all,
}
use openember.Launch.Pids.{
  reports, IsCovered, Distinct, pids, release, any_positive, reports_all, any_running-pids,
  for_each-pids, stop_one-pid, poll-pids, kill_round-pids,
}

suc_positive : (n : ℕ) → is_positive (pos (suc n)) ≡ true
suc_positive n = ground arith

-- The rest of the list has no second process of the pid that is released.
others-IsCovered :
    (n : ℕ) (st : WaitStatus) (ws : List Wait) (i : ℤ) (js : List ℤ)
    → i ≡ pos (suc n)
    → All (λ j. is_positive i ≡ true → int_eq j i ≡ false) js
    → All (IsCovered (reaped n st ∷ ws)) js
    → All (IsCovered ws) js
unfolding reports
others-IsCovered n st ws i [] e d c = tt
others-IsCovered n st ws i (j ∷ js) e d c =
    (ground (arith, d.0 (rw e (suc_positive n)), c.0), others-IsCovered n st ws i js e d.1 c.1)

release-IsCovered :
    (n : ℕ) (st : WaitStatus) (ws : List Wait) (is : List ℤ)
    → Distinct is
    → All (IsCovered (reaped n st ∷ ws)) is
    → All (IsCovered ws) (release (pos (suc n)) is)
unfolding release reports
release-IsCovered n st ws [] d c = tt
release-IsCovered n st ws (i ∷ is) d c = elim (Bool-cases (int_eq i (pos (suc n)))) [
  | inl e ↦ rw e ((λ h. cc), others-IsCovered n st ws i is (int_eq→eq i (pos (suc n)) e) d.0 c.1)
  | inr e ↦ rw e ((λ h. rw e at (c.0 h)), release-IsCovered n st ws is d.1 c.1)
]

release-All :
    (i k : ℤ) (is : List ℤ)
    → All (λ j. is_positive k ≡ true → int_eq j k ≡ false) is
    → All (λ j. is_positive k ≡ true → int_eq j k ≡ false) (release i is)
unfolding release
release-All i k [] h = tt
release-All i k (j ∷ js) h = elim (Bool-cases (int_eq j i)) [
  | inl e ↦ rw e ((λ p. gone k p), h.1)
  | inr e ↦ rw e (h.0, release-All i k js h.1)
]
  where
    gone : (l : ℤ) → is_positive l ≡ true → int_eq (negsuc 0) l ≡ false
    gone (pos n) p = refl
    gone (negsuc n) p = cc

release-Distinct : (i : ℤ) (is : List ℤ) → Distinct is → Distinct (release i is)
unfolding release
release-Distinct i [] d = tt
release-Distinct i (j ∷ js) d = elim (Bool-cases (int_eq j i)) [
  | inl e ↦ rw e (down js, d.1)
  | inr e ↦ rw e (release-All i j js d.0, release-Distinct i js d.1)
]
  where
    down : (ks : List ℤ) → All (λ k. is_positive (negsuc 0) ≡ true → int_eq k (negsuc 0) ≡ false) ks
    down [] = tt
    down (k ∷ ks) = ((λ h. cc), down ks)

-- After the exits of a call of Poll, the running processes are covered by what is still to come.
reports_all-IsCovered :
    (ws vs : List Wait) (is : List ℤ)
    → Distinct is
    → All (IsCovered (ws ++ vs)) is
    → Distinct (reports_all ws is) × All (IsCovered vs) (reports_all ws is)
unfolding reports_all
reports_all-IsCovered [] vs is d c = (d, c)
reports_all-IsCovered (reaped n st ∷ ws) vs is d c =
    reports_all-IsCovered ws vs (release (pos (suc n)) is) (release-Distinct _ is d)
      (release-IsCovered n st (ws ++ vs) is d c)
reports_all-IsCovered (interrupted ∷ ws) vs is d c =
    reports_all-IsCovered ws vs is d (unfold reports in skip is c)
  where
    skip :
        (js : List ℤ)
        → All (IsCovered (interrupted ∷ (ws ++ vs))) js
        → All (IsCovered (ws ++ vs)) js
    skip [] h = tt
    skip (j ∷ js) h = (unfold reports in h.0, skip js h.1)

covered_by_none : (is : List ℤ) → All (IsCovered []) is → any_positive is ≡ false
unfolding reports
covered_by_none [] c = refl
covered_by_none (i ∷ is) c = ground (arith, c.0, covered_by_none is c.1)

-- Nothing runs and the manager accepts no restart.
abbrev pub IsDown : Manager → Type 0
IsDown m = (any_running m.processes ≡ false) × (m.is_stopping ≡ true)

-- The results of waitpid over several calls of Poll.
abbrev pub flatten : List (List Wait) → List Wait
flatten [] = []
flatten (ws ∷ rounds) = ws ++ flatten rounds

module _ (os : Os) where
  abbrev round : List Wait → Manager → Manager
  round ws m = kill_round os (poll os ws m)

  round-pids :
      (ws : List Wait) (m : Manager)
      → m.is_stopping ≡ true
      → (pids (round ws m).processes ≡ reports_all ws (pids m.processes))
        × ((round ws m).is_stopping ≡ true)
  round-pids ws m h = (
    (kill_round-pids os (poll os ws m)).0 ∙ (poll-pids os ws m h).0,
    (kill_round-pids os (poll os ws m)).1 ∙ (poll-pids os ws m h).1,
  )

  stop_rounds_end :
      (ws : List Wait) (rounds : List (List Wait)) (m : Manager)
      → m.is_stopping ≡ true
      → Distinct (pids m.processes)
      → All (IsCovered (ws ++ flatten rounds)) (pids m.processes)
      → (n : Manager) × (stop_rounds os (ws ∷ rounds) m ≡ some n) × IsDown n
  unfolding stop_rounds
  stop_rounds_end ws [] m s d c =
      let (e, t) = round-pids ws m s in
      let (d', c') = reports_all-IsCovered ws [] (pids m.processes) d c in
      let idle : any_running (round ws m).processes ≡ false =
        any_running-pids (round ws m).processes ∙ ap any_positive e ∙ covered_by_none _ c' in
      (round ws m, rw idle refl, (idle, t))
  stop_rounds_end ws (vs ∷ rounds) m s d c =
      let (e, t) = round-pids ws m s in
      let (d', c') = reports_all-IsCovered ws (flatten (vs ∷ rounds)) (pids m.processes) d c in
      elim (Bool-cases (any_running (round ws m).processes)) [
        | inl b ↦ rw b (stop_rounds_end vs rounds (round ws m) t (rw e d') (rw e c'))
        | inr b ↦ (round ws m, rw b refl, (b, t))
      ]

  -- StopAll returns, with no process running and no restart possible, if the running processes have
  -- different pids and waitpid reports the exit of each of them in one of the rounds given.
  pub stop_all_end :
      (ws : List Wait) (rounds : List (List Wait)) (m : Manager)
      → Distinct (pids m.processes)
      → All (IsCovered (ws ++ flatten rounds)) (pids m.processes)
      → (n : Manager) × (stop_all os (ws ∷ rounds) m ≡ some n) × IsDown n
  unfolding stop_all
  stop_all_end ws rounds m d c =
      let e =
        for_each-pids os (stop_one os (codes "stopping") (pos 0) true) (stop_one-pid os) m.processes
          m.world in
      stop_rounds_end ws rounds _ refl (rw e d) (rw e c)
