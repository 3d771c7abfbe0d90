-- ===== src/Launch/Pids.antt =====
-- system/launch_manager/process_manager.cpp: how Poll and the rounds of StopAll
-- change the pids of the processes, while the manager stops.
use openember.Prelude.{
  ℕ, suc, ◌≡◌, refl, ◌∙◌, Bool, true, false, Bool-cases, ◌||◌, ap, map, inl, inr, List, [], ◌∷◌,
  Option, none, some, arith, All, if◌then◌else◌,
}
use openember.Prelude.Int.{ℤ, pos, negsuc, is_positive, int_eq}
use openember.Prelude.Text.{codes}
use openember.Launch.World.{Os, WaitStatus, World}
use openember.Launch.Process.{ManagedProcess, Manager, has_pid, visit, behind, for_each}
use openember.Launch.Stop.{stop_one, check_heartbeat_timeouts}
use openember.Launch.Poll.{
  Wait, reaped, interrupted, reap, handle_found, visited, handle_exit, poll, kill_late, any_running,
  kill_round,
}

-- The results of waitpid report the exit of this pid.
unfoldable pub reports : List Wait → ℤ → Bool
reports [] i = false
reports (reaped n st ∷ ws) i = int_eq i (pos (suc n)) || reports ws i
reports (interrupted ∷ ws) i = reports ws i

-- A pid of a running process is reported.
abbrev pub IsCovered : List Wait → ℤ → Type 0
IsCovered ws i = is_positive i ≡ true → reports ws i ≡ true

-- No two running processes have one pid.
abbrev pub Distinct : List ℤ → Type 0
Distinct [] = Unit
Distinct (i ∷ is) = All (λ j. is_positive i ≡ true → int_eq j i ≡ false) is × Distinct is

abbrev pub pids : List ManagedProcess → List ℤ
pids = map (λ p. p.pid)

-- The effect of an exit on the pids: the first process of that pid has none any more.
unfoldable pub release : ℤ → List ℤ → List ℤ
release i [] = []
release i (j ∷ js) = if int_eq j i then negsuc 0 ∷ js else j ∷ release i js

abbrev pub any_positive : List ℤ → Bool
any_positive [] = false
any_positive (i ∷ is) = is_positive i || any_positive is

unfoldable pub reports_all : List Wait → List ℤ → List ℤ
reports_all [] is = is
reports_all (reaped n st ∷ ws) is = reports_all ws (release (pos (suc n)) is)
reports_all (interrupted ∷ ws) is = reports_all ws is

pub any_running-pids : (ps : List ManagedProcess) → any_running ps ≡ any_positive (pids ps)
unfolding any_running
any_running-pids [] = refl
any_running-pids (p ∷ ps) = ap (λ b. is_positive p.pid || b) (any_running-pids ps)

abbrev found_pids {ℓ} :
    {A : Type ℓ} → List ManagedProcess → Option (List ManagedProcess × A) → List ℤ
found_pids ps none = pids ps
found_pids ps (some (qs, a)) = pids qs

module _ (os : Os) where
  handle_found_down :
      (b : Bool) (st : WaitStatus) (w : World) (p : ManagedProcess)
      → b ≡ true
      → (handle_found os b st w p).0.pid ≡ negsuc 0
  unfolding handle_found reap
  handle_found_down b st w p h = ground arith

  behind-pids :
      (i : ℤ) (p : ManagedProcess) (ps : List ManagedProcess)
      (r : Option (List ManagedProcess × World))
      → found_pids ps r ≡ release i (pids ps)
      → found_pids (p ∷ ps) (behind p r) ≡ p.pid ∷ release i (pids ps)
  behind-pids i p ps none h = ap (λ is. p.pid ∷ is) h
  behind-pids i p ps (some (qs, a)) h = ap (λ is. p.pid ∷ is) h

  visit-release :
      (i : ℤ) (b : Bool) (st : WaitStatus) (w : World) (ps : List ManagedProcess)
      → b ≡ true
      → found_pids ps (visit (has_pid i) (handle_found os b st w) ps) ≡ release i (pids ps)
  unfolding visit release
  visit-release i b st w [] h = refl
  visit-release i b st w (p ∷ ps) h = elim (Bool-cases (int_eq p.pid i)) [
    | inl e ↦ rw e (ap (λ j. j ∷ pids ps) (handle_found_down b st w p h))
    | inr e ↦ rw e (
        behind-pids i p ps (visit (has_pid i) (handle_found os b st w) ps)
          (visit-release i b st w ps h))
  ]

  -- A list of processes whose pids a step leaves alone.
  pub for_each-pids :
      (f : ManagedProcess → World → ManagedProcess × World)
      → ((p : ManagedProcess) (w : World) → (f p w).0.pid ≡ p.pid)
      → (ps : List ManagedProcess) (w : World) → pids (for_each f ps w).0 ≡ pids ps
  unfolding for_each
  for_each-pids f same [] w = refl
  for_each-pids f same (p ∷ ps) w = cc (same p w, for_each-pids f same ps (f p w).1)

  pub stop_one-pid :
      (p : ManagedProcess) (w : World)
      → (stop_one os (codes "stopping") (pos 0) true p w).0.pid ≡ p.pid
  unfolding stop_one
  stop_one-pid p w = ground arith

  kill_late-pid : (now : ℕ) (p : ManagedProcess) (w : World) → (kill_late os now p w).0.pid ≡ p.pid
  unfolding kill_late
  kill_late-pid now p w = ground arith

  visited-pids :
      (m : Manager) (r : Option (List ManagedProcess × World))
      → (pids (visited m r).processes ≡ found_pids m.processes r)
        × ((visited m r).is_stopping ≡ m.is_stopping)
  visited-pids m none = (refl, refl)
  visited-pids m (some (ps, w)) = (refl, refl)

  handle_exit-pids :
      (i : ℤ) (st : WaitStatus) (m : Manager)
      → m.is_stopping ≡ true
      → (pids (handle_exit os i st m).processes ≡ release i (pids m.processes))
        × ((handle_exit os i st m).is_stopping ≡ true)
  unfolding handle_exit
  handle_exit-pids i st m h =
      let r = visit (has_pid i) (handle_found os m.is_stopping st m.world) m.processes in
      (
        (visited-pids m r).0 ∙ visit-release i m.is_stopping st m.world m.processes h,
        (visited-pids m r).1 ∙ h,
      )

  pub poll-pids :
      (ws : List Wait) (m : Manager)
      → m.is_stopping ≡ true
      → (pids (poll os ws m).processes ≡ reports_all ws (pids m.processes))
        × ((poll os ws m).is_stopping ≡ true)
  unfolding poll reports_all check_heartbeat_timeouts
  poll-pids [] m h = ground arith
  poll-pids (reaped n st ∷ ws) m h =
      let (e, k) = handle_exit-pids (pos (suc n)) st m h in
      rw (← e) (poll-pids ws (handle_exit os (pos (suc n)) st m) k)
  poll-pids (interrupted ∷ ws) m h = poll-pids ws m h

  pub kill_round-pids :
      (m : Manager)
      → (pids (kill_round os m).processes ≡ pids m.processes)
        × ((kill_round os m).is_stopping ≡ m.is_stopping)
  unfolding kill_round
  kill_round-pids m = (
    for_each-pids (kill_late os (os.steady_now m.world.calls)) (kill_late-pid _) m.processes _,
    refl,
  )
