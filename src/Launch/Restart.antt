-- ===== src/Launch/Restart.antt =====
-- system/launch_manager/process_manager.cpp: when HandleExit starts a process again.
use openember.Prelude.{
  ℕ, suc, ◌≤◌, ◌<◌, ◌≡◌, refl, ap, ◌∙◌, ◌==◌, ◌||◌, ltb, Bool, true, false, Bool-cases, not, ◌&&◌,
  inl, inr, List, [], ◌∷◌, arith, All, All-map,
}
use openember.Prelude.Int.{ℤ, is_positive}
use openember.Prelude.Text.{Text}
use openember.Prelude.Word.{u32}
use openember.Launch.World.{
  Os, Fork, child, fork_failed, WaitStatus, exited, signaled, other_status, exited_successfully,
  World,
}
use openember.Launch.Process.{ManagedProcess, managed, init, emit_event}
use openember.Launch.Start.{forked, start_one, default_name}
use openember.Launch.Stop.{stop_one, beat}
use openember.Launch.Poll.{restart_by_policy, should_restart, reap, handle_found}
use openember.Launch.Spec.{ProcessSpec, RestartPolicy, never, always, on_failure}
use openember.Launch.Lift.{IsKept, Respecs, run-All}
use openember.Launch.Run.{Call, starts_all, starts, stops, beats, polls, run}

abbrev pub is_child : Fork → Bool
is_child (child n) = true
is_child (fork_failed e) = false

-- Whether a policy asks for a restart after an exit, by the exit's kind.
abbrev pub asks_restart : RestartPolicy → WaitStatus → Bool
asks_restart never status = false
asks_restart always status = true
asks_restart on_failure (exited code) = not (code == 0)
asks_restart on_failure (signaled s) = true
asks_restart on_failure (other_status n) = true

-- Whether a limit leaves room for one more restart; a limit of 0 is none.
abbrev pub has_room : ℕ → ℕ → Bool
has_room limit count = limit == 0 || ltb count limit

restart_by_policy_lem :
    (policy : RestartPolicy) (status : WaitStatus)
    → restart_by_policy policy status ≡ asks_restart policy status
unfolding restart_by_policy exited_successfully
restart_by_policy_lem never status = refl
restart_by_policy_lem always status = refl
restart_by_policy_lem on_failure (exited code) = refl
restart_by_policy_lem on_failure (signaled s) = refl
restart_by_policy_lem on_failure (other_status n) = refl

should_restart_lem :
    (p : ManagedProcess) (status : WaitStatus)
    → should_restart p status
      ≡ (has_room p.spec.restart_limit p.restart_count && asks_restart p.spec.restart status)
unfolding should_restart
should_restart_lem p status = ground (arith, restart_by_policy_lem p.spec.restart status)

module _ (os : Os) where
  forked-pid :
      (r : Fork) (p : ManagedProcess) (w : World)
      → is_positive p.pid ≡ false
      → is_positive (forked os r p w).0.pid ≡ is_child r
  unfolding forked
  forked-pid (child n) p w h = ground arith
  forked-pid (fork_failed e) p w h = h

  start_one-pid :
      (p : ManagedProcess) (w : World)
      → is_positive p.pid ≡ false
      → is_positive (start_one os p w).0.pid ≡ is_child (os.fork (suc w.calls))
  unfolding start_one emit_event
  start_one-pid p w h = rw h (forked-pid (os.fork (suc w.calls)) _ _ h)

  handle_found-should_restart :
      (is_stopping : Bool) (status : WaitStatus) (w : World) (p : ManagedProcess)
      → is_positive (handle_found os is_stopping status w p).0.pid ≡ (
          not is_stopping
          && not p.intentional_stop
          && should_restart p status
          && is_child (os.fork (suc (suc w.calls))))
  unfolding handle_found reap emit_event should_restart
  handle_found-should_restart b status w p = ground (
    arith,
    start_one-pid (record (reap os b status w p).0 { restart_count = u32 (suc p.restart_count) })
        (reap os b status w p).1 refl,
  )

  -- After the exit of a process it runs again exactly if the manager is not stopping, the process
  -- was not stopped on purpose, it has no restart limit or has been restarted less often than that,
  -- its policy is `always`, or `on_failure` and the exit is not one with status 0, and the fork
  -- succeeds.
  pub handle_found-restarts :
      (is_stopping : Bool) (status : WaitStatus) (w : World) (p : ManagedProcess)
      → is_positive (handle_found os is_stopping status w p).0.pid ≡ (
          not is_stopping
          && not p.intentional_stop
          && (has_room p.spec.restart_limit p.restart_count && asks_restart p.spec.restart status)
          && is_child (os.fork (suc (suc w.calls))))
  handle_found-restarts b status w p =
      handle_found-should_restart b status w p
      ∙ ap (λ r. not b && not p.intentional_stop && r && is_child (os.fork (suc (suc w.calls))))
          (should_restart_lem p status)

-- The restart count is within the limit of the process, if it has one.
abbrev pub IsBounded : ManagedProcess → Type 0
IsBounded p = 0 < p.spec.restart_limit → p.restart_count ≤ p.spec.restart_limit

module _ (os : Os) where
  forked-IsBounded :
      (r : Fork) (p : ManagedProcess) (w : World) → IsBounded p → IsBounded (forked os r p w).0
  unfolding forked
  forked-IsBounded (child n) p w h = h
  forked-IsBounded (fork_failed e) p w h = h

  start_one-IsBounded :
      (p : ManagedProcess) (w : World) → IsBounded p → IsBounded (start_one os p w).0
  unfolding start_one
  start_one-IsBounded p w h = elim (Bool-cases (is_positive p.pid)) [
    | inl e ↦ rw e h
    | inr e ↦ rw e (forked-IsBounded (os.fork _) _ _ h)
  ]

  stop_one-IsBounded :
      (text : Text) (t : ℤ) (b : Bool) (p : ManagedProcess) (w : World)
      → IsBounded p
      → IsBounded (stop_one os text t b p w).0
  unfolding stop_one
  stop_one-IsBounded text t b p w h = ground (arith, h)

  -- The one place where the count grows: below the limit only.
  restarted-IsBounded :
      (p : ManagedProcess) (st : WaitStatus)
      → IsBounded p
      → should_restart p st ≡ true
      → IsBounded (record p { restart_count = u32 (suc p.restart_count) })
  unfolding should_restart
  restarted-IsBounded p st h e = ground arith

  handle_found-IsBounded :
      (b : Bool) (st : WaitStatus) (w : World) (p : ManagedProcess)
      → IsBounded p
      → IsBounded (handle_found os b st w p).0
  unfolding handle_found
  handle_found-IsBounded b st w p h = elim (Bool-cases restarts) [
    | inl e ↦ rw e (start_one-IsBounded _ _ (restarted-IsBounded q st kept (ground (arith, e))))
    | inr e ↦ rw e kept
  ]
    where
      q : ManagedProcess
      q = (reap os b st w p).0

      restarts : Bool
      restarts = not b && not p.intentional_stop && should_restart q st

      kept : IsBounded q
      kept = unfold reap in h

  IsBounded-kept : IsKept os IsBounded
  IsBounded-kept = record {
    created = λ s h. omega arith;
    started = start_one-IsBounded;
    stopped = stop_one-IsBounded;
    beaten = λ w p h. unfold beat in h;
    exited = handle_found-IsBounded;
  }

-- A start request that sets no restart limit, or a call of another kind.
abbrev pub SetsNoLimit : Call → Type 0
SetsNoLimit (starts s) = s.restart_limit ≡ 0
SetsNoLimit starts_all = Unit
SetsNoLimit (stops name pid t) = Unit
SetsNoLimit (beats name) = Unit
SetsNoLimit (polls ws) = Unit

default_name-limit : (s : ProcessSpec) → (default_name s).restart_limit ≡ s.restart_limit
default_name-limit s = ground arith

Respecs-IsBounded : (cs : List Call) → All SetsNoLimit cs → All (Respecs IsBounded) cs
Respecs-IsBounded [] h = tt
Respecs-IsBounded (starts s ∷ cs) h =
    (λ p _ _ k. absurd (omega (arith, default_name-limit s, h.0)), Respecs-IsBounded cs h.1)
Respecs-IsBounded (starts_all ∷ cs) h = (tt, Respecs-IsBounded cs h.1)
Respecs-IsBounded (stops name pid t ∷ cs) h = (tt, Respecs-IsBounded cs h.1)
Respecs-IsBounded (beats name ∷ cs) h = (tt, Respecs-IsBounded cs h.1)
Respecs-IsBounded (polls ws ∷ cs) h = (tt, Respecs-IsBounded cs h.1)

-- After any sequence of calls on a new manager in which no start request sets a restart limit, no
-- process with a limit has been restarted more often than its limit allows.
pub run-init-IsBounded :
    (os : Os) (specs : List ProcessSpec) (callback : Bool) (cs : List Call)
    → All SetsNoLimit cs
    → All IsBounded (run os cs (init specs callback)).processes
unfolding init
run-init-IsBounded os specs callback cs h =
    run-All os IsBounded (IsBounded-kept os) cs (init specs callback) (Respecs-IsBounded cs h)
      (All-map IsBounded managed (λ s k. omega arith) specs)
