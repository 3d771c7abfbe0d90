-- ===== src/Launch/Coherence.antt =====
-- system/launch_manager/process_manager.cpp: the state of a process and its pid agree between calls.
use openember.Prelude.{
  suc, ◌≡◌, Bool, true, false, inl, inr, List, [], ◌∷◌, arith, All, Bool-cases, All-map,
}
use openember.Prelude.Int.{ℤ, is_positive}
use openember.Prelude.Text.{Text}
use openember.Prelude.Word.{u32}
use openember.Launch.Spec.{ProcessSpec}
use openember.Launch.World.{
  Os, Fork, child, fork_failed, WaitStatus, running, stopping, stopped, has_exited, failed,
  ProcessState, World,
}
use openember.Launch.Process.{ManagedProcess, Manager, managed, init}
use openember.Launch.Start.{forked, start_one}
use openember.Launch.Stop.{stop_one, beat}
use openember.Launch.Poll.{exit_state, reap, handle_found}
use openember.Launch.Lift.{IsKept, Respecs, run-All}
use openember.Launch.Run.{Call, starts_all, starts, stops, beats, polls, run}

-- The states of a process that runs, and of one that does not.
abbrev pub is_live_state : ProcessState → Bool
is_live_state running = true
is_live_state stopping = true
is_live_state _ = false

abbrev pub is_idle_state : ProcessState → Bool
is_idle_state stopped = true
is_idle_state has_exited = true
is_idle_state failed = true
is_idle_state _ = false

-- A process has a pid exactly if it runs or is being stopped; `starting` is left before a call ends.
pub record IsCoherent (p : ManagedProcess) : Type 0 where
  pub live : is_live_state p.state ≡ is_positive p.pid
  pub idle : is_positive p.pid ≡ false → is_idle_state p.state ≡ true

module _ (os : Os) where
  forked-IsCoherent :
      (r : Fork) (p : ManagedProcess) (w : World)
      → is_positive p.pid ≡ false
      → IsCoherent (forked os r p w).0
  unfolding forked
  forked-IsCoherent (child n) p w h = ground arith
  forked-IsCoherent (fork_failed e) p w h = ground arith

  start_one-IsCoherent :
      (p : ManagedProcess) (w : World) → IsCoherent p → IsCoherent (start_one os p w).0
  unfolding start_one
  start_one-IsCoherent p w h = elim (Bool-cases (is_positive p.pid)) [
    | inl e ↦ rw e h
    | inr e ↦ rw e (forked-IsCoherent (os.fork _) _ _ e)
  ]

  stop_one-IsCoherent :
      (text : Text) (t : ℤ) (b : Bool) (p : ManagedProcess) (w : World)
      → IsCoherent p
      → IsCoherent (stop_one os text t b p w).0
  unfolding stop_one
  stop_one-IsCoherent text t b p w h = ground arith

  reap-IsCoherent :
      (b : Bool) (st : WaitStatus) (w : World) (p : ManagedProcess)
      → IsCoherent (reap os b st w p).0
  unfolding reap exit_state
  reap-IsCoherent b st w p = ground arith

  handle_found-IsCoherent :
      (b : Bool) (st : WaitStatus) (w : World) (p : ManagedProcess)
      → IsCoherent (handle_found os b st w p).0
  unfolding handle_found
  handle_found-IsCoherent b st w p = ground (
    arith,
    reap-IsCoherent b st w p,
    start_one-IsCoherent
        (record (reap os b st w p).0 {
          restart_count = u32 (suc (reap os b st w p).0.restart_count);
        })
        (reap os b st w p).1
        (record { live = (reap-IsCoherent b st w p).live; idle = (reap-IsCoherent b st w p).idle }),
  )

-- A call leaves a manager whose processes are all coherent.
abbrev pub AllCoherent : Manager → Type 0
AllCoherent m = All IsCoherent m.processes

managed-IsCoherent : (s : ProcessSpec) → IsCoherent (managed s)
managed-IsCoherent s = ground arith

init-AllCoherent : (specs : List ProcessSpec) (b : Bool) → AllCoherent (init specs b)
unfolding init
init-AllCoherent specs b = All-map IsCoherent managed managed-IsCoherent specs

beat-IsCoherent :
    (os : Os) (w : World) (p : ManagedProcess) → IsCoherent p → IsCoherent (beat os w p).0
unfolding beat
beat-IsCoherent os w p h = record { live = h.live; idle = h.idle }

IsCoherent-kept : (os : Os) → IsKept os IsCoherent
IsCoherent-kept os = record {
  created = managed-IsCoherent;
  started = start_one-IsCoherent os;
  stopped = stop_one-IsCoherent os;
  beaten = beat-IsCoherent os;
  exited = λ b st w p _. handle_found-IsCoherent os b st w p;
}

Respecs-IsCoherent : (cs : List Call) → All (Respecs IsCoherent) cs
Respecs-IsCoherent [] = tt
Respecs-IsCoherent (starts s ∷ cs) =
    (λ p _ h. record { live = h.live; idle = h.idle }, Respecs-IsCoherent cs)
Respecs-IsCoherent (starts_all ∷ cs) = (tt, Respecs-IsCoherent cs)
Respecs-IsCoherent (stops name pid t ∷ cs) = (tt, Respecs-IsCoherent cs)
Respecs-IsCoherent (beats name ∷ cs) = (tt, Respecs-IsCoherent cs)
Respecs-IsCoherent (polls ws ∷ cs) = (tt, Respecs-IsCoherent cs)

-- After any sequence of calls on a new manager, whatever the system answers, each process has a pid
-- exactly if its state is `running` or `stopping`, and without a pid it is `stopped`, `has_exited`
-- or `failed`: never left in `starting`.
pub run-init-AllCoherent :
    (os : Os) (specs : List ProcessSpec) (callback : Bool) (cs : List Call)
    → AllCoherent (run os cs (init specs callback))
run-init-AllCoherent os specs callback cs =
    run-All os IsCoherent (IsCoherent-kept os) cs (init specs callback) (Respecs-IsCoherent cs)
      (init-AllCoherent specs callback)
