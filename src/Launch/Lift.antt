-- ===== src/Launch/Lift.antt =====
-- system/launch_manager/process_manager.cpp: a property of single processes that the steps on one
-- process keep is kept by every call.
use openember.Prelude.{
  ℕ, suc, ◌≡◌, Bool, true, false, Bool-cases, not, ◌||◌, ◌⊎◌, inl, inr, List, [], ◌∷◌, none, some,
  All, All-append, arith,
}
use openember.Prelude.Int.{ℤ, pos, is_positive}
use openember.Prelude.Text.{Text, codes, is_empty}
use openember.Launch.Spec.{ProcessSpec}
use openember.Launch.World.{Os, WaitStatus, ProcessEvent, World}
use openember.Launch.Process.{ManagedProcess, Manager, managed, visit_if, named, has_pid}
use openember.Launch.Start.{
  start_one, start_each, start_all, default_name, start_existing, start_named, start_process,
}
use openember.Launch.Stop.{
  stop_one, stop_found, stop_process, stop_missing, beat, mark_heartbeat, check_one,
  check_heartbeat_timeouts,
}
use openember.Launch.Poll.{Wait, reaped, interrupted, handle_found, handle_exit, poll}
use openember.Launch.Traverse.{visit_cases, visit_if_cases, for_each-All}
use openember.Launch.Run.{Call, starts_all, starts, stops, beats, polls, apply, run}

pub record IsKept (os : Os) (P : ManagedProcess → Type 0) : Type 0 where
  pub created : (s : ProcessSpec) → P (managed s)
  pub started : (p : ManagedProcess) (w : World) → P p → P (start_one os p w).0
  pub stopped :
      (text : Text) (t : ℤ) (b : Bool) (p : ManagedProcess) (w : World)
      → P p
      → P (stop_one os text t b p w).0
  pub beaten : (w : World) (p : ManagedProcess) → P p → P (beat os w p).0
  pub exited :
      (b : Bool) (st : WaitStatus) (w : World) (p : ManagedProcess)
      → P p
      → P (handle_found os b st w p).0

-- StartProcess gives an existing process a new spec, which the property must allow.
abbrev pub Respecs : (ManagedProcess → Type 0) → Call → Type 0
Respecs P (starts s) =
    (p : ManagedProcess) → is_positive p.pid ≡ false → P p → P (record p { spec = default_name s })
Respecs P starts_all = Unit
Respecs P (stops name pid t) = Unit
Respecs P (beats name) = Unit
Respecs P (polls ws) = Unit

module _ (os : Os) (P : ManagedProcess → Type 0) (kept : IsKept os P) where
  start_each-All : (ps : List ManagedProcess) (w : World) → All P ps → All P (start_each os ps w).0
  unfolding start_each
  start_each-All [] w h = tt
  start_each-All (p ∷ ps) w h = (kept.started p w h.0, start_each-All ps _ h.1)

  start_existing-All :
      (s : ProcessSpec) (w : World) (p : ManagedProcess)
      → ((q : ManagedProcess) → is_positive q.pid ≡ false → P q → P (record q { spec = s }))
      → P p
      → P (start_existing os s w p).0
  unfolding start_existing
  start_existing-All s w p respec h = elim (Bool-cases (is_positive p.pid)) [
    | inl e ↦ rw e h
    | inr e ↦ rw e (kept.started (record p { spec = s }) w (respec p e h))
  ]

  stop_found-All : (t : ℤ) (w : World) (p : ManagedProcess) → P p → P (stop_found os t w p).0
  unfolding stop_found
  stop_found-All t w p h = elim (Bool-cases (is_positive p.pid)) [
    | inl e ↦ rw e (kept.stopped (codes "stop requested") t true p w h)
    | inr e ↦ rw e h
  ]

  check_one-All : (now : ℕ) (p : ManagedProcess) (w : World) → P p → P (check_one os now p w).0
  unfolding check_one
  check_one-All now p w h = ground (
    arith,
    kept.stopped (codes "startup heartbeat timeout") (pos 0) false p w h,
    kept.stopped (codes "heartbeat timeout") (pos 0) false p w h,
  )

  module _ (m : Manager) (h : All P m.processes) where
    start_named-All :
        (s : ProcessSpec)
        → ((q : ManagedProcess) → is_positive q.pid ≡ false → P q → P (record q { spec = s }))
        → All P (start_named os s m).0.processes
    unfolding start_named
    start_named-All s respec =
        elim (visit_cases P (named s.name) (start_existing os s m.world)
          (λ p _ k. start_existing-All s m.world p respec k) m.processes h) [
            | inl e ↦
                rw (e, start_named)
                  (All-append P m.processes _ h
                    (kept.started (managed s) m.world (kept.created s), tt))
            | inr (qs, a, e, k) ↦ rw (e, start_named) k
          ]

    start_process-All :
        (s : ProcessSpec) → Respecs P (starts s) → All P (start_process os s m).0.processes
    unfolding start_process
    start_process-All s respec =
        let t = default_name s in
        elim (Bool-cases (is_empty t.name || is_empty t.command)) [
          | inl e ↦ rw e h
          | inr e ↦ rw e (start_named-All t respec)
        ]

    stop_process-All : (name : Text) (pid t : ℤ) → All P (stop_process os name pid t m).0.processes
    unfolding stop_process
    stop_process-All name pid t = elim (search (named name) (not (is_empty name))) [
      | inr (qs, a, e, k) ↦ rw (e, stop_process) k
      | inl e ↦ elim (search (has_pid pid) (is_positive pid)) [
        | inr (qs, a, e', k) ↦ rw (e, e', stop_process) k
        | inl e' ↦ rw (e, e', stop_process) (unfold stop_missing in h)
      ]
    ]
      where
        search :
            (test : ManagedProcess → Bool) (b : Bool)
            → (visit_if b test (stop_found os t m.world) m.processes ≡ none)
              ⊎ ((qs : List ManagedProcess) × (a : World × ProcessEvent) × (visit_if b test
                      (stop_found os t m.world)
                      m.processes
                    ≡ some (qs, a))
                  × All P qs)
        search test b =
            visit_if_cases P test (stop_found os t m.world) (λ p _ k. stop_found-All t m.world p k)
              b m.processes h

    mark_heartbeat-All : (name : Text) → All P (mark_heartbeat os name m).0.processes
    unfolding mark_heartbeat
    mark_heartbeat-All name =
        elim (visit_cases P (named name) (beat os m.world) (λ p _ k. kept.beaten m.world p k)
          m.processes h) [
            | inl e ↦ rw (e, mark_heartbeat) h
            | inr (qs, a, e, k) ↦ rw (e, mark_heartbeat) k
          ]

    handle_exit-All : (pid : ℤ) (st : WaitStatus) → All P (handle_exit os pid st m).processes
    unfolding handle_exit
    handle_exit-All pid st =
        elim (visit_cases P (has_pid pid) (handle_found os m.is_stopping st m.world)
          (λ p _ k. kept.exited m.is_stopping st m.world p k) m.processes h) [
            | inl e ↦ rw (e, handle_exit) h
            | inr (qs, a, e, k) ↦ rw (e, handle_exit) k
          ]

    check_heartbeat_timeouts-All : All P (check_heartbeat_timeouts os m).processes
    unfolding check_heartbeat_timeouts
    check_heartbeat_timeouts-All = elim (Bool-cases m.is_stopping) [
      | inl e ↦ rw e h
      | inr e ↦
          rw e (for_each-All P (check_one os _) (λ p w k. check_one-All _ p w k) m.processes _ h)
    ]

  pub poll-All : (ws : List Wait) (m : Manager) → All P m.processes → All P (poll os ws m).processes
  unfolding poll
  poll-All [] m h = check_heartbeat_timeouts-All m h
  poll-All (reaped n st ∷ ws) m h =
      poll-All ws (handle_exit os (pos (suc n)) st m) (handle_exit-All m h (pos (suc n)) st)
  poll-All (interrupted ∷ ws) m h = poll-All ws m h

  apply-All :
      (c : Call) (m : Manager) → Respecs P c → All P m.processes → All P (apply os c m).processes
  unfolding apply start_all
  apply-All starts_all m r h = start_each-All m.processes m.world h
  apply-All (starts s) m r h = start_process-All m h s r
  apply-All (stops name pid t) m r h = stop_process-All m h name pid t
  apply-All (beats name) m r h = mark_heartbeat-All m h name
  apply-All (polls ws) m r h = poll-All ws m h

  pub run-All :
      (cs : List Call) (m : Manager)
      → All (Respecs P) cs
      → All P m.processes
      → All P (run os cs m).processes
  unfolding run
  run-All [] m r h = h
  run-All (c ∷ cs) m r h = run-All cs (apply os c m) r.1 (apply-All c m r.0 h)
