-- ===== src/Launch/Supervision.antt =====
-- system/launch_manager/process_manager.cpp: what CheckHeartbeatTimeouts stops, and which signals
-- the manager sends.
use openember.Prelude.{
  ℕ, suc, ◌-◌, ◌≡◌, refl, sym, ◌∙◌, ap, Bool, true, false, Bool-cases, not, ◌&&◌, inl, inr, List,
  [], ◌∷◌, map, Option, none, some, arith, ltb, if◌then◌else◌,
}
use openember.Prelude.Int.{ℤ, pos, is_positive}
use openember.Prelude.Word.{u32}
use openember.Launch.World.{
  Os, Fork, child, fork_failed, WaitStatus, Signal, sigterm, sigkill, ProcessState, stopping, World,
  called,
}
use openember.Launch.Process.{ManagedProcess, Manager, emit_event, visit, behind, for_each, has_pid}
use openember.Launch.Start.{forked, start_one}
use openember.Launch.Stop.{is_stopping_state, stop_one, check_one, check_heartbeat_timeouts}
use openember.Launch.Poll.{
  Wait, reaped, interrupted, reap, handle_found, visited, handle_exit, poll,
}

-- Supervised, and silent for too long: no heartbeat since the start within the startup time-out,
-- or none within the heartbeat time-out since the last one.
pub is_silent : ℕ → ManagedProcess → Bool
is_silent now p =
    ltb 0 p.spec.heartbeat_timeout
    && (if p.has_heartbeat
        then ltb p.spec.heartbeat_timeout (now - p.last_heartbeat_time)
        else ltb 0 p.spec.startup_timeout && ltb p.spec.startup_timeout (now - p.start_time))

-- A running process that is silent and is not being stopped already.
pub is_overdue : ℕ → ManagedProcess → Bool
unfolding is_silent
is_overdue now p = is_positive p.pid && not (is_stopping_state p.state) && is_silent now p

-- The signals of a round, newest first.
pub terminations : ℕ → List ManagedProcess → List (ℤ × Signal) → List (ℤ × Signal)
terminations now [] sent = sent
terminations now (p ∷ ps) sent =
    terminations now ps (if is_overdue now p then (p.pid, sigterm) ∷ sent else sent)

-- What a supervision round decides of a process.
abbrev pub Outline : Type 0
Outline = ℤ × ProcessState × Bool

abbrev pub outline : ManagedProcess → Outline
outline p = (p.pid, p.state, p.intentional_stop)

pub judged : ℕ → ManagedProcess → Outline
judged now p = if is_overdue now p then (p.pid, stopping, false) else outline p

module _ (os : Os) where
  check_one-judged :
      (now : ℕ) (p : ManagedProcess) (w : World)
      → (outline (check_one os now p w).0 ≡ judged now p)
        × ((check_one os now p w).1.signals
            ≡ (if is_overdue now p then (p.pid, sigterm) ∷ w.signals else w.signals))
  unfolding check_one stop_one judged is_overdue emit_event
  check_one-judged now p w = ground arith

  check_each :
      (now : ℕ) (ps : List ManagedProcess) (w : World)
      → (map outline (for_each (check_one os now) ps w).0 ≡ map (judged now) ps)
        × ((for_each (check_one os now) ps w).1.signals ≡ terminations now ps w.signals)
  unfolding for_each terminations
  check_each now [] w = (refl, refl)
  check_each now (p ∷ ps) w =
      let (e, s) = check_one-judged now p w in
      let (es, t) = check_each now ps (check_one os now p w).1 in
      (cc, t ∙ ap (terminations now ps) s)

  -- CheckHeartbeatTimeouts of a manager that is not stopping sends SIGTERM to exactly the running
  -- processes that are silent for too long and are not being stopped, in their order, and marks
  -- exactly those as stopping, unintentionally; pid, state and intent of the others stay.
  pub check_heartbeat_timeouts-judged :
      (m : Manager)
      → m.is_stopping ≡ false
      → let now = os.steady_now m.world.calls in
        let n = check_heartbeat_timeouts os m in
        (map outline n.processes ≡ map (judged now) m.processes)
        × (n.world.signals ≡ terminations now m.processes m.world.signals)
  unfolding check_heartbeat_timeouts
  check_heartbeat_timeouts-judged m h = rw h (check_each _ m.processes (called m.world))

-- The pids that were sent SIGKILL.
pub killed : List (ℤ × Signal) → List ℤ
killed [] = []
killed ((i, sigkill) ∷ ss) = i ∷ killed ss
killed ((i, sigterm) ∷ ss) = killed ss

killed-terminations :
    (now : ℕ) (ps : List ManagedProcess) (sent : List (ℤ × Signal))
    → killed (terminations now ps sent) ≡ killed sent
unfolding terminations killed
killed-terminations now [] sent = refl
killed-terminations now (p ∷ ps) sent = elim (Bool-cases (is_overdue now p)) [
  | inl e ↦ rw e (killed-terminations now ps ((p.pid, sigterm) ∷ sent))
  | inr e ↦ rw e (killed-terminations now ps sent)
]

visited-behind :
    (m : Manager) (p : ManagedProcess) (r : Option (List ManagedProcess × World))
    → (visited m (behind p r)).world ≡ (visited m r).world
visited-behind m p none = refl
visited-behind m p (some (qs, w)) = refl

-- A search whose step sends nothing.
visited-signals :
    (m : Manager) (test : ManagedProcess → Bool) (f : ManagedProcess → ManagedProcess × World)
    → ((p : ManagedProcess) → (f p).1.signals ≡ m.world.signals)
    → (ps : List ManagedProcess) → (visited m (visit test f ps)).world.signals ≡ m.world.signals
unfolding visit
visited-signals m test f h [] = refl
visited-signals m test f h (p ∷ ps) = elim (Bool-cases (test p)) [
  | inl e ↦ rw e (h p)
  | inr e ↦ rw e (
      ap (λ (w : World). w.signals) (visited-behind m p (visit test f ps))
      ∙ visited-signals m test f h ps)
]

module _ (os : Os) where
  forked-signals :
      (r : Fork) (p : ManagedProcess) (w : World) → (forked os r p w).1.signals ≡ w.signals
  unfolding forked emit_event
  forked-signals (child n) p w = refl
  forked-signals (fork_failed e) p w = refl

  start_one-signals : (p : ManagedProcess) (w : World) → (start_one os p w).1.signals ≡ w.signals
  unfolding start_one emit_event
  start_one-signals p w = elim (Bool-cases (is_positive p.pid)) [
    | inl e ↦ rw e refl
    | inr e ↦ rw e (forked-signals (os.fork (suc w.calls)) _ _)
  ]

  handle_found-signals :
      (b : Bool) (st : WaitStatus) (w : World) (p : ManagedProcess)
      → (handle_found os b st w p).1.signals ≡ w.signals
  unfolding handle_found reap emit_event
  handle_found-signals b st w p = ground (
    arith,
    start_one-signals (record (reap os b st w p).0 { restart_count = u32 (suc p.restart_count) })
        (reap os b st w p).1,
  )

  visited-is_stopping :
      (m : Manager) (r : Option (List ManagedProcess × World))
      → (visited m r).is_stopping ≡ m.is_stopping
  visited-is_stopping m none = refl
  visited-is_stopping m (some (ps, w)) = refl

  -- The manager once Poll has handled the exits that it finds.
  unfoldable pub after_exits : List Wait → Manager → Manager
  after_exits [] m = m
  after_exits (reaped n st ∷ ws) m = after_exits ws (handle_exit os (pos (suc n)) st m)
  after_exits (interrupted ∷ ws) m = after_exits ws m

  poll-after_exits :
      (ws : List Wait) (m : Manager) → poll os ws m ≡ check_heartbeat_timeouts os (after_exits ws m)
  unfolding poll after_exits
  poll-after_exits [] m = refl
  poll-after_exits (reaped n st ∷ ws) m = poll-after_exits ws (handle_exit os (pos (suc n)) st m)
  poll-after_exits (interrupted ∷ ws) m = poll-after_exits ws m

  -- Exits are handled without a signal.
  after_exits-signals :
      (ws : List Wait) (m : Manager)
      → ((after_exits ws m).world.signals ≡ m.world.signals)
        × ((after_exits ws m).is_stopping ≡ m.is_stopping)
  unfolding after_exits handle_exit
  after_exits-signals [] m = (refl, refl)
  after_exits-signals (reaped n st ∷ ws) m =
      let (s, b) = after_exits-signals ws (handle_exit os (pos (suc n)) st m) in
      let r =
        visit (has_pid (pos (suc n))) (handle_found os m.is_stopping st m.world) m.processes in
      (
        s
            ∙ visited-signals m (has_pid (pos (suc n))) (handle_found os m.is_stopping st m.world)
                (handle_found-signals m.is_stopping st m.world) m.processes,
        b ∙ visited-is_stopping m r,
      )
  after_exits-signals (interrupted ∷ ws) m = after_exits-signals ws m

  -- The signals of CheckHeartbeatTimeouts.
  check_heartbeat_timeouts-signals :
      (m : Manager)
      → (check_heartbeat_timeouts os m).world.signals ≡ (
          if m.is_stopping
          then m.world.signals
          else terminations (os.steady_now m.world.calls) m.processes m.world.signals)
  check_heartbeat_timeouts-signals m = elim (Bool-cases m.is_stopping) [
    | inl e ↦ ap (λ (n : Manager). n.world.signals) (idle m e) ∙ sym (ap choice e)
    | inr e ↦ (check_heartbeat_timeouts-judged os m e).1 ∙ sym (ap choice e)
  ]
    where
      choice : Bool → List (ℤ × Signal)
      choice b =
          if b
          then m.world.signals
          else terminations (os.steady_now m.world.calls) m.processes m.world.signals

      idle : (n : Manager) → n.is_stopping ≡ true → check_heartbeat_timeouts os n ≡ n
      idle n e = unfold check_heartbeat_timeouts in ground arith

  -- The signals that Poll sends: none if the manager is stopping, and otherwise, once the exits are
  -- handled, a SIGTERM to each running process that is silent for too long and is not being stopped,
  -- in their order. So Poll never sends SIGKILL, whatever has exited and however late it is.
  pub poll-signals :
      (ws : List Wait) (m : Manager)
      → let n = after_exits ws m in
        ((poll os ws m).world.signals ≡ (
          if m.is_stopping
          then m.world.signals
          else terminations (os.steady_now n.world.calls) n.processes m.world.signals))
        × (killed (poll os ws m).world.signals ≡ killed m.world.signals)
  poll-signals ws m = (sent, ap killed sent ∙ spared m.is_stopping)
    where
      n : Manager
      n = after_exits ws m

      now : ℕ
      now = os.steady_now n.world.calls

      sent : (poll os ws m).world.signals ≡ (
          if m.is_stopping then m.world.signals else terminations now n.processes m.world.signals)
      sent =
          ap (λ (k : Manager). k.world.signals) (poll-after_exits ws m)
          ∙ check_heartbeat_timeouts-signals n
          ∙ ap (λ b. if b then n.world.signals else terminations now n.processes n.world.signals)
              (after_exits-signals ws m).1
          ∙ ap (λ ss. if m.is_stopping then ss else terminations now n.processes ss)
              (after_exits-signals ws m).0

      spared :
          (b : Bool)
          → killed (if b then m.world.signals else terminations now n.processes m.world.signals)
            ≡ killed m.world.signals
      spared true = refl
      spared false = killed-terminations now n.processes m.world.signals
