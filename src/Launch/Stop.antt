-- ===== src/Launch/Stop.antt =====
-- system/launch_manager/process_manager.cpp: StopProcess, StopOne, MarkHeartbeat and
-- CheckHeartbeatTimeouts.
use openember.Prelude.{
  ℕ, ◌+◌, ◌-◌, Bool, true, false, not, ◌&&◌, ◌||◌, [], none, some, ltb, if◌then◌else◌,
}
use openember.Prelude.Int.{ℤ, pos, pos_part, is_positive}
use openember.Prelude.Text.{Text, codes, is_empty, to_string}
use openember.Launch.Spec.{ProcessSpec, never}
use openember.Launch.World.{
  Os, sigterm, ProcessState, stopping, stopped, failed, ProcessEvent, World, called, send,
}
use openember.Launch.Process.{
  ManagedProcess, Manager, managed, make_event, emit_event, visit, visit_if, for_each, named,
  has_pid,
}

-- <errno.h>
abbrev pub esrch : ℕ
esrch = 3

-- The default member initialisers of ProcessSpec.
abbrev pub default_spec : ProcessSpec
default_spec = record {
  name = [];
  command = [];
  args = [];
  env = [];
  working_directory = [];
  restart = never;
  restart_limit = 0;
  startup_timeout = 3000;
  shutdown_timeout = 3000;
  heartbeat_timeout = 0;
}

abbrev pub is_stopping_state : ProcessState → Bool
is_stopping_state stopping = true
is_stopping_state _ = false

module _ (os : Os) where
  -- StopOne. The result of kill() goes to the log alone.
  unfoldable pub stop_one : Text → ℤ → Bool → ManagedProcess → World → ManagedProcess × World
  stop_one text timeout intentional p w =
      let q = record p {
        state = stopping;
        intentional_stop = intentional;
        stop_deadline =
            os.steady_now w.calls
            + (if is_positive timeout then pos_part timeout else p.spec.shutdown_timeout);
      } in
      if not (is_positive p.pid)
      then (p, w)
      else (q, send q.pid sigterm (emit_event q stopping (pos 0) 0 text (called w)))

  -- StopProcess, once the process is found.
  unfoldable pub stop_found : ℤ → World → ManagedProcess → ManagedProcess × (World × ProcessEvent)
  stop_found timeout w p =
      let (q, w') = stop_one (codes "stop requested") timeout true p w in
      if not (is_positive p.pid)
      then (
        p,
        (w, make_event p stopped (pos 0) p.stop_time_unix_ns (codes "process already stopped")),
      )
      else (q, (w', make_event q stopping (pos 0) 0 (codes "stop requested")))

  -- StopProcess, when no process is found.
  unfoldable pub stop_missing : Text → ℤ → Manager → Manager × ProcessEvent
  stop_missing name pid m =
      let spec = record default_spec { name = if is_empty name then to_string pid else name } in
      let missing = record (managed spec) { pid = pid; state = failed } in
      (
        record m { world = called m.world },
        make_event missing failed (pos esrch) (os.unix_time_ns m.world.calls)
            (codes "process not found"),
      )

  -- StopProcess looks by name first, and by pid if that finds nothing.
  unfoldable pub stop_process : Text → ℤ → ℤ → Manager → Manager × ProcessEvent
  stop_process name pid timeout m =
      let stop = stop_found timeout m.world in
      let by_name = visit_if (not (is_empty name)) (named name) stop m.processes in
      let by_pid = visit_if (is_positive pid) (has_pid pid) stop m.processes in
      elim by_name [
        | some (ps, (w, e)) ↦ (record m { processes = ps; world = w }, e)
        | none ↦ elim by_pid [
          | some (ps, (w, e)) ↦ (record m { processes = ps; world = w }, e)
          | none ↦ stop_missing name pid m
        ]
      ]

  unfoldable pub beat : World → ManagedProcess → ManagedProcess × World
  beat w p =
      (record p { has_heartbeat = true; last_heartbeat_time = os.steady_now w.calls }, called w)

  -- MarkHeartbeat.
  unfoldable pub mark_heartbeat : Text → Manager → Manager × Bool
  mark_heartbeat name m = elim (visit (named name) (beat m.world) m.processes) [
    | some (ps, w) ↦ (record m { processes = ps; world = w }, true)
    | none ↦ (m, false)
  ]

  abbrev pub startup_late : ℕ → ManagedProcess → Bool
  startup_late now p =
      ltb 0 p.spec.heartbeat_timeout
      && not p.has_heartbeat
      && ltb 0 p.spec.startup_timeout
      && ltb p.spec.startup_timeout (now - p.start_time)

  abbrev pub heartbeat_late : ℕ → ManagedProcess → Bool
  heartbeat_late now p =
      p.has_heartbeat
      && ltb 0 p.spec.heartbeat_timeout
      && ltb p.spec.heartbeat_timeout (now - p.last_heartbeat_time)

  -- One round of the loop of CheckHeartbeatTimeouts. A clock that is behind gives the difference
  -- 0, which exceeds no time-out, as the negative difference of the source.
  unfoldable pub check_one : ℕ → ManagedProcess → World → ManagedProcess × World
  check_one now p w =
      if not (is_positive p.pid) || is_stopping_state p.state
      then (p, w)
      else if startup_late now p
      then stop_one (codes "startup heartbeat timeout") (pos 0) false p w
      else if heartbeat_late now p
      then stop_one (codes "heartbeat timeout") (pos 0) false p w
      else (p, w)

  -- CheckHeartbeatTimeouts.
  unfoldable pub check_heartbeat_timeouts : Manager → Manager
  check_heartbeat_timeouts m =
      let now = os.steady_now m.world.calls in
      let (ps, w) = for_each (check_one now) m.processes (called m.world) in
      if m.is_stopping then m else record m { processes = ps; world = w }
