-- ===== src/Launch/Poll.antt =====
-- system/launch_manager/process_manager.cpp: Poll, HandleExit, ShouldRestart and StopAll.
use openember.Prelude.{
  ℕ, suc, ◌+◌, Bool, true, false, not, ◌&&◌, ◌||◌, List, [], ◌∷◌, Option, none, some, leb, ◌==◌,
  if◌then◌else◌,
}
use openember.Prelude.Int.{ℤ, pos, negsuc, is_positive}
use openember.Prelude.Text.{codes}
use openember.Prelude.Word.{u32}
use openember.Launch.Spec.{RestartPolicy, never, on_failure, always}
use openember.Launch.World.{
  Os, WaitStatus, sigkill, ProcessState, stopped, has_exited, failed, World, called, send,
  exited_successfully, exit_code_from_status, status_text,
}
use openember.Launch.Process.{ManagedProcess, Manager, emit_event, visit, for_each, has_pid}
use openember.Launch.Start.{start_one}
use openember.Launch.Stop.{stop_one, check_heartbeat_timeouts}

-- ShouldRestart, after the test of the policy.
unfoldable pub restart_by_policy : RestartPolicy → WaitStatus → Bool
restart_by_policy never status = false
restart_by_policy always status = true
restart_by_policy on_failure status = not (exited_successfully status)

abbrev pub limit_reached : ManagedProcess → Bool
limit_reached p = not (p.spec.restart_limit == 0) && leb p.spec.restart_limit p.restart_count

-- ShouldRestart.
unfoldable pub should_restart : ManagedProcess → WaitStatus → Bool
should_restart p status = not (limit_reached p) && restart_by_policy p.spec.restart status

-- The state that HandleExit gives an exited process.
unfoldable pub exit_state : Bool → ManagedProcess → WaitStatus → ProcessState
exit_state is_stopping p status =
    if is_stopping || p.intentional_stop
    then stopped
    else if exited_successfully status
    then has_exited
    else failed

-- The manager after a search through its processes.
abbrev pub visited : Manager → Option (List ManagedProcess × World) → Manager
visited m none = m
visited m (some (ps, w)) = record m { processes = ps; world = w }

module _ (os : Os) where
  -- HandleExit, up to the restart.
  unfoldable pub reap : Bool → WaitStatus → World → ManagedProcess → ManagedProcess × World
  reap is_stopping status w p =
      let stop_time = os.unix_time_ns w.calls in
      let s = exit_state is_stopping p status in
      let q = record p { state = s; stop_time_unix_ns = stop_time } in
      (
        record q { pid = negsuc 0; intentional_stop = false },
        emit_event q s (exit_code_from_status status) stop_time (status_text status) (called w),
      )

  -- HandleExit, once the process is found.
  unfoldable pub handle_found : Bool → WaitStatus → World → ManagedProcess → ManagedProcess × World
  handle_found is_stopping status w p =
      let (q, w₁) = reap is_stopping status w p in
      let (r, w₂, started) =
        start_one os (record q { restart_count = u32 (suc q.restart_count) }) w₁ in
      if not is_stopping && not p.intentional_stop && should_restart q status
      then (r, w₂)
      else (q, w₁)

  -- HandleExit.
  unfoldable pub handle_exit : ℤ → WaitStatus → Manager → Manager
  handle_exit pid status m =
      visited m (visit (has_pid pid) (handle_found m.is_stopping status m.world) m.processes)

-- What waitpid(-1, &status, WNOHANG) gives in one call of Poll, up to the result that ends the
-- loop (no child is ready, no child is left, or an error that the code logs). `reaped n` is the
-- pid n + 1, since a pid is positive.
pub data Wait : Type 0 where
  reaped : ℕ → WaitStatus → Wait
  interrupted : Wait

-- The test of the loop of StopAll.
unfoldable pub any_running : List ManagedProcess → Bool
any_running [] = false
any_running (p ∷ ps) = is_positive p.pid || any_running ps

module _ (os : Os) where
  -- Poll.
  unfoldable pub poll : List Wait → Manager → Manager
  poll [] m = check_heartbeat_timeouts os m
  poll (reaped n status ∷ ws) m = poll ws (handle_exit os (pos (suc n)) status m)
  poll (interrupted ∷ ws) m = poll ws m

  -- One process in a round of StopAll: SIGKILL once the deadline has passed.
  unfoldable pub kill_late : ℕ → ManagedProcess → World → ManagedProcess × World
  kill_late now p w =
      if not (is_positive p.pid)
      then (p, w)
      else if leb p.stop_deadline now
      then (record p { stop_deadline = now + 1000 }, send p.pid sigkill w)
      else (p, w)

  unfoldable pub kill_round : Manager → Manager
  kill_round m =
      let (ps, w) =
        for_each (kill_late (os.steady_now m.world.calls)) m.processes (called m.world) in
      record m { processes = ps; world = w }

  -- The loop of StopAll; each round has its own results of waitpid. `none`: the rounds given are
  -- over, and a process still runs.
  unfoldable pub stop_rounds : List (List Wait) → Manager → Option Manager
  stop_rounds [] m = none
  stop_rounds (ws ∷ rounds) m =
      let n = kill_round (poll ws m) in
      let rest = stop_rounds rounds n in if any_running n.processes then rest else some n

  -- StopAll.
  unfoldable pub stop_all : List (List Wait) → Manager → Option Manager
  stop_all rounds m =
      let (ps, w) = for_each (stop_one os (codes "stopping") (pos 0) true) m.processes m.world in
      stop_rounds rounds (record m { processes = ps; world = w; is_stopping = true })
