-- ===== src/Tests/Launching.antt =====
-- Runs of the process manager of system/launch_manager.
use openember.Prelude.{ℕ, ◌+◌, ◌*◌, ◌≡◌, refl, true, false, not, ◌&&◌, List, [], ◌∷◌, map, All}
use openember.Prelude.Int.{ℤ, pos, negsuc, is_positive}
use openember.Prelude.Text.{codes, text_eq}
use openember.Launch.Spec.{ProcessSpec, on_failure}
use openember.Launch.World.{
  Os, child, signaled, ProcessState, running, stopping, World, exited_successfully,
}
use openember.Launch.Process.{
  ManagedProcess, managed, init, emit_event, make_event, visit, for_each,
}
use openember.Launch.Stop.{check_heartbeat_timeouts, check_one, stop_one, stop_process, stop_found}
use openember.Launch.Start.{
  start_all, start_named, start_existing, start_process, start_one, forked, start_each,
}
use openember.Launch.Poll.{
  handle_exit, reap, restart_by_policy, exit_state, reaped, interrupted, handle_found,
  should_restart, poll,
}
use openember.Launch.Run.{apply, Call, starts_all, starts, stops, polls, run}
use openember.Launch.Coherence.{AllCoherent, run-init-AllCoherent}
use openember.Launch.Restart.{
  is_child, asks_restart, has_room, handle_found-restarts, IsBounded, run-init-IsBounded,
}
use openember.Launch.Names.{names, Distinct, start_process-Distinct}

-- Forks give the pids 101, 102, ..., and the clocks count the calls.
abbrev pub linux : Os
linux = record {
  fork = λ n. child (n + 100);
  unix_time_ns = λ n. n;
  steady_now = λ n. n * 1000;
  strerror = λ e. [];
}

abbrev pub camera : ProcessSpec
camera = record {
  name = codes "camera";
  command = codes "camera_node";
  args = [];
  env = [];
  working_directory = [];
  restart = on_failure;
  restart_limit = 2;
  startup_timeout = 3000;
  shutdown_timeout = 3000;
  heartbeat_timeout = 500;
}

abbrev pub radio : ProcessSpec
radio = record camera { name = codes "radio"; restart_limit = 0 }

abbrev pub calls : List Call
calls =
    starts_all
    ∷ polls (reaped 101 (signaled 11) ∷ interrupted ∷ [])
    ∷ starts radio
    ∷ stops (codes "radio") (negsuc 0) (pos 0)
    ∷ []

run-init-AllCoherent_example : AllCoherent (run linux calls (init (camera ∷ []) true))
run-init-AllCoherent_example = run-init-AllCoherent linux (camera ∷ []) true calls

run-init-IsBounded_example : All IsBounded (run linux calls (init (camera ∷ []) true)).processes
run-init-IsBounded_example =
    run-init-IsBounded linux (camera ∷ []) true calls (tt, (tt, (refl, (tt, tt))))

abbrev pub quiet : World
quiet = record { has_callback = true; events = []; signals = []; calls = 0 }

abbrev pub crashed : ManagedProcess
crashed = record (managed camera) { pid = pos 103; state = running; restart_count = 1 }

handle_found-restarts_example :
    is_positive (handle_found linux false (signaled 11) quiet crashed).0.pid ≡ (
      not false
      && not false
      && (has_room 2 1 && asks_restart on_failure (signaled 11))
      && is_child (linux.fork 2))
handle_found-restarts_example = handle_found-restarts linux false (signaled 11) quiet crashed

start_process-Distinct_example :
    Distinct (names (start_process linux radio (init (camera ∷ []) true)).0.processes)
start_process-Distinct_example =
    start_process-Distinct linux radio (init (camera ∷ []) true) (unfold init in (tt, tt))

-- The camera crashes and is restarted; the radio is started, and then asked to stop.
abbrev pub summary : ManagedProcess → ℤ × ProcessState × ℕ
summary p = (p.pid, p.state, p.restart_count)

calls_run :
    map summary (run linux calls (init (camera ∷ []) true)).processes
    ≡ (pos 106, running, 1) ∷ (pos 110, stopping, 0) ∷ []
unfolding run apply start_all start_each start_one forked emit_event make_event poll handle_exit
    visit handle_found reap should_restart restart_by_policy exited_successfully exit_state
    check_heartbeat_timeouts for_each check_one stop_one start_process start_named start_existing
    stop_process stop_found text_eq codes init
calls_run = refl
