-- ===== src/Tests/Polling.antt =====
-- Supervision and shutdown of the process manager of system/launch_manager.
use openember.Prelude.{if◌then◌else◌, ◌≡◌, refl, false, List, [], ◌∷◌, map, some}
use openember.Prelude.Int.{pos}
use openember.Launch.World.{exited, signaled, running, stopping}
use openember.Launch.Process.{ManagedProcess, Manager, managed}
use openember.Launch.Stop.{check_heartbeat_timeouts}
use openember.Launch.Poll.{reaped, poll, stop_all}
use openember.Launch.Shutdown.{IsDown, stop_all_end}
use openember.Launch.Pids.{reports}
use openember.Launch.Supervision.{
  outline, judged, terminations, check_heartbeat_timeouts-judged, killed, after_exits, poll-signals,
}
use openember.Tests.Launching.{linux, camera, radio, quiet}

-- A process that runs, and one that was asked to stop and is past its deadline.
abbrev two : List ManagedProcess
two =
    record (managed camera) { pid = pos 7; state = running }
    ∷ record (managed radio) { pid = pos 9; state = stopping; stop_deadline = 1 }
    ∷ []

abbrev late : Manager
late = record { processes = two; world = record quiet { calls = 60 }; is_stopping = false }

check_heartbeat_timeouts-judged_example :
    (map outline (check_heartbeat_timeouts linux late).processes ≡ map (judged 60000) two)
    × ((check_heartbeat_timeouts linux late).world.signals ≡ terminations 60000 two [])
check_heartbeat_timeouts-judged_example = check_heartbeat_timeouts-judged linux late refl

poll-signals_example :
    let ws = reaped 6 (exited 1) ∷ [] in
    let n = after_exits linux ws late in
    ((poll linux ws late).world.signals
      ≡ (if false then [] else terminations (linux.steady_now n.world.calls) n.processes []))
    × (killed (poll linux ws late).world.signals ≡ killed [])
poll-signals_example = poll-signals linux (reaped 6 (exited 1) ∷ []) late

stop_all_end_example :
    (n : Manager) × (stop_all linux
        ((reaped 8 (signaled 15) ∷ []) ∷ (reaped 6 (exited 0) ∷ []) ∷ [])
        late
      ≡ some n)
    × IsDown n
unfolding reports
stop_all_end_example =
    stop_all_end linux (reaped 8 (signaled 15) ∷ []) ((reaped 6 (exited 0) ∷ []) ∷ []) late
      (((λ _. refl), tt), (tt, tt)) ((λ _. refl), ((λ _. refl), tt))
