-- ===== src/Launch/Run.antt =====
-- system/launch_manager/main.cpp: the calls that the supervisor makes on its process manager, one
-- after the other on its main thread.
use openember.Prelude.{List, [], ◌∷◌}
use openember.Prelude.Int.{ℤ}
use openember.Prelude.Text.{Text}
use openember.Launch.Spec.{ProcessSpec}
use openember.Launch.World.{Os}
use openember.Launch.Process.{Manager}
use openember.Launch.Start.{start_all, start_process}
use openember.Launch.Stop.{stop_process, mark_heartbeat}
use openember.Launch.Poll.{Wait, poll}

pub data Call : Type 0 where
  starts_all : Call
  starts : ProcessSpec → Call
  stops : Text → ℤ → ℤ → Call
  beats : Text → Call
  polls : List Wait → Call

module _ (os : Os) where
  unfoldable pub apply : Call → Manager → Manager
  apply starts_all m = (start_all os m).0
  apply (starts spec) m = (start_process os spec m).0
  apply (stops name pid timeout) m = (stop_process os name pid timeout m).0
  apply (beats name) m = (mark_heartbeat os name m).0
  apply (polls ws) m = poll os ws m

  unfoldable pub run : List Call → Manager → Manager
  run [] m = m
  run (c ∷ cs) m = run cs (apply c m)
