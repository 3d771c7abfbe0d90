-- ===== src/Tests/Reports.antt =====
-- Reports to the device manager and the health monitor of system.
use openember.Prelude.{◌*◌, ◌^◌, ◌≡◌, refl, List, [], ◌∷◌, ◌++◌, none, some, map, arith}
use openember.Prelude.Int.{pos}
use openember.Prelude.Text.{codes, text_eq}
use openember.Messages.{no_header, ok, NodeHeartbeat, DiagnosticArray, level_ok, level_stale}
use openember.DeviceManager.Registry.{
  DeviceInfo, DeviceState, new_info, new_state, online, initial_devices, Report, informs, tells,
  query, receive_all, new_registry,
}
use openember.DeviceManager.Reports.{latest_info, latest_state}
use openember.DeviceManager.Answers.{
  asks_for, query_latest, reports_of, expected_infos, expected_states,
}
use openember.HealthMonitor.Registry.{Event, beats, diagnoses, node_statuses}
use openember.HealthMonitor.Registry
use openember.HealthMonitor.Nodes.{
  of_node, told_of, expected_told, latest_heartbeat, node_statuses_latest,
}
use openember.HealthMonitor.Externals.{IsValid, foreign_only}
use openember.HealthMonitor.Silence.{silence_found}

abbrev arm_info : DeviceInfo
arm_info = record new_info { device_id = codes "arm"; driver = codes "mock" }

abbrev arm_state : DeviceState
arm_state = record new_state { device_id = codes "arm"; availability = online }

abbrev reports : List Report
reports = tells arm_state ∷ informs arm_info ∷ []

query_latest_example :
    let answer =
      query 7
        (asks_for no_header (codes "arm"))
        2
        (receive_all reports (new_registry (initial_devices 1 2))) in
    (answer.devices
      ≡ expected_infos
          (latest_info (codes "arm") (reports_of (initial_devices 1 2) ++ reports) none))
    × (answer.states
        ≡ expected_states
            (codes "arm")
            (latest_info (codes "arm") (reports_of (initial_devices 1 2) ++ reports) none)
            (latest_state (codes "arm") (reports_of (initial_devices 1 2) ++ reports) none))
unfolding codes
query_latest_example = query_latest (initial_devices 1 2) reports 7 2 no_header (codes "arm") refl

-- The state came before the information, and is kept.
latest_example :
    latest_state (codes "arm") (reports_of (initial_devices 1 2) ++ reports) none ≡ some arm_state
unfolding codes text_eq
latest_example = refl

abbrev lidar_beat : NodeHeartbeat
lidar_beat = record {
  header = no_header;
  node_name = codes "lidar";
  instance_id = codes "lidar";
  lifecycle_state = pos 3;
  health = ok;
  uptime_ms = 10;
  error_count = 0;
  status_message = codes "scanning";
  metrics = [];
}

abbrev blur : DiagnosticArray
blur = record {
  header = record no_header { source_node = codes "camera" };
  status =
      record {
        header = no_header;
        name = codes "lens";
        node_name = [];
        hardware_id = [];
        level = level_ok;
        message = [];
        values = [];
        metrics = [];
      }
      ∷ [];
}

abbrev events : List Event
events = diagnoses 2 blur ∷ beats 4 lidar_beat ∷ []

foreign_only_example : IsValid (Registry.receive_all events Registry.new_registry)
foreign_only_example = foreign_only events Registry.new_registry (tt, tt)

node_statuses_latest_example :
    map told_of (
      of_node
        (codes "lidar")
        (node_statuses 9 (Registry.receive_all events Registry.new_registry).nodes))
    ≡ expected_told 9 (codes "lidar") (latest_heartbeat (codes "lidar") events none)
node_statuses_latest_example = node_statuses_latest events 9 (codes "lidar")

silence_found_example :
    map
      (λ s. s.level)
      (of_node (codes "lidar") (
        node_statuses
          (6 * 10 ^ 9)
          (Registry.receive_all
            ([] ++ beats 4 lidar_beat ∷ diagnoses 5 blur ∷ [])
            Registry.new_registry).nodes))
    ≡ level_stale ∷ []
unfolding codes
silence_found_example =
    silence_found [] (diagnoses 5 blur ∷ []) 4 lidar_beat (6 * 10 ^ 9) refl (tt, tt) (omega arith)
