-- ===== src/HealthMonitor/Registry.antt =====
-- system/health_monitor/main.cpp: class HealthRegistry, and the messages that main publishes. Each
-- call holds the mutex, so that a call is one step. Clocks read nanoseconds.
use openember.Prelude.{
  ℕ, ◌+◌, ◌-◌, ◌*◌, ◌/◌, ◌^◌, Bool, List, [], ◌∷◌, ◌++◌, none, ltb, leb, map, length, if◌then◌else◌,
}
use openember.Prelude.Int.{ℤ, pos, sub_ℕ}
use openember.Prelude.Text.{Text, codes, is_empty, text_eq, to_string}
use openember.Prelude.Map.{Map, insert, values}
use openember.Messages.{
  no_header, HealthState, unspecified, ok, warning, error, stale, fill_header, LifecycleState,
  NodeHeartbeat, DiagnosticLevel, level_unspecified, level_ok, level_warning, level_error,
  level_stale, DiagnosticStatus, DiagnosticArray,
}

abbrev pub module_name : Text
module_name = codes "health_monitor"

-- kNodeStaleTimeout and kDiagnosticStaleTimeout.
abbrev pub stale_timeout : ℕ
stale_timeout = 5 * 10 ^ 9

pub record NodeHealth : Type 0 where
  pub node_name : Text
  pub instance_id : Text
  pub health : HealthState
  pub lifecycle_state : LifecycleState
  pub status_message : Text
  pub last_seen : ℕ

pub record ExternalDiagnostic : Type 0 where
  pub status : DiagnosticStatus
  pub last_seen : ℕ

pub record HealthRegistry : Type 0 where
  pub nodes : Map NodeHealth
  pub external_diagnostics : Map ExternalDiagnostic

abbrev pub new_registry : HealthRegistry
new_registry = record { nodes = []; external_diagnostics = [] }

-- The node after the assignments of Update, which leave nothing of the one before.
abbrev pub node_health : ℕ → NodeHeartbeat → NodeHealth
node_health now heartbeat = record {
  node_name = heartbeat.node_name;
  instance_id = heartbeat.instance_id;
  health = heartbeat.health;
  lifecycle_state = heartbeat.lifecycle_state;
  status_message = heartbeat.status_message;
  last_seen = now;
}

-- Update.
unfoldable pub update : ℕ → NodeHeartbeat → HealthRegistry → HealthRegistry
update now heartbeat r =
    if is_empty heartbeat.node_name
    then r
    else record r { nodes = insert heartbeat.node_name (node_health now heartbeat) r.nodes }

-- ExternalKey.
unfoldable pub external_key : DiagnosticStatus → Text
external_key status =
    status.node_name ++ codes "|" ++ status.name ++ codes "|" ++ status.hardware_id

-- The status that a diagnostic of an array is kept with.
abbrev pub named_status : Text → DiagnosticStatus → DiagnosticStatus
named_status source status =
    if is_empty status.node_name then record status { node_name = source } else status

-- The turn of the loop of UpdateDiagnostics for one status.
unfoldable pub update_diagnostic :
    ℕ → Text → DiagnosticStatus → Map ExternalDiagnostic → Map ExternalDiagnostic
update_diagnostic now source status m =
    let kept = named_status source status in
    if is_empty status.name
    then m
    else if text_eq status.node_name module_name
    then m
    else insert (external_key kept) (record { status = kept; last_seen = now }) m

-- The loop of UpdateDiagnostics.
unfoldable pub update_all :
    ℕ → Text → List DiagnosticStatus → Map ExternalDiagnostic → Map ExternalDiagnostic
update_all now source [] m = m
update_all now source (s ∷ ss) m = update_all now source ss (update_diagnostic now source s m)

-- UpdateDiagnostics.
unfoldable pub update_diagnostics : ℕ → DiagnosticArray → HealthRegistry → HealthRegistry
update_diagnostics now diagnostics r =
    if text_eq diagnostics.header.source_node module_name then r else record r {
      external_diagnostics =
          update_all now diagnostics.header.source_node diagnostics.status r.external_diagnostics;
    }

-- ToDiagnosticLevel.
abbrev pub to_diagnostic_level : HealthState → DiagnosticLevel
to_diagnostic_level ok = level_ok
to_diagnostic_level warning = level_warning
to_diagnostic_level error = level_error
to_diagnostic_level stale = level_stale
to_diagnostic_level unspecified = level_unspecified

-- `now - last_seen > timeout`. The clock is read before the lock is taken, so that it may be behind.
abbrev pub is_stale : ℕ → ℕ → Bool
is_stale now last_seen = ltb (last_seen + stale_timeout) now

-- The milliseconds of `now - last_seen`, cut towards zero.
abbrev pub age_ms : ℕ → ℕ → ℤ
age_ms now last_seen =
    if leb last_seen now
    then pos ((now - last_seen) / 10 ^ 6)
    else sub_ℕ 0 ((last_seen - now) / 10 ^ 6)

-- The turn of the first loop of Snapshot.
abbrev pub node_status : ℕ → Text → NodeHealth → DiagnosticStatus
node_status now name node = record {
  header = no_header;
  name = codes "node." ++ name;
  node_name = name;
  hardware_id = codes "runtime";
  level = if is_stale now node.last_seen then level_stale else to_diagnostic_level node.health;
  message =
      if is_stale now node.last_seen then codes "node heartbeat stale" else node.status_message;
  values =
      record { key = codes "instance_id"; value = node.instance_id }
      ∷ record { key = codes "lifecycle_state"; value = to_string node.lifecycle_state }
      ∷ [];
  metrics =
      record {
        name = codes "node.heartbeat.age";
        value = age_ms now node.last_seen;
        unit = codes "ms";
      }
      ∷ [];
}

unfoldable pub node_statuses : ℕ → Map NodeHealth → List DiagnosticStatus
node_statuses now [] = []
node_statuses now ((name, node) ∷ m) = node_status now name node ∷ node_statuses now m

-- The turn of the second loop of Snapshot.
abbrev pub external_status : ℕ → ExternalDiagnostic → DiagnosticStatus
external_status now diagnostic =
    let status = diagnostic.status in
    record status {
      level = if is_stale now diagnostic.last_seen then level_stale else status.level;
      message =
          if is_stale now diagnostic.last_seen
          then codes "diagnostic stale: " ++ status.message
          else status.message;
      metrics =
          status.metrics
          ++ record {
            name = codes "diagnostic.age";
            value = age_ms now diagnostic.last_seen;
            unit = codes "ms";
          }
            ∷ [];
    }

-- Snapshot.
unfoldable pub snapshot : ℕ → HealthRegistry → List DiagnosticStatus
snapshot now r =
    node_statuses now r.nodes ++ map (external_status now) (values r.external_diagnostics)

-- The heartbeat of a turn of main's loop. The number of LIFECYCLE_STATE_ACTIVE is the messages' own.
abbrev pub build_heartbeat : LifecycleState → ℕ → ℕ → ℕ → List DiagnosticStatus → NodeHeartbeat
build_heartbeat active now uptime sequence diagnostics = record {
  header = fill_header module_name now sequence none;
  node_name = module_name;
  instance_id = module_name;
  lifecycle_state = active;
  health = ok;
  uptime_ms = uptime / 10 ^ 6;
  error_count = 0;
  status_message = codes "monitoring node heartbeats";
  metrics =
      record {
        name = codes "health_monitor.observed_nodes";
        value = pos (length diagnostics);
        unit = codes "count";
      }
      ∷ [];
}

-- The diagnostics of a turn of main's loop.
abbrev pub build_diagnostics : ℕ → ℕ → List DiagnosticStatus → DiagnosticArray
build_diagnostics now sequence diagnostics = record {
  header = fill_header module_name now sequence none;
  status = diagnostics;
}

-- What the subscriptions of main bring, at a reading of the steady clock.
pub data Event : Type 0 where
  beats : ℕ → NodeHeartbeat → Event
  diagnoses : ℕ → DiagnosticArray → Event

unfoldable pub receive : Event → HealthRegistry → HealthRegistry
receive (beats now heartbeat) r = update now heartbeat r
receive (diagnoses now diagnostics) r = update_diagnostics now diagnostics r

unfoldable pub receive_all : List Event → HealthRegistry → HealthRegistry
receive_all [] r = r
receive_all (e ∷ es) r = receive_all es (receive e r)
