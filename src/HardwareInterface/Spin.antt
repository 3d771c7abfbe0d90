-- ===== src/HardwareInterface/Spin.antt =====
-- services/hardware_interface/src/hardware_interface_app.cpp: the turn of Spin's loop. The endpoints
-- stay as they are in a turn; `clock i` is the i-th reading of the clock in it.
use openember.Prelude.{
  ℕ, ◌+◌, ◌%◌, ◌==◌, List, [], ◌∷◌, ◌++◌, Option, none, some, if◌then◌else◌, map, length,
}
use openember.Prelude.Text.{Text}
use openember.Prelude.Map.{lookup}
use openember.Messages.{LifecycleState, NodeHeartbeat, DiagnosticStatus, DiagnosticArray, NodeInfo}
use openember.DeviceManager.Registry.{DeviceInfo, DeviceState}
use openember.HardwareInterface.Endpoint.{EndpointConfig, EndpointStatus, HardwareEndpoint}
use openember.HardwareInterface.App.{HardwareInterfaceAppOptions, App, find_endpoint_config}
use openember.HardwareInterface.Publish.{
  fill_header, build_diagnostic, build_heartbeat, build_node_info, build_device_info,
  build_device_state,
}

-- What the service publishes, the devices' messages with their topics.
pub data Message : Type 0 where
  node_info : NodeInfo → Message
  heartbeat : NodeHeartbeat → Message
  diagnostics : DiagnosticArray → Message
  device_info : Text → DeviceInfo → Message
  device_state : Text → DeviceState → Message

-- What a turn takes from outside: the clock, the process and the number of LIFECYCLE_STATE_ACTIVE.
pub record Surroundings : Type 0 where
  pub clock : ℕ → ℕ
  pub uptime : ℕ
  pub process_id : ℕ
  pub start_time : ℕ
  pub active : LifecycleState

-- The loop of BuildDiagnostics, from the i-th reading on.
unfoldable pub build_all_diagnostics :
    HardwareInterfaceAppOptions → (ℕ → ℕ) → ℕ → List EndpointStatus → List DiagnosticStatus
build_all_diagnostics options clock i [] = []
build_all_diagnostics options clock i (s ∷ ss) =
    build_diagnostic options (clock i) s ∷ build_all_diagnostics options clock (i + 1) ss

-- BuildDiagnostics.
abbrev pub build_diagnostics :
    HardwareInterfaceAppOptions → (ℕ → ℕ) → ℕ → ℕ → List EndpointStatus → DiagnosticArray
build_diagnostics options clock i sequence ss = record {
  header = fill_header options (clock i) sequence;
  status = build_all_diagnostics options clock (i + 1) ss;
}

module _ {Real : Type 0} (endpoint : HardwareEndpoint Real) where
  open endpoint use {Endpoint, id, status}

  abbrev pub info_messages : Option Text → DeviceInfo → List Message
  info_messages none info = []
  info_messages (some topic) info = device_info topic info ∷ []

  abbrev pub state_messages : Option Text → DeviceState → List Message
  state_messages none state = []
  state_messages (some topic) state = device_state topic state ∷ []

  -- The turn of Spin's loop over the endpoints, from the i-th reading on.
  abbrev pub endpoint_messages :
      (ℕ → ℕ) → ℕ → App endpoint → ℕ → Endpoint → Option (EndpointConfig Real) → List Message
  endpoint_messages clock i app sequence e none = []
  endpoint_messages clock i app sequence e (some c) =
      info_messages (lookup (id e) app.device_info_pubs)
        (build_device_info app.options (clock i) c (status e) sequence)
      ++ state_messages (lookup (id e) app.device_state_pubs)
          (build_device_state app.options (clock (i + 1)) c (status e) sequence)

  unfoldable pub publish_devices : (ℕ → ℕ) → ℕ → App endpoint → ℕ → List Endpoint → List Message
  publish_devices clock i app sequence [] = []
  publish_devices clock i app sequence (e ∷ es) =
      endpoint_messages clock i app sequence e (find_endpoint_config app.configs (id e))
      ++ publish_devices clock (i + 2) app sequence es

  -- The turn of Spin's loop with its two numbers, before they are counted up: the messages.
  unfoldable pub spin_turn : Surroundings → ℕ → ℕ → App endpoint → List Message
  spin_turn around sequence info_sequence app =
      let ss = map status app.endpoints in
      let info =
        build_node_info app.options (around.clock 0) around.process_id around.start_time
          info_sequence app.configs ss in
      let rest =
        heartbeat
          (build_heartbeat around.active app.options (around.clock 1) around.uptime sequence ss)
        ∷ diagnostics (build_diagnostics app.options around.clock 2 sequence ss)
        ∷ publish_devices around.clock (3 + length ss) app sequence app.endpoints in
      if sequence % 10 == 0 then node_info info ∷ rest else rest
