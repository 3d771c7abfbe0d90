-- ===== src/HardwareInterface/Endpoint.antt =====
-- services/hardware_interface: hardware_config.hpp, endpoint_status.hpp, endpoint.hpp and
-- endpoint.cpp.
use openember.Prelude.{ℕ, ◌+◌, ◌≡◌, Bool, true, false, [], Option, some}
use openember.Prelude.Text.{Text, codes}
use openember.Prelude.Word.{u64}

-- An endpoint's configuration, `Real` being `double`.
pub record EndpointConfig (Real : Type 0) : Type 0 where
  pub endpoint_id : Text
  pub type : Text
  pub enabled : Bool
  pub mode : Text
  pub driver : Text
  pub topic : Text
  pub command_topic : Text
  pub state_topic : Text
  pub frame_id : Text
  pub publish_rate_hz : Real
  pub command_timeout_ms : ℕ
  pub disabled_on_start : Bool
  pub critical : Bool

pub data EndpointState : Type 0 where
  created configured running stopping stopped failed : EndpointState

pub record EndpointStatus : Type 0 where
  pub state : EndpointState
  pub endpoint_id : Text
  pub device_id : Text
  pub driver : Text
  pub mode : Text
  pub message : Text
  pub last_error : Text
  pub sequence : ℕ
  pub sample_count : ℕ
  pub publish_count : ℕ
  pub command_count : ℕ
  pub error_count : ℕ
  pub timeout_count : ℕ
  pub last_sample_monotonic_ns : ℕ
  pub last_publish_monotonic_ns : ℕ
  pub last_command_monotonic_ns : ℕ

-- ToString.
abbrev pub state_name : EndpointState → Text
state_name created = codes "created"
state_name configured = codes "configured"
state_name running = codes "running"
state_name stopping = codes "stopping"
state_name stopped = codes "stopped"
state_name failed = codes "error"

abbrev pub is_failed : EndpointState → Bool
is_failed failed = true
is_failed s = false

abbrev pub is_running : EndpointState → Bool
is_running running = true
is_running s = false

-- The status that the constructors of the endpoints leave.
abbrev pub new_status : {Real : Type 0} → EndpointConfig Real → EndpointStatus
new_status config = record {
  state = created;
  endpoint_id = config.endpoint_id;
  device_id = config.endpoint_id;
  driver = config.driver;
  mode = config.mode;
  message = [];
  last_error = [];
  sequence = 0;
  sample_count = 0;
  publish_count = 0;
  command_count = 0;
  error_count = 0;
  timeout_count = 0;
  last_sample_monotonic_ns = 0;
  last_publish_monotonic_ns = 0;
  last_command_monotonic_ns = 0;
}

-- RecordError.
abbrev pub record_error : Text → EndpointStatus → EndpointStatus
record_error text s = record s {
  error_count = u64 (s.error_count + 1);
  last_error = text;
  message = text;
}

-- SetError.
abbrev pub set_error : Text → EndpointStatus → EndpointStatus
set_error text s = record s {
  state = failed;
  error_count = u64 (s.error_count + 1);
  last_error = text;
  message = text;
}

-- The end of Configure, of Start and of Stop.
abbrev pub configured_status : EndpointStatus → EndpointStatus
configured_status s = record s { state = configured; message = codes "configured" }

abbrev pub running_status : EndpointStatus → EndpointStatus
running_status s = record s { state = running; message = codes "running" }

abbrev pub stopped_status : EndpointStatus → EndpointStatus
stopped_status s = elim s.state [
  | failed ↦ s
  | _ ↦ record s { state = stopped; message = codes "stopped" }
]

-- class HardwareEndpoint: the virtual operations, and what its users rely on.
pub record HardwareEndpoint (Real : Type 0) : Type 1 where
  pub Endpoint : Type 0
  pub id : Endpoint → Text
  pub configure : Endpoint → Bool × Endpoint
  pub start : Endpoint → Bool × Endpoint
  pub stop : Endpoint → Endpoint
  pub status : Endpoint → EndpointStatus
  -- The constructor of the endpoint of a type that the build has.
  pub make : EndpointConfig Real → Option Endpoint
  pub id-configure : (e : Endpoint) → id (configure e).1 ≡ id e
  pub id-start : (e : Endpoint) → id (start e).1 ≡ id e
  pub id-make : (c : EndpointConfig Real) (e : Endpoint) → make c ≡ some e → id e ≡ c.endpoint_id
  pub start_runs : (e : Endpoint) → (start e).0 ≡ true → (status (start e).1).state ≡ running
