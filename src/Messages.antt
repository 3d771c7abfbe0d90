-- ===== src/Messages.antt =====
-- The messages of the system's services (openember.msgs, generated by the build) as records of the
-- fields that the services set and read, and the helpers that system/config_service/main.cpp,
-- system/device_manager/main.cpp, system/health_monitor/main.cpp and
-- services/hardware_interface/src/hardware_interface_app.cpp declare alike.
use openember.Prelude.{ℕ, Bool, List, [], Option, none, some, if◌then◌else◌}
use openember.Prelude.Int.{ℤ}
use openember.Prelude.Text.{Text, codes}

pub record Header : Type 0 where
  pub source_node : Text
  pub source_instance : Text
  pub robot_id : Text
  pub sequence : ℕ
  pub timestamp_unix_ns : ℕ
  pub trace_id : Text
  pub request_id : Text

abbrev pub no_header : Header
no_header = record {
  source_node = [];
  source_instance = [];
  robot_id = [];
  sequence = 0;
  timestamp_unix_ns = 0;
  trace_id = [];
  request_id = [];
}

pub record Status : Type 0 where
  pub code : ℕ
  pub message : Text

pub record Label : Type 0 where
  pub key : Text
  pub value : Text

-- A metric's value is a count or a time in milliseconds.
pub record Metric : Type 0 where
  pub name : Text
  pub value : ℤ
  pub unit : Text

pub data HealthState : Type 0 where
  unspecified ok warning error stale : HealthState

abbrev pub trace_of : Option Header → Text
trace_of none = []
trace_of (some request) = request.trace_id

abbrev pub request_of : Option Header → Text
request_of none = []
request_of (some request) = request.request_id

-- FillHeader of the service `name`, at a reading of the clock; the header is a new message's.
abbrev pub fill_header : Text → ℕ → ℕ → Option Header → Header
fill_header name now sequence request = record {
  source_node = name;
  source_instance = name;
  robot_id = codes "openember";
  sequence = sequence;
  timestamp_unix_ns = now;
  trace_id = trace_of request;
  request_id = request_of request;
}

-- FillStatus.
abbrev pub fill_status : Bool → Text → Status
fill_status is_ok message = record { code = if is_ok then 0 else 1; message = message }

-- LifecycleState, by its number.
abbrev pub LifecycleState : Type 0
LifecycleState = ℤ

pub record NodeHeartbeat : Type 0 where
  pub header : Header
  pub node_name : Text
  pub instance_id : Text
  pub lifecycle_state : LifecycleState
  pub health : HealthState
  pub uptime_ms : ℕ
  pub error_count : ℕ
  pub status_message : Text
  pub metrics : List Metric

pub data DiagnosticLevel : Type 0 where
  level_unspecified level_ok level_warning level_error level_stale : DiagnosticLevel

pub record DiagnosticStatus : Type 0 where
  pub header : Header
  pub name : Text
  pub node_name : Text
  pub hardware_id : Text
  pub level : DiagnosticLevel
  pub message : Text
  pub values : List Label
  pub metrics : List Metric

pub record DiagnosticArray : Type 0 where
  pub header : Header
  pub status : List DiagnosticStatus

pub data Reliability : Type 0 where
  reliable : Reliability

pub data Durability : Type 0 where
  volatile : Durability

pub record QosProfile : Type 0 where
  pub queue_size : ℕ
  pub reliability : Reliability
  pub durability : Durability

pub data EndpointDirection : Type 0 where
  publisher subscriber : EndpointDirection

pub record TopicInfo : Type 0 where
  pub name : Text
  pub type : Text
  pub direction : EndpointDirection
  pub qos : QosProfile

pub data NodeKind : Type 0 where
  system service : NodeKind

pub record NodeInfo : Type 0 where
  pub header : Header
  pub node_name : Text
  pub instance_id : Text
  pub process_name : Text
  pub process_id : ℕ
  pub kind : NodeKind
  pub version : Text
  pub start_time_unix_ns : ℕ
  pub topics : List TopicInfo
  pub labels : List Label
  pub capabilities : List Text

-- ConfigureQos.
abbrev pub configured_qos : QosProfile
configured_qos = record { queue_size = 8; reliability = reliable; durability = volatile }

-- The topic that AddTopic adds.
abbrev pub topic_info : Text → Text → EndpointDirection → TopicInfo
topic_info name type direction = record {
  name = name;
  type = type;
  direction = direction;
  qos = configured_qos;
}
