-- ===== src/HardwareInterface/Publish.antt =====
-- services/hardware_interface/src/hardware_interface_app.cpp: the messages that the service builds
-- and the turn of Spin's loop that publishes them.
use openember.Prelude.{
  ℕ, ◌+◌, ◌/◌, ◌^◌, Bool, false, ◌||◌, List, [], ◌∷◌, ◌++◌, Option, none, some, ltb, if◌then◌else◌,
  length,
}
use openember.Prelude.Int.{pos}
use openember.Prelude.Text.{Text, codes, is_empty, text_eq}
use openember.Prelude.Word.{u32, u64}
use openember.Messages.{
  Header, Metric, HealthState, ok, warning, error, stale, LifecycleState, NodeHeartbeat,
  DiagnosticLevel, level_ok, level_warning, level_error, level_stale, DiagnosticStatus, NodeInfo,
  TopicInfo, topic_info, publisher, subscriber, service,
}
use openember.DeviceManager.Registry.{
  DeviceCategory, no_category, sensor, actuator, DeviceAvailability, offline, online, failing,
  DeviceInfo, DeviceState,
}
use openember.HardwareInterface.Endpoint.{
  EndpointConfig, EndpointState, created, configured, running, stopping, stopped, failed,
  EndpointStatus, state_name, is_failed, is_running,
}
use openember.HardwareInterface.App.{
  HardwareInterfaceAppOptions, find_endpoint_config, device_info_topic, device_state_topic,
}

-- FillHeader.
abbrev pub fill_header : HardwareInterfaceAppOptions → ℕ → ℕ → Header
fill_header options now sequence = record {
  source_node = options.node_name;
  source_instance = options.instance_id;
  robot_id = options.robot_id;
  sequence = sequence;
  timestamp_unix_ns = now;
  trace_id = [];
  request_id = [];
}

-- ToDiagnosticLevel.
abbrev pub to_diagnostic_level : EndpointStatus → DiagnosticLevel
to_diagnostic_level s =
    if is_failed s.state
    then level_error
    else if ltb 0 s.error_count || ltb 0 s.timeout_count
    then level_warning
    else if is_running s.state
    then level_ok
    else level_stale

-- MessageTypeNameForEndpoint.
unfoldable pub message_type_name : Text → Text
message_type_name type =
    if text_eq type (codes "imu")
    then codes "openember.msgs.sensor.v1.ImuSample"
    else if text_eq type (codes "temperature")
    then codes "openember.msgs.sensor.v1.TemperatureSample"
    else if text_eq type (codes "gnss")
    then codes "openember.msgs.sensor.v1.GnssFix"
    else if text_eq type (codes "joint_controller")
    then codes "openember.msgs.actuator.v1.JointState"
    else codes "openember.msgs.sensor.v1.SensorStatus"

-- CommandTypeNameForEndpoint.
unfoldable pub command_type_name : Text → Text
command_type_name type =
    if text_eq type (codes "joint_controller")
    then codes "openember.msgs.actuator.v1.JointCommand"
    else []

-- ToDeviceAvailability.
abbrev pub to_device_availability : EndpointState → DeviceAvailability
to_device_availability created = offline
to_device_availability configured = offline
to_device_availability running = online
to_device_availability stopping = offline
to_device_availability stopped = offline
to_device_availability failed = failing

-- ToHealthState.
abbrev pub to_health_state : EndpointStatus → HealthState
to_health_state s =
    if is_failed s.state
    then error
    else if ltb 0 s.error_count
    then warning
    else if is_running s.state
    then ok
    else stale

abbrev pub count_metric : Text → ℕ → Metric
count_metric name n = record { name = name; value = pos n; unit = codes "count" }

-- The metrics that a diagnostic and a device's state have alike.
abbrev pub count_metrics : EndpointStatus → List Metric
count_metrics s =
    count_metric (codes "sample_count") s.sample_count
    ∷ count_metric (codes "publish_count") s.publish_count
    ∷ count_metric (codes "error_count") s.error_count
    ∷ count_metric (codes "command_count") s.command_count
    ∷ count_metric (codes "timeout_count") s.timeout_count
    ∷ []

-- The turn of the loop of BuildDiagnostics.
abbrev pub build_diagnostic : HardwareInterfaceAppOptions → ℕ → EndpointStatus → DiagnosticStatus
build_diagnostic options now s = record {
  header = fill_header options now s.sequence;
  name = codes "hardware_interface." ++ s.endpoint_id;
  node_name = options.node_name;
  hardware_id = s.device_id;
  level = to_diagnostic_level s;
  message = s.message;
  values =
      record { key = codes "state"; value = state_name s.state }
      ∷ record { key = codes "driver"; value = s.driver }
      ∷ record { key = codes "mode"; value = s.mode }
      ∷ [];
  metrics = count_metrics s;
}

-- The sum of the loop of BuildHeartbeat, and its two tests.
unfoldable pub error_sum : List EndpointStatus → ℕ → ℕ
error_sum [] n = n
error_sum (s ∷ ss) n = error_sum ss (u64 (n + s.error_count))

unfoldable pub any_error : List EndpointStatus → Bool → Bool
any_error [] b = b
any_error (s ∷ ss) b = any_error ss (b || is_failed s.state)

unfoldable pub any_warning : List EndpointStatus → Bool → Bool
any_warning [] b = b
any_warning (s ∷ ss) b = any_warning ss (b || ltb 0 s.error_count || ltb 0 s.timeout_count)

-- BuildHeartbeat, of the endpoints' statuses; the number of LIFECYCLE_STATE_ACTIVE is the messages'
-- own, and the uptime is in nanoseconds.
abbrev pub build_heartbeat :
    LifecycleState → HardwareInterfaceAppOptions → ℕ → ℕ → ℕ → List EndpointStatus → NodeHeartbeat
build_heartbeat active options now uptime sequence ss = record {
  header = fill_header options now sequence;
  node_name = options.node_name;
  instance_id = options.instance_id;
  lifecycle_state = active;
  health = if any_error ss false then error else if any_warning ss false then warning else ok;
  uptime_ms = uptime / 10 ^ 6;
  error_count = u32 (error_sum ss 0);
  status_message = codes "hardware interface running";
  metrics =
      count_metric (codes "hardware_interface.endpoints") (length ss)
      ∷ count_metric (codes "hardware_interface.errors") (error_sum ss 0)
      ∷ [];
}

module _ {Real : Type 0} where
  -- ToDeviceCategory.
  unfoldable pub to_device_category : EndpointConfig Real → DeviceCategory
  to_device_category config =
      if text_eq config.type (codes "imu")
        || text_eq config.type (codes "temperature")
        || text_eq config.type (codes "gnss")
      then sensor
      else if text_eq config.type (codes "joint_controller")
      then actuator
      else no_category

  -- BuildDeviceInfo.
  abbrev pub build_device_info :
      HardwareInterfaceAppOptions → ℕ → EndpointConfig Real → EndpointStatus → ℕ → DeviceInfo
  build_device_info options now config s sequence = record {
    header = fill_header options now sequence;
    device_id = config.endpoint_id;
    name = config.endpoint_id;
    category = to_device_category config;
    driver = config.driver;
    path = config.mode ++ codes "://" ++ config.endpoint_id;
    bus = config.mode;
    capabilities = codes "hardware_endpoint" ∷ config.type ∷ [];
    labels =
        record { key = codes "endpoint_type"; value = config.type }
        ∷ record { key = codes "endpoint_state"; value = state_name s.state }
        ∷ record { key = codes "mode"; value = config.mode }
        ∷ [];
  }

  -- BuildDeviceState.
  abbrev pub build_device_state :
      HardwareInterfaceAppOptions → ℕ → EndpointConfig Real → EndpointStatus → ℕ → DeviceState
  build_device_state options now config s sequence = record {
    header = fill_header options now sequence;
    device_id = config.endpoint_id;
    availability = to_device_availability s.state;
    health = to_health_state s;
    message = s.message;
    metrics = count_metrics s;
    properties =
        record { key = codes "endpoint_type"; value = config.type }
        ∷ record { key = codes "endpoint_state"; value = state_name s.state }
        ∷ (if is_empty s.last_error
            then []
            else record { key = codes "last_error"; value = s.last_error } ∷ []);
  }

  -- The topics that BuildNodeInfo adds for an endpoint.
  abbrev pub endpoint_topics : Option (EndpointConfig Real) → List TopicInfo
  endpoint_topics none = []
  endpoint_topics (some c) =
      topic_info c.topic (message_type_name c.type) publisher
        ∷ (if is_empty c.command_topic
            then []
            else topic_info c.command_topic (command_type_name c.type) subscriber ∷ [])
      ++ topic_info (device_info_topic c.endpoint_id) (codes "openember.msgs.device.v1.DeviceInfo")
          publisher
        ∷ topic_info (device_state_topic c.endpoint_id)
            (codes "openember.msgs.device.v1.DeviceState") publisher
        ∷ []

  unfoldable pub all_endpoint_topics :
      List (EndpointConfig Real) → List EndpointStatus → List TopicInfo
  all_endpoint_topics cs [] = []
  all_endpoint_topics cs (s ∷ ss) =
      endpoint_topics (find_endpoint_config cs s.endpoint_id) ++ all_endpoint_topics cs ss

  -- BuildNodeInfo, with the process's id and the start's time.
  abbrev pub build_node_info :
      HardwareInterfaceAppOptions
      → ℕ
      → ℕ
      → ℕ
      → ℕ
      → List (EndpointConfig Real)
      → List EndpointStatus
      → NodeInfo
  build_node_info options now pid start_time sequence cs ss = record {
    header = fill_header options now sequence;
    node_name = options.node_name;
    instance_id = options.instance_id;
    process_name = codes "openember_hardware_interface";
    process_id = u32 pid;
    kind = service;
    version = codes "0.1.0";
    start_time_unix_ns = start_time;
    topics =
        topic_info (codes "/nodes/hardware_interface/info")
          (codes "openember.msgs.node.v1.NodeInfo") publisher
        ∷ topic_info (codes "/nodes/hardware_interface/heartbeat")
            (codes "openember.msgs.node.v1.NodeHeartbeat") publisher
        ∷ topic_info (codes "/diagnostics/hardware_interface")
            (codes "openember.msgs.diagnostics.v1.DiagnosticArray") publisher
        ∷ all_endpoint_topics cs ss;
    labels = record { key = codes "role"; value = codes "service" } ∷ [];
    capabilities = codes "hardware_interface" ∷ codes "mock_hardware_endpoints" ∷ [];
  }
