-- ===== src/HardwareInterface/Config.antt =====
-- services/hardware_interface/src/hardware_config.cpp: the configuration of the service. yaml-cpp is
-- a parameter.
use openember.Prelude.{
  ℕ, suc, Bool, true, false, not, ◌||◌, List, [], ◌∷◌, ◌++◌, Option, none, some, if◌then◌else◌,
}
use openember.Prelude.Int.{pos}
use openember.Prelude.Text.{Text, codes, is_empty, text_eq, to_string}
use openember.Prelude.Result.{Result, good, bad, ◌>>=◌, ◌>>◌, refuse_if}
use openember.Prelude.Yaml.{Failure, yaml_failure, runtime_failure, Yaml, runtime_error}
use openember.HardwareInterface.Endpoint.{EndpointConfig}

-- EndpointPrefix.
unfoldable pub endpoint_prefix : ℕ → Text
endpoint_prefix index = codes "endpoints[" ++ to_string (pos index) ++ codes "]"

-- DefaultDriverFor.
unfoldable pub default_driver_for : Text → Text → Text
default_driver_for type mode =
    if text_eq mode (codes "mock")
    then (if text_eq type (codes "imu")
        then codes "mock_imu"
        else if text_eq type (codes "temperature")
        then codes "mock_temperature"
        else if text_eq type (codes "gnss")
        then codes "mock_gnss"
        else if text_eq type (codes "joint_controller")
        then codes "mock_joint_controller"
        else codes "mock_" ++ type)
    else type

-- DefaultTopicFor.
unfoldable pub default_topic_for : Text → Text → Text
default_topic_for type endpoint_id =
    if text_eq type (codes "imu")
    then codes "/sensors/imu/" ++ endpoint_id ++ codes "/sample"
    else if text_eq type (codes "temperature")
    then codes "/sensors/temperature/" ++ endpoint_id ++ codes "/sample"
    else if text_eq type (codes "gnss")
    then codes "/sensors/gnss/" ++ endpoint_id ++ codes "/fix"
    else if text_eq type (codes "joint_controller")
    then codes "/actuators/joints/" ++ endpoint_id ++ codes "/state"
    else codes "/hardware/" ++ type ++ codes "/" ++ endpoint_id

-- DefaultCommandTopicFor.
unfoldable pub default_command_topic_for : Text → Text → Text
default_command_topic_for type endpoint_id =
    if text_eq type (codes "joint_controller")
    then codes "/actuators/joints/" ++ endpoint_id ++ codes "/command"
    else []

module _ (yaml : Yaml) where
  open yaml use {
    Node, Real, load_file, child, items, is_map, is_scalar, is_sequence, as_string, as_bool,
    as_double, as_uint64, assign, literal, at_most_zero,
  }

  -- DefaultRateFor.
  unfoldable pub default_rate_for : Text → Real
  default_rate_for type =
      if text_eq type (codes "imu")
      then literal 100
      else if text_eq type (codes "temperature")
      then literal 2
      else if text_eq type (codes "gnss")
      then literal 1
      else if text_eq type (codes "joint_controller")
      then literal 100
      else literal 1

  -- RequiredString.
  abbrev pub required_text : Text → Text → Text → Result Failure Text
  required_text key prefix text = do
    refuse_if (is_empty text)
        (runtime_failure (prefix ++ codes "." ++ key ++ codes " must not be empty"))
    good text

  unfoldable pub required_string : Node → Text → Text → Result Failure Text
  required_string node key prefix = elim (child node key) [
    | none ↦ runtime_error (prefix ++ codes "." ++ key ++ codes " is required")
    | some value ↦ do
      refuse_if (not (is_scalar value))
          (runtime_failure (prefix ++ codes "." ++ key ++ codes " is required"))
      text ← as_string value
      required_text key prefix text
  ]

  -- OptionalString, OptionalBool, OptionalDouble and OptionalUint64: they differ in the conversion
  -- and in the text.
  unfoldable pub optional :
      {A : Type 0} → (Node → Result Failure A) → Text → Node → Text → A → Text → Result Failure A
  optional convert complaint node key fallback prefix = elim (child node key) [
    | none ↦ good fallback
    | some value ↦ do
      refuse_if (not (is_scalar value)) (runtime_failure (prefix ++ codes "." ++ key ++ complaint))
      convert value
  ]

  abbrev pub optional_string : Node → Text → Text → Text → Result Failure Text
  optional_string = optional as_string (codes " must be a scalar")

  abbrev pub optional_bool : Node → Text → Bool → Text → Result Failure Bool
  optional_bool = optional as_bool (codes " must be a boolean")

  abbrev pub optional_double : Node → Text → Real → Text → Result Failure Real
  optional_double = optional as_double (codes " must be a number")

  abbrev pub optional_uint64 : Node → Text → ℕ → Text → Result Failure ℕ
  optional_uint64 = optional as_uint64 (codes " must be an unsigned integer")

  -- The texts and the endpoint's id of ParseEndpoint.
  abbrev pub read_id : Node → Text → Result Failure Text
  read_id node prefix = do
    first ← optional_string node (codes "id") [] prefix
    id ← optional_string node (codes "endpoint_id") first prefix
    refuse_if (is_empty id) (runtime_failure (prefix ++ codes ".id is required"))
    good id

  -- The rest of the reading of ParseEndpoint.
  abbrev pub read_fields : Node → Text → Text → Text → Result Failure (EndpointConfig Real)
  read_fields node prefix id type = do
    enabled ← optional_bool node (codes "enabled") true prefix
    mode ← optional_string node (codes "mode") (codes "mock") prefix
    driver ← optional_string node (codes "driver") (default_driver_for type mode) prefix
    topic ← optional_string node (codes "topic") (default_topic_for type id) prefix
    state_topic ← optional_string node (codes "state_topic") topic prefix
    command_topic ←
        optional_string node (codes "command_topic") (default_command_topic_for type id) prefix
    frame_id ← optional_string node (codes "frame_id") (id ++ codes "_link") prefix
    publish_rate_hz ← optional_double node (codes "publish_rate_hz") (default_rate_for type) prefix
    command_timeout_ms ← optional_uint64 node (codes "command_timeout_ms") 100 prefix
    disabled_on_start ← optional_bool node (codes "disabled_on_start") true prefix
    critical ← optional_bool node (codes "critical") false prefix
    good (record {
      endpoint_id = id;
      type = type;
      enabled = enabled;
      mode = mode;
      driver = driver;
      topic = topic;
      command_topic = command_topic;
      state_topic = state_topic;
      frame_id = frame_id;
      publish_rate_hz = publish_rate_hz;
      command_timeout_ms = command_timeout_ms;
      disabled_on_start = disabled_on_start;
      critical = critical;
    })

  -- The tests of ParseEndpoint that concern a joint controller only.
  abbrev pub check_joint_topics : Text → EndpointConfig Real → Result Failure (EndpointConfig Real)
  check_joint_topics prefix c = do
    refuse_if (is_empty c.state_topic)
        (runtime_failure (prefix ++ codes ".state_topic must not be empty"))
    refuse_if (is_empty c.command_topic)
        (runtime_failure (prefix ++ codes ".command_topic must not be empty"))
    good (record c { topic = c.state_topic })

  -- The tests of ParseEndpoint.
  abbrev pub check_fields : Text → EndpointConfig Real → Result Failure (EndpointConfig Real)
  check_fields prefix c = do
    refuse_if (is_empty c.mode) (runtime_failure (prefix ++ codes ".mode must not be empty"))
    refuse_if (is_empty c.driver) (runtime_failure (prefix ++ codes ".driver must not be empty"))
    refuse_if (is_empty c.topic) (runtime_failure (prefix ++ codes ".topic must not be empty"))
    d ← if text_eq c.type (codes "joint_controller") then check_joint_topics prefix c else good c
    refuse_if (at_most_zero d.publish_rate_hz)
        (runtime_failure (prefix ++ codes ".publish_rate_hz must be > 0"))
    good d

  -- ParseEndpoint.
  unfoldable pub parse_endpoint : Node → ℕ → Result Failure (EndpointConfig Real)
  parse_endpoint node index = do
    let prefix = endpoint_prefix index
    refuse_if (not (is_map node)) (runtime_failure (prefix ++ codes " must be a map"))
    id ← read_id node prefix
    type ← required_string node (codes "type") prefix
    c ← read_fields node prefix id type
    check_fields prefix c

  -- Whether an id is among the endpoints'.
  unfoldable pub has_endpoint : Text → List (EndpointConfig Real) → Bool
  has_endpoint k [] = false
  has_endpoint k (c ∷ cs) = text_eq k c.endpoint_id || has_endpoint k cs

  -- The loop of LoadConfigFromFile, with the endpoints that it has read so far, whose ids are the set
  -- `endpoint_ids`.
  abbrev pub unless_duplicate :
      List (EndpointConfig Real) → EndpointConfig Real → Result Failure (Unit {0})
  unless_duplicate seen c =
      refuse_if (has_endpoint c.endpoint_id seen)
        (runtime_failure (codes "duplicate endpoint id: " ++ c.endpoint_id))

  unfoldable pub load_endpoints :
      List Node → ℕ → List (EndpointConfig Real) → Result Failure (List (EndpointConfig Real))
  load_endpoints [] i seen = good seen
  load_endpoints (n ∷ ns) i seen = do
    c ← parse_endpoint n i
    unless_duplicate seen c
    load_endpoints ns (suc i) (seen ++ c ∷ [])

  pub record HardwareInterfaceConfig : Type 0 where
    pub robot_id : Text
    pub node_name : Text
    pub instance_id : Text
    pub endpoints : List (EndpointConfig Real)

  abbrev pub new_config : HardwareInterfaceConfig
  new_config = record {
    robot_id = codes "openember";
    node_name = codes "hardware_interface";
    instance_id = codes "hardware_interface";
    endpoints = [];
  }

  -- The part of LoadConfigFromFile about `hardware_interface`.
  abbrev pub read_app : Option Node → Result Failure HardwareInterfaceConfig
  read_app none = good new_config
  read_app (some app) = do
    refuse_if (not (is_map app)) (runtime_failure (codes "hardware_interface must be a map"))
    robot_id ←
        optional_string app (codes "robot_id") new_config.robot_id (codes "hardware_interface")
    node_name ←
        optional_string app (codes "node_name") new_config.node_name (codes "hardware_interface")
    instance_id ←
        optional_string app (codes "instance_id") new_config.instance_id
          (codes "hardware_interface")
    good (record {
      robot_id = robot_id;
      node_name = node_name;
      instance_id = instance_id;
      endpoints = [];
    })

  -- The node of the endpoints: the root's, or else the one of `hardware_interface`.
  abbrev pub find_endpoints : Option Node → Option Node → Result Failure (Option Node)
  find_endpoints (some n) app = good (some n)
  find_endpoints none none = good none
  find_endpoints none (some app) = assign (child app (codes "endpoints"))

  abbrev pub endpoint_items : Option Node → Result Failure (List Node)
  endpoint_items none = runtime_error (codes "endpoints must be a sequence")
  endpoint_items (some n) =
      if is_sequence n then good (items n) else runtime_error (codes "endpoints must be a sequence")

  -- LoadConfigFromFile, before its `catch` clauses. What ConfigError returns at once is a failure with
  -- its message too.
  unfoldable pub load_config : Text → Result Failure HardwareInterfaceConfig
  load_config path = do
    refuse_if (is_empty path) (runtime_failure (codes "config path must not be empty"))
    root ← load_file path
    refuse_if (not (is_map root))
        (runtime_failure (codes "hardware_interface config root must be a map"))
    let app = child root (codes "hardware_interface")
    config ← read_app app
    found ← find_endpoints (child root (codes "endpoints")) app
    nodes ← endpoint_items found
    endpoints ← load_endpoints nodes 0 []
    good (record config { endpoints = endpoints })

  -- What the `catch` clauses make of a failure.
  abbrev pub error_message : Failure → Text
  error_message (yaml_failure text) = codes "failed to parse hardware_interface config: " ++ text
  error_message (runtime_failure text) = text

  abbrev pub with_message :
      Result Failure HardwareInterfaceConfig → Result Text HardwareInterfaceConfig
  with_message (good config) = good config
  with_message (bad e) = bad (error_message e)

  -- LoadConfigFromFile.
  unfoldable pub load_config_from_file : Text → Result Text HardwareInterfaceConfig
  load_config_from_file path = with_message (load_config path)
