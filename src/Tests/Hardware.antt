-- ===== src/Tests/Hardware.antt =====
-- Runs of the hardware interface of services/hardware_interface.
use openember.Prelude.{
  ◌||◌, ◌+◌, ◌≡◌, ◌↔◌, refl, Bool, true, false, List, [], ◌∷◌, ◌++◌, Option, none, some, map, arith,
  if◌then◌else◌, length, ◌==◌,
}
use openember.Prelude.Int.{ℤ, pos, ltb_ℤ}
use openember.Prelude.Text.{Text, codes, text_eq}
use openember.Prelude.Map.{lookup}
use openember.Prelude.Result.{Result, good, bad, Holds}
use openember.Messages.{level_error}
use openember.DeviceManager.Registry.{receive_all, new_registry}
use openember.HealthMonitor.Registry.{beats, node_statuses}
use openember.HealthMonitor.Registry
use openember.HealthMonitor.Nodes.{of_node}
use openember.HardwareInterface.Endpoint.{
  EndpointConfig, EndpointStatus, HardwareEndpoint, failed, new_status,
}
use openember.HardwareInterface.App.{
  HardwareInterfaceAppOptions, App, new_app, start_app, build_endpoints, build_loop,
  start_endpoints, start_endpoint, find_endpoint_config,
}
use openember.HardwareInterface.Publish.{build_heartbeat}
use openember.HardwareInterface.Spin.{Surroundings}
use openember.HardwareInterface.Starting.{IsStarted, start_app_lem}
use openember.Transport.KeyBuilder.{KeyBuilder}
use openember.HardwareInterface.Health.{worst_endpoint_told}
use openember.HardwareInterface.JointEndpoint.{JointEndpoint, new_endpoint, start_joints, configure}
use openember.HardwareInterface.JointTurns.{Meanwhile, alone, steps, reads, stop_joints}
use openember.HardwareInterface.JointStop.{
  joint_endpoints, IsSilenced, EndsAs, stop_joints-IsSilenced,
}
use openember.Prelude.Yaml.{Failure, yaml_failure, Yaml}
use openember.HardwareInterface.Config.{
  HardwareInterfaceConfig, load_config, load_config_from_file, load_endpoints, parse_endpoint,
  has_endpoint, endpoint_prefix, default_driver_for, default_topic_for, default_command_topic_for,
  default_rate_for, required_string, optional,
}
use openember.HardwareInterface.Loading.{IsValid, load_config_from_file-IsValid, IsDistinct}
use openember.HardwareInterface.Distinct.{parse_all, load_endpoints_iff}
use openember.Actuator.Controller.{start}
use openember.Tests.Joints.{whole, elbow}

abbrev arm_config : EndpointConfig ℤ
arm_config = record {
  endpoint_id = codes "arm";
  type = codes "joint_controller";
  enabled = true;
  mode = codes "mock";
  driver = codes "mock_joint_controller";
  topic = codes "/arm/state";
  command_topic = codes "/arm/command";
  state_topic = codes "/arm/state";
  frame_id = codes "arm_link";
  publish_rate_hz = pos 100;
  command_timeout_ms = 100;
  disabled_on_start = true;
  critical = true;
}

abbrev options : HardwareInterfaceAppOptions
options = record {
  robot_id = codes "openember";
  node_name = codes "hardware_interface";
  instance_id = codes "hardware_interface";
}

abbrev joints : HardwareEndpoint ℤ
joints = joint_endpoints whole (pos 30) (elbow ∷ []) 5 (alone whole)

abbrev app : App joints
app = new_app joints options (arm_config ∷ [])

start_app_lem_example : IsStarted joints (start_app joints app).1
unfolding start_app build_endpoints build_loop start_endpoints start_endpoint find_endpoint_config
    codes text_eq configure start_joints start
start_app_lem_example = start_app_lem joints app refl

abbrev arm : JointEndpoint whole
arm = new_endpoint whole (pos 30) (elbow ∷ []) 5 arm_config

-- Its thread makes a step between the two calls, and a last one while Stop waits.
abbrev busy : Meanwhile whole
busy = record (alone whole) {
  before_stop = steps 7 7000 ∷ [];
  before_end = steps 8 8000 ∷ reads true 9 10 9 9 9 ∷ [];
}

stop_joints-IsSilenced_example :
    let e = (start_joints whole 6 arm).1 in
    IsSilenced whole (stop_joints whole busy e)
    × EndsAs whole e.status.state (stop_joints whole busy e).status
stop_joints-IsSilenced_example = stop_joints-IsSilenced whole busy (start_joints whole 6 arm).1

-- The service with its publishers.
abbrev started : App joints
started = record app {
  endpoints = arm ∷ [];
  device_info_pubs = (codes "arm", codes "/devices/arm/info") ∷ [];
  device_state_pubs = (codes "arm", codes "/devices/arm/state") ∷ [];
}

abbrev around : Surroundings
around = record {
  clock = λ i. 100 + i;
  uptime = 7;
  process_id = 12;
  start_time = 90;
  active = pos 3;
}

abbrev robot : KeyBuilder
robot = record { robot_id = codes "openember"; namespace_name = [] }

abbrev broken : EndpointStatus
broken = record (new_status arm_config) { state = failed; error_count = 1 }

worst_endpoint_told_example :
    map
      (λ s. s.level)
      (of_node (codes "hardware_interface") (
        node_statuses 20
          (Registry.receive_all
            ([] ++ beats 10 (build_heartbeat (pos 3) options 99 7 1 (broken ∷ [])) ∷ [])
            Registry.new_registry).nodes))
    ≡ level_error ∷ []
unfolding codes
worst_endpoint_told_example =
    worst_endpoint_told (pos 3) options 99 7 1 (broken ∷ []) [] [] 10 20 refl tt (omega arith)

-- A YAML document of the shape that the service reads: scalars, maps of scalars, and a root with
-- the endpoints.
pub data Tree : Type 0 where
  scalar : Text → Tree
  mapping : List (Text × Text) → Tree
  sequence : List (List (Text × Text)) → Tree
  root : List (List (Text × Text)) → Tree

abbrev pub scalar_of : Option Text → Option Tree
scalar_of none = none
scalar_of (some text) = some (scalar text)

abbrev pub child_of : Tree → Text → Option Tree
child_of (scalar text) key = none
child_of (mapping m) key = scalar_of (lookup key m)
child_of (sequence ms) key = none
child_of (root ms) key =
    if text_eq key (codes "endpoints") || text_eq key (codes "nodes")
    then some (sequence ms)
    else none

abbrev pub items_of : Tree → List Tree
items_of (scalar text) = []
items_of (mapping m) = []
items_of (sequence ms) = map mapping ms
items_of (root ms) = []

abbrev pub is_mapping : Tree → Bool
is_mapping (scalar text) = false
is_mapping (mapping m) = true
is_mapping (sequence ms) = false
is_mapping (root ms) = true

abbrev pub is_text : Tree → Bool
is_text (scalar text) = true
is_text (mapping m) = false
is_text (sequence ms) = false
is_text (root ms) = false

abbrev pub is_list : Tree → Bool
is_list (scalar text) = false
is_list (mapping m) = false
is_list (sequence ms) = true
is_list (root ms) = false

abbrev pub text_of : Tree → Result Failure Text
text_of (scalar text) = good text
text_of (mapping m) = bad (yaml_failure [])
text_of (sequence ms) = bad (yaml_failure [])
text_of (root ms) = bad (yaml_failure [])

abbrev thermometer : List (Text × Text)
thermometer = (codes "id", codes "temp0") ∷ (codes "type", codes "temperature") ∷ []

abbrev compass : List (Text × Text)
compass = (codes "id", codes "imu0") ∷ (codes "type", codes "imu") ∷ []

abbrev pub yaml_of : List (List (Text × Text)) → Yaml
yaml_of ms = record {
  Node = Tree;
  Real = ℤ;
  load_file = λ path. good (root ms);
  child = child_of;
  subscript = λ n key. good (child_of n key);
  items = items_of;
  pairs = λ n. [];
  is_map = is_mapping;
  is_scalar = is_text;
  is_sequence = is_list;
  as_string = text_of;
  as_bool = λ n. bad (yaml_failure []);
  as_double = λ n. bad (yaml_failure []);
  as_uint32 = λ n. bad (yaml_failure []);
  as_uint64 = λ n. bad (yaml_failure []);
  assign = λ o. good o;
  literal = pos;
  at_most_zero = λ r. ltb_ℤ r (pos 1);
}

abbrev file : Yaml
file = yaml_of (thermometer ∷ compass ∷ [])

load_config_from_file-IsValid_example :
    Holds (λ c. IsValid file c.endpoints) (load_config_from_file file (codes "hardware.yaml"))
load_config_from_file-IsValid_example = load_config_from_file-IsValid file (codes "hardware.yaml")

-- The two endpoints are loaded.
abbrev counts_two : Result Text (HardwareInterfaceConfig file) → Bool
counts_two (good c) = length c.endpoints == 2
counts_two (bad e) = false

loaded_example : counts_two (load_config_from_file file (codes "hardware.yaml")) ≡ true
unfolding load_config_from_file load_config load_endpoints parse_endpoint has_endpoint
    endpoint_prefix default_driver_for default_topic_for default_command_topic_for default_rate_for
    required_string optional codes text_eq lookup
loaded_example = refl

abbrev pair : List Tree
pair = mapping thermometer ∷ mapping compass ∷ []

abbrev endpoints_or_none : Result Failure (List (EndpointConfig ℤ)) → List (EndpointConfig ℤ)
endpoints_or_none (good cs) = cs
endpoints_or_none (bad e) = []

load_endpoints_iff_example :
    let cs = endpoints_or_none (load_endpoints file pair 0 []) in
    (load_endpoints file pair 0 [] ≡ good cs)
    ↔ (parse_all file pair 0 ≡ good cs) × IsDistinct file cs
load_endpoints_iff_example =
    load_endpoints_iff file pair (endpoints_or_none (load_endpoints file pair 0 []))
