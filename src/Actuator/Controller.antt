-- ===== src/Actuator/Controller.antt =====
-- components/actuator/src/mock_joint_controller.cpp: the state of MockJointController and all its
-- operations but SetCommand, Step and ReadState. The clock readings of a call are arguments.
use openember.Prelude.{
  ℕ, suc, Bool, true, false, not, ◌&&◌, ◌||◌, List, [], map, Option, none, if◌then◌else◌,
}
use openember.Prelude.Text.{Text, codes}
use openember.Prelude.Word.{u64}
use openember.Actuator.Joint.{
  Double, Availability, offline, output_disabled, output_enabled, degraded, fault, emergency_stop,
  HealthState, ok, error, stale, no_code, not_running, safety_violation, Error, Outcome, success,
  failure, disabled, JointInfo, JointCommand, JointStateItem,
}

abbrev pub no_error : Error
no_error = record { code = no_code; message = [] }

abbrev pub is_not_running : Outcome
is_not_running =
    failure (record { code = not_running; message = codes "mock joint controller is not running" })

abbrev pub violation : Text → Outcome
violation text = failure (record { code = safety_violation; message = text })

module _ (double : Double) where
  open double use {Real, zero_real}

  pub record Options : Type 0 where
    pub controller_id : Text
    pub command_timeout_ms : ℕ
    pub disabled_on_start : Bool
    pub default_temperature_celsius : Real

  -- The members of MockJointController; the two clock members are nanoseconds, and `last_command`
  -- is none as long as no command was stored.
  pub record Controller : Type 0 where
    pub options : Options
    pub joints : List (JointInfo double)
    pub joint_states : List (JointStateItem double)
    pub running : Bool
    pub enabled : Bool
    pub fault_latched : Bool
    pub emergency_stopped : Bool
    pub has_command : Bool
    pub safe_output_active : Bool
    pub last_command : Option (JointCommand double)
    pub last_error : Error
    pub message : Text
    pub sequence : ℕ
    pub error_count : ℕ
    pub timeout_count : ℕ
    pub last_command_monotonic_ns : ℕ
    pub state_sequence : ℕ
    pub next_state : ℕ
    pub last_step : ℕ

  -- The loop of the constructor.
  abbrev pub first_state : Options → JointInfo double → JointStateItem double
  first_state options joint = record {
    joint_id = joint.joint_id;
    joint_name = joint.joint_name;
    mode = disabled;
    position_rad = zero_real;
    velocity_radps = zero_real;
    effort_nm = zero_real;
    temperature_celsius = options.default_temperature_celsius;
    feedback_received = true;
    fault_code = 0;
    fault_message = [];
  }

  -- MockJointController::MockJointController, of the options with their joints.
  unfoldable pub new_controller : Options → List (JointInfo double) → ℕ → Controller
  new_controller options joints now = record {
    options = options;
    joints = joints;
    joint_states = map (first_state options) joints;
    running = false;
    enabled = false;
    fault_latched = false;
    emergency_stopped = false;
    has_command = false;
    safe_output_active = false;
    last_command = none;
    last_error = no_error;
    message = codes "created";
    sequence = 0;
    error_count = 0;
    timeout_count = 0;
    last_command_monotonic_ns = 0;
    state_sequence = 0;
    next_state = 0;
    last_step = now;
  }

  -- `++sequence_`.
  abbrev pub counted : Controller → Controller
  counted c = record c { sequence = u64 (suc c.sequence) }

  abbrev pub at_rest : JointStateItem double → JointStateItem double
  at_rest s = record s { mode = disabled; velocity_radps = zero_real; effort_nm = zero_real }

  -- ApplySafeOutputLocked.
  unfoldable pub apply_safe_output : Text → Controller → Controller
  apply_safe_output text c = record c {
    enabled = false;
    safe_output_active = true;
    message = text;
    joint_states = map at_rest c.joint_states;
  }

  -- Start.
  unfoldable pub start : ℕ → Controller → Outcome × Controller
  start now c =
      let enables = not c.options.disabled_on_start in
      (
        success,
        counted (record c {
          running = true;
          enabled = enables;
          fault_latched = false;
          emergency_stopped = false;
          safe_output_active = not enables;
          has_command = false;
          message =
              if enables
              then codes "mock joint controller running"
              else codes "mock joint controller disabled";
          next_state = now;
          last_step = now;
        }),
      )

  -- Stop.
  unfoldable pub stop : Controller → Controller
  stop c = counted (
      apply_safe_output (codes "mock joint controller stopped")
        (record c { running = false; enabled = false; safe_output_active = true }))

  -- Enable.
  unfoldable pub enable : Controller → Outcome × Controller
  enable c =
      if not c.running
      then (is_not_running, c)
      else if c.fault_latched
      then (violation (codes "mock joint controller fault latched"), c)
      else if c.emergency_stopped
      then (violation (codes "mock joint controller emergency stopped"), c)
      else (
        success,
        counted (record c {
          enabled = true;
          safe_output_active = false;
          message = codes "mock joint controller enabled";
        }),
      )

  -- Disable.
  unfoldable pub disable : Controller → Outcome × Controller
  disable c =
      if not c.running
      then (is_not_running, c)
      else (success, counted (apply_safe_output (codes "mock joint controller disabled") c))

  -- EmergencyStop.
  unfoldable pub stop_now : Controller → Outcome × Controller
  stop_now c = if not c.running then (is_not_running, c) else (
    success,
    counted (
        apply_safe_output (codes "mock joint controller emergency stopped")
          (record c { emergency_stopped = true })),
  )

  abbrev pub without_fault : JointStateItem double → JointStateItem double
  without_fault s = record s { fault_code = 0; fault_message = [] }

  -- What ClearFault and a command that clears the fault reset.
  abbrev pub faults_cleared : Controller → Controller
  faults_cleared c = record c {
    fault_latched = false;
    emergency_stopped = false;
    last_error = no_error;
    joint_states = map without_fault c.joint_states;
  }

  -- ClearFault.
  unfoldable pub clear_fault : Controller → Outcome × Controller
  clear_fault c = if not c.running then (is_not_running, c) else (
    success,
    counted (apply_safe_output (codes "mock joint controller fault cleared") (faults_cleared c)),
  )

  abbrev pub with_fault : Text → ℕ → JointStateItem double → JointStateItem double
  with_fault text code s = record s { fault_code = code; fault_message = text }

  -- InjectFault.
  unfoldable pub inject_fault : Text → ℕ → Controller → Controller
  inject_fault text code c = counted (
      apply_safe_output text (record c {
        fault_latched = true;
        last_error = record { code = safety_violation; message = text };
        error_count = u64 (suc c.error_count);
        joint_states = map (with_fault text code) c.joint_states;
      }))

  -- AvailabilityLocked.
  unfoldable pub availability : Controller → Availability
  availability c =
      if not c.running
      then offline
      else if c.emergency_stopped
      then emergency_stop
      else if c.fault_latched
      then fault
      else if c.safe_output_active && c.enabled
      then degraded
      else if c.enabled
      then output_enabled
      else output_disabled

  -- The health that Status reports.
  unfoldable pub health : Controller → HealthState
  health c =
      if c.fault_latched || c.emergency_stopped then error else if c.running then ok else stale
