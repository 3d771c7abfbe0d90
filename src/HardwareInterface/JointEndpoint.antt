-- ===== src/HardwareInterface/JointEndpoint.antt =====
-- services/hardware_interface/endpoints/joint_controller_endpoint.cpp: the endpoint that drives the
-- mock joint controller. The loop of its thread is the turns of Run.
use openember.Prelude.{ℕ, ◌+◌, ◌==◌, Bool, true, false, ◌||◌, List, if◌then◌else◌, ltb}
use openember.Prelude.Text.{Text, codes, is_empty}
use openember.Prelude.Word.{u64}
use openember.Actuator.Joint.{
  ErrorCode, timeout, Double, Outcome, success, failure, JointInfo, JointCommand,
}
use openember.Actuator.Controller.{Options, Controller, new_controller, start}
use openember.Actuator.Command.{set_command}
use openember.Actuator.Read.{ReadResult, has_read, fails, waits}
use openember.Actuator.Step.{step}
use openember.HardwareInterface.Endpoint.{
  EndpointConfig, EndpointStatus, new_status, record_error, set_error, configured_status,
  running_status,
}

module _ (double : Double) where
  open double use {Real}

  pub record JointEndpoint : Type 0 where
    pub config : EndpointConfig Real
    pub status : EndpointStatus
    pub controller : Controller double
    -- `running_`, while the thread runs.
    pub running : Bool

  -- BuildOptions, with the temperature that the options have by default.
  abbrev pub build_options : Real → EndpointConfig Real → Options double
  build_options temperature config = record {
    controller_id = config.endpoint_id;
    command_timeout_ms = config.command_timeout_ms;
    disabled_on_start = config.disabled_on_start;
    default_temperature_celsius = temperature;
  }

  -- JointControllerEndpoint::JointControllerEndpoint, with the options' own joints.
  abbrev pub new_endpoint : Real → List (JointInfo double) → ℕ → EndpointConfig Real → JointEndpoint
  new_endpoint temperature joints now config = record {
    config = config;
    status = new_status config;
    controller = new_controller double (build_options temperature config) joints now;
    running = false;
  }

  -- Configure.
  unfoldable pub configure : JointEndpoint → Bool × JointEndpoint
  configure e =
      if is_empty e.config.command_topic || is_empty e.config.state_topic
      then (
        false,
        record e {
          status =
              set_error (codes "joint controller endpoint requires command_topic and state_topic")
                e.status;
        },
      )
      else (true, record e { status = configured_status e.status })

  -- What follows the controller's Start.
  abbrev pub after_start : JointEndpoint → Outcome × Controller double → Bool × JointEndpoint
  after_start e (success, c) =
      (true, record e { controller = c; running = true; status = running_status e.status })
  after_start e (failure error, c) =
      (false, record e { controller = c; status = set_error error.message e.status })

  -- Start, at a reading of the clock.
  unfoldable pub start_joints : ℕ → JointEndpoint → Bool × JointEndpoint
  start_joints now e = after_start e (start double now e.controller)

  -- The command's time, the clock's if the message has none.
  abbrev pub timed : ℕ → JointCommand double → JointCommand double
  timed now command =
      if command.command_time_monotonic_ns == 0
      then record command { command_time_monotonic_ns = now }
      else command

  -- The status after the controller's answer to a command.
  abbrev pub answered : ℕ → Outcome → EndpointStatus → EndpointStatus
  answered at success s = record s {
    last_command_monotonic_ns = at;
    command_count = u64 (s.command_count + 1);
    message = codes "command accepted";
  }
  answered at (failure error) s = record s {
    last_command_monotonic_ns = at;
    command_count = u64 (s.command_count + 1);
    error_count = u64 (s.error_count + 1);
    last_error = error.message;
    message = error.message;
  }

  -- HandleCommand, of the message that ToDomain has read, at a reading of the clock.
  unfoldable pub handle_command : ℕ → JointCommand double → JointEndpoint → JointEndpoint
  handle_command now message e =
      let command = timed now message in
      let r = set_command double now command e.controller in
      record e {
        controller = r.1;
        status = answered command.command_time_monotonic_ns r.0 e.status;
      }

  -- RecordTimeout.
  abbrev pub record_timeout : Text → EndpointStatus → EndpointStatus
  record_timeout text s = record s {
    timeout_count = u64 (s.timeout_count + 1);
    last_error = text;
    message = text;
  }

  abbrev pub max : ℕ → ℕ → ℕ
  max a b = if ltb a b then b else a

  -- UpdateStatusFromController, of a state's number, time and message, at a reading of the clock.
  unfoldable pub update_status_from_controller :
      ℕ → ℕ → Text → Bool → ℕ → Controller double → EndpointStatus → EndpointStatus
  update_status_from_controller sequence time text published now c s = record s {
    sequence = sequence;
    sample_count = u64 (s.sample_count + 1);
    publish_count = if published then u64 (s.publish_count + 1) else s.publish_count;
    error_count = max s.error_count c.error_count;
    timeout_count = max s.timeout_count c.timeout_count;
    last_sample_monotonic_ns = time;
    last_publish_monotonic_ns = now;
    last_command_monotonic_ns = c.last_command_monotonic_ns;
    message = text;
    last_error = if is_empty c.last_error.message then s.last_error else c.last_error.message;
  }

  -- The turn of Run's loop up to ReadState: whether the turn goes on, and the endpoint.
  abbrev pub after_step : JointEndpoint → Outcome × Controller double → Bool × JointEndpoint
  after_step e (success, c) = (true, record e { controller = c })
  after_step e (failure error, c) =
      (false, record e { controller = c; status = record_error error.message e.status })

  unfoldable pub run_step : ℕ → ℕ → JointEndpoint → Bool × JointEndpoint
  run_step now now_ns e = after_step e (step double now now_ns e.controller)

  abbrev pub is_timeout : ErrorCode → Bool
  is_timeout timeout = true
  is_timeout c = false

  -- The turn of Run's loop from the end of a section of ReadState on, with the result of Publish and a
  -- reading of the clock.
  abbrev pub after_read :
      Bool → ℕ → JointEndpoint → ReadResult double × Controller double → JointEndpoint
  after_read published now e (waits, c) = record e { controller = c }
  after_read published now e (fails error, c) = record e {
    controller = c;
    status =
        if is_timeout error.code
        then record_timeout error.message e.status
        else record_error error.message e.status;
  }
  after_read published now e (has_read state, c) =
      let s =
        if published
        then e.status
        else record_error (codes "failed to publish joint state") e.status in
      record e {
        controller = c;
        status =
            update_status_from_controller state.sequence state.sample_time_monotonic_ns
              state.message published now c s;
      }
