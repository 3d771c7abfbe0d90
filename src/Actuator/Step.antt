-- ===== src/Actuator/Step.antt =====
-- components/actuator/src/mock_joint_controller.cpp: Step, and the calls that a controller gets.
use openember.Prelude.{
  ℕ, zero, suc, ◌+◌, ◌-◌, ◌*◌, Bool, true, false, not, ◌&&◌, List, [], ◌∷◌, Option, none, some, ltb,
  ◌==◌, if◌then◌else◌,
}
use openember.Prelude.Text.{Text, codes, is_empty}
use openember.Prelude.Word.{u64}
use openember.Actuator.Joint.{
  Double, timeout, Outcome, success, JointInfo, JointCommandItem, JointCommand, JointStateItem,
}
use openember.Actuator.Controller.{
  Controller, is_not_running, counted, apply_safe_output, start, stop, enable, disable, stop_now,
  clear_fault, inject_fault,
}
use openember.Actuator.Read.{read_state, read_woken}
use openember.Actuator.Command.{is_disabled, is_velocity, is_effort, find_joint_index, set_command}

module _ (double : Double) where
  open double use {Real, zero_real, less, add, multiply, negate, seconds}

  -- std::max and std::min.
  abbrev pub max_real : Real → Real → Real
  max_real a b = if less a b then b else a

  abbrev pub min_real : Real → Real → Real
  min_real a b = if less b a then b else a

  -- ClampEffort.
  unfoldable pub clamp_effort : Real → Real → Real → Real
  clamp_effort value command_limit joint_limit =
      let limit =
        if less zero_real command_limit
        then command_limit
        else if less zero_real joint_limit
        then joint_limit
        else zero_real in
      if less zero_real limit then max_real (negate limit) (min_real limit value) else value

  abbrev pub clamp_position : JointInfo double → Real → Real
  clamp_position joint p =
      if less joint.min_position_rad joint.max_position_rad
      then max_real joint.min_position_rad (min_real joint.max_position_rad p)
      else p

  -- The body of the loop of Step, on the state of a joint.
  unfoldable pub step_joint :
      Real
      → Real
      → JointCommandItem double
      → JointInfo double
      → JointStateItem double
      → JointStateItem double
  step_joint temperature dt item joint s =
      let moved =
        if is_velocity item.mode && item.velocity_enabled
        then add s.position_rad (multiply item.velocity_radps dt)
        else s.position_rad in
      let speed =
        if item.velocity_enabled
        then item.velocity_radps
        else if is_velocity item.mode
        then zero_real
        else s.velocity_radps in
      let force =
        if item.effort_enabled
        then clamp_effort item.effort_nm item.max_effort_nm joint.max_effort_nm
        else if is_effort item.mode
        then zero_real
        else s.effort_nm in
      record s {
        mode = item.mode;
        feedback_received = true;
        temperature_celsius = temperature;
        position_rad =
            clamp_position joint (if item.position_enabled then item.position_rad else moved);
        velocity_radps = if is_disabled item.mode then zero_real else speed;
        effort_nm = if is_disabled item.mode then zero_real else force;
      }

  -- `joints_[i]` and `joint_states_[i]` belong together.
  unfoldable pub step_pair :
      (JointInfo double → JointStateItem double → JointStateItem double)
      → ℕ
      → List (JointInfo double)
      → List (JointStateItem double)
      → List (JointStateItem double)
  step_pair f i [] states = states
  step_pair f i (joint ∷ joints) [] = []
  step_pair f zero (joint ∷ joints) (s ∷ states) = f joint s ∷ states
  step_pair f (suc i) (joint ∷ joints) (s ∷ states) = s ∷ step_pair f i joints states

  -- One round of the loop of Step.
  abbrev pub step_found :
      Real
      → Real
      → List (JointInfo double)
      → List (JointStateItem double)
      → JointCommandItem double
      → Option ℕ
      → List (JointStateItem double)
  step_found temperature dt joints states item none = states
  step_found temperature dt joints states item (some i) =
      step_pair (step_joint temperature dt item) i joints states

  unfoldable pub step_items :
      Real
      → Real
      → List (JointInfo double)
      → List (JointCommandItem double)
      → List (JointStateItem double)
      → List (JointStateItem double)
  step_items temperature dt joints [] states = states
  step_items temperature dt joints (item ∷ items) states =
      step_items temperature dt joints items
        (step_found temperature dt joints states item (find_joint_index double 0 joints item))

  -- Whether Step finds the command in force too old.
  abbrev pub is_timed_out : ℕ → Controller double → Bool
  is_timed_out now_ns c =
      c.has_command
      && ltb 0 c.options.command_timeout_ms
      && not (c.last_command_monotonic_ns == 0)
      && ltb (u64 (c.last_command_monotonic_ns + u64 (c.options.command_timeout_ms * 1000000)))
          now_ns

  abbrev pub command_joints : Option (JointCommand double) → List (JointCommandItem double)
  command_joints none = []
  command_joints (some command) = command.joints

  abbrev timeout_message : Text
  timeout_message = codes "mock joint controller command timeout; safe output active"

  -- Step, in a controller that runs; `dt` is the time since the last step.
  unfoldable pub step_running : Real → ℕ → Controller double → Controller double
  step_running dt now_ns c =
      if not c.enabled
      then counted double (
          apply_safe_output double
            (if is_empty c.message then codes "mock joint controller disabled" else c.message) c)
      else if is_timed_out now_ns c
      then counted double (
          apply_safe_output double timeout_message (record c {
            has_command = false;
            timeout_count = u64 (suc c.timeout_count);
            last_error = record { code = timeout; message = timeout_message };
          }))
      else if not c.has_command
      then counted double (record c { message = codes "mock joint controller waiting for command" })
      else counted double (record c {
        joint_states =
            step_items c.options.default_temperature_celsius dt c.joints
              (command_joints c.last_command) c.joint_states;
        message = codes "mock joint controller running";
        safe_output_active = false;
      })

  -- Step, with the two clock readings that it makes.
  unfoldable pub step : ℕ → ℕ → Controller double → Outcome × Controller double
  step now now_ns c = if not c.running then (is_not_running, c) else (
    success,
    step_running (seconds (now - c.last_step)) now_ns (record c { last_step = now }),
  )

  -- The calls that change the controller.
  pub data Call : Type 0 where
    starts : ℕ → Call
    stops enables disables stops_now clears_fault : Call
    commands : ℕ → JointCommand double → Call
    steps : ℕ → ℕ → Call
    injects : Text → ℕ → Call
    reads wakes : ℕ → ℕ → ℕ → ℕ → Call

  unfoldable pub apply : Call → Controller double → Controller double
  apply (starts now) c = (start double now c).1
  apply stops c = stop double c
  apply enables c = (enable double c).1
  apply disables c = (disable double c).1
  apply stops_now c = (stop_now double c).1
  apply clears_fault c = (clear_fault double c).1
  apply (commands now command) c = (set_command double now command c).1
  apply (steps now now_ns) c = (step now now_ns c).1
  apply (injects text code) c = inject_fault double text code c
  apply (reads period first at now) c = (read_state double period first at now c).1
  apply (wakes period later at now) c = (read_woken double period later at now c).1

  unfoldable pub run : List Call → Controller double → Controller double
  run [] c = c
  run (call ∷ calls) c = run calls (apply call c)
