-- ===== src/Actuator/Command.antt =====
-- components/actuator/src/mock_joint_controller.cpp: SetCommand with its validation.
use openember.Prelude.{
  ℕ, suc, Bool, true, false, not, ◌&&◌, ◌||◌, List, [], ◌∷◌, Option, none, some, ◌==◌,
  if◌then◌else◌,
}
use openember.Prelude.Text.{Text, codes, text_eq, is_empty}
use openember.Prelude.Word.{u64}
use openember.Actuator.Joint.{
  Double, JointControlMode, unspecified, disabled, velocity, effort, invalid_data, Outcome, success,
  failure, JointInfo, JointCommandItem, JointCommand,
}
use openember.Actuator.Controller.{
  Controller, is_not_running, violation, counted, apply_safe_output, faults_cleared,
}

abbrev pub invalid : Text → Outcome
invalid text = failure (record { code = invalid_data; message = text })

abbrev pub is_disabled : JointControlMode → Bool
is_disabled disabled = true
is_disabled m = false

abbrev pub is_unspecified : JointControlMode → Bool
is_unspecified unspecified = true
is_unspecified m = false

abbrev pub is_velocity : JointControlMode → Bool
is_velocity velocity = true
is_velocity m = false

abbrev pub is_effort : JointControlMode → Bool
is_effort effort = true
is_effort m = false

unfoldable pub contains : ℕ → List ℕ → Bool
contains i [] = false
contains i (j ∷ js) = i == j || contains i js

module _ (double : Double) where
  open double use {Real, zero_real, less, add, multiply, negate, seconds}

  abbrev pub matches : JointCommandItem double → JointInfo double → Bool
  matches item joint =
      not (item.joint_id == 0) && item.joint_id == joint.joint_id
      || not (is_empty item.joint_name) && text_eq item.joint_name joint.joint_name

  -- FindJointIndex, over the joints from the i-th on; `none` is -1.
  unfoldable pub find_joint_index : ℕ → List (JointInfo double) → JointCommandItem double → Option ℕ
  find_joint_index i [] item = none
  find_joint_index i (joint ∷ joints) item =
      let rest = find_joint_index (suc i) joints item in if matches item joint then some i else rest

  abbrev pub has_control : JointCommandItem double → Bool
  has_control item =
      item.position_enabled || item.velocity_enabled || item.effort_enabled
      || item.stiffness_enabled || item.damping_enabled

  -- The tests of ValidateCommandLocked on an item whose joint is known, before those that follow.
  abbrev pub validate_item : JointCommandItem double → Outcome → Outcome
  validate_item item rest =
      if is_unspecified item.mode
      then invalid (codes "joint control mode is unspecified")
      else if not (is_disabled item.mode) && not (has_control item)
      then invalid (codes "joint command has no enabled field")
      else if less item.max_effort_nm zero_real
          || less item.stiffness_nm_per_rad zero_real
          || less item.damping_nms_per_rad zero_real
      then invalid (codes "joint command limit must be >= 0")
      else rest

  -- The loop of ValidateCommandLocked, with the joints seen.
  unfoldable pub validate_items :
      List (JointInfo double) → List ℕ → List (JointCommandItem double) → Outcome
  validate_items joints seen [] = success
  validate_items joints seen (item ∷ items) = elim (find_joint_index 0 joints item) [
    | none ↦ invalid (codes "unknown joint in command")
    | some i ↦
        let rest = validate_items joints (i ∷ seen) items in
        if contains i seen
        then invalid (codes "duplicate joint in command")
        else validate_item item rest
  ]

  -- ValidateCommandLocked.
  unfoldable pub validate_command : List (JointInfo double) → JointCommand double → Outcome
  validate_command joints command = validate_items joints [] command.joints

  -- SetCommand, from the validation on.
  abbrev pub store_command :
      ℕ → JointCommand double → Controller double → Outcome → Outcome × Controller double
  store_command now command c (failure e) = (
    failure e,
    record c { last_error = e; error_count = u64 (suc c.error_count); message = e.message },
  )
  store_command now command c success = (
    success,
    counted double (record c {
      last_command = some (record command {
        controller_id =
            if is_empty command.controller_id
            then c.options.controller_id
            else command.controller_id;
      });
      last_command_monotonic_ns =
          if not (command.command_time_monotonic_ns == 0)
          then command.command_time_monotonic_ns
          else now;
      has_command = true;
      safe_output_active = false;
      message = codes "mock joint controller command accepted";
    }),
  )

  -- SetCommand, from the test for joints on.
  unfoldable pub set_joints :
      ℕ → JointCommand double → Controller double → Outcome × Controller double
  set_joints now command c =
      if is_empty command.joints
      then (
        success,
        counted double (record c {
          message =
              if c.enabled
              then codes "mock joint controller enabled"
              else codes "mock joint controller command accepted";
        }),
      )
      else if not c.enabled
      then (violation (codes "mock joint controller is disabled"), c)
      else if c.fault_latched || c.emergency_stopped
      then (violation (codes "mock joint controller is faulted"), c)
      else store_command now command c (validate_command c.joints command)

  -- SetCommand, once the faults are cleared if the command says so.
  unfoldable pub set_enabled :
      ℕ → JointCommand double → Controller double → Outcome × Controller double
  set_enabled now command c =
      if command.disable
      then (
        success,
        counted double
            (apply_safe_output double (codes "mock joint controller disabled by command") c),
      )
      else if command.enable
      then (if c.fault_latched || c.emergency_stopped
          then (violation (codes "cannot enable mock joint controller while faulted"), c)
          else set_joints now command (record c { enabled = true; safe_output_active = false }))
      else set_joints now command c

  -- SetCommand.
  unfoldable pub set_command :
      ℕ → JointCommand double → Controller double → Outcome × Controller double
  set_command now command c =
      if not c.running
      then (is_not_running, c)
      else if not (is_empty command.controller_id)
          && not (text_eq command.controller_id c.options.controller_id)
      then (invalid (codes "joint command controller_id mismatch"), c)
      else if command.stop
      then (
        success,
        counted double (
            apply_safe_output double (codes "mock joint controller emergency stopped")
              (record c { emergency_stopped = true })),
      )
      else set_enabled now command (if command.clear_fault then faults_cleared double c else c)
