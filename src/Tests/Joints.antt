-- ===== src/Tests/Joints.antt =====
-- Runs of the mock joint controller of components/actuator, with whole numbers for `double`.
use openember.Prelude.{◌+◌, ◌*◌, ◌≡◌, ◌≢◌, refl, true, false, List, [], ◌∷◌, map}
use openember.Prelude.Int.{ℤ, pos, negsuc, pos_part, neg_part, sub_ℕ, ltb_ℤ}
use openember.Actuator.Joint.{Double, velocity, degraded, JointInfo, JointCommand, JointStateItem}
use openember.Actuator.Controller.{Options, new_controller, availability, start}
use openember.Actuator.Command.{
  set_command, set_enabled, set_joints, validate_command, validate_items, find_joint_index,
  contains,
}
use openember.Actuator.Step.{
  Call, starts, commands, steps, stops, apply, run, step, step_running, step_items, step_pair,
  step_joint,
}
use openember.Actuator.Safety.{IsSafe, run-new_controller-IsSafe}
use openember.Actuator.Validation.{IsAccepted, validate_command-IsAccepted}
use openember.Actuator.Rest.{RestsOff, AllKeepOn, run-new_controller-RestsOff}

abbrev pub whole : Double
whole = record {
  Real = ℤ;
  zero_real = pos 0;
  less = ltb_ℤ;
  add = λ a b. sub_ℕ (pos_part a + pos_part b) (neg_part a + neg_part b);
  multiply = λ a b.
      sub_ℕ (pos_part a * pos_part b + neg_part a * neg_part b)
        (pos_part a * neg_part b + neg_part a * pos_part b);
  negate = λ a. sub_ℕ (neg_part a) (pos_part a);
  seconds = pos;
}

abbrev arm : Options whole
arm = record {
  controller_id = [];
  command_timeout_ms = 100;
  disabled_on_start = true;
  default_temperature_celsius = pos 30;
}

abbrev pub elbow : JointInfo whole
elbow = record {
  joint_id = 1;
  joint_name = [];
  min_position_rad = negsuc 8;
  max_position_rad = pos 9;
  max_velocity_radps = pos 5;
  max_effort_nm = pos 20;
}

-- The elbow is to turn at speed 2.
abbrev turn : JointCommand whole
turn = record {
  controller_id = [];
  command_time_monotonic_ns = 5;
  sequence = 1;
  enable = true;
  disable = false;
  stop = false;
  clear_fault = false;
  joints =
      record {
        joint_id = 1;
        joint_name = [];
        mode = velocity;
        position_enabled = false;
        position_rad = pos 0;
        velocity_enabled = true;
        velocity_radps = pos 2;
        effort_enabled = false;
        effort_nm = pos 0;
        stiffness_enabled = false;
        stiffness_nm_per_rad = pos 0;
        damping_enabled = false;
        damping_nms_per_rad = pos 0;
        max_effort_nm = pos 0;
      }
      ∷ [];
}

abbrev turning : List (Call whole)
turning = starts 10 ∷ commands 11 turn ∷ steps 13 20 ∷ []

turns :
    map
      (λ (s : JointStateItem whole). s.position_rad)
      (run whole turning (new_controller whole arm (elbow ∷ []) 0)).joint_states
    ≡ pos 6 ∷ []
unfolding run apply new_controller start set_command set_enabled set_joints validate_command
    validate_items find_joint_index contains step step_running step_items step_pair step_joint
turns = refl

run-new_controller-IsSafe_example :
    let c = run whole turning (new_controller whole arm (elbow ∷ []) 0) in
    IsSafe whole c × (availability whole c ≢ degraded)
run-new_controller-IsSafe_example = run-new_controller-IsSafe whole arm (elbow ∷ []) 0 turning

run-new_controller-RestsOff_example : RestsOff whole (
    run whole
      (starts 10 ∷ commands 11 turn ∷ steps 13 20 ∷ stops ∷ [])
      (new_controller whole arm (elbow ∷ []) 0))
unfolding AllKeepOn new_controller
run-new_controller-RestsOff_example =
    run-new_controller-RestsOff whole arm (elbow ∷ []) 0
      (starts 10 ∷ commands 11 turn ∷ steps 13 20 ∷ stops ∷ []) ((λ e. cc e), (tt, (tt, (tt, tt))))

-- A second Start leaves the elbow moving with its output off.
left_moving :
    let c =
      run whole
        (starts 10 ∷ commands 11 turn ∷ steps 13 20 ∷ starts 30 ∷ [])
        (new_controller whole arm (elbow ∷ []) 0) in
    (c.enabled ≡ false)
    × (map (λ (s : JointStateItem whole). s.velocity_radps) c.joint_states ≡ pos 2 ∷ [])
unfolding run apply new_controller start set_command set_enabled set_joints validate_command
    validate_items find_joint_index contains step step_running step_items step_pair step_joint
left_moving = (refl, refl)

validate_command-IsAccepted_example : IsAccepted whole (elbow ∷ []) [] turn.joints
unfolding validate_command validate_items find_joint_index contains
validate_command-IsAccepted_example = validate_command-IsAccepted whole (elbow ∷ []) turn refl
