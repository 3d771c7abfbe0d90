-- ===== src/Actuator/Joint.antt =====
-- components/actuator/include/openember/actuator/joint_types.hpp and actuator.hpp, and the errors
-- of components/hardware/include/openember/hardware, error.hpp and device_status.hpp.
use openember.Prelude.{ℕ, Bool, List}
use openember.Prelude.Text.{Text}

-- What the code uses of `double`; `seconds` turns a difference of the steady clock, in nanoseconds,
-- into seconds.
pub record Double : Type 1 where
  pub Real : Type 0
  pub zero_real : Real
  pub less : Real → Real → Bool
  pub add : Real → Real → Real
  pub multiply : Real → Real → Real
  pub negate : Real → Real
  pub seconds : ℕ → Real

pub data JointControlMode : Type 0 where
  unspecified disabled position velocity effort mit : JointControlMode

pub data Availability : Type 0 where
  unknown offline output_disabled output_enabled degraded fault emergency_stop : Availability

pub data HealthState : Type 0 where
  unknown_health ok warning error stale : HealthState

pub data ErrorCode : Type 0 where
  no_code invalid_config open_failed timeout disconnected io_error protocol_error invalid_data :
      ErrorCode
  not_supported not_running safety_violation internal_error : ErrorCode

pub record Error : Type 0 where
  pub code : ErrorCode
  pub message : Text

-- hardware::Result<void>.
pub data Outcome : Type 0 where
  success : Outcome
  failure : Error → Outcome

module _ (double : Double) where
  open double use {Real}

  pub record JointInfo : Type 0 where
    pub joint_id : ℕ
    pub joint_name : Text
    pub min_position_rad : Real
    pub max_position_rad : Real
    pub max_velocity_radps : Real
    pub max_effort_nm : Real

  pub record JointCommandItem : Type 0 where
    pub joint_id : ℕ
    pub joint_name : Text
    pub mode : JointControlMode
    pub position_enabled : Bool
    pub position_rad : Real
    pub velocity_enabled : Bool
    pub velocity_radps : Real
    pub effort_enabled : Bool
    pub effort_nm : Real
    pub stiffness_enabled : Bool
    pub stiffness_nm_per_rad : Real
    pub damping_enabled : Bool
    pub damping_nms_per_rad : Real
    pub max_effort_nm : Real

  pub record JointCommand : Type 0 where
    pub controller_id : Text
    pub command_time_monotonic_ns : ℕ
    pub sequence : ℕ
    pub enable : Bool
    pub disable : Bool
    pub stop : Bool
    pub clear_fault : Bool
    pub joints : List JointCommandItem

  pub record JointStateItem : Type 0 where
    pub joint_id : ℕ
    pub joint_name : Text
    pub mode : JointControlMode
    pub position_rad : Real
    pub velocity_radps : Real
    pub effort_nm : Real
    pub temperature_celsius : Real
    pub feedback_received : Bool
    pub fault_code : ℕ
    pub fault_message : Text
