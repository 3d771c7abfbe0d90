-- ===== src/Launch/Spec.antt =====
-- system/launch_manager/launch_config.hpp: what a launch file says of one process.
use openember.Prelude.{ℕ, List}
use openember.Prelude.Text.{Text, codes}

pub data RestartPolicy : Type 0 where
  never on_failure always : RestartPolicy

-- Time-outs are in milliseconds.
pub record ProcessSpec : Type 0 where
  pub name : Text
  pub command : Text
  pub args : List Text
  pub env : List (Text × Text)
  pub working_directory : Text
  pub restart : RestartPolicy
  pub restart_limit : ℕ
  pub startup_timeout : ℕ
  pub shutdown_timeout : ℕ
  pub heartbeat_timeout : ℕ

-- RestartPolicyName.
unfoldable pub restart_policy_name : RestartPolicy → Text
restart_policy_name always = codes "always"
restart_policy_name on_failure = codes "on-failure"
restart_policy_name never = codes "never"
