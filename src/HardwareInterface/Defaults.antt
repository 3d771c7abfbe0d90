-- ===== src/HardwareInterface/Defaults.antt =====
-- services/hardware_interface/src/hardware_config.cpp: DefaultMockConfig, of a build that has some of
-- the endpoints.
use openember.Prelude.{
  ◌≡◌, refl, Bool, true, false, List, [], ◌∷◌, ◌++◌, if◌then◌else◌, All, All-append,
}
use openember.Prelude.Text.{Text, codes, text_eq}
use openember.Prelude.Yaml.{Yaml}
use openember.HardwareInterface.Endpoint.{EndpointConfig}
use openember.HardwareInterface.Loading.{IsUsable}

-- The OPENEMBER_HARDWARE_ENDPOINT_ options.
pub record Build : Type 0 where
  pub imu : Bool
  pub temperature : Bool
  pub gnss : Bool
  pub joint_controller : Bool

module _ (yaml : Yaml) where
  open yaml use {Real, literal, at_most_zero}

  abbrev pub mock_config : Text → Text → Text → Text → Text → Text → Real → EndpointConfig Real
  mock_config id type driver topic command_topic frame_id rate = record {
    endpoint_id = id;
    type = type;
    enabled = true;
    mode = codes "mock";
    driver = driver;
    topic = topic;
    command_topic = command_topic;
    state_topic = topic;
    frame_id = frame_id;
    publish_rate_hz = rate;
    command_timeout_ms = 100;
    disabled_on_start = true;
    critical = false;
  }

  abbrev pub mock_imu : EndpointConfig Real
  mock_imu =
      mock_config (codes "imu0") (codes "imu") (codes "mock_imu") (codes "/sensors/imu/imu0/sample")
        [] (codes "imu_link") (literal 100)

  abbrev pub mock_temperature : EndpointConfig Real
  mock_temperature =
      mock_config (codes "temp0") (codes "temperature") (codes "mock_temperature")
        (codes "/sensors/temperature/temp0/sample") [] (codes "temperature_link") (literal 2)

  abbrev pub mock_gnss : EndpointConfig Real
  mock_gnss =
      mock_config (codes "gnss0") (codes "gnss") (codes "mock_gnss")
        (codes "/sensors/gnss/gnss0/fix") [] (codes "gnss_link") (literal 1)

  abbrev pub mock_joints : EndpointConfig Real
  mock_joints =
      mock_config (codes "joint_controller0") (codes "joint_controller")
        (codes "mock_joint_controller") (codes "/actuators/joints/joint_controller0/state")
        (codes "/actuators/joints/joint_controller0/command") (codes "base_link") (literal 100)

  abbrev pub if_built : Bool → EndpointConfig Real → List (EndpointConfig Real)
  if_built b c = if b then c ∷ [] else []

  -- DefaultMockConfig.
  unfoldable pub default_mock_config : Build → List (EndpointConfig Real)
  default_mock_config build =
      if_built build.imu mock_imu
      ++ if_built build.temperature mock_temperature
      ++ if_built build.gnss mock_gnss
      ++ if_built build.joint_controller mock_joints

  module _ (h : at_most_zero (literal 100) ≡ false) (i : at_most_zero (literal 2) ≡ false)
      (j : at_most_zero (literal 1) ≡ false) where
    if_built-IsUsable :
        (b : Bool) (c : EndpointConfig Real) → IsUsable yaml c → All (IsUsable yaml) (if_built b c)
    if_built-IsUsable true c u = (u, tt)
    if_built-IsUsable false c u = tt

    mocks-IsUsable :
        IsUsable yaml mock_imu
        × IsUsable yaml mock_temperature
        × IsUsable yaml mock_gnss
        × IsUsable yaml mock_joints
    unfolding codes text_eq
    mocks-IsUsable = (
      ((refl, refl, refl, refl, refl, λ k. cc k), h),
      ((refl, refl, refl, refl, refl, λ k. cc k), i),
      ((refl, refl, refl, refl, refl, λ k. cc k), j),
      ((refl, refl, refl, refl, refl, λ k. (refl, refl)), h),
    )

    -- With any endpoints in the build, those of the default configuration can be built.
    default_mock_config-IsUsable : (build : Build) → All (IsUsable yaml) (default_mock_config build)
    unfolding default_mock_config
    default_mock_config-IsUsable build =
        let P = IsUsable yaml in
        let (imu, temperature, gnss, joints) = mocks-IsUsable in
        let first = if_built build.imu mock_imu in
        let second = if_built build.temperature mock_temperature in
        let third = if_built build.gnss mock_gnss in
        All-append P (first ++ second ++ third) (if_built build.joint_controller mock_joints)
          (All-append P (first ++ second) third
            (All-append P first second (if_built-IsUsable build.imu mock_imu imu)
              (if_built-IsUsable build.temperature mock_temperature temperature))
            (if_built-IsUsable build.gnss mock_gnss gnss))
          (if_built-IsUsable build.joint_controller mock_joints joints)
