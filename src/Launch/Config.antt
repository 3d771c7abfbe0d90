-- ===== src/Launch/Config.antt =====
-- system/launch_manager/launch_config.cpp: the reading of a launch file. yaml-cpp is a parameter.
use openember.Prelude.{
  ℕ, zero, suc, ◌+◌, not, ◌||◌, List, [], ◌∷◌, ◌++◌, Option, none, some, if◌then◌else◌, take, drop,
  length,
}
use openember.Prelude.Text.{Text, codes, is_empty, text_eq, starts_with}
use openember.Prelude.Map.{Map, insert}
use openember.Prelude.Result.{Result, good, bad, ◌>>=◌, ◌>>◌, refuse_if}
use openember.Prelude.Yaml.{Failure, yaml_failure, runtime_failure, Yaml, runtime_error}
use openember.Launch.Spec.{RestartPolicy, never, on_failure, always, ProcessSpec}
use mathlib.Core.Option

pub record RuntimeSpec : Type 0 where
  pub robot_id : Text
  pub namespace_name : Text
  pub listen_endpoint : Text

abbrev pub new_runtime : RuntimeSpec
new_runtime = record {
  robot_id = codes "openember";
  namespace_name = [];
  listen_endpoint = codes "tcp/127.0.0.1:7447";
}

pub record LaunchConfig : Type 0 where
  pub runtime : RuntimeSpec
  pub processes : List ProcessSpec

-- `value.find(from)`: the first place of a text.
unfoldable pub find_text : Text → Text → Option ℕ
find_text from [] = if starts_with [] from then some 0 else none
find_text from (c ∷ s) =
    let rest = Option.map suc (find_text from s) in
    if starts_with (c ∷ s) from then some 0 else rest

-- The loop of ReplaceAll on the text from `pos` on; each round moves `pos`, so that a round for each
-- byte is enough.
unfoldable pub replace_rounds : ℕ → Text → Text → Text → Text
replace_rounds zero from to s = s
replace_rounds (suc f) from to s = elim (find_text from s) [
  | none ↦ s
  | some i ↦ take i s ++ to ++ replace_rounds f from to (drop (i + length from) s)
]

-- ReplaceAll.
unfoldable pub replace_all : Text → Text → Text → Text
replace_all value from to = replace_rounds (suc (length value)) from to value

-- ExpandValue.
unfoldable pub expand_value : Text → Text → Text
expand_value value bin_dir = replace_all value (codes "${openember.bin}") bin_dir

-- ParseRestartPolicy.
unfoldable pub parse_restart_policy : Text → Result Failure RestartPolicy
parse_restart_policy value =
    if text_eq value (codes "always")
    then good always
    else if text_eq value (codes "on-failure") || text_eq value (codes "on_failure")
    then good on_failure
    else if text_eq value (codes "never") || is_empty value
    then good never
    else runtime_error (codes "unsupported restart policy: " ++ value)

module _ (yaml : Yaml) where
  open yaml use {
    Node, load_file, subscript, items, pairs, is_map, is_sequence, as_string, as_uint32,
  }

  -- The value of a key, by a conversion.
  abbrev pub value_or :
      {A : Type 0} → (Node → Result Failure A) → A → Option Node → Result Failure A
  value_or convert fallback none = good fallback
  value_or convert fallback (some value) = convert value

  -- StringValue and UIntValue, which differ in the conversion.
  abbrev pub key_value :
      {A : Type 0} → (Node → Result Failure A) → Option Node → Text → A → Result Failure A
  key_value convert none key fallback = good fallback
  key_value convert (some node) key fallback = do
    value ← subscript node key
    value_or convert fallback value

  abbrev pub string_value : Option Node → Text → Text → Result Failure Text
  string_value = key_value as_string

  abbrev pub uint_value : Option Node → Text → ℕ → Result Failure ℕ
  uint_value = key_value as_uint32

  -- The loop of ParseArgs.
  unfoldable pub expand_each : Text → List Node → Result Failure (List Text)
  expand_each bin_dir [] = good []
  expand_each bin_dir (n ∷ ns) = do
    text ← as_string n
    rest ← expand_each bin_dir ns
    good (expand_value text bin_dir ∷ rest)

  -- ParseArgs.
  abbrev pub parse_args : Text → Node → Result Failure (List Text)
  parse_args bin_dir node = do
    args ← subscript node (codes "args")
    value_or (λ n. expand_each bin_dir (items n)) [] args

  -- The loop of ParseEnv.
  unfoldable pub set_each : Text → List (Node × Node) → Map Text → Result Failure (Map Text)
  set_each bin_dir [] env = good env
  set_each bin_dir ((k, v) ∷ ps) env = do
    value ← as_string v
    key ← as_string k
    set_each bin_dir ps (insert key (expand_value value bin_dir) env)

  abbrev pub env_of : Text → Node → Result Failure (Map Text)
  env_of bin_dir node = do
    refuse_if (not (is_map node)) (runtime_failure (codes "process env must be a map"))
    set_each bin_dir (pairs node) []

  -- ParseEnv.
  abbrev pub parse_env : Text → Node → Result Failure (Map Text)
  parse_env bin_dir node = do env ← subscript node (codes "env"); value_or (env_of bin_dir) [] env

  -- The reading of one node of LoadLaunchConfig.
  abbrev pub read_spec : Text → Node → Result Failure ProcessSpec
  read_spec bin_dir node = do
    name ← string_value (some node) (codes "name") []
    command ← string_value (some node) (codes "command") []
    args ← parse_args bin_dir node
    env ← parse_env bin_dir node
    directory ← string_value (some node) (codes "working_directory") []
    policy ← string_value (some node) (codes "restart") (codes "never")
    restart ← parse_restart_policy policy
    limit ← uint_value (some node) (codes "restart_limit") 0
    startup ← uint_value (some node) (codes "startup_timeout_ms") 3000
    shutdown ← uint_value (some node) (codes "shutdown_timeout_ms") 3000
    heartbeat ← uint_value (some node) (codes "heartbeat_timeout_ms") 0
    good (record {
      name = name;
      command = expand_value command bin_dir;
      args = args;
      env = env;
      working_directory = expand_value directory bin_dir;
      restart = restart;
      restart_limit = limit;
      startup_timeout = startup;
      shutdown_timeout = shutdown;
      heartbeat_timeout = heartbeat;
    })

  -- The tests of the loop of LoadLaunchConfig.
  abbrev pub check_spec : ProcessSpec → Result Failure ProcessSpec
  check_spec spec = do
    refuse_if (is_empty spec.name)
        (runtime_failure (codes "launch node is missing required field: name"))
    refuse_if (is_empty spec.command) (
        runtime_failure
          (codes "launch node '" ++ spec.name ++ codes "' is missing required field: command"))
    good spec

  -- The loop of LoadLaunchConfig.
  unfoldable pub load_specs : Text → List Node → Result Failure (List ProcessSpec)
  load_specs bin_dir [] = good []
  load_specs bin_dir (n ∷ ns) = do
    spec ← read_spec bin_dir n
    checked ← check_spec spec
    specs ← load_specs bin_dir ns
    good (checked ∷ specs)

  -- The part of LoadLaunchConfig about `runtime`.
  abbrev pub read_link : Option Node → Result Failure Text
  read_link link =
      value_or (λ n. string_value (some n) (codes "listen") new_runtime.listen_endpoint)
        new_runtime.listen_endpoint link

  abbrev pub link_of : Option Node → Result Failure (Option Node)
  link_of none = good none
  link_of (some runtime) = subscript runtime (codes "link")

  abbrev pub read_runtime : Option Node → Result Failure RuntimeSpec
  read_runtime runtime = do
    robot ← string_value runtime (codes "robot_id") new_runtime.robot_id
    namespace ← string_value runtime (codes "namespace") new_runtime.namespace_name
    link ← link_of runtime
    listen ← read_link link
    good (record { robot_id = robot; namespace_name = namespace; listen_endpoint = listen })

  abbrev pub node_items : Option Node → Result Failure (List Node)
  node_items none = runtime_error (codes "launch file must contain a 'nodes' sequence")
  node_items (some n) =
      if is_sequence n
      then good (items n)
      else runtime_error (codes "launch file must contain a 'nodes' sequence")

  -- The `catch` clause around LoadFile.
  abbrev pub named_failure : Text → Result Failure Node → Result Failure Node
  named_failure path (bad (yaml_failure text)) =
      runtime_error (codes "failed to load launch file '" ++ path ++ codes "': " ++ text)
  named_failure path (bad (runtime_failure text)) = runtime_error text
  named_failure path (good node) = good node

  -- LoadLaunchConfig.
  unfoldable pub load_launch_config : Text → Text → Result Failure LaunchConfig
  load_launch_config path bin_dir = do
    root ← named_failure path (load_file path)
    found ← subscript root (codes "runtime")
    runtime ← read_runtime found
    nodes ← subscript root (codes "nodes")
    ns ← node_items nodes
    processes ← load_specs bin_dir ns
    good (record { runtime = runtime; processes = processes })
