-- ===== src/Launch/Files.antt =====
-- system/launch_manager/launch_config.cpp: which launch files are accepted.
use openember.Prelude.{◌≡◌, refl, false, List, [], ◌∷◌, All}
use openember.Prelude.Text.{Text, codes, is_empty, text_eq}
use openember.Prelude.Result.{good, Holds, >>=-Holds, after, unless_refused}
use openember.Prelude.Yaml.{Yaml}
use openember.Launch.Spec.{
  RestartPolicy, never, on_failure, always, ProcessSpec, restart_policy_name,
}
use openember.Launch.Config.{
  parse_restart_policy, LaunchConfig, check_spec, read_spec, load_specs, read_runtime, node_items,
  named_failure, load_launch_config,
}

-- The name that stands for a policy in the events is read back as the policy.
parse_restart_policy-restart_policy_name :
    (p : RestartPolicy) → parse_restart_policy (restart_policy_name p) ≡ good p
unfolding parse_restart_policy restart_policy_name codes text_eq
parse_restart_policy-restart_policy_name always = refl
parse_restart_policy-restart_policy_name on_failure = refl
parse_restart_policy-restart_policy_name never = refl

module _ (yaml : Yaml) (bin_dir : Text) where
  open yaml use {Node, load_file, subscript}

  -- A process that can be named and started.
  abbrev pub IsRunnable : ProcessSpec → Type 0
  IsRunnable s = (is_empty s.name ≡ false) × (is_empty s.command ≡ false)

  check_spec-IsRunnable : (s : ProcessSpec) → Holds IsRunnable (check_spec yaml s)
  check_spec-IsRunnable s =
      unless_refused IsRunnable (is_empty s.name) _ _
        (λ n. unless_refused IsRunnable (is_empty s.command) _ _ (λ c. (n, c)))

  load_specs-IsRunnable : (ns : List Node) → Holds (All IsRunnable) (load_specs yaml bin_dir ns)
  unfolding load_specs
  load_specs-IsRunnable [] = tt
  load_specs-IsRunnable (n ∷ ns) = after (All IsRunnable) (read_spec yaml bin_dir n) _ (λ s.
      >>=-Holds IsRunnable (All IsRunnable) (check_spec yaml s) _ (check_spec-IsRunnable s) (λ t r.
        >>=-Holds (All IsRunnable) (All IsRunnable) (load_specs yaml bin_dir ns) _
          (load_specs-IsRunnable ns) (λ ts rs. (r, rs))))

  abbrev pub AllRunnable : LaunchConfig → Type 0
  AllRunnable c = All IsRunnable c.processes

  -- Whatever a launch file holds, reading it fails, or else every process that it gives has a name
  -- and a command.
  pub load_launch_config-AllRunnable :
      (path : Text) → Holds AllRunnable (load_launch_config yaml path bin_dir)
  unfolding load_launch_config
  load_launch_config-AllRunnable path =
      after AllRunnable (named_failure yaml path (load_file path)) _ (λ root.
        after AllRunnable (subscript root (codes "runtime")) _ (λ found.
          after AllRunnable (read_runtime yaml found) _ (λ runtime.
            after AllRunnable (subscript root (codes "nodes")) _ (λ nodes.
              after AllRunnable (node_items yaml nodes) _ (λ ns.
                >>=-Holds (All IsRunnable) AllRunnable (load_specs yaml bin_dir ns) _
                  (load_specs-IsRunnable ns) (λ ps h. h))))))
