-- ===== src/Tests/LaunchFiles.antt =====
-- Launch files of system/launch_manager.
use openember.Prelude.{◌≡◌, refl, List, [], ◌∷◌, map}
use openember.Prelude.Text.{Text, codes, text_eq, starts_with}
use openember.Prelude.Map.{lookup}
use openember.Prelude.Result.{Result, good, bad}
use openember.Prelude.Yaml.{Failure}
use openember.Launch.Config.{
  LaunchConfig, replace_all, replace_rounds, find_text, expand_value, parse_restart_policy,
  expand_each, set_each, load_specs, load_launch_config,
}
use openember.Launch.Expansion.{scan, replace_all-scan}
use openember.Tests.Hardware.{yaml_of}

abbrev placeholder : Text
placeholder = codes "{openember.bin}"

replace_all-scan_example :
    replace_all (codes "${openember.bin}/node") (b'$' ∷ placeholder) (codes "/opt/bin")
    ≡ scan b'$' placeholder (codes "/opt/bin") 0 (codes "${openember.bin}/node")
replace_all-scan_example =
    replace_all-scan b'$' placeholder (codes "/opt/bin") (codes "${openember.bin}/node")

expanded_example :
    expand_value (codes "${openember.bin}/node") (codes "/opt/bin") ≡ codes "/opt/bin/node"
unfolding codes expand_value replace_all replace_rounds find_text starts_with
expanded_example = refl

-- Two nodes of one name are accepted.
abbrev camera : List (Text × Text)
camera = (codes "name", codes "camera") ∷ (codes "command", codes "${openember.bin}/camera") ∷ []

abbrev names_of : Result Failure LaunchConfig → List Text
names_of (good c) = map (λ s. s.name) c.processes
names_of (bad e) = []

same_name_example :
    names_of
      (load_launch_config (yaml_of (camera ∷ camera ∷ [])) (codes "launch.yaml") (codes "/opt/bin"))
    ≡ codes "camera" ∷ codes "camera" ∷ []
unfolding codes load_launch_config load_specs expand_value replace_all replace_rounds find_text
    starts_with parse_restart_policy expand_each set_each lookup text_eq
same_name_example = refl
