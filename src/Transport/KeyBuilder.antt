-- ===== src/Transport/KeyBuilder.antt =====
-- components/transport/src/key_builder.cpp.
use openember.Prelude.{ℕ, ◌&&◌, [], ◌∷◌, ◌++◌, map, ◌==◌, if◌then◌else◌}
use openember.Prelude.Text.{Text, codes, is_empty}

pub record KeyBuilder : Type 0 where
  pub robot_id : Text
  pub namespace_name : Text

-- `while (!out.empty() && out.front() == '/') out.erase(out.begin());`
unfoldable pub strip_front : Text → Text
strip_front [] = []
strip_front (c ∷ s) = let rest = strip_front s in if c == b'/' then rest else c ∷ s

-- `while (!out.empty() && out.back() == '/') out.pop_back();`
unfoldable pub strip_back : Text → Text
strip_back [] = []
strip_back (c ∷ s) = let rest = strip_back s in if is_empty rest && c == b'/' then [] else c ∷ rest

abbrev pub slash_for_dot : ℕ → ℕ
slash_for_dot c = if c == b'.' then b'/' else c

-- NormalizeName.
unfoldable pub normalize_name : Text → Text
normalize_name name = map slash_for_dot (strip_back (strip_front name))

module _ (b : KeyBuilder) where
  -- Prefix.
  unfoldable pub prefix : Text
  prefix =
      let robot = codes "openember/" ++ normalize_name b.robot_id in
      let ns = normalize_name b.namespace_name in
      if is_empty ns then robot else robot ++ (codes "/" ++ ns)

  -- TopicKey.
  unfoldable pub topic_key : Text → Text
  topic_key topic = prefix ++ (codes "/topics/" ++ normalize_name topic)

  -- ServiceKey.
  unfoldable pub service_key : Text → Text
  service_key service = prefix ++ (codes "/services/" ++ normalize_name service)

  -- NodeInfoKey.
  unfoldable pub node_info_key : Text → Text
  node_info_key node = prefix ++ (codes "/nodes/" ++ (normalize_name node ++ codes "/info"))

  -- ParameterKey.
  unfoldable pub parameter_key : Text → Text → Text
  parameter_key node parameter =
      prefix
      ++ (codes "/nodes/"
          ++ (normalize_name node ++ (codes "/params/" ++ normalize_name parameter)))

  -- DiagnosticKey.
  unfoldable pub diagnostic_key : Text → Text
  diagnostic_key node = prefix ++ (codes "/diagnostics/" ++ normalize_name node)

  -- LogKey.
  unfoldable pub log_key : Text → Text
  log_key node = prefix ++ (codes "/logs/" ++ normalize_name node)
