-- ===== src/HardwareInterface/Loading.antt =====
-- services/hardware_interface/src/hardware_config.cpp: which configurations are loaded.
use openember.Prelude.{
  ℕ, suc, ◌≡◌, refl, Bool, true, false, not, ◌||◌, List, [], ◌∷◌, ◌++◌, Option, none, some, arith,
  if◌then◌else◌, All, All-append,
}
use openember.Prelude.Text.{Text, codes, is_empty, text_eq}
use openember.Prelude.Map.{text_eq_sym}
use openember.Prelude.Result.{
  Result, good, bad, ◌>>=◌, ◌>>◌, refuse_if, Holds, >>=-Holds, after, unless_refused,
}
use openember.HardwareInterface.Endpoint.{EndpointConfig}
use openember.Prelude.Yaml.{Failure, Yaml, runtime_error, runtime_failure}
use openember.HardwareInterface.Config.{
  required_text, required_string, read_id, read_fields, check_joint_topics, check_fields,
  parse_endpoint, has_endpoint, load_endpoints, HardwareInterfaceConfig, load_config, read_app,
  optional_string, optional_bool, optional_double, optional_uint64, default_driver_for,
  default_topic_for, default_command_topic_for, default_rate_for, find_endpoints, endpoint_items,
  load_config_from_file, with_message, endpoint_prefix,
}

module _ (yaml : Yaml) where
  open yaml use {Node, Real, at_most_zero, is_map}

  -- The texts of an endpoint that can be built.
  abbrev pub IsComplete : EndpointConfig Real → Type 0
  IsComplete c =
      (is_empty c.endpoint_id ≡ false)
      × (is_empty c.type ≡ false)
      × (is_empty c.mode ≡ false)
      × (is_empty c.driver ≡ false)
      × (is_empty c.topic ≡ false)
      × (text_eq c.type (codes "joint_controller") ≡ true
          → (is_empty c.command_topic ≡ false) × (c.topic ≡ c.state_topic))

  abbrev pub IsUsable : EndpointConfig Real → Type 0
  IsUsable c = IsComplete c × (at_most_zero c.publish_rate_hz ≡ false)

  -- No id is there twice.
  abbrev pub IsDistinct : List (EndpointConfig Real) → Type 0
  IsDistinct [] = Unit
  IsDistinct (c ∷ cs) = (has_endpoint yaml c.endpoint_id cs ≡ false) × IsDistinct cs

  abbrev pub IsValid : List (EndpointConfig Real) → Type 0
  IsValid cs = All IsUsable cs × IsDistinct cs

  abbrev IsNamed : EndpointConfig Real → Type 0
  IsNamed c = (is_empty c.endpoint_id ≡ false) × (is_empty c.type ≡ false)

  check_joint_topics-IsComplete :
      (prefix : Text) (c : EndpointConfig Real)
      → IsNamed c
      → is_empty c.mode ≡ false
      → is_empty c.driver ≡ false
      → Holds IsComplete (check_joint_topics yaml prefix c)
  check_joint_topics-IsComplete prefix c named mode driver =
      unless_refused IsComplete (is_empty c.state_topic) _ _ (λ state.
        unless_refused IsComplete (is_empty c.command_topic) _ _
          (λ command. (named.0, named.1, mode, driver, state, λ k. (command, refl))))

  topics-IsComplete :
      (b : Bool) (prefix : Text) (c : EndpointConfig Real)
      → text_eq c.type (codes "joint_controller") ≡ b
      → IsNamed c
      → is_empty c.mode ≡ false
      → is_empty c.driver ≡ false
      → is_empty c.topic ≡ false
      → Holds IsComplete (if b then check_joint_topics yaml prefix c else good c)
  topics-IsComplete true prefix c e named mode driver topic =
      check_joint_topics-IsComplete prefix c named mode driver
  topics-IsComplete false prefix c e named mode driver topic =
      (named.0, named.1, mode, driver, topic, λ k. absurd (ground (arith, e, k)))

  check_fields-IsUsable :
      (prefix : Text) (c : EndpointConfig Real)
      → IsNamed c
      → Holds IsUsable (check_fields yaml prefix c)
  check_fields-IsUsable prefix c named = unless_refused IsUsable (is_empty c.mode) _ _ (λ mode.
      unless_refused IsUsable (is_empty c.driver) _ _ (λ driver.
        unless_refused IsUsable (is_empty c.topic) _ _ (λ topic.
          >>=-Holds IsComplete IsUsable
            (if text_eq c.type (codes "joint_controller")
              then check_joint_topics yaml prefix c
              else good c)
            _
            (topics-IsComplete (text_eq c.type (codes "joint_controller")) prefix c refl named mode
              driver topic)
            (λ d complete.
              unless_refused IsUsable (at_most_zero d.publish_rate_hz) _ _
                (λ rate. (complete, rate))))))

  abbrev NonEmpty : Text → Type 0
  NonEmpty t = is_empty t ≡ false

  read_id-NonEmpty : (node : Node) (prefix : Text) → Holds NonEmpty (read_id yaml node prefix)
  read_id-NonEmpty node prefix =
      after NonEmpty (optional_string yaml node (codes "id") [] prefix) _ (λ first.
        after NonEmpty (optional_string yaml node (codes "endpoint_id") first prefix) _
          (λ id. unless_refused NonEmpty (is_empty id) _ _ (λ h. h)))

  required_text-NonEmpty :
      (key prefix text : Text) → Holds NonEmpty (required_text yaml key prefix text)
  required_text-NonEmpty key prefix text = unless_refused NonEmpty (is_empty text) _ _ (λ h. h)

  required_string-NonEmpty :
      (node : Node) (key prefix : Text) → Holds NonEmpty (required_string yaml node key prefix)
  unfolding required_string
  required_string-NonEmpty node key prefix = by_child (yaml.child node key)
    where
      by_child :
          (o : Option Node)
          → Holds NonEmpty (elim o [
            | none ↦ runtime_error (prefix ++ codes "." ++ key ++ codes " is required")
            | some value ↦ do
              refuse_if
                  (not (yaml.is_scalar value))
                  (runtime_failure (prefix ++ codes "." ++ key ++ codes " is required"))
              text ← yaml.as_string value
              required_text yaml key prefix text
          ])
      by_child none = tt
      by_child (some value) = unless_refused NonEmpty (not (yaml.is_scalar value)) _ _ (λ h.
          after NonEmpty (yaml.as_string value) _ (λ text. required_text-NonEmpty key prefix text))

  read_fields-IsNamed :
      (node : Node) (prefix id type : Text)
      → NonEmpty id
      → NonEmpty type
      → Holds IsNamed (read_fields yaml node prefix id type)
  read_fields-IsNamed node prefix id type i t =
      after IsNamed (optional_bool yaml node (codes "enabled") true prefix) _ (λ enabled.
        after IsNamed (optional_string yaml node (codes "mode") (codes "mock") prefix) _ (λ mode.
          after IsNamed
            (optional_string yaml node (codes "driver") (default_driver_for type mode) prefix) _
            (λ driver.
              after IsNamed
                (optional_string yaml node (codes "topic") (default_topic_for type id) prefix) _
                (λ topic.
                  after IsNamed (optional_string yaml node (codes "state_topic") topic prefix) _
                    (λ state.
                      after IsNamed
                        (optional_string yaml node (codes "command_topic")
                          (default_command_topic_for type id) prefix)
                        _
                        (λ command.
                          after IsNamed
                            (optional_string yaml node (codes "frame_id") (id ++ codes "_link")
                              prefix)
                            _
                            (λ frame.
                              after IsNamed
                                (optional_double yaml node (codes "publish_rate_hz")
                                  (default_rate_for yaml type) prefix)
                                _
                                (λ rate.
                                  after IsNamed
                                    (optional_uint64 yaml node (codes "command_timeout_ms") 100
                                      prefix)
                                    _
                                    (λ timeout.
                                      after IsNamed
                                        (optional_bool yaml node (codes "disabled_on_start") true
                                          prefix)
                                        _
                                        (λ off.
                                          after IsNamed
                                            (optional_bool yaml node (codes "critical") false
                                              prefix)
                                            _ (λ critical. (i, t))))))))))))

  parse_endpoint-IsUsable : (node : Node) (i : ℕ) → Holds IsUsable (parse_endpoint yaml node i)
  unfolding parse_endpoint
  parse_endpoint-IsUsable node i =
      let prefix = endpoint_prefix i in
      unless_refused IsUsable (not (is_map node)) _ _ (λ m.
        >>=-Holds NonEmpty IsUsable (read_id yaml node prefix) _ (read_id-NonEmpty node prefix)
          (λ id n.
            >>=-Holds NonEmpty IsUsable (required_string yaml node (codes "type") prefix) _
              (required_string-NonEmpty node (codes "type") prefix)
              (λ type t.
                >>=-Holds IsNamed IsUsable (read_fields yaml node prefix id type) _
                  (read_fields-IsNamed node prefix id type n t)
                  (λ c named. check_fields-IsUsable prefix c named))))

  pub has_endpoint-append :
      (k : Text) (cs ds : List (EndpointConfig Real))
      → has_endpoint yaml k (cs ++ ds) ≡ has_endpoint yaml k cs || has_endpoint yaml k ds
  unfolding has_endpoint
  has_endpoint-append k [] ds = refl
  has_endpoint-append k (c ∷ cs) ds = ground (arith, has_endpoint-append k cs ds)

  append-IsDistinct :
      (cs : List (EndpointConfig Real)) (d : EndpointConfig Real)
      → IsDistinct cs
      → has_endpoint yaml d.endpoint_id cs ≡ false
      → IsDistinct (cs ++ d ∷ [])
  unfolding has_endpoint
  append-IsDistinct [] d h e = (refl, tt)
  append-IsDistinct (c ∷ cs) d h e = (
    ground (
      arith,
      has_endpoint-append c.endpoint_id cs (d ∷ []),
      h.0,
      text_eq_sym c.endpoint_id d.endpoint_id,
      e,
    ),
    append-IsDistinct cs d h.1 (ground (arith, e)),
  )

  pub load_endpoints-IsValid :
      (ns : List Node) (i : ℕ) (seen : List (EndpointConfig Real))
      → IsValid seen
      → Holds IsValid (load_endpoints yaml ns i seen)
  unfolding load_endpoints
  load_endpoints-IsValid [] i seen h = h
  load_endpoints-IsValid (n ∷ ns) i seen h =
      >>=-Holds IsUsable IsValid (parse_endpoint yaml n i) _ (parse_endpoint-IsUsable n i) (λ c u.
        unless_refused IsValid (has_endpoint yaml c.endpoint_id seen) _ _ (λ e.
          load_endpoints-IsValid ns (suc i) (seen ++ c ∷ [])
            (All-append IsUsable seen (c ∷ []) h.0 (u, tt), append-IsDistinct seen c h.1 e)))

  -- Whatever a file holds, an error message is returned, or else a configuration whose endpoints are
  -- usable and have different ids: each has an id, a type, a mode, a driver and a topic, the test
  -- whether its rate is at most zero is false, and, if it is a joint controller, it has a command
  -- topic and publishes on its state topic.
  pub load_config_from_file-IsValid :
      (path : Text) → Holds (λ c. IsValid c.endpoints) (load_config_from_file yaml path)
  unfolding load_config_from_file load_config
  load_config_from_file-IsValid path = messaged (load_config yaml path) (
      unless_refused Valid (is_empty path) _ _ (λ p. after Valid (yaml.load_file path) _ (λ root.
        let app = yaml.child root (codes "hardware_interface") in
        unless_refused Valid (not (is_map root)) _ _ (λ m.
          after Valid (read_app yaml app) _ (λ config.
            after Valid (find_endpoints yaml (yaml.child root (codes "endpoints")) app) _ (λ found.
              after Valid (endpoint_items yaml found) _ (λ nodes.
                >>=-Holds IsValid Valid (load_endpoints yaml nodes 0 []) _
                  (load_endpoints-IsValid nodes 0 [] (tt, tt)) (λ cs h. h))))))))
    where
      Valid : HardwareInterfaceConfig yaml → Type 0
      Valid c = IsValid c.endpoints

      messaged :
          (r : Result Failure (HardwareInterfaceConfig yaml))
          → Holds (λ c. IsValid c.endpoints) r
          → Holds (λ c. IsValid c.endpoints) (with_message yaml r)
      messaged (good c) h = h
      messaged (bad e) h = tt
