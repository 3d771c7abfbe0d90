-- ===== src/HardwareInterface/Starting.antt =====
-- services/hardware_interface/src/hardware_interface_app.cpp: what a successful Start leaves.
use openember.Prelude.{
  ℕ, ◌+◌, ◌≡◌, ◌≢◌, refl, sym, ap, ◌∙◌, Bool, true, false, not, ◌||◌, Bool-cases, inl, inr, List,
  [], ◌∷◌, ◌++◌, Option, none, some, arith, if_cases, All,
}
use openember.Prelude.Text.{Text, text_eq, text_eq→eq, text_eq_refl}
use openember.Prelude.Map.{Map, lookup, lookup-insert}
use openember.HardwareInterface.Endpoint.{EndpointConfig, running, HardwareEndpoint}
use openember.HardwareInterface.App.{
  App, find_endpoint_config, is_critical, build_loop, is_built, build_endpoints, start_endpoint,
  start_endpoints, after_make, advertise_one, advertise, start_app, device_info_topic,
  device_state_topic,
}

module _ {Real : Type 0} (endpoint : HardwareEndpoint Real) (cs : List (EndpointConfig Real)) where
  open endpoint use {
    Endpoint, id, configure, start, status, make, id-configure, id-start, id-make, start_runs,
  }

  abbrev pub RunsIfCritical : Endpoint → Type 0
  RunsIfCritical e =
      is_critical (find_endpoint_config cs (id e)) ≡ true → (status e).state ≡ running

  id-start_endpoint : (e : Endpoint) → id (start_endpoint endpoint cs e).1 ≡ id e
  unfolding start_endpoint
  id-start_endpoint e =
      if_cases (λ (r : Bool × Endpoint). id r.1 ≡ id e) (not (configure e).0) (λ f. id-configure e)
        (λ f.
          let both = id-start (configure e).1 ∙ id-configure e in
          if_cases (λ (r : Bool × Endpoint). id r.1 ≡ id e) (not (start (configure e).1).0)
            (λ g. both) (λ g. both))

  -- An endpoint that is given up is not critical.
  given_up :
      (e f : Endpoint)
      → id f ≡ id e
      → not (is_critical (find_endpoint_config cs (id e))) ≡ true
      → RunsIfCritical f
  given_up e f same h k =
      let other = ap (λ t. is_critical (find_endpoint_config cs t)) same in
      absurd (ground (arith, other, h, k))

  start_endpoint-RunsIfCritical :
      (e : Endpoint)
      → (start_endpoint endpoint cs e).0 ≡ true
      → RunsIfCritical (start_endpoint endpoint cs e).1
  unfolding start_endpoint
  start_endpoint-RunsIfCritical e =
      if_cases (λ (r : Bool × Endpoint). r.0 ≡ true → RunsIfCritical r.1) (not (configure e).0)
        (λ f h. given_up e (configure e).1 (id-configure e) h)
        (λ f.
          if_cases (λ (r : Bool × Endpoint). r.0 ≡ true → RunsIfCritical r.1)
            (not (start (configure e).1).0)
            (λ g h.
              given_up e (start (configure e).1).1 (id-start (configure e).1 ∙ id-configure e) h)
            (λ g h k. start_runs (configure e).1 (ground (arith, g))))

  start_endpoints-RunsIfCritical :
      (es : List Endpoint)
      → (start_endpoints endpoint cs es).0 ≡ true
      → All RunsIfCritical (start_endpoints endpoint cs es).1
  unfolding start_endpoints
  start_endpoints-RunsIfCritical [] h = tt
  start_endpoints-RunsIfCritical (e ∷ es) h =
      if_cases (λ (r : Bool × List Endpoint). r.0 ≡ true → All RunsIfCritical r.1)
        (start_endpoint endpoint cs e).0
        (λ f k. (start_endpoint-RunsIfCritical e f, start_endpoints-RunsIfCritical es k))
        (λ f k. cc k) h

  -- The publisher of an endpoint that has a configuration.
  abbrev pub HasTopic : (Text → Text) → Map Text → Endpoint → Type 0
  HasTopic topic m e = find_endpoint_config cs (id e) ≢ none → lookup (id e) m ≡ some (topic (id e))

  advertise_one-lookup :
      (o : Option (EndpointConfig Real)) (k j : Text) (topic : Text → Text) (m : Map Text)
      → lookup j m ≡ some (topic j)
      → lookup j (advertise_one endpoint o k topic m) ≡ some (topic j)
  advertise_one-lookup none k j topic m h = h
  advertise_one-lookup (some c) k j topic m h =
      lookup-insert j k (topic k) m ∙ (elim (Bool-cases (text_eq j k)) [
        | inl e ↦ rw e (ap (λ t. some (topic t)) (sym (text_eq→eq j k e)))
        | inr e ↦ rw e h
      ])

  advertise-lookup :
      (es : List Endpoint) (j : Text) (topic : Text → Text) (m : Map Text)
      → lookup j m ≡ some (topic j)
      → lookup j (advertise endpoint cs es topic m) ≡ some (topic j)
  unfolding advertise
  advertise-lookup [] j topic m h = h
  advertise-lookup (e ∷ es) j topic m h =
      advertise-lookup es j topic _
        (advertise_one-lookup (find_endpoint_config cs (id e)) (id e) j topic m h)

  advertise_one_own :
      (o : Option (EndpointConfig Real)) (k : Text) (topic : Text → Text) (m : Map Text)
      → o ≢ none
      → lookup k (advertise_one endpoint o k topic m) ≡ some (topic k)
  advertise_one_own none k topic m h = absurd (h refl)
  advertise_one_own (some c) k topic m h = rw (lookup-insert k k (topic k) m, text_eq_refl k) refl

  advertise-HasTopic :
      (es : List Endpoint) (topic : Text → Text) (m : Map Text)
      → All (HasTopic topic (advertise endpoint cs es topic m)) es
  unfolding advertise
  advertise-HasTopic [] topic m = tt
  advertise-HasTopic (e ∷ es) topic m =
      let n = advertise_one endpoint (find_endpoint_config cs (id e)) (id e) topic m in
      (
        λ h.
            advertise-lookup es (id e) topic n
              (advertise_one_own (find_endpoint_config cs (id e)) (id e) topic m h),
        advertise-HasTopic es topic n,
      )

  -- Whether an endpoint has an id.
  unfoldable pub has_id : Text → List Endpoint → Bool
  has_id k [] = false
  has_id k (e ∷ es) = text_eq k (id e) || has_id k es

  abbrev pub IsMade : List Endpoint → EndpointConfig Real → Type 0
  IsMade es c = c.enabled ≡ true → c.critical ≡ true → has_id c.endpoint_id es ≡ true

  has_id-append :
      (k : Text) (es fs : List Endpoint) → has_id k (es ++ fs) ≡ has_id k es || has_id k fs
  unfolding has_id
  has_id-append k [] fs = refl
  has_id-append k (e ∷ es) fs = ground (arith, has_id-append k es fs)

  has_id-start_endpoints :
      (k : Text) (es : List Endpoint) → has_id k (start_endpoints endpoint cs es).1 ≡ has_id k es
  unfolding has_id start_endpoints
  has_id-start_endpoints k [] = refl
  has_id-start_endpoints k (e ∷ es) =
      let same = ap (λ t. text_eq k t) (id-start_endpoint e) in
      if_cases (λ (r : Bool × List Endpoint). has_id k r.1 ≡ text_eq k (id e) || has_id k es)
        (start_endpoint endpoint cs e).0 (λ f. ground (arith, same, has_id-start_endpoints k es))
        (λ f. ground (arith, same))

  -- The endpoints made before stay.
  abbrev Keeps : Text → Option ℕ × List Endpoint → Type 0
  Keeps k r = has_id k r.1 ≡ true

  after_make-Keeps :
      (o : Option Endpoint) (b : Bool) (k : Text) (es : List Endpoint)
      (rest : List Endpoint → Option ℕ × List Endpoint)
      → ((fs : List Endpoint) → has_id k fs ≡ true → Keeps k (rest fs))
      → has_id k es ≡ true
      → Keeps k (after_make endpoint o b es rest)
  after_make-Keeps none b k es rest f h = if_cases (Keeps k) b (λ c. h) (λ c. f es h)
  after_make-Keeps (some e) b k es rest f h =
      f (es ++ e ∷ []) (ground (arith, has_id-append k es (e ∷ []), h))

  build_loop-Keeps :
      (k : Text) (ds : List (EndpointConfig Real)) (n : ℕ) (es : List Endpoint)
      → has_id k es ≡ true
      → Keeps k (build_loop endpoint ds n es)
  unfolding build_loop
  build_loop-Keeps k [] n es h = h
  build_loop-Keeps k (d ∷ ds) n es h =
      if_cases (Keeps k) d.enabled
        (λ f.
          after_make-Keeps (make d) d.critical k es (build_loop endpoint ds (n + 1))
            (λ fs g. build_loop-Keeps k ds (n + 1) fs g) h)
        (λ f. build_loop-Keeps k ds n es h)

  -- The loop has come to its end.
  abbrev Ends : List (EndpointConfig Real) → Option ℕ × List Endpoint → Type 0
  Ends ds r = r.0 ≢ none → All (IsMade r.1) ds

  after_make-Ends :
      (o : Option Endpoint) (d : EndpointConfig Real) (ds : List (EndpointConfig Real)) (n : ℕ)
      (es : List Endpoint)
      → make d ≡ o
      → ((fs : List Endpoint) → Ends ds (build_loop endpoint ds n fs))
      → Ends (d ∷ ds) (after_make endpoint o d.critical es (build_loop endpoint ds n))
  unfolding has_id
  after_make-Ends none d ds n es g f h0 =
      if_cases (Ends (d ∷ ds)) d.critical (λ c h. absurd (h refl))
        (λ c h. (λ j k. absurd (ground (arith, c, k)), f es h)) h0
  after_make-Ends (some e) d ds n es g f h =
      let there : has_id d.endpoint_id (es ++ e ∷ []) ≡ true = ground (
        arith,
        has_id-append d.endpoint_id es (e ∷ []),
        ap (λ t. text_eq d.endpoint_id t) (id-make d e g),
        text_eq_refl d.endpoint_id,
      ) in
      (λ j k. build_loop-Keeps d.endpoint_id ds n (es ++ e ∷ []) there, f (es ++ e ∷ []) h)

  build_loop-Ends :
      (ds : List (EndpointConfig Real)) (n : ℕ) (es : List Endpoint)
      → Ends ds (build_loop endpoint ds n es)
  unfolding build_loop
  build_loop-Ends [] n es = λ h. tt
  build_loop-Ends (d ∷ ds) n es =
      if_cases (Ends (d ∷ ds)) d.enabled
        (λ f. after_make-Ends (make d) d ds (n + 1) es refl (λ fs. build_loop-Ends ds (n + 1) fs))
        (λ f h. (λ j k. absurd (ground (arith, f, j)), build_loop-Ends ds n es h))

  IsMade-start_endpoints :
      (es : List Endpoint) (ds : List (EndpointConfig Real))
      → All (IsMade es) ds
      → All (IsMade (start_endpoints endpoint cs es).1) ds
  IsMade-start_endpoints es [] h = tt
  IsMade-start_endpoints es (d ∷ ds) h =
      (λ j k. has_id-start_endpoints d.endpoint_id es ∙ h.0 j k, IsMade-start_endpoints es ds h.1)

module _ {Real : Type 0} (endpoint : HardwareEndpoint Real) where
  open endpoint use {Endpoint}

  -- Every endpoint with a critical configuration runs, every enabled and critical configuration has
  -- an endpoint, and every endpoint with a configuration has its two publishers.
  abbrev pub IsStarted : App endpoint → Type 0
  IsStarted app =
      All (RunsIfCritical endpoint app.configs) app.endpoints
      × All (IsMade endpoint app.configs app.endpoints) app.configs
      × All (HasTopic endpoint app.configs device_info_topic app.device_info_pubs) app.endpoints
      × All (HasTopic endpoint app.configs device_state_topic app.device_state_pubs) app.endpoints

  is_built_ends : (o : Option ℕ) (es : List Endpoint) → is_built endpoint o es ≡ true → o ≢ none
  is_built_ends none es h = cc h
  is_built_ends (some n) es h = λ e. cc e

  -- If Start reports success, every enabled and critical configuration has got an endpoint, every
  -- endpoint whose configuration is critical runs, and the endpoints that have a configuration
  -- have the publishers of their device's information and state. This holds of any kinds of
  -- endpoints, whichever of them the build has, and whichever of their calls fail.
  pub start_app_lem :
      (app : App endpoint)
      → (start_app endpoint app).0 ≡ true
      → IsStarted (start_app endpoint app).1
  unfolding start_app build_endpoints
  start_app_lem app =
      let loop = build_loop endpoint app.configs 0 app.endpoints in
      let started = start_endpoints endpoint app.configs loop.1 in
      let P = λ (r : Bool × App endpoint). r.0 ≡ true → IsStarted r.1 in
      if_cases P (not (is_built endpoint loop.0 loop.1)) (λ b h. cc h)
        (λ b.
          if_cases P (not started.0) (λ s h. cc h)
            (λ s h. (
              start_endpoints-RunsIfCritical endpoint app.configs loop.1 (ground (arith, s)),
              IsMade-start_endpoints endpoint app.configs loop.1 app.configs (
                  build_loop-Ends endpoint app.configs app.configs 0 app.endpoints
                    (is_built_ends loop.0 loop.1 (ground (arith, b)))),
              advertise-HasTopic endpoint app.configs started.1 device_info_topic
                  app.device_info_pubs,
              advertise-HasTopic endpoint app.configs started.1 device_state_topic
                  app.device_state_pubs,
            )))
