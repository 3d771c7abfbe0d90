-- ===== src/HardwareInterface/App.antt =====
-- services/hardware_interface/src/hardware_interface_app.cpp: BuildEndpoints, FindEndpointConfig,
-- Start and Stop of class HardwareInterfaceApp.
use openember.Prelude.{
  ℕ, ◌+◌, Bool, true, false, not, ◌&&◌, List, [], ◌∷◌, ◌++◌, Option, none, some, ltb, if◌then◌else◌,
  map,
}
use openember.Prelude.Text.{Text, codes, is_empty, text_eq}
use openember.Prelude.Map.{Map, insert}
use openember.HardwareInterface.Endpoint.{EndpointConfig, HardwareEndpoint}

pub record HardwareInterfaceAppOptions : Type 0 where
  pub robot_id : Text
  pub node_name : Text
  pub instance_id : Text

-- DeviceInfoTopic and DeviceStateTopic.
unfoldable pub device_info_topic : Text → Text
device_info_topic endpoint_id = codes "/devices/" ++ endpoint_id ++ codes "/info"

unfoldable pub device_state_topic : Text → Text
device_state_topic endpoint_id = codes "/devices/" ++ endpoint_id ++ codes "/state"

module _ {Real : Type 0} where
  -- FindEndpointConfig.
  unfoldable pub find_endpoint_config :
      List (EndpointConfig Real) → Text → Option (EndpointConfig Real)
  find_endpoint_config [] k = none
  find_endpoint_config (c ∷ cs) k =
      let rest = find_endpoint_config cs k in if text_eq c.endpoint_id k then some c else rest

  -- `config && config->critical`.
  abbrev pub is_critical : Option (EndpointConfig Real) → Bool
  is_critical none = false
  is_critical (some c) = c.critical

module _ {Real : Type 0} (endpoint : HardwareEndpoint Real) where
  open endpoint use {Endpoint, id, configure, start, stop, make}

  -- The members that change after the constructor, the publishers by their topics.
  pub record App : Type 0 where
    pub options : HardwareInterfaceAppOptions
    pub configs : List (EndpointConfig Real)
    pub endpoints : List Endpoint
    pub device_info_pubs : Map Text
    pub device_state_pubs : Map Text

  -- HardwareInterfaceApp::HardwareInterfaceApp.
  abbrev pub new_app : HardwareInterfaceAppOptions → List (EndpointConfig Real) → App
  new_app options configs = record {
    options = options;
    configs = configs;
    endpoints = [];
    device_info_pubs = [];
    device_state_pubs = [];
  }

  -- What follows the attempt to make an endpoint: a critical one must be available.
  abbrev pub after_make :
      Option Endpoint
      → Bool
      → List Endpoint
      → (List Endpoint → Option ℕ × List Endpoint)
      → Option ℕ × List Endpoint
  after_make none critical es rest = if critical then (none, es) else rest es
  after_make (some e) critical es rest = rest (es ++ e ∷ [])

  -- The loop of BuildEndpoints, with the count of the enabled configurations and the endpoints made
  -- so far: none if a critical one is unavailable, with the endpoints made before it.
  unfoldable pub build_loop :
      List (EndpointConfig Real) → ℕ → List Endpoint → Option ℕ × List Endpoint
  build_loop [] n es = (some n, es)
  build_loop (c ∷ cs) n es =
      let skipped = build_loop cs n es in
      if c.enabled then after_make (make c) c.critical es (build_loop cs (n + 1)) else skipped

  -- The test after the loop of BuildEndpoints.
  abbrev pub is_built : Option ℕ → List Endpoint → Bool
  is_built none es = false
  is_built (some n) es = not (ltb 0 n && is_empty es)

  -- BuildEndpoints, with the endpoints that there are.
  unfoldable pub build_endpoints : List (EndpointConfig Real) → List Endpoint → Bool × List Endpoint
  build_endpoints cs es = let r = build_loop cs 0 es in (is_built r.0 r.1, r.1)

  -- The turn of the first loop of Start: whether the loop goes on, and the endpoint.
  unfoldable pub start_endpoint : List (EndpointConfig Real) → Endpoint → Bool × Endpoint
  start_endpoint cs e =
      let critical = is_critical (find_endpoint_config cs (id e)) in
      let c = configure e in
      let s = start c.1 in
      if not c.0 then (not critical, c.1) else if not s.0 then (not critical, s.1) else (true, s.1)

  unfoldable pub start_endpoints : List (EndpointConfig Real) → List Endpoint → Bool × List Endpoint
  start_endpoints cs [] = (true, [])
  start_endpoints cs (e ∷ es) =
      let s = start_endpoint cs e in
      let rest = start_endpoints cs es in if s.0 then (rest.0, s.1 ∷ rest.1) else (false, s.1 ∷ es)

  -- The second loop of Start.
  abbrev pub advertise_one :
      Option (EndpointConfig Real) → Text → (Text → Text) → Map Text → Map Text
  advertise_one none k topic m = m
  advertise_one (some c) k topic m = insert k (topic k) m

  unfoldable pub advertise :
      List (EndpointConfig Real) → List Endpoint → (Text → Text) → Map Text → Map Text
  advertise cs [] topic m = m
  advertise cs (e ∷ es) topic m =
      advertise cs es topic (advertise_one (find_endpoint_config cs (id e)) (id e) topic m)

  -- Start.
  unfoldable pub start_app : App → Bool × App
  start_app app =
      let built = build_endpoints app.configs app.endpoints in
      let started = start_endpoints app.configs built.1 in
      if not built.0
      then (false, record app { endpoints = built.1 })
      else if not started.0
      then (false, record app { endpoints = started.1 })
      else (
        true,
        record app {
          endpoints = started.1;
          device_info_pubs = advertise app.configs started.1 device_info_topic app.device_info_pubs;
          device_state_pubs =
              advertise app.configs started.1 device_state_topic app.device_state_pubs;
        },
      )

  -- Stop. The endpoints share nothing, so that the order of their stops, last first, is not seen.
  unfoldable pub stop_app : App → App
  stop_app app = record app { endpoints = map stop app.endpoints }
