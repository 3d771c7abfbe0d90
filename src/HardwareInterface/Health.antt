-- ===== src/HardwareInterface/Health.antt =====
-- services/hardware_interface/src/hardware_interface_app.cpp with system/health_monitor/main.cpp:
-- what the health monitor says of the service.
use openember.Prelude.{
  ℕ, ◌+◌, ◌≤◌, ◌≡◌, refl, ap, ◌∙◌, Bool, true, false, ◌||◌, List, [], ◌∷◌, ◌++◌, arith, ltb,
  if◌then◌else◌, All, map,
}
use openember.Prelude.Text.{is_empty}
use openember.Messages.{
  LifecycleState, ok, warning, error, DiagnosticLevel, level_ok, level_warning, level_error,
  level_stale,
}
use openember.HealthMonitor.Registry.{
  Event, beats, receive_all, new_registry, node_statuses, stale_timeout, to_diagnostic_level,
}
use openember.HealthMonitor.Nodes.{of_node}
use openember.HealthMonitor.Silence.{IsSilent, statuses_after}
use openember.HardwareInterface.Endpoint.{EndpointStatus, is_failed}
use openember.HardwareInterface.App.{HardwareInterfaceAppOptions}
use openember.HardwareInterface.Publish.{any_error, any_warning, build_heartbeat}

-- How bad an endpoint is, and the worst of several.
abbrev pub level_of : EndpointStatus → DiagnosticLevel
level_of s =
    if is_failed s.state
    then level_error
    else if ltb 0 s.error_count || ltb 0 s.timeout_count
    then level_warning
    else level_ok

abbrev pub worse : DiagnosticLevel → DiagnosticLevel → DiagnosticLevel
worse level_error b = level_error
worse a level_error = level_error
worse level_warning b = level_warning
worse a b = b

abbrev pub worst : List EndpointStatus → DiagnosticLevel
worst [] = level_ok
worst (s ∷ ss) = worse (level_of s) (worst ss)

any_error_either : (ss : List EndpointStatus) (b : Bool) → any_error ss b ≡ b || any_error ss false
unfolding any_error
any_error_either [] b = ground arith
any_error_either (s ∷ ss) b =
    ground
      (arith, any_error_either ss (b || is_failed s.state), any_error_either ss (is_failed s.state))

any_warning_either :
    (ss : List EndpointStatus) (b : Bool) → any_warning ss b ≡ b || any_warning ss false
unfolding any_warning
any_warning_either [] b = ground arith
any_warning_either (s ∷ ss) b =
    let w = ltb 0 s.error_count || ltb 0 s.timeout_count in
    ground (arith, any_warning_either ss (b || w), any_warning_either ss w)

-- The level of the two answers.
abbrev level_from : Bool → Bool → DiagnosticLevel
level_from failed warned =
    if failed then level_error else if warned then level_warning else level_ok

level_from-worse :
    (a b c d : Bool) → level_from (a || b) (c || d) ≡ worse (level_from a c) (level_from b d)
level_from-worse true b c d = refl
level_from-worse false true false d = refl
level_from-worse false true true d = refl
level_from-worse false false false true = refl
level_from-worse false false false false = refl
level_from-worse false false true true = refl
level_from-worse false false true false = refl

worst_lem :
    (ss : List EndpointStatus) → level_from (any_error ss false) (any_warning ss false) ≡ worst ss
unfolding any_error any_warning
worst_lem [] = refl
worst_lem (s ∷ ss) =
    let w = ltb 0 s.error_count || ltb 0 s.timeout_count in
    rw (any_error_either ss (is_failed s.state), any_warning_either ss w)
      (level_from-worse (is_failed s.state) (any_error ss false) w (any_warning ss false)
        ∙ ap (worse (level_of s)) (worst_lem ss))

health_level :
    (ss : List EndpointStatus)
    → to_diagnostic_level
        (if any_error ss false then error else if any_warning ss false then warning else ok)
      ≡ worst ss
health_level ss = by_answers (any_error ss false) (any_warning ss false) ∙ worst_lem ss
  where
    by_answers :
        (a b : Bool)
        → to_diagnostic_level (if a then error else if b then warning else ok) ≡ level_from a b
    by_answers true b = refl
    by_answers false true = refl
    by_answers false false = refl

-- The health monitor tells the worst of the endpoints of a service with a node name: whatever
-- arrived before its heartbeat, and whatever arrives after it from other nodes, a snapshot within
-- five seconds has one status for the service among those of the nodes, with the level `error` if
-- an endpoint failed, else `warning` if an endpoint has counted an error or a timeout, and else
-- `ok`.
pub worst_endpoint_told :
    (active : LifecycleState) (options : HardwareInterfaceAppOptions) (clock uptime sequence : ℕ)
    (ss : List EndpointStatus) (es fs : List Event) (t now : ℕ)
    → is_empty options.node_name ≡ false
    → All (IsSilent options.node_name) fs
    → now ≤ t + stale_timeout
    → let h = build_heartbeat active options clock uptime sequence ss in
      let r = receive_all (es ++ beats t h ∷ fs) new_registry in
      map (λ s. s.level) (of_node options.node_name (node_statuses now r.nodes)) ≡ worst ss ∷ []
worst_endpoint_told active options clock uptime sequence ss es fs t now named silent soon =
    let h = build_heartbeat active options clock uptime sequence ss in
    let in_time : ltb (t + stale_timeout) now ≡ false = ground arith in
    ap (map (λ s. s.level)) (statuses_after es fs t h now named silent)
    ∙ ap (λ b. (if b then level_stale else to_diagnostic_level h.health) ∷ []) in_time
    ∙ ap (λ l. l ∷ []) (health_level ss)
