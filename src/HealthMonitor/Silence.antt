-- ===== src/HealthMonitor/Silence.antt =====
-- system/health_monitor/main.cpp: a node that stops sending heartbeats.
use openember.Prelude.{
  ℕ, ◌+◌, ◌<◌, ◌≡◌, refl, ap, ◌∙◌, false, not, ◌&&◌, List, [], ◌∷◌, ◌++◌, Option, none, some, arith,
  if◌then◌else◌, All, map, lt→ltb,
}
use openember.Prelude.Text.{Text, text_eq, text_eq_refl, is_empty}
use openember.Messages.{NodeHeartbeat, level_stale}
use openember.HealthMonitor.Registry.{
  new_registry, node_status, node_statuses, node_health, Event, beats, diagnoses, receive_all,
  stale_timeout, to_diagnostic_level,
}
use openember.HealthMonitor.Nodes.{
  latest_heartbeat, seen, of_node, expected_statuses, node_statuses-seen,
}

-- No heartbeat of the node.
abbrev pub IsSilent : Text → Event → Type 0
IsSilent k (beats now h) = text_eq k h.node_name ≡ false
IsSilent k (diagnoses now d) = Unit

latest_heartbeat_silent :
    (k : Text) (es : List Event) (o : Option (ℕ × NodeHeartbeat))
    → All (IsSilent k) es
    → latest_heartbeat k es o ≡ o
latest_heartbeat_silent k [] o s = refl
latest_heartbeat_silent k (beats now h ∷ es) o s =
    let skipped : not (is_empty k) && text_eq k h.node_name ≡ false = ground (arith, s.0) in
    rw skipped (latest_heartbeat_silent k es o s.1)
latest_heartbeat_silent k (diagnoses now d ∷ es) o s = latest_heartbeat_silent k es o s.1

latest_heartbeat-append :
    (k : Text) (es fs : List Event) (o : Option (ℕ × NodeHeartbeat))
    → latest_heartbeat k (es ++ fs) o ≡ latest_heartbeat k fs (latest_heartbeat k es o)
latest_heartbeat-append k [] fs o = refl
latest_heartbeat-append k (beats now h ∷ es) fs o = latest_heartbeat-append k es fs _
latest_heartbeat-append k (diagnoses now d ∷ es) fs o = latest_heartbeat-append k es fs o

-- The status of a node that falls silent is that of its last heartbeat.
pub statuses_after :
    (es fs : List Event) (t : ℕ) (h : NodeHeartbeat) (now : ℕ)
    → is_empty h.node_name ≡ false
    → All (IsSilent h.node_name) fs
    → let r = receive_all (es ++ beats t h ∷ fs) new_registry in
      of_node h.node_name (node_statuses now r.nodes)
      ≡ node_status now h.node_name (node_health t h) ∷ []
statuses_after es fs t h now named silent =
    let k = h.node_name in
    let chosen : (if not (is_empty k) && text_eq k k
          then some (t, h)
          else latest_heartbeat k es none)
        ≡ some (t, h) =
      rw (named, text_eq_refl k) refl in
    let latest =
      latest_heartbeat-append k es (beats t h ∷ fs) none
      ∙ latest_heartbeat_silent k fs _ silent
      ∙ chosen in
    node_statuses-seen (es ++ beats t h ∷ fs) now k
    ∙ ap (λ o. expected_statuses now k (seen o)) latest

-- A node with a name that has sent a heartbeat and then falls silent is found out: whatever else
-- arrives before that heartbeat, and whatever arrives after it from other nodes, every snapshot
-- more than five seconds later has one status for it among those of the nodes, with the level
-- `stale`.
pub silence_found :
    (es fs : List Event) (t : ℕ) (h : NodeHeartbeat) (now : ℕ)
    → is_empty h.node_name ≡ false
    → All (IsSilent h.node_name) fs
    → t + stale_timeout < now
    → let r = receive_all (es ++ beats t h ∷ fs) new_registry in
      map (λ s. s.level) (of_node h.node_name (node_statuses now r.nodes)) ≡ level_stale ∷ []
silence_found es fs t h now named silent late =
    ap (map (λ s. s.level)) (statuses_after es fs t h now named silent)
    ∙ ap (λ b. (if b then level_stale else to_diagnostic_level h.health) ∷ [])
        (lt→ltb (t + stale_timeout) now late)
