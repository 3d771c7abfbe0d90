-- ===== src/HealthMonitor/Nodes.antt =====
-- system/health_monitor/main.cpp: what Snapshot says of a node.
use openember.Prelude.{
  ℕ, ◌+◌, ◌++◌, ltb, map, ◌≡◌, refl, sym, ap, ◌∙◌, Bool, true, false, not, ◌&&◌, Bool-cases, inl,
  inr, List, [], ◌∷◌, Option, none, some, arith, if◌then◌else◌, if_cases, subst,
}
use openember.Prelude.Text.{Text, codes, text_eq, text_eq→eq, is_empty}
use openember.Prelude.Map.{
  Map, lookup, lookup-insert, text_less, Entries, IsSorted, insert-IsSorted, lookup-below,
}
use openember.Messages.{
  NodeHeartbeat, DiagnosticStatus, DiagnosticArray, HealthState, unspecified, ok, warning, error,
  stale, DiagnosticLevel, level_unspecified, level_ok, level_warning, level_error, level_stale,
}
use openember.HealthMonitor.Registry.{
  NodeHealth, HealthRegistry, new_registry, node_health, update, update_diagnostics, node_status,
  node_statuses, to_diagnostic_level, Event, beats, diagnoses, receive, receive_all,
}

-- The latest heartbeat of a node, with the time it came, the first event being the oldest.
abbrev pub latest_heartbeat :
    Text → List Event → Option (ℕ × NodeHeartbeat) → Option (ℕ × NodeHeartbeat)
latest_heartbeat k [] o = o
latest_heartbeat k (beats now h ∷ es) o =
    latest_heartbeat k es (if not (is_empty k) && text_eq k h.node_name then some (now, h) else o)
latest_heartbeat k (diagnoses now d ∷ es) o = latest_heartbeat k es o

-- The health that stands for a heartbeat.
abbrev pub seen : Option (ℕ × NodeHeartbeat) → Option NodeHealth
seen none = none
seen (some (now, h)) = some (node_health now h)

-- The statuses of a node among those of the nodes.
abbrev pub of_node : Text → List DiagnosticStatus → List DiagnosticStatus
of_node k [] = []
of_node k (s ∷ ss) = let rest = of_node k ss in if text_eq k s.node_name then s ∷ rest else rest

abbrev pub expected_statuses : ℕ → Text → Option NodeHealth → List DiagnosticStatus
expected_statuses now k none = []
expected_statuses now k (some node) = node_status now k node ∷ []

not_named : (k name : Text) → is_empty name ≡ true → not (is_empty k) && text_eq k name ≡ false
not_named k name h = elim (Bool-cases (text_eq k name)) [
  | inl e ↦ let same = ap (λ t. is_empty t) (text_eq→eq k name e) in ground (arith, same, h)
  | inr e ↦ ground (arith, e)
]

name_found :
    (k name : Text) → is_empty name ≡ false → (not (is_empty k) && text_eq k name) ≡ text_eq k name
name_found k name h = elim (Bool-cases (text_eq k name)) [
  | inl e ↦ let same = ap (λ t. is_empty t) (text_eq→eq k name e) in ground (arith, same, h)
  | inr e ↦ ground (arith, e)
]

seen_choice :
    (b : Bool) (now : ℕ) (h : NodeHeartbeat) (o : Option (ℕ × NodeHeartbeat))
    → seen (if b then some (now, h) else o) ≡ (if b then some (node_health now h) else seen o)
seen_choice true now h o = refl
seen_choice false now h o = refl

update-lookup :
    (k : Text) (now : ℕ) (h : NodeHeartbeat) (r : HealthRegistry) (o : Option (ℕ × NodeHeartbeat))
    → lookup k r.nodes ≡ seen o
    → lookup k (update now h r).nodes ≡ seen (latest_heartbeat k (beats now h ∷ []) o)
unfolding update
update-lookup k now h r o e = elim (Bool-cases (is_empty h.node_name)) [
  | inl f ↦ rw (f, not_named k h.node_name f) e
  | inr f ↦
      rw (f, name_found k h.node_name f, seen_choice (text_eq k h.node_name) now h o, sym e)
        (lookup-insert k h.node_name (node_health now h) r.nodes)
]

nodes-update_diagnostics :
    (now : ℕ) (d : DiagnosticArray) (r : HealthRegistry)
    → (update_diagnostics now d r).nodes ≡ r.nodes
unfolding update_diagnostics
nodes-update_diagnostics now d r = ground arith

receive_all-lookup :
    (k : Text) (es : List Event) (r : HealthRegistry) (o : Option (ℕ × NodeHeartbeat))
    → lookup k r.nodes ≡ seen o
    → lookup k (receive_all es r).nodes ≡ seen (latest_heartbeat k es o)
unfolding receive_all receive
receive_all-lookup k [] r o e = e
receive_all-lookup k (beats now h ∷ es) r o e =
    receive_all-lookup k es (update now h r) _ (update-lookup k now h r o e)
receive_all-lookup k (diagnoses now d ∷ es) r o e =
    receive_all-lookup k es (update_diagnostics now d r) o
      (ap (lookup k) (nodes-update_diagnostics now d r) ∙ e)

receive_all-IsSorted :
    (es : List Event) (r : HealthRegistry) → IsSorted r.nodes → IsSorted (receive_all es r).nodes
unfolding receive_all receive update
receive_all-IsSorted [] r s = s
receive_all-IsSorted (beats now h ∷ es) r s = receive_all-IsSorted es (update now h r) (
    if_cases (λ (q : HealthRegistry). IsSorted q.nodes) (is_empty h.node_name) (λ e. s)
      (λ e. insert-IsSorted h.node_name (node_health now h) r.nodes s))
receive_all-IsSorted (diagnoses now d ∷ es) r s =
    receive_all-IsSorted es (update_diagnostics now d r)
      (subst IsSorted (sym (nodes-update_diagnostics now d r)) s)

of_node-lookup :
    (now : ℕ) (k : Text) (m : Map NodeHealth)
    → IsSorted m
    → of_node k (node_statuses now m) ≡ expected_statuses now k (lookup k m)
unfolding node_statuses lookup
of_node-lookup now k [] s = refl
of_node-lookup now k ((j, node) ∷ m) s =
    let ih = of_node-lookup now k m s.1 in
    elim (Bool-cases (text_eq k j)) [
      | inl e ↦
          let rest : lookup k m ≡ none = lookup-below k m (
            subst (λ (t : Text). Entries (λ i (w : NodeHealth). text_less t i ≡ true) m)
              (sym (text_eq→eq k j e)) s.0) in
          rw (e, ih, rest) (ap (λ t. node_status now t node ∷ []) (sym (text_eq→eq k j e)))
      | inr e ↦ rw e ih
    ]

pub node_statuses-seen :
    (es : List Event) (now : ℕ) (k : Text)
    → let r = receive_all es new_registry in
      of_node k (node_statuses now r.nodes)
      ≡ expected_statuses now k (seen (latest_heartbeat k es none))
unfolding lookup
node_statuses-seen es now k =
    of_node-lookup now k (receive_all es new_registry).nodes
      (receive_all-IsSorted es new_registry tt)
    ∙ ap (expected_statuses now k) (receive_all-lookup k es new_registry none refl)

-- The level that stands for a health.
abbrev pub level_of : HealthState → DiagnosticLevel
level_of unspecified = level_unspecified
level_of ok = level_ok
level_of warning = level_warning
level_of error = level_error
level_of stale = level_stale

-- What is to be said of a node: a name, a level and a message.
abbrev pub Told : Type 0
Told = Text × DiagnosticLevel × Text

abbrev pub told_of : DiagnosticStatus → Told
told_of s = (s.name, s.level, s.message)

-- What a heartbeat that came at a time stands for, in nanoseconds.
abbrev pub expected_told : ℕ → Text → Option (ℕ × NodeHeartbeat) → List Told
expected_told now k none = []
expected_told now k (some (t, h)) =
    (if ltb (t + 5000000000) now
      then (codes "node." ++ k, level_stale, codes "node heartbeat stale")
      else (codes "node." ++ k, level_of h.health, h.status_message))
    ∷ []

level_of_lem : (h : HealthState) → to_diagnostic_level h ≡ level_of h
level_of_lem unspecified = refl
level_of_lem ok = refl
level_of_lem warning = refl
level_of_lem error = refl
level_of_lem stale = refl

expected_told_lem :
    (now : ℕ) (k : Text) (o : Option (ℕ × NodeHeartbeat))
    → map told_of (expected_statuses now k (seen o)) ≡ expected_told now k o
expected_told_lem now k none = refl
expected_told_lem now k (some (t, h)) = elim (Bool-cases (ltb (t + 5000000000) now)) [
  | inl e ↦ rw e refl
  | inr e ↦ rw e (ap (λ l. (codes "node." ++ k, l, h.status_message) ∷ []) (level_of_lem h.health))
]

-- After any heartbeats and diagnostics, a snapshot has among the statuses of the nodes one for each
-- nonempty node name that has sent a heartbeat, and none for another. Its name is `node.` and the
-- node's name. If the latest heartbeat came more than 5,000,000,000 ns before the snapshot, its
-- level is `stale` and its message says so; otherwise its level is the one of that heartbeat's
-- health, and its message is that heartbeat's.
pub node_statuses_latest :
    (es : List Event) (now : ℕ) (k : Text)
    → let r = receive_all es new_registry in
      map told_of (of_node k (node_statuses now r.nodes))
      ≡ expected_told now k (latest_heartbeat k es none)
node_statuses_latest es now k =
    ap (map told_of) (node_statuses-seen es now k)
    ∙ expected_told_lem now k (latest_heartbeat k es none)
