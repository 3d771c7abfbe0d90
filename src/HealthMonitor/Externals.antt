-- ===== src/HealthMonitor/Externals.antt =====
-- system/health_monitor/main.cpp: the diagnostics of others that the monitor keeps.
use openember.Prelude.{ℕ, ◌≡◌, refl, false, List, [], ◌∷◌, if_cases}
use openember.Prelude.Text.{Text, text_eq, is_empty}
use openember.Prelude.Map.{Map, Entries, Entries-insert, IsSorted, insert-IsSorted}
use openember.Messages.{DiagnosticStatus}
use openember.HealthMonitor.Registry.{
  HealthRegistry, ExternalDiagnostic, module_name, external_key, named_status, update_diagnostic,
  update_all, update, update_diagnostics, Event, beats, diagnoses, receive, receive_all,
}

-- A diagnostic is another node's, it has a name and stands under its key.
abbrev pub IsForeign : Text → ExternalDiagnostic → Type 0
IsForeign k d =
    (text_eq d.status.node_name module_name ≡ false)
    × (is_empty d.status.name ≡ false)
    × (k ≡ external_key d.status)

abbrev pub IsValid : HealthRegistry → Type 0
IsValid r = IsSorted r.external_diagnostics × Entries IsForeign r.external_diagnostics

abbrev Holds : Map ExternalDiagnostic → Type 0
Holds m = IsSorted m × Entries IsForeign m

named_status-IsForeign :
    (now : ℕ) (source : Text) (s : DiagnosticStatus)
    → text_eq source module_name ≡ false
    → is_empty s.name ≡ false
    → text_eq s.node_name module_name ≡ false
    → IsForeign
        (external_key (named_status source s))
        (record { status = named_status source s; last_seen = now })
named_status-IsForeign now source s e f g =
    if_cases
      (λ (t : DiagnosticStatus).
        IsForeign (external_key t) (record { status = t; last_seen = now }))
      (is_empty s.node_name) (λ h. (e, f, refl)) (λ h. (g, f, refl))

update_all-Holds :
    (now : ℕ) (source : Text) (ss : List DiagnosticStatus) (m : Map ExternalDiagnostic)
    → text_eq source module_name ≡ false
    → Holds m
    → Holds (update_all now source ss m)
unfolding update_all update_diagnostic
update_all-Holds now source [] m e h = h
update_all-Holds now source (s ∷ ss) m e h =
    update_all-Holds now source ss (update_diagnostic now source s m) e (
      if_cases Holds (is_empty s.name) (λ f. h)
        (λ f.
          if_cases Holds (text_eq s.node_name module_name) (λ g. h)
            (λ g.
              let d : ExternalDiagnostic = record {
                status = named_status source s;
                last_seen = now;
              } in
              (
                insert-IsSorted (external_key (named_status source s)) d m h.0,
                Entries-insert IsForeign (external_key (named_status source s)) d m
                    (named_status-IsForeign now source s e f g) h.1,
              ))))

update-IsValid : (e : Event) (r : HealthRegistry) → IsValid r → IsValid (receive e r)
unfolding receive update update_diagnostics
update-IsValid (beats now h) r v = if_cases IsValid (is_empty h.node_name) (λ e. v) (λ e. v)
update-IsValid (diagnoses now d) r v =
    if_cases IsValid (text_eq d.header.source_node module_name) (λ e. v)
      (λ e. update_all-Holds now d.header.source_node d.status r.external_diagnostics e v)

-- The registry stays valid whatever arrives, the monitor's own diagnostics among it: the diagnostics
-- that it keeps are other nodes', have a name and stand under their keys, each key once, so that
-- the monitor never reports on its own reports.
pub foreign_only : (es : List Event) (r : HealthRegistry) → IsValid r → IsValid (receive_all es r)
unfolding receive_all
foreign_only [] r v = v
foreign_only (e ∷ es) r v = foreign_only es (receive e r) (update-IsValid e r v)
