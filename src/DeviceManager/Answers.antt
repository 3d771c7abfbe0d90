-- ===== src/DeviceManager/Answers.antt =====
-- system/device_manager/main.cpp: what Query answers for one device.
use openember.Prelude.{
  ℕ, ◌≡◌, refl, sym, ap, ◌∙◌, true, false, not, Bool-cases, inl, inr, List, [], ◌∷◌, ◌++◌, Option,
  none, some, arith, if◌then◌else◌, subst,
}
use openember.Prelude.Text.{Text, text_eq, text_eq→eq, is_empty}
use openember.Prelude.Map.{lookup, text_less, Entries, IsSorted, lookup-below}
use openember.Messages.{Header}
use openember.DeviceManager.Registry.{
  DeviceInfo, DeviceState, DeviceQuery, ManagedDevice, Registry, no_category, silent_state,
  is_passed, select_infos, select_states, query, Report, informs, tells, receive, receive_all,
  add_devices, new_registry,
}
use openember.DeviceManager.Reports.{
  latest_info, latest_state, Known, IsFiled, IsValid, receive_all-Known, receive_all-IsValid,
}

-- A query for one device, with its state.
abbrev pub asks_for : Header → Text → DeviceQuery
asks_for header k = record {
  header = header;
  device_id = k;
  category = no_category;
  include_state = true;
}

abbrev infos_of : Option ManagedDevice → List DeviceInfo
infos_of none = []
infos_of (some d) = if d.has_info then d.info ∷ [] else []

abbrev states_of : Option ManagedDevice → List DeviceState
states_of none = []
states_of (some d) = if d.has_info then d.state ∷ [] else []

module _ (header : Header) (k : Text) (named : is_empty k ≡ false) where
  -- A device is passed over if it has no information or stands under another id.
  other_is_passed :
      (j : Text) (d : ManagedDevice)
      → IsFiled j d
      → text_eq k j ≡ false
      → is_passed (asks_for header k) d ≡ true
  other_is_passed j d f e = elim (Bool-cases d.has_info) [
    | inl h ↦ let same = ap (λ t. text_eq k t) (f h).0 in ground (arith, same, named, e)
    | inr h ↦ ground (arith, h)
  ]

  own_is_passed :
      (j : Text) (d : ManagedDevice)
      → IsFiled j d
      → text_eq k j ≡ true
      → is_passed (asks_for header k) d ≡ not d.has_info
  own_is_passed j d f e = elim (Bool-cases d.has_info) [
    | inl h ↦ let same = ap (λ t. text_eq k t) (f h).0 in ground (arith, same, e, h)
    | inr h ↦ ground (arith, h)
  ]

  -- The keys behind the one asked for are other ones.
  rest-none :
      (j : Text) (d : ManagedDevice) (r : Registry)
      → IsSorted ((j, d) ∷ r)
      → text_eq k j ≡ true
      → lookup k r ≡ none
  rest-none j d r h e = lookup-below k r (
      subst (λ (t : Text). Entries (λ i (w : ManagedDevice). text_less t i ≡ true) r)
        (sym (text_eq→eq k j e)) h.0)

  select_infos-lookup :
      (r : Registry) → IsValid r → select_infos (asks_for header k) r ≡ infos_of (lookup k r)
  unfolding select_infos lookup
  select_infos-lookup [] h = refl
  select_infos-lookup ((j, d) ∷ r) h =
      let ih = select_infos-lookup r (h.0.1, h.1.1) in
      elim (Bool-cases (text_eq k j)) [
        | inl e ↦
            ground (arith, e, own_is_passed j d h.1.0 e, ih, ap infos_of (rest-none j d r h.0 e))
        | inr e ↦ rw (e, other_is_passed j d h.1.0 e) ih
      ]

  select_states-lookup :
      (r : Registry) → IsValid r → select_states (asks_for header k) r ≡ states_of (lookup k r)
  unfolding select_states lookup
  select_states-lookup [] h = refl
  select_states-lookup ((j, d) ∷ r) h =
      let ih = select_states-lookup r (h.0.1, h.1.1) in
      elim (Bool-cases (text_eq k j)) [
        | inl e ↦ elim (Bool-cases d.has_info) [
          | inl f ↦ ground (
            arith,
            e,
            f,
            (h.1.0 f).1,
            own_is_passed j d h.1.0 e,
            ih,
            ap states_of (rest-none j d r h.0 e),
          )
          | inr f ↦
              ground
                (arith, e, f, own_is_passed j d h.1.0 e, ih, ap states_of (rest-none j d r h.0 e))
        ]
        | inr e ↦ rw (e, other_is_passed j d h.1.0 e) ih
      ]

-- The reports that the initial devices stand for.
abbrev pub reports_of : List ManagedDevice → List Report
reports_of [] = []
reports_of (d ∷ ds) =
    let later = if d.has_state then tells d.state ∷ reports_of ds else reports_of ds in
    if d.has_info then informs d.info ∷ later else later

add_devices-receive_all :
    (ds : List ManagedDevice) (r : Registry) → add_devices ds r ≡ receive_all (reports_of ds) r
unfolding add_devices receive_all receive
add_devices-receive_all [] r = refl
add_devices-receive_all (d ∷ ds) r = elim (Bool-cases d.has_info) [
  | inl h ↦ elim (Bool-cases d.has_state) [
    | inl e ↦ rw (h, e) (add_devices-receive_all ds _)
    | inr e ↦ rw (h, e) (add_devices-receive_all ds _)
  ]
  | inr h ↦ elim (Bool-cases d.has_state) [
    | inl e ↦ rw (h, e) (add_devices-receive_all ds _)
    | inr e ↦ rw (h, e) (add_devices-receive_all ds _)
  ]
]

receive_all-append :
    (ms ns : List Report) (r : Registry)
    → receive_all (ms ++ ns) r ≡ receive_all ns (receive_all ms r)
unfolding receive_all
receive_all-append [] ns r = refl
receive_all-append (m ∷ ms) ns r = receive_all-append ms ns (receive m r)

-- The answer that the reports call for.
abbrev pub expected_infos : Option DeviceInfo → List DeviceInfo
expected_infos none = []
expected_infos (some info) = info ∷ []

abbrev pub expected_states : Text → Option DeviceInfo → Option DeviceState → List DeviceState
expected_states k none s = []
expected_states k (some info) none = silent_state k ∷ []
expected_states k (some info) (some state) = state ∷ []

Known-infos_of :
    (k : Text) (i : Option DeviceInfo) (s : Option DeviceState) (o : Option ManagedDevice)
    → Known k i s o
    → (infos_of o ≡ expected_infos i) × (states_of o ≡ expected_states k i s)
Known-infos_of k none none o h = (ap infos_of h, ap states_of h)
Known-infos_of k (some info) none o h = (ap infos_of h, ap states_of h)
Known-infos_of k none (some state) o h = (ap infos_of h, ap states_of h)
Known-infos_of k (some info) (some state) o h = (ap infos_of h, ap states_of h)

-- The manager answers a query for one device with a nonempty id, its state asked for, with the
-- latest reports under that id, in whatever order the reports of all devices came: with the latest
-- information, if there is any, and then with the latest state, or with the state of a silent
-- device if it has reported none. The initial devices count as the first reports.
pub query_latest :
    (ds : List ManagedDevice) (ms : List Report) (now sequence : ℕ) (header : Header) (k : Text)
    → is_empty k ≡ false
    → let answer = query now (asks_for header k) sequence (receive_all ms (new_registry ds)) in
      let i = latest_info k (reports_of ds ++ ms) none in
      let s = latest_state k (reports_of ds ++ ms) none in
      (answer.devices ≡ expected_infos i) × (answer.states ≡ expected_states k i s)
unfolding query new_registry lookup
query_latest ds ms now sequence header k named =
    let rs = reports_of ds ++ ms in
    let same : receive_all rs [] ≡ receive_all ms (new_registry ds) =
      receive_all-append (reports_of ds) ms []
      ∙ ap (receive_all ms) (sym (add_devices-receive_all ds [])) in
    let valid = subst IsValid same (receive_all-IsValid rs [] (tt, tt)) in
    let known =
      Known-infos_of k (latest_info k rs none) (latest_state k rs none)
        (lookup k (receive_all rs [])) (receive_all-Known k rs [] none none refl) in
    let found = ap (lookup k) same in
    (
      select_infos-lookup header k named (receive_all ms (new_registry ds)) valid
          ∙ ap infos_of (sym found)
          ∙ known.0,
      select_states-lookup header k named (receive_all ms (new_registry ds)) valid
          ∙ ap states_of (sym found)
          ∙ known.1,
    )
