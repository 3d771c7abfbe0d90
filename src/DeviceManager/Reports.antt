-- ===== src/DeviceManager/Reports.antt =====
-- system/device_manager/main.cpp: a query answers with the latest reports.
use openember.Prelude.{
  ◌≡◌, refl, sym, ap, ◌∙◌, Bool, true, false, not, ◌&&◌, Bool-cases, inl, inr, List, [], ◌∷◌,
  Option, none, some, if_cases, arith, if◌then◌else◌, subst,
}
use openember.Prelude.Text.{Text, text_eq, text_eq→eq, is_empty}
use openember.Prelude.Map.{
  lookup, insert, lookup-insert, Entries, Entries-insert, Entries-lookup, IsSorted, insert-IsSorted,
}
use openember.DeviceManager.Registry.{
  DeviceInfo, DeviceState, ManagedDevice, Registry, new_device, or_new, with_info, with_state,
  update_info, update_state, silent_state, Report, informs, tells, receive, receive_all,
}

-- The latest information and the latest state that the reports have under an id, the first report
-- being the oldest.
abbrev pub latest_info : Text → List Report → Option DeviceInfo → Option DeviceInfo
latest_info k [] o = o
latest_info k (informs info ∷ ms) o =
    latest_info k ms (if not (is_empty k) && text_eq k info.device_id then some info else o)
latest_info k (tells state ∷ ms) o = latest_info k ms o

abbrev pub latest_state : Text → List Report → Option DeviceState → Option DeviceState
latest_state k [] o = o
latest_state k (informs info ∷ ms) o = latest_state k ms o
latest_state k (tells state ∷ ms) o =
    latest_state k ms (if not (is_empty k) && text_eq k state.device_id then some state else o)

-- What is known under an id: the latest information and state.
abbrev pub Known : Text → Option DeviceInfo → Option DeviceState → Option ManagedDevice → Type 0
Known k none none o = o ≡ none
Known k (some info) none o =
    o ≡ some (record { info = info; state = silent_state k; has_info = true; has_state = true })
Known k none (some state) o = o ≡ some (with_state state new_device)
Known k (some info) (some state) o =
    o ≡ some (record { info = info; state = state; has_info = true; has_state = true })

with_info-Known :
    (k : Text) (info : DeviceInfo) (o : Option ManagedDevice) (i : Option DeviceInfo)
    (s : Option DeviceState)
    → info.device_id ≡ k
    → Known k i s o
    → Known k (some info) s (some (with_info info (or_new o)))
with_info-Known k info o none none e h = rw h (
    ap
      (λ id.
        some (record { info = info; state = silent_state id; has_info = true; has_state = true }))
      e)
with_info-Known k info o none (some t) e h = rw h refl
with_info-Known k info o (some j) none e h = rw h refl
with_info-Known k info o (some j) (some t) e h = rw h refl

with_state-Known :
    (k : Text) (state : DeviceState) (o : Option ManagedDevice) (i : Option DeviceInfo)
    (s : Option DeviceState)
    → Known k i s o
    → Known k i (some state) (some (with_state state (or_new o)))
with_state-Known k state o none none h = rw h refl
with_state-Known k state o none (some t) h = rw h refl
with_state-Known k state o (some j) none h = rw h refl
with_state-Known k state o (some j) (some t) h = rw h refl

-- Whether a report under an id is one about a device.
abbrev pub concerns : Text → Text → Bool
concerns k id = not (is_empty k) && text_eq k id

not_concerned : (k id : Text) → is_empty id ≡ true → concerns k id ≡ false
not_concerned k id h = elim (Bool-cases (text_eq k id)) [
  | inl e ↦ let same = ap (λ t. is_empty t) (text_eq→eq k id e) in ground (arith, same, h)
  | inr e ↦ ground (arith, e)
]

concerned : (k id : Text) → is_empty id ≡ false → text_eq k id ≡ true → concerns k id ≡ true
concerned k id h e = let same = ap (λ t. is_empty t) (text_eq→eq k id e) in ground (arith, same, h)

module _ (k id : Text) (d : ManagedDevice) (r : Registry) where
  lookup-skip : text_eq k id ≡ false → lookup k (insert id d r) ≡ lookup k r
  lookup-skip e = lookup-insert k id d r ∙ rw e refl

  lookup-own : text_eq k id ≡ true → lookup k (insert id d r) ≡ some d
  lookup-own e = lookup-insert k id d r ∙ rw e refl

receive-Known :
    (k : Text) (m : Report) (r : Registry) (i : Option DeviceInfo) (s : Option DeviceState)
    → Known k i s (lookup k r)
    → Known k (latest_info k (m ∷ []) i) (latest_state k (m ∷ []) s) (lookup k (receive m r))
unfolding receive update_info update_state
receive-Known k (informs info) r i s h = elim (Bool-cases (is_empty info.device_id)) [
  | inl e ↦ rw (e, not_concerned k info.device_id e) h
  | inr e ↦ rw e (elim (Bool-cases (text_eq k info.device_id)) [
    | inl f ↦
        let same : info.device_id ≡ k = sym (text_eq→eq k info.device_id f) in
        let d = with_info info (or_new (lookup info.device_id r)) in
        rw (concerned k info.device_id e f, lookup-own k info.device_id d r f)
          (with_info-Known k info (lookup info.device_id r) i s same
            (subst (λ t. Known k i s (lookup t r)) (sym same) h))
    | inr f ↦
        let d = with_info info (or_new (lookup info.device_id r)) in
        let none_of : concerns k info.device_id ≡ false = ground (arith, f) in
        rw (none_of, lookup-skip k info.device_id d r f) h
  ])
]
receive-Known k (tells state) r i s h = elim (Bool-cases (is_empty state.device_id)) [
  | inl e ↦ rw (e, not_concerned k state.device_id e) h
  | inr e ↦ rw e (elim (Bool-cases (text_eq k state.device_id)) [
    | inl f ↦
        let same : state.device_id ≡ k = sym (text_eq→eq k state.device_id f) in
        let d = with_state state (or_new (lookup state.device_id r)) in
        rw (concerned k state.device_id e f, lookup-own k state.device_id d r f)
          (with_state-Known k state (lookup state.device_id r) i s
            (subst (λ t. Known k i s (lookup t r)) (sym same) h))
    | inr f ↦
        let d = with_state state (or_new (lookup state.device_id r)) in
        let none_of : concerns k state.device_id ≡ false = ground (arith, f) in
        rw (none_of, lookup-skip k state.device_id d r f) h
  ])
]

pub receive_all-Known :
    (k : Text) (ms : List Report) (r : Registry) (i : Option DeviceInfo) (s : Option DeviceState)
    → Known k i s (lookup k r)
    → Known k (latest_info k ms i) (latest_state k ms s) (lookup k (receive_all ms r))
unfolding receive_all
receive_all-Known k [] r i s h = h
receive_all-Known k (informs info ∷ ms) r i s h =
    receive_all-Known k ms (receive (informs info) r) _ s (receive-Known k (informs info) r i s h)
receive_all-Known k (tells state ∷ ms) r i s h =
    receive_all-Known k ms (receive (tells state) r) i _ (receive-Known k (tells state) r i s h)

-- Every device with information stands under the id of that information, in order, and has a state.
abbrev pub IsFiled : Text → ManagedDevice → Type 0
IsFiled k d = d.has_info ≡ true → (d.info.device_id ≡ k) × (d.has_state ≡ true)

abbrev pub IsValid : Registry → Type 0
IsValid r = IsSorted r × Entries IsFiled r

update_info-IsValid : (info : DeviceInfo) (r : Registry) → IsValid r → IsValid (update_info info r)
unfolding update_info
update_info-IsValid info r h =
    if_cases IsValid (is_empty info.device_id) (λ e. h)
      (λ e. (
        insert-IsSorted info.device_id (with_info info (or_new (lookup info.device_id r))) r h.0,
        Entries-insert IsFiled info.device_id (with_info info (or_new (lookup info.device_id r))) r
            (λ k. (refl, refl)) h.1,
      ))

update_state-IsValid :
    (state : DeviceState) (r : Registry) → IsValid r → IsValid (update_state state r)
unfolding update_state
update_state-IsValid state r h =
    if_cases IsValid (is_empty state.device_id) (λ e. h)
      (λ e. (
        insert-IsSorted state.device_id (with_state state (or_new (lookup state.device_id r))) r
            h.0,
        Entries-insert IsFiled state.device_id
            (with_state state (or_new (lookup state.device_id r))) r
            (filed (lookup state.device_id r) refl) h.1,
      ))
  where
    filed :
        (o : Option ManagedDevice)
        → lookup state.device_id r ≡ o
        → IsFiled state.device_id (with_state state (or_new o))
    filed none e = λ k. cc k
    filed (some d) e = λ k. ((Entries-lookup IsFiled state.device_id d r h.1 e k).0, refl)

pub receive_all-IsValid : (ms : List Report) (r : Registry) → IsValid r → IsValid (receive_all ms r)
unfolding receive_all receive
receive_all-IsValid [] r h = h
receive_all-IsValid (informs info ∷ ms) r h =
    receive_all-IsValid ms (update_info info r) (update_info-IsValid info r h)
receive_all-IsValid (tells state ∷ ms) r h =
    receive_all-IsValid ms (update_state state r) (update_state-IsValid state r h)
