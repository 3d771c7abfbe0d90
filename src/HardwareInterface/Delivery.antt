-- ===== src/HardwareInterface/Delivery.antt =====
-- system/device_manager/main.cpp: which messages of the service the device manager's subscriptions
-- take, over the keys of components/transport.
use openember.Prelude.{
  ℕ, ◌≡◌, ◌≢◌, refl, sym, ap, ◌∙◌, Bool, true, false, List, [], ◌∷◌, ◌++◌, append_assoc, arith, All,
  map,
}
use openember.Prelude.Text.{Text, codes, is_empty}
use openember.DeviceManager.Registry.{
  Report, informs, tells, all_device_info_topic, all_device_state_topic,
}
use openember.HardwareInterface.App.{device_info_topic, device_state_topic}
use openember.HardwareInterface.Spin.{
  Message, node_info, heartbeat, diagnostics, device_info, device_state,
}
use openember.Transport.KeyBuilder.{
  KeyBuilder, normalize_name, strip_front, strip_back, slash_for_dot, prefix, topic_key,
}
use openember.Transport.Keys.{HasNoDot, map_no_dot}

-- No wildcard of a key expression.
abbrev pub HasNoStar : Text → Type 0
HasNoStar s = All (λ c. c ≢ b'*') s

-- A character of a chunk of a key: no slash, and none with a meaning in a key expression.
abbrev pub IsPlain : ℕ → Type 0
IsPlain c = (c ≢ b'/') × (c ≢ b'*') × (c ≢ b'$') × (c ≢ b'?') × (c ≢ b'#')

-- Zenoh's matching: whether a subscriber of a key expression receives what is put under a key. In an
-- expression `*` stands for any one chunk between slashes.
pub record Matching : Type 0 where
  pub receives : Text → Text → Bool
  pub star :
      (before chunk after : Text)
      → HasNoStar before
      → is_empty chunk ≡ false
      → All IsPlain chunk
      → HasNoStar after
      → receives (before ++ b'/' ∷ b'*' ∷ b'/' ∷ after) (before ++ b'/' ∷ (chunk ++ b'/' ∷ after))
        ≡ true

abbrev pub taken : Bool → Report → List Report → List Report
taken true r rs = r ∷ rs
taken false r rs = rs

pub taken-append :
    (t : Bool) (r : Report) (rs qs : List Report) → taken t r (rs ++ qs) ≡ taken t r rs ++ qs
taken-append true r rs qs = refl
taken-append false r rs qs = refl

module _ (matching : Matching) (b : KeyBuilder) where
  -- Whether a subscription to the first topic takes what is published on the second one.
  abbrev pub takes : Text → Text → Bool
  takes topic published = matching.receives (topic_key b topic) (topic_key b published)

  -- What device_info_sub and device_state_sub hand on to the registry.
  abbrev pub device_reports : List Message → List Report
  device_reports [] = []
  device_reports (node_info i ∷ ms) = device_reports ms
  device_reports (heartbeat h ∷ ms) = device_reports ms
  device_reports (diagnostics d ∷ ms) = device_reports ms
  device_reports (device_info topic info ∷ ms) =
      taken (takes all_device_info_topic topic) (informs info) (device_reports ms)
  device_reports (device_state topic state ∷ ms) =
      taken (takes all_device_state_topic topic) (tells state) (device_reports ms)

  pub device_reports-append :
      (ms ns : List Message) → device_reports (ms ++ ns) ≡ device_reports ms ++ device_reports ns
  device_reports-append [] ns = refl
  device_reports-append (node_info i ∷ ms) ns = device_reports-append ms ns
  device_reports-append (heartbeat h ∷ ms) ns = device_reports-append ms ns
  device_reports-append (diagnostics d ∷ ms) ns = device_reports-append ms ns
  device_reports-append (device_info topic info ∷ ms) ns =
      let t = takes all_device_info_topic topic in
      ap (taken t (informs info)) (device_reports-append ms ns)
      ∙ taken-append t (informs info) (device_reports ms) (device_reports ns)
  device_reports-append (device_state topic state ∷ ms) ns =
      let t = takes all_device_state_topic topic in
      ap (taken t (tells state)) (device_reports-append ms ns)
      ∙ taken-append t (tells state) (device_reports ms) (device_reports ns)

is_empty-append : (s t : Text) → is_empty t ≡ false → is_empty (s ++ t) ≡ false
is_empty-append [] t h = h
is_empty-append (c ∷ s) t h = refl

strip_back-append :
    (s t : Text) → is_empty t ≡ false → strip_back t ≡ t → strip_back (s ++ t) ≡ s ++ t
unfolding strip_back
strip_back-append [] t n h = h
strip_back-append (c ∷ s) t n h =
    rw (strip_back-append s t n h) (ground (arith, is_empty-append s t n))

HasNoDot-append : (s t : Text) → HasNoDot s → HasNoDot t → HasNoDot (s ++ t)
HasNoDot-append [] t h k = k
HasNoDot-append (c ∷ s) t h k = (h.0, HasNoDot-append s t h.1 k)

abbrev in_devices : Text
in_devices = codes "/topics/devices"

-- The key of a topic of a device.
device_key :
    (b : KeyBuilder) (id tail : Text)
    → HasNoDot id
    → is_empty tail ≡ false
    → strip_back tail ≡ tail
    → HasNoDot tail
    → topic_key b (codes "/devices/" ++ id ++ tail) ≡ prefix b ++ in_devices ++ b'/' ∷ (id ++ tail)
unfolding topic_key normalize_name strip_front codes
device_key b id tail dots n s d =
    let name : Text = codes "devices/" ++ (id ++ tail) in
    let whole : strip_back name ≡ name =
      ap strip_back (append_assoc (codes "devices/") id tail)
      ∙ strip_back-append (codes "devices/" ++ id) tail n s in
    let plain : map slash_for_dot name ≡ name = map_no_dot name (
      HasNoDot-append (codes "devices/") (id ++ tail) (omega arith)
        (HasNoDot-append id tail dots d)) in
    ap (λ t. prefix b ++ (codes "/topics/" ++ t)) (ap (map slash_for_dot) whole ∙ plain)
    ∙ sym (append_assoc (prefix b) in_devices (b'/' ∷ (id ++ tail)))

HasNoStar-append : (s t : Text) → HasNoStar s → HasNoStar t → HasNoStar (s ++ t)
HasNoStar-append [] t h k = k
HasNoStar-append (c ∷ s) t h k = (h.0, HasNoStar-append s t h.1 k)

-- What an id is to be, that its device's topics are not those of another form.
abbrev pub IsChunk : Text → Type 0
IsChunk id = (is_empty id ≡ false) × All IsPlain id × HasNoDot id

module _ (matching : Matching) (b : KeyBuilder) (no_star : HasNoStar (prefix b)) where
  tail_taken :
      (id rest : Text)
      → IsChunk id
      → HasNoStar rest
      → is_empty rest ≡ false
      → strip_back rest ≡ rest
      → HasNoDot rest
      → takes matching b
          (codes "/devices/" ++ codes "*" ++ b'/' ∷ rest)
          (codes "/devices/" ++ id ++ b'/' ∷ rest)
        ≡ true
  tail_taken id rest (named, chunk, dots) star n s d =
      let stripped : strip_back (b'/' ∷ rest) ≡ b'/' ∷ rest =
        strip_back-append (b'/' ∷ []) rest n s in
      let dotless : HasNoDot (b'/' ∷ rest) = (omega arith, d) in
      let pattern_key =
        device_key b (codes "*") (b'/' ∷ rest) (unfold codes in omega arith) refl stripped
          dotless in
      let own_key = device_key b id (b'/' ∷ rest) dots refl stripped dotless in
      let starless = HasNoStar-append (prefix b) in_devices no_star (unfold codes in omega arith) in
      let before = prefix b ++ in_devices in
      ap (λ t. matching.receives t (topic_key b (codes "/devices/" ++ id ++ b'/' ∷ rest)))
        pattern_key
      ∙ ap (matching.receives (before ++ b'/' ∷ (codes "*" ++ b'/' ∷ rest))) own_key
      ∙ (unfold codes in matching.star before id rest starless named chunk star)

  pub info_taken :
      (id : Text)
      → IsChunk id
      → takes matching b all_device_info_topic (device_info_topic id) ≡ true
  unfolding device_info_topic codes strip_back
  info_taken id h = tail_taken id (codes "info") h (omega arith) refl refl (omega arith)

  pub state_taken :
      (id : Text)
      → IsChunk id
      → takes matching b all_device_state_topic (device_state_topic id) ≡ true
  unfolding device_state_topic codes strip_back
  state_taken id h = tail_taken id (codes "state") h (omega arith) refl refl (omega arith)
