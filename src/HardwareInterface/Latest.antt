-- ===== src/HardwareInterface/Latest.antt =====
-- system/device_manager/main.cpp: the latest reports of a device among what the subscriptions take of
-- one endpoint's messages.
use openember.Prelude.{
  ◌≡◌, refl, ap, ◌∙◌, Bool, true, false, not, ◌&&◌, List, [], ◌∷◌, ◌++◌, Option, none, some, arith,
}
use openember.Prelude.Text.{Text, text_eq, text_eq_refl, is_empty}
use openember.DeviceManager.Registry.{
  DeviceInfo, DeviceState, Report, informs, tells, all_device_info_topic, all_device_state_topic,
}
use openember.DeviceManager.Reports.{latest_info, latest_state}
use openember.HardwareInterface.Endpoint.{HardwareEndpoint}
use openember.HardwareInterface.App.{device_info_topic, device_state_topic}
use openember.HardwareInterface.Delivery.{
  Matching, taken, takes, device_reports, HasNoStar, IsChunk, info_taken, state_taken,
}
use openember.Transport.KeyBuilder.{KeyBuilder, prefix}
use openember.HardwareInterface.Spin.{Message, info_messages, state_messages}

-- The latest information and state, together.
abbrev pub Latest : Type 0
Latest = Option DeviceInfo × Option DeviceState

abbrev pub latest : Text → List Report → Latest → Latest
latest k rs l = (latest_info k rs l.0, latest_state k rs l.1)

pub latest-append :
    (k : Text) (rs qs : List Report) (l : Latest)
    → latest k (rs ++ qs) l ≡ latest k qs (latest k rs l)
latest-append k [] qs l = refl
latest-append k (informs info ∷ rs) qs l = latest-append k rs qs (_, l.1)
latest-append k (tells state ∷ rs) qs l = latest-append k rs qs (l.0, _)

pub other_device : (k j : Text) → text_eq k j ≡ false → not (is_empty k) && text_eq k j ≡ false
other_device k j e = ground (arith, e)

pub same_device : (k j : Text) → is_empty k ≡ false → j ≡ k → not (is_empty k) && text_eq k j ≡ true
same_device k j n e = let own = ap (λ t. text_eq k t) e in ground (arith, n, own, text_eq_refl k)

-- What the two subscriptions take of one endpoint's messages.
abbrev both_taken : Bool → Bool → DeviceInfo → DeviceState → List Report
both_taken t u info state = taken t (informs info) (taken u (tells state) [])

taken_skipped :
    (k : Text) (t u : Bool) (info : DeviceInfo) (state : DeviceState) (l : Latest)
    → text_eq k info.device_id ≡ false
    → text_eq k state.device_id ≡ false
    → (latest k (taken t (informs info) []) l ≡ l)
      × (latest k (taken u (tells state) []) l ≡ l)
      × (latest k (both_taken t u info state) l ≡ l)
taken_skipped k false false info state l e f = (refl, refl, refl)
taken_skipped k false true info state l e f =
    rw (other_device k state.device_id f) (refl, refl, refl)
taken_skipped k true false info state l e f =
    rw (other_device k info.device_id e) (refl, refl, refl)
taken_skipped k true true info state l e f =
    rw (other_device k info.device_id e, other_device k state.device_id f) (refl, refl, refl)

module _ {Real : Type 0} (endpoint : HardwareEndpoint Real) (matching : Matching)
    (b : KeyBuilder) where
  open endpoint use {Endpoint, id, status}

  abbrev reports : List Message → List Report
  reports ms = device_reports matching b ms

  pub skipped :
      (k : Text) (p q : Option Text) (info : DeviceInfo) (state : DeviceState) (l : Latest)
      → text_eq k info.device_id ≡ false
      → text_eq k state.device_id ≡ false
      → latest k (reports (info_messages endpoint p info ++ state_messages endpoint q state)) l ≡ l
  skipped k none none info state l e f = refl
  skipped k none (some u) info state l e f =
      (taken_skipped k false (takes matching b all_device_state_topic u) info state l e f).1
  skipped k (some t) none info state l e f =
      (taken_skipped k (takes matching b all_device_info_topic t) false info state l e f).0
  skipped k (some t) (some u) info state l e f =
      (taken_skipped k (takes matching b all_device_info_topic t)
        (takes matching b all_device_state_topic u) info state l e f).2

  pub chosen :
      (k : Text) (p q : Option Text) (info : DeviceInfo) (state : DeviceState) (l : Latest)
      → HasNoStar (prefix b)
      → IsChunk k
      → p ≡ some (device_info_topic k)
      → q ≡ some (device_state_topic k)
      → info.device_id ≡ k
      → state.device_id ≡ k
      → latest k (reports (info_messages endpoint p info ++ state_messages endpoint q state)) l
        ≡ (some info, some state)
  chosen k p q info state l r n e f g h =
      ap
        (λ o.
          latest k (reports (info_messages endpoint o info ++ state_messages endpoint q state)) l)
        e
      ∙ ap
          (λ o.
            latest k
              (reports (
                info_messages endpoint (some (device_info_topic k)) info
                ++ state_messages endpoint o state))
              l)
          f
      ∙ ap (λ t. latest k (both_taken t state_in info state) l) (info_taken matching b r k n)
      ∙ ap (λ u. latest k (both_taken true u info state) l) (state_taken matching b r k n)
      ∙ rw (same_device k info.device_id n.0 g, same_device k state.device_id n.0 h) refl
    where
      state_in : Bool
      state_in = takes matching b all_device_state_topic (device_state_topic k)
