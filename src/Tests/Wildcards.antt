-- ===== src/Tests/Wildcards.antt =====
-- A matching of keys for runs of the device manager.
use openember.Prelude.{
  ℕ, ◌≡◌, refl, ap, ◌∙◌, Bool, true, false, ◌&&◌, [], ◌∷◌, ◌++◌, arith, ◌==◌, if◌then◌else◌, All,
}
use openember.Prelude.Text.{Text, codes, is_empty}
use openember.HardwareInterface.Delivery.{Matching, takes, HasNoStar, IsPlain}
use openember.DeviceManager.Registry.{all_device_info_topic}
use openember.HardwareInterface.App.{device_info_topic}
use openember.Transport.KeyBuilder.{
  KeyBuilder, topic_key, prefix, normalize_name, strip_front, strip_back,
}

-- A key from its next slash on.
unfoldable pub after_chunk : Text → Text
after_chunk [] = []
after_chunk (c ∷ s) = let rest = after_chunk s in if c == b'/' then c ∷ s else rest

abbrev pub is_first : ℕ → Text → Bool
is_first c [] = false
is_first c (d ∷ s) = c == d

abbrev pub rest_of : Text → Text
rest_of [] = []
rest_of (d ∷ s) = s

-- Matching of a key to an expression with stars.
unfoldable pub glob : Text → Text → Bool
glob [] s = is_empty s
glob (c ∷ e) s =
    let skip = glob e (after_chunk s) in
    let next = glob e (rest_of s) in if c == b'*' then skip else is_first c s && next

glob-append : (before e s : Text) → HasNoStar before → glob (before ++ e) (before ++ s) ≡ glob e s
unfolding glob
glob-append [] e s h = refl
glob-append (c ∷ before) e s h = ground (arith, h.0, glob-append before e s h.1)

glob_same : (s : Text) → HasNoStar s → glob s s ≡ true
unfolding glob
glob_same [] h = refl
glob_same (c ∷ s) h = ground (arith, h.0, glob_same s h.1)

after_chunk-append :
    (chunk after : Text) → All IsPlain chunk → after_chunk (chunk ++ b'/' ∷ after) ≡ b'/' ∷ after
unfolding after_chunk
after_chunk-append [] after h = refl
after_chunk-append (c ∷ chunk) after h = ground (arith, h.0.0, after_chunk-append chunk after h.1)

glob_star :
    (before chunk after : Text)
    → HasNoStar before
    → is_empty chunk ≡ false
    → All IsPlain chunk
    → HasNoStar after
    → glob (before ++ b'/' ∷ b'*' ∷ b'/' ∷ after) (before ++ b'/' ∷ (chunk ++ b'/' ∷ after)) ≡ true
unfolding glob
glob_star before chunk after h n c a =
    glob-append before (b'/' ∷ b'*' ∷ b'/' ∷ after) (b'/' ∷ (chunk ++ b'/' ∷ after)) h
    ∙ ap (glob (b'/' ∷ after)) (after_chunk-append chunk after c)
    ∙ glob_same (b'/' ∷ after) (omega arith, a)

pub wildcards : Matching
wildcards = record { receives = glob; star = glob_star }

-- The topic of a device with a dot in its id is none that the device manager takes.
dotted_device :
    let b : KeyBuilder = record { robot_id = codes "openember"; namespace_name = [] } in
    (takes wildcards b all_device_info_topic (device_info_topic (codes "arm.left")) ≡ false)
    × (takes wildcards b all_device_info_topic (device_info_topic (codes "arm")) ≡ true)
unfolding codes device_info_topic topic_key prefix normalize_name strip_front strip_back glob
    after_chunk wildcards
dotted_device = (refl, refl)
