-- ===== src/Transport/Keys.antt =====
-- components/transport/src/key_builder.cpp: which keys can be equal, and what names look like in
-- a key.
use openember.Prelude.{
  ℕ, ◌≡◌, ◌≢◌, refl, ap, ◌∙◌, sym, Bool, false, Bool-cases, ◌&&◌, inl, inr, List, [], ◌∷◌, ◌++◌,
  map, some, arith, ◌==◌, if◌then◌else◌, get_elem?, All,
}
use openember.Prelude.Text.{Text, codes, is_empty}
use openember.Transport.KeyBuilder.{
  KeyBuilder, strip_front, strip_back, slash_for_dot, normalize_name, prefix, topic_key,
  service_key, node_info_key, parameter_key, diagnostic_key, log_key,
}

-- What is named by a key.
pub data Subject : Type 0 where
  topic service node_info diagnostic log : Text → Subject
  parameter : Text → Text → Subject

unfoldable pub key : KeyBuilder → Subject → Text
key b (topic n) = topic_key b n
key b (service n) = service_key b n
key b (node_info n) = node_info_key b n
key b (diagnostic n) = diagnostic_key b n
key b (log n) = log_key b n
key b (parameter n p) = parameter_key b n p

pub data Family : Type 0 where
  topics services nodes diagnostics logs : Family

pub family : Subject → Family
family (topic n) = topics
family (service n) = services
family (node_info n) = nodes
family (diagnostic n) = diagnostics
family (log n) = logs
family (parameter n p) = nodes

letter : Family → ℕ
letter topics = b't'
letter services = b's'
letter nodes = b'n'
letter diagnostics = b'd'
letter logs = b'l'

append_cancel {ℓ} : {A : Type ℓ} (xs ys zs : List A) → xs ++ ys ≡ xs ++ zs → ys ≡ zs
append_cancel [] ys zs h = h
append_cancel (x ∷ xs) ys zs h = append_cancel xs ys zs (cc h)

-- Each key is the prefix and a text whose second character tells the family.
key_rest :
    (b : KeyBuilder) (s : Subject)
    → (rest : Text) × (key b s ≡ prefix b ++ rest) × (get_elem? rest 1 ≡ some (letter (family s)))
unfolding key topic_key service_key node_info_key diagnostic_key log_key parameter_key letter family
    codes
key_rest b (topic n) = (_, refl, refl)
key_rest b (service n) = (_, refl, refl)
key_rest b (node_info n) = (_, refl, refl)
key_rest b (diagnostic n) = (_, refl, refl)
key_rest b (log n) = (_, refl, refl)
key_rest b (parameter n p) = (_, refl, refl)

letter_injective : (f g : Family) → letter f ≡ letter g → f ≡ g
unfolding letter
letter_injective f g h = ground arith

-- Two keys of one builder are equal only within a family: topics, services, nodes, diagnostics and
-- logs never share a key.
pub key-family : (b : KeyBuilder) (s t : Subject) → key b s ≡ key b t → family s ≡ family t
key-family b s t h =
    let (r, e, l) = key_rest b s in
    let (r', e', l') = key_rest b t in
    let same : r ≡ r' = append_cancel (prefix b) r r' (sym e ∙ h ∙ e') in
    letter_injective (family s) (family t) (cc (l, l', same))

abbrev pub HasNoDot : Text → Type 0
HasNoDot s = All (λ c. c ≢ b'.') s

abbrev pub starts_slash : Text → Bool
starts_slash [] = false
starts_slash (c ∷ s) = c == b'/'

pub ends_slash : Text → Bool
ends_slash [] = false
ends_slash (c ∷ []) = c == b'/'
ends_slash (c ∷ d ∷ s) = ends_slash (d ∷ s)

pub map_no_dot : (s : Text) → HasNoDot s → map slash_for_dot s ≡ s
map_no_dot [] h = refl
map_no_dot (c ∷ s) h = ground (arith, h.0, map_no_dot s h.1)

strip_front-HasNoDot : (s : Text) → HasNoDot s → HasNoDot (strip_front s)
unfolding strip_front
strip_front-HasNoDot [] h = tt
strip_front-HasNoDot (c ∷ s) h = elim (Bool-cases (c == b'/')) [
  | inl e ↦ rw e (strip_front-HasNoDot s h.1)
  | inr e ↦ rw e h
]

strip_back-HasNoDot : (s : Text) → HasNoDot s → HasNoDot (strip_back s)
unfolding strip_back
strip_back-HasNoDot [] h = tt
strip_back-HasNoDot (c ∷ s) h = elim (Bool-cases (is_empty (strip_back s) && c == b'/')) [
  | inl e ↦ rw e tt
  | inr e ↦ rw e (h.0, strip_back-HasNoDot s h.1)
]

strip_back_idem : (s : Text) → strip_back (strip_back s) ≡ strip_back s
unfolding strip_back
strip_back_idem [] = refl
strip_back_idem (c ∷ s) = elim (Bool-cases (is_empty (strip_back s) && c == b'/')) [
  | inl e ↦ rw e refl
  | inr e ↦ rw e (rw (strip_back_idem s) (rw e refl))
]

strip_front-strip_back :
    (s : Text) → strip_front (strip_back (strip_front s)) ≡ strip_back (strip_front s)
unfolding strip_front strip_back
strip_front-strip_back [] = refl
strip_front-strip_back (c ∷ s) = elim (Bool-cases (c == b'/')) [
  | inl e ↦ rw e (strip_front-strip_back s)
  | inr e ↦ rw e (ground (arith, e))
]

-- The ends of a stripped text.
strip_ends : (s : Text) → ends_slash (strip_back s) ≡ false
unfolding strip_back ends_slash
strip_ends [] = refl
strip_ends (c ∷ s) = go (strip_back s) (strip_ends s)
  where
    go :
        (r : Text)
        → ends_slash r ≡ false
        → ends_slash (if is_empty r && c == b'/' then [] else c ∷ r) ≡ false
    go [] h = ground arith
    go (d ∷ r) h = ground (arith, h)

strip_starts : (s : Text) → starts_slash (strip_front s) ≡ false
unfolding strip_front
strip_starts [] = refl
strip_starts (c ∷ s) = ground (arith, strip_starts s)

-- A name with no dot is normalised to a text that neither begins nor ends with a slash and that is
-- left as it is when it is normalised again.
pub normalize_name_no_dot :
    (s : Text)
    → HasNoDot s
    → (starts_slash (normalize_name s) ≡ false)
      × (ends_slash (normalize_name s) ≡ false)
      × (normalize_name (normalize_name s) ≡ normalize_name s)
unfolding normalize_name
normalize_name_no_dot s h =
    let front = strip_front-HasNoDot s h in
    let e = map_no_dot (strip_back (strip_front s)) (strip_back-HasNoDot (strip_front s) front) in
    rw e (
      rw (← strip_front-strip_back s) (strip_starts (strip_back (strip_front s))),
      strip_ends (strip_front s),
      ap (λ t. map slash_for_dot (strip_back t)) (strip_front-strip_back s)
          ∙ ap (map slash_for_dot) (strip_back_idem (strip_front s))
          ∙ e,
    )
