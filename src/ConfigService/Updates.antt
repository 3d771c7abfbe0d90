-- ===== src/ConfigService/Updates.antt =====
-- system/config_service/main.cpp: Set against a store that is a function of the name, and what no
-- request can change.
use openember.Prelude.{
  ℕ, ◌≡◌, refl, sym, ap, ◌∙◌, true, false, Bool-cases, inl, inr, List, [], ◌∷◌, Option, none, some,
  arith, if◌then◌else◌, All, map, ◌↔◌,
}
use openember.Prelude.Text.{Text, text_eq, text_eq→eq, is_empty, text_eq_refl}
use openember.Prelude.Map.{lookup, insert, lookup-insert}
use openember.Messages.{Header}
use openember.ConfigService.Store.{
  Parameter, Store, name_of, put, refusal, put_all, set_parameters, get_named, get_parameters,
  is_read_only, set_unless,
}
use openember.ConfigService.Handlers.{
  SetRequest, Service, handle_get, handle_set, Request, gets, sets, serve, serve_all,
}

-- A store as a function of the name.
abbrev pub View : Type 0
View = Text → Option Parameter

abbrev pub view : Store → View
view store name = lookup name store

-- The parameters put over a store, the last one of a name counts.
unfoldable pub overlay : View → List Parameter → View
overlay v [] = v
overlay v (p ∷ ps) = overlay (λ name. if text_eq name (name_of p) then some p else v name) ps

-- The parameters that Set must refuse: with no name, or under the name of a read-only one.
abbrev pub IsAllowed : View → Parameter → Type 0
IsAllowed v p = (is_empty (name_of p) ≡ false) × (is_read_only (v (name_of p)) ≡ false)

overlay_ext :
    (ps : List Parameter) (v w : View)
    → ((name : Text) → v name ≡ w name)
    → (name : Text) → overlay v ps name ≡ overlay w ps name
unfolding overlay
overlay_ext [] v w h name = h name
overlay_ext (p ∷ ps) v w h name =
    overlay_ext ps (λ n. if text_eq n (name_of p) then some p else v n)
      (λ n. if text_eq n (name_of p) then some p else w n) (λ n. ground (arith, h n)) name

overlay_skip :
    (name : Text) (v : View) (ps : List Parameter)
    → All (λ q. text_eq name (name_of q) ≡ false) ps
    → overlay v ps name ≡ v name
unfolding overlay
overlay_skip name v [] h = refl
overlay_skip name v (p ∷ ps) h =
    let w : View = λ n. if text_eq n (name_of p) then some p else v n in
    overlay_skip name w ps h.1 ∙ ground (arith, h.0)

view-put_all :
    (ps : List Parameter) (store : Store) (name : Text)
    → view (put_all ps store) name ≡ overlay (view store) ps name
unfolding put_all put overlay
view-put_all [] store name = refl
view-put_all (p ∷ ps) store name =
    view-put_all ps (insert (name_of p) p store) name
    ∙ overlay_ext ps (view (insert (name_of p) p store))
        (λ n. if text_eq n (name_of p) then some p else view store n)
        (λ n. lookup-insert n (name_of p) p store) name

refusal-none :
    (store : Store) (ps : List Parameter)
    → refusal store ps ≡ none
    → All (IsAllowed (view store)) ps
unfolding refusal
refusal-none store [] h = tt
refusal-none store (p ∷ ps) h = ground (arith, refusal-none store ps)

allowed-refusal :
    (store : Store) (ps : List Parameter)
    → All (IsAllowed (view store)) ps
    → refusal store ps ≡ none
unfolding refusal
allowed-refusal store [] h = refl
allowed-refusal store (p ∷ ps) h = ground (arith, allowed-refusal store ps h.1)

-- Set is all or nothing. It accepts exactly if every parameter has a name under which the store
-- holds no read-only parameter. Then it reports all of them as changed, and the store, as a function
-- of the name, is the old one with the parameters put over it in their order; else it reports none,
-- and leaves the store.
pub set_parameters_lem :
    (ps : List Parameter) (store : Store)
    → let r = set_parameters ps store in
      (r.done ≡ true ↔ All (IsAllowed (view store)) ps)
      × (r.done ≡ true
          → (r.changed ≡ ps) × ((name : Text) → view r.store name ≡ overlay (view store) ps name))
      × (r.done ≡ false → (r.changed ≡ []) × (r.store ≡ store))
unfolding set_parameters
set_parameters_lem ps store = (
  (
    λ h. refusal-none store ps (accepted (refusal store ps) h),
    λ h. ground (arith, allowed-refusal store ps h),
  ),
  changes (refusal store ps),
  keeps (refusal store ps),
)
  where
    changes :
        (o : Option Text)
        → (set_unless ps store o).done ≡ true
        → ((set_unless ps store o).changed ≡ ps)
          × ((name : Text) → view (set_unless ps store o).store name ≡ overlay (view store) ps name)
    changes none h = (refl, view-put_all ps store)
    changes (some m) h = cc h

    keeps :
        (o : Option Text)
        → (set_unless ps store o).done ≡ false
        → ((set_unless ps store o).changed ≡ []) × ((set_unless ps store o).store ≡ store)
    keeps none h = cc h
    keeps (some m) h = (refl, refl)

    accepted : (o : Option Text) → (set_unless ps store o).done ≡ true → o ≡ none
    accepted none h = refl
    accepted (some m) h = cc h

module _ (k : Text) (p : Parameter) (locked : p.definition.read_only ≡ true) where
  allowed_apart :
      (v : View) (ps : List Parameter)
      → v k ≡ some p
      → All (IsAllowed v) ps
      → All (λ q. text_eq k (name_of q) ≡ false) ps
  allowed_apart v [] h a = tt
  allowed_apart v (q ∷ ps) h a = (
    elim (Bool-cases (text_eq k (name_of q))) [
      | inl e ↦
          let same : v (name_of q) ≡ some p = ap v (sym (text_eq→eq k (name_of q) e)) ∙ h in
          absurd (cc (a.0.1, ap is_read_only same, locked))
      | inr e ↦ e
    ],
    allowed_apart v ps h a.1,
  )

  set_parameters-locked :
      (ps : List Parameter) (store : Store)
      → view store k ≡ some p
      → view (set_parameters ps store).store k ≡ some p
  set_parameters-locked ps store h =
      let (iff, changes, keeps) = set_parameters_lem ps store in
      elim (Bool-cases (set_parameters ps store).done) [
        | inl e ↦
            (changes e).1 k
            ∙ overlay_skip k (view store) ps (allowed_apart (view store) ps h (iff.0 e))
            ∙ h
        | inr e ↦ ap (λ (m : Store). view m k) (keeps e).1 ∙ h
      ]

  serve-locked :
      (r : Request) (s : Service) → view s.store k ≡ some p → view (serve r s).store k ≡ some p
  unfolding serve handle_get handle_set
  serve-locked (gets now request) s h = h
  serve-locked (sets now request) s h =
      ground (arith, set_parameters-locked request.parameters s.store h)

  -- No sequence of requests changes a read-only parameter of the store.
  pub serve_all-locked :
      (rs : List Request) (s : Service)
      → view s.store k ≡ some p
      → view (serve_all rs s).store k ≡ some p
  unfolding serve_all
  serve_all-locked [] s h = h
  serve_all-locked (r ∷ rs) s h = serve_all-locked rs (serve r s) (serve-locked r s h)

-- No two parameters have one name.
abbrev pub HasDistinctNames : List Parameter → Type 0
HasDistinctNames [] = Unit
HasDistinctNames (p ∷ ps) =
    All (λ q. text_eq (name_of p) (name_of q) ≡ false) ps × HasDistinctNames ps

overlay_own :
    (v : View) (ps : List Parameter)
    → HasDistinctNames ps
    → All (λ p. overlay v ps (name_of p) ≡ some p) ps
unfolding overlay
overlay_own v [] h = tt
overlay_own v (p ∷ ps) h =
    let w : View = λ n. if text_eq n (name_of p) then some p else v n in
    (
      overlay_skip (name_of p) w ps h.0 ∙ ground (arith, text_eq_refl (name_of p)),
      overlay_own w ps h.1,
    )

get_named_own :
    (store : Store) (ps : List Parameter)
    → All (λ p. view store (name_of p) ≡ some p) ps
    → get_named store (map name_of ps) ≡ ps
unfolding get_named
get_named_own store [] h = refl
get_named_own store (p ∷ ps) h = rw h.0 (ap (λ qs. p ∷ qs) (get_named_own store ps h.1))

get_parameters-names :
    (store : Store) (p : Parameter) (ps : List Parameter)
    → get_parameters store (map name_of (p ∷ ps)) ≡ get_named store (map name_of (p ∷ ps))
unfolding get_parameters
get_parameters-names store p ps = refl

All-views :
    (v w : View) (ps : List Parameter)
    → ((name : Text) → v name ≡ w name)
    → All (λ p. w (name_of p) ≡ some p) ps
    → All (λ p. v (name_of p) ≡ some p) ps
All-views v w [] h k = tt
All-views v w (p ∷ ps) h k = (h (name_of p) ∙ k.0, All-views v w ps h k.1)

store-handle_set :
    (now : ℕ) (request : SetRequest) (s : Service)
    → (handle_set now request s).1.store ≡ (set_parameters request.parameters s.store).store
unfolding handle_set
store-handle_set now request s = ground arith

accepted-handle_set :
    (now : ℕ) (request : SetRequest) (s : Service)
    → (handle_set now request s).0.status.code ≡ 0
    → (set_parameters request.parameters s.store).done ≡ true
unfolding handle_set
accepted-handle_set now request s h = ground (arith, h)

-- What a request sets, the next one gets: if the service accepts a request to set some parameters
-- of distinct names, then a request for these names is answered by exactly these parameters.
pub handle_get-set :
    (now later : ℕ) (header : Header) (request : SetRequest) (s : Service) (p : Parameter)
    (ps : List Parameter)
    → request.parameters ≡ p ∷ ps
    → HasDistinctNames (p ∷ ps)
    → (handle_set now request s).0.status.code ≡ 0
    → (handle_get later
        (record { header = header; names = map name_of (p ∷ ps) })
        (handle_set now request s).1).0.parameters
      ≡ p ∷ ps
unfolding handle_get
handle_get-set now later header request s p ps e d h =
    let qs = p ∷ ps in
    let store = (handle_set now request s).1.store in
    let changes =
      (set_parameters_lem request.parameters s.store).1 (accepted-handle_set now request s h) in
    let same : (name : Text) → view store name ≡ overlay (view s.store) qs name = λ name.
      (ap (λ (m : Store). view m name) (store-handle_set now request s)
        ∙ changes.1 name
        ∙ ap (λ rs. overlay (view s.store) rs name) e) in
    get_parameters-names store p ps
    ∙ get_named_own store qs (
        All-views (view store) (overlay (view s.store) qs) qs same
          (overlay_own (view s.store) qs d))
