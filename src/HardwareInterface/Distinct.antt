-- ===== src/HardwareInterface/Distinct.antt =====
-- services/hardware_interface/src/hardware_config.cpp: the endpoints that are loaded are those of the file.
use openember.Prelude.{
  ℕ, suc, ◌≡◌, ◌↔◌, refl, sym, ap, ◌∙◌, false, List, [], ◌∷◌, ◌++◌, append-nil, append_assoc, arith,
  subst,
}
use openember.Prelude.Map.{text_eq_sym}
use openember.Prelude.Result.{
  Result, good, bad, ◌>>=◌, Holds, >>=-Holds, unless_refused, good_itself, Holds-good,
}
use openember.HardwareInterface.Endpoint.{EndpointConfig}
use openember.Prelude.Yaml.{Failure, Yaml}
use openember.HardwareInterface.Config.{parse_endpoint, has_endpoint, load_endpoints}
use openember.HardwareInterface.Loading.{
  IsDistinct, IsValid, has_endpoint-append, load_endpoints-IsValid,
}

module _ (yaml : Yaml) where
  open yaml use {Node, Real}

  -- Every endpoint, without a look at the others.
  abbrev pub parse_all : List Node → ℕ → Result Failure (List (EndpointConfig Real))
  parse_all [] i = good []
  parse_all (n ∷ ns) i = do c ← parse_endpoint yaml n i; cs ← parse_all ns (suc i); good (c ∷ cs)

  new_among :
      (seen cs : List (EndpointConfig Real)) (c : EndpointConfig Real)
      → IsDistinct yaml (seen ++ c ∷ cs)
      → has_endpoint yaml c.endpoint_id seen ≡ false
  unfolding has_endpoint
  new_among [] cs c h = refl
  new_among (d ∷ seen) cs c h = ground (
    arith,
    has_endpoint-append yaml d.endpoint_id seen (c ∷ cs),
    h.0,
    text_eq_sym c.endpoint_id d.endpoint_id,
    new_among seen cs c h.1,
  )

  -- What the loop returns besides what it has seen.
  abbrev IsParsed : List Node → ℕ → List (EndpointConfig Real) → List (EndpointConfig Real) → Type 0
  IsParsed ns i seen rs =
      (cs : List (EndpointConfig Real)) × (parse_all ns i ≡ good cs) × (rs ≡ seen ++ cs)

  load_endpoints-IsParsed :
      (ns : List Node) (i : ℕ) (seen : List (EndpointConfig Real))
      → Holds (IsParsed ns i seen) (load_endpoints yaml ns i seen)
  unfolding load_endpoints
  load_endpoints-IsParsed [] i seen = ([], refl, sym (append-nil seen))
  load_endpoints-IsParsed (n ∷ ns) i seen =
      >>=-Holds (λ c. parse_endpoint yaml n i ≡ good c) (IsParsed (n ∷ ns) i seen)
        (parse_endpoint yaml n i) _ (good_itself (parse_endpoint yaml n i))
        (λ c e.
          unless_refused (IsParsed (n ∷ ns) i seen) (has_endpoint yaml c.endpoint_id seen) _ _ (λ f.
            grown c e (load_endpoints yaml ns (suc i) (seen ++ c ∷ []))
              (load_endpoints-IsParsed ns (suc i) (seen ++ c ∷ []))))
    where
      grown :
          (c : EndpointConfig Real)
          → parse_endpoint yaml n i ≡ good c
          → (r : Result Failure (List (EndpointConfig Real)))
          → Holds (IsParsed ns (suc i) (seen ++ c ∷ [])) r
          → Holds (IsParsed (n ∷ ns) i seen) r
      grown c e (bad f) h = tt
      grown c e (good rs) (cs, p, same) =
          (c ∷ cs, rw (e, p) refl, same ∙ append_assoc seen (c ∷ []) cs)

  load_endpoints_distinct :
      (ns : List Node) (i : ℕ) (seen cs : List (EndpointConfig Real))
      → parse_all ns i ≡ good cs
      → IsDistinct yaml (seen ++ cs)
      → load_endpoints yaml ns i seen ≡ good (seen ++ cs)
  unfolding load_endpoints
  load_endpoints_distinct [] i seen cs p h =
      let none_left : [] ≡ cs = cc p in
      ap good (sym (append-nil seen) ∙ ap (λ ds. seen ++ ds) none_left)
  load_endpoints_distinct (n ∷ ns) i seen cs p h =
      parsed_step (λ c ds. load_endpoints_distinct ns (suc i) (seen ++ c ∷ []) ds)
        (parse_endpoint yaml n i) refl (parse_all ns (suc i)) refl p
    where
      parsed_step :
          ((c : EndpointConfig Real) (ds : List (EndpointConfig Real))
            → parse_all ns (suc i) ≡ good ds
            → IsDistinct yaml ((seen ++ c ∷ []) ++ ds)
            → load_endpoints yaml ns (suc i) (seen ++ c ∷ []) ≡ good ((seen ++ c ∷ []) ++ ds))
          → (m : Result Failure (EndpointConfig Real)) → parse_endpoint yaml n i ≡ m
          → (q : Result Failure (List (EndpointConfig Real))) → parse_all ns (suc i) ≡ q
          → (m >>= λ c. q >>= λ ds. good (c ∷ ds)) ≡ good cs
          → load_endpoints yaml (n ∷ ns) i seen ≡ good (seen ++ cs)
      parsed_step ih (bad f) e q g k = cc k
      parsed_step ih (good c) e (bad f) g k = cc k
      parsed_step ih (good c) e (good ds) g k =
          let same : c ∷ ds ≡ cs = cc k in
          let distinct : IsDistinct yaml (seen ++ c ∷ ds) =
            subst (λ xs. IsDistinct yaml (seen ++ xs)) (sym same) h in
          rw (e, new_among seen ds c distinct)
            (ih c ds g (subst (IsDistinct yaml) (sym (append_assoc seen (c ∷ []) ds)) distinct)
              ∙ ap good (append_assoc seen (c ∷ []) ds ∙ ap (λ xs. seen ++ xs) same))

  -- The endpoints of a file are loaded exactly if each of them can be parsed by itself and no two
  -- have one id, and then they are those endpoints in their order.
  pub load_endpoints_iff :
      (ns : List Node) (cs : List (EndpointConfig Real))
      → (load_endpoints yaml ns 0 [] ≡ good cs) ↔ (parse_all ns 0 ≡ good cs) × IsDistinct yaml cs
  load_endpoints_iff ns cs = (
    λ h.
        let parsed =
          Holds-good (IsParsed ns 0 []) (load_endpoints yaml ns 0 []) cs h
            (load_endpoints-IsParsed ns 0 []) in
        (
          parsed.1 ∙ ap good (sym parsed.2),
          (Holds-good (IsValid yaml) (load_endpoints yaml ns 0 []) cs h
              (load_endpoints-IsValid yaml ns 0 [] (tt, tt))).1,
        ),
    λ h. load_endpoints_distinct ns 0 [] cs h.0 h.1,
  )
