-- ===== src/Launch/Expansion.antt =====
-- system/launch_manager/launch_config.cpp: what ReplaceAll does.
use openember.Prelude.{
  ℕ, zero, suc, ◌+◌, ◌≤◌, ◌≡◌, refl, sym, ap, ◌∙◌, Bool-cases, inl, inr, [], ◌∷◌, ◌++◌, Option,
  none, some, arith, if◌then◌else◌, take, drop, length,
}
use openember.Prelude.Text.{Text, starts_with}
use openember.Launch.Config.{find_text, replace_rounds, replace_all}
use mathlib.Core.Option

module _ (c : ℕ) (cs to : Text) where
  abbrev pub from : Text
  from = c ∷ cs

  -- The text with every occurrence of `from` replaced, read from left to right: after an occurrence,
  -- as many bytes are passed over as it has left.
  abbrev pub scan : ℕ → Text → Text
  scan k [] = []
  scan zero (x ∷ s) = if starts_with (x ∷ s) from then to ++ scan (length cs) s else x ∷ scan zero s
  scan (suc k) (x ∷ s) = scan k s

  scan-drop : (k : ℕ) (s : Text) → scan k s ≡ scan zero (drop k s)
  scan-drop zero [] = refl
  scan-drop zero (x ∷ s) = refl
  scan-drop (suc k) [] = refl
  scan-drop (suc k) (x ∷ s) = scan-drop k s

  -- The text up to the first occurrence stays.
  abbrev cut : Text → Option ℕ → Text
  cut s none = s
  cut s (some i) = take i s ++ to ++ scan zero (drop (i + length from) s)

  cut-map : (x : ℕ) (s : Text) (o : Option ℕ) → cut (x ∷ s) (Option.map suc o) ≡ x ∷ cut s o
  cut-map x s none = refl
  cut-map x s (some i) =
      let next : suc i + suc (length cs) ≡ suc (i + suc (length cs)) = omega arith in
      ap (λ n. x ∷ take i s ++ to ++ scan zero (drop n (x ∷ s))) next

  scan-cut : (s : Text) → scan zero s ≡ cut s (find_text from s)
  unfolding find_text starts_with
  scan-cut [] = refl
  scan-cut (x ∷ s) = elim (Bool-cases (starts_with (x ∷ s) from)) [
    | inl e ↦
        let past : suc (length cs) ≡ 0 + suc (length cs) = omega arith in
        rw e (
          ap (λ t. to ++ t) (scan-drop (length cs) s)
          ∙ ap (λ n. to ++ scan zero (drop n (x ∷ s))) past)
    | inr e ↦ rw e (ap (λ t. x ∷ t) (scan-cut s) ∙ sym (cut-map x s (find_text from s)))
  ]

  length-drop : (n f : ℕ) (s : Text) → length s ≤ f → length (drop n s) ≤ f
  length-drop zero f s h = h
  length-drop (suc n) f [] h = h
  length-drop (suc n) f (x ∷ s) h = length-drop n f s (omega arith)

  shorter : (n f : ℕ) (s : Text) → length s ≤ suc f → length (drop (suc n) s) ≤ f
  shorter n f [] h = omega arith
  shorter n f (x ∷ s) h = length-drop n f s (omega arith)

  round_cut :
      (rest : Text → Text) (s : Text) (o : Option ℕ)
      → ((n : ℕ) → rest (drop (suc n) s) ≡ scan zero (drop (suc n) s))
      → (elim o [ none ↦ s | some i ↦ take i s ++ to ++ rest (drop (i + length from) s) ]) ≡ cut s o
  round_cut rest s none h = refl
  round_cut rest s (some i) h =
      let past : i + length from ≡ suc (i + length cs) = omega arith in
      rw past (ap (λ t. take i s ++ to ++ t) (h (i + length cs)))

  replace_rounds-scan : (f : ℕ) (s : Text) → length s ≤ f → replace_rounds f from to s ≡ scan zero s
  unfolding replace_rounds
  replace_rounds-scan zero [] h = refl
  replace_rounds-scan zero (x ∷ s) h = absurd (omega arith)
  replace_rounds-scan (suc f) s h =
      round_cut (replace_rounds f from to) s (find_text from s)
        (λ n. replace_rounds-scan f (drop (suc n) s) (shorter n f s h))
      ∙ sym (scan-cut s)

  -- ReplaceAll of a nonempty text gives the text with every occurrence replaced that a reading from
  -- left to right meets, where the replacement is not read again; its loop ends.
  pub replace_all-scan : (s : Text) → replace_all s from to ≡ scan zero s
  unfolding replace_all
  replace_all-scan s = replace_rounds-scan (suc (length s)) s (omega arith)
