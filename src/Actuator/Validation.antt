-- ===== src/Actuator/Validation.antt =====
-- components/actuator/src/mock_joint_controller.cpp: which commands ValidateCommandLocked accepts.
use openember.Prelude.{
  ℕ, zero, suc, ◌+◌, ◌≡◌, ◌≢◌, ◌⊎◌, inl, inr, ◌==◌, refl, sym, ap, ◌∙◌, subst, Bool-cases, Bool,
  true, false, not, ◌&&◌, ◌||◌, List, [], ◌∷◌, Option, none, some, arith, if◌then◌else◌, All,
}
use openember.Prelude.Text.{Text, codes, is_empty, text_eq, text_eq→eq, text_eq_refl}
use openember.Actuator.Joint.{
  Double, JointControlMode, unspecified, disabled, Outcome, success, JointInfo, JointCommandItem,
  JointCommand,
}
use openember.Actuator.Command.{
  invalid, is_disabled, is_unspecified, contains, matches, find_joint_index, has_control,
  validate_item, validate_items, validate_command,
}

abbrev pub HasNoRepeats : List ℕ → Type 0
HasNoRepeats [] = Unit
HasNoRepeats (i ∷ is) = (contains i is ≡ false) × HasNoRepeats is

later_fresh :
    (i : ℕ) (seen is : List ℕ)
    → All (λ j. contains j (i ∷ seen) ≡ false) is
    → (contains i is ≡ false) × All (λ j. contains j seen ≡ false) is
unfolding contains
later_fresh i seen [] h = (refl, tt)
later_fresh i seen (j ∷ is) h =
    let (e, k) = later_fresh i seen is h.1 in (ground (arith, h.0, e), (ground (arith, h.0), k))

passes :
    (b : Bool) (text : Text) (r : Outcome)
    → (if b then invalid text else r) ≡ success
    → (b ≡ false) × (r ≡ success)
passes true text r h = cc h
passes false text r h = (refl, h)

is_disabled-eq : (m : JointControlMode) → is_disabled m ≡ true → m ≡ disabled
is_disabled-eq m h = ground (arith, h)

enabled :
    (a b c d e : Bool)
    → not (a || b || c || d || e) ≡ false
    → (a ≡ true) ⊎ (b ≡ true) ⊎ (c ≡ true) ⊎ (d ≡ true) ⊎ (e ≡ true)
enabled a b c d e h = ground (arith, h)

not_empty : (t : Text) → t ≢ [] → is_empty t ≡ false
not_empty [] h = absurd (h refl)
not_empty (c ∷ t) h = refl

module _ (double : Double) where
  open double use {less, zero_real}

  -- An item names a joint by its id, where it gives one, or by its name, where it gives one.
  abbrev pub Names : JointCommandItem double → JointInfo double → Type 0
  Names item joint =
      ((item.joint_id ≢ 0) × (item.joint_id ≡ joint.joint_id))
      ⊎ ((item.joint_name ≢ []) × (item.joint_name ≡ joint.joint_name))

  -- The joint at a place is the first one that an item names.
  abbrev pub IsFirstNamed : ℕ → List (JointInfo double) → JointCommandItem double → Type 0
  IsFirstNamed i [] item = ⊥
  IsFirstNamed zero (joint ∷ joints) item = Names item joint
  IsFirstNamed (suc i) (joint ∷ joints) item = (¬ Names item joint) × IsFirstNamed i joints item

  -- Each item names the joint at its place.
  abbrev pub AllNamed : List (JointInfo double) → List ℕ → List (JointCommandItem double) → Type 0
  AllNamed joints [] [] = Unit
  AllNamed joints [] (item ∷ items) = ⊥
  AllNamed joints (i ∷ is) [] = ⊥
  AllNamed joints (i ∷ is) (item ∷ items) = IsFirstNamed i joints item × AllNamed joints is items

  -- One of the five fields that an item can enable is enabled.
  abbrev pub Enables : JointCommandItem double → Type 0
  Enables item =
      (item.position_enabled ≡ true)
      ⊎ (item.velocity_enabled ≡ true)
      ⊎ (item.effort_enabled ≡ true)
      ⊎ (item.stiffness_enabled ≡ true)
      ⊎ (item.damping_enabled ≡ true)

  abbrev pub IsSound : JointCommandItem double → Type 0
  IsSound item =
      (item.mode ≢ unspecified)
      × ((item.mode ≡ disabled) ⊎ Enables item)
      × (less item.max_effort_nm zero_real ≡ false)
      × (less item.stiffness_nm_per_rad zero_real ≡ false)
      × (less item.damping_nms_per_rad zero_real ≡ false)

  matches-Names :
      (item : JointCommandItem double) (joint : JointInfo double)
      → matches double item joint ≡ true
      → Names item joint
  matches-Names item joint h =
      elim (Bool-cases (not (item.joint_id == 0) && item.joint_id == joint.joint_id)) [
        | inl e ↦ inl (ground (arith, e), ground (arith, e))
        | inr e ↦ inr (
          λ z.
              let given : is_empty item.joint_name ≡ false = ground (arith, h, e) in
              cc (given, ap (λ t. is_empty t) z),
          text_eq→eq item.joint_name joint.joint_name (ground (arith, h, e)),
        )
      ]

  not_matches-Names :
      (item : JointCommandItem double) (joint : JointInfo double)
      → matches double item joint ≡ false
      → ¬ Names item joint
  not_matches-Names item joint h (inl (a, b)) = ground (arith, h, a, b)
  not_matches-Names item joint h (inr (a, b)) =
      let same = ap (λ t. text_eq item.joint_name t) (sym b) ∙ text_eq_refl item.joint_name in
      let given = not_empty item.joint_name a in ground (arith, h, same, given)

  find_joint_index-IsFirstNamed :
      (i : ℕ) (joints : List (JointInfo double)) (item : JointCommandItem double) (j : ℕ)
      → find_joint_index double i joints item ≡ some j
      → (d : ℕ) × (j ≡ i + d) × IsFirstNamed d joints item
  unfolding find_joint_index
  find_joint_index-IsFirstNamed i [] item j h = cc h
  find_joint_index-IsFirstNamed i (joint ∷ joints) item j h =
      go (matches double item joint) refl (find_joint_index-IsFirstNamed (suc i) joints item j) h
    where
      go :
          (b : Bool) {rest : Option ℕ}
          → matches double item joint ≡ b
          → (rest ≡ some j → (d : ℕ) × (j ≡ suc i + d) × IsFirstNamed d joints item)
          → (if b then some i else rest) ≡ some j
          → (d : ℕ) × (j ≡ i + d) × IsFirstNamed d (joint ∷ joints) item
      go true m k e = let same : i ≡ j = cc e in (0, omega arith, matches-Names item joint m)
      go false m k e =
          let (d, l, f) = k e in (suc d, omega arith, (not_matches-Names item joint m, f))

  item_sound :
      (item : JointCommandItem double)
      → is_unspecified item.mode ≡ false
      → not (is_disabled item.mode) && not (has_control double item) ≡ false
      → (item.mode ≢ unspecified) × ((item.mode ≡ disabled) ⊎ Enables item)
  item_sound item a b = (
    λ e. cc (ap (λ m. is_unspecified m) e, a),
    elim (Bool-cases (is_disabled item.mode)) [
      | inl e ↦ inl (is_disabled-eq item.mode e)
      | inr e ↦ inr (
          enabled item.position_enabled item.velocity_enabled item.effort_enabled
            item.stiffness_enabled item.damping_enabled (ground (arith, b, e)))
    ],
  )

  item-IsSound :
      (item : JointCommandItem double) (rest : Outcome)
      → validate_item double item rest ≡ success
      → IsSound item × (rest ≡ success)
  item-IsSound item rest h =
      let (a, h₁) = passes (is_unspecified item.mode) _ _ h in
      let (b, h₂) = passes (not (is_disabled item.mode) && not (has_control double item)) _ _ h₁ in
      let (d, h₃) =
        passes
          (less item.max_effort_nm zero_real
            || less item.stiffness_nm_per_rad zero_real
            || less item.damping_nms_per_rad zero_real)
          (codes "joint command limit must be >= 0") rest h₂ in
      let (mode, control) = item_sound item a b in
      ((mode, control, ground (arith, d), ground (arith, d), ground (arith, d)), h₃)

  -- The items name joints, which have no repeats and are not among those seen, and are sound.
  abbrev pub IsAccepted : List (JointInfo double) → List ℕ → List (JointCommandItem double) → Type 0
  IsAccepted joints seen items =
      (is : List ℕ) × AllNamed joints is items
      × HasNoRepeats is
      × All (λ i. contains i seen ≡ false) is
      × All IsSound items

  validate_items-IsAccepted :
      (joints : List (JointInfo double)) (seen : List ℕ) (items : List (JointCommandItem double))
      → validate_items double joints seen items ≡ success
      → IsAccepted joints seen items
  unfolding validate_items
  validate_items-IsAccepted joints seen [] h = ([], tt, tt, tt, tt)
  validate_items-IsAccepted joints seen (item ∷ items) h =
      go (λ i. validate_items-IsAccepted joints (i ∷ seen) items)
        (find_joint_index double 0 joints item) refl h
    where
      go :
          ((i : ℕ)
            → validate_items double joints (i ∷ seen) items ≡ success
            → IsAccepted joints (i ∷ seen) items)
          → (o : Option ℕ) → find_joint_index double 0 joints item ≡ o
          → elim o [
            | none ↦ invalid (codes "unknown joint in command")
            | some i ↦
                let rest = validate_items double joints (i ∷ seen) items in
                if contains i seen
                then invalid (codes "duplicate joint in command")
                else validate_item double item rest
          ]
            ≡ success
          → IsAccepted joints seen (item ∷ items)
      go next none e k = cc k
      go next (some i) e k =
          let (fresh, k₁) = passes (contains i seen) _ _ k in
          let (sound, k₂) = item-IsSound item _ k₁ in
          let (is, m, n, f, s) = next i k₂ in
          let (c, f') = later_fresh i seen is f in
          let (d, same, first) = find_joint_index-IsFirstNamed 0 joints item i e in
          let place : d ≡ i = omega arith in
          let named = subst (λ j. IsFirstNamed j joints item) place first in
          (i ∷ is, (named, m), (c, n), (fresh, f'), (sound, s))

  -- If ValidateCommandLocked accepts a command, each of its items names a joint of the controller,
  -- by the joint's id if the item's is not 0 or by its name if the item's is not empty; the first
  -- joints so named are all different; and each item has a mode, one of its five fields enabled
  -- unless it disables its joint, and no maximal effort, stiffness or damping less than zero.
  pub validate_command-IsAccepted :
      (joints : List (JointInfo double)) (command : JointCommand double)
      → validate_command double joints command ≡ success
      → IsAccepted joints [] command.joints
  unfolding validate_command
  validate_command-IsAccepted joints command h =
      validate_items-IsAccepted joints [] command.joints h
