-- ===== src/Trigger/Stored.antt =====
-- The stored family policies (internal/core/context_policy.go, loadContextPolicy, ContextPolicy and
-- familyContextPolicy). A value of a row that is no integer is `other`.
use koinon.Base.{
  ℕ, ◌≡◌, refl, sym, Bool, true, Option, none, some, List, [], ◌++◌, GoString, bytes, str_eq,
  str_eq_iff, ◌==◌, if◌then◌else◌, first_row, first_row-In, In-map, subst, ◌∙◌, ◌⊎◌, Bool-cases,
  inl, inr, map,
}
use koinon.Int64.{lt64}
use koinon.Claims.Cycles.{supported_families}
use koinon.Trigger.Policy.{
  Policy, observe_mode, native_compaction, handoff_cycle, default_policy, known_mode, valid_policy,
}

pub data Value : Type 0 where
  integer : ℕ → Value
  other : Value

-- a row of settings
pub record Setting : Type 0 where
  pub name : GoString
  pub value : Value

-- a family's policy and the error that it names
pub record FamilyPolicy : Type 0 where
  pub policy : Policy
  pub error : GoString

unfoldable pub is_setting : GoString → Setting → Bool
is_setting name s = str_eq s.name name

unfoldable pub stored : List Setting → GoString → Option Value
stored settings name = elim (first_row (is_setting name) settings) [
  | none ↦ none
  | some s ↦ some s.value
]

-- contextModeValues, from the value to the mode
unfoldable pub mode_of : ℕ → GoString
mode_of value =
    if value == 0
    then observe_mode
    else if value == 1
    then native_compaction
    else if value == 2
    then handoff_cycle
    else []

abbrev pub invalid_policy : GoString → FamilyPolicy
invalid_policy family = record {
  policy = default_policy family;
  error = bytes "stored_value_invalid";
}

-- a family's policy from its two stored values
unfoldable pub load_family : GoString → Option Value → Option Value → FamilyPolicy
load_family family none none = record { policy = default_policy family; error = [] }
load_family family (some (integer m)) (some (integer threshold)) =
    if valid_policy family (mode_of m) threshold
    then record {
      policy = record { family = family; mode = mode_of m; threshold = threshold };
      error = [];
    }
    else invalid_policy family
load_family family _ _ = invalid_policy family

unfoldable pub load_one : List Setting → GoString → FamilyPolicy
load_one settings family =
    load_family family (stored settings (bytes "context_mode_" ++ family))
      (stored settings (bytes "context_threshold_" ++ family))

-- loadContextPolicy, and ContextPolicy after it
unfoldable pub load_policy : List Setting → List FamilyPolicy
load_policy settings = map (load_one settings) supported_families

unfoldable pub is_family : GoString → FamilyPolicy → Bool
is_family family p = str_eq p.policy.family family

-- familyContextPolicy
unfoldable pub family_policy : List FamilyPolicy → GoString → FamilyPolicy
family_policy policies family = elim (first_row (is_family family) policies) [
  | none ↦ record { policy = default_policy family; error = [] }
  | some p ↦ p
]

-- A valid policy of the family, which is the default where an error is named.
pub record IsInForce (family : GoString) (p : FamilyPolicy) : Type 0 where
  pub of_family : p.policy.family ≡ family
  pub valid : valid_policy family p.policy.mode p.policy.threshold ≡ true
  pub replaced : (p.error ≡ []) ⊎ (p.policy ≡ default_policy family)

default_policy-valid :
    (family : GoString)
    → valid_policy family (default_policy family).mode (default_policy family).threshold ≡ true
unfolding default_policy valid_policy known_mode lt64
default_policy-valid family = elim (Bool-cases (str_eq family (bytes "claude"))) [
  | inl c ↦ rw c (unfold str_eq in refl)
  | inr c ↦ elim (Bool-cases (str_eq family (bytes "codex"))) [
    | inl d ↦ rw (c, d) (unfold str_eq in refl)
    | inr d ↦ rw (c, d) (unfold str_eq in refl)
  ]
]

default-IsInForce :
    (family error : GoString)
    → IsInForce family (record { policy = default_policy family; error = error })
default-IsInForce family error = record {
  of_family = unfold default_policy in refl;
  valid = default_policy-valid family;
  replaced = inr refl;
}

load_family-IsInForce :
    (family : GoString) (m t : Option Value) → IsInForce family (load_family family m t)
unfolding load_family
load_family-IsInForce family none none = default-IsInForce family []
load_family-IsInForce family none (some v) = default-IsInForce family (bytes "stored_value_invalid")
load_family-IsInForce family (some (integer m)) none =
    default-IsInForce family (bytes "stored_value_invalid")
load_family-IsInForce family (some other) none =
    default-IsInForce family (bytes "stored_value_invalid")
load_family-IsInForce family (some (integer m)) (some (integer t)) =
    elim (Bool-cases (valid_policy family (mode_of m) t)) [
      | inl e ↦ rw e (record { of_family = refl; valid = e; replaced = inl refl })
      | inr e ↦ rw e (default-IsInForce family (bytes "stored_value_invalid"))
    ]
load_family-IsInForce family (some (integer m)) (some other) =
    default-IsInForce family (bytes "stored_value_invalid")
load_family-IsInForce family (some other) (some v) =
    default-IsInForce family (bytes "stored_value_invalid")

-- Whatever the settings hold, the policy in force of any family, supported or not, is that
-- family's, is valid, and is the default where it names an error.
pub family_policy-IsInForce :
    (settings : List Setting) (family : GoString)
    → IsInForce family (family_policy (load_policy settings) family)
unfolding family_policy load_policy load_one
family_policy-IsInForce settings family =
    by_row (first_row (is_family family) (load_policy settings)) refl
  where
    by_row :
        (o : Option FamilyPolicy)
        → first_row (is_family family) (load_policy settings) ≡ o
        → IsInForce family
            (elim o [ none ↦ record { policy = default_policy family; error = [] } | some p ↦ p ])
    by_row none e = default-IsInForce family []
    by_row (some p) e =
        let (i, f) = first_row-In (is_family family) p (load_policy settings) e in
        let (g, _, q) = In-map (load_one settings) p supported_families i in
        let k =
          load_family-IsInForce g (stored settings (bytes "context_mode_" ++ g))
            (stored settings (bytes "context_threshold_" ++ g)) in
        let l : IsInForce g p = subst (IsInForce g) (sym q) k in
        let same : p.policy.family ≡ family =
          unfold is_family in (let w = str_eq_iff p.policy.family family in w.0 f) in
        subst (λ x. IsInForce x p) (sym l.of_family ∙ same) l
