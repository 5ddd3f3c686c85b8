-- ===== src/Config/Settings/Validity.antt =====
-- What the validator of a configuration accepts.
use vshift.Base.{
  ◌≡◌, refl, ◌≤◌, String, true, false, List, [], ◌∷◌, map, arith, contains, string_eq, nat_eq,
  length, All, is_empty, inl, inr, Bool-cases,
}
use vshift.Base.Dict.{Dict, has_key}
use vshift.Base.Exec.{ok}
use vshift.Profile.{VshiftProfile}
use vshift.Config.Criteria.{MatchRule}
use vshift.Config.Settings.{
  VshiftConfig, NoMatchAction, no_match_action_eq, distinct, names_profile, check_rules,
  validate_config,
}

-- No text stands twice in the list.
abbrev pub NoRepeats : List String → Type 0
NoRepeats [] = Unit
NoRepeats (item ∷ items) = (contains items item ≡ false) × NoRepeats items

pub record IsValid (c : VshiftConfig) : Type 0 where
  pub has_profiles : is_empty c.profiles ≡ false
  pub default_known :
      c.behavior.no_match ≡ NoMatchAction.default_profile
      → names_profile c.behavior.default_profile c.profiles ≡ true
  pub ids_differ : NoRepeats (map (λ rule. rule.id) c.rules)
  pub profiles_known : All (λ rule. has_key rule.profile c.profiles ≡ true) c.rules

length-distinct-le : (items : List String) → length (distinct items) ≤ length items
length-distinct-le [] = omega arith
length-distinct-le (item ∷ items) = ground (arith, length-distinct-le items)

NoRepeats-of-length :
    (items : List String) → length items ≡ length (distinct items) → NoRepeats items
NoRepeats-of-length [] h = tt
NoRepeats-of-length (item ∷ items) h = elim (Bool-cases (contains items item)) [
  | inl again ↦ absurd (ground (arith, length-distinct-le items))
  | inr fresh ↦ (fresh, NoRepeats-of-length items (ground arith))
]

length_of_NoRepeats :
    (items : List String) → NoRepeats items → length items ≡ length (distinct items)
length_of_NoRepeats [] h = refl
length_of_NoRepeats (item ∷ items) h = ground (arith, length_of_NoRepeats items h.1)

module _ (profiles : Dict VshiftProfile) where
  check_rules-All :
      (rules : List MatchRule)
      → check_rules profiles rules ≡ ok tt
      → All (λ rule. has_key rule.profile profiles ≡ true) rules
  unfolding check_rules
  check_rules-All [] h = tt
  check_rules-All (rule ∷ rules) h = elim (Bool-cases (has_key rule.profile profiles)) [
    | inl known ↦ (known, check_rules-All rules (ground arith))
    | inr unknown ↦ absurd (ground arith)
  ]

  check_rules_ok :
      (rules : List MatchRule)
      → All (λ rule. has_key rule.profile profiles ≡ true) rules
      → check_rules profiles rules ≡ ok tt
  unfolding check_rules
  check_rules_ok [] h = refl
  check_rules_ok (rule ∷ rules) h = rw h.0 (check_rules_ok rules h.1)

-- The validator accepts a configuration exactly when it has a profile, its default profile (where
-- the behaviour needs one) is among its profiles, its rule ids are all different, and every rule
-- names one of its profiles. It then returns the configuration unchanged.
pub validate_config-IsValid :
    (c : VshiftConfig)
    → (validate_config c ≡ ok c → IsValid c) × (IsValid c → validate_config c ≡ ok c)
unfolding validate_config
validate_config-IsValid c = (accepted, valid)
  where
    ids : List String
    ids = map (λ rule. rule.id) c.rules

    accepted : validate_config c ≡ ok c → IsValid c
    accepted h = record {
      has_profiles = ground arith;
      default_known = λ d. ground arith;
      ids_differ = NoRepeats-of-length ids (ground arith);
      profiles_known = check_rules-All c.profiles c.rules (ground arith);
    }

    valid : IsValid c → validate_config c ≡ ok c
    valid v = ground (
      arith,
      length_of_NoRepeats ids v.ids_differ,
      check_rules_ok c.profiles c.rules v.profiles_known,
    )
