-- ===== src/Server/Matching.antt =====
-- `MatchProfile.execute`: a valid configuration has a profile for every file that needs one.
use vshift.Base.{
  ◌≡◌, subst, ◌≢◌, String, true, Option, none, some, List, [], ◌∷◌, ◌++◌, arith, All, Option-cases,
  inl, inr,
}
use vshift.Base.Dict.{Dict, lookup, has_key}
use vshift.Base.Exec.{ok}
use vshift.Profile.{VshiftProfile}
use vshift.Input.{ProbedInput}
use vshift.Config.Criteria.{MatchRule}
use vshift.Config.Matcher.{match}
use vshift.Config.Matcher.Selection.{match-IsFirst}
use vshift.Config.Settings.{VshiftConfig, NoMatchAction, no_match_action_eq}
use vshift.Config.Settings.Validity.{IsValid}
use vshift.Server.{ProfileMatch, match_profile, match_default}

-- What a file may be matched with: the profile of the rule that the matcher selects; or, without
-- such a rule, the default profile where the behaviour asks for it, and nothing where not.
pub data IsMatch (config : VshiftConfig) (probed : ProbedInput) : Option ProfileMatch → Type 0 where
  by_rule :
      (rule : MatchRule) (profile : VshiftProfile)
      → match config.rules probed ≡ some rule
      → lookup rule.profile config.profiles ≡ some profile
      → IsMatch config probed
          (some (record { rule_id = rule.id; profile_name = rule.profile; profile = profile }))
  by_default :
      (name : String) (profile : VshiftProfile)
      → match config.rules probed ≡ none
      → config.behavior.no_match ≡ NoMatchAction.default_profile
      → config.behavior.default_profile ≡ some name
      → lookup name config.profiles ≡ some profile
      → IsMatch config probed
          (some (record { rule_id = "__default__"; profile_name = name; profile = profile }))
  left_out :
      match config.rules probed ≡ none
      → config.behavior.no_match ≢ NoMatchAction.default_profile
      → IsMatch config probed none

All-middle :
    {A : Type 0} (P : A → Type 0) (front : List A) (x : A) (rest : List A)
    → All P (front ++ x ∷ rest)
    → P x
All-middle P [] x rest h = h.0
All-middle P (y ∷ front) x rest h = All-middle P front x rest h.1

has_key-lookup :
    (name : String) (profiles : Dict VshiftProfile)
    → has_key name profiles ≡ true
    → (profile : VshiftProfile) × (lookup name profiles ≡ some profile)
has_key-lookup name profiles h = elim (Option-cases (lookup name profiles)) [
  | inl missing ↦ absurd (ground arith)
  | inr found ↦ found
]

module _ (config : VshiftConfig) (probed : ProbedInput) (v : IsValid config) where
  match_default_ok :
      match config.rules probed ≡ none
      → (found : Option ProfileMatch) × (match_default config ≡ ok found)
        × IsMatch config probed found
  unfolding match_default
  match_default_ok nothing =
      elim (no_match_action_eq.dec config.behavior.no_match NoMatchAction.default_profile) [
        | no other ↦ (none, quiet config.behavior.no_match other, left_out nothing other)
        | yes default ↦ elim (Option-cases config.behavior.default_profile) [
          | inl missing ↦ absurd (ground (arith, v.default_known default))
          | inr (name, named) ↦
              let (profile, known) =
                has_key-lookup name config.profiles (ground (arith, v.default_known default)) in
              (_, ground arith, by_default name profile nothing default named known)
        ]
      ]
    where
      quiet :
          (action : NoMatchAction)
          → action ≢ NoMatchAction.default_profile
          → match_default
              (record config { behavior = record config.behavior { no_match = action } })
            ≡ ok none
      quiet action h = ground arith

  -- With a valid configuration the use case never raises, whatever the file: it finds the profile
  -- of the selected rule, else the default profile if the behaviour asks for it, else nothing.
  pub match_profile-IsMatch :
      (found : Option ProfileMatch) × (match_profile config probed ≡ ok found)
      × IsMatch config probed found
  unfolding match_profile
  match_profile-IsMatch = elim (Option-cases (match config.rules probed)) [
    | inl nothing ↦ let (found, e, m) = match_default_ok nothing in (found, ground arith, m)
    | inr (rule, selected) ↦
        let first = match-IsFirst probed config.rules rule selected in
        let known =
          All-middle (λ r. has_key r.profile config.profiles ≡ true) first.front rule first.rest
            (subst (All (λ r. has_key r.profile config.profiles ≡ true)) first.split
              v.profiles_known) in
        let (profile, e) = has_key-lookup rule.profile config.profiles known in
        (_, ground arith, by_rule rule profile selected e)
  ]
