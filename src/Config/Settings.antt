-- ===== src/Config/Settings.antt =====
-- src/vshift/domain/config/enums.py and src/vshift/domain/config/vshift_config.py
pub mod Validity
use vshift.Base.{
  ℕ, String, Bool, true, false, not, ◌&&◌, ◌||◌, Option, none, some, List, [], ◌∷◌, map, Eq, ◌==◌,
  contains, nat_eq, string_eq, length, is_empty, is_some, if◌then◌else◌,
}
use vshift.Base.Dict.{Dict, has_key}
use vshift.Base.Exec.{Result, ok, err, vshift_exception, and_then}
use vshift.Base.FilePath.{FilePath}
use vshift.Profile.{VshiftProfile}
use vshift.Config.Criteria.{MatchRule}

pub data NoMatchAction : Type 0 where
  ignore reject default_profile : NoMatchAction

pub data InputAfterSuccess : Type 0 where
  keep delete move : InputAfterSuccess

NoMatchAction-discrete : Discrete NoMatchAction
NoMatchAction-discrete = hlevel

instance unfoldable pub no_match_action_eq : Eq NoMatchAction
unfolding NoMatchAction-discrete
no_match_action_eq = record { dec = NoMatchAction-discrete }

InputAfterSuccess-discrete : Discrete InputAfterSuccess
InputAfterSuccess-discrete = hlevel

instance unfoldable pub input_after_success_eq : Eq InputAfterSuccess
unfolding InputAfterSuccess-discrete
input_after_success_eq = record { dec = InputAfterSuccess-discrete }

pub record BehaviorSettings : Type 0 where
  pub no_match : NoMatchAction
  pub default_profile : Option String
  pub input_after_success : InputAfterSuccess
  pub input_move_dir : Option FilePath
  pub file_stability_seconds : ℕ
  pub max_retries : ℕ

pub record ConfigDirectories : Type 0 where
  pub input : FilePath
  pub output : FilePath
  pub temp : FilePath

pub record VshiftConfig : Type 0 where
  pub version : String
  pub behavior : BehaviorSettings
  pub directories : ConfigDirectories
  pub profiles : Dict VshiftProfile
  pub rules : List MatchRule

-- `not text`, for an optional text
abbrev is_missing : Option String → Bool
is_missing none = true
is_missing (some text) = text == ""

unfoldable pub validate_behavior : BehaviorSettings → Result BehaviorSettings
validate_behavior b =
    if b.no_match == NoMatchAction.default_profile && is_missing b.default_profile
    then err (vshift_exception "default_profile is required when no_match is default_profile")
    else if b.input_after_success == InputAfterSuccess.move && not (is_some b.input_move_dir)
    then err (vshift_exception "input_move_dir is required when input_after_success is move")
    else ok b

-- `set(items)`, as the list of its members
abbrev distinct : List String → List String
distinct [] = []
distinct (item ∷ items) =
    let rest = distinct items in if contains items item then rest else item ∷ rest

-- `name in profiles`, where the name may be `None`
abbrev names_profile : Option String → Dict VshiftProfile → Bool
names_profile none profiles = false
names_profile (some name) profiles = has_key name profiles

-- The loop over the rules. The message names the rule and the profile; only its end is kept.
unfoldable pub check_rules : Dict VshiftProfile → List MatchRule → Result (Unit {0})
check_rules profiles [] = ok tt
check_rules profiles (rule ∷ rules) =
    if has_key rule.profile profiles
    then check_rules profiles rules
    else err (vshift_exception "rule references unknown profile")

unfoldable pub validate_config : VshiftConfig → Result VshiftConfig
unfolding check_rules
validate_config c =
    let ids = map (λ rule. rule.id) c.rules in
    if is_empty c.profiles
    then err (vshift_exception "at least one profile is required")
    else if c.behavior.no_match == NoMatchAction.default_profile
        && not (names_profile c.behavior.default_profile c.profiles)
    then err (vshift_exception "default_profile must reference an existing profile")
    else if not (length ids == length (distinct ids))
    then err (vshift_exception "match rule ids must be unique")
    else and_then (check_rules c.profiles c.rules) (λ _. ok c)
