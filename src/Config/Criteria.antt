-- ===== src/Config/Criteria.antt =====
-- src/vshift/domain/config/match_rule.py
use vshift.Base.{
  ℕ, String, Bool, true, false, not, ◌&&◌, Option, none, some, List, map, ◌==◌, contains, bool_eq,
  string_eq, ltb, is_empty, if◌then◌else◌,
}
use vshift.Base.Exec.{Result, ok, err, vshift_exception}
use vshift.Base.FilePath.{name}
use vshift.Base.Text.{lower, is_blank, remove_dot}
use vshift.Input.{ProbedInput}
use vshift.Config.Glob.{fnmatch}

pub record MatchCriteria : Type 0 where
  pub extensions : List String
  pub min_width : Option ℕ
  pub max_width : Option ℕ
  pub min_height : Option ℕ
  pub max_height : Option ℕ
  pub min_bit_depth : Option ℕ
  pub max_bit_depth : Option ℕ
  pub hdr : Option Bool
  pub filename_glob : Option String

pub record MatchRule : Type 0 where
  pub id : String
  pub priority : ℕ
  pub match : MatchCriteria
  pub profile : String

-- The field validator. `none` is a value that is no list; the items are already texts.
unfoldable pub normalize_extensions : Option (List String) → List String
unfolding remove_dot lower
normalize_extensions none = List.[]
normalize_extensions (some items) = map (λ item. remove_dot (lower item)) items

-- `minimum is not None and maximum is not None and minimum > maximum`
abbrev exceeds : Option ℕ → Option ℕ → Bool
exceeds (some low) (some high) = ltb high low
exceeds _ _ = false

unfoldable pub validate_bounds : MatchCriteria → Result MatchCriteria
validate_bounds c =
    if exceeds c.min_width c.max_width
    then err (vshift_exception "min_width cannot exceed max_width")
    else if exceeds c.min_height c.max_height
    then err (vshift_exception "min_height cannot exceed max_height")
    else if exceeds c.min_bit_depth c.max_bit_depth
    then err (vshift_exception "min_bit_depth cannot exceed max_bit_depth")
    else ok c

-- `minimum is not None and value < minimum`
abbrev below : ℕ → Option ℕ → Bool
below value none = false
below value (some minimum) = ltb value minimum

-- `maximum is not None and value > maximum`
abbrev above : ℕ → Option ℕ → Bool
above value none = false
above value (some maximum) = ltb maximum value

unfoldable pub matches_dimension : Option ℕ → Option ℕ → Option ℕ → Bool
matches_dimension value none none = true
matches_dimension none minimum maximum = false
matches_dimension (some value) minimum maximum =
    if below value minimum then false else not (above value maximum)

unfoldable pub matches_hdr : Option Bool → Option Bool → Bool
matches_hdr value none = true
matches_hdr none (some expected) = false
matches_hdr (some value) (some expected) = value == expected

-- `filename_glob is not None and not fnmatch.fnmatch(name, filename_glob)`
abbrev glob_fails : Option String → String → Bool
glob_fails none file = false
glob_fails (some pattern) file = not (fnmatch file pattern)

-- `MatchCriteria.matches`
unfoldable pub criteria_matches : MatchCriteria → ProbedInput → Bool
unfolding matches_dimension matches_hdr
criteria_matches c probed =
    if not (is_empty c.extensions) && not (contains c.extensions (lower probed.extension))
    then false
    else if glob_fails c.filename_glob (name probed.path)
    then false
    else if not (matches_dimension probed.width c.min_width c.max_width)
    then false
    else if not (matches_dimension probed.height c.min_height c.max_height)
    then false
    else if not (matches_dimension probed.bit_depth c.min_bit_depth c.max_bit_depth)
    then false
    else matches_hdr probed.hdr c.hdr

-- The validator runs on `id` and on `profile`.
unfoldable pub validate_non_blank : String → Result String
validate_non_blank value =
    if is_blank value
    then err (vshift_exception "match rule id and profile must not be blank")
    else ok value

-- `MatchRule.matches`
abbrev pub rule_matches : MatchRule → ProbedInput → Bool
rule_matches rule probed = criteria_matches rule.match probed
