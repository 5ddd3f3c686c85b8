-- ===== src/Config/Matcher.antt =====
-- src/vshift/domain/config/profile_matcher.py
pub mod Selection
use vshift.Base.{Bool, Option, none, some, List, [], ◌∷◌, leb, if◌then◌else◌}
use vshift.Base.Sorting.{sorted}
use vshift.Input.{ProbedInput}
use vshift.Config.Criteria.{MatchRule, rule_matches}

abbrev pub by_priority : MatchRule → MatchRule → Bool
by_priority a b = leb a.priority b.priority

-- The loop of `ProfileMatcher.match`.
first_match : ProbedInput → List MatchRule → Option MatchRule
first_match probed [] = none
first_match probed (rule ∷ rules) =
    if rule_matches rule probed then some rule else first_match probed rules

-- `ProfileMatcher(rules).match(probed)`
unfoldable pub match : List MatchRule → ProbedInput → Option MatchRule
unfolding first_match sorted
match rules probed = first_match probed (sorted by_priority rules)
