-- ===== src/Tests/Domain.antt =====
-- The job states, the profiles and the configuration at concrete inputs.
use vshift.Base.{◌≡◌, refl, ◌↔◌, some, string_eq, nat_eq}
use vshift.Base.Exec.{ok}
use vshift.Profile.Validation.{IsSound, validate_video, validate_video-IsSound}
use vshift.Config.Criteria.{criteria_matches}
use vshift.Config.Matcher.{match}
use vshift.Config.Matcher.Selection.{IsFirst, best, match-best, match-IsFirst}
use vshift.Config.Settings.{validate_config}
use vshift.Config.Settings.Validity.{IsValid, validate_config-IsValid}
use vshift.Tests.{video, probed, hd, rules, config}

match-best_example : match rules probed ≡ best probed rules
match-best_example = match-best probed rules

hd_selected : match rules probed ≡ some hd
unfolding match criteria_matches
hd_selected = refl

match-IsFirst_example : IsFirst probed rules hd
match-IsFirst_example = match-IsFirst probed rules hd hd_selected

validate_video-IsSound_example : (validate_video video ≡ ok video) ↔ IsSound video
validate_video-IsSound_example = validate_video-IsSound video

validate_config-IsValid_example :
    (validate_config config ≡ ok config → IsValid config)
    × (IsValid config → validate_config config ≡ ok config)
validate_config-IsValid_example = validate_config-IsValid config
