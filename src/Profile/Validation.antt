-- ===== src/Profile/Validation.antt =====
-- The `model_validator` methods of src/vshift/domain/transcoding_profile/vshift_profile.py.
use vshift.Base.{
  ◌≡◌, refl, ◌↔◌, ℕ, ◌<◌, ℤ, pos, negsuc, Bool-cases, inl, inr, Bool, true, false, not, ◌&&◌,
  Option, none, some, arith, ◌==◌, if◌then◌else◌, is_negative, is_positive,
}
use vshift.Base.Exec.{Result, ok, err, vshift_exception, and_then}
use vshift.Base.Text.{is_blank}
use vshift.Profile.{
  VideoProfile, VshiftProfile, FrameRateType, QualityMode, frame_rate_type_eq, quality_mode_eq,
}

abbrev is_none : {A : Type 0} → Option A → Bool
is_none none = true
is_none (some a) = false

-- `average_bitrate is None or average_bitrate <= 0`
abbrev lacks_bitrate : Option ℤ → Bool
lacks_bitrate none = true
lacks_bitrate (some rate) = not (is_positive rate)

unfoldable pub validate_frame_rate : VideoProfile → Result VideoProfile
validate_frame_rate v =
    if v.frame_rate_type == FrameRateType.custom && is_none v.frame_rate
    then err (vshift_exception "frame_rate is required when frame_rate_type is custom")
    else ok v

unfoldable pub validate_quality : VideoProfile → Result VideoProfile
validate_quality v =
    if v.quality_mode == QualityMode.constant && is_negative v.quality
    then err (vshift_exception "quality must be >= 0 for constant-quality mode")
    else if v.quality_mode == QualityMode.average_bitrate && lacks_bitrate v.average_bitrate
    then err (vshift_exception "average_bitrate must be > 0 for average-bitrate mode")
    else ok v

-- pydantic runs the validators of a model in the order of their definition.
unfoldable pub validate_video : VideoProfile → Result VideoProfile
unfolding validate_frame_rate validate_quality
validate_video v = and_then (validate_frame_rate v) validate_quality

unfoldable pub validate_profile : VshiftProfile → Result VshiftProfile
validate_profile p =
    if is_blank p.name
    then err (vshift_exception "name is required")
    else if is_blank p.format
    then err (vshift_exception "format is required")
    else ok p

-- What an encoder may rely on in an accepted video profile: a custom frame rate is there, a constant
-- quality is 0 or more, an average bitrate is there and more than 0.
pub record IsSound (v : VideoProfile) : Type 0 where
  pub has_rate : v.frame_rate_type ≡ FrameRateType.custom → (rate : ℤ) × (v.frame_rate ≡ some rate)
  pub has_quality : v.quality_mode ≡ QualityMode.constant → (n : ℕ) × (v.quality ≡ pos n)
  pub has_bitrate :
      v.quality_mode ≡ QualityMode.average_bitrate
      → (n : ℕ) × (v.average_bitrate ≡ some (pos n)) × (0 < n)

rate-given : (o : Option ℤ) → is_none o ≡ false → (rate : ℤ) × (o ≡ some rate)
rate-given none e = absurd (ground arith)
rate-given (some rate) e = (rate, refl)

quality-natural : (z : ℤ) → is_negative z ≡ false → (n : ℕ) × (z ≡ pos n)
quality-natural (pos n) e = (n, refl)
quality-natural (negsuc n) e = absurd (ground arith)

bitrate-positive : (o : Option ℤ) → lacks_bitrate o ≡ false → (n : ℕ) × (o ≡ some (pos n)) × (0 < n)
bitrate-positive none e = absurd (ground arith)
bitrate-positive (some (pos n)) e = (n, refl, ground arith)
bitrate-positive (some (negsuc n)) e = absurd (ground arith)

accepted-IsSound : (v : VideoProfile) → validate_video v ≡ ok v → IsSound v
unfolding validate_video
accepted-IsSound v h = record {
  has_rate = λ custom. rate-given v.frame_rate (ground arith);
  has_quality = λ constant. quality-natural v.quality (ground arith);
  has_bitrate = λ average. bitrate-positive v.average_bitrate (ground arith);
}

validate_video-accepts : (v : VideoProfile) → IsSound v → validate_video v ≡ ok v
unfolding validate_video
validate_video-accepts v h = elim (Bool-cases (v.frame_rate_type == FrameRateType.custom)) [
  | inl custom ↦ let (rate, given) = h.has_rate (ground arith) in rest (ground arith)
  | inr other ↦ rest (ground arith)
]
  where
    quality : v.quality_mode ≡ QualityMode.constant → is_negative v.quality ≡ false
    quality constant = let (n, e) = h.has_quality constant in ground arith

    bitrate : v.quality_mode ≡ QualityMode.average_bitrate → lacks_bitrate v.average_bitrate ≡ false
    bitrate average = let (n, e, more) = h.has_bitrate average in ground arith

    rest :
        (v.frame_rate_type == FrameRateType.custom && is_none v.frame_rate) ≡ false
        → validate_video v ≡ ok v
    rest fine = ground (arith, quality, bitrate)

-- The video validators accept a profile exactly when it is sound, and then return it unchanged:
-- a custom frame rate is given, a constant quality is not negative, an average bitrate is positive.
pub validate_video-IsSound : (v : VideoProfile) → (validate_video v ≡ ok v) ↔ IsSound v
validate_video-IsSound v = (accepted-IsSound v, validate_video-accepts v)
