-- ===== src/Tests/Choices.antt =====
-- The enums of a job as texts: the number of the constructor.
use vshift.Base.{◌≡◌, refl, ℕ, zero, suc}
use vshift.Profile.{
  VideoEncoder, FrameRateType, FramerateMode, QualityMode, AudioSelectionMode,
  SubtitleSelectionMode,
}
use vshift.Job.{JobState}
use vshift.Tests.Serial.{Serial, nat, via}

encoder_number : VideoEncoder → ℕ
encoder_number VideoEncoder.auto = 0
encoder_number VideoEncoder.libx264 = 1
encoder_number VideoEncoder.libx265 = 2
encoder_number VideoEncoder.libsvtav1 = 3
encoder_number VideoEncoder.h264_nvenc = 4
encoder_number VideoEncoder.hevc_nvenc = 5
encoder_number VideoEncoder.av1_nvenc = 6
encoder_number VideoEncoder.h264_qsv = 7
encoder_number VideoEncoder.hevc_qsv = 8
encoder_number VideoEncoder.h264_vaapi = 9
encoder_number VideoEncoder.hevc_vaapi = 10
encoder_number VideoEncoder.h264_videotoolbox = 11
encoder_number VideoEncoder.hevc_videotoolbox = 12

encoder_of : ℕ → VideoEncoder
encoder_of zero = VideoEncoder.auto
encoder_of (suc zero) = VideoEncoder.libx264
encoder_of (suc (suc zero)) = VideoEncoder.libx265
encoder_of (suc (suc (suc zero))) = VideoEncoder.libsvtav1
encoder_of (suc (suc (suc (suc zero)))) = VideoEncoder.h264_nvenc
encoder_of (suc (suc (suc (suc (suc zero))))) = VideoEncoder.hevc_nvenc
encoder_of (suc (suc (suc (suc (suc (suc zero)))))) = VideoEncoder.av1_nvenc
encoder_of (suc (suc (suc (suc (suc (suc (suc zero))))))) = VideoEncoder.h264_qsv
encoder_of (suc (suc (suc (suc (suc (suc (suc (suc zero)))))))) = VideoEncoder.hevc_qsv
encoder_of (suc (suc (suc (suc (suc (suc (suc (suc (suc zero))))))))) = VideoEncoder.h264_vaapi
encoder_of (suc (suc (suc (suc (suc (suc (suc (suc (suc (suc zero)))))))))) =
    VideoEncoder.hevc_vaapi
encoder_of (suc (suc (suc (suc (suc (suc (suc (suc (suc (suc (suc zero))))))))))) =
    VideoEncoder.h264_videotoolbox
encoder_of (suc (suc (suc (suc (suc (suc (suc (suc (suc (suc (suc (suc n)))))))))))) =
    VideoEncoder.hevc_videotoolbox

encoder-back : (x : VideoEncoder) → encoder_of (encoder_number x) ≡ x
unfolding encoder_of encoder_number
encoder-back VideoEncoder.auto = refl
encoder-back VideoEncoder.libx264 = refl
encoder-back VideoEncoder.libx265 = refl
encoder-back VideoEncoder.libsvtav1 = refl
encoder-back VideoEncoder.h264_nvenc = refl
encoder-back VideoEncoder.hevc_nvenc = refl
encoder-back VideoEncoder.av1_nvenc = refl
encoder-back VideoEncoder.h264_qsv = refl
encoder-back VideoEncoder.hevc_qsv = refl
encoder-back VideoEncoder.h264_vaapi = refl
encoder-back VideoEncoder.hevc_vaapi = refl
encoder-back VideoEncoder.h264_videotoolbox = refl
encoder-back VideoEncoder.hevc_videotoolbox = refl

pub encoder : Serial VideoEncoder
encoder = via encoder_number encoder_of encoder-back nat

rate_type_number : FrameRateType → ℕ
rate_type_number FrameRateType.same_as_source = 0
rate_type_number FrameRateType.custom = 1

rate_type_of : ℕ → FrameRateType
rate_type_of zero = FrameRateType.same_as_source
rate_type_of (suc n) = FrameRateType.custom

rate_type-back : (x : FrameRateType) → rate_type_of (rate_type_number x) ≡ x
unfolding rate_type_of rate_type_number
rate_type-back FrameRateType.same_as_source = refl
rate_type-back FrameRateType.custom = refl

pub rate_type : Serial FrameRateType
rate_type = via rate_type_number rate_type_of rate_type-back nat

rate_mode_number : FramerateMode → ℕ
rate_mode_number FramerateMode.vfr = 0
rate_mode_number FramerateMode.pfr = 1
rate_mode_number FramerateMode.cfr = 2

rate_mode_of : ℕ → FramerateMode
rate_mode_of zero = FramerateMode.vfr
rate_mode_of (suc zero) = FramerateMode.pfr
rate_mode_of (suc (suc n)) = FramerateMode.cfr

rate_mode-back : (x : FramerateMode) → rate_mode_of (rate_mode_number x) ≡ x
unfolding rate_mode_of rate_mode_number
rate_mode-back FramerateMode.vfr = refl
rate_mode-back FramerateMode.pfr = refl
rate_mode-back FramerateMode.cfr = refl

pub rate_mode : Serial FramerateMode
rate_mode = via rate_mode_number rate_mode_of rate_mode-back nat

quality_mode_number : QualityMode → ℕ
quality_mode_number QualityMode.constant = 0
quality_mode_number QualityMode.average_bitrate = 1

quality_mode_of : ℕ → QualityMode
quality_mode_of zero = QualityMode.constant
quality_mode_of (suc n) = QualityMode.average_bitrate

quality_mode-back : (x : QualityMode) → quality_mode_of (quality_mode_number x) ≡ x
unfolding quality_mode_of quality_mode_number
quality_mode-back QualityMode.constant = refl
quality_mode-back QualityMode.average_bitrate = refl

pub quality_mode : Serial QualityMode
quality_mode = via quality_mode_number quality_mode_of quality_mode-back nat

audio_mode_number : AudioSelectionMode → ℕ
audio_mode_number AudioSelectionMode.auto = 0
audio_mode_number AudioSelectionMode.first = 1
audio_mode_number AudioSelectionMode.all = 2
audio_mode_number AudioSelectionMode.none = 3

audio_mode_of : ℕ → AudioSelectionMode
audio_mode_of zero = AudioSelectionMode.auto
audio_mode_of (suc zero) = AudioSelectionMode.first
audio_mode_of (suc (suc zero)) = AudioSelectionMode.all
audio_mode_of (suc (suc (suc n))) = AudioSelectionMode.none

audio_mode-back : (x : AudioSelectionMode) → audio_mode_of (audio_mode_number x) ≡ x
unfolding audio_mode_of audio_mode_number
audio_mode-back AudioSelectionMode.auto = refl
audio_mode-back AudioSelectionMode.first = refl
audio_mode-back AudioSelectionMode.all = refl
audio_mode-back AudioSelectionMode.none = refl

pub audio_mode : Serial AudioSelectionMode
audio_mode = via audio_mode_number audio_mode_of audio_mode-back nat

subtitle_mode_number : SubtitleSelectionMode → ℕ
subtitle_mode_number SubtitleSelectionMode.auto = 0
subtitle_mode_number SubtitleSelectionMode.first = 1
subtitle_mode_number SubtitleSelectionMode.all = 2
subtitle_mode_number SubtitleSelectionMode.none = 3
subtitle_mode_number SubtitleSelectionMode.foreign = 4

subtitle_mode_of : ℕ → SubtitleSelectionMode
subtitle_mode_of zero = SubtitleSelectionMode.auto
subtitle_mode_of (suc zero) = SubtitleSelectionMode.first
subtitle_mode_of (suc (suc zero)) = SubtitleSelectionMode.all
subtitle_mode_of (suc (suc (suc zero))) = SubtitleSelectionMode.none
subtitle_mode_of (suc (suc (suc (suc n)))) = SubtitleSelectionMode.foreign

subtitle_mode-back : (x : SubtitleSelectionMode) → subtitle_mode_of (subtitle_mode_number x) ≡ x
unfolding subtitle_mode_of subtitle_mode_number
subtitle_mode-back SubtitleSelectionMode.auto = refl
subtitle_mode-back SubtitleSelectionMode.first = refl
subtitle_mode-back SubtitleSelectionMode.all = refl
subtitle_mode-back SubtitleSelectionMode.none = refl
subtitle_mode-back SubtitleSelectionMode.foreign = refl

pub subtitle_mode : Serial SubtitleSelectionMode
subtitle_mode = via subtitle_mode_number subtitle_mode_of subtitle_mode-back nat

state_number : JobState → ℕ
state_number JobState.pending = 0
state_number JobState.claimed = 1
state_number JobState.processing = 2
state_number JobState.completed = 3
state_number JobState.failed = 4

state_of : ℕ → JobState
state_of zero = JobState.pending
state_of (suc zero) = JobState.claimed
state_of (suc (suc zero)) = JobState.processing
state_of (suc (suc (suc zero))) = JobState.completed
state_of (suc (suc (suc (suc n)))) = JobState.failed

state-back : (x : JobState) → state_of (state_number x) ≡ x
unfolding state_of state_number
state-back JobState.pending = refl
state-back JobState.claimed = refl
state-back JobState.processing = refl
state-back JobState.completed = refl
state-back JobState.failed = refl

pub state : Serial JobState
state = via state_number state_of state-back nat
