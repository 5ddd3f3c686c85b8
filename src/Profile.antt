-- ===== src/Profile.antt =====
-- src/vshift/domain/transcoding_profile: the transcoding profile and its validators.
-- A `float` is counted in millionths, so `quality` and `frame_rate` have six decimals.
pub mod Validation
use vshift.Base.{ℕ, ℤ, String, Bool, Option, List, Eq}

pub data FrameRateType : Type 0 where
  same_as_source custom : FrameRateType

pub data QualityMode : Type 0 where
  constant average_bitrate : QualityMode

pub data FramerateMode : Type 0 where
  vfr pfr cfr : FramerateMode

pub data AudioSelectionMode : Type 0 where
  auto first all none : AudioSelectionMode

pub data SubtitleSelectionMode : Type 0 where
  auto first all none foreign : SubtitleSelectionMode

pub data VideoEncoder : Type 0 where
  auto libx264 libx265 libsvtav1 h264_nvenc hevc_nvenc av1_nvenc h264_qsv hevc_qsv h264_vaapi
        hevc_vaapi h264_videotoolbox hevc_videotoolbox :
      VideoEncoder

FrameRateType-discrete : Discrete FrameRateType
FrameRateType-discrete = hlevel

instance unfoldable pub frame_rate_type_eq : Eq FrameRateType
unfolding FrameRateType-discrete
frame_rate_type_eq = record { dec = FrameRateType-discrete }

QualityMode-discrete : Discrete QualityMode
QualityMode-discrete = hlevel

instance unfoldable pub quality_mode_eq : Eq QualityMode
unfolding QualityMode-discrete
quality_mode_eq = record { dec = QualityMode-discrete }

VideoEncoder-discrete : Discrete VideoEncoder
VideoEncoder-discrete = hlevel

instance unfoldable pub video_encoder_eq : Eq VideoEncoder
unfolding VideoEncoder-discrete
video_encoder_eq = record { dec = VideoEncoder-discrete }

pub record VideoProfile : Type 0 where
  pub codec : String
  pub encoder : VideoEncoder
  pub color_space : String
  pub bit_depth : ℕ
  pub frame_rate_type : FrameRateType
  pub frame_rate : Option ℤ
  pub framerate_mode : FramerateMode
  pub width : Option ℤ
  pub height : Option ℤ
  pub quality_mode : QualityMode
  pub quality : ℤ
  pub average_bitrate : Option ℤ
  pub encoder_preset : String
  pub encoder_tune : String
  pub encoder_profile : String
  pub encoder_level : String
  pub multi_pass : Bool
  pub turbo_multi_pass : Bool
  pub grayscale : Bool

pub record AudioTrack : Type 0 where
  pub codec : String
  pub bit_rate : ℤ
  pub sample_rate : Option ℤ
  pub mixdown : String
  pub copy_track : Bool

pub record SubtitleTrack : Type 0 where
  pub language : String
  pub codec : String
  pub copy_track : Bool
  pub burn_in : Bool
  pub is_default : Bool

pub record VshiftProfile : Type 0 where
  pub name : String
  pub description : String
  pub format : String
  pub video : VideoProfile
  pub audio_tracks : List AudioTrack
  pub audio_selection_mode : AudioSelectionMode
  pub audio_language_list : List String
  pub audio_passthrough : Bool
  pub subtitle_tracks : List SubtitleTrack
  pub subtitle_selection_mode : SubtitleSelectionMode
  pub subtitle_language_list : List String
  pub subtitle_passthrough : Bool
  pub chapter_markers : Bool
  pub optimize : Bool
