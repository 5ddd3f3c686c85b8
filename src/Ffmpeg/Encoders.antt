-- ===== src/Ffmpeg/Encoders.antt =====
-- src/vshift/infrastructure/ffmpeg/encoder_resolver.py. What ffmpeg lists, the platform and the
-- devices of the host are parameters.
pub mod Resolution
pub mod Detection
use vshift.Base.{
  String, Bool, true, false, not, ◌&&◌, ◌||◌, Option, none, some, List, [], ◌∷◌, Eq, ◌==◌, contains,
  string_eq, if◌then◌else◌,
}
use vshift.Base.Exec.{Result, ok, err, vshift_exception}
use vshift.Base.Text.{lower}
use vshift.Base.Dict.{Dict, lookup}
use vshift.Profile.{VideoProfile, VideoEncoder, video_encoder_eq}

pub record Host : Type 0 where
  pub available_encoders : List String
  pub is_darwin : Bool
  pub intel_gpu_available : Bool
  pub nvidia_gpu_available : Bool

-- `encoder.value`
abbrev pub value : VideoEncoder → String
value VideoEncoder.auto = "auto"
value VideoEncoder.libx264 = "libx264"
value VideoEncoder.libx265 = "libx265"
value VideoEncoder.libsvtav1 = "libsvtav1"
value VideoEncoder.h264_nvenc = "h264_nvenc"
value VideoEncoder.hevc_nvenc = "hevc_nvenc"
value VideoEncoder.av1_nvenc = "av1_nvenc"
value VideoEncoder.h264_qsv = "h264_qsv"
value VideoEncoder.hevc_qsv = "hevc_qsv"
value VideoEncoder.h264_vaapi = "h264_vaapi"
value VideoEncoder.hevc_vaapi = "hevc_vaapi"
value VideoEncoder.h264_videotoolbox = "h264_videotoolbox"
value VideoEncoder.hevc_videotoolbox = "hevc_videotoolbox"

-- `encoder in _SOFTWARE_ENCODERS`
abbrev pub is_software : VideoEncoder → Bool
is_software VideoEncoder.libx264 = true
is_software VideoEncoder.libx265 = true
is_software VideoEncoder.libsvtav1 = true
is_software _ = false

unfoldable pub is_hardware_encoder : VideoEncoder → Bool
is_hardware_encoder encoder = not (is_software encoder)

-- `_CODEC_ENCODER_PRIORITY`
abbrev pub codec_encoder_priority : Dict (List VideoEncoder)
codec_encoder_priority =
    (
      "h264",
      VideoEncoder.h264_videotoolbox ∷ VideoEncoder.h264_nvenc ∷ VideoEncoder.h264_qsv
          ∷ VideoEncoder.h264_vaapi ∷ VideoEncoder.libx264 ∷ [],
    )
    ∷ (
      "h265",
      VideoEncoder.hevc_videotoolbox ∷ VideoEncoder.hevc_nvenc ∷ VideoEncoder.hevc_qsv
          ∷ VideoEncoder.hevc_vaapi ∷ VideoEncoder.libx265 ∷ [],
    )
    ∷ (
      "hevc",
      VideoEncoder.hevc_videotoolbox ∷ VideoEncoder.hevc_nvenc ∷ VideoEncoder.hevc_qsv
          ∷ VideoEncoder.hevc_vaapi ∷ VideoEncoder.libx265 ∷ [],
    )
    ∷ ("av1", VideoEncoder.av1_nvenc ∷ VideoEncoder.libsvtav1 ∷ [])
    ∷ []

-- `_SOFTWARE_FALLBACK`
abbrev pub software_fallbacks : Dict VideoEncoder
software_fallbacks =
    ("h264", VideoEncoder.libx264)
    ∷ ("h265", VideoEncoder.libx265)
    ∷ ("hevc", VideoEncoder.libx265)
    ∷ ("av1", VideoEncoder.libsvtav1)
    ∷ []

-- `_CODEC_ENCODER_PRIORITY.get(codec, [])`
abbrev pub candidates : String → List VideoEncoder
candidates codec = elim (lookup codec codec_encoder_priority) [
  | none ↦ []
  | some encoders ↦ encoders
]

module _ (host : Host) where
  -- `_encoder_usable`
  abbrev pub encoder_usable : VideoEncoder → Bool
  encoder_usable VideoEncoder.auto = false
  encoder_usable VideoEncoder.libx264 = true
  encoder_usable VideoEncoder.libx265 = true
  encoder_usable VideoEncoder.libsvtav1 = true
  encoder_usable VideoEncoder.h264_videotoolbox = host.is_darwin
  encoder_usable VideoEncoder.hevc_videotoolbox = host.is_darwin
  encoder_usable VideoEncoder.h264_qsv = host.intel_gpu_available
  encoder_usable VideoEncoder.hevc_qsv = host.intel_gpu_available
  encoder_usable VideoEncoder.h264_vaapi = host.intel_gpu_available
  encoder_usable VideoEncoder.hevc_vaapi = host.intel_gpu_available
  encoder_usable VideoEncoder.h264_nvenc = host.nvidia_gpu_available
  encoder_usable VideoEncoder.hevc_nvenc = host.nvidia_gpu_available
  encoder_usable VideoEncoder.av1_nvenc = host.nvidia_gpu_available

  -- `encoder.value in self._available_encoders`
  abbrev pub is_available : VideoEncoder → Bool
  is_available encoder = contains host.available_encoders (value encoder)

  -- The loop of `resolve`.
  unfoldable pub first_usable : List VideoEncoder → Option VideoEncoder
  first_usable [] = none
  first_usable (encoder ∷ encoders) =
      if is_available encoder && encoder_usable encoder then some encoder else first_usable encoders

  -- What `resolve` does when its loop has found nothing.
  unfoldable pub resolve_fallback : String → Result VideoEncoder
  resolve_fallback codec = elim (lookup codec software_fallbacks) [
    | none ↦ err (vshift_exception "no available ffmpeg encoder found")
    | some fallback ↦
        if is_available fallback
        then ok fallback
        else err (vshift_exception "no available ffmpeg encoder found")
  ]

  -- The part of `resolve` for the encoder `AUTO`.
  unfoldable pub resolve_auto : String → Result VideoEncoder
  unfolding first_usable resolve_fallback
  resolve_auto codec = elim (first_usable (candidates codec)) [
    | some encoder ↦ ok encoder
    | none ↦ resolve_fallback codec
  ]

  -- `EncoderResolver.resolve`. The messages name the encoder or the codec.
  unfoldable pub resolve : VideoProfile → Result VideoEncoder
  unfolding resolve_auto
  resolve video =
      if video.encoder == VideoEncoder.auto
      then resolve_auto (lower video.codec)
      else if not (is_available video.encoder)
      then err (vshift_exception "encoder is not available in ffmpeg")
      else if not (encoder_usable video.encoder)
      then err (vshift_exception "encoder is not usable on this host (missing GPU device)")
      else ok video.encoder

  -- `EncoderResolver.software_fallback`
  unfoldable pub software_fallback : String → Result VideoEncoder
  software_fallback codec = elim (lookup (lower codec) software_fallbacks) [
    | none ↦ err (vshift_exception "no software fallback encoder for codec")
    | some fallback ↦
        if is_available fallback
        then ok fallback
        else err (vshift_exception "software encoder is not available in ffmpeg")
  ]
