-- ===== src/Ffmpeg/Arguments.antt =====
-- src/vshift/infrastructure/ffmpeg/profile_mapper.py.
-- How Python writes a number is a parameter: `str` of an `int` and of a `float`.
use vshift.Base.{
  ◌≡◌, refl, arith, length, ℕ, suc, ◌+◌, ◌*◌, ◌<>◌, ℤ, pos, String, Bool, true, false, ◌&&◌, ◌||◌,
  Option, none, some, List, [], ◌∷◌, ◌++◌, ◌==◌, contains, string_eq, nat_eq, is_empty,
  if◌then◌else◌,
}
use vshift.Base.Text.{lower}
use vshift.Base.Dict.{Dict, lookup}
use vshift.Base.FilePath.{FilePath}
use vshift.Profile.{
  VideoProfile, VideoEncoder, AudioTrack, VshiftProfile, QualityMode, FrameRateType,
  AudioSelectionMode, quality_mode_eq, frame_rate_type_eq, video_encoder_eq,
}
use vshift.Ffmpeg.Encoders.{value}

pub record MappedFfmpegCommand : Type 0 where
  pub maps : List String
  pub video_args : List String
  pub video_filter : Option String
  pub audio_args : List String
  pub output_args : List String
  pub input_args : List String

-- How Python writes what stands in the arguments: an index, a number of the profile, a `float`
-- in millionths (`str` and `int` of it), and a path.
pub record Texts : Type 0 where
  pub str_index : ℕ → String
  pub str_int : ℤ → String
  pub str_float : ℤ → String
  pub str_int_float : ℤ → String
  pub str_path : FilePath → String

abbrev AudioSelectionMode-is_none : AudioSelectionMode → Bool
AudioSelectionMode-is_none AudioSelectionMode.none = true
AudioSelectionMode-is_none _ = false

-- `_map_nvenc_preset`
unfoldable pub map_nvenc_preset : String → String
map_nvenc_preset preset =
    let mapping : Dict String =
      ("ultrafast", "p1")
      ∷ ("superfast", "p2")
      ∷ ("veryfast", "p3")
      ∷ ("faster", "p4")
      ∷ ("fast", "p5")
      ∷ ("medium", "p6")
      ∷ ("slow", "p7")
      ∷ ("slower", "p8")
      ∷ ("veryslow", "p9")
      ∷ [] in
    elim (lookup preset mapping) [ none ↦ "p6" | some p ↦ p ]

-- `_append_filter`
abbrev append_filter : Option String → String → String
append_filter none extra = extra
append_filter (some existing) extra = existing <> "," <> extra

abbrev is_vaapi : VideoEncoder → Bool
is_vaapi encoder = encoder == VideoEncoder.h264_vaapi || encoder == VideoEncoder.hevc_vaapi

abbrev is_nvenc : VideoEncoder → Bool
is_nvenc encoder =
    encoder == VideoEncoder.h264_nvenc
    || encoder == VideoEncoder.hevc_nvenc
    || encoder == VideoEncoder.av1_nvenc

module _ (texts : Texts) where
  -- the option of the quality, by encoder
  abbrev quality_args : VideoEncoder → String → List String
  quality_args VideoEncoder.h264_nvenc quality = "-rc:v" ∷ "constqp" ∷ "-qp:v" ∷ quality ∷ []
  quality_args VideoEncoder.hevc_nvenc quality = "-rc:v" ∷ "constqp" ∷ "-qp:v" ∷ quality ∷ []
  quality_args VideoEncoder.av1_nvenc quality = "-rc:v" ∷ "constqp" ∷ "-qp:v" ∷ quality ∷ []
  quality_args VideoEncoder.h264_qsv quality = "-global_quality" ∷ quality ∷ []
  quality_args VideoEncoder.hevc_qsv quality = "-global_quality" ∷ quality ∷ []
  quality_args VideoEncoder.h264_videotoolbox quality = "-q:v" ∷ quality ∷ []
  quality_args VideoEncoder.hevc_videotoolbox quality = "-q:v" ∷ quality ∷ []
  quality_args VideoEncoder.h264_vaapi quality = "-qp:v" ∷ quality ∷ []
  quality_args VideoEncoder.hevc_vaapi quality = "-qp:v" ∷ quality ∷ []
  quality_args _ quality = "-crf" ∷ quality ∷ []

  -- `video.average_bitrate or 0`
  abbrev bitrate_or_zero : Option ℤ → ℤ
  bitrate_or_zero none = pos 0
  bitrate_or_zero (some bitrate) = bitrate

  -- `_video_quality_args`
  unfoldable pub video_quality_args : VideoEncoder → VideoProfile → List String
  video_quality_args encoder video =
      if video.quality_mode == QualityMode.average_bitrate
      then "-b:v" ∷ (texts.str_int (bitrate_or_zero video.average_bitrate) <> "k") ∷ []
      else quality_args encoder (texts.str_int_float video.quality)

  -- `_video_encoder_tuning_args`
  unfoldable pub video_encoder_tuning_args : VideoEncoder → VideoProfile → List String
  unfolding map_nvenc_preset
  video_encoder_tuning_args encoder video =
      let tune = if video.encoder_tune == "" then [] else "-tune" ∷ video.encoder_tune ∷ [] in
      let args =
        if encoder == VideoEncoder.libx264
        then "-preset" ∷ video.encoder_preset ∷ tune
        else if encoder == VideoEncoder.libx265
        then "-preset" ∷ video.encoder_preset ∷ []
        else if is_nvenc encoder
        then "-preset" ∷ map_nvenc_preset video.encoder_preset ∷ []
        else [] in
      args
      ++ (if video.frame_rate_type == FrameRateType.custom
          then elim video.frame_rate [ none ↦ [] | some rate ↦ "-r" ∷ texts.str_float rate ∷ [] ]
          else [])

  -- `_build_video_filter`
  unfoldable pub build_video_filter : Option ℤ → Option ℤ → Option String
  build_video_filter (some width) (some height) =
      some ("scale=" <> texts.str_int width <> ":" <> texts.str_int height)
  build_video_filter (some width) none = some ("scale=" <> texts.str_int width <> ":-2")
  build_video_filter none (some height) = some ("scale=-2:" <> texts.str_int height)
  build_video_filter none none = none

  -- The two lists that the loop over the audio tracks extends, from an index on.
  unfoldable pub map_audio_tracks : ℕ → List AudioTrack → List String × List String
  map_audio_tracks index [] = ([], [])
  map_audio_tracks index (track ∷ tracks) =
      let (maps, args) = map_audio_tracks (suc index) tracks in
      let i = texts.str_index index in
      let rate : List String = elim track.sample_rate [
        | none ↦ []
        | some r ↦ ("-ar:a:" <> i) ∷ texts.str_int r ∷ []
      ] in
      let own : List String =
        if track.copy_track
        then ("-c:a:" <> i) ∷ "copy" ∷ []
        else ("-c:a:" <> i)
          ∷ track.codec
          ∷ ("-b:a:" <> i)
          ∷ (texts.str_int track.bit_rate <> "k")
          ∷ rate in
      ("-map" ∷ ("0:a:" <> i) ∷ maps, own ++ args)

  -- the part of `map_profile` for the audio
  unfoldable pub map_audio : VshiftProfile → List String × List String
  unfolding map_audio_tracks
  map_audio profile =
      if AudioSelectionMode-is_none profile.audio_selection_mode
      then ([], [])
      else if is_empty profile.audio_tracks
      then ("-map" ∷ "0:a:0?" ∷ [], "-c:a" ∷ "aac" ∷ "-b:a" ∷ "160k" ∷ [])
      else map_audio_tracks 0 profile.audio_tracks

  -- `option` with its text, unless that is empty or "auto"
  abbrev unless_auto : String → String → List String
  unless_auto option text = if text == "" || text == "auto" then [] else option ∷ text ∷ []

  -- the pixel format that `map_profile` asks for
  unfoldable pub pixel_format : VideoProfile → String
  pixel_format video =
      if video.grayscale
      then "gray"
      else if (video.bit_depth == 10) && contains ("h265" ∷ "hevc" ∷ "av1" ∷ []) (lower video.codec)
      then "yuv420p10le"
      else video.color_space

  -- `ProfileMapper.map_profile`
  unfoldable pub map_profile : VshiftProfile → VideoEncoder → MappedFfmpegCommand
  unfolding map_audio video_quality_args video_encoder_tuning_args build_video_filter pixel_format
  map_profile profile encoder =
      let video = profile.video in
      let (audio_maps, audio_args) = map_audio profile in
      let filter = build_video_filter video.width video.height in
      record {
        maps = "-map" ∷ "0:v:0" ∷ audio_maps;
        video_args =
            "-c:v" ∷ value encoder ∷ video_quality_args encoder video
            ++ video_encoder_tuning_args encoder video
            ++ unless_auto "-profile:v" video.encoder_profile
            ++ unless_auto "-level:v" video.encoder_level
            ++ "-pix_fmt" ∷ pixel_format video ∷ [];
        video_filter =
            if is_vaapi encoder then some (append_filter filter "format=nv12,hwupload") else filter;
        audio_args = audio_args;
        output_args =
            if (profile.format == "mp4") && profile.optimize
            then "-movflags" ∷ "+faststart" ∷ []
            else [];
        input_args = if is_vaapi encoder then "-vaapi_device" ∷ "/dev/dri/renderD128" ∷ [] else [];
      }

  map_audio_tracks-length :
      (index : ℕ) (tracks : List AudioTrack)
      → length (map_audio_tracks index tracks).0 ≡ 2 * length tracks
  unfolding map_audio_tracks
  map_audio_tracks-length index [] = refl
  map_audio_tracks-length index (track ∷ tracks) =
      omega (arith, map_audio_tracks-length (suc index) tracks)

  -- the streams that a profile takes over besides the video
  abbrev pub audio_streams : VshiftProfile → ℕ
  audio_streams profile =
      if AudioSelectionMode-is_none profile.audio_selection_mode
      then 0
      else if is_empty profile.audio_tracks
      then 1
      else length profile.audio_tracks

  -- The command maps the video stream and one stream for each audio track, one stream where the
  -- profile has no tracks, and none where its selection mode is none.
  pub map_profile-maps :
      (profile : VshiftProfile) (encoder : VideoEncoder)
      → length (map_profile profile encoder).maps ≡ 2 + 2 * audio_streams profile
  unfolding map_profile
  map_profile-maps profile encoder = ground (arith, map_audio_tracks-length 0 profile.audio_tracks)
