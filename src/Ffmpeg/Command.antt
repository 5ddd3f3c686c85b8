-- ===== src/Ffmpeg/Command.antt =====
-- src/vshift/infrastructure/ffmpeg/command_builder.py and container_format.py.
use vshift.Base.{
  ℕ, String, Option, none, some, List, [], ◌∷◌, ◌++◌, ◌==◌, string_eq, nat_eq, if◌then◌else◌,
}
use vshift.Base.Exec.{Result, ok, and_then}
use vshift.Base.Text.{lower}
use vshift.Base.Dict.{Dict, lookup}
use vshift.Base.FilePath.{FilePath}
use vshift.Profile.{VideoEncoder, quality_mode_eq, frame_rate_type_eq, video_encoder_eq}
use vshift.Job.{TranscodeJob}
use vshift.Ffmpeg.Encoders.{Host, resolve}
use vshift.Ffmpeg.Arguments.{Texts, map_profile}

-- `ffmpeg_muxer_format`
unfoldable pub ffmpeg_muxer_format : String → String
ffmpeg_muxer_format container_format =
    let formats : Dict String =
      ("mkv", "matroska")
      ∷ ("mp4", "mp4")
      ∷ ("webm", "webm")
      ∷ ("avi", "avi")
      ∷ ("mov", "mov")
      ∷ [] in
    elim (lookup (lower container_format) formats) [ none ↦ container_format | some muxer ↦ muxer ]

module _ (texts : Texts) where
  -- the command of `FfmpegCommandBuilder.build` before its last `extend`
  unfoldable pub command_front :
      (ffmpeg : String) (thread_count : Option ℕ) → TranscodeJob → VideoEncoder → List String
  unfolding map_profile
  command_front ffmpeg thread_count job encoder =
      let mapped = map_profile texts job.profile_snapshot encoder in
      let threads : List String = elim thread_count [
        | none ↦ []
        | some n ↦ if n == 0 then [] else "-threads" ∷ texts.str_index n ∷ []
      ] in
      let filter : List String = elim mapped.video_filter [ none ↦ [] | some f ↦ "-vf" ∷ f ∷ [] ] in
      ffmpeg ∷ "-hide_banner" ∷ "-nostdin" ∷ "-y" ∷ threads
      ++ mapped.input_args
      ++ "-i" ∷ texts.str_path job.input_path ∷ mapped.maps
      ++ mapped.video_args
      ++ filter
      ++ mapped.audio_args
      ++ mapped.output_args

  -- the end of `FfmpegCommandBuilder.build`, for the encoder that was resolved
  unfoldable pub build_command :
      (ffmpeg : String) (thread_count : Option ℕ)
      → TranscodeJob
      → FilePath
      → VideoEncoder
      → List String
  unfolding command_front ffmpeg_muxer_format
  build_command ffmpeg thread_count job output_path encoder =
      command_front ffmpeg thread_count job encoder
      ++ "-f" ∷ ffmpeg_muxer_format job.profile_snapshot.format ∷ texts.str_path output_path ∷ []

  -- `FfmpegCommandBuilder.build`
  unfoldable pub build :
      Host
      → (ffmpeg : String) (thread_count : Option ℕ) → TranscodeJob
      → FilePath
      → Option VideoEncoder
      → Result (List String)
  unfolding build_command
  build host ffmpeg thread_count job output_path encoder =
      let resolved : Result VideoEncoder = elim encoder [
        | none ↦ resolve host job.profile_snapshot.video
        | some e ↦ ok e
      ] in
      and_then resolved (λ e. ok (build_command ffmpeg thread_count job output_path e))
