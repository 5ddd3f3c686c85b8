-- ===== src/Ffmpeg/Transcoding.antt =====
-- src/vshift/infrastructure/ffmpeg/transcoder.py. Sizes are compared as a ratio in millionths.
pub mod Outcome
pub mod Stores
pub mod Answering
use vshift.Base.{
  ℕ, ◌*◌, ◌/◌, ◌-◌, ◌<>◌, String, Bool, true, false, not, ◌&&◌, Option, none, some, List, [], ◌∷◌,
  ◌==◌, ltb, string_eq, if◌then◌else◌,
}
use vshift.Base.Exec.{Exec, vshift_exception, pure, raise, lift, gets, call, raise_if, ◌>>=◌, ◌>>◌}
use vshift.Base.FilePath.{FilePath, parent, child, suffix}
use vshift.Base.Text.{strip, has_part}
use vshift.Profile.{VideoEncoder, video_encoder_eq}
use vshift.Job.{Uuid, TranscodeJob, TranscodeResult, JobSummary}
use vshift.Ports.{Transcoder}
use vshift.Ffmpeg.Arguments.{Texts}
use vshift.Ffmpeg.Command.{build}
use vshift.Ffmpeg.Encoders.{Host, is_hardware_encoder, resolve, software_fallback}
use vshift.Ffmpeg.Probing.{Os, Completed, MediaProbe, not_negative, probe_media}
use vshift.Ffmpeg.Version.{version_of}

-- `_HARDWARE_ENCODER_FAILURE_MARKERS`
abbrev hardware_encoder_failure_markers : List String
hardware_encoder_failure_markers =
    "Error creating a MFX session" ∷ "Cannot load libcuda" ∷ "Cannot load nvcuda"
    ∷ "Failed to initialise VAAPI" ∷ "No VA display" ∷ "Error while opening encoder" ∷ []

-- `any(marker in stderr for marker in markers)`
unfoldable pub any_marker : List String → (stderr : String) → Bool
any_marker [] stderr = false
any_marker (marker ∷ markers) stderr =
    if has_part marker stderr then true else any_marker markers stderr

-- `_should_retry_with_software`
unfoldable pub should_retry_with_software :
    (stderr : String) (video_encoder profile_encoder : VideoEncoder) → Bool
unfolding any_marker
should_retry_with_software stderr video_encoder profile_encoder =
    if not (profile_encoder == VideoEncoder.auto)
    then false
    else if not (is_hardware_encoder video_encoder)
    then false
    else any_marker hardware_encoder_failure_markers stderr

-- What the transcoder is made with: the paths of the programs, the directory for unfinished files,
-- the number of threads, and how Python prints a UUID.
pub record TranscoderSettings : Type 0 where
  pub ffmpeg : String
  pub ffprobe : String
  pub temp_dir : Option FilePath
  pub thread_count : Option ℕ
  pub str_uuid : Uuid → String

module _ (texts : Texts) (settings : TranscoderSettings) where
  -- `_format_resolution`
  unfoldable pub format_resolution : (width height : Option ℕ) → Option String
  format_resolution none height = none
  format_resolution (some width) none = none
  format_resolution (some width) (some height) =
      some (texts.str_index width <> "x" <> texts.str_index height)

  -- `self._temp_dir or job.output_path.parent`
  abbrev pub temporary_dir : TranscodeJob → FilePath
  temporary_dir job = elim settings.temp_dir [ none ↦ parent job.output_path | some dir ↦ dir ]

  -- the path that `_temporary_output_path` returns
  abbrev pub temporary_path : TranscodeJob → FilePath
  temporary_path job =
      let kept = suffix job.output_path in
      let ending = if kept == "" then "." <> job.profile_snapshot.format else kept in
      child (temporary_dir job) (settings.str_uuid job.id <> ending <> ".partial")

module _ {W : Type 0} (os : Os W) (host : Host) (texts : Texts)
    (settings : TranscoderSettings) where
  -- `ffmpeg_version`
  unfoldable pub ffmpeg_version : Exec W String
  unfolding version_of
  ffmpeg_version = do
    completed ← os.run (settings.ffmpeg ∷ "-version" ∷ [])
    pure (version_of completed)

  -- `_temporary_output_path`
  unfoldable pub temporary_output_path : TranscodeJob → Exec W FilePath
  temporary_output_path job = do
    os.mkdir (temporary_dir texts settings job)
    pure (temporary_path texts settings job)

  -- `if temp_output.exists(): temp_output.unlink()`
  unfoldable pub discard : FilePath → Exec W Unit
  discard path = do there ← gets (os.exists path); if there then os.unlink path else pure tt

  -- One run of ffmpeg with an encoder.
  unfoldable pub run_encoder : TranscodeJob → FilePath → VideoEncoder → Exec W Completed
  unfolding build
  run_encoder job temp_output encoder = do
    command ←
        lift (build texts host settings.ffmpeg settings.thread_count job temp_output (some encoder))
    os.run command

  -- The second run, with the software encoder, where the first one asks for it.
  unfoldable pub retry_encoder :
      TranscodeJob → FilePath → VideoEncoder → Completed → Exec W Completed
  unfolding should_retry_with_software discard run_encoder
  retry_encoder job temp_output encoder completed =
      let video = job.profile_snapshot.video in
      let retry =
        completed.failed && should_retry_with_software completed.stderr encoder video.encoder in
      if not retry then pure completed else do
        fallback ← lift (software_fallback host video.codec)
        discard temp_output
        run_encoder job temp_output fallback

  -- The end of `transcode`, after ffmpeg.
  unfoldable pub keep_output :
      TranscodeJob → FilePath → (wall_clock_seconds : ℕ) → Completed → Exec W TranscodeResult
  unfolding discard ffmpeg_version format_resolution
  keep_output job temp_output wall_clock_seconds completed =
      if completed.failed
      then (do
        discard temp_output
        raise (
            vshift_exception (
              "ffmpeg failed for job "
              <> settings.str_uuid job.id
              <> ": "
              <> strip completed.stderr)))
      else do
        os.replace temp_output job.output_path
        output_probe ← probe_media os settings.ffprobe job.output_path
        version ← ffmpeg_version
        pure (record {
          output_path = job.output_path;
          wall_clock_seconds = wall_clock_seconds;
          ffmpeg_version = version;
          video_codec_out = job.profile_snapshot.video.codec;
          resolution_out = format_resolution texts settings output_probe.width output_probe.height;
        })

  -- The part of `transcode` from the choice of the encoder to the end of ffmpeg: the unfinished
  -- file, the seconds that ffmpeg took, and how it ended.
  unfoldable pub run_prepared : TranscodeJob → FilePath → Exec W (FilePath × ℕ × Completed)
  unfolding discard run_encoder retry_encoder
  run_prepared job temp_output = do
    discard temp_output
    encoder ← lift (resolve host job.profile_snapshot.video)
    started ← call os.perf_counter
    first ← run_encoder job temp_output encoder
    completed ← retry_encoder job temp_output encoder first
    finished ← call os.perf_counter
    pure (temp_output, finished - started, completed)

  -- The part of `transcode` up to the end of ffmpeg.
  unfoldable pub run_ffmpeg : TranscodeJob → Exec W (FilePath × ℕ × Completed)
  unfolding temporary_output_path run_prepared
  run_ffmpeg job = do
    found ← gets (os.is_file job.input_path)
    raise_if (not found) (vshift_exception "input file not found")
    os.mkdir (parent job.output_path)
    temp_output ← temporary_output_path job
    run_prepared job temp_output

  -- `transcode`
  unfoldable pub transcode : TranscodeJob → Exec W TranscodeResult
  unfolding run_ffmpeg keep_output
  transcode job = do
    (temp_output, wall_clock_seconds, completed) ← run_ffmpeg job
    keep_output job temp_output wall_clock_seconds completed

  -- `build_summary`
  unfoldable pub build_summary : TranscodeJob → TranscodeResult → Exec W JobSummary
  unfolding format_resolution
  build_summary job result = do
    input_probe ← probe_media os settings.ffprobe job.input_path
    output_probe ← probe_media os settings.ffprobe result.output_path
    completed_at ← call os.now
    input_duration_seconds ← lift (not_negative input_probe.duration_seconds)
    pure (record {
      job_id = job.id;
      input_path = job.input_path;
      output_path = result.output_path;
      profile_name = job.profile_name;
      input_size_bytes = input_probe.size_bytes;
      output_size_bytes = output_probe.size_bytes;
      input_duration_seconds = input_duration_seconds;
      compression_ratio =
          if ltb 0 output_probe.size_bytes
          then some (input_probe.size_bytes * 1000000 / output_probe.size_bytes)
          else none;
      wall_clock_seconds = result.wall_clock_seconds;
      ffmpeg_version = result.ffmpeg_version;
      started_at = completed_at - result.wall_clock_seconds;
      completed_at = completed_at;
      video_codec_in = input_probe.video_codec;
      video_codec_out = result.video_codec_out;
      resolution_in = format_resolution texts settings input_probe.width input_probe.height;
      resolution_out = result.resolution_out;
    })

  -- `FfmpegTranscoder`
  unfoldable pub ffmpeg_transcoder : Transcoder W
  unfolding transcode build_summary
  ffmpeg_transcoder = record { transcode = transcode; build_summary = build_summary }
