-- ===== src/Ffmpeg/Probing.antt =====
-- src/vshift/infrastructure/ffmpeg: probe.py and media_prober.py. The operating system and
-- python-ffmpeg are parameters. A width or a height that ffprobe tells is a natural number.
use vshift.Base.{
  ℕ, ℤ, pos, negsuc, true, ◌&&◌, leb, ◌<>◌, String, Bool, not, Option, none, some, List, [], ◌∷◌,
  ◌==◌, string_eq, option_eq, ltb, if◌then◌else◌,
}
use vshift.Base.Exec.{
  Exec, Result, ok, err, other, lift, vshift_exception, pure, raise, gets, raise_if, ◌>>=◌, ◌>>◌,
}
use vshift.Base.FilePath.{FilePath, extension_of}
use vshift.Base.Text.{strip}
use vshift.Job.{Timestamp}
use vshift.Ports.{MediaProber}
use vshift.Ffmpeg.Streams.{ProbeStream, parse_video_stream}

-- `_ProbeFormat` and `_ProbeResult`: what `probe_obj` returns.
pub record ProbeFormat : Type 0 where
  pub size : Option ℕ
  pub duration : Option ℤ

pub record ProbeResult : Type 0 where
  pub format : Option ProbeFormat
  pub streams : Option (Option (List ProbeStream))

-- What `probe_obj` does: it raises `FFMpegExecuteError` with ffprobe's stderr, or it returns.
pub data ProbeAnswer : Type 0 where
  execute_error : (stderr : String) → ProbeAnswer
  answered : Option ProbeResult → ProbeAnswer

-- `CompletedProcess`
pub record Completed : Type 0 where
  pub failed : Bool
  pub stdout : String
  pub stderr : String

-- The operating system: files, processes and clocks. `mkdir` makes the parents and accepts a
-- directory that exists. `run` decodes what the process writes as text, and raises where it cannot
-- or where the program cannot be started.
pub record Os (W : Type 0) : Type 0 where
  pub is_file : FilePath → W → Bool
  pub exists : FilePath → W → Bool
  pub stat_size : FilePath → Exec W ℕ
  pub mkdir : FilePath → Exec W Unit
  pub unlink : FilePath → Exec W Unit
  pub replace : (source target : FilePath) → Exec W Unit
  pub run : List String → Exec W Completed
  pub probe_obj : FilePath → (cmd : String) → Exec W ProbeAnswer
  pub perf_counter : W → ℕ × W
  pub now : W → Timestamp × W

pub record MediaProbe : Type 0 where
  pub size_bytes : ℕ
  pub duration_seconds : Option ℤ
  pub video_codec : Option String
  pub width : Option ℕ
  pub height : Option ℕ
  pub bit_depth : Option ℕ
  pub hdr : Option Bool

-- `Field(ge=0)` for a duration that may be missing, with pydantic's `ValidationError`
abbrev pub not_negative : Option ℤ → Result (Option ℕ)
not_negative none = ok none
not_negative (some (pos n)) = ok (some n)
not_negative (some (negsuc n)) = err (other "ValidationError")

-- `Field(ge=1)` for a width or a height that may be missing
abbrev pub is_size : Option ℕ → Bool
is_size none = true
is_size (some n) = leb 1 n

-- The loop of `_to_media_probe`: the first video stream counts.
unfoldable pub first_video : List ProbeStream → Option ProbeStream
first_video [] = none
first_video (stream ∷ streams) =
    if stream.codec_type == some "video" then some stream else first_video streams

-- `result.streams.stream`, with no stream where one of them is `None`
abbrev pub streams_of : Option (Option (List ProbeStream)) → List ProbeStream
streams_of none = []
streams_of (some none) = []
streams_of (some (some streams)) = streams

-- `result.format.size`, with 0 where it is missing
abbrev format_size : Option ProbeFormat → ℕ
format_size none = 0
format_size (some format) = elim format.size [ none ↦ 0 | some size ↦ size ]

abbrev pub format_duration : Option ProbeFormat → Option ℤ
format_duration none = none
format_duration (some format) = format.duration

-- The record that `_to_media_probe` returns.
unfoldable pub media_probe_of :
    (size_bytes : ℕ) (duration_seconds : Option ℤ) (video : Option ProbeStream) → MediaProbe
unfolding parse_video_stream
media_probe_of size_bytes duration_seconds none = record {
  size_bytes = size_bytes;
  duration_seconds = duration_seconds;
  video_codec = none;
  width = none;
  height = none;
  bit_depth = none;
  hdr = none;
}
media_probe_of size_bytes duration_seconds (some stream) =
    let info = parse_video_stream stream in
    record {
      size_bytes = size_bytes;
      duration_seconds = duration_seconds;
      video_codec = info.codec_name;
      width = info.width;
      height = info.height;
      bit_depth = some info.bit_depth;
      hdr = some info.hdr;
    }

module _ {W : Type 0} (os : Os W) where
  -- `_to_media_probe`
  unfoldable pub to_media_probe : ProbeResult → FilePath → Exec W MediaProbe
  unfolding first_video media_probe_of
  to_media_probe result path = do
    let known = format_size result.format
    size ← if ltb 0 known then pure known else os.stat_size path
    pure (
        media_probe_of size (format_duration result.format)
          (first_video (streams_of result.streams)))

  -- The part of `FfmpegProbe.probe` after `probe_obj`.
  unfoldable pub probe_answer : FilePath → ProbeAnswer → Exec W MediaProbe
  unfolding to_media_probe
  probe_answer path (ProbeAnswer.execute_error stderr) =
      raise (vshift_exception ("ffprobe failed: " <> strip stderr))
  probe_answer path (ProbeAnswer.answered none) =
      raise (vshift_exception "unexpected empty ffprobe response")
  probe_answer path (ProbeAnswer.answered (some result)) = to_media_probe result path

  -- `FfmpegProbe.probe`
  unfoldable pub probe_media : (ffprobe : String) → FilePath → Exec W MediaProbe
  unfolding probe_answer
  probe_media ffprobe path = do
    found ← gets (os.is_file path)
    raise_if (not found) (vshift_exception "media file not found")
    answer ← os.probe_obj path ffprobe
    probe_answer path answer

  -- `FfmpegMediaProber.probe`
  unfoldable pub media_prober : (ffprobe : String) → MediaProber W
  unfolding probe_media
  media_prober ffprobe path = do
    media ← probe_media ffprobe path
    raise_if (not (is_size media.width && is_size media.height)) (other "ValidationError")
    duration_seconds ← lift (not_negative media.duration_seconds)
    pure (record {
      path = path;
      extension = extension_of path;
      width = media.width;
      height = media.height;
      bit_depth = media.bit_depth;
      hdr = media.hdr;
      duration_seconds = duration_seconds;
    })
