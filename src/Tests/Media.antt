-- ===== src/Tests/Media.antt =====
-- The transcoder over files in memory, with an ffmpeg that fails, and the folder that is scanned.
use vshift.Base.{
  ◌≡◌, refl, ◌≢◌, ℕ, ◌+◌, String, Bool, true, false, Option, none, some, List, [], ◌∷◌, ◌++◌, map,
  All, Eq, ◌==◌, string_eq, nat_eq, arith, ℕ_discrete, if◌then◌else◌, is_some, leb,
}
use mathlib.Core.Logic.{dite}
use vshift.Base.Exec.{ok, err, vshift_exception, pure, ◌>>=◌}
use vshift.Base.FilePath.{FilePath, child, suffix, parent}
use vshift.Job.{TranscodeJob}
use vshift.Profile.{VideoEncoder, video_encoder_eq}
use vshift.Ports.Memory.{Memory, memory, memory-IsLawful}
use vshift.Ffmpeg.Arguments.{Texts}
use vshift.Ffmpeg.Encoders.{Host, resolve}
use vshift.Ffmpeg.Encoders.Detection.{
  Coder, Devices, video_names, resolve_on_host, IsVideoCoder, HasDevice,
  resolve_on_host-IsVideoCoder,
}
use vshift.Ffmpeg.Probing.{Os, Completed, ProbeAnswer}
use vshift.Ffmpeg.Transcoding.{
  TranscoderSettings, temporary_path, run_ffmpeg, transcode, ffmpeg_transcoder,
}
use vshift.Ffmpeg.Transcoding.Outcome.{IsFiles, failure, transcode-fails}
use vshift.Base.Answers.{IsVshiftException, Answers-pure}
use vshift.Ports.Contract.{View}
use vshift.Worker.Attempts.{IsAnswering}
use vshift.Ffmpeg.Transcoding.Answering.{OsAnswers, ffmpeg_transcoder-IsAnswering}
use vshift.Tests.{waiting, video}
use vshift.Tests.WorkerRuns.{seen}

path_dec : Discrete FilePath
path_dec [] [] = yes refl
path_dec [] (q ∷ qs) = no (λ e. cc)
path_dec (p ∷ ps) [] = no (λ e. cc)
path_dec (p ∷ ps) (q ∷ qs) =
    let rest = path_dec ps qs in
    dite (string_eq.dec p q)
      (λ first. dite rest (λ others. yes (cc)) (λ differ. no (λ e. differ (cc))))
      (λ differ. no (λ e. differ (cc)))

instance path_eq : Eq FilePath
unfolding path_dec
path_eq = record { dec = path_dec }

is_some-false : (o : Option String) → is_some o ≡ false → o ≡ none
is_some-false none e = refl
is_some-false (some s) e = absurd (ground arith)

-- what each file holds
abbrev Disk : Type 0
Disk = FilePath → Option String

abbrev pub broken : Completed
broken = record { failed = true; stdout = ""; stderr = "Invalid data found" }

-- An ffmpeg that fails and writes nothing.
abbrev os : Os Disk
os = record {
  is_file = λ path w. true;
  exists = λ path w. is_some (w path);
  stat_size = λ path. pure 1;
  mkdir = λ path. pure tt;
  unlink = λ path w. (ok tt, λ other. if other == path then none else w other);
  replace = λ source target w. (ok tt, λ other. if other == target then w source else w other);
  run = λ args. pure broken;
  probe_obj = λ path cmd. pure (ProbeAnswer.answered none);
  perf_counter = λ w. (0, w);
  now = λ w. (0, w);
}

abbrev pub host : Host
host = record {
  available_encoders = "libx265" ∷ [];
  is_darwin = false;
  intel_gpu_available = false;
  nvidia_gpu_available = false;
}

-- a path as its name
abbrev pub texts : Texts
texts = record {
  str_index = λ n. "0";
  str_int = λ n. "22";
  str_float = λ n. "24.0";
  str_int_float = λ n. "22";
  str_path = λ path. vshift.Base.FilePath.name path;
}

abbrev settings : TranscoderSettings
settings = record {
  ffmpeg = "ffmpeg";
  ffprobe = "ffprobe";
  temp_dir = some ("/" ∷ "tmp" ∷ []);
  thread_count = none;
  str_uuid = λ id. "1";
}

os-IsFiles : IsFiles os texts (λ path w. w path)
unfolding pure
os-IsFiles = record {
  mkdir_lem = λ path p w. refl;
  perf_counter_lem = λ p w. refl;
  exists_lem = λ p w missing. is_some-false (w p) missing;
  unlink_lem = λ p w there. (refl, ground arith);
  unlink_other = λ p q w apart. ground arith;
  run_lem = λ args p w other. refl;
}

abbrev job : TranscodeJob
job = waiting 1

-- An output of an earlier run, and an unfinished file.
abbrev disk : Disk
disk path = if path == job.output_path then some "film" else some "partial"

ran :
    (run_ffmpeg os host texts settings job disk).0
    ≡ ok ("/" ∷ "tmp" ∷ "1.mkv.partial" ∷ [], 0, broken)
unfolding run_ffmpeg ◌>>=◌ path_eq string_eq video_encoder_eq resolve suffix ℕ_discrete
ran = refl

differ : {A : Type 0} ⦃e : Eq A⦄ (a b : A) → (a == b) ≡ false → a ≢ b
differ a b h same = ground arith

apart : job.output_path ≢ temporary_path texts settings job
unfolding path_eq string_eq
apart = differ job.output_path (temporary_path texts settings job) refl

named_apart : texts.str_path job.output_path ≢ texts.str_path (temporary_path texts settings job)
unfolding vshift.Base.FilePath.name suffix string_eq ℕ_discrete
named_apart =
    differ (texts.str_path job.output_path) (texts.str_path (temporary_path texts settings job))
      refl

transcode-fails_example :
    let (result, w') = transcode os host texts settings job disk in
    (result
      ≡ err (
          vshift_exception
            (failure os host texts settings (λ path w. w path) os-IsFiles job broken)))
    × (w' job.output_path ≡ disk job.output_path)
    × (w' (temporary_path texts settings job) ≡ none)
transcode-fails_example =
    transcode-fails os host texts settings (λ path w. w path) os-IsFiles job disk
      ("/" ∷ "tmp" ∷ "1.mkv.partial" ∷ []) 0 broken apart named_apart ran refl

-- An operating system beside the stores.
abbrev beside : Os Memory
beside = record {
  is_file = λ path w. true;
  exists = λ path w. false;
  stat_size = λ path. pure 1;
  mkdir = λ path. pure tt;
  unlink = λ path. pure tt;
  replace = λ source target. pure tt;
  run = λ args. pure broken;
  probe_obj = λ path cmd. pure (ProbeAnswer.answered none);
  perf_counter = λ w. (0, w);
  now = λ w. (0, w);
}

beside-OsAnswers : (v : View) → OsAnswers IsVshiftException (λ w. seen w ≡ v) beside
unfolding pure
beside-OsAnswers v = record {
  stat_size_answers = λ path. Answers-pure 1;
  mkdir_answers = λ path. Answers-pure tt;
  unlink_answers = λ path. Answers-pure tt;
  replace_answers = λ source target. Answers-pure tt;
  run_answers = λ args. Answers-pure broken;
  probe_obj_answers = λ path cmd. Answers-pure _;
  duration_answers = λ path cmd w. tt;
  perf_counter_keeps = λ w h. h;
  now_keeps = λ w h. h;
}

ffmpeg_transcoder-IsAnswering_example :
    IsAnswering memory seen memory-IsLawful (ffmpeg_transcoder beside host texts settings)
ffmpeg_transcoder-IsAnswering_example =
    ffmpeg_transcoder-IsAnswering memory seen memory-IsLawful beside host texts settings
      beside-OsAnswers

-- An ffmpeg that lists its encoders.
abbrev listing : Os Disk
listing = record os {
  run = λ args. pure (record { failed = false; stdout = " V libx265 A aac"; stderr = "" });
}

-- A host without graphics devices.
abbrev no_devices : Devices Disk
no_devices = record { is_darwin = false; is_dir = λ path w. false; glob = λ path pattern w. [] }

abbrev coders : String → List Coder
coders output =
    record { name = "aac"; video = false } ∷ record { name = "libx265"; video = true } ∷ []

abbrev no_files : Disk
no_files = λ path. none

resolved :
    resolve_on_host listing no_devices coders "ffmpeg" none video no_files
    ≡ (ok VideoEncoder.libx265, no_files)
unfolding resolve_on_host resolve string_eq video_encoder_eq ◌>>=◌ video_names
resolved = refl

resolve_on_host-IsVideoCoder_example :
    (completed : Completed) × (listing.run ("ffmpeg" ∷ "-hide_banner" ∷ "-encoders" ∷ []) no_files
      ≡ (ok completed, no_files))
    × (completed.failed ≡ false)
    × IsVideoCoder (coders completed.stdout) "libx265"
    × HasDevice listing no_devices coders VideoEncoder.libx265 no_files
resolve_on_host-IsVideoCoder_example =
    resolve_on_host-IsVideoCoder listing no_devices coders "ffmpeg" video VideoEncoder.libx265
      no_files no_files resolved
