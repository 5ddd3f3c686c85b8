-- ===== src/Tests/Adapters.antt =====
-- The adapters at concrete inputs: encoders on a host, a page of jobs, and what the Redis stores
-- are given.
use vshift.Base.{
  ◌≡◌, refl, ℕ, ◌+◌, ◌≤◌, ◌++◌, Holds, length, false, none, [], ◌∷◌, string_eq, nat_eq, ◌==◌,
  if◌then◌else◌,
}
use vshift.Base.Exec.{ok}
use vshift.Base.Text.{lower}
use vshift.Profile.{VideoProfile, VideoEncoder, video_encoder_eq}
use vshift.Base.Sorting.{IsSorted}
use vshift.Ports.Memory.{memory}
use vshift.Api.{list_jobs, newest_first}
use vshift.Api.Pages.{list_jobs-pages}
use vshift.Job.{JobState, TranscodeJob, JobSummary, job_state_eq}
use vshift.Workers.{WorkerInfo}
use vshift.Ffmpeg.Encoders.{Host, first_usable, resolve, candidates, software_fallback}
use vshift.Ffmpeg.Encoders.Resolution.{Runs, resolve-succeeds}
use vshift.Ffmpeg.Arguments.{Texts}
use vshift.Redis.{Codec}
use vshift.Tests.{video, profile, stocked, in_memory}
use vshift.Tests as Data

-- a Linux host without a GPU
abbrev host : Host
host = record {
  available_encoders = "libx264" ∷ "libx265" ∷ "hevc_nvenc" ∷ [];
  is_darwin = false;
  intel_gpu_available = false;
  nvidia_gpu_available = false;
}

abbrev auto_video : VideoProfile
auto_video = record video { encoder = VideoEncoder.auto }

resolves : resolve host auto_video ≡ ok VideoEncoder.libx265
unfolding resolve string_eq video_encoder_eq lower
resolves = refl

no_av1 : first_usable host (candidates "av1") ≡ none
unfolding first_usable string_eq
no_av1 = refl

falls_back : software_fallback host "h265" ≡ ok VideoEncoder.libx265
unfolding software_fallback string_eq lower
falls_back = refl

resolve-succeeds_example :
    (encoder : VideoEncoder) × (resolve host auto_video ≡ ok encoder) × Runs host encoder
resolve-succeeds_example = resolve-succeeds host auto_video VideoEncoder.libx265 refl falls_back

abbrev texts : Texts
texts = record {
  str_index = λ n. "0";
  str_int = λ n. "22";
  str_float = λ n. "24.0";
  str_int_float = λ n. "22";
  str_path = λ path. "/in/film.mp4";
}

list_jobs-pages_example :
    let jobs = list_jobs memory none 2 1 (in_memory stocked) in
    (length jobs ≤ 2)
    × IsSorted newest_first jobs
    × ((more : ℕ)
        → jobs ++ list_jobs memory none more (1 + 2) (in_memory stocked)
          ≡ list_jobs memory none (2 + more) 1 (in_memory stocked))
    × ((s : JobState) (job : TranscodeJob)
        → Holds job (memory.list_by_state s 1000 0 (in_memory stocked))
        → (long : ℕ) × Holds job (list_jobs memory none long 0 (in_memory stocked)))
    × ((job : TranscodeJob)
        → Holds job jobs
        → (s : JobState) × Holds job (memory.list_by_state s 1000 0 (in_memory stocked)))
list_jobs-pages_example = list_jobs-pages memory (in_memory stocked) 2 1

abbrev pub saved_job : TranscodeJob
saved_job = Data.waiting 1

abbrev some_worker : WorkerInfo
some_worker = record {
  worker_id = 7;
  hostname = "node";
  created_at = 0;
  last_seen_at = 0;
  status = vshift.Workers.WorkerStatus.idle;
  capabilities = record { ffmpeg_version = "7.1"; encoders = []; max_concurrent_jobs = 1 };
  hardware = record {
    platform = "linux";
    architecture = "x86_64";
    cpu_model = none;
    cpu_cores = none;
    memory_total_bytes = none;
    gpu_devices = [];
  };
}

abbrev some_summary : JobSummary
some_summary = record {
  job_id = 1;
  input_path = [];
  output_path = [];
  profile_name = "archive";
  input_size_bytes = 2000;
  output_size_bytes = 1000;
  input_duration_seconds = none;
  compression_ratio = none;
  wall_clock_seconds = 60;
  ffmpeg_version = "7.1";
  started_at = 120;
  completed_at = 180;
  video_codec_in = none;
  video_codec_out = "libx265";
  resolution_in = none;
  resolution_out = none;
}

-- A codec for one job, one worker and the UUIDs 1 and 2.
abbrev pub codec : Codec
codec = record {
  dump_job = λ job. "job";
  load_job = λ payload. saved_job;
  dump_summary = λ summary. "summary";
  load_summary = λ payload. some_summary;
  dump_worker = λ worker. "worker";
  load_worker = λ payload. some_worker;
  uuid_text = λ id. if id == 1 then "one" else "two";
  uuid_of = λ text. if text == "one" then 1 else 2;
  canonical_path = λ path. "/in/film.mp4";
}
