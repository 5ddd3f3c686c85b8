-- ===== src/Tests.antt =====
-- Runs of the models at concrete inputs, over the stores in memory: a profile, jobs and a
-- configuration that the children share.
pub mod Domain
pub mod WorkerRuns
pub mod WorkerLoops
pub mod ServerRuns
pub mod Adapters
pub mod RedisClient
pub mod Serial
pub mod Choices
pub mod JobCodec
pub mod Processes
pub mod RedisRuns
pub mod Pods
pub mod Systems
pub mod Media
pub mod Documents
use vshift.Base.{
  ◌≡◌, refl, ℕ, ◌≤◌, ℤ, pos, String, Bool, true, false, Option, none, some, List, [], ◌∷◌, arith,
  contains, nat_eq,
}
use vshift.Base.FilePath.{FilePath}
use vshift.Base.Dict.{Dict}
use vshift.Profile.{
  VshiftProfile, VideoProfile, VideoEncoder, FrameRateType, QualityMode, FramerateMode,
  AudioSelectionMode, SubtitleSelectionMode,
}
use vshift.Input.{ProbedInput}
use vshift.Config.Criteria.{MatchCriteria, MatchRule}
use vshift.Config.Settings.{
  VshiftConfig, BehaviorSettings, ConfigDirectories, NoMatchAction, InputAfterSuccess,
}
use vshift.Job.{
  Uuid, JobState, pending, claimed, processing, completed, failed, TranscodeJob, job_state_eq,
}
use vshift.Ports.Contract.{View, put_job, put_queue, put_beat}
use vshift.Ports.Memory.{Memory}
use vshift.Lifecycle.{IsWellFormed, IsConsistent, IsIndexed}
use vshift.Lifecycle.Preservation.{
  contains-snoc, put_job-IsConsistent, put_queue-IsConsistent, put_beat-IsConsistent,
  put_job-IsIndexed,
}

abbrev pub video : VideoProfile
video = record {
  codec = "h265";
  encoder = VideoEncoder.libx265;
  color_space = "auto";
  bit_depth = 10;
  frame_rate_type = FrameRateType.same_as_source;
  frame_rate = none;
  framerate_mode = FramerateMode.vfr;
  width = none;
  height = none;
  quality_mode = QualityMode.constant;
  quality = pos 22000000;
  average_bitrate = none;
  encoder_preset = "medium";
  encoder_tune = "";
  encoder_profile = "";
  encoder_level = "";
  multi_pass = false;
  turbo_multi_pass = false;
  grayscale = false;
}

abbrev pub profile : VshiftProfile
profile = record {
  name = "archive";
  description = "";
  format = "mkv";
  video = video;
  audio_tracks = [];
  audio_selection_mode = AudioSelectionMode.auto;
  audio_language_list = [];
  audio_passthrough = true;
  subtitle_tracks = [];
  subtitle_selection_mode = SubtitleSelectionMode.auto;
  subtitle_language_list = [];
  subtitle_passthrough = true;
  chapter_markers = true;
  optimize = false;
}

-- a pending job
abbrev pub waiting : Uuid → TranscodeJob
waiting id = record {
  id = id;
  input_path = "/" ∷ "in" ∷ "film.mp4" ∷ [];
  output_path = "/" ∷ "out" ∷ "film.mkv" ∷ [];
  profile_name = "archive";
  profile_snapshot = profile;
  state = pending;
  worker_id = none;
  created_at = 100;
  claimed_at = none;
  started_at = none;
  completed_at = none;
  attempt = 1;
  error_message = none;
  match_rule_id = "hd";
}

-- a job that a worker runs
abbrev pub running : Uuid → Uuid → TranscodeJob
running id worker = record (waiting id) {
  state = processing;
  worker_id = some worker;
  claimed_at = some 110;
  started_at = some 120;
}

abbrev pub done : Uuid → TranscodeJob
done id = record (waiting id) { state = completed; completed_at = some 130 }

abbrev pub nothing_stored : View
nothing_stored = record {
  jobs = λ id. none;
  index = λ s id. false;
  queue = [];
  dead = [];
  processed = λ path. false;
  alive = λ id. false;
}

-- Two jobs wait, and worker 7 runs a third one, which has a heartbeat.
abbrev pub stocked : View
stocked = put_beat 2 (
    put_job (running 2 7)
      (put_job (waiting 3) (put_job (waiting 1) (put_queue 3 (put_queue 1 nothing_stored)))))

abbrev pub in_memory : View → Memory
in_memory v = record { seen = v; ids = 1 ∷ 2 ∷ 3 ∷ []; clock = 200; next_uuid = 4 }

pub waiting-IsWellFormed : (id : Uuid) → IsWellFormed 3 (waiting id)
waiting-IsWellFormed id = ground arith

pub running-IsWellFormed : (id worker : Uuid) → IsWellFormed 3 (running id worker)
running-IsWellFormed id worker = ground arith

pub stocked-IsConsistent : IsConsistent 3 stocked
stocked-IsConsistent =
    put_beat-IsConsistent 3 _
      (put_job-IsConsistent 3 _
        (put_job-IsConsistent 3 _
          (put_job-IsConsistent 3 _
            (put_queue-IsConsistent 3 _ (put_queue-IsConsistent 3 nothing_stored (ground arith) 1)
              3)
            (waiting 1) (waiting-IsWellFormed 1) (λ _. ground arith) (λ f. cc))
          (waiting 3) (waiting-IsWellFormed 3) (λ _. ground arith) (λ f. cc))
        (running 2 7) (running-IsWellFormed 2 7) (λ p. cc) (λ f. cc))
      2

pub stocked-IsIndexed : IsIndexed stocked
stocked-IsIndexed =
    let x : IsIndexed (put_queue 3 (put_queue 1 nothing_stored)) = ground arith in
    let y =
      put_job-IsIndexed _ (running 2 7)
        (put_job-IsIndexed _ (waiting 3) (put_job-IsIndexed _ (waiting 1) x)) in
    record { listed = y.listed; listed_once = y.listed_once; unlisted = y.unlisted }

abbrev pub probed : ProbedInput
probed = record {
  path = "/" ∷ "in" ∷ "film.mp4" ∷ [];
  extension = "mp4";
  width = some 1920;
  height = some 1080;
  bit_depth = some 8;
  hdr = none;
  duration_seconds = none;
}

abbrev pub any_file : MatchCriteria
any_file = record {
  extensions = [];
  min_width = none;
  max_width = none;
  min_height = none;
  max_height = none;
  min_bit_depth = none;
  max_bit_depth = none;
  hdr = none;
  filename_glob = none;
}

abbrev pub any : MatchRule
any = record { id = "any"; priority = 20; match = any_file; profile = "archive" }

abbrev pub hd : MatchRule
hd = record {
  id = "hd";
  priority = 10;
  match = record any_file { min_height = some 720 };
  profile = "archive";
}

-- A rule for every file, before one for the larger files that has a lower priority number.
abbrev pub rules : List MatchRule
rules = any ∷ hd ∷ []

abbrev pub config : VshiftConfig
config = record {
  version = "1";
  behavior = record {
    no_match = NoMatchAction.default_profile;
    default_profile = some "archive";
    input_after_success = InputAfterSuccess.keep;
    input_move_dir = none;
    file_stability_seconds = 30;
    max_retries = 3;
  };
  directories = record {
    input = "/" ∷ "in" ∷ [];
    output = "/" ∷ "out" ∷ [];
    temp = "/" ∷ "tmp" ∷ [];
  };
  profiles = ("archive", profile) ∷ [];
  rules = rules;
}
