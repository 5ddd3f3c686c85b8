-- ===== src/Job.antt =====
-- src/vshift/domain/job and src/vshift/domain/transcoding: the job, its states and its results.
-- A UUID is its number, `uuid.int`. A time is counted in millionths of a second, as a `float` is.
pub mod Transitions
pub mod Copies
use vshift.Base.{ℕ, String, Bool, true, false, Option, List, [], ◌∷◌, Eq, contains, if◌then◌else◌}
use vshift.Base.Exec.{Result, ok, err, vshift_exception}
use vshift.Base.FilePath.{FilePath}
use vshift.Profile.{VshiftProfile}

abbrev pub Uuid : Type 0
Uuid = ℕ

abbrev pub Timestamp : Type 0
Timestamp = ℕ

pub data JobState : Type 0 where
  pending claimed processing completed failed : JobState

JobState-discrete : Discrete JobState
JobState-discrete = hlevel

instance unfoldable pub job_state_eq : Eq JobState
unfolding JobState-discrete
job_state_eq = record { dec = JobState-discrete }

-- `_VALID_TRANSITIONS`
abbrev valid_transitions : JobState → List JobState
valid_transitions pending = claimed ∷ failed ∷ []
valid_transitions claimed = processing ∷ pending ∷ failed ∷ []
valid_transitions processing = completed ∷ pending ∷ failed ∷ []
valid_transitions completed = []
valid_transitions failed = []

unfoldable pub can_transition : JobState → JobState → Bool
unfolding job_state_eq
can_transition from to = contains (valid_transitions from) to

-- `JobStateMachine.transition`. The message names both states; only its head is kept.
unfoldable pub transition : JobState → JobState → Result JobState
unfolding can_transition
transition from to =
    if can_transition from to then ok to else err (vshift_exception "invalid job state transition")

pub record TranscodeJob : Type 0 where
  pub id : Uuid
  pub input_path : FilePath
  pub output_path : FilePath
  pub profile_name : String
  pub profile_snapshot : VshiftProfile
  pub state : JobState
  pub worker_id : Option Uuid
  pub created_at : Timestamp
  pub claimed_at : Option Timestamp
  pub started_at : Option Timestamp
  pub completed_at : Option Timestamp
  pub attempt : ℕ
  pub error_message : Option String
  pub match_rule_id : String

pub record TranscodeResult : Type 0 where
  pub output_path : FilePath
  pub wall_clock_seconds : ℕ
  pub ffmpeg_version : String
  pub video_codec_out : String
  pub resolution_out : Option String

pub record JobSummary : Type 0 where
  pub job_id : Uuid
  pub input_path : FilePath
  pub output_path : FilePath
  pub profile_name : String
  pub input_size_bytes : ℕ
  pub output_size_bytes : ℕ
  pub input_duration_seconds : Option ℕ
  pub compression_ratio : Option ℕ
  pub wall_clock_seconds : ℕ
  pub ffmpeg_version : String
  pub started_at : Timestamp
  pub completed_at : Timestamp
  pub video_codec_in : Option String
  pub video_codec_out : String
  pub resolution_in : Option String
  pub resolution_out : Option String
