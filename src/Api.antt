-- ===== src/Api.antt =====
-- src/vshift/infrastructure/api: the queries of the jobs' routes.
pub mod Pages
use vshift.Base.{ℕ, String, Bool, Option, none, some, List, [], ◌∷◌, ◌++◌, map, leb, page}
use vshift.Base.Sorting.{sorted}
use vshift.Base.FilePath.{FilePath}
use vshift.Job.{
  Uuid, Timestamp, JobState, pending, claimed, processing, completed, failed, TranscodeJob,
  JobSummary,
}
use vshift.Ports.{Stores}

pub record JobResponse : Type 0 where
  pub id : Uuid
  pub input_path : FilePath
  pub output_path : FilePath
  pub profile_name : String
  pub state : JobState
  pub worker_id : Option Uuid
  pub created_at : Timestamp
  pub claimed_at : Option Timestamp
  pub started_at : Option Timestamp
  pub completed_at : Option Timestamp
  pub attempt : ℕ
  pub error_message : Option String
  pub match_rule_id : String

unfoldable pub job_to_response : TranscodeJob → JobResponse
job_to_response job = record {
  id = job.id;
  input_path = job.input_path;
  output_path = job.output_path;
  profile_name = job.profile_name;
  state = job.state;
  worker_id = job.worker_id;
  created_at = job.created_at;
  claimed_at = job.claimed_at;
  started_at = job.started_at;
  completed_at = job.completed_at;
  attempt = job.attempt;
  error_message = job.error_message;
  match_rule_id = job.match_rule_id;
}

pub record JobSummaryResponse : Type 0 where
  pub job_id : Uuid
  pub input_path : FilePath
  pub output_path : FilePath
  pub profile_name : String
  pub input_size_bytes : ℕ
  pub output_size_bytes : ℕ
  pub input_duration_seconds : Option ℕ
  pub compression_ratio : Option ℕ
  pub wall_clock_seconds : ℕ
  pub ffmpeg_version : String
  pub started_at : Timestamp
  pub completed_at : Timestamp
  pub video_codec_in : Option String
  pub video_codec_out : String
  pub resolution_in : Option String
  pub resolution_out : Option String

-- `JobSummaryResponse.model_validate(summary, from_attributes=True)`
abbrev pub summary_to_response : JobSummary → JobSummaryResponse
summary_to_response summary = record {
  job_id = summary.job_id;
  input_path = summary.input_path;
  output_path = summary.output_path;
  profile_name = summary.profile_name;
  input_size_bytes = summary.input_size_bytes;
  output_size_bytes = summary.output_size_bytes;
  input_duration_seconds = summary.input_duration_seconds;
  compression_ratio = summary.compression_ratio;
  wall_clock_seconds = summary.wall_clock_seconds;
  ffmpeg_version = summary.ffmpeg_version;
  started_at = summary.started_at;
  completed_at = summary.completed_at;
  video_codec_in = summary.video_codec_in;
  video_codec_out = summary.video_codec_out;
  resolution_in = summary.resolution_in;
  resolution_out = summary.resolution_out;
}

-- `key=lambda job: job.created_at, reverse=True`: Python keeps the order of equal keys.
abbrev pub newest_first : TranscodeJob → TranscodeJob → Bool
newest_first a b = leb b.created_at a.created_at

-- what `HTTPException(status_code=404, ...)` ends a request with, or the body of the answer
pub data Response (A : Type 0) : Type 0 where
  found : A → Response A
  not_found : String → Response A

module _ {W : Type 0} (P : Stores W) where
  -- the loop over the states in `list_jobs`
  unfoldable pub all_jobs : List JobState → W → List TranscodeJob
  all_jobs [] w = []
  all_jobs (s ∷ states) w = P.list_by_state s 1000 0 w ++ all_jobs states w

  -- `list_jobs`
  unfoldable pub list_jobs : Option JobState → (limit offset : ℕ) → W → List TranscodeJob
  unfolding all_jobs
  list_jobs (some s) limit offset w = P.list_by_state s limit offset w
  list_jobs none limit offset w =
      page limit offset (
        sorted newest_first (all_jobs (pending ∷ claimed ∷ processing ∷ completed ∷ failed ∷ []) w))

  -- `get_jobs`
  unfoldable pub get_jobs : Option JobState → (limit offset : ℕ) → W → List JobResponse
  unfolding list_jobs job_to_response
  get_jobs s limit offset w = map job_to_response (list_jobs s limit offset w)

  -- `get_job`
  unfoldable pub get_job : Uuid → W → Response JobResponse
  unfolding job_to_response
  get_job id w = elim (P.get id w) [
    | none ↦ not_found "job not found"
    | some job ↦ found (job_to_response job)
  ]

  -- `get_job_summary`
  unfoldable pub get_job_summary : Uuid → W → Response JobSummaryResponse
  get_job_summary id w = elim (P.get_summary id w) [
    | none ↦ not_found "job summary not found"
    | some summary ↦ found (summary_to_response summary)
  ]
