-- ===== src/Redis.antt =====
-- src/vshift/infrastructure/redis: the stores over a Redis client. The client, the JSON of the
-- models and the text of UUIDs and paths are parameters. A payload is one that the same model
-- wrote, so reading it does not raise.
pub mod Keys
pub mod Stores
pub mod RoundTrip
pub mod Keyspace
pub mod Effects
pub mod Refinement
pub mod Listing
use vshift.Base.{
  ◌≡◌, ℕ, zero, ◌<>◌, String, Bool, true, false, not, ◌&&◌, Option, none, some, List, [], ◌∷◌, Eq,
  ◌==◌, page, is_some, ltb, if◌then◌else◌,
}
use vshift.Base.Sorting.{sorted}
use vshift.Base.FilePath.{FilePath}
use vshift.Job.{
  Uuid, Timestamp, JobState, pending, claimed, processing, completed, failed, TranscodeJob,
  JobSummary, job_state_eq,
}
use vshift.Workers.{WorkerInfo}
use vshift.Api.{newest_first}

-- The commands that the stores send, and the clock and UUIDs of the process.
pub record Client (W : Type 0) : Type 0 where
  pub get : String → W → Option String
  pub set : (key value : String) (ex : Option ℕ) → W → W
  pub delete : String → W → W
  pub exists : String → W → Bool
  pub sadd : (key member : String) → W → W
  pub srem : (key member : String) → W → W
  pub smembers : String → W → List String
  pub lpush : (key value : String) → W → W
  pub rpush : (key value : String) → W → W
  pub rpop : String → W → Option String × W
  pub brpop : String → (timeout : ℕ) → W → Option (String × String) × W
  pub llen : String → W → ℕ
  pub now : W → Timestamp × W
  pub uuid4 : W → Uuid × W

-- `model_dump_json`, `model_validate_json`, `str` and `UUID`, and `_canonical_path`.
pub record Codec : Type 0 where
  pub dump_job : TranscodeJob → String
  pub load_job : String → TranscodeJob
  pub dump_summary : JobSummary → String
  pub load_summary : String → JobSummary
  pub dump_worker : WorkerInfo → String
  pub load_worker : String → WorkerInfo
  pub uuid_text : Uuid → String
  pub uuid_of : String → Uuid
  pub canonical_path : FilePath → String

-- `state.value`
abbrev pub state_value : JobState → String
state_value pending = "pending"
state_value claimed = "claimed"
state_value processing = "processing"
state_value completed = "completed"
state_value failed = "failed"

pub record RedisKeys : Type 0 where
  pub prefix : String

-- how long Redis keeps what it is given
pub record Ttls : Type 0 where
  pub ttl_seconds : ℕ
  pub worker_ttl_seconds : ℕ
  pub job_heartbeat_ttl_seconds : ℕ

module _ (keys : RedisKeys) (codec : Codec) where
  abbrev pub pending_queue : String
  pending_queue = keys.prefix <> ":queue:pending"

  abbrev pub dead_letter_queue : String
  dead_letter_queue = keys.prefix <> ":dlq"

  abbrev pub job_key : Uuid → String
  job_key id = keys.prefix <> ":job:" <> codec.uuid_text id

  abbrev pub job_summary_key : Uuid → String
  job_summary_key id = keys.prefix <> ":job:" <> codec.uuid_text id <> ":summary"

  abbrev pub job_heartbeat_key : Uuid → String
  job_heartbeat_key id = keys.prefix <> ":job:" <> codec.uuid_text id <> ":heartbeat"

  abbrev pub job_state_index : JobState → String
  job_state_index s = keys.prefix <> ":jobs:state:" <> state_value s

  abbrev pub worker_key : Uuid → String
  worker_key id = keys.prefix <> ":workers:" <> codec.uuid_text id

  abbrev pub workers_index : String
  workers_index = keys.prefix <> ":workers:index"

  abbrev pub processed_file : FilePath → String
  processed_file path = keys.prefix <> ":processed:" <> codec.canonical_path path
