-- ===== src/Ports.antt =====
-- src/vshift/ports: what the use cases ask of the stores and of the world, over a state `W`.
-- A call that Redis answers cannot raise here: a lost connection ends the process's turn and is
-- outside the model. ffprobe, ffmpeg and Kubernetes may raise. A call that waits, such as
-- `dequeue`, is its effect at the moment when it returns.
pub mod Contract
pub mod Memory
use vshift.Base.{ℕ, String, Bool, Option, List}
use vshift.Base.Exec.{Exec}
use vshift.Base.FilePath.{FilePath}
use vshift.Input.{ProbedInput}
use vshift.Job.{Uuid, Timestamp, JobState, TranscodeJob, TranscodeResult, JobSummary}
use vshift.Workers.{WorkerInfo}

-- `JobRepository`, `TaskQueue`, `ProcessedFileStore` and `WorkerRegistry`, with the two sources
-- `datetime.now` and `uuid4` of Python's library.
pub record Stores (W : Type 0) : Type 0 where
  pub save : TranscodeJob → W → W
  pub get : Uuid → W → Option TranscodeJob
  pub list_by_state : JobState → (limit offset : ℕ) → W → List TranscodeJob
  pub save_summary : JobSummary → W → W
  pub get_summary : Uuid → W → Option JobSummary
  pub enqueue : Uuid → W → W
  pub dequeue : (timeout_seconds : ℕ) → W → Option Uuid × W
  pub requeue : Uuid → W → W
  pub push_to_dead_letter : Uuid → W → W
  pub depth : W → ℕ
  pub is_processed : FilePath → W → Bool
  pub mark_processed : FilePath → Uuid → W → W
  pub register : WorkerInfo → W → W
  pub heartbeat : Uuid → W → W
  pub deregister : Uuid → W → W
  pub list_workers : W → List WorkerInfo × W
  pub set_job_heartbeat : (job_id worker_id : Uuid) → W → W
  pub is_job_alive : Uuid → W → Bool
  pub now : W → Timestamp × W
  pub uuid4 : W → Uuid × W

-- `Transcoder`
pub record Transcoder (W : Type 0) : Type 0 where
  pub transcode : TranscodeJob → Exec W TranscodeResult
  pub build_summary : TranscodeJob → TranscodeResult → Exec W JobSummary

-- `MediaProber`
abbrev pub MediaProber : Type 0 → Type 0
MediaProber W = FilePath → Exec W ProbedInput

-- `FileScanner.scan_once`
abbrev pub FileScanner : Type 0 → Type 0
FileScanner W = FilePath → Exec W (List ProbedInput)

-- `WorkerPodLauncher`
pub record WorkerPodLauncher (W : Type 0) : Type 0 where
  pub count_active_workers : Exec W ℕ
  pub launch_worker : Exec W String
