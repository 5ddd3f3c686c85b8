-- ===== src/Lifecycle.antt =====
-- What holds of the stored jobs, the queue, the dead letters and the index between the use cases.
pub mod Preservation
pub mod Writes
use vshift.Base.{◌≡◌, ◌≢◌, ℕ, ◌≤◌, Bool, true, false, Option, none, some, contains, nat_eq}
use vshift.Job.{Uuid, JobState, pending, claimed, processing, completed, failed, TranscodeJob}
use vshift.Ports.Contract.{View}

-- The fields of a job fit its state, and its attempt is within the retries.
pub record IsWellFormed (max_retries : ℕ) (job : TranscodeJob) : Type 0 where
  pub counted : 1 ≤ job.attempt
  pub bounded : job.attempt ≤ max_retries
  pub pending_unowned : job.state ≡ pending → job.worker_id ≡ none
  pub pending_unclaimed : job.state ≡ pending → job.claimed_at ≡ none
  pub pending_unstarted : job.state ≡ pending → job.started_at ≡ none
  pub claimed_owned : job.state ≡ claimed → job.worker_id ≢ none
  pub claimed_dated : job.state ≡ claimed → job.claimed_at ≢ none
  pub processing_owned : job.state ≡ processing → job.worker_id ≢ none
  pub processing_dated : job.state ≡ processing → job.started_at ≢ none
  pub completed_dated : job.state ≡ completed → job.completed_at ≢ none
  pub completed_clean : job.state ≡ completed → job.error_message ≡ none
  pub failed_unowned : job.state ≡ failed → job.worker_id ≡ none
  pub failed_dated : job.state ≡ failed → job.completed_at ≢ none
  pub failed_explained : job.state ≡ failed → job.error_message ≢ none

-- Every stored job stands under its own id and is well formed; a pending job waits in the queue,
-- and a failed one is among the dead letters.
pub record IsConsistent (max_retries : ℕ) (v : View) : Type 0 where
  pub keyed : (id : Uuid) (job : TranscodeJob) → v.jobs id ≡ some job → job.id ≡ id
  pub well_formed :
      (id : Uuid) (job : TranscodeJob) → v.jobs id ≡ some job → IsWellFormed max_retries job
  pub queued :
      (id : Uuid) (job : TranscodeJob)
      → v.jobs id ≡ some job
      → job.state ≡ pending
      → contains v.queue id ≡ true
  pub buried :
      (id : Uuid) (job : TranscodeJob)
      → v.jobs id ≡ some job
      → job.state ≡ failed
      → contains v.dead id ≡ true

-- A stored job is listed under its state and under no other, and nothing else is listed.
pub record IsIndexed (v : View) : Type 0 where
  pub listed : (id : Uuid) (job : TranscodeJob) → v.jobs id ≡ some job → v.index job.state id ≡ true
  pub listed_once :
      (id : Uuid) (job : TranscodeJob) (s : JobState)
      → v.jobs id ≡ some job
      → v.index s id ≡ true
      → s ≡ job.state
  pub unlisted : (id : Uuid) (s : JobState) → v.jobs id ≡ none → v.index s id ≡ false
