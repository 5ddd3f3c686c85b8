-- ===== src/Worker/Outcomes.antt =====
-- What a round of a worker leaves of its job: completed, put back, or given up.
use vshift.Base.{◌≡◌, refl, ◌∙◌, ◌≢◌, ℕ, ◌+◌, ◌≤◌, ◌<◌, none, some, [], ◌∷◌, ◌++◌, arith, nat_eq}
use vshift.Job.{
  Uuid, Timestamp, pending, claimed, processing, completed, failed, TranscodeJob, job_state_eq,
}
use vshift.Job.Copies.{claimed_copy, processing_copy, completed_copy}
use vshift.Ports.Contract.{View, put_job, put_beat, drop_queue, rest}

-- What a job that was completed leaves: it is stored as completed, and beside its heartbeat only
-- this job has changed.
pub record Completes (worker : Uuid) (job done : TranscodeJob) (before after : View) : Type 0 where
  pub is_completed : done.state ≡ completed
  pub is_owned : done.worker_id ≡ some worker
  pub same_output : done.output_path ≡ job.output_path
  pub is_stored : after.jobs job.id ≡ some done
  pub others : (id : Uuid) → id ≢ job.id → after.jobs id ≡ before.jobs id
  pub same_queue : after.queue ≡ before.queue
  pub same_dead : after.dead ≡ before.dead

-- The view while ffmpeg runs for a job that was taken from the queue.
abbrev pub busy_view : Uuid → (claim_time start_time : Timestamp) → TranscodeJob → View → View
busy_view worker t s job v =
    let job' = claimed_copy job claimed worker t in
    put_beat job.id
      (put_job (processing_copy job' processing s) (put_beat job.id (put_job job' (drop_queue v))))

-- What a failed round leaves of its job.
pub record Fails (job after_job : TranscodeJob) (before after : View) : Type 0 where
  pub same_id : after_job.id ≡ job.id
  pub no_worker : after_job.worker_id ≡ none
  pub is_stored : after.jobs job.id ≡ some after_job
  pub others : (id : Uuid) → id ≢ job.id → after.jobs id ≡ before.jobs id

-- Put back for another attempt.
pub record Retries (max_retries : ℕ) (job retried : TranscodeJob) (before after : View)
    : Type 0 where
  pub fails : Fails job retried before after
  pub had_retry : job.attempt < max_retries
  pub is_pending : retried.state ≡ pending
  pub attempt_counted : retried.attempt ≡ job.attempt + 1
  pub queued_again : after.queue ≡ rest before.queue ++ job.id ∷ []
  pub same_dead : after.dead ≡ before.dead

-- Given up.
pub record Buries (max_retries : ℕ) (job buried : TranscodeJob) (before after : View) : Type 0 where
  pub fails : Fails job buried before after
  pub no_retry : max_retries ≤ job.attempt
  pub is_failed : buried.state ≡ failed
  pub same_attempt : buried.attempt ≡ job.attempt
  pub taken : after.queue ≡ rest before.queue
  pub newly_dead : after.dead ≡ job.id ∷ before.dead

module _ (worker : Uuid) where
  pub completed_copy-Completes :
      (job : TranscodeJob) (began ended : Timestamp) (v : View)
      → job.worker_id ≡ some worker
      → let job' = processing_copy job processing began in
        let done = completed_copy job' completed ended in
        Completes worker job done v (put_job done (put_beat job.id (put_job job' v)))
  completed_copy-Completes job began ended v owned = record {
    is_completed = refl;
    is_owned = owned;
    same_output = refl;
    is_stored = ground arith;
    others = λ id other. ground arith;
    same_queue = refl;
    same_dead = refl;
  }

  pub since_claimed :
      (job : TranscodeJob) (now : Timestamp) (done : TranscodeJob) (v after : View)
      → let job' = claimed_copy job claimed worker now in
        Completes worker job' done (put_beat job.id (put_job job' v)) after
        → Completes worker job done v after
  since_claimed job now done v after c = record {
    is_completed = c.is_completed;
    is_owned = c.is_owned;
    same_output = c.same_output;
    is_stored = c.is_stored;
    others = λ id other. c.others id other ∙ ground arith;
    same_queue = c.same_queue;
    same_dead = c.same_dead;
  }

  pub busy_view-Fails :
      (job done : TranscodeJob) (t s : Timestamp) (v : View)
      → done.id ≡ job.id
      → done.worker_id ≡ none
      → Fails job done v (put_job done (busy_view worker t s job v))
  busy_view-Fails job done t s v same freed = record {
    same_id = same;
    no_worker = freed;
    is_stored = ground arith;
    others = λ id other. ground arith;
  }
