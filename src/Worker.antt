-- ===== src/Worker.antt =====
-- src/vshift/application/worker/use_cases: what a worker process does with one job.
pub mod Claiming
pub mod Cycle
pub mod Failure
pub mod Exclusion
pub mod Main
pub mod Outcomes
pub mod Attempts
pub mod Settling
pub mod Looping
pub mod Queueing
pub mod Draining
pub mod Liveness
use vshift.Base.{
  ◌≡◌, ℕ, ◌+◌, String, Bool, true, false, not, ◌||◌, Option, none, some, ◌==◌, nat_eq, option_eq,
  leb, if◌then◌else◌,
}
use vshift.Base.Exec.{
  Result, ok, err, Exec, vshift_exception, other, pure, raise, lift, gets, call, modify, raise_if,
  try_except, ◌>>=◌, ◌>>◌,
}
use vshift.Job.{
  Uuid, Timestamp, JobState, pending, claimed, processing, completed, failed, TranscodeJob,
  TranscodeResult, JobSummary, transition, job_state_eq,
}
use vshift.Job.Copies.{claimed_copy, processing_copy, completed_copy, failed_copy, pending_copy}
use vshift.Ports.{Stores, Transcoder}

pub record TranscodeExecution : Type 0 where
  pub job : TranscodeJob
  pub result : TranscodeResult

-- `job.state in {JobState.CLAIMED, JobState.PROCESSING}`
abbrev pub is_active : JobState → Bool
is_active s = s == claimed || s == processing

module _ {W : Type 0} (P : Stores W) where
  module _ (worker_id : Uuid) where
    -- The rest of `ClaimJob.execute`, for what `get` returned.
    claim_found : Option TranscodeJob → Exec W (Option TranscodeJob)
    claim_found none = pure none
    claim_found (some job) = if not (job.state == pending) then pure none else do
      s ← lift (transition job.state claimed)
      now ← call P.now
      let job' = claimed_copy job s worker_id now
      modify (P.save job')
      modify (P.set_job_heartbeat job'.id worker_id)
      modify (P.heartbeat worker_id)
      pure (some job')

    -- The same, for what `dequeue` returned.
    claim_dequeued : Option Uuid → Exec W (Option TranscodeJob)
    unfolding claim_found
    claim_dequeued none = pure none
    claim_dequeued (some id) = do found ← gets (P.get id); claim_found found

    -- `ClaimJob.execute`
    unfoldable pub claim_job : (dequeue_timeout_seconds : ℕ) → Exec W (Option TranscodeJob)
    unfolding claim_dequeued
    claim_job timeout = do found ← call (P.dequeue timeout); claim_dequeued found

    -- `ExecuteTranscode._assert_worker_owns_job`
    assert_worker_owns_job : TranscodeJob → Exec W Unit
    assert_worker_owns_job job = do
      raise_if (not (job.worker_id == some worker_id))
          (vshift_exception "worker cannot transcode job owned by another worker")
      raise_if (not (is_active job.state)) (vshift_exception "job is not ready for transcoding")

    -- The part of `ExecuteTranscode.execute` before ffmpeg runs.
    unfoldable pub start_transcode : TranscodeJob → Exec W TranscodeJob
    unfolding assert_worker_owns_job
    start_transcode job = do
      assert_worker_owns_job job
      s ← lift (transition job.state processing)
      now ← call P.now
      let job' = processing_copy job s now
      modify (P.save job')
      modify (P.set_job_heartbeat job'.id worker_id)
      pure job'

    -- `ExecuteTranscode.execute`
    unfoldable pub execute_transcode : Transcoder W → TranscodeJob → Exec W TranscodeExecution
    unfolding start_transcode
    execute_transcode T job = do
      job' ← start_transcode job
      result ← T.transcode job'
      pure (record { job = job'; result = result })

    -- `HandleJobFailure._fail_job`
    fail_job : TranscodeJob → String → Exec W TranscodeJob
    fail_job job error = do
      s ← lift (transition job.state failed)
      now ← call P.now
      let job' = failed_copy job s error now
      modify (P.save job')
      modify (P.push_to_dead_letter job'.id)
      pure job'

    -- `HandleJobFailure._requeue_job`
    requeue_job : TranscodeJob → String → Exec W TranscodeJob
    requeue_job job error = do
      s ← lift (transition job.state pending)
      let job' = pending_copy job s error
      modify (P.save job')
      modify (P.enqueue job'.id)
      pure job'

    -- `HandleJobFailure.execute`
    unfoldable pub handle_job_failure :
        (max_retries : ℕ) → TranscodeJob → String → Exec W TranscodeJob
    unfolding fail_job requeue_job
    handle_job_failure max_retries job error = do
      raise_if (not (job.worker_id == some worker_id))
          (vshift_exception "worker cannot fail job owned by another worker")
      raise_if (not (is_active job.state)) (vshift_exception "job cannot fail from its state")
      if leb max_retries job.attempt then fail_job job error else requeue_job job error

  -- `WriteSummary.execute`
  unfoldable pub write_summary : Transcoder W → TranscodeJob → TranscodeResult → Exec W JobSummary
  write_summary T job result = do
    raise_if (not (job.state == processing))
        (vshift_exception "job must be processing to write summary")
    summary ← T.build_summary job result
    modify (P.save_summary summary)
    s ← lift (transition job.state completed)
    now ← call P.now
    modify (P.save (completed_copy job s now))
    pure summary

  module _ (worker_id : Uuid) (max_retries : ℕ) (T : Transcoder W) where
    -- `self._job_repository.get(job.id) or job`
    abbrev pub current : TranscodeJob → Exec W TranscodeJob
    current job = gets (λ w. elim (P.get job.id w) [ none ↦ job | some stored ↦ stored ])

    -- What follows the `try` statement, where a handled failure has returned already.
    unfoldable pub after_try : TranscodeJob → Option TranscodeJob → Exec W (Option TranscodeJob)
    after_try job none = do done ← current job; pure (some done)
    after_try job (some handled) = pure (some handled)

    -- `ProcessNextJob.execute` for a claimed job
    unfoldable pub process_claimed : TranscodeJob → Exec W (Option TranscodeJob)
    unfolding execute_transcode write_summary handle_job_failure after_try
    process_claimed job = do
      handled ←
          try_except
            (do
              execution ← execute_transcode worker_id T job
              write_summary T execution.job execution.result
              pure none)
            (λ error. do
              stored ← current job
              failed_job ← handle_job_failure worker_id max_retries stored error
              pure (some failed_job))
      after_try job handled

    unfoldable pub process_found : Option TranscodeJob → Exec W (Option TranscodeJob)
    unfolding process_claimed
    process_found none = pure none
    process_found (some job) = process_claimed job

    -- `ProcessNextJob.execute`
    unfoldable pub process_next_job : (dequeue_timeout_seconds : ℕ) → Exec W (Option TranscodeJob)
    unfolding claim_job process_found
    process_next_job timeout = do found ← claim_job worker_id timeout; process_found found
