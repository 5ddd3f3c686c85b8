-- ===== src/Worker/Failure.antt =====
-- `HandleJobFailure.execute` on each of its branches.
use vshift.Base.{
  ◌⊎◌, ◌≡◌, ℕ, ◌≤◌, ◌<◌, String, Bool, true, false, ◌&&◌, some, arith, ◌==◌, option_eq, nat_eq,
  Bool-cases, inl, inr,
}
use vshift.Base.Exec.{ok, err, vshift_exception, ◌>>=◌}
use vshift.Job.{Uuid, JobState, pending, claimed, processing, failed, TranscodeJob, job_state_eq}
use vshift.Job.Transitions.{requeue_ok, fail_ok}
use vshift.Job.Copies.{failed_copy, pending_copy}
use vshift.Ports.{Stores}
use vshift.Ports.Contract.{View, IsLawful, put_job, put_queue, put_dead}
use vshift.Worker.{is_active, handle_job_failure}

-- Whether a worker may report a job as failed.
abbrev pub may_fail : Uuid → TranscodeJob → Bool
may_fail worker job = (job.worker_id == some worker) && is_active job.state

active-cases : (s : JobState) → is_active s ≡ true → (s ≡ claimed) ⊎ (s ≡ processing)
active-cases s h = ground arith

module _ {W : Type 0} (P : Stores W) (view : W → View) (L : IsLawful P view) (worker : Uuid)
    (max_retries : ℕ) (job : TranscodeJob) (error : String) (w : W) where
  -- A failure of a job that still has a retry left puts it back: it is saved as pending, without
  -- its worker and with its attempt counted, and waits at the end of the queue. Nothing else
  -- changes.
  pub handle_job_failure-requeues :
      may_fail worker job ≡ true
      → job.attempt < max_retries
      → let job' = pending_copy job pending error in
        ((handle_job_failure P worker max_retries job error w).0 ≡ ok job')
        × (view (handle_job_failure P worker max_retries job error w).1
            ≡ put_queue job.id (put_job job' (view w)))
  unfolding handle_job_failure ◌>>=◌
  handle_job_failure-requeues m left =
      ground (arith, requeue_ok job.state, active-cases job.state, requeued)
    where
      requeued :
          view (P.enqueue job.id (P.save (pending_copy job pending error) w))
          ≡ put_queue job.id (put_job (pending_copy job pending error) (view w))
      requeued = simp (L.enqueue_lem, L.save_lem)

  -- A failure of a job with no retry left ends it: it is saved as failed, without its worker, and
  -- is the newest dead letter. The queue is as it was.
  pub handle_job_failure-buries :
      may_fail worker job ≡ true
      → max_retries ≤ job.attempt
      → let job' = failed_copy job failed error (P.now w).0 in
        ((handle_job_failure P worker max_retries job error w).0 ≡ ok job')
        × (view (handle_job_failure P worker max_retries job error w).1
            ≡ put_dead job.id (put_job job' (view w)))
  unfolding handle_job_failure ◌>>=◌
  handle_job_failure-buries m spent =
      ground (arith, fail_ok job.state, active-cases job.state, buried (P.now w).0)
    where
      buried :
          (now : ℕ)
          → view
              (P.push_to_dead_letter job.id (P.save (failed_copy job failed error now) (P.now w).1))
            ≡ put_dead job.id (put_job (failed_copy job failed error now) (view w))
      buried now = simp (L.push_to_dead_letter_lem, L.save_lem, L.now_lem)

  -- A failure that a worker reports of a job it does not hold, or that is not active, raises and
  -- writes nothing.
  pub handle_job_failure-refuses :
      may_fail worker job ≡ false
      → (message : String) × (handle_job_failure P worker max_retries job error w
          ≡ (err (vshift_exception message), w))
  unfolding handle_job_failure ◌>>=◌
  handle_job_failure-refuses m = elim (Bool-cases (job.worker_id == some worker)) [
    | inl owned ↦ ("job cannot fail from its state", ground arith)
    | inr foreign ↦ ("worker cannot fail job owned by another worker", ground arith)
  ]
