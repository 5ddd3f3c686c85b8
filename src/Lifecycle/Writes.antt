-- ===== src/Lifecycle/Writes.antt =====
-- The writes of the use cases keep the stores consistent.
use vshift.Base.{◌≡◌, ◌≢◌, ℕ, option_eq, arith, nat_eq}
use vshift.Base.Ensures.{Returns}
use vshift.Job.{Uuid, JobState, pending, failed, TranscodeJob, job_state_eq, transition}
use vshift.Ports.{Stores}
use vshift.Ports.Contract.{View, IsLawful, put_queue, put_dead}
use vshift.Lifecycle.{IsWellFormed, IsConsistent}
use vshift.Lifecycle.Preservation.{
  contains-snoc, put_job-IsConsistent, put_beat-IsConsistent, put_queue-IsConsistent,
  put_dead-IsConsistent,
}

-- A state that the table allows is the one that was asked for.
pub transition-Returns : (s t : JobState) → Returns (transition s t) (λ u. u ≡ t)
unfolding transition
transition-Returns s t = ground arith

module _ {W : Type 0} (P : Stores W) (view : W → View) (L : IsLawful P view) (max_retries : ℕ) where
  abbrev Inv : W → Type 0
  Inv w = IsConsistent max_retries (view w)

  pub save_keeps :
      (job : TranscodeJob) (w : W)
      → IsWellFormed max_retries job
      → job.state ≢ pending
      → job.state ≢ failed
      → Inv w
      → Inv (P.save job w)
  save_keeps job w h p f c =
      rw (L.save_lem job w)
        (put_job-IsConsistent max_retries (view w) c job h (λ e. absurd (p e)) (λ e. absurd (f e)))

  pub set_job_heartbeat_keeps :
      (id worker : Uuid) (w : W) → Inv w → Inv (P.set_job_heartbeat id worker w)
  set_job_heartbeat_keeps id worker w c =
      rw (L.set_job_heartbeat_lem id worker w) (put_beat-IsConsistent max_retries (view w) c id)

  pub now_keeps : (w : W) → Inv w → Inv (P.now w).1
  now_keeps w c = rw (L.now_lem w) c

  -- Saving a failed job and adding it to the dead letters, as one step.
  pub bury_keeps :
      (job : TranscodeJob) (w : W)
      → IsWellFormed max_retries job
      → job.state ≡ failed
      → Inv w
      → Inv (P.push_to_dead_letter job.id (P.save job w))
  bury_keeps job w h f c =
      rw (L.push_to_dead_letter_lem, L.save_lem)
        (put_job-IsConsistent max_retries (put_dead job.id (view w))
          (put_dead-IsConsistent max_retries (view w) c job.id) job h (λ p. cc) (λ _. ground arith))

  -- Saving a pending job and adding it to the queue, as one step.
  pub requeue_keeps :
      (job : TranscodeJob) (w : W)
      → IsWellFormed max_retries job
      → job.state ≡ pending
      → Inv w
      → Inv (P.enqueue job.id (P.save job w))
  requeue_keeps job w h p c =
      rw (L.enqueue_lem, L.save_lem)
        (put_job-IsConsistent max_retries (put_queue job.id (view w))
          (put_queue-IsConsistent max_retries (view w) c job.id) job h
          (λ _. contains-snoc (view w).queue job.id) (λ f. cc))
