-- ===== src/Worker/Exclusion.antt =====
-- No two workers hold the same job, and what happens when a job is taken from a worker that runs
-- it.
use vshift.Base.{
  ◌≡◌, refl, sym, ◌∙◌, subst, ◌≢◌, ℕ, String, false, Option, none, some, arith, option_eq, nat_eq,
}
use vshift.Base.Exec.{ok, err, vshift_exception, ◌>>=◌, try_except}
use vshift.Job.{Uuid, JobState, pending, claimed, TranscodeJob, job_state_eq}
use vshift.Ports.{Stores, Transcoder}
use vshift.Ports.Contract.{View, IsLawful}
use vshift.Lifecycle.{IsConsistent}
use vshift.Worker.{claim_job, execute_transcode, process_claimed}
use vshift.Worker.Failure.{may_fail, handle_job_failure-refuses}
use vshift.Worker.Claiming.{
  next_pending, claim_outcome, next_pending_lem, view-claim_job, claim_job-IsConsistent, claim_time,
}

module _ {W : Type 0} (P : Stores W) (view : W → View) (L : IsLawful P view) where
  -- What a claim that returns a job has found and leaves: the job waited under its id, and is now
  -- stored as claimed by the worker.
  record Claimed (worker : Uuid) (before after : View) (job : TranscodeJob) : Type 0 where
    was_pending : (old : TranscodeJob) → before.jobs job.id ≡ some old → old.state ≡ pending
    is_stored : after.jobs job.id ≡ some job
    is_claimed : job.state ≡ claimed
    is_owned : job.worker_id ≡ some worker

  claim_outcome-Claimed :
      (max_retries : ℕ) (worker : Uuid) (now : ℕ) (v : View) (next : Option TranscodeJob)
      (job : TranscodeJob)
      → next_pending v ≡ next
      → IsConsistent max_retries v
      → (claim_outcome worker now v next).0 ≡ some job
      → Claimed worker v (claim_outcome worker now v next).1 job
  claim_outcome-Claimed max_retries worker now v none job e c h = absurd (ground arith)
  claim_outcome-Claimed max_retries worker now v (some job') job e c h =
      let (id, first, known, waits) = next_pending_lem max_retries worker now v job' e in
      let key = c.keyed id job' known in
      record {
        was_pending = λ old o. ground arith;
        is_stored = ground arith;
        is_claimed = ground arith;
        is_owned = ground arith;
      }

  claim_job-Claimed :
      (max_retries : ℕ) (worker : Uuid) (timeout : ℕ) (w : W) (job : TranscodeJob)
      → IsConsistent max_retries (view w)
      → (claim_job P worker timeout w).0 ≡ ok (some job)
      → Claimed worker (view w) (view (claim_job P worker timeout w).1) job
  claim_job-Claimed max_retries worker timeout w job c h =
      let (returned, left) = view-claim_job P view L worker timeout w in
      subst (λ v. Claimed worker (view w) v job) (sym left)
        (claim_outcome-Claimed max_retries worker (claim_time P view L worker timeout w) (view w) _
          job refl c (ok-injective (sym returned ∙ h)))
    where
      ok-injective : {a b : Option TranscodeJob} → ok a ≡ ok b → a ≡ b
      ok-injective h = cc

  -- Of two workers that claim one after the other, the second never gets the job that the first
  -- has got, even where its id waits in the queue twice.
  pub claim_job-excludes :
      (max_retries : ℕ) (first second : Uuid) (timeout : ℕ) (w : W) (job job' : TranscodeJob)
      → IsConsistent max_retries (view w)
      → (claim_job P first timeout w).0 ≡ ok (some job)
      → (claim_job P second timeout (claim_job P first timeout w).1).0 ≡ ok (some job')
      → job'.id ≢ job.id
  claim_job-excludes max_retries first second timeout w job job' c h h' same =
      let w' = (claim_job P first timeout w).1 in
      let c' = claim_job-IsConsistent P view L first timeout w max_retries c in
      let left = claim_job-Claimed max_retries first timeout w job c h in
      let found = claim_job-Claimed max_retries second timeout w' job' c' h' in
      let waits =
        found.was_pending job
          (subst (λ id. (view w').jobs id ≡ some job) (sym same) left.is_stored) in
      claimed-not-pending job.state left.is_claimed waits
    where
      claimed-not-pending : (s : JobState) → s ≡ claimed → s ≢ pending
      claimed-not-pending s h k = cc

  -- What a claim returns is what the store then holds: the job that was pending there, claimed by
  -- this worker.
  pub claim_job-owns :
      (max_retries : ℕ) (worker : Uuid) (timeout : ℕ) (w : W) (job : TranscodeJob)
      → IsConsistent max_retries (view w)
      → (claim_job P worker timeout w).0 ≡ ok (some job)
      → (P.get job.id (claim_job P worker timeout w).1 ≡ some job)
        × (job.state ≡ claimed)
        × (job.worker_id ≡ some worker)
  claim_job-owns max_retries worker timeout w job c h =
      let left = claim_job-Claimed max_retries worker timeout w job c h in
      (L.get_lem job.id _ ∙ left.is_stored, left.is_claimed, left.is_owned)

  -- A job that was taken from its worker while ffmpeg ran, and whose transcode then fails, makes
  -- the whole round raise: what is stored is not this worker's to report.
  pub process_claimed-raises :
      (worker : Uuid) (max_retries : ℕ) (T : Transcoder W) (job stored : TranscodeJob)
      (message : String) (w w' : W)
      → execute_transcode P worker T job w ≡ (err (vshift_exception message), w')
      → (view w').jobs job.id ≡ some stored
      → may_fail worker stored ≡ false
      → (reason : String) × (process_claimed P worker max_retries T job w
          ≡ (err (vshift_exception reason), w'))
  unfolding process_claimed ◌>>=◌ try_except
  process_claimed-raises worker max_retries T job stored message w w' raised found foreign =
      let (reason, refused) =
        handle_job_failure-refuses P view L worker max_retries stored message w' foreign in
      (reason, ground (arith, raised, refused, L.get_lem job.id w'))
