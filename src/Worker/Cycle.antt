-- ===== src/Worker/Cycle.antt =====
-- A whole round of a worker, `ProcessNextJob.execute`, keeps the stores consistent.
use vshift.Base.{
  ◌≡◌, refl, sym, ◌∙◌, subst, ◌≢◌, ℕ, String, option_eq, true, false, Option, none, some, arith,
  nat_eq, leb,
}
use vshift.Base.Ensures.{
  Ensures, Returns, Ensures-pure, Ensures-lift, Ensures-gets, Ensures-call, Ensures-if,
  Ensures-modify, Ensures-modify_two, Ensures-raise_if, Ensures-bind, Ensures-try_except,
}
use vshift.Job.{
  Uuid, Timestamp, pending, processing, completed, failed, TranscodeJob, TranscodeResult,
  job_state_eq,
}
use vshift.Job.Copies.{processing_copy, completed_copy, failed_copy, pending_copy}
use vshift.Ports.{Stores, Transcoder}
use vshift.Ports.Contract.{View, IsLawful}
use vshift.Lifecycle.{IsWellFormed, IsConsistent}
use vshift.Lifecycle.Writes.{
  transition-Returns, save_keeps, set_job_heartbeat_keeps, now_keeps, bury_keeps, requeue_keeps,
}
use vshift.Worker.{
  assert_worker_owns_job, start_transcode, execute_transcode, write_summary, handle_job_failure,
  claim_job, after_try, process_claimed, process_found, process_next_job,
}
use vshift.Worker.Claiming.{
  next_pending, claim_outcome, next_pending_lem, claimed_copy-IsWellFormed, view-claim_job,
  claim_job-IsConsistent,
}

-- A property of what an option holds.
abbrev pub All? : {A : Type 0} → (A → Type 0) → Option A → Type 0
All? Q none = Unit
All? Q (some a) = Q a

module _ {W : Type 0} (P : Stores W) (view : W → View) (L : IsLawful P view) (max_retries : ℕ) where
  abbrev pub Inv : W → Type 0
  Inv w = IsConsistent max_retries (view w)

  -- What ffmpeg and ffprobe do, and what all other processes do while they run, keeps the stores
  -- consistent.
  pub record IsSteady (T : Transcoder W) : Type 0 where
    pub transcode_keeps : (job : TranscodeJob) → Ensures Inv (T.transcode job) (λ _. Unit)
    pub build_summary_keeps :
        (job : TranscodeJob) (result : TranscodeResult)
        → Ensures Inv (T.build_summary job result) (λ _. Unit)

  assert_worker_owns_job-Ensures :
      (worker : Uuid) (job : TranscodeJob)
      → Ensures Inv (assert_worker_owns_job P worker job) (λ _. job.worker_id ≢ none)
  unfolding assert_worker_owns_job
  assert_worker_owns_job-Ensures worker job =
      Ensures-bind (λ _. job.worker_id ≢ none) (λ _. job.worker_id ≢ none) _ _
        (Ensures-raise_if _ _ (λ owned. ground arith))
        (λ _ owned. Ensures-raise_if _ _ (λ active. owned))

  pub start_transcode-Ensures :
      (worker : Uuid) (job : TranscodeJob)
      → IsWellFormed max_retries job
      → Ensures Inv
          (start_transcode P worker job)
          (λ j. IsWellFormed max_retries j × (j.state ≡ processing))
  unfolding start_transcode
  start_transcode-Ensures worker job h =
      Ensures-bind (λ _. job.worker_id ≢ none) _ _ _ (assert_worker_owns_job-Ensures worker job)
        λ _ owned.
          Ensures-bind (λ s. s ≡ processing) _ _ _
            (Ensures-lift _ (transition-Returns job.state processing))
            λ s e.
              Ensures-bind (λ _. Unit) _ _ _
                (Ensures-call P.now (now_keeps P view L max_retries) (λ w c. tt))
                λ now _.
                  let wf : IsWellFormed max_retries (processing_copy job s now) = ground arith in
                  Ensures-modify _ _
                    (λ w.
                      (save_keeps P view L max_retries) (processing_copy job s now) w wf (λ p. cc)
                        (λ f. cc))
                    (Ensures-modify _ _
                      ((set_job_heartbeat_keeps P view L max_retries) job.id worker)
                      (Ensures-pure _ (wf, e)))

  pub write_summary-Ensures :
      (T : Transcoder W) (job : TranscodeJob) (result : TranscodeResult)
      → IsSteady T
      → IsWellFormed max_retries job
      → Ensures Inv (write_summary P T job result) (λ _. Unit)
  unfolding write_summary
  write_summary-Ensures T job result steady h =
      Ensures-bind (λ _. Unit) _ _ _ (Ensures-raise_if _ _ (λ _. tt))
        λ _ _.
          Ensures-bind (λ _. Unit) _ _ _ (steady.build_summary_keeps job result)
            λ summary _.
              Ensures-modify _ _ (λ w c. rw (L.save_summary_lem summary w) c)
                (Ensures-bind (λ s. s ≡ completed) _ _ _
                  (Ensures-lift _ (transition-Returns job.state completed))
                  λ s e.
                    Ensures-bind (λ _. Unit) _ _ _
                      (Ensures-call P.now (now_keeps P view L max_retries) (λ w c. tt))
                      λ now _.
                        let wf : IsWellFormed max_retries (completed_copy job s now) =
                          ground arith in
                        Ensures-modify _ _
                          (λ w.
                            (save_keeps P view L max_retries) (completed_copy job s now) w wf
                              (λ p. cc) (λ f. cc))
                          (Ensures-pure _ tt))

  pub handle_job_failure-Ensures :
      (worker : Uuid) (job : TranscodeJob) (error : String)
      → IsWellFormed max_retries job
      → Ensures Inv (handle_job_failure P worker max_retries job error) (λ _. Unit)
  unfolding handle_job_failure
  handle_job_failure-Ensures worker job error h =
      Ensures-bind (λ _. Unit) _ _ _ (Ensures-raise_if _ _ (λ _. tt))
        λ _ _.
          Ensures-bind (λ _. Unit) _ _ _ (Ensures-raise_if _ _ (λ _. tt))
            λ _ _.
              Ensures-if _ _ _
                (λ (exhausted : leb max_retries job.attempt ≡ true).
                  Ensures-bind (λ s. s ≡ failed) _ _ _
                    (Ensures-lift _ (transition-Returns job.state failed))
                    λ s e.
                      Ensures-bind (λ _. Unit) _ _ _
                        (Ensures-call P.now (now_keeps P view L max_retries) (λ w c. tt))
                        λ now _.
                          let wf : IsWellFormed max_retries (failed_copy job s error now) =
                            ground arith in
                          Ensures-modify_two _ _ _
                            (λ w.
                              (bury_keeps P view L max_retries) (failed_copy job s error now) w wf
                                e)
                            (Ensures-pure _ tt))
                (λ (left : leb max_retries job.attempt ≡ false).
                  Ensures-bind (λ s. s ≡ pending) _ _ _
                    (Ensures-lift _ (transition-Returns job.state pending))
                    λ s e.
                      let wf : IsWellFormed max_retries (pending_copy job s error) = ground arith in
                      Ensures-modify_two _ _ _
                        (λ w.
                          (requeue_keeps P view L max_retries) (pending_copy job s error) w wf e)
                        (Ensures-pure _ tt))

  module _ (worker : Uuid) (T : Transcoder W) (steady : IsSteady T) where
    execute_transcode-Ensures :
        (job : TranscodeJob)
        → IsWellFormed max_retries job
        → Ensures Inv (execute_transcode P worker T job) (λ e. IsWellFormed max_retries e.job)
    unfolding execute_transcode
    execute_transcode-Ensures job h =
        Ensures-bind (λ j. IsWellFormed max_retries j × (j.state ≡ processing)) _ _ _
          (start_transcode-Ensures worker job h)
          λ j q.
            Ensures-bind (λ _. Unit) _ _ _ (steady.transcode_keeps j) λ result _. Ensures-pure _ q.0

    -- A stored job is well formed.
    pub stored-IsWellFormed :
        (job : TranscodeJob) (w : W) (o : Option TranscodeJob)
        → IsWellFormed max_retries job
        → P.get job.id w ≡ o
        → Inv w
        → IsWellFormed max_retries (elim o [ none ↦ job | some stored ↦ stored ])
    stored-IsWellFormed job w none h e c = h
    stored-IsWellFormed job w (some stored) h e c =
        c.well_formed job.id stored (sym (L.get_lem job.id w) ∙ e)

    after_try-Ensures :
        (job : TranscodeJob) (handled : Option TranscodeJob)
        → Ensures Inv (after_try P worker max_retries T job handled) (λ _. Unit)
    unfolding after_try
    after_try-Ensures job none =
        Ensures-bind (λ _. Unit) _ _ _ (Ensures-gets _ (λ w c. tt)) (λ done _. Ensures-pure _ tt)
    after_try-Ensures job (some handled) = Ensures-pure _ tt

    process_claimed-Ensures :
        (job : TranscodeJob)
        → IsWellFormed max_retries job
        → Ensures Inv (process_claimed P worker max_retries T job) (λ _. Unit)
    unfolding process_claimed
    process_claimed-Ensures job h =
        Ensures-bind (λ _. Unit) _ _ _
          (Ensures-try_except (λ _. Unit) _ _
            (Ensures-bind (λ e. IsWellFormed max_retries e.job) _ _ _
              (execute_transcode-Ensures job h)
              λ e q.
                Ensures-bind (λ _. Unit) _ _ _ (write_summary-Ensures T e.job e.result steady q)
                  (λ _ _. Ensures-pure _ tt))
            λ message.
              Ensures-bind (IsWellFormed max_retries) _ _ _
                (Ensures-gets _ (λ w. stored-IsWellFormed job w _ h refl))
                λ stored q.
                  Ensures-bind (λ _. Unit) _ _ _
                    (handle_job_failure-Ensures worker stored message q) (λ _ _. Ensures-pure _ tt))
          (λ handled _. after_try-Ensures job handled)

    -- What a claim returns is a well-formed job, if it is a job.
    outcome-IsWellFormed :
        (now : Timestamp) (v : View) (next : Option TranscodeJob)
        → next_pending v ≡ next
        → IsConsistent max_retries v
        → All? (IsWellFormed max_retries) (claim_outcome worker now v next).0
    outcome-IsWellFormed now v none e c = tt
    outcome-IsWellFormed now v (some job) e c =
        let (id, first, known, waits) = next_pending_lem max_retries worker now v job e in
        claimed_copy-IsWellFormed max_retries worker now job (c.well_formed id job known)

    pub claim_job-Ensures :
        (timeout : ℕ) → Ensures Inv (claim_job P worker timeout) (All? (IsWellFormed max_retries))
    claim_job-Ensures timeout = record {
      keeps = λ w. claim_job-IsConsistent P view L worker timeout w max_retries;
      returns = λ w c.
          subst (λ r. Returns r (All? (IsWellFormed max_retries)))
            (sym (view-claim_job P view L worker timeout w).0)
            (outcome-IsWellFormed _ (view w) _ refl c);
    }

    process_found-Ensures :
        (found : Option TranscodeJob)
        → All? (IsWellFormed max_retries) found
        → Ensures Inv (process_found P worker max_retries T found) (λ _. Unit)
    unfolding process_found
    process_found-Ensures none h = Ensures-pure _ tt
    process_found-Ensures (some job) h = process_claimed-Ensures job h

    pub process_next_job-Ensures :
        (timeout : ℕ) → Ensures Inv (process_next_job P worker max_retries T timeout) (λ _. Unit)
    unfolding process_next_job
    process_next_job-Ensures timeout =
        Ensures-bind (All? (IsWellFormed max_retries)) (λ _. Unit) _ _ (claim_job-Ensures timeout)
          process_found-Ensures

    -- A whole round of a worker keeps the stores consistent, if what runs meanwhile does: also when
    -- the transcode or the probe raises, and when another process has taken the job away.
    pub process_next_job-IsConsistent :
        (timeout : ℕ) (w : W)
        → IsConsistent max_retries (view w)
        → IsConsistent max_retries (view (process_next_job P worker max_retries T timeout w).1)
    process_next_job-IsConsistent timeout = (process_next_job-Ensures timeout).keeps
