-- ===== src/Worker/Settling.antt =====
-- A whole round of a worker, `ProcessNextJob.execute`, for the job at the head of the queue: it is
-- completed, or its failure is handled.
use vshift.Base.{
  ◌≡◌, refl, sym, ◌∙◌, ap, subst, ◌⊎◌, inl, inr, ℕ, ◌≤◌, ◌<◌, leb, some, arith, nat_eq, option_eq,
  Bool-cases,
}
use vshift.Base.Exec.{ok, ◌>>=◌}
use vshift.Job.{Uuid, Timestamp, pending, claimed, processing, failed, TranscodeJob, job_state_eq}
use vshift.Job.Copies.{claimed_copy, processing_copy, failed_copy, pending_copy}
use vshift.Ports.{Stores, Transcoder}
use vshift.Ports.Contract.{View, IsLawful, put_job, put_beat, put_queue, put_dead, drop_queue}
use vshift.Worker.{process_claimed, process_found, process_next_job, claim_job, handle_job_failure}
use vshift.Worker.Claiming.{next_pending, view-claim_job, claim_time}
use vshift.Worker.Failure.{handle_job_failure-requeues, handle_job_failure-buries}
use vshift.Worker.Outcomes.{Completes, Retries, Buries, busy_view, since_claimed, busy_view-Fails}
use vshift.Worker.Attempts.{
  IsFinishing, IsAnswering, CompletesAt, ReportsAt, process_claimed-ends, process_claimed-finishes,
}

module _ {W : Type 0} (P : Stores W) (view : W → View) (L : IsLawful P view) (worker : Uuid)
    (max_retries : ℕ) (T : Transcoder W) where
  module _ (timeout : ℕ) (job : TranscodeJob) (w : W)
      (next : next_pending (view w) ≡ some job) where
    abbrev claim_at : Timestamp
    claim_at = claim_time P view L worker timeout w

    abbrev claimed_now : TranscodeJob
    claimed_now = claimed_copy job claimed worker claim_at

    abbrev after_claim : W
    after_claim = (claim_job P worker timeout w).1

    -- What a round may end in: the job that it returns, and the state that it leaves.
    abbrev pub RoundEnds : (TranscodeJob → View → Type 0) → Type 0
    RoundEnds Outcome =
        (done : TranscodeJob) × (w' : W) × (process_next_job P worker max_retries T timeout w
          ≡ (ok (some done), w'))
        × Outcome done (view w')

    abbrev pub Completed : TranscodeJob → View → Type 0
    Completed done = Completes worker job done (drop_queue (view w))

    claimed_view : view after_claim ≡ put_beat job.id (put_job claimed_now (drop_queue (view w)))
    claimed_view = let (returned, left) = view-claim_job P view L worker timeout w in ground arith

    round-claims :
        (done : TranscodeJob) (w' : W)
        → process_claimed P worker max_retries T claimed_now after_claim ≡ (ok (some done), w')
        → process_next_job P worker max_retries T timeout w ≡ (ok (some done), w')
    unfolding process_next_job process_found ◌>>=◌
    round-claims done w' ran =
        let (returned, left) = view-claim_job P view L worker timeout w in ground arith

    round-completes :
        CompletesAt P view L worker max_retries T claimed_now after_claim refl refl
        → RoundEnds Completed
    round-completes (done, w', ran, complete) = (
      done,
      w',
      round-claims done w' ran,
      since_claimed worker job claim_at done (drop_queue (view w)) (view w')
          (subst (λ v. Completes worker claimed_now done v (view w')) claimed_view complete),
    )

    -- Where ffmpeg and ffprobe succeed, a round with a pending job at the head of the queue takes
    -- it from there and returns it as completed by this worker, which is what is then stored. The
    -- other jobs, the rest of the queue and the dead letters stay as they were.
    pub process_next_job-completes : IsFinishing P view L T → RoundEnds Completed
    process_next_job-completes finishing = round-completes (
        process_claimed-finishes P view L worker max_retries T claimed_now after_claim refl refl
          finishing)

    module _
        (reported : ReportsAt P view L worker max_retries T claimed_now after_claim refl refl) where
      abbrev busy_job : TranscodeJob
      busy_job = processing_copy claimed_now processing (P.now after_claim).0

      abbrev busy_now : View
      busy_now = busy_view worker claim_at (P.now after_claim).0 job (view w)

      is_busy : view reported.1 ≡ busy_now
      is_busy = reported.3 ∙ ap (λ v. put_beat job.id (put_job busy_job v)) claimed_view

      round-Retries :
          job.attempt < max_retries → RoundEnds (λ done. Retries max_retries job done (view w))
      round-Retries left =
          let (message, w1, reports, busy) = reported in
          let (handled, requeued) =
            handle_job_failure-requeues P view L worker max_retries busy_job message w1
              (ground arith) left in
          let w2 = (handle_job_failure P worker max_retries busy_job message w1).1 in
          let retried = pending_copy busy_job pending message in
          let f =
            busy_view-Fails worker job retried claim_at (P.now after_claim).0 (view w) refl refl in
          (
            retried,
            w2,
            round-claims retried w2 (reports retried w2 (ground arith)),
            subst (Retries max_retries job retried (view w))
                (sym (requeued ∙ ap (λ v. put_queue job.id (put_job retried v)) is_busy))
                (record {
                  fails = record {
                    same_id = refl;
                    no_worker = refl;
                    is_stored = f.is_stored;
                    others = f.others;
                  };
                  had_retry = left;
                  is_pending = refl;
                  attempt_counted = refl;
                  queued_again = refl;
                  same_dead = refl;
                }),
          )

      round-Buries :
          max_retries ≤ job.attempt → RoundEnds (λ done. Buries max_retries job done (view w))
      round-Buries spent =
          let (message, w1, reports, busy) = reported in
          let (handled, dead) =
            handle_job_failure-buries P view L worker max_retries busy_job message w1 (ground arith)
              spent in
          let w2 = (handle_job_failure P worker max_retries busy_job message w1).1 in
          let buried = failed_copy busy_job failed message (P.now w1).0 in
          let f =
            busy_view-Fails worker job buried claim_at (P.now after_claim).0 (view w) refl refl in
          (
            buried,
            w2,
            round-claims buried w2 (reports buried w2 (ground arith)),
            subst (Buries max_retries job buried (view w))
                (sym (dead ∙ ap (λ v. put_dead job.id (put_job buried v)) is_busy))
                (record {
                  fails = record {
                    same_id = refl;
                    no_worker = refl;
                    is_stored = f.is_stored;
                    others = f.others;
                  };
                  no_retry = spent;
                  is_failed = refl;
                  same_attempt = refl;
                  taken = refl;
                  newly_dead = refl;
                }),
          )

    -- The three ends of a round.
    abbrev pub Settled : TranscodeJob → View → Type 0
    Settled done after =
        Completed done after
        ⊎ (Retries max_retries job done (view w) after ⊎ Buries max_retries job done (view w) after)

    -- Where ffmpeg and ffprobe succeed or raise a `VShiftException` and nothing else writes to
    -- the stores meanwhile, a round with a pending job at the head of the queue returns, and the
    -- job that it returns is stored: as completed by this worker, or put back as pending at the
    -- end of the queue with one attempt more if a retry was left, or given up as failed and a
    -- dead letter if none was. The other jobs stay as they were.
    pub process_next_job-settles : IsAnswering P view L T → RoundEnds Settled
    process_next_job-settles answering =
        elim (process_claimed-ends P view L worker max_retries T claimed_now after_claim refl refl
          answering) [
            | inl completes ↦
                let (done, w', ran, c) = round-completes completes in (done, w', ran, inl c)
            | inr reported ↦ elim (Bool-cases (leb max_retries job.attempt)) [
              | inl spent ↦
                  let (done, w', ran, b) = round-Buries reported (ground arith) in
                  (done, w', ran, inr (inr b))
              | inr left ↦
                  let (done, w', ran, r) = round-Retries reported (ground arith) in
                  (done, w', ran, inr (inl r))
            ]
          ]
