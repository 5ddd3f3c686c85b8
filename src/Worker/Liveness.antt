-- ===== src/Worker/Liveness.antt =====
-- How many rounds the loop of src/vshift/application/worker/main.py needs for what waits, with a
-- transcoder that always ends.
use vshift.Base.{
  ◌≡◌, refl, ◌⊎◌, inl, inr, ℕ, suc, ◌-◌, ◌≤◌, false, some, Option-cases, List, [], ◌∷◌, All, length,
  arith, nat_eq,
}
use vshift.Base.Exec.{ok}
use vshift.Job.{Uuid, completed, failed, TranscodeJob, job_state_eq}
use vshift.Ports.{Stores, Transcoder}
use vshift.Ports.Contract.{View, IsLawful, rest}
use vshift.Worker.Attempts.{IsFinishing, IsAnswering}
use vshift.Worker.Outcomes.{Completes, Retries, Buries}
use vshift.Worker.Settling.{process_next_job-completes, process_next_job-settles}
use vshift.Worker.Main.{StopEvent, run_loop}
use vshift.Worker.Queueing.{IsWaiting, AreDistinct, credit, Ends, Rejoins, Drains}
use vshift.Worker.Draining.{drained}

-- Completed by this worker.
abbrev pub IsCompletedBy : Uuid → TranscodeJob → Type 0
IsCompletedBy worker job = (job.state ≡ completed) × (job.worker_id ≡ some worker)

-- Failed, and with no attempt left.
abbrev pub IsSpent : ℕ → TranscodeJob → Type 0
IsSpent max_retries job = (job.state ≡ failed) × (max_retries ≤ job.attempt)

abbrev pub IsSettled : Uuid → ℕ → TranscodeJob → Type 0
IsSettled worker max_retries job = IsCompletedBy worker job ⊎ IsSpent max_retries job

-- The attempts that are left to a job, the next one included.
abbrev pub attempts_left : ℕ → TranscodeJob → ℕ
attempts_left max_retries job = suc (max_retries - job.attempt)

credit-length : (v : View) (ids : List Uuid) → credit (λ job. 1) v ids ≤ length ids
credit-length v [] = omega arith
credit-length v (id ∷ ids) = elim (Option-cases (v.jobs id)) [
  | inl unknown ↦ ground (arith, credit-length v ids)
  | inr (job, known) ↦ ground (arith, credit-length v ids)
]

module _ (worker : Uuid) (job done : TranscodeJob) (before after : View) where
  Completes-Ends :
      (Over : TranscodeJob → Type 0)
      → (IsCompletedBy worker done → Over done)
      → Completes worker job done (record before { queue = rest before.queue }) after
      → Ends Over job done before after
  Completes-Ends Over over c = record {
    is_over = over (c.is_completed, c.is_owned);
    is_stored = c.is_stored;
    others = c.others;
    taken = c.same_queue;
  }

  Buries-Ends :
      (max_retries : ℕ)
      → Buries max_retries job done before after
      → Ends (IsSettled worker max_retries) job done before after
  Buries-Ends max_retries b = record {
    is_over = inr (b.is_failed, ground (arith, b.no_retry, b.same_attempt));
    is_stored = b.fails.is_stored;
    others = b.fails.others;
    taken = b.taken;
  }

  Retries-Rejoins :
      (max_retries : ℕ)
      → Retries max_retries job done before after
      → Rejoins (attempts_left max_retries) job done before after
  Retries-Rejoins max_retries r = record {
    is_pending = r.is_pending;
    same_id = r.fails.same_id;
    lighter = ground (arith, r.had_retry, r.attempt_counted);
    is_stored = r.fails.is_stored;
    others = r.fails.others;
    queued_again = r.queued_again;
  }

module _ {W : Type 0} (P : Stores W) (view : W → View) (L : IsLawful P view) (worker : Uuid)
    (max_retries : ℕ) (T : Transcoder W) (timeout : ℕ) (stop : StopEvent W)
    (runs_on : (w : W) → stop.is_set w ≡ false)
    (waits : (w : W) → view (stop.wait w).1 ≡ view w) where
  -- Where ffmpeg and ffprobe succeed, no signal comes, nothing else writes to the stores and only
  -- pending jobs wait, each once, the loop of a worker, after as many rounds as jobs wait or more,
  -- has returned normally and has emptied the queue: each of these jobs is stored as completed by
  -- this worker, and no other job has changed.
  pub run_loop-Drains :
      (rounds : ℕ) (w : W)
      → IsFinishing P view L T
      → AreDistinct (view w).queue
      → All (IsWaiting (view w)) (view w).queue
      → length (view w).queue ≤ rounds
      → (w' : W) × (run_loop P worker max_retries T timeout stop rounds w ≡ (ok tt, w'))
        × Drains (IsCompletedBy worker) (view w).queue (view w) (view w')
  run_loop-Drains rounds w finishing distinct waiting enough =
      drained P view L worker max_retries T timeout stop runs_on waits (IsCompletedBy worker)
        (λ job. 1) (λ job. omega arith)
        (λ job w next.
          let (done, w', ran, c) =
            process_next_job-completes P view L worker max_retries T timeout job w next finishing in
          (
            done,
            w',
            ran,
            inl (
                Completes-Ends worker job done (view w) (view w') (IsCompletedBy worker) (λ h. h)
                  c),
          ))
        rounds (view w).queue w
        (refl, distinct, waiting, omega (arith, enough, credit-length (view w) (view w).queue))

  -- Where ffmpeg and ffprobe succeed or raise a `VShiftException` each time, no signal comes,
  -- nothing else writes to the stores and only pending jobs wait, each once, the loop of a worker,
  -- after as many rounds as attempts are left to these jobs together or more, has returned normally
  -- and has emptied the queue: each of these jobs is stored as completed by this worker or as
  -- failed with its attempts used up, and no other job has changed.
  pub run_loop-settles :
      (rounds : ℕ) (w : W)
      → IsAnswering P view L T
      → AreDistinct (view w).queue
      → All (IsWaiting (view w)) (view w).queue
      → credit (attempts_left max_retries) (view w) (view w).queue ≤ rounds
      → (w' : W) × (run_loop P worker max_retries T timeout stop rounds w ≡ (ok tt, w'))
        × Drains (IsSettled worker max_retries) (view w).queue (view w) (view w')
  run_loop-settles rounds w answering distinct waiting enough =
      drained P view L worker max_retries T timeout stop runs_on waits
        (IsSettled worker max_retries) (attempts_left max_retries) (λ job. omega arith)
        (λ job w next.
          let (done, w', ran, outcome) =
            process_next_job-settles P view L worker max_retries T timeout job w next answering in
          (done, w', ran, settled job done w w' outcome))
        rounds (view w).queue w (refl, distinct, waiting, enough)
    where
      settled :
          (job done : TranscodeJob) (w w' : W)
          → Completes worker job done (record (view w) { queue = rest (view w).queue }) (view w')
            ⊎ (Retries max_retries job done (view w) (view w')
                ⊎ Buries max_retries job done (view w) (view w'))
          → Ends (IsSettled worker max_retries) job done (view w) (view w')
            ⊎ Rejoins (attempts_left max_retries) job done (view w) (view w')
      settled job done w w' (inl c) =
          inl
            (Completes-Ends worker job done (view w) (view w') (IsSettled worker max_retries) inl c)
      settled job done w w' (inr (inl r)) =
          inr (Retries-Rejoins worker job done (view w) (view w') max_retries r)
      settled job done w w' (inr (inr b)) =
          inl (Buries-Ends worker job done (view w) (view w') max_retries b)
