-- ===== src/Worker/Claiming.antt =====
-- `ClaimJob.execute` against its contract on the abstract view.
use vshift.Base.{
  ◌≡◌, refl, sym, subst, ap, ◌∙◌, ℕ, Option, none, some, arith, ◌==◌, nat_eq, Option-cases,
  Bool-cases, inl, inr, if◌then◌else◌,
}
use vshift.Base.Exec.{ok, ◌>>=◌}
use vshift.Job.{Uuid, Timestamp, pending, claimed, TranscodeJob, job_state_eq}
use vshift.Job.Transitions.{claim_ok}
use vshift.Ports.{Stores}
use vshift.Ports.Contract.{View, IsLawful, head?, put_job, put_beat, drop_queue}
use vshift.Lifecycle.{IsWellFormed, IsConsistent}
use vshift.Lifecycle.Preservation.{
  put_job-IsConsistent, put_beat-IsConsistent, drop_queue-IsConsistent,
}
use vshift.Job.Copies.{claimed_copy}
use vshift.Worker.{claim_job}

-- The job that stands at the head of the queue, if it is stored and pending.
abbrev pub if_pending : Option TranscodeJob → Option TranscodeJob
if_pending none = none
if_pending (some job) = if job.state == pending then some job else none

abbrev pub stored : View → Option Uuid → Option TranscodeJob
stored v none = none
stored v (some id) = v.jobs id

abbrev pub next_pending : View → Option TranscodeJob
next_pending v = if_pending (stored v (head? v.queue))

-- A claim takes the next id from the queue, whatever it is. It claims the job if that is stored and
-- pending, and else returns nothing and changes nothing else.
abbrev pub claim_outcome :
    Uuid → Timestamp → View → Option TranscodeJob → Option TranscodeJob × View
claim_outcome worker now v none = (none, drop_queue v)
claim_outcome worker now v (some job) =
    let job' = claimed_copy job claimed worker now in
    (some job', put_beat job.id (put_job job' (drop_queue v)))

module _ (max_retries : ℕ) (worker : Uuid) (now : Timestamp) where
  pub claimed_copy-IsWellFormed :
      (job : TranscodeJob)
      → IsWellFormed max_retries job
      → IsWellFormed max_retries (claimed_copy job claimed worker now)
  claimed_copy-IsWellFormed job h = ground arith

  -- The next pending job stands at the head of the queue, is stored under its id and is pending.
  pub next_pending_lem :
      (v : View) (job : TranscodeJob)
      → next_pending v ≡ some job
      → (id : Uuid) × (head? v.queue ≡ some id) × (v.jobs id ≡ some job) × (job.state ≡ pending)
  next_pending_lem v job e = elim (Option-cases (head? v.queue)) [
    | inl empty ↦ absurd (ground arith)
    | inr (id, first) ↦ (id, first, ground arith, ground arith)
  ]

  claim_outcome-IsConsistent :
      (v : View) (next : Option TranscodeJob)
      → next_pending v ≡ next
      → IsConsistent max_retries v
      → IsConsistent max_retries (claim_outcome worker now v next).1
  claim_outcome-IsConsistent v none e c =
      drop_queue-IsConsistent max_retries v c (λ id job first known waits. ground arith)
  claim_outcome-IsConsistent v (some job) e c =
      let (id, first, known, waits) = next_pending_lem v job e in
      let job' = claimed_copy job claimed worker now in
      let saved =
        put_job-IsConsistent max_retries v c job'
          (claimed_copy-IsWellFormed job (c.well_formed id job known)) (λ p. cc) (λ p. cc) in
      drop_queue-IsConsistent max_retries (put_beat job.id (put_job job' v))
        (put_beat-IsConsistent max_retries (put_job job' v) saved job.id)
        (λ k other first' known' waits'. ground (arith, c.keyed id job known))

module _ {W : Type 0} (P : Stores W) (view : W → View) (L : IsLawful P view) (worker : Uuid)
    (timeout : ℕ) (w : W) where
  abbrev pub claim_time : Timestamp
  claim_time = (P.now (P.dequeue timeout w).1).0

  -- Over any lawful stores a claim never raises, returns the next pending job as claimed by this
  -- worker now, and leaves the view that its contract gives.
  pub view-claim_job :
      let (out, v) = claim_outcome worker claim_time (view w) (next_pending (view w)) in
      ((claim_job P worker timeout w).0 ≡ ok out) × (view (claim_job P worker timeout w).1 ≡ v)
  unfolding claim_job ◌>>=◌
  view-claim_job = elim (Option-cases (head? (view w).queue)) [
    | inl empty ↦ ground (arith, L.dequeue_head timeout w, L.dequeue_rest timeout w)
    | inr (id, first) ↦ elim (Option-cases ((view w).jobs id)) [
      | inl unknown ↦ ground (arith, L.dequeue_head timeout w, L.dequeue_rest timeout w, fetched id)
      | inr (job, known) ↦ elim (Bool-cases (job.state == pending)) [
        | inl waits ↦ ground (
          arith,
          L.dequeue_head timeout w,
          fetched id,
          claim_ok job.state,
          committed (claimed_copy job claimed worker claim_time),
        )
        | inr other ↦ ground (arith, L.dequeue_head timeout w, L.dequeue_rest timeout w, fetched id)
      ]
    ]
  ]
    where
      fetched : (id : Uuid) → P.get id (P.dequeue timeout w).1 ≡ (view w).jobs id
      fetched id = L.get_lem id _ ∙ ap (λ v. v.jobs id) (L.dequeue_rest timeout w)

      committed :
          (job : TranscodeJob)
          → view (
              P.heartbeat worker
                (P.set_job_heartbeat job.id worker (P.save job (P.now (P.dequeue timeout w).1).1)))
            ≡ put_beat job.id (put_job job (drop_queue (view w)))
      committed job =
          simp (L.heartbeat_lem, L.set_job_heartbeat_lem, L.save_lem, L.now_lem, L.dequeue_rest)

  -- A claim keeps the stores consistent.
  pub claim_job-IsConsistent :
      (max_retries : ℕ)
      → IsConsistent max_retries (view w)
      → IsConsistent max_retries (view (claim_job P worker timeout w).1)
  claim_job-IsConsistent max_retries c =
      subst (IsConsistent max_retries) (sym view-claim_job.1)
        (claim_outcome-IsConsistent max_retries worker claim_time (view w) _ refl c)
