-- ===== src/Server/Stranding.antt =====
-- A worker that ends in `ClaimJob.execute` between the `dequeue` and the `save`, and what
-- `RecoverStaleJobs.execute` does to the job afterwards.
use vshift.Base.{
  ◌==◌, ◌≡◌, sym, subst, ◌≢◌, ◌⊎◌, inl, inr, ℕ, zero, suc, false, some, List, [], ◌∷◌, ◌++◌,
  All-imp, arith, nat_eq, contains, Bool-cases,
}
use vshift.Job.{Uuid, JobState, pending, claimed, processing, TranscodeJob, job_state_eq}
use vshift.Lifecycle.{IsIndexed}
use vshift.Ports.{Stores}
use vshift.Ports.Contract.{View, IsLawful, IsListing, IsListed, put_job, put_queue, put_dead}
use vshift.Server.{list_limit, recover_stale_jobs}
use vshift.Server.Sparing.{recover_stale_jobs-Kept}

contains-append_other :
    (xs : List Uuid) (id other : Uuid)
    → other ≢ id
    → contains xs id ≡ false
    → contains (xs ++ other ∷ []) id ≡ false
contains-append_other [] id other ne h = ground arith
contains-append_other (x ∷ xs) id other ne h =
    ground (arith, contains-append_other xs id other ne (ground arith))

-- Each job is stored under its own id.
abbrev pub IsKeyed : View → Type 0
IsKeyed v = (id : Uuid) (job : TranscodeJob) → v.jobs id ≡ some job → job.id ≡ id

-- The job is stored, waits nowhere, and is not listed where a recovery looks.
abbrev pub IsStranded : Uuid → TranscodeJob → View → Type 0
IsStranded id job v =
    (v.jobs id ≡ some job)
    × (contains v.queue id ≡ false)
    × (v.index claimed id ≡ false)
    × (v.index processing id ≡ false)
    × IsKeyed v

module _ {W : Type 0} (P : Stores W) (view : W → View) (L : IsLawful P view) (I : IsListing P view)
    (max_retries : ℕ) where
  -- The state after a number of recovery passes.
  abbrev pub recoveries : ℕ → W → W
  recoveries zero w = w
  recoveries (suc n) w = recoveries n (recover_stale_jobs P max_retries w).1

  put_job-IsKeyed : (other : TranscodeJob) (v : View) → IsKeyed v → IsKeyed (put_job other v)
  put_job-IsKeyed other v keyed id job stored = elim (Bool-cases (id == other.id)) [
    | inl same ↦ ground arith
    | inr apart ↦ ground (arith, keyed id job)
  ]

  module _ (id : Uuid) (job : TranscodeJob) where
    requeue_strands :
        (other : TranscodeJob) (v : View)
        → other.id ≢ id
        → IsStranded id job v
        → IsStranded id job (put_queue other.id (put_job other v))
    requeue_strands other v ne h = (
      ground arith,
      contains-append_other v.queue id other.id ne h.1,
      ground arith,
      ground arith,
      put_job-IsKeyed other v h.4,
    )

    bury_strands :
        (other : TranscodeJob) (v : View)
        → other.id ≢ id
        → IsStranded id job v
        → IsStranded id job (put_dead other.id (put_job other v))
    bury_strands other v ne h =
        (ground arith, h.1, ground arith, ground arith, put_job-IsKeyed other v h.4)

    not_listed :
        (s : JobState) (v : View) (other : TranscodeJob)
        → (s ≡ claimed) ⊎ (s ≡ processing)
        → IsStranded id job v
        → IsListed v s other
        → other.id ≢ id
    not_listed s v other (inl e) h (k, under, stored) same = ground (arith, h.4 k other stored)
    not_listed s v other (inr e) h (k, under, stored) same = ground (arith, h.4 k other stored)

    -- The same in a tidy state.
    abbrev Strands : W → Type 0
    Strands w = IsStranded id job (view w) × I.IsTidy w

    recover_stale_jobs-Strands :
        (w : W) → Strands w → Strands (recover_stale_jobs P max_retries w).1
    recover_stale_jobs-Strands w h =
        (recover_stale_jobs-Kept P view L max_retries Strands (λ other. other ≢ id)
            (λ other w' ne (k, t). (
              rw (L.enqueue_lem, L.save_lem) (requeue_strands other (view w') ne k),
              I.enqueue_tidy other.id _ (I.save_tidy other w' t),
            ))
            (λ other w' ne (k, t). (
              rw (L.push_to_dead_letter_lem, L.save_lem) (bury_strands other (view w') ne k),
              I.push_to_dead_letter_tidy other.id _ (I.save_tidy other w' t),
            ))
            (λ w' (k, t). (rw (L.now_lem w') k, I.now_tidy w' t))
            (λ s w' which (k, t).
              All-imp (IsListed (view w') s) _ _
                (λ other listed w'' kept dead. not_listed s (view w') other which k listed)
                (I.list_sound s list_limit 0 w' t))).keeps
          w h

    recoveries-strand : (n : ℕ) (w : W) → Strands w → Strands (recoveries n w)
    recoveries-strand zero w h = h
    recoveries-strand (suc n) w h =
        recoveries-strand n (recover_stale_jobs P max_retries w).1 (recover_stale_jobs-Strands w h)

  -- In tidy stores with an exact index, where each job is stored under its own id: if a worker
  -- takes the id of a pending job, which waits only once, from the queue and ends before it saves
  -- the claim, then after any number of recovery passes the job is still stored as it was, and
  -- its id is not in the queue.
  pub recoveries-lose :
      (n timeout : ℕ) (id : Uuid) (ids : List Uuid) (job : TranscodeJob) (w : W)
      → I.IsTidy w
      → IsKeyed (view w)
      → IsIndexed (view w)
      → (view w).jobs id ≡ some job
      → job.state ≡ pending
      → (view w).queue ≡ id ∷ ids
      → contains ids id ≡ false
      → let w' = recoveries n (P.dequeue timeout w).1 in
        ((view w').jobs id ≡ some job) × (contains (view w').queue id ≡ false)
  recoveries-lose n timeout id ids job w tidy keyed indexed stored waits head once =
      let h = recoveries-strand id job n (P.dequeue timeout w).1 (
        subst (IsStranded id job) (sym (L.dequeue_rest timeout w)) (
          stored,
          ground arith,
          not_listed_as claimed (λ e. ground arith),
          not_listed_as processing (λ e. ground arith),
          keyed,
        ),
        I.dequeue_tidy timeout w tidy,
      ) in
      (h.0.0, h.0.1)
    where
      not_listed_as : (s : JobState) → s ≢ job.state → (view w).index s id ≡ false
      not_listed_as s ne = elim (Bool-cases ((view w).index s id)) [
        | inl listed ↦ absurd (ne (indexed.listed_once id job s stored listed))
        | inr other ↦ other
      ]
