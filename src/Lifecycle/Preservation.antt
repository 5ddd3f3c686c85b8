-- ===== src/Lifecycle/Preservation.antt =====
-- The effects of the store's calls on a consistent view.
use vshift.Base.{
  ◌≡◌, ◌≢◌, ℕ, true, some, List, [], ◌∷◌, ◌++◌, arith, contains, nat_eq, Option-cases, inl, inr,
}
use vshift.Job.{Uuid, JobState, pending, failed, TranscodeJob, job_state_eq}
use vshift.Ports.Contract.{View, head?, rest, put_job, put_queue, put_dead, put_beat, drop_queue}
use vshift.Lifecycle.{IsWellFormed, IsConsistent, IsIndexed}

contains-append_left :
    (xs ys : List Uuid) (id : Uuid) → contains xs id ≡ true → contains (xs ++ ys) id ≡ true
contains-append_left [] ys id h = cc
contains-append_left (x ∷ xs) ys id h = ground (arith, contains-append_left xs ys id)

pub contains-snoc : (xs : List Uuid) (id : Uuid) → contains (xs ++ id ∷ []) id ≡ true
contains-snoc [] id = ground arith
contains-snoc (x ∷ xs) id = ground (arith, contains-snoc xs id)

contains-rest :
    (xs : List Uuid) (id : Uuid)
    → contains xs id ≡ true
    → head? xs ≢ some id
    → contains (rest xs) id ≡ true
contains-rest [] id h k = cc
contains-rest (x ∷ xs) id h k = ground arith

module _ (max_retries : ℕ) (v : View) (c : IsConsistent max_retries v) where
  -- Saving a well-formed job keeps the view consistent, if the job waits in the queue where it is
  -- pending and is among the dead letters where it has failed.
  pub put_job-IsConsistent :
      (job : TranscodeJob)
      → IsWellFormed max_retries job
      → (job.state ≡ pending → contains v.queue job.id ≡ true)
      → (job.state ≡ failed → contains v.dead job.id ≡ true)
      → IsConsistent max_retries (put_job job v)
  put_job-IsConsistent job w q d = record {
    keyed = λ id j e. ground (arith, c.keyed id j);
    well_formed = λ id j e. ground (arith, c.well_formed id j);
    queued = λ id j e s. ground (arith, c.queued id j);
    buried = λ id j e s. ground (arith, c.buried id j);
  }

  pub put_queue-IsConsistent : (id : Uuid) → IsConsistent max_retries (put_queue id v)
  put_queue-IsConsistent id = record {
    keyed = c.keyed;
    well_formed = c.well_formed;
    queued = λ k j e s. contains-append_left v.queue (id ∷ []) k (c.queued k j e s);
    buried = c.buried;
  }

  pub put_dead-IsConsistent : (id : Uuid) → IsConsistent max_retries (put_dead id v)
  put_dead-IsConsistent id = record {
    keyed = c.keyed;
    well_formed = c.well_formed;
    queued = c.queued;
    buried = λ k j e s. ground (arith, c.buried k j);
  }

  pub put_beat-IsConsistent : (id : Uuid) → IsConsistent max_retries (put_beat id v)
  put_beat-IsConsistent id = record {
    keyed = c.keyed;
    well_formed = c.well_formed;
    queued = c.queued;
    buried = c.buried;
  }

  -- Taking the next id from the queue keeps the view consistent if its job is not pending.
  pub drop_queue-IsConsistent :
      ((id : Uuid) (job : TranscodeJob)
        → head? v.queue ≡ some id
        → v.jobs id ≡ some job
        → job.state ≢ pending)
      → IsConsistent max_retries (drop_queue v)
  drop_queue-IsConsistent h = record {
    keyed = c.keyed;
    well_formed = c.well_formed;
    queued = λ id j e s. contains-rest v.queue id (c.queued id j e s) (λ first. h id j first e s);
    buried = c.buried;
  }

-- Saving a job keeps the index exact.
pub put_job-IsIndexed : (v : View) (job : TranscodeJob) → IsIndexed v → IsIndexed (put_job job v)
put_job-IsIndexed v job x = record {
  listed = λ id j e. ground (arith, x.listed id j);
  listed_once = λ id j s e i. once id j s e i;
  unlisted = λ id s e. ground (arith, x.unlisted id s);
}
  where
    once :
        (id : Uuid) (j : TranscodeJob) (s : JobState)
        → (put_job job v).jobs id ≡ some j
        → (put_job job v).index s id ≡ true
        → s ≡ j.state
    once id j s e i = elim (Option-cases (v.jobs id)) [
      | inl nothing ↦ ground (arith, x.unlisted id s)
      | inr (old, f) ↦ ground (arith, x.listed_once id old s, x.listed_once id j s)
    ]
