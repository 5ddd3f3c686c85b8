-- ===== src/Worker/Queueing.antt =====
-- What waits in the queue of a worker's loop, how many rounds it may take, and what a round and the
-- loop leave of it (src/vshift/application/worker/main.py).
use vshift.Base.{
  ◌≡◌, refl, sym, ◌∙◌, ap, ◌≢◌, ℕ, ◌+◌, ◌<◌, none, some, Option, List, [], ◌∷◌, ◌++◌, All,
  All-append, arith, nat_eq,
}
use vshift.Job.{Uuid, pending, TranscodeJob, job_state_eq}
use vshift.Ports.Contract.{View, rest}
use vshift.Worker.Claiming.{next_pending}

-- A pending job is stored under the id.
abbrev pub IsWaiting : View → Uuid → Type 0
IsWaiting v id =
    (job : TranscodeJob) × (v.jobs id ≡ some job) × (job.state ≡ pending) × (job.id ≡ id)

-- The id is not among these.
abbrev pub IsApart : Uuid → List Uuid → Type 0
IsApart id ids = All (λ other. other ≢ id) ids

-- No id stands in the list twice.
abbrev pub AreDistinct : List Uuid → Type 0
AreDistinct [] = Unit
AreDistinct (id ∷ ids) = IsApart id ids × AreDistinct ids

-- How many rounds the jobs under these ids may take, if each takes as many as its weight.
module _ (weight : TranscodeJob → ℕ) where
  abbrev pub weight_of : Option TranscodeJob → ℕ
  weight_of none = 0
  weight_of (some job) = weight job

  abbrev pub credit : View → List Uuid → ℕ
  credit v [] = 0
  credit v (id ∷ ids) = weight_of (v.jobs id) + credit v ids

  pub credit-append :
      (v : View) (ids : List Uuid) (id : Uuid)
      → credit v (ids ++ id ∷ []) ≡ credit v ids + weight_of (v.jobs id)
  credit-append v [] id = omega arith
  credit-append v (other ∷ ids) id = omega (arith, credit-append v ids id)

-- Only the job under this id may have changed.
abbrev pub SameBeside : Uuid → View → View → Type 0
SameBeside id before after = (other : Uuid) → other ≢ id → after.jobs other ≡ before.jobs other

pub still-IsWaiting :
    (id : Uuid) (v v' : View)
    → SameBeside id v v'
    → (ids : List Uuid) → IsApart id ids
    → All (IsWaiting v) ids
    → All (IsWaiting v') ids
still-IsWaiting id v v' same [] apart waiting = tt
still-IsWaiting id v v' same (other ∷ ids) (differs, apart) ((job, known, pends, key), waiting) =
    ((job, same other differs ∙ known, pends, key), still-IsWaiting id v v' same ids apart waiting)

pub same_credit :
    (weight : TranscodeJob → ℕ) (id : Uuid) (v v' : View)
    → SameBeside id v v'
    → (ids : List Uuid) → IsApart id ids
    → credit weight v' ids ≡ credit weight v ids
same_credit weight id v v' same [] apart = refl
same_credit weight id v v' same (other ∷ ids) (differs, apart) =
    omega
      (arith, ap (weight_of weight) (same other differs), same_credit weight id v v' same ids apart)

pub next_waiting :
    (id : Uuid) (ids : List Uuid) (v : View)
    → v.queue ≡ id ∷ ids
    → (waiting : IsWaiting v id) → next_pending v ≡ some waiting.0
next_waiting id ids v q (job, known, pends, key) = ground arith

pub IsApart-snoc :
    (id k : Uuid) (ids : List Uuid) → IsApart k ids → id ≢ k → IsApart k (ids ++ id ∷ [])
IsApart-snoc id k ids apart differs =
    All-append (λ other. other ≢ k) ids (id ∷ []) apart (differs, tt)

pub distinct_snoc :
    (id : Uuid) (ids : List Uuid) → IsApart id ids → AreDistinct ids → AreDistinct (ids ++ id ∷ [])
distinct_snoc id [] apart distinct = (tt, tt)
distinct_snoc id (other ∷ ids) (differs, apart) (fresh, distinct) =
    (IsApart-snoc id other ids fresh (λ e. differs (sym e)), distinct_snoc id ids apart distinct)

module _ (Over : TranscodeJob → Type 0) where
  -- A job that is over is stored under the id.
  abbrev pub IsOver : View → Uuid → Type 0
  IsOver v id = (job : TranscodeJob) × (v.jobs id ≡ some job) × Over job

  -- A round that has ended its job.
  pub record Ends (job done : TranscodeJob) (before after : View) : Type 0 where
    pub is_over : Over done
    pub is_stored : after.jobs job.id ≡ some done
    pub others : SameBeside job.id before after
    pub taken : after.queue ≡ rest before.queue

  -- What a loop leaves that has taken these ids from the queue for good.
  pub record Drains (ids : List Uuid) (before after : View) : Type 0 where
    pub all_over : All (IsOver after) ids
    pub others : (id : Uuid) → IsApart id ids → after.jobs id ≡ before.jobs id
    pub no_queue : after.queue ≡ []

-- A round after which its job waits again, with less weight.
pub record Rejoins (weight : TranscodeJob → ℕ) (job again : TranscodeJob) (before after : View)
    : Type 0 where
  pub is_pending : again.state ≡ pending
  pub same_id : again.id ≡ job.id
  pub lighter : weight again < weight job
  pub is_stored : after.jobs job.id ≡ some again
  pub others : SameBeside job.id before after
  pub queued_again : after.queue ≡ rest before.queue ++ job.id ∷ []
