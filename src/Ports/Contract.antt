-- ===== src/Ports/Contract.antt =====
-- What a use case may rely on in its stores: an abstract view of the state, and the effect of each
-- call on that view.
use vshift.Base.{
  ◌≡◌, ℕ, Bool, true, false, Option, none, some, List, [], ◌∷◌, ◌++◌, All, ◌==◌, nat_eq, length,
  if◌then◌else◌,
}
use vshift.Base.FilePath.{FilePath}
use vshift.Job.{Uuid, JobState, TranscodeJob, JobSummary, job_state_eq}
use vshift.Workers.{WorkerInfo}
use vshift.Ports.{Stores}

pub record View : Type 0 where
  -- the stored jobs
  pub jobs : Uuid → Option TranscodeJob
  -- the ids that the index of each state lists
  pub index : JobState → Uuid → Bool
  -- the ids that wait, the next one to be taken first
  pub queue : List Uuid
  -- the dead letters, the newest first
  pub dead : List Uuid
  pub processed : FilePath → Bool
  -- the jobs with a heartbeat that has not expired
  pub alive : Uuid → Bool

abbrev pub head? : List Uuid → Option Uuid
head? [] = none
head? (id ∷ ids) = some id

abbrev pub rest : List Uuid → List Uuid
rest [] = []
rest (id ∷ ids) = ids

-- Whether a state is the one under which an older version of the job is listed.
abbrev pub is_listed_under : JobState → Option TranscodeJob → Bool
is_listed_under s none = false
is_listed_under s (some existing) = s == existing.state

-- Saving stores the job, lists it under its state, and takes it off the list of the state that the
-- stored version had.
abbrev pub put_job : TranscodeJob → View → View
put_job job v = record v {
  jobs = λ id. if id == job.id then some job else v.jobs id;
  index = λ s id.
      if id == job.id
      then (if s == job.state
          then true
          else (if is_listed_under s (v.jobs job.id) then false else v.index s id))
      else v.index s id;
}

abbrev pub put_queue : Uuid → View → View
put_queue id v = record v { queue = v.queue ++ id ∷ [] }

abbrev pub put_dead : Uuid → View → View
put_dead id v = record v { dead = id ∷ v.dead }

abbrev pub drop_queue : View → View
drop_queue v = record v { queue = rest v.queue }

abbrev pub put_beat : Uuid → View → View
put_beat id v = record v { alive = λ other. if other == id then true else v.alive other }

-- What a listing may return: a job that is stored under an id that the index of the state lists.
abbrev pub IsListed : View → JobState → TranscodeJob → Type 0
IsListed v s job = (id : Uuid) × (v.index s id ≡ true) × (v.jobs id ≡ some job)

pub record IsLawful {W : Type 0} (P : Stores W) (view : W → View) : Type 0 where
  pub get_lem : (id : Uuid) (w : W) → P.get id w ≡ (view w).jobs id
  pub save_lem : (job : TranscodeJob) (w : W) → view (P.save job w) ≡ put_job job (view w)
  pub save_summary_lem : (s : JobSummary) (w : W) → view (P.save_summary s w) ≡ view w
  pub enqueue_lem : (id : Uuid) (w : W) → view (P.enqueue id w) ≡ put_queue id (view w)
  pub dequeue_head : (t : ℕ) (w : W) → (P.dequeue t w).0 ≡ head? (view w).queue
  pub dequeue_rest : (t : ℕ) (w : W) → view (P.dequeue t w).1 ≡ drop_queue (view w)
  pub push_to_dead_letter_lem :
      (id : Uuid) (w : W) → view (P.push_to_dead_letter id w) ≡ put_dead id (view w)
  pub depth_lem : (w : W) → P.depth w ≡ length (view w).queue
  pub is_processed_lem : (path : FilePath) (w : W) → P.is_processed path w ≡ (view w).processed path
  pub mark_processed_lem :
      (path : FilePath) (id : Uuid) (w : W)
      → (p : FilePath → Bool) × (view (P.mark_processed path id w)
          ≡ record (view w) { processed = p })
        × (p path ≡ true)
        × ((other : FilePath) → (view w).processed other ≡ true → p other ≡ true)
  pub set_job_heartbeat_lem :
      (id worker : Uuid) (w : W) → view (P.set_job_heartbeat id worker w) ≡ put_beat id (view w)
  pub is_job_alive_lem : (id : Uuid) (w : W) → P.is_job_alive id w ≡ (view w).alive id
  pub register_lem : (worker : WorkerInfo) (w : W) → view (P.register worker w) ≡ view w
  pub deregister_lem : (worker : Uuid) (w : W) → view (P.deregister worker w) ≡ view w
  pub heartbeat_lem : (worker : Uuid) (w : W) → view (P.heartbeat worker w) ≡ view w
  pub now_lem : (w : W) → view (P.now w).1 ≡ view w
  pub uuid4_lem : (w : W) → view (P.uuid4 w).1 ≡ view w

-- What recoveries and listings rely on beside that: in a tidy state a listing returns listed jobs,
-- and the calls of a recovery leave the state tidy.
pub record IsListing {W : Type 0} (P : Stores W) (view : W → View) : Type 1 where
  pub IsTidy : W → Type 0
  pub list_sound :
      (s : JobState) (limit offset : ℕ) (w : W)
      → IsTidy w
      → All (IsListed (view w) s) (P.list_by_state s limit offset w)
  pub save_tidy : (job : TranscodeJob) (w : W) → IsTidy w → IsTidy (P.save job w)
  pub enqueue_tidy : (id : Uuid) (w : W) → IsTidy w → IsTidy (P.enqueue id w)
  pub dequeue_tidy : (t : ℕ) (w : W) → IsTidy w → IsTidy (P.dequeue t w).1
  pub push_to_dead_letter_tidy :
      (id : Uuid) (w : W) → IsTidy w → IsTidy (P.push_to_dead_letter id w)
  pub now_tidy : (w : W) → IsTidy w → IsTidy (P.now w).1

-- A job that stands under some id.
abbrev pub IsKept : View → TranscodeJob → Type 0
IsKept v job = (id : Uuid) × (v.jobs id ≡ some job)

-- What keeping the stores consistent relies on: a listing returns stored jobs, whatever the index
-- says.
pub record IsReading {W : Type 0} (P : Stores W) (view : W → View) : Type 0 where
  pub list_kept :
      (s : JobState) (limit offset : ℕ) (w : W)
      → All (IsKept (view w)) (P.list_by_state s limit offset w)
