-- ===== src/Ports/Memory.antt =====
-- Stores in memory, over which the use cases run in the tests: a view, the ids ever saved, a clock
-- that moves at every reading, and the next UUID.
use vshift.Base.{
  ◌≡◌, refl, sym, ap, subst, ℕ, suc, Bool, true, false, ◌&&◌, Option, none, some, List, [], ◌∷◌,
  arith, All, All-take, All-drop, All-imp, ◌==◌, nat_eq, string_eq, length, page, Bool-cases, inl,
  inr, if◌then◌else◌,
}
use vshift.Base.FilePath.{FilePath}
use vshift.Job.{Uuid, JobState, TranscodeJob, job_state_eq}
use vshift.Ports.{Stores}
use vshift.Ports.Contract.{
  View, IsLawful, IsListing, IsReading, IsKept, IsListed, head?, put_job, put_queue, put_dead,
  put_beat, drop_queue,
}

pub record Memory : Type 0 where
  pub seen : View
  pub ids : List Uuid
  pub clock : ℕ
  pub next_uuid : Uuid

same_path : FilePath → FilePath → Bool
same_path [] [] = true
same_path [] (q ∷ qs) = false
same_path (p ∷ ps) [] = false
same_path (p ∷ ps) (q ∷ qs) = p == q && same_path ps qs

same_path_refl : (p : FilePath) → same_path p p ≡ true
unfolding same_path
same_path_refl [] = refl
same_path_refl (p ∷ ps) = ground (arith, same_path_refl ps)

put_processed : FilePath → View → View
unfolding same_path
put_processed path v = record v {
  processed = λ other. if same_path path other then true else v.processed other;
}

-- A stored job before the others that are listed, if its id is listed.
abbrev and_listed :
    View → JobState → Uuid → Option TranscodeJob → List TranscodeJob → List TranscodeJob
and_listed v s id none found = found
and_listed v s id (some job) found = if v.index s id then job ∷ found else found

-- The jobs that a listing of a state returns, of those with the given ids.
listing : View → JobState → List Uuid → List TranscodeJob
listing v s [] = []
listing v s (id ∷ ids) = and_listed v s id (v.jobs id) (listing v s ids)

unfoldable pub memory : Stores Memory
unfolding listing put_processed
memory = record {
  save = λ job w. record w { seen = put_job job w.seen; ids = job.id ∷ w.ids };
  get = λ id w. w.seen.jobs id;
  list_by_state = λ s limit offset w. page limit offset (listing w.seen s w.ids);
  save_summary = λ summary w. w;
  get_summary = λ id w. none;
  enqueue = λ id w. record w { seen = put_queue id w.seen };
  dequeue = λ timeout w. (head? w.seen.queue, record w { seen = drop_queue w.seen });
  requeue = λ id w. record w { seen = record w.seen { queue = id ∷ w.seen.queue } };
  push_to_dead_letter = λ id w. record w { seen = put_dead id w.seen };
  depth = λ w. length w.seen.queue;
  is_processed = λ path w. w.seen.processed path;
  mark_processed = λ path id w. record w { seen = put_processed path w.seen };
  register = λ info w. w;
  heartbeat = λ worker w. w;
  deregister = λ worker w. w;
  list_workers = λ w. ([], w);
  set_job_heartbeat = λ id worker w. record w { seen = put_beat id w.seen };
  is_job_alive = λ id w. w.seen.alive id;
  now = λ w. (w.clock, record w { clock = suc w.clock });
  uuid4 = λ w. (w.next_uuid, record w { next_uuid = suc w.next_uuid });
}

and_listed_sound :
    (v : View) (s : JobState) (id : Uuid) (o : Option TranscodeJob) (found : List TranscodeJob)
    → v.jobs id ≡ o
    → All (IsListed v s) found
    → All (IsListed v s) (and_listed v s id o found)
and_listed_sound v s id none found e h = h
and_listed_sound v s id (some job) found e h = elim (Bool-cases (v.index s id)) [
  | inl listed ↦
      subst (All (IsListed v s)) (sym (ap (λ b. if b then job ∷ found else found) listed))
        ((id, listed, e), h)
  | inr other ↦
      subst (All (IsListed v s)) (sym (ap (λ b. if b then job ∷ found else found) other)) h
]

listing_sound : (v : View) (s : JobState) (ids : List Uuid) → All (IsListed v s) (listing v s ids)
unfolding listing
listing_sound v s [] = tt
listing_sound v s (id ∷ ids) =
    and_listed_sound v s id (v.jobs id) (listing v s ids) refl (listing_sound v s ids)

pub memory-IsLawful : IsLawful memory (λ w. w.seen)
unfolding memory
memory-IsLawful = record {
  get_lem = λ id w. refl;
  save_lem = λ job w. refl;
  save_summary_lem = λ s w. refl;
  enqueue_lem = λ id w. refl;
  dequeue_head = λ t w. refl;
  dequeue_rest = λ t w. refl;
  push_to_dead_letter_lem = λ id w. refl;
  depth_lem = λ w. refl;
  is_processed_lem = λ path w. refl;
  mark_processed_lem = λ path id w. (
    (put_processed path w.seen).processed,
    refl,
    rw (same_path_refl path) refl,
    λ other h. ground arith,
  );
  set_job_heartbeat_lem = λ id worker w. refl;
  is_job_alive_lem = λ id w. refl;
  register_lem = λ worker w. refl;
  deregister_lem = λ worker w. refl;
  heartbeat_lem = λ worker w. refl;
  now_lem = λ w. refl;
  uuid4_lem = λ w. refl;
}

memory-lists :
    (s : JobState) (limit offset : ℕ) (w : Memory)
    → All (IsListed w.seen s) (memory.list_by_state s limit offset w)
unfolding memory
memory-lists s limit offset w =
    All-take _ limit _ (All-drop _ offset _ (listing_sound w.seen s w.ids))

pub memory-IsListing : IsListing memory (λ w. w.seen)
memory-IsListing = record {
  IsTidy = λ w. Unit;
  list_sound = λ s limit offset w h. memory-lists s limit offset w;
  save_tidy = λ job w h. tt;
  enqueue_tidy = λ id w h. tt;
  dequeue_tidy = λ t w h. tt;
  push_to_dead_letter_tidy = λ id w h. tt;
  now_tidy = λ w h. tt;
}

pub memory-IsTidy : (w : Memory) → memory-IsListing.IsTidy w
unfolding memory-IsListing
memory-IsTidy w = tt

pub memory-IsReading : IsReading memory (λ w. w.seen)
memory-IsReading = record {
  list_kept = λ s limit offset w.
      All-imp (IsListed w.seen s) (IsKept w.seen) _ (λ job (id, under, stored). (id, stored))
        (memory-lists s limit offset w);
}
