-- ===== src/Redis/Effects.antt =====
-- What a command of the stores does to the view of the ports, by the key that it is sent with.
use vshift.Base.{
  ◌≡◌, refl, sym, ap, ◌∙◌, String, Bool, true, false, Option, none, some, List, [], ◌∷◌, ◌++◌, map,
  arith, ◌==◌, nat_eq, string_eq, length, Bool-cases, inl, inr, if◌then◌else◌,
}
use vshift.Base.FilePath.{FilePath}
use vshift.Job.{Uuid, JobState, TranscodeJob, job_state_eq}
use vshift.Ports.Contract.{
  View, put_job, put_queue, put_dead, put_beat, drop_queue, is_listed_under,
}
use vshift.Redis.{
  Codec, RedisKeys, pending_queue, dead_letter_queue, job_key, job_summary_key, job_heartbeat_key,
  job_state_index, worker_key, workers_index, processed_file,
}
use vshift.Redis.Keys.{
  IsUuidText, eq-false, eq-uuid_text, eq-job_key, eq-job_heartbeat_key, eq-job_state_index,
  job-processed, job-worker, job_heartbeat-processed, job_heartbeat-worker, processed-worker,
  processed-job_summary, job-job_heartbeat, job-job_summary, job_heartbeat-job_summary,
  job_state_index-workers_index, pending_queue-dead_letter_queue,
}
use vshift.Redis.Keyspace.{Keyspace, put_string, put_member, put_list, view_of, reversed}
use vshift.Redis.RoundTrip.{others, map-snoc, map-rest}

View-ext :
    (v v' : View)
    → ((id : Uuid) → v.jobs id ≡ v'.jobs id)
    → ((s : JobState) (id : Uuid) → v.index s id ≡ v'.index s id)
    → v.queue ≡ v'.queue
    → v.dead ≡ v'.dead
    → ((path : FilePath) → v.processed path ≡ v'.processed path)
    → ((id : Uuid) → v.alive id ≡ v'.alive id)
    → v ≡ v'
View-ext v v' j x q d p a = λ i. record {
  jobs = λ id. j id i;
  index = λ s id. x s id i;
  queue = q i;
  dead = d i;
  processed = λ path. p path i;
  alive = λ id. a id i;
}

module _ (keys : RedisKeys) (codec : Codec) (U : IsUuidText codec) where
  abbrev pub seen : Keyspace → View
  seen = view_of keys codec

  -- A text under a key that stands for no job, file or heartbeat is not seen.
  pub put_string-unseen :
      (key : String) (value : Option String) (m : Keyspace)
      → ((id : Uuid) → (job_key keys codec id == key) ≡ false)
      → ((id : Uuid) → (job_heartbeat_key keys codec id == key) ≡ false)
      → ((path : FilePath) → (processed_file keys codec path == key) ≡ false)
      → seen (put_string key value m) ≡ seen m
  put_string-unseen key value m job beat file =
      View-ext (seen (put_string key value m)) (seen m) (λ id. ground (arith, job id))
        (λ s id. refl) refl refl (λ path. ground (arith, file path)) (λ id. ground (arith, beat id))

  file_differs :
      (id : Uuid) (path : FilePath)
      → (processed_file keys codec path == job_key keys codec id) ≡ false
  file_differs id path =
      eq-false (processed_file keys codec path) (job_key keys codec id)
        (λ e. job-processed keys codec U id path (sym e))

  beat_differs :
      (id other : Uuid) → (job_heartbeat_key keys codec other == job_key keys codec id) ≡ false
  beat_differs id other =
      eq-false (job_heartbeat_key keys codec other) (job_key keys codec id)
        (λ e. job-job_heartbeat keys codec U id other (sym e))

  -- A job with its text and its place in the index.
  abbrev listed : TranscodeJob → View → View
  listed job v = record v {
    jobs = λ id. if id == job.id then some job else v.jobs id;
    index = λ s. λ id.
        if s == job.state then (if id == job.id then true else v.index s id) else v.index s id;
  }

  -- A view without the place of the old version.
  abbrev unlisted_view : Option TranscodeJob → TranscodeJob → View → View
  unlisted_view old job v = record v {
    index = λ s. λ id.
        if id == job.id
        then (if s == job.state
            then v.index s id
            else if is_listed_under s old
            then false
            else v.index s id)
        else v.index s id;
  }

  -- A job's text and its place in the index, with the old place left.
  put_job-seen :
      (job : TranscodeJob) (payload : String) (m : Keyspace)
      → codec.load_job payload ≡ job
      → seen (
          put_member true
            (job_state_index keys codec job.state)
            (codec.uuid_text job.id)
            (put_string (job_key keys codec job.id) (some payload) m))
        ≡ listed job (seen m)
  put_job-seen job payload m reads =
      View-ext _ _ (λ id. ground (arith, eq-job_key keys codec U id job.id, reads))
        (λ s id.
          ground (
            arith,
            eq-job_state_index keys codec U s job.state,
            eq-uuid_text keys codec U id job.id,
          ))
        refl refl (λ path. ground (arith, file_differs job.id path))
        (λ id. ground (arith, beat_differs job.id id))

  -- The stored version is taken off the list of its state.
  unfoldable pub unlisted : Option TranscodeJob → TranscodeJob → Keyspace → Keyspace
  unlisted none job m = m
  unlisted (some existing) job m =
      if existing.state == job.state
      then m
      else put_member false (job_state_index keys codec existing.state) (codec.uuid_text job.id) m

  unlisted-seen :
      (old : Option TranscodeJob) (job : TranscodeJob) (m : Keyspace)
      → seen (unlisted old job m) ≡ unlisted_view old job (seen m)
  unfolding unlisted
  unlisted-seen none job m =
      View-ext _ _ (λ id. refl) (λ s id. ground arith) refl refl (λ path. refl) (λ id. refl)
  unlisted-seen (some existing) job m = elim (Bool-cases (existing.state == job.state)) [
    | inl same ↦
        View-ext _ _ (λ id. ground arith) (λ s id. ground arith) (ground arith) (ground arith)
          (λ path. ground arith) (λ id. ground arith)
    | inr other ↦
        View-ext _ _ (λ id. ground arith)
          (λ s id. ground (
            arith,
            eq-job_state_index keys codec U s existing.state,
            eq-uuid_text keys codec U id job.id,
          ))
          (ground arith) (ground arith) (λ path. ground arith) (λ id. ground arith)
  ]

  -- Taking the stored version off its list, storing the text and listing the job is saving it.
  pub saved-seen :
      (job : TranscodeJob) (payload : String) (m : Keyspace)
      → codec.load_job payload ≡ job
      → seen (
          put_member true (job_state_index keys codec job.state) (codec.uuid_text job.id) (
            put_string
              (job_key keys codec job.id)
              (some payload)
              (unlisted ((seen m).jobs job.id) job m)))
        ≡ put_job job (seen m)
  saved-seen job payload m reads =
      put_job-seen job payload (unlisted ((seen m).jobs job.id) job m) reads
      ∙ ap (listed job) (unlisted-seen ((seen m).jobs job.id) job m)
      ∙ View-ext _ _ (λ id. refl) (λ s id. ground arith) refl refl (λ path. refl) (λ id. refl)

  reversed-snoc : (ids : List Uuid) (id : Uuid) → reversed (ids ++ id ∷ []) ≡ id ∷ reversed ids
  reversed-snoc [] id = refl
  reversed-snoc (i ∷ ids) id = ap (λ r. r ++ i ∷ []) (reversed-snoc ids id)

  pub length-map : (vs : List String) → length vs ≡ length (map codec.uuid_of vs)
  length-map [] = refl
  length-map (v ∷ vs) = ground (arith, length-map vs)

  pending_is_other : (pending_queue keys codec == dead_letter_queue keys codec) ≡ false
  pending_is_other =
      eq-false (pending_queue keys codec) (dead_letter_queue keys codec)
        (pending_queue-dead_letter_queue keys codec U)

  dead_is_other : (dead_letter_queue keys codec == pending_queue keys codec) ≡ false
  dead_is_other =
      eq-false (dead_letter_queue keys codec) (pending_queue keys codec)
        (λ e. pending_queue-dead_letter_queue keys codec U (sym e))

  -- The lists: a value at the left end of the pending queue is the last that waits, one less at its
  -- right end is the first, and a value at the left end of the dead letters is the newest.
  pub put_list-enqueue :
      (id : Uuid) (m : Keyspace)
      → let key = pending_queue keys codec in
        seen (put_list key (m.lists key ++ codec.uuid_text id ∷ []) m) ≡ put_queue id (seen m)
  put_list-enqueue id m =
      View-ext _ _ (λ id. refl) (λ s id. refl)
        (ground (arith, map-snoc codec (m.lists (pending_queue keys codec)) id (U.reads id)))
        (ground (arith, dead_is_other)) (λ path. refl) (λ id. refl)

  pub put_list-dequeue :
      (m : Keyspace)
      → let key = pending_queue keys codec in
        seen (put_list key (others (m.lists key)) m) ≡ drop_queue (seen m)
  put_list-dequeue m =
      View-ext _ _ (λ id. refl) (λ s id. refl)
        (ground (arith, map-rest codec (m.lists (pending_queue keys codec))))
        (ground (arith, dead_is_other)) (λ path. refl) (λ id. refl)

  pub put_list-dead_letter :
      (id : Uuid) (m : Keyspace)
      → let key = dead_letter_queue keys codec in
        seen (put_list key (m.lists key ++ codec.uuid_text id ∷ []) m) ≡ put_dead id (seen m)
  put_list-dead_letter id m =
      let vs = m.lists (dead_letter_queue keys codec) in
      View-ext _ _ (λ id. refl) (λ s id. refl) (ground (arith, pending_is_other))
        (ground (
          arith,
          ap reversed (map-snoc codec vs id (U.reads id)) ∙ reversed-snoc (map codec.uuid_of vs) id,
        ))
        (λ path. refl) (λ id. refl)

  -- The texts of heartbeats and of processed files, and the index of the workers.
  pub put_string-heartbeat :
      (id : Uuid) (value : String) (m : Keyspace)
      → seen (put_string (job_heartbeat_key keys codec id) (some value) m) ≡ put_beat id (seen m)
  put_string-heartbeat id value m =
      View-ext _ _
        (λ other. ground (
          arith,
          eq-false (job_key keys codec other) (job_heartbeat_key keys codec id)
              (job-job_heartbeat keys codec U other id),
        ))
        (λ s id. refl) refl refl
        (λ path. ground (
          arith,
          eq-false (processed_file keys codec path) (job_heartbeat_key keys codec id)
              (λ e. job_heartbeat-processed keys codec U id path (sym e)),
        ))
        (λ other. ground (arith, eq-job_heartbeat_key keys codec U other id))

  pub put_string-processed :
      (path : FilePath) (value : String) (m : Keyspace)
      → seen (put_string (processed_file keys codec path) (some value) m) ≡ record (seen m) {
        processed = λ other.
            if processed_file keys codec other == processed_file keys codec path
            then true
            else (seen m).processed other;
      }
  put_string-processed path value m =
      View-ext _ _
        (λ id. ground (
          arith,
          eq-false (job_key keys codec id) (processed_file keys codec path)
              (job-processed keys codec U id path),
        ))
        (λ s id. refl) refl refl (λ other. ground arith)
        (λ id. ground (
          arith,
          eq-false (job_heartbeat_key keys codec id) (processed_file keys codec path)
              (job_heartbeat-processed keys codec U id path),
        ))

  pub put_member-workers :
      (present : Bool) (member : String) (m : Keyspace)
      → seen (put_member present (workers_index keys codec) member m) ≡ seen m
  put_member-workers present member m =
      View-ext _ _ (λ id. refl)
        (λ s id. ground (
          arith,
          eq-false (job_state_index keys codec s) (workers_index keys codec)
              (job_state_index-workers_index keys codec U s),
        ))
        refl refl (λ path. refl) (λ id. refl)

  pub put_string-worker :
      (worker : Uuid) (value : Option String) (m : Keyspace)
      → seen (put_string (worker_key keys codec worker) value m) ≡ seen m
  put_string-worker worker value m =
      let key = worker_key keys codec worker in
      put_string-unseen key value m
        (λ id. eq-false (job_key keys codec id) key (job-worker keys codec U id worker))
        (λ id.
          eq-false (job_heartbeat_key keys codec id) key
            (job_heartbeat-worker keys codec U id worker))
        (λ path.
          eq-false (processed_file keys codec path) key (processed-worker keys codec U path worker))

  pub put_string-summary :
      (id : Uuid) (value : Option String) (m : Keyspace)
      → seen (put_string (job_summary_key keys codec id) value m) ≡ seen m
  put_string-summary id value m =
      let key = job_summary_key keys codec id in
      put_string-unseen key value m
        (λ other. eq-false (job_key keys codec other) key (job-job_summary keys codec U other id))
        (λ other.
          eq-false (job_heartbeat_key keys codec other) key
            (job_heartbeat-job_summary keys codec U other id))
        (λ path.
          eq-false (processed_file keys codec path) key
            (processed-job_summary keys codec U path id))
