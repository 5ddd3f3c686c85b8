-- ===== src/Redis/Refinement.antt =====
-- The Redis stores keep the contract of the ports.
use vshift.Base.{
  All, All-take, All-drop, [], ◌∷◌, ◌≡◌, refl, sym, ap, ◌∙◌, ℕ, String, true, false, Option, none,
  some, List, arith, ◌==◌, string_eq, length, Option-cases, Bool-cases, inl, inr, ltb,
  if◌then◌else◌,
}
use vshift.Base.FilePath.{FilePath}
use vshift.Job.{Uuid, TranscodeJob, job_state_eq}
use vshift.Workers.{WorkerInfo}
use vshift.Base.Sorting.{sorted-All}
use vshift.Api.{newest_first}
use vshift.Ports.Contract.{
  IsKept, IsReading, View, IsLawful, head?, put_job, put_queue, put_dead, drop_queue,
}
use vshift.Redis.{
  Client, Codec, RedisKeys, Ttls, pending_queue, job_key, job_heartbeat_key, job_state_index,
  worker_key, workers_index, processed_file,
}
use vshift.Redis.Keys.{IsUuidText}
use vshift.Redis.Keyspace.{Keyspace, IsKeyspace, put_string, put_member, put_list, view_of}
use vshift.Redis.RoundTrip.{IsRedis, others, dequeue-value}
use vshift.Redis.Effects.{
  saved-seen, unlisted, length-map, put_list-enqueue, put_list-dequeue, put_list-dead_letter,
  put_string-heartbeat, put_string-processed, put_member-workers, put_string-worker,
  put_string-summary,
}
use vshift.Redis.Stores.{
  get, fetch, list_by_state, unlist, save, dequeue, register, heartbeat, redis_stores,
}

module _ (keys : RedisKeys) (codec : Codec) (U : IsUuidText codec) {W : Type 0} (R : Client W)
    (ttls : Ttls) (model : W → Keyspace) (holds_text : String → Type 0)
    (K : IsKeyspace R model holds_text) where
  abbrev view : W → View
  view w = view_of keys codec (model w)

  pub get-view : (id : Uuid) (w : W) → get keys codec R ttls id w ≡ (view w).jobs id
  unfolding get
  get-view id w = elim (Option-cases (R.get (job_key keys codec id) w)) [
    | inl missing ↦ ground (arith, K.get_lem (job_key keys codec id) w)
    | inr (payload, e) ↦ ground (arith, K.get_lem (job_key keys codec id) w)
  ]

  unlist-model :
      (old : Option TranscodeJob) (job : TranscodeJob) (w : W)
      → model (unlist keys codec R ttls old job w) ≡ unlisted keys codec U old job (model w)
  unfolding unlist unlisted
  unlist-model none job w = refl
  unlist-model (some existing) job w =
      ground
        (arith, K.srem_lem (job_state_index keys codec existing.state) (codec.uuid_text job.id) w)

  pub save-model :
      (job : TranscodeJob) (w : W)
      → model (save keys codec R ttls job w)
        ≡ put_member true (job_state_index keys codec job.state) (codec.uuid_text job.id) (
            put_string
              (job_key keys codec job.id)
              (some (codec.dump_job job))
              (unlisted keys codec U ((view w).jobs job.id) job (model w)))
  unfolding save
  save-model job w =
      K.sadd_lem _ _ _
      ∙ ap (put_member true (job_state_index keys codec job.state) (codec.uuid_text job.id)) (
          K.set_lem _ _ _ _
          ∙ ap (put_string (job_key keys codec job.id) (some (codec.dump_job job))) (
              unlist-model (get keys codec R ttls job.id w) job w
              ∙ ap (λ old. unlisted keys codec U old job (model w)) (get-view job.id w)))

  set-view :
      (key value : String) (ex : Option ℕ) (w : W) {v : View}
      → view_of keys codec (put_string key (some value) (model w)) ≡ v
      → view (R.set key value ex w) ≡ v
  set-view key value ex w e = ap (view_of keys codec) (K.set_lem key value ex w) ∙ e

  set_worker-view :
      (worker : Uuid) (value : String) (ex : Option ℕ) (w : W)
      → view (R.set (worker_key keys codec worker) value ex w) ≡ view w
  set_worker-view worker value ex w =
      set-view _ value ex w (put_string-worker keys codec U worker (some value) (model w))

  heartbeat-view : (worker : Uuid) (w : W) → view (heartbeat keys codec R ttls worker w) ≡ view w
  unfolding heartbeat
  heartbeat-view worker w = elim (Option-cases (R.get (worker_key keys codec worker) w)) [
    | inl missing ↦ ground arith
    | inr (payload, e) ↦ ground (
      arith,
      set_worker-view worker
          (codec.dump_worker (record (codec.load_worker payload) { last_seen_at = (R.now w).0 }))
          (some ttls.worker_ttl_seconds) (R.now w).1,
      ap (view_of keys codec) (K.now_lem w),
    )
  ]

  register-view :
      (worker : WorkerInfo) (w : W) → view (register keys codec R ttls worker w) ≡ view w
  unfolding register
  register-view worker w =
      let w' =
        R.set (worker_key keys codec worker.worker_id) (codec.dump_worker worker)
          (some ttls.worker_ttl_seconds) w in
      ap (view_of keys codec)
        (K.sadd_lem (workers_index keys codec) (codec.uuid_text worker.worker_id) w')
      ∙ put_member-workers keys codec U true (codec.uuid_text worker.worker_id) (model w')
      ∙ set_worker-view worker.worker_id (codec.dump_worker worker) (some ttls.worker_ttl_seconds) w

  values : String → W → List String
  values key w = (model w).lists key

  keyspace-IsRedis : IsRedis R values
  unfolding values
  keyspace-IsRedis = record {
    get_set = λ key value ex w.
        K.get_lem _ _ ∙ ap (λ m. m.strings key) (K.set_lem key value ex w) ∙ ground arith;
    get_sadd = λ key set member w.
        K.get_lem _ _ ∙ ap (λ m. m.strings key) (K.sadd_lem set member w) ∙ sym (K.get_lem _ _);
    member_sadd = λ key member w.
        K.smembers_lem _ _ _ ∙ ap (λ m. m.sets key member) (K.sadd_lem key member w) ∙ ground arith;
    values_lpush = λ key value w. ap (λ m. m.lists key) (K.lpush_lem key value w) ∙ ground arith;
    rpop_value = K.rpop_value;
    rpop_values = λ key w. ap (λ m. m.lists key) (K.rpop_rest key w) ∙ ground arith;
    brpop_value = K.brpop_value;
    brpop_values =
        λ key timeout w. ap (λ m. m.lists key) (K.brpop_rest key timeout w) ∙ ground arith;
  }

  popped-value :
      (timeout : ℕ) (w : W) → (dequeue keys codec R ttls timeout w).0 ≡ head? (view w).queue
  unfolding values
  popped-value timeout w = dequeue-value keys codec R ttls values keyspace-IsRedis timeout w

  pub popped-rest :
      (timeout : ℕ) (w : W)
      → model (dequeue keys codec R ttls timeout w).1
        ≡ put_list
            (pending_queue keys codec)
            (others ((model w).lists (pending_queue keys codec)))
            (model w)
  unfolding dequeue
  popped-rest timeout w =
      let key = pending_queue keys codec in
      elim (Bool-cases (ltb 0 timeout)) [
        | inl waits ↦ elim (Option-cases (R.brpop key timeout w).0) [
          | inl empty ↦ ground (arith, K.brpop_rest key timeout w)
          | inr ((k, v), e) ↦ ground (arith, K.brpop_rest key timeout w)
        ]
        | inr at_once ↦ elim (Option-cases (R.rpop key w).0) [
          | inl empty ↦ ground (arith, K.rpop_rest key w)
          | inr (v, e) ↦ ground (arith, K.rpop_rest key w)
        ]
      ]

  -- A job whose JSON can be read back is saved as the contract of the ports says: it is stored, it
  -- is listed under its state and no longer under the one of its stored version, and no other job,
  -- listing, queue, processed file or heartbeat changes; and what is read is what is stored.
  redis_stores-save :
      (job : TranscodeJob) (w : W)
      → codec.load_job (codec.dump_job job) ≡ job
      → let S = redis_stores keys codec R ttls in
        let seen = λ (v : W). view_of keys codec (model v) in
        (seen (S.save job w) ≡ put_job job (seen w))
        × ((id : Uuid) → S.get id w ≡ (seen w).jobs id)
        × (S.get job.id (S.save job w) ≡ some job)
  unfolding redis_stores
  redis_stores-save job w loads =
      let saved =
        ap (view_of keys codec) (save-model job w)
        ∙ saved-seen keys codec U job (codec.dump_job job) (model w) loads in
      (
        saved,
        λ id. get-view id w,
        get-view job.id (save keys codec R ttls job w)
            ∙ ap (λ v. v.jobs job.id) saved
            ∙ ground arith,
      )

  -- The queue calls do to the view what the contract of the ports says: an id is enqueued behind
  -- those that wait, a dequeue, with a timeout or without, returns the first and removes it, a dead
  -- letter is put before the others, and the depth is the number that wait; nothing else changes.
  redis_stores-queues :
      (id : Uuid) (timeout : ℕ) (w : W)
      → let S = redis_stores keys codec R ttls in
        let seen = λ (v : W). view_of keys codec (model v) in
        (seen (S.enqueue id w) ≡ put_queue id (seen w))
        × ((S.dequeue timeout w).0 ≡ head? (seen w).queue)
        × (seen (S.dequeue timeout w).1 ≡ drop_queue (seen w))
        × (seen (S.push_to_dead_letter id w) ≡ put_dead id (seen w))
        × (S.depth w ≡ length (seen w).queue)
  unfolding redis_stores
  redis_stores-queues id timeout w = (
    ap (view_of keys codec) (K.lpush_lem _ _ w) ∙ put_list-enqueue keys codec U id (model w),
    popped-value timeout w,
    ap (view_of keys codec) (popped-rest timeout w) ∙ put_list-dequeue keys codec U (model w),
    ap (view_of keys codec) (K.lpush_lem _ _ w) ∙ put_list-dead_letter keys codec U id (model w),
    K.llen_lem _ w ∙ length-map keys codec U _,
  )

  and_IsKept :
      (w : W) (o : Option TranscodeJob) (jobs : List TranscodeJob)
      → ((job : TranscodeJob) → o ≡ some job → IsKept (view w) job)
      → All (IsKept (view w)) jobs
      → All (IsKept (view w)) (elim o [ none ↦ jobs | some job ↦ job ∷ jobs ])
  and_IsKept w none jobs found kept = kept
  and_IsKept w (some job) jobs found kept = (found job refl, kept)

  fetch-IsKept : (ids : List String) (w : W) → All (IsKept (view w)) (fetch keys codec R ttls ids w)
  unfolding fetch
  fetch-IsKept [] w = tt
  fetch-IsKept (id ∷ ids) w =
      and_IsKept w (get keys codec R ttls (codec.uuid_of id) w) _
        (λ job e. (codec.uuid_of id, sym (get-view (codec.uuid_of id) w) ∙ e)) (fetch-IsKept ids w)

  -- What a listing returns is stored, also where the index is stale.
  pub redis_stores-IsReading :
      IsReading (redis_stores keys codec R ttls) (λ w. view_of keys codec (model w))
  unfolding redis_stores list_by_state
  redis_stores-IsReading = record {
    list_kept = λ s limit offset w. All-take _ limit _ (
        All-drop _ offset _ (
          sorted-All newest_first _ _
            (fetch-IsKept (R.smembers (job_state_index keys codec s) w) w)));
  }

  -- The Redis stores keep the whole contract of the ports on the view that their keys give: what
  -- each method of the protocols does to the jobs, the index, the queues, the processed files and
  -- the heartbeats, and that it changes nothing else. The commands do what Redis documents, the
  -- JSON of each job and the text of each UUID can be read back, no UUID's text is another's with
  -- the end of a key, and the keys of the heartbeats and of the processed files are used for
  -- texts.
  pub redis_stores-IsLawful :
      ((job : TranscodeJob) → codec.load_job (codec.dump_job job) ≡ job)
      → ((id : Uuid) → holds_text (job_heartbeat_key keys codec id))
      → ((path : FilePath) → holds_text (processed_file keys codec path))
      → IsLawful (redis_stores keys codec R ttls) (λ w. view_of keys codec (model w))
  unfolding redis_stores
  redis_stores-IsLawful loads beats files = record {
    get_lem = get-view;
    save_lem = λ job w. (redis_stores-save job w (loads job)).0;
    save_summary_lem =
        λ s w. set-view _ _ _ w (put_string-summary keys codec U s.job_id _ (model w));
    enqueue_lem = λ id w. (redis_stores-queues id 0 w).0;
    dequeue_head = popped-value;
    dequeue_rest = λ t w. (redis_stores-queues 0 t w).2;
    push_to_dead_letter_lem = λ id w. (redis_stores-queues id 0 w).3;
    depth_lem = λ w. (redis_stores-queues 0 0 w).4;
    is_processed_lem = λ path w. K.exists_lem _ w (files path);
    mark_processed_lem = λ path id w. (
      (λ other.
          if processed_file keys codec other == processed_file keys codec path
          then true
          else (view w).processed other),
      set-view _ _ _ w (put_string-processed keys codec U path (codec.uuid_text id) (model w)),
      ground arith,
      λ other h. ground arith,
    );
    set_job_heartbeat_lem = λ id worker w.
        set-view _ _ _ w (put_string-heartbeat keys codec U id (codec.uuid_text worker) (model w));
    is_job_alive_lem = λ id w. K.exists_lem _ w (beats id);
    register_lem = register-view;
    deregister_lem = λ worker w.
        ap (view_of keys codec) (
          K.srem_lem _ _ _
          ∙ ap (put_member false (workers_index keys codec) (codec.uuid_text worker))
              (K.delete_lem _ w))
        ∙ put_member-workers keys codec U false (codec.uuid_text worker)
            (put_string (worker_key keys codec worker) none (model w))
        ∙ put_string-worker keys codec U worker none (model w);
    heartbeat_lem = heartbeat-view;
    now_lem = λ w. ap (view_of keys codec) (K.now_lem w);
    uuid4_lem = λ w. ap (view_of keys codec) (K.uuid4_lem w);
  }
