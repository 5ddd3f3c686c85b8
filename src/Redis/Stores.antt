-- ===== src/Redis/Stores.antt =====
-- The methods of the Redis stores: job_store.py, task_queue.py, processed_file_store.py,
-- worker_registry.py and factory.py of src/vshift/infrastructure/redis.
use vshift.Base.{ℕ, String, Bool, Option, none, some, List, [], ◌∷◌, ◌==◌, page, ltb, if◌then◌else◌}
use vshift.Base.Sorting.{sorted}
use vshift.Base.FilePath.{FilePath}
use vshift.Job.{Uuid, JobState, TranscodeJob, JobSummary, job_state_eq}
use vshift.Workers.{WorkerInfo}
use vshift.Ports.{Stores}
use vshift.Api.{newest_first}
use vshift.Redis.{
  Client, Codec, RedisKeys, Ttls, pending_queue, dead_letter_queue, job_key, job_summary_key,
  job_heartbeat_key, job_state_index, worker_key, workers_index, processed_file,
}

module _ (keys : RedisKeys) (codec : Codec) {W : Type 0} (R : Client W) (ttls : Ttls) where
  -- `RedisJobRepository.get`
  unfoldable pub get : Uuid → W → Option TranscodeJob
  get id w = elim (R.get ((job_key keys codec) id) w) [
    | none ↦ none
    | some payload ↦ some (codec.load_job payload)
  ]

  -- the part of `save` before `set`
  unfoldable pub unlist : Option TranscodeJob → TranscodeJob → W → W
  unlist none job w = w
  unlist (some existing) job w =
      if existing.state == job.state
      then w
      else R.srem ((job_state_index keys codec) existing.state) (codec.uuid_text job.id) w

  -- `RedisJobRepository.save`
  unfoldable pub save : TranscodeJob → W → W
  unfolding get unlist
  save job w = R.sadd ((job_state_index keys codec) job.state) (codec.uuid_text job.id) (
      R.set ((job_key keys codec) job.id) (codec.dump_job job) (some ttls.ttl_seconds)
        (unlist (get job.id w) job w))

  -- the loop of `list_by_state`
  unfoldable pub fetch : List String → W → List TranscodeJob
  unfolding get
  fetch [] w = []
  fetch (id ∷ ids) w =
      let jobs = fetch ids w in
      elim (get (codec.uuid_of id) w) [ none ↦ jobs | some job ↦ job ∷ jobs ]

  -- `RedisJobRepository.list_by_state`
  unfoldable pub list_by_state : JobState → (limit offset : ℕ) → W → List TranscodeJob
  unfolding fetch
  list_by_state s limit offset w =
      page limit offset
        (sorted newest_first (fetch (R.smembers ((job_state_index keys codec) s) w) w))

  -- `RedisJobRepository.get_summary`
  unfoldable pub get_summary : Uuid → W → Option JobSummary
  get_summary id w = elim (R.get ((job_summary_key keys codec) id) w) [
    | none ↦ none
    | some payload ↦ some (codec.load_summary payload)
  ]

  -- `RedisTaskQueue.dequeue`, for what Redis answered
  abbrev popped : Option String × W → Option Uuid × W
  popped (none, w) = (none, w)
  popped (some raw, w) = (some (codec.uuid_of raw), w)

  abbrev popped_pair : Option (String × String) × W → Option Uuid × W
  popped_pair (none, w) = (none, w)
  popped_pair (some (key, raw), w) = (some (codec.uuid_of raw), w)

  -- `RedisTaskQueue.dequeue`
  unfoldable pub dequeue : (timeout_seconds : ℕ) → W → Option Uuid × W
  dequeue timeout w =
      if ltb 0 timeout
      then popped_pair (R.brpop (pending_queue keys codec) timeout w)
      else popped (R.rpop (pending_queue keys codec) w)

  -- `RedisWorkerRegistry.register`
  unfoldable pub register : WorkerInfo → W → W
  register worker w = R.sadd (workers_index keys codec) (codec.uuid_text worker.worker_id) (
      R.set ((worker_key keys codec) worker.worker_id) (codec.dump_worker worker)
        (some ttls.worker_ttl_seconds) w)

  -- `RedisWorkerRegistry.heartbeat`
  unfoldable pub heartbeat : Uuid → W → W
  heartbeat id w = elim (R.get ((worker_key keys codec) id) w) [
    | none ↦ w
    | some payload ↦
        let (now, w') = R.now w in
        R.set ((worker_key keys codec) id)
          (codec.dump_worker (record (codec.load_worker payload) { last_seen_at = now }))
          (some ttls.worker_ttl_seconds) w'
  ]

  -- the loop of `RedisWorkerRegistry.list_workers`
  unfoldable pub fetch_workers : List String → W → List WorkerInfo × W
  fetch_workers [] w = ([], w)
  fetch_workers (id ∷ ids) w = elim (R.get ((worker_key keys codec) (codec.uuid_of id)) w) [
    | none ↦ fetch_workers ids (R.srem (workers_index keys codec) id w)
    | some payload ↦
        let (workers, w') = fetch_workers ids w in (codec.load_worker payload ∷ workers, w')
  ]

  -- `RedisJobRepository.save_summary`
  abbrev pub save_summary : JobSummary → W → W
  save_summary summary =
      R.set ((job_summary_key keys codec) summary.job_id) (codec.dump_summary summary)
        (some ttls.ttl_seconds)

  -- the other methods of `RedisTaskQueue`
  abbrev pub enqueue : Uuid → W → W
  enqueue id = R.lpush (pending_queue keys codec) (codec.uuid_text id)

  abbrev pub requeue : Uuid → W → W
  requeue id = R.rpush (pending_queue keys codec) (codec.uuid_text id)

  abbrev pub depth : W → ℕ
  depth = R.llen (pending_queue keys codec)

  abbrev pub push_to_dead_letter : Uuid → W → W
  push_to_dead_letter id = R.lpush (dead_letter_queue keys codec) (codec.uuid_text id)

  abbrev pub dead_letter_depth : W → ℕ
  dead_letter_depth = R.llen (dead_letter_queue keys codec)

  -- `RedisProcessedFileStore`
  abbrev pub is_processed : FilePath → W → Bool
  is_processed path = R.exists ((processed_file keys codec) path)

  abbrev pub mark_processed : FilePath → Uuid → W → W
  mark_processed path id = R.set ((processed_file keys codec) path) (codec.uuid_text id) none

  -- the other methods of `RedisWorkerRegistry`
  abbrev pub deregister : Uuid → W → W
  deregister id w =
      R.srem (workers_index keys codec) (codec.uuid_text id)
        (R.delete ((worker_key keys codec) id) w)

  abbrev pub set_job_heartbeat : (job_id worker_id : Uuid) → W → W
  set_job_heartbeat id worker =
      R.set ((job_heartbeat_key keys codec) id) (codec.uuid_text worker)
        (some ttls.job_heartbeat_ttl_seconds)

  abbrev pub is_job_alive : Uuid → W → Bool
  is_job_alive id = R.exists ((job_heartbeat_key keys codec) id)

  -- `RedisWorkerRegistry.list_workers`
  unfoldable pub list_workers : W → List WorkerInfo × W
  unfolding fetch_workers
  list_workers w = fetch_workers (R.smembers (workers_index keys codec) w) w

  -- `create_redis_stores`
  unfoldable pub redis_stores : Stores W
  unfolding save list_by_state get_summary dequeue register heartbeat list_workers
  redis_stores = record {
    save = save;
    get = get;
    list_by_state = list_by_state;
    save_summary = save_summary;
    get_summary = get_summary;
    enqueue = enqueue;
    dequeue = dequeue;
    requeue = requeue;
    push_to_dead_letter = push_to_dead_letter;
    depth = depth;
    is_processed = is_processed;
    mark_processed = mark_processed;
    register = register;
    heartbeat = heartbeat;
    deregister = deregister;
    list_workers = list_workers;
    set_job_heartbeat = set_job_heartbeat;
    is_job_alive = is_job_alive;
    now = R.now;
    uuid4 = R.uuid4;
  }
