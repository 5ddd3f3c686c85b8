-- ===== src/Contexts/Working.antt =====
-- The worker process over its context: its stores are those over Redis, its transcoder is ffmpeg's.
use vshift.Base.{◌≡◌, ℕ, zero, suc, String}
use vshift.Base.Exec.{ok, modify, ◌>>=◌}
use vshift.Base.Ensures.{
  Ensures, Keeps, Ensures-bind, Ensures-gets, Ensures-modify, Ensures-write, Keeps-bind, Keeps-if,
  Keeps-gets, Keeps-pure, Keeps-raise_if,
}
use vshift.Base.FilePath.{FilePath}
use vshift.Job.{Uuid, TranscodeJob}
use vshift.Settings.{ProcessSettings}
use vshift.Ports.Contract.{View, IsLawful}
use vshift.Lifecycle.{IsConsistent}
use vshift.Redis.{job_heartbeat_key, processed_file}
use vshift.Redis.Keys.{IsUuidText}
use vshift.Redis.Keyspace.{Keyspace, IsKeyspace, view_of}
use vshift.Redis.Refinement.{redis_stores-IsLawful}
use vshift.Ffmpeg.Transcoding.Stores.{Spares, ffmpeg_transcoder-IsSteady}
use vshift.Filesystem.Configuration.{YamlConfigRepository, get_max_retries}
use vshift.Ffmpeg.Encoders.Detection.{encoders_of, detect_available_encoders, host_of}
use vshift.Worker.Cycle.{IsSteady, process_next_job-Ensures}
use vshift.Worker.Main.{register_worker-Ensures, idle_break-Ensures, run_loop-Ensures}
use vshift.Ports.{Stores, Transcoder}
use vshift.Contexts.{
  Platform, context_keys, context_ttls, context_settings, config_repository, context_stores,
  made_resolver, worker_transcoder, worker_stop, register_context, next_job, continue_loop,
  main_loop, one_shot, run_context, worker_main,
}

-- What is relied on in Redis, in the client and in the JSON of the models, for the keys of a
-- process.
pub record IsRedisPlatform {W : Type 0} (platform : Platform W) (settings : ProcessSettings)
    (model : W → Keyspace) : Type 1 where
  pub holds_text : String → Type 0
  pub is_keyspace : IsKeyspace (platform.redis settings.redis) model holds_text
  pub is_uuid_text : IsUuidText platform.codec
  pub loads : (job : TranscodeJob) → platform.codec.load_job (platform.codec.dump_job job) ≡ job
  pub beats :
      (id : Uuid) → holds_text (job_heartbeat_key (context_keys settings.queue) platform.codec id)
  pub files :
      (path : FilePath)
      → holds_text (processed_file (context_keys settings.queue) platform.codec path)

module _ {W : Type 0} (platform : Platform W) (settings : ProcessSettings) (model : W → Keyspace)
    (R : IsRedisPlatform platform settings model) where
  -- What the stores of the process hold.
  abbrev pub context_view : W → View
  context_view w = view_of (context_keys settings.queue) platform.codec (model w)

  pub context_stores-IsLawful : IsLawful (context_stores platform settings) context_view
  unfolding context_stores
  context_stores-IsLawful =
      redis_stores-IsLawful (context_keys settings.queue) platform.codec R.is_uuid_text
        (platform.redis settings.redis) (context_ttls settings.queue) model R.holds_text
        R.is_keyspace R.loads R.beats R.files

  module _ (repository : YamlConfigRepository) where
    abbrev pub Inv : W → Type 0
    Inv w = IsConsistent (get_max_retries repository) (context_view w)

    module _ (S : Spares Inv platform.os)
        (waits : (seconds : ℕ) (w : W) → context_view (platform.wait seconds w).1 ≡ context_view w)
        (draws : (w : W) → context_view (platform.uuid4 w).1 ≡ context_view w) where
      abbrev stores : Stores W
      stores = context_stores platform settings

      made_resolver-Keeps : Keeps Inv (made_resolver platform settings)
      unfolding made_resolver detect_available_encoders encoders_of
      made_resolver-Keeps =
          Keeps-bind (S.run_spares _) λ completed. Keeps-bind (Keeps-raise_if _ _) λ _. Keeps-pure _

      register_context-Keeps :
          (worker_id : Uuid) → Keeps Inv (register_context platform settings worker_id)
      unfolding register_context
      register_context-Keeps worker_id = Keeps-bind made_resolver-Keeps λ available_encoders.
          register_worker-Ensures stores context_view context_stores-IsLawful
            (get_max_retries repository) worker_id _ available_encoders

      -- The transcoder is one that the rounds may rely on.
      abbrev Steady : Transcoder W → Type 0
      Steady T = IsSteady stores context_view context_stores-IsLawful (get_max_retries repository) T

      worker_transcoder-Steady :
          Ensures Inv (worker_transcoder platform settings repository.config) Steady
      unfolding worker_transcoder
      worker_transcoder-Steady =
          Ensures-bind (λ _. Unit) Steady _ _ made_resolver-Keeps
            λ available_encoders _. Ensures-gets _ (λ w c.
              ffmpeg_transcoder-IsSteady stores context_view context_stores-IsLawful
                (get_max_retries repository) platform.os S
                (host_of platform.os platform.devices platform.get_coders available_encoders w)
                platform.texts _)

      module _ (worker_id : Uuid) where
        next_job-Keeps :
            (T : Transcoder W)
            → Steady T
            → Keeps Inv (next_job platform settings worker_id repository T)
        next_job-Keeps T steady =
            process_next_job-Ensures stores context_view context_stores-IsLawful
              (get_max_retries repository) worker_id T steady
              settings.worker.claim_dequeue_timeout_seconds

        deregister-Keeps : Keeps Inv (modify (stores.deregister worker_id))
        deregister-Keeps =
            Ensures-write _ (λ w c. rw (context_stores-IsLawful.deregister_lem worker_id w) c)

        continue_loop-Keeps :
            (rounds : ℕ) (T : Transcoder W)
            → Steady T
            → Keeps Inv (continue_loop platform settings worker_id repository rounds T)
        unfolding continue_loop
        continue_loop-Keeps rounds T steady =
            let timeout = settings.worker.claim_dequeue_timeout_seconds in
            let stop = worker_stop platform settings in
            let pauses = waits settings.worker.idle_sleep_seconds in
            Keeps-bind (next_job-Keeps T steady) λ job.
              Ensures-modify _ _ (λ w c. rw (context_stores-IsLawful.heartbeat_lem worker_id w) c)
                (Keeps-bind
                  (idle_break-Ensures stores context_view context_stores-IsLawful
                    (get_max_retries repository) worker_id T steady timeout stop pauses job)
                  λ leave. Keeps-if leave (Keeps-pure tt) (
                    run_loop-Ensures stores context_view context_stores-IsLawful
                      (get_max_retries repository) worker_id T steady timeout stop pauses rounds))

        main_loop-Keeps :
            (rounds : ℕ) → Keeps Inv (main_loop platform settings worker_id repository rounds)
        unfolding main_loop
        main_loop-Keeps zero = Keeps-pure tt
        main_loop-Keeps (suc rounds) = Keeps-bind (Keeps-gets platform.is_set) λ stopped.
            Keeps-if stopped (Keeps-pure tt) (
              Ensures-bind Steady (λ _. Unit) _ _ worker_transcoder-Steady
                (continue_loop-Keeps rounds))

        one_shot-Keeps : Keeps Inv (one_shot platform settings worker_id repository)
        unfolding one_shot
        one_shot-Keeps =
            Ensures-bind Steady (λ _. Unit) _ _ worker_transcoder-Steady
              λ T steady. Keeps-bind (next_job-Keeps T steady) (λ job. deregister-Keeps)

        run_context-Keeps :
            (rounds : ℕ)
            → Keeps Inv (run_context platform settings rounds worker_id (ok repository))
        unfolding run_context
        run_context-Keeps rounds = Keeps-bind (register_context-Keeps worker_id) λ registered.
            Keeps-if settings.worker.one_shot one_shot-Keeps
              (Keeps-bind (main_loop-Keeps rounds) (λ _. deregister-Keeps))

      -- The worker process, wired by its context over Redis and ffmpeg, leaves consistent stores
      -- after any number of rounds, whether it ends by the stop event, after its one shot or by an
      -- exception: its settings and its configuration can be read, and neither the calls of the
      -- operating system nor a wait or the drawing of its UUID breaks the stores.
      pub worker_main-IsConsistent :
          (rounds : ℕ) (w : W)
          → context_settings platform ≡ ok settings
          → config_repository platform settings ≡ ok repository
          → Inv w
          → Inv (worker_main platform rounds w).1
      unfolding worker_main ◌>>=◌
      worker_main-IsConsistent rounds w read loaded c =
          let k =
            (run_context-Keeps (platform.uuid4 w).0 rounds).keeps (platform.uuid4 w).1
              (rw (draws w) c) in
          rw (read, loaded) k
