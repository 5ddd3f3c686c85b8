-- ===== src/Contexts.antt =====
-- The application contexts (src/vshift/application/common, server and worker,
-- application_context.py), which put the use cases over their adapters, the `main` of the worker
-- over its context, and src/vshift/infrastructure/api: the background threads that the server
-- starts, its application and the health route. What surrounds a process is a parameter,
-- `Platform`. A `cached_property` is built at its first use: where building it raises, the next
-- use builds it again; the files of the configuration stay the same meanwhile.
pub mod Working
use vshift.Base.{
  ℕ, zero, suc, String, Bool, true, false, Option, none, some, List, [], ◌∷◌, ◌++◌, ◌==◌, string_eq,
  if◌then◌else◌,
}
use vshift.Base.Exec.{
  Result, ok, err, Error, Exec, pure, raise, lift, gets, call, modify, ◌>>=◌, ◌>>◌, and_then,
}
use vshift.Base.FilePath.{FilePath}
use vshift.Job.{Uuid, TranscodeJob}
use vshift.Workers.{WorkerInfo}
use vshift.Config.Settings.{VshiftConfig}
use vshift.Settings.{
  ProcessSettings, RedisConnectionSettings, QueueSettings, FfmpegSettings, ApiSettings,
  KubernetesSettings,
}
use vshift.Settings.Loading.{Readers, Env, read_settings}
use vshift.Ports.{Stores, Transcoder, MediaProber, FileScanner, WorkerPodLauncher}
use vshift.Redis.{Client, Codec, RedisKeys, Ttls}
use vshift.Redis.Stores.{redis_stores}
use vshift.Ffmpeg.Arguments.{Texts}
use vshift.Ffmpeg.Encoders.Detection.{Coder, Devices, detect_available_encoders, host_of}
use vshift.Ffmpeg.Probing.{Os, media_prober}
use vshift.Ffmpeg.Transcoding.{TranscoderSettings, ffmpeg_transcoder}
use vshift.Filesystem.Configuration.{
  YamlFiles, YamlConfigRepository, open_repository, get_max_retries, get_file_stability_seconds,
}
use vshift.Filesystem.Scanner.{Folder, PollFileScanner, poll_scan_once}
use vshift.Kubernetes.{BatchApi, ConfigLoaders, load_config, pod_launcher}
use vshift.Server.{scan_input_folder, recover_stale_jobs, ensure_worker_capacity}
use vshift.Server.Background.{background_loop}
use vshift.Worker.{process_next_job}
use vshift.Worker.Main.{HostReport, StopEvent, register_worker, idle_break, run_loop}

-- The environment and the files, how Python reads and writes values, the client for a connection to
-- Redis, what runs ffmpeg, the folder, the API of Kubernetes, and the stop event of the process.
pub record Platform (W : Type 0) : Type 0 where
  pub readers : Readers
  pub env : Env
  pub yaml : YamlFiles
  pub codec : Codec
  pub texts : Texts
  pub str_int : ℕ → String
  pub str_uuid : Uuid → String
  pub redis : RedisConnectionSettings → Client W
  pub uuid4 : W → Uuid × W
  pub os : Os W
  pub devices : Devices W
  pub get_coders : String → List Coder
  pub host_report : (ffmpeg : String) → HostReport
  pub folder : Folder W
  pub batch : BatchApi W
  pub loaders : ConfigLoaders W
  -- whether the batch API was made before, and that it now is
  pub has_batch_api : W → Bool
  pub hold_batch_api : W → W
  pub is_set : W → Bool
  pub wait : (seconds : ℕ) → W → Bool × W

abbrev pub context_keys : QueueSettings → RedisKeys
context_keys queue = record { prefix = queue.key_prefix }

abbrev pub context_ttls : QueueSettings → Ttls
context_ttls queue = record {
  ttl_seconds = queue.ttl;
  worker_ttl_seconds = queue.worker_ttl_seconds;
  job_heartbeat_ttl_seconds = queue.job_heartbeat_ttl_seconds;
}

module _ {W : Type 0} (platform : Platform W) where
  -- `settings`
  abbrev pub context_settings : Result ProcessSettings
  context_settings = read_settings platform.readers platform.env

  module _ (settings : ProcessSettings) where
    -- `config_repository`
    abbrev pub config_repository : Result YamlConfigRepository
    config_repository = open_repository platform.yaml settings.config.file

    -- `redis_stores`
    unfoldable pub context_stores : Stores W
    context_stores =
        redis_stores (context_keys settings.queue) platform.codec (platform.redis settings.redis)
          (context_ttls settings.queue)

    -- `EncoderResolver(paths)`: ffmpeg lists the encoders when a resolver is made.
    unfoldable pub made_resolver : Exec W (List String)
    made_resolver =
        detect_available_encoders platform.os platform.devices platform.get_coders
          settings.ffmpeg.ffmpeg_path

    -- `FfmpegTranscoder(...)` with the encoders of its resolver, on the host as it is then
    abbrev pub transcoder_with : VshiftConfig → List String → W → Transcoder W
    transcoder_with config available_encoders w =
        ffmpeg_transcoder platform.os
          (host_of platform.os platform.devices platform.get_coders available_encoders w)
          platform.texts
          (record {
            ffmpeg = settings.ffmpeg.ffmpeg_path;
            ffprobe = settings.ffmpeg.ffprobe_path;
            temp_dir = some config.directories.temp;
            thread_count = settings.ffmpeg.thread_count;
            str_uuid = platform.str_uuid;
          })

    -- `WorkerApplicationContext.transcoder`, at its first use
    unfoldable pub worker_transcoder : VshiftConfig → Exec W (Transcoder W)
    unfolding made_resolver
    worker_transcoder config = do
      available_encoders ← made_resolver
      gets (transcoder_with config available_encoders)

    -- `context.register_worker.execute()`
    unfoldable pub register_context : Uuid → Exec W WorkerInfo
    unfolding context_stores made_resolver
    register_context worker_id = do
      available_encoders ← made_resolver
      register_worker context_stores worker_id (platform.host_report settings.ffmpeg.ffmpeg_path)
          available_encoders

    -- `Event`, with the `idle_sleep` of the worker
    abbrev pub worker_stop : StopEvent W
    worker_stop = record {
      is_set = platform.is_set;
      wait = platform.wait settings.worker.idle_sleep_seconds;
    }

    -- `main` after the settings, where the configuration cannot be loaded: the first use of the
    -- transcoder, in the one shot or in the first round, raises.
    unfoldable pub run_unconfigured : Error → Uuid → Exec W Unit
    unfolding context_stores register_context
    run_unconfigured e worker_id = do
      worker ← register_context worker_id
      stopped ← gets platform.is_set
      if settings.worker.one_shot
          then raise e
          else if stopped
          then modify (context_stores.deregister worker_id)
          else raise e

    module _ (worker_id : Uuid) (repository : YamlConfigRepository) where
      -- `context.process_next_job.execute()`
      abbrev pub next_job : Transcoder W → Exec W (Option TranscodeJob)
      next_job transcoder =
          process_next_job context_stores worker_id (get_max_retries repository) transcoder
            settings.worker.claim_dequeue_timeout_seconds

      -- What remains of a round, and the rounds after it, which use the same transcoder.
      unfoldable pub continue_loop : (rounds : ℕ) → Transcoder W → Exec W Unit
      unfolding context_stores
      continue_loop rounds transcoder = do
        job ← next_job transcoder
        modify (context_stores.heartbeat worker_id)
        leave ←
            idle_break context_stores worker_id (get_max_retries repository) transcoder
              settings.worker.claim_dequeue_timeout_seconds worker_stop job
        if leave
            then pure tt
            else run_loop context_stores worker_id (get_max_retries repository) transcoder
                settings.worker.claim_dequeue_timeout_seconds worker_stop rounds

      -- The loop of `main`, whose first round makes the transcoder.
      unfoldable pub main_loop : (rounds : ℕ) → Exec W Unit
      unfolding worker_transcoder continue_loop
      main_loop zero = pure tt
      main_loop (suc rounds) = do
        stopped ← gets platform.is_set
        if stopped then pure tt else (do
          transcoder ← worker_transcoder repository.config
          continue_loop rounds transcoder)

      -- The one shot of `main`
      unfoldable pub one_shot : Exec W Unit
      unfolding context_stores worker_transcoder
      one_shot = do
        transcoder ← worker_transcoder repository.config
        job ← next_job transcoder
        modify (context_stores.deregister worker_id)

    -- `main` after the settings, for at most so many rounds of its loop
    unfoldable pub run_context : (rounds : ℕ) → Uuid → Result YamlConfigRepository → Exec W Unit
    unfolding context_stores register_context run_unconfigured main_loop one_shot
    run_context rounds worker_id (err e) = run_unconfigured e worker_id
    run_context rounds worker_id (ok repository) = do
      worker ← register_context worker_id
      if settings.worker.one_shot then one_shot worker_id repository else (do
        main_loop worker_id repository rounds
        modify (context_stores.deregister worker_id))

  -- `main` of the worker: the context takes a UUID, then the settings are read.
  unfoldable pub worker_main : (rounds : ℕ) → Exec W Unit
  unfolding run_context
  worker_main rounds = do
    worker_id ← call platform.uuid4
    settings ← lift context_settings
    run_context settings rounds worker_id (config_repository settings)

  module _ (settings : ProcessSettings) where
    -- `ServerApplicationContext.media_prober`
    abbrev pub server_prober : MediaProber W
    server_prober = media_prober platform.os settings.ffmpeg.ffprobe_path

    -- `file_scanner`
    unfoldable pub file_scanner : YamlConfigRepository → FileScanner W
    file_scanner repository = poll_scan_once platform.folder (record {
      file_stability_seconds = get_file_stability_seconds repository;
      handler = none;
      running = false;
    })

    -- `context.scan_input_folder.execute()`, with what is built for it at its first use
    unfoldable pub scan_task : Exec W (List TranscodeJob)
    unfolding context_stores file_scanner
    scan_task = do
      repository ← lift (config_repository settings)
      scan_input_folder (context_stores settings) (file_scanner repository) server_prober
          repository.config none

    -- `context.recover_stale_jobs.execute()`
    unfoldable pub recovery_task : Exec W (List TranscodeJob)
    unfolding context_stores
    recovery_task = do
      repository ← lift (config_repository settings)
      recover_stale_jobs (context_stores settings) (get_max_retries repository)

    -- `worker_pod_launcher`: the first use that does not raise makes the batch API.
    unfoldable pub worker_pod_launcher : Exec W (WorkerPodLauncher W)
    worker_pod_launcher = do
      made ← gets platform.has_batch_api
      (if made then pure tt else (do
        load_config platform.loaders settings.kubernetes
        modify platform.hold_batch_api))
      pure (pod_launcher platform.batch platform.str_int settings)

    -- `context.ensure_worker_capacity.execute()`
    unfoldable pub scale_task : Exec W (List String)
    unfolding context_stores worker_pod_launcher
    scale_task = do
      launcher ← worker_pod_launcher
      ensure_worker_capacity (context_stores settings) launcher settings.kubernetes.enabled
          settings.kubernetes.max_concurrent_pods
