-- ===== src/Kubernetes/Environment.antt =====
-- What a worker pod reads from the environment that the server gives it.
use vshift.Base.{
  ◌≡◌, refl, ◌∙◌, ℕ, ◌<◌, ◌<>◌, ◌≢◌, String, true, false, Option, none, some, [], arith, ℕ_discrete,
  string_eq, nat_eq, ltb, ◌==◌, if◌then◌else◌,
}
use vshift.Base.Dict.{lookup}
use vshift.Base.Exec.{ok, err, vshift_exception}
use vshift.Settings.{LogLevel, ProcessSettings, RedisConnectionSettings, default_worker_resources}
use vshift.Settings.Loading.{
  Readers, Env, validation_error, level_of, read_application, read_logging, read_directories,
  read_redis, read_ffmpeg, read_config, read_queue, read_api, read_server, read_worker,
  read_kubernetes, read_settings, settings_of,
}
use vshift.WorkerPods.{worker_env, level_text, threads_or_two}

-- The settings of a process whose environment gives only what is put in.
abbrev pub pod_settings :
    Readers → RedisConnectionSettings → LogLevel → ℕ → String → ProcessSettings
pod_settings readers redis level threads file = record {
  application = record { worker_threads = 1 };
  logging = record { level = level };
  directories = record {
    input_dir = "data/input";
    output_dir = "data/output";
    temp_dir = "data/temp";
    profile_dir = "data/profile";
  };
  config = record { file = readers.path_of file };
  ffmpeg = record { ffmpeg_path = "ffmpeg"; ffprobe_path = "ffprobe"; thread_count = some threads };
  redis = redis;
  queue = record {
    key_prefix = "vshift";
    ttl = 86400;
    job_heartbeat_ttl_seconds = 60;
    worker_ttl_seconds = 30;
  };
  api = record {
    host = "0.0.0.0";
    port = 8000;
    docs_enabled = true;
    docs_url = "/docs";
    redoc_url = "/redoc";
    openapi_url = "/openapi.json";
  };
  server = record {
    scan_interval_seconds = 30;
    recovery_interval_seconds = 60;
    worker_scale_interval_seconds = 15;
  };
  worker = record { idle_sleep_seconds = 1; claim_dequeue_timeout_seconds = 5; one_shot = true };
  kubernetes = record {
    enabled = false;
    namespace = "default";
    in_cluster = true;
    worker_image = "ghcr.io/bueckerlars/vshift:latest";
    worker_image_pull_policy = "IfNotPresent";
    max_concurrent_pods = 1;
    worker_resources = default_worker_resources;
    worker_service_account = "vshift-worker";
    job_ttl_seconds_after_finished = 3600;
    input_volume_claim = none;
    output_volume_claim = none;
    temp_volume_claim = none;
    input_mount_path = "/data/input";
    output_mount_path = "/data/output";
    temp_mount_path = "/data/temp";
    config_mount_path = "/app/config";
    config_map_name = some "vshift-config";
  };
}

abbrev pod_default : ProcessSettings
pod_default =
    pod_settings (record { int_of = λ t. none; bool_of = λ t. none; path_of = λ t. [] })
      (record { host = ""; port = 1; password = ""; database = 0 }) LogLevel.info 2 ""

level_of-level_text : (level : LogLevel) → level_of (level_text level) ≡ ok level
unfolding level_of string_eq ℕ_discrete
level_of-level_text LogLevel.debug = refl
level_of-level_text LogLevel.info = refl
level_of-level_text LogLevel.warning = refl
level_of-level_text LogLevel.error = refl
level_of-level_text LogLevel.critical = refl
level_of-level_text LogLevel.trace = refl

-- The environment of a worker pod.
abbrev pub pod_env : (ℕ → String) → ProcessSettings → Env
pod_env str_int app name = lookup name (worker_env str_int app)

module _ (readers : Readers) (str_int : ℕ → String)
    (reads : (n : ℕ) → readers.int_of (str_int n) ≡ some n) where
  threads_positive : (count : Option ℕ) → ltb 0 (threads_or_two count) ≡ true
  threads_positive none = refl
  threads_positive (some n) = ground arith

  module _ (app : ProcessSettings) where
    abbrev env : Env
    env = pod_env str_int app

    redis_read : read_redis readers env ≡ (
        if ltb 0 app.redis.port
        then (if ltb 0 app.redis.database
            then (if app.redis.password == ""
                then err (vshift_exception "Redis password is required")
                else ok app.redis)
            else err validation_error)
        else err validation_error)
    unfolding read_redis worker_env string_eq ℕ_discrete
    redis_read = ground (arith, reads app.redis.port, reads app.redis.database)

    ffmpeg_read :
        read_ffmpeg readers env
        ≡ ok (record {
          ffmpeg_path = "ffmpeg";
          ffprobe_path = "ffprobe";
          thread_count = some (threads_or_two app.ffmpeg.thread_count);
        })
    unfolding read_ffmpeg worker_env string_eq ℕ_discrete
    ffmpeg_read =
        let n = threads_or_two app.ffmpeg.thread_count in
        ground (arith, reads n, threads_positive app.ffmpeg.thread_count)

    logging_read : read_logging readers env ≡ ok app.logging
    unfolding read_logging worker_env string_eq ℕ_discrete
    logging_read = rw (level_of-level_text app.logging.level) refl

    worker_read :
        readers.bool_of "true" ≡ some true
        → read_worker readers env
          ≡ ok (record {
            idle_sleep_seconds = 1;
            claim_dequeue_timeout_seconds = 5;
            one_shot = true;
          })
    unfolding read_worker worker_env string_eq ℕ_discrete
    worker_read yes_true = ground arith

    redis_ok :
        0 < app.redis.port
        → 0 < app.redis.database
        → app.redis.password ≢ ""
        → read_redis readers env ≡ ok app.redis
    redis_ok port database password = redis_read ∙ ground arith

    redis_zero : app.redis.database ≡ 0 → read_redis readers env ≡ err validation_error
    redis_zero zero = redis_read ∙ rw zero (ground arith)

    config_read :
        read_config readers env
        ≡ record { file = readers.path_of (app.kubernetes.config_mount_path <> "/vshift.yaml") }
    unfolding read_config worker_env string_eq ℕ_discrete
    config_read = refl

    others_read :
        (read_application readers env ≡ ok (pod_default.application))
        × (read_queue readers env ≡ ok pod_default.queue)
        × (read_api readers env ≡ ok pod_default.api)
        × (read_server readers env ≡ ok pod_default.server)
        × (read_kubernetes readers env ≡ ok pod_default.kubernetes)
        × (read_directories readers env ≡ pod_default.directories)
    unfolding read_application read_queue read_api read_server read_kubernetes read_directories
        worker_env string_eq ℕ_discrete
    others_read = (refl, refl, refl, refl, refl, refl)

  -- What the server writes into the environment of a worker pod, the worker reads back: the
  -- connection to Redis, the level of the log, the threads of ffmpeg (2 where the server has none),
  -- the configuration under its mount, and one shot; every other setting is the default. The
  -- server's Redis has a password, and neither its port nor its database is 0.
  pub read_settings-worker_env :
      (app : ProcessSettings)
      → readers.bool_of "true" ≡ some true
      → 0 < app.redis.port
      → 0 < app.redis.database
      → app.redis.password ≢ ""
      → read_settings readers (pod_env str_int app)
        ≡ ok (
            pod_settings readers app.redis app.logging.level
              (threads_or_two app.ffmpeg.thread_count)
              (app.kubernetes.config_mount_path <> "/vshift.yaml"))
  unfolding read_settings
  read_settings-worker_env app truth port database password =
      let o = others_read app in
      λ i.
        settings_of (redis_ok app port database password i) (o.0 i) (logging_read app i) (o.5 i)
          (ffmpeg_read app i) (config_read app i) (o.1 i) (o.2 i) (o.3 i) (worker_read app truth i)
          (o.4 i)

  -- With the database 0, which is the default and a server may have, no worker pod can read its
  -- settings.
  pub read_settings-database_zero :
      (app : ProcessSettings)
      → app.redis.database ≡ 0
      → read_settings readers (pod_env str_int app) ≡ err validation_error
  unfolding read_settings
  read_settings-database_zero app zero = λ i.
      settings_of (redis_zero app zero i) (read_application readers (pod_env str_int app))
        (read_logging readers (pod_env str_int app))
        (read_directories readers (pod_env str_int app)) (read_ffmpeg readers (pod_env str_int app))
        (read_config readers (pod_env str_int app)) (read_queue readers (pod_env str_int app))
        (read_api readers (pod_env str_int app)) (read_server readers (pod_env str_int app))
        (read_worker readers (pod_env str_int app)) (read_kubernetes readers (pod_env str_int app))
