-- ===== src/Settings/Loading.antt =====
-- src/vshift/application/common/settings.py: how `Settings()` fills its fields from the
-- environment. pydantic reads the variable `VSHIFT__<SECTION>__<FIELD>` of a field and checks its
-- type; the values of the variables (with the file .env behind them) and the reading of integers,
-- booleans and paths are parameters. A `ValidationError` is raised once for all fields, so its
-- text is left out, and so are variables that give a whole section as JSON.
use vshift.Base.{
  ℕ, String, Bool, true, false, ◌||◌, Option, none, some, ◌==◌, string_eq, ltb, is_some,
  if◌then◌else◌,
}
use vshift.Base.Exec.{Error, Result, ok, err, other, and_then}
use vshift.Base.FilePath.{FilePath}
use vshift.Settings.{
  LogLevel, LoggingSettings, ApplicationSettings, DirectorySettings, RedisConnectionSettings,
  FfmpegSettings, ConfigSettings, QueueSettings, ApiSettings, ServerRuntimeSettings,
  K8sResourceSpec, K8sContainerResources, KubernetesSettings, WorkerRuntimeSettings,
  ProcessSettings, validate_password, default_worker_resources,
}

-- How pydantic reads texts. A negative number is no natural one: where a number is read here, both
-- are refused.
pub record Readers : Type 0 where
  pub int_of : String → Option ℕ
  pub bool_of : String → Option Bool
  pub path_of : String → FilePath

abbrev pub Env : Type 0
Env = String → Option String

abbrev pub validation_error : Error
validation_error = other "ValidationError"

-- `Literal["DEBUG", ...]`
unfoldable pub level_of : String → Result LogLevel
level_of text =
    if text == "DEBUG"
    then ok LogLevel.debug
    else if text == "INFO"
    then ok LogLevel.info
    else if text == "WARNING"
    then ok LogLevel.warning
    else if text == "ERROR"
    then ok LogLevel.error
    else if text == "CRITICAL"
    then ok LogLevel.critical
    else if text == "TRACE"
    then ok LogLevel.trace
    else err validation_error

-- The settings of all sections, or what the first refused one raises.
abbrev pub settings_of :
    Result RedisConnectionSettings
    → Result ApplicationSettings
    → Result LoggingSettings
    → DirectorySettings
    → Result FfmpegSettings
    → ConfigSettings
    → Result QueueSettings
    → Result ApiSettings
    → Result ServerRuntimeSettings
    → Result WorkerRuntimeSettings
    → Result KubernetesSettings
    → Result ProcessSettings
settings_of redis? application? logging? directories ffmpeg? config queue? api? server? worker?
      kubernetes? =
    and_then redis? λ redis. and_then application? λ application. and_then logging? λ logging.
      and_then ffmpeg? λ ffmpeg. and_then queue? λ queue. and_then api? λ api.
        and_then server? λ server. and_then worker? λ worker. and_then kubernetes? λ kubernetes.
          ok (record {
            application = application;
            logging = logging;
            directories = directories;
            config = config;
            ffmpeg = ffmpeg;
            redis = redis;
            queue = queue;
            api = api;
            server = server;
            worker = worker;
            kubernetes = kubernetes;
          })

module _ (readers : Readers) (env : Env) where
  abbrev pub text : String → String → String
  text name default = elim (env name) [ none ↦ default | some t ↦ t ]

  -- a text with `min_length=1`
  abbrev pub filled_text : String → String → Result String
  filled_text name default = elim (env name) [
    | none ↦ ok default
    | some t ↦ if t == "" then err validation_error else ok t
  ]

  -- `Field(default=...)`
  abbrev pub required_text : String → Result String
  required_text name = elim (env name) [ none ↦ err validation_error | some t ↦ ok t ]

  abbrev pub positive_of : String → Result ℕ
  positive_of t = elim (readers.int_of t) [
    | none ↦ err validation_error
    | some n ↦ if ltb 0 n then ok n else err validation_error
  ]

  -- `PositiveInt`: a value that is given is checked, a default is not.
  abbrev pub positive : String → ℕ → Result ℕ
  positive name default = elim (env name) [ none ↦ ok default | some t ↦ positive_of t ]

  abbrev pub flag : String → Bool → Result Bool
  flag name default = elim (env name) [
    | none ↦ ok default
    | some t ↦ elim (readers.bool_of t) [ none ↦ err validation_error | some b ↦ ok b ]
  ]

  unfoldable pub read_application : Result ApplicationSettings
  read_application =
      and_then (positive "VSHIFT__APPLICATION__WORKER_THREADS" 1)
        (λ threads. ok (record { worker_threads = threads }))

  unfoldable pub read_logging : Result LoggingSettings
  unfolding level_of
  read_logging = elim (env "VSHIFT__LOGGING__LEVEL") [
    | none ↦ ok (record { level = LogLevel.info })
    | some t ↦ and_then (level_of t) (λ level. ok (record { level = level }))
  ]

  unfoldable pub read_directories : DirectorySettings
  read_directories = record {
    input_dir = text "VSHIFT__DIRECTORIES__INPUT_DIR" "data/input";
    output_dir = text "VSHIFT__DIRECTORIES__OUTPUT_DIR" "data/output";
    temp_dir = text "VSHIFT__DIRECTORIES__TEMP_DIR" "data/temp";
    profile_dir = text "VSHIFT__DIRECTORIES__PROFILE_DIR" "data/profile";
  }

  unfoldable pub read_redis : Result RedisConnectionSettings
  unfolding validate_password
  read_redis = and_then (positive "VSHIFT__REDIS__PORT" 6379) λ port.
      and_then (required_text "VSHIFT__REDIS__PASSWORD") λ password.
        and_then (positive "VSHIFT__REDIS__DATABASE" 0) λ database. validate_password (record {
          host = text "VSHIFT__REDIS__HOST" "localhost";
          port = port;
          password = password;
          database = database;
        })

  unfoldable pub read_ffmpeg : Result FfmpegSettings
  read_ffmpeg = and_then (positive "VSHIFT__FFMPEG__THREAD_COUNT" 2) λ threads. ok (record {
    ffmpeg_path = text "VSHIFT__FFMPEG__FFMPEG_PATH" "ffmpeg";
    ffprobe_path = text "VSHIFT__FFMPEG__FFPROBE_PATH" "ffprobe";
    thread_count = some threads;
  })

  unfoldable pub read_config : ConfigSettings
  read_config = record { file = readers.path_of (text "VSHIFT__CONFIG__FILE" "config/vshift.yaml") }

  unfoldable pub read_queue : Result QueueSettings
  read_queue = and_then (filled_text "VSHIFT__QUEUE__KEY_PREFIX" "vshift") λ prefix.
      and_then (positive "VSHIFT__QUEUE__TTL" 86400) λ ttl.
        and_then (positive "VSHIFT__QUEUE__JOB_HEARTBEAT_TTL_SECONDS" 60) λ beat.
          and_then (positive "VSHIFT__QUEUE__WORKER_TTL_SECONDS" 30) λ worker. ok (record {
            key_prefix = prefix;
            ttl = ttl;
            job_heartbeat_ttl_seconds = beat;
            worker_ttl_seconds = worker;
          })

  unfoldable pub read_api : Result ApiSettings
  read_api = and_then (positive "VSHIFT__API__PORT" 8000) λ port.
      and_then (flag "VSHIFT__API__DOCS_ENABLED" true) λ docs_enabled. ok (record {
        host = text "VSHIFT__API__HOST" "0.0.0.0";
        port = port;
        docs_enabled = docs_enabled;
        docs_url = text "VSHIFT__API__DOCS_URL" "/docs";
        redoc_url = text "VSHIFT__API__REDOC_URL" "/redoc";
        openapi_url = text "VSHIFT__API__OPENAPI_URL" "/openapi.json";
      })

  unfoldable pub read_server : Result ServerRuntimeSettings
  read_server = and_then (positive "VSHIFT__SERVER__SCAN_INTERVAL_SECONDS" 30) λ scan.
      and_then (positive "VSHIFT__SERVER__RECOVERY_INTERVAL_SECONDS" 60) λ recovery.
        and_then (positive "VSHIFT__SERVER__WORKER_SCALE_INTERVAL_SECONDS" 15) λ scale. ok (record {
          scan_interval_seconds = scan;
          recovery_interval_seconds = recovery;
          worker_scale_interval_seconds = scale;
        })

  -- The resources of the pods: where one of the variables is set, the others have no default.
  unfoldable pub read_worker_resources : K8sContainerResources
  read_worker_resources =
      let requests : K8sResourceSpec = record {
        cpu = env "VSHIFT__KUBERNETES__WORKER_RESOURCES__REQUESTS__CPU";
        memory = env "VSHIFT__KUBERNETES__WORKER_RESOURCES__REQUESTS__MEMORY";
      } in
      let limits : K8sResourceSpec = record {
        cpu = env "VSHIFT__KUBERNETES__WORKER_RESOURCES__LIMITS__CPU";
        memory = env "VSHIFT__KUBERNETES__WORKER_RESOURCES__LIMITS__MEMORY";
      } in
      if is_some requests.cpu
        || is_some requests.memory
        || is_some limits.cpu
        || is_some limits.memory
      then record { requests = requests; limits = limits }
      else default_worker_resources

  unfoldable pub read_kubernetes : Result KubernetesSettings
  unfolding read_worker_resources
  read_kubernetes = and_then (flag "VSHIFT__KUBERNETES__ENABLED" false) λ enabled.
      and_then (filled_text "VSHIFT__KUBERNETES__NAMESPACE" "default") λ namespace.
        and_then (flag "VSHIFT__KUBERNETES__IN_CLUSTER" true) λ in_cluster.
          and_then
            (filled_text "VSHIFT__KUBERNETES__WORKER_IMAGE" "ghcr.io/bueckerlars/vshift:latest")
            λ image. and_then (positive "VSHIFT__KUBERNETES__MAX_CONCURRENT_PODS" 1) λ pods.
              and_then (filled_text "VSHIFT__KUBERNETES__WORKER_SERVICE_ACCOUNT" "vshift-worker")
                λ account.
                  and_then (positive "VSHIFT__KUBERNETES__JOB_TTL_SECONDS_AFTER_FINISHED" 3600)
                    λ ttl. ok (record {
                      enabled = enabled;
                      namespace = namespace;
                      in_cluster = in_cluster;
                      worker_image = image;
                      worker_image_pull_policy =
                          text "VSHIFT__KUBERNETES__WORKER_IMAGE_PULL_POLICY" "IfNotPresent";
                      max_concurrent_pods = pods;
                      worker_resources = read_worker_resources;
                      worker_service_account = account;
                      job_ttl_seconds_after_finished = ttl;
                      input_volume_claim = env "VSHIFT__KUBERNETES__INPUT_VOLUME_CLAIM";
                      output_volume_claim = env "VSHIFT__KUBERNETES__OUTPUT_VOLUME_CLAIM";
                      temp_volume_claim = env "VSHIFT__KUBERNETES__TEMP_VOLUME_CLAIM";
                      input_mount_path = text "VSHIFT__KUBERNETES__INPUT_MOUNT_PATH" "/data/input";
                      output_mount_path =
                          text "VSHIFT__KUBERNETES__OUTPUT_MOUNT_PATH" "/data/output";
                      temp_mount_path = text "VSHIFT__KUBERNETES__TEMP_MOUNT_PATH" "/data/temp";
                      config_mount_path =
                          text "VSHIFT__KUBERNETES__CONFIG_MOUNT_PATH" "/app/config";
                      config_map_name =
                          some (text "VSHIFT__KUBERNETES__CONFIG_MAP_NAME" "vshift-config");
                    })

  unfoldable pub read_worker : Result WorkerRuntimeSettings
  read_worker = and_then (positive "VSHIFT__WORKER__IDLE_SLEEP_SECONDS" 1) λ sleep.
      and_then (positive "VSHIFT__WORKER__CLAIM_DEQUEUE_TIMEOUT_SECONDS" 5) λ timeout.
        and_then (flag "VSHIFT__WORKER__ONE_SHOT" false) λ one_shot. ok (record {
          idle_sleep_seconds = sleep;
          claim_dequeue_timeout_seconds = timeout;
          one_shot = one_shot;
        })

  -- `Settings()`. The check of the password raises at once and passes over what else is wrong.
  unfoldable pub read_settings : Result ProcessSettings
  unfolding read_application read_logging read_directories read_redis read_ffmpeg read_config
      read_queue read_api read_server read_worker read_kubernetes
  read_settings =
      settings_of read_redis read_application read_logging read_directories read_ffmpeg read_config
        read_queue read_api read_server read_worker read_kubernetes
