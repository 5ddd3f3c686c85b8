-- ===== src/Settings.antt =====
-- src/vshift/application/common/settings.py: the settings of the processes. A `PositiveInt` is a
-- number here, and Loading has the checks of what is given. Fields that only name a place, an image
-- or a text are texts.
pub mod Loading
use vshift.Base.{ℕ, String, Bool, Option, none, some, [], ◌==◌, string_eq, if◌then◌else◌}
use vshift.Base.Exec.{Result, ok, err, vshift_exception}
use vshift.Base.Dict.{Dict, insert}
use vshift.Base.FilePath.{FilePath}

pub data LogLevel : Type 0 where
  debug info warning error critical trace : LogLevel

pub record LoggingSettings : Type 0 where
  pub level : LogLevel

pub record ApplicationSettings : Type 0 where
  pub worker_threads : ℕ

pub record DirectorySettings : Type 0 where
  pub input_dir : String
  pub output_dir : String
  pub temp_dir : String
  pub profile_dir : String

pub record RedisConnectionSettings : Type 0 where
  pub host : String
  pub port : ℕ
  pub password : String
  pub database : ℕ

unfoldable pub validate_password : RedisConnectionSettings → Result RedisConnectionSettings
validate_password redis =
    if redis.password == "" then err (vshift_exception "Redis password is required") else ok redis

pub record FfmpegSettings : Type 0 where
  pub ffmpeg_path : String
  pub ffprobe_path : String
  pub thread_count : Option ℕ

pub record ConfigSettings : Type 0 where
  pub file : FilePath

pub record QueueSettings : Type 0 where
  pub key_prefix : String
  pub ttl : ℕ
  pub job_heartbeat_ttl_seconds : ℕ
  pub worker_ttl_seconds : ℕ

pub record ApiSettings : Type 0 where
  pub host : String
  pub port : ℕ
  pub docs_enabled : Bool
  pub docs_url : String
  pub redoc_url : String
  pub openapi_url : String

pub record ServerRuntimeSettings : Type 0 where
  pub scan_interval_seconds : ℕ
  pub recovery_interval_seconds : ℕ
  pub worker_scale_interval_seconds : ℕ

pub record K8sResourceSpec : Type 0 where
  pub cpu : Option String
  pub memory : Option String

-- `values[key] = value`, if there is a value
abbrev add_value : String → Option String → Dict String → Dict String
add_value key none values = values
add_value key (some value) values = insert key value values

-- `K8sResourceSpec.to_dict`
unfoldable pub to_dict : K8sResourceSpec → Dict String
to_dict spec = add_value "memory" spec.memory (add_value "cpu" spec.cpu [])

pub record K8sContainerResources : Type 0 where
  pub requests : K8sResourceSpec
  pub limits : K8sResourceSpec

-- `_default_worker_resources`
abbrev pub default_worker_resources : K8sContainerResources
default_worker_resources = record {
  requests = record { cpu = some "1500m"; memory = some "3Gi" };
  limits = record { cpu = some "3"; memory = some "5Gi" };
}

pub record KubernetesSettings : Type 0 where
  pub enabled : Bool
  pub namespace : String
  pub in_cluster : Bool
  pub worker_image : String
  pub worker_image_pull_policy : String
  pub max_concurrent_pods : ℕ
  pub worker_resources : K8sContainerResources
  pub worker_service_account : String
  pub job_ttl_seconds_after_finished : ℕ
  pub input_volume_claim : Option String
  pub output_volume_claim : Option String
  pub temp_volume_claim : Option String
  pub input_mount_path : String
  pub output_mount_path : String
  pub temp_mount_path : String
  pub config_mount_path : String
  pub config_map_name : Option String

pub record WorkerRuntimeSettings : Type 0 where
  pub idle_sleep_seconds : ℕ
  pub claim_dequeue_timeout_seconds : ℕ
  pub one_shot : Bool

-- `Settings`, the class
pub record ProcessSettings : Type 0 where
  pub application : ApplicationSettings
  pub logging : LoggingSettings
  pub directories : DirectorySettings
  pub config : ConfigSettings
  pub ffmpeg : FfmpegSettings
  pub redis : RedisConnectionSettings
  pub queue : QueueSettings
  pub api : ApiSettings
  pub server : ServerRuntimeSettings
  pub worker : WorkerRuntimeSettings
  pub kubernetes : KubernetesSettings
