-- ===== src/WorkerPods.antt =====
-- src/vshift/infrastructure/kubernetes/worker_pod_factory.py and resources.py: the job of a worker
-- pod, with the fields of the Kubernetes objects that the factory sets. `str` of an `int` is a
-- parameter.
use vshift.Base.{
  ℕ, ◌<>◌, String, Bool, true, false, Option, none, some, List, [], ◌∷◌, ◌++◌, ◌==◌, nat_eq,
  if◌then◌else◌,
}
use vshift.Base.Dict.{Dict}
use vshift.Settings.{KubernetesSettings, K8sContainerResources, ProcessSettings, LogLevel, to_dict}

-- `V1VolumeMount`
pub record VolumeMount : Type 0 where
  pub name : String
  pub mount_path : String
  pub read_only : Bool

pub data VolumeSource : Type 0 where
  config_map : String → VolumeSource
  volume_claim : String → VolumeSource

-- `V1Volume`
pub record Volume : Type 0 where
  pub name : String
  pub source : VolumeSource

abbrev mount_if : {A : Type 0} → Option A → VolumeMount → List VolumeMount
mount_if none mount = []
mount_if (some a) mount = mount ∷ []

abbrev volume_if : String → (String → VolumeSource) → Option String → List Volume
volume_if name source none = []
volume_if name source (some claim) = record { name = name; source = source claim } ∷ []

-- `_volume_mounts`
unfoldable pub volume_mounts : KubernetesSettings → List VolumeMount
volume_mounts k8s =
    mount_if k8s.config_map_name
      (record { name = "config"; mount_path = k8s.config_mount_path; read_only = true })
    ++ mount_if k8s.input_volume_claim
        (record { name = "input"; mount_path = k8s.input_mount_path; read_only = false })
    ++ mount_if k8s.output_volume_claim
        (record { name = "output"; mount_path = k8s.output_mount_path; read_only = false })
    ++ mount_if k8s.temp_volume_claim
        (record { name = "temp"; mount_path = k8s.temp_mount_path; read_only = false })

-- `_volumes`
unfoldable pub volumes : KubernetesSettings → List Volume
volumes k8s =
    volume_if "config" config_map k8s.config_map_name
    ++ volume_if "input" volume_claim k8s.input_volume_claim
    ++ volume_if "output" volume_claim k8s.output_volume_claim
    ++ volume_if "temp" volume_claim k8s.temp_volume_claim

-- `app.ffmpeg.thread_count or 2`
abbrev pub threads_or_two : Option ℕ → ℕ
threads_or_two none = 2
threads_or_two (some n) = if n == 0 then 2 else n

abbrev pub level_text : LogLevel → String
level_text LogLevel.debug = "DEBUG"
level_text LogLevel.info = "INFO"
level_text LogLevel.warning = "WARNING"
level_text LogLevel.error = "ERROR"
level_text LogLevel.critical = "CRITICAL"
level_text LogLevel.trace = "TRACE"

-- `_worker_env`, with `str` of an `int`
unfoldable pub worker_env : (str_int : ℕ → String) → ProcessSettings → Dict String
worker_env str_int app =
    ("VSHIFT__REDIS__HOST", app.redis.host)
    ∷ ("VSHIFT__REDIS__PASSWORD", app.redis.password)
    ∷ ("VSHIFT__REDIS__DATABASE", str_int app.redis.database)
    ∷ ("VSHIFT__REDIS__PORT", str_int app.redis.port)
    ∷ ("VSHIFT__CONFIG__FILE", app.kubernetes.config_mount_path <> "/vshift.yaml")
    ∷ ("VSHIFT__WORKER__ONE_SHOT", "true")
    ∷ ("VSHIFT__LOGGING__LEVEL", level_text app.logging.level)
    ∷ ("VSHIFT__FFMPEG__THREAD_COUNT", str_int (threads_or_two app.ffmpeg.thread_count))
    ∷ []

-- `V1ResourceRequirements`
pub record ResourceRequirements : Type 0 where
  pub requests : Option (Dict String)
  pub limits : Option (Dict String)

-- `values or None`
abbrev or_none : Dict String → Option (Dict String)
or_none [] = none
or_none (entry ∷ entries) = some (entry ∷ entries)

abbrev requirements : (requests limits : Option (Dict String)) → Option ResourceRequirements
requirements none none = none
requirements none (some limits) = some (record { requests = none; limits = some limits })
requirements (some requests) limits = some (record { requests = some requests; limits = limits })

-- `to_v1_resource_requirements`
unfoldable pub to_v1_resource_requirements : K8sContainerResources → Option ResourceRequirements
unfolding to_dict
to_v1_resource_requirements resources =
    requirements (or_none (to_dict resources.requests)) (or_none (to_dict resources.limits))

abbrev pub worker_app_label : String
worker_app_label = "vshift"

abbrev pub worker_component_label : String
worker_component_label = "worker"

abbrev pub worker_managed_by_label : String
worker_managed_by_label = "vshift-server"

-- `V1ObjectMeta`
pub record ObjectMeta : Type 0 where
  pub name : Option String
  pub labels : Dict String

-- `V1Container`
pub record Container : Type 0 where
  pub name : String
  pub image : String
  pub image_pull_policy : String
  pub command : List String
  pub env : Dict String
  pub volume_mounts : List VolumeMount
  pub resources : Option ResourceRequirements

-- `V1PodSpec`
pub record PodSpec : Type 0 where
  pub restart_policy : String
  pub service_account_name : String
  pub containers : List Container
  pub volumes : List Volume

-- `V1JobSpec`, with the `V1PodTemplateSpec`
pub record JobSpec : Type 0 where
  pub ttl_seconds_after_finished : ℕ
  pub backoff_limit : ℕ
  pub template_metadata : ObjectMeta
  pub template_spec : PodSpec

-- `V1Job`
pub record WorkerJob : Type 0 where
  pub api_version : String
  pub kind : String
  pub metadata : ObjectMeta
  pub spec : JobSpec

-- `build_job_name`, for the first eight digits of `uuid4().hex`
unfoldable pub build_job_name : String → String
build_job_name digits = "vshift-worker-" <> digits

abbrev pub worker_labels : Dict String
worker_labels =
    ("app.kubernetes.io/name", worker_app_label)
    ∷ ("app.kubernetes.io/component", worker_component_label)
    ∷ ("app.kubernetes.io/managed-by", worker_managed_by_label)
    ∷ []

-- `build_job`
unfoldable pub build_job : (str_int : ℕ → String) → ProcessSettings → String → WorkerJob
unfolding worker_env volume_mounts volumes to_v1_resource_requirements
build_job str_int app job_name =
    let k8s = app.kubernetes in
    let container : Container = record {
      name = "worker";
      image = k8s.worker_image;
      image_pull_policy = k8s.worker_image_pull_policy;
      command = "vshift-worker" ∷ [];
      env = worker_env str_int app;
      volume_mounts = volume_mounts k8s;
      resources = to_v1_resource_requirements k8s.worker_resources;
    } in
    let pod_spec : PodSpec = record {
      restart_policy = "Never";
      service_account_name = k8s.worker_service_account;
      containers = container ∷ [];
      volumes = volumes k8s;
    } in
    record {
      api_version = "batch/v1";
      kind = "Job";
      metadata = record { name = some job_name; labels = worker_labels };
      spec = record {
        ttl_seconds_after_finished = k8s.job_ttl_seconds_after_finished;
        backoff_limit = 0;
        template_metadata = record { name = none; labels = worker_labels };
        template_spec = pod_spec;
      };
    }
