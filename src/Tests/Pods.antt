-- ===== src/Tests/Pods.antt =====
-- The Kubernetes launcher over an API whose state is the list of its jobs, and the settings of the
-- pods.
use Prim.Native.String.{count}
use vshift.Base.{
  ◌≡◌, ◌≢◌, refl, ap, inl, ℕ, true, none, some, List, [], ◌∷◌, arith, string_eq, ℕ_discrete, ◌==◌,
  if◌then◌else◌,
}
use vshift.Base.Exec.{ok, err}
use vshift.Settings.{KubernetesSettings, ProcessSettings, LogLevel, default_worker_resources}
use vshift.Settings.Loading.{Readers, read_settings, validation_error}
use vshift.Server.Capacity.{Counts}
use vshift.Kubernetes.{BatchApi, selector_terms, count_active, pod_launcher}
use vshift.Kubernetes.Launching.{StoredJob, selected, IsBatchApi, pod_launcher-Counts}
use vshift.Kubernetes.Environment.{
  pod_settings, pod_env, read_settings-worker_env, read_settings-database_zero,
}
use vshift.Redis.Keys.{differ}
use vshift.Tests.RedisClient.{letters, count-letters}

abbrev settings : KubernetesSettings
settings = record {
  enabled = true;
  namespace = "media";
  in_cluster = true;
  worker_image = "ghcr.io/bueckerlars/vshift:latest";
  worker_image_pull_policy = "IfNotPresent";
  max_concurrent_pods = 2;
  worker_resources = default_worker_resources;
  worker_service_account = "vshift-worker";
  job_ttl_seconds_after_finished = 3600;
  input_volume_claim = some "input-claim";
  output_volume_claim = some "output-claim";
  temp_volume_claim = none;
  input_mount_path = "/data/input";
  output_mount_path = "/data/output";
  temp_mount_path = "/data/temp";
  config_mount_path = "/app/config";
  config_map_name = some "vshift-config";
}

-- A number as so many letters, and back.
abbrev pub lettered : Readers
lettered = record {
  int_of = λ text. some (count text);
  bool_of = λ text. if text == "true" then some true else none;
  path_of = λ text. text ∷ [];
}

-- The settings of a server that launches pods.
abbrev pub app : ProcessSettings
app =
    record (pod_settings lettered
      (record { host = "redis"; port = 6379; password = "secret"; database = 2 }) LogLevel.debug 4
      "config/vshift.yaml") { kubernetes = settings }

abbrev batch : BatchApi (List StoredJob)
batch = record {
  list_namespaced_job = λ namespace selector w. (ok (selected selector_terms w), w);
  create_namespaced_job = λ namespace job w. (ok tt, (job, none) ∷ w);
  uuid_digits = λ w. ("0123abcd", w);
}

batch-IsBatchApi : IsBatchApi batch "media" (λ w. w)
batch-IsBatchApi = record {
  list_keeps = λ selector w. refl;
  list_selected = λ w found e. cc;
  digits_keep = λ w. refl;
  create_adds = λ job w e. refl;
  create_bounded = λ job w. inl refl;
}

pod_launcher-Counts_example :
    Counts (pod_launcher batch letters app) (λ w. count_active (selected selector_terms w))
pod_launcher-Counts_example = pod_launcher-Counts batch letters app (λ w. w) batch-IsBatchApi

pub lettered-reads : (n : ℕ) → lettered.int_of (letters n) ≡ some n
lettered-reads n = ap some (count-letters n)

pub reads_true : lettered.bool_of "true" ≡ some true
unfolding string_eq ℕ_discrete
reads_true = refl

pub has_password : app.redis.password ≢ ""
unfolding string_eq ℕ_discrete
has_password = differ "secret" "" refl

read_settings-worker_env_example :
    read_settings lettered (pod_env letters app)
    ≡ ok (pod_settings lettered app.redis LogLevel.debug 4 "/app/config/vshift.yaml")
unfolding ℕ_discrete
read_settings-worker_env_example =
    read_settings-worker_env lettered letters lettered-reads app reads_true (omega arith)
      (omega arith) has_password

read_settings-database_zero_example :
    let first = record app { redis = record app.redis { database = 0 } } in
    read_settings lettered (pod_env letters first) ≡ err validation_error
read_settings-database_zero_example =
    read_settings-database_zero lettered letters lettered-reads
      (record app { redis = record app.redis { database = 0 } }) refl
