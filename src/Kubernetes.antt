-- ===== src/Kubernetes.antt =====
-- src/vshift/infrastructure/kubernetes: worker_pod_launcher.py and client.py; WorkerPods has
-- worker_pod_factory.py and resources.py. The batch API of Kubernetes, the loading of its
-- configuration and the names that `uuid4` makes are parameters; an answer of the API is its
-- jobs, or the reason of an `ApiException`.
pub mod Launching
pub mod Environment
use vshift.Base.{
  ℕ, zero, suc, ◌<>◌, String, Bool, true, false, Option, none, some, List, [], ◌∷◌, ltb, is_some,
  not, if◌then◌else◌,
}
use vshift.Base.Exec.{Result, ok, err, Exec, vshift_exception, pure, raise, ◌>>=◌, ◌>>◌}
use vshift.Base.Dict.{Dict}
use vshift.Job.{Timestamp}
use vshift.Settings.{KubernetesSettings, ProcessSettings}
use vshift.Ports.{WorkerPodLauncher}
use vshift.WorkerPods.{
  WorkerJob, worker_app_label, worker_component_label, worker_managed_by_label, build_job_name,
  build_job,
}

-- the fields of a `V1JobStatus` that are read
pub record JobStatus : Type 0 where
  pub active : Option ℕ
  pub succeeded : Option ℕ
  pub failed : Option ℕ
  pub completion_time : Option Timestamp

-- `value is not None and value > 0`
abbrev pub counts : Option ℕ → Bool
counts none = false
counts (some n) = ltb 0 n

-- `_is_active_job`, for the status of a job
unfoldable pub is_active_job : Option JobStatus → Bool
is_active_job none = true
is_active_job (some status) =
    if counts status.active
    then true
    else if counts status.succeeded
    then false
    else if counts status.failed
    then false
    else not (is_some status.completion_time)

-- the loop of `count_active_workers`
unfoldable pub count_active : List (Option JobStatus) → ℕ
unfolding is_active_job
count_active [] = 0
count_active (status ∷ jobs) =
    let rest = count_active jobs in if is_active_job status then suc rest else rest

-- What an answer of the API is, as a result of the method.
unfoldable pub answer : {A : Type 0} → String → Result A → Result A
answer message (ok a) = ok a
answer message (err reason) = err (vshift_exception message)

-- `list_namespaced_job`, giving the statuses, and `create_namespaced_job`, with the first eight
-- digits of a new `uuid4().hex`.
pub record BatchApi (W : Type 0) : Type 0 where
  pub list_namespaced_job : (namespace label_selector : String) → Exec W (List (Option JobStatus))
  pub create_namespaced_job : (namespace : String) → WorkerJob → Exec W Unit
  pub uuid_digits : W → String × W

-- The terms of the `label_selector`
abbrev pub selector_terms : Dict String
selector_terms =
    ("app.kubernetes.io/name", worker_app_label)
    ∷ ("app.kubernetes.io/component", worker_component_label)
    ∷ ("app.kubernetes.io/managed-by", worker_managed_by_label)
    ∷ []

-- Terms as the text of a selector.
abbrev pub selector_text : Dict String → String
selector_text [] = ""
selector_text ((key, value) ∷ []) = key <> "=" <> value
selector_text ((key, value) ∷ term ∷ terms) =
    key <> "=" <> value <> "," <> selector_text (term ∷ terms)

-- What the loaders of the configuration end with: an exception other than a `ConfigException` is an
-- error of the action.
pub data LoadAnswer : Type 0 where
  loaded : LoadAnswer
  config_exception : String → LoadAnswer

pub record ConfigLoaders (W : Type 0) : Type 0 where
  pub load_incluster_config : Exec W LoadAnswer
  pub load_kube_config : Exec W LoadAnswer

abbrev pub config_answer : {W : Type 0} → LoadAnswer → Exec W Unit
config_answer loaded = pure tt
config_answer (config_exception error) =
    raise (vshift_exception ("failed to load kubernetes config: " <> error))

-- `_load_config`
unfoldable pub load_config : {W : Type 0} → ConfigLoaders W → KubernetesSettings → Exec W Unit
load_config loaders settings = do
  answer ← (if settings.in_cluster then loaders.load_incluster_config else loaders.load_kube_config)
  config_answer answer

module _ {W : Type 0} (api : BatchApi W) (str_int : ℕ → String) (app : ProcessSettings) where
  -- `K8sWorkerPodLauncher.count_active_workers`
  unfoldable pub count_active_workers : Exec W ℕ
  unfolding count_active answer
  count_active_workers w =
      let (r, w') =
        api.list_namespaced_job app.kubernetes.namespace (selector_text selector_terms) w in
      elim (answer "failed to list worker jobs" r) [
        | ok jobs ↦ (ok (count_active jobs), w')
        | err e ↦ (err e, w')
      ]

  -- `K8sWorkerPodLauncher.launch_worker`
  unfoldable pub launch_worker : Exec W String
  unfolding answer build_job_name build_job
  launch_worker w =
      let (digits, w') = api.uuid_digits w in
      let job_name = build_job_name digits in
      let (r, w'') =
        api.create_namespaced_job app.kubernetes.namespace (build_job str_int app job_name) w' in
      elim (answer "failed to create worker job" r) [
        | ok _ ↦ (ok job_name, w'')
        | err e ↦ (err e, w'')
      ]

  -- `K8sWorkerPodLauncher`
  unfoldable pub pod_launcher : WorkerPodLauncher W
  unfolding count_active_workers launch_worker
  pod_launcher = record {
    count_active_workers = count_active_workers;
    launch_worker = launch_worker;
  }
