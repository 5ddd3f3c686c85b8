-- ===== src/Kubernetes/Launching.antt =====
-- The launcher of Kubernetes counts its pods as the capacity pass relies on, and every mount of a
-- pod has its volume.
use vshift.Base.{
  ◌≡◌, refl, ap, ◌∙◌, ◌⊎◌, inl, inr, ℕ, ◌+◌, String, Bool, true, false, ◌&&◌, Option, none, some,
  List, [], ◌∷◌, map, arith, ◌==◌, string_eq, ℕ_discrete, if◌then◌else◌,
}
use vshift.Base.Dict.{Dict, lookup}
use vshift.Base.Exec.{Result, ok}
use vshift.Settings.{KubernetesSettings, ProcessSettings}
use vshift.Server.Capacity.{Counts, Result-cases}
use vshift.WorkerPods.{WorkerJob, build_job_name, build_job, volume_mounts, volumes}
use vshift.Kubernetes.{
  BatchApi, JobStatus, selector_terms, selector_text, count_active, count_active_workers,
  launch_worker, pod_launcher,
}

-- A job of the namespace, with its status.
abbrev pub StoredJob : Type 0
StoredJob = WorkerJob × Option JobStatus

-- Whether the labels have each of the terms.
abbrev pub has_terms : Dict String → Dict String → Bool
has_terms [] labels = true
has_terms ((key, value) ∷ terms) labels =
    (elim (lookup key labels) [ none ↦ false | some v ↦ v == value ]) && has_terms terms labels

-- The statuses of the jobs whose labels have the terms.
abbrev pub selected : Dict String → List StoredJob → List (Option JobStatus)
selected terms [] = []
selected terms ((job, status) ∷ jobs) =
    if has_terms terms job.metadata.labels
    then status ∷ selected terms jobs
    else selected terms jobs

-- What Kubernetes documents of the two calls, for the jobs of the namespace in a state: a list
-- that returns is of the jobs that the selector of the workers selects, and changes nothing; a
-- job that was created is one more, which has no status yet; a call that raises may have created
-- the job too.
pub record IsBatchApi {W : Type 0} (api : BatchApi W) (namespace : String)
    (jobs : W → List StoredJob) : Type 0 where
  pub list_keeps :
      (selector : String) (w : W) → jobs (api.list_namespaced_job namespace selector w).1 ≡ jobs w
  pub list_selected :
      (w : W) (found : List (Option JobStatus))
      → (api.list_namespaced_job namespace (selector_text selector_terms) w).0 ≡ ok found
      → found ≡ selected selector_terms (jobs w)
  pub digits_keep : (w : W) → jobs (api.uuid_digits w).1 ≡ jobs w
  pub create_adds :
      (job : WorkerJob) (w : W)
      → (api.create_namespaced_job namespace job w).0 ≡ ok tt
      → jobs (api.create_namespaced_job namespace job w).1 ≡ (job, none) ∷ jobs w
  pub create_bounded :
      (job : WorkerJob) (w : W)
      → (jobs (api.create_namespaced_job namespace job w).1 ≡ (job, none) ∷ jobs w)
        ⊎ (jobs (api.create_namespaced_job namespace job w).1 ≡ jobs w)

module _ {W : Type 0} (api : BatchApi W) (str_int : ℕ → String) (app : ProcessSettings)
    (jobs : W → List StoredJob) (L : IsBatchApi api app.kubernetes.namespace jobs) where
  -- The statuses of the jobs with the labels of the workers.
  abbrev pub statuses : W → List (Option JobStatus)
  statuses w = selected selector_terms (jobs w)

  -- A job that the factory builds has the labels that the launcher counts by.
  selects-build_job :
      (name : String) → has_terms selector_terms (build_job str_int app name).metadata.labels ≡ true
  unfolding build_job string_eq ℕ_discrete
  selects-build_job name = refl

  selected-build_job :
      (name : String) (others : List StoredJob)
      → selected selector_terms ((build_job str_int app name, none) ∷ others)
        ≡ none ∷ selected selector_terms others
  selected-build_job name others =
      ap (λ b. if b then none ∷ selected selector_terms others else selected selector_terms others)
        (selects-build_job name)

  abbrev listed : W → Result (List (Option JobStatus)) × W
  listed w = api.list_namespaced_job app.kubernetes.namespace (selector_text selector_terms) w

  count_keeps : (w : W) → jobs (count_active_workers api str_int app w).1 ≡ jobs w
  unfolding count_active_workers
  count_keeps w = elim (Result-cases (listed w).0) [
    | inl (found, e) ↦ ground (arith, L.list_keeps (selector_text selector_terms) w)
    | inr (x, e) ↦ ground (arith, L.list_keeps (selector_text selector_terms) w)
  ]

  count_exact :
      (w : W) (n : ℕ)
      → (count_active_workers api str_int app w).0 ≡ ok n
      → n ≡ count_active (statuses w)
  unfolding count_active_workers
  count_exact w n e = elim (Result-cases (listed w).0) [
    | inl (found, f) ↦ ground (arith, L.list_selected w found f)
    | inr (x, f) ↦ absurd (ground arith)
  ]

  abbrev named : W → W
  named w = (api.uuid_digits w).1

  abbrev next_job : W → WorkerJob
  next_job w = build_job str_int app (build_job_name (api.uuid_digits w).0)

  abbrev create : W → Result (Unit {0}) × W
  create w = api.create_namespaced_job app.kubernetes.namespace (next_job w) (named w)

  created :
      (w : W)
      → jobs (create w).1 ≡ (next_job w, none) ∷ jobs (named w)
      → statuses (create w).1 ≡ none ∷ statuses w
  created w e =
      ap (selected selector_terms) (e ∙ ap (λ js. (next_job w, none) ∷ js) (L.digits_keep w))
      ∙ selected-build_job (build_job_name (api.uuid_digits w).0) (jobs w)

  count-none : (jobs : List (Option JobStatus)) → count_active (none ∷ jobs) ≡ count_active jobs + 1
  unfolding count_active
  count-none jobs = omega arith

  launch_adds :
      (w : W) (pod : String)
      → (launch_worker api str_int app w).0 ≡ ok pod
      → statuses (launch_worker api str_int app w).1 ≡ none ∷ statuses w
  unfolding launch_worker
  launch_adds w pod e = elim (Result-cases (create w).0) [
    | inl (u, f) ↦ ground (arith, created w (L.create_adds (next_job w) (named w) f))
    | inr (x, f) ↦ absurd (ground arith)
  ]

  may_create :
      (w : W) → (statuses (create w).1 ≡ none ∷ statuses w) ⊎ (statuses (create w).1 ≡ statuses w)
  may_create w = elim (L.create_bounded (next_job w) (named w)) [
    | inl more ↦ inl (created w more)
    | inr same ↦ inr (ap (selected selector_terms) (same ∙ L.digits_keep w))
  ]

  launch_bounded :
      (w : W)
      → (statuses (launch_worker api str_int app w).1 ≡ none ∷ statuses w)
        ⊎ (statuses (launch_worker api str_int app w).1 ≡ statuses w)
  unfolding launch_worker
  launch_bounded w = elim (Result-cases (create w).0) [
    | inl (u, f) ↦ ground (arith, may_create w)
    | inr (x, f) ↦ ground (arith, may_create w)
  ]

  -- Over such an API the launcher counts the active jobs with its labels exactly, a launch that
  -- returns adds one to them, since the job it builds has those labels, and no launch adds more: it
  -- is what the capacity pass relies on.
  pub pod_launcher-Counts : Counts (pod_launcher api str_int app) (λ w. count_active (statuses w))
  unfolding pod_launcher
  pod_launcher-Counts = record {
    count_keeps = λ w. ap (λ js. count_active (selected selector_terms js)) (count_keeps w);
    count_exact = count_exact;
    launch_adds = λ w pod e. ap count_active (launch_adds w pod e) ∙ count-none (statuses w);
    launch_bounded = λ w. ground (arith, launch_bounded w, count-none (statuses w));
  }

-- Each mount of a worker pod names a volume of the pod, in the same order.
pub volume_mounts-volumes :
    (k8s : KubernetesSettings)
    → map (λ mount. mount.name) (volume_mounts k8s) ≡ map (λ volume. volume.name) (volumes k8s)
unfolding volume_mounts volumes
volume_mounts-volumes k8s = ground arith
