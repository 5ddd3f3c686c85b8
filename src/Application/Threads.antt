-- ===== src/Application/Threads.antt =====
-- What the threads of the server do to the stores over Redis.
use vshift.Base.{
  ◌≡◌, refl, sym, subst, arith, inl, inr, ℕ, ◌≤◌, Bool, true, false, not, Option, none, String,
  List, [], ◌∷◌, All, if◌then◌else◌,
}
use vshift.Base.Exec.{Result, ok, Exec, lift, ◌>>=◌}
use vshift.Base.Ensures.{
  Ensures, Keeps, Keeps-bind, Keeps-pure, Keeps-call, Keeps-gets, Keeps-if, Keeps-states,
  Keeps-raise, Ensures-write, Ensures-bind, Ensures-pure,
}
use vshift.Base.FilePath.{FilePath}
use vshift.Settings.{ProcessSettings}
use vshift.Lifecycle.{IsConsistent}
use vshift.Ports.{Stores, WorkerPodLauncher}
use vshift.Redis.Keyspace.{Keyspace}
use vshift.Redis.Refinement.{redis_stores-IsReading}
use vshift.Ports.Contract.{View, IsLawful, IsReading}
use vshift.Filesystem.Configuration.{YamlConfigRepository, get_max_retries}
use vshift.Filesystem.Scanner.{is_stable, scan_paths, poll_scan_once}
use vshift.Ffmpeg.Transcoding.Stores.{Spares, media_prober-Keeps}
use vshift.Server.Keeping.{recover_stale_jobs-IsConsistent, ensure_worker_capacity-IsConsistent}
use vshift.Server.Enqueueing.{scan_input_folder-IsConsistent}
use vshift.Server.{ensure_worker_capacity}
use vshift.Server.Background.{background_loop, background_loop-returns, background_loop-Ensures}
use vshift.WorkerPods.{WorkerJob, build_job_name, build_job}
use vshift.Server.Capacity.{Result-cases}
use vshift.Kubernetes.{
  JobStatus, LoadAnswer, selector_text, selector_terms, load_config, config_answer,
  count_active_workers, launch_worker, pod_launcher,
}
use vshift.Contexts.{
  Platform, context_keys, context_ttls, config_repository, context_stores, server_prober,
  file_scanner, scan_task, recovery_task, worker_pod_launcher, scale_task,
}
use vshift.Contexts.Working.{IsRedisPlatform, context_view, context_stores-IsLawful, Inv}
use vshift.Application.{BackgroundThread, scale_thread, start_background_threads, create_app}

-- No call to what surrounds the process, and no wait, breaks `I`.
pub record IsQuiet {W : Type 0} (platform : Platform W) (I : W → Type 0) : Type 0 where
  pub os_spares : Spares I platform.os
  pub time_keeps : (w : W) → I w → I (platform.folder.time w).1
  pub list_keeps :
      (namespace selector : String)
      → Keeps I (platform.batch.list_namespaced_job namespace selector)
  pub create_keeps :
      (namespace : String) (job : WorkerJob)
      → Keeps I (platform.batch.create_namespaced_job namespace job)
  pub digits_keep : (w : W) → I w → I (platform.batch.uuid_digits w).1
  pub incluster_keeps : Keeps I platform.loaders.load_incluster_config
  pub kube_keeps : Keeps I platform.loaders.load_kube_config
  pub hold_keeps : (w : W) → I w → I (platform.hold_batch_api w)
  pub wait_keeps : (seconds : ℕ) (w : W) → I w → I (platform.wait seconds w).1

module _ {W : Type 0} (platform : Platform W) (settings : ProcessSettings) (I : W → Type 0)
    (Q : IsQuiet platform I) where
  scan_paths-Keeps :
      (seconds now : ℕ) (paths : List FilePath)
      → Keeps I (
          scan_paths platform.folder
            (record { file_stability_seconds = seconds; handler = none; running = false })
            now
            paths)
  unfolding scan_paths lift
  scan_paths-Keeps seconds now [] = Keeps-pure []
  scan_paths-Keeps seconds now (path ∷ paths) = Keeps-bind (Keeps-gets _) λ there.
      Keeps-if _ (scan_paths-Keeps seconds now paths) (
        Keeps-bind (Keeps-states (λ w. lift (platform.folder.stat path w) w) (λ w h. h)) λ stat.
          Keeps-if (not (is_stable stat now seconds)) (scan_paths-Keeps seconds now paths) (
            Keeps-bind (Keeps-pure tt)
              λ _. Keeps-bind (scan_paths-Keeps seconds now paths) (λ others. Keeps-pure _)))

  file_scanner-Keeps :
      (repository : YamlConfigRepository) (dir : FilePath)
      → Keeps I (file_scanner platform settings repository dir)
  unfolding file_scanner poll_scan_once
  file_scanner-Keeps repository dir = Keeps-bind (Keeps-gets _) λ there.
      Keeps-if _ (Keeps-pure []) (
        Keeps-bind (Keeps-call platform.folder.time Q.time_keeps)
          λ now. Keeps-bind (Keeps-gets _) (λ paths. scan_paths-Keeps _ now _))

  abbrev listed : W → Result (List (Option JobStatus)) × W
  listed =
      platform.batch.list_namespaced_job settings.kubernetes.namespace
        (selector_text selector_terms)

  count_state :
      (w : W) → (count_active_workers platform.batch platform.str_int settings w).1 ≡ (listed w).1
  unfolding count_active_workers
  count_state w = elim (Result-cases (listed w).0) [
    | inl (found, e) ↦ ground arith
    | inr (x, e) ↦ ground arith
  ]

  abbrev next_job : W → WorkerJob
  next_job w = build_job platform.str_int settings (build_job_name (platform.batch.uuid_digits w).0)

  abbrev create : W → Result (Unit {0}) × W
  create w =
      platform.batch.create_namespaced_job settings.kubernetes.namespace (next_job w)
        (platform.batch.uuid_digits w).1

  launch_state :
      (w : W) → (launch_worker platform.batch platform.str_int settings w).1 ≡ (create w).1
  unfolding launch_worker
  launch_state w = elim (Result-cases (create w).0) [
    | inl (u, e) ↦ ground arith
    | inr (x, e) ↦ ground arith
  ]

  count_active_workers-Keeps :
      Keeps I (count_active_workers platform.batch platform.str_int settings)
  count_active_workers-Keeps =
      Keeps-states _ (λ w h. subst I (sym (count_state w)) ((Q.list_keeps _ _).keeps w h))

  launch_worker-Keeps : Keeps I (launch_worker platform.batch platform.str_int settings)
  launch_worker-Keeps = Keeps-states _ (λ w h.
      subst I (sym (launch_state w)) ((Q.create_keeps _ (next_job w)).keeps _ (Q.digits_keep w h)))

  load_config-Keeps : Keeps I (load_config platform.loaders settings.kubernetes)
  unfolding load_config
  load_config-Keeps =
      Keeps-bind (Keeps-if settings.kubernetes.in_cluster Q.incluster_keeps Q.kube_keeps)
        config_answer-Keeps
    where
      config_answer-Keeps : (answer : LoadAnswer) → Keeps I (config_answer answer)
      config_answer-Keeps LoadAnswer.loaded = Keeps-pure tt
      config_answer-Keeps (LoadAnswer.config_exception error) = Keeps-raise _

  worker_pod_launcher-Keeps :
      Ensures I
        (worker_pod_launcher platform settings)
        (λ launcher. launcher ≡ pod_launcher platform.batch platform.str_int settings)
  unfolding worker_pod_launcher
  worker_pod_launcher-Keeps =
      Ensures-bind (λ _. Unit) _ _ _ (Keeps-gets platform.has_batch_api)
        λ made _.
          Ensures-bind (λ _. Unit) _ _ _
            (Keeps-if made (Keeps-pure tt) (
              Keeps-bind load_config-Keeps
                (λ _. Ensures-write platform.hold_batch_api Q.hold_keeps)))
            (λ _ _. Ensures-pure _ refl)

module _ {W : Type 0} (platform : Platform W) (settings : ProcessSettings) (model : W → Keyspace)
    (R : IsRedisPlatform platform settings model) (repository : YamlConfigRepository)
    (loaded : config_repository platform settings ≡ ok repository)
    (positive : 1 ≤ get_max_retries repository)
    (Q : IsQuiet platform (Inv platform settings model R repository)) where
  abbrev stores : Stores W
  stores = context_stores platform settings

  abbrev view : W → View
  view = context_view platform settings model R

  abbrev lawful : IsLawful stores view
  lawful = context_stores-IsLawful platform settings model R

  context_stores-IsReading : IsReading stores view
  unfolding context_stores
  context_stores-IsReading =
      redis_stores-IsReading (context_keys settings.queue) platform.codec R.is_uuid_text
        (platform.redis settings.redis) (context_ttls settings.queue) model R.holds_text
        R.is_keyspace

  abbrev Consistent : W → Type 0
  Consistent = Inv platform settings model R repository

  scan_task-Keeps : (w : W) → Consistent w → Consistent (scan_task platform settings w).1
  unfolding scan_task ◌>>=◌
  scan_task-Keeps w c = rw loaded (
      scan_input_folder-IsConsistent stores view lawful (get_max_retries repository) positive
        repository.config (file_scanner platform settings repository)
        (server_prober platform settings)
        (file_scanner-Keeps platform settings Consistent Q repository)
        (media_prober-Keeps platform.os Consistent Q.os_spares settings.ffmpeg.ffprobe_path) none w
        c)

  recovery_task-Keeps : (w : W) → Consistent w → Consistent (recovery_task platform settings w).1
  unfolding recovery_task ◌>>=◌
  recovery_task-Keeps w c = rw loaded (
      recover_stale_jobs-IsConsistent stores view lawful context_stores-IsReading
        (get_max_retries repository) w c)

  pass-Keeps :
      (launcher : WorkerPodLauncher W)
      → launcher ≡ pod_launcher platform.batch platform.str_int settings
      → Keeps Consistent (
          ensure_worker_capacity stores launcher settings.kubernetes.enabled
            settings.kubernetes.max_concurrent_pods)
  unfolding pod_launcher
  pass-Keeps launcher e = Keeps-states _ (
      ensure_worker_capacity-IsConsistent stores view lawful context_stores-IsReading
        (get_max_retries repository) launcher
        (subst (λ l. Keeps Consistent (WorkerPodLauncher.count_active_workers l)) (sym e)
          (count_active_workers-Keeps platform settings Consistent Q))
        (subst (λ l. Keeps Consistent (WorkerPodLauncher.launch_worker l)) (sym e)
          (launch_worker-Keeps platform settings Consistent Q))
        settings.kubernetes.enabled settings.kubernetes.max_concurrent_pods)

  scale_task-Keeps : Keeps Consistent (scale_task platform settings)
  unfolding scale_task
  scale_task-Keeps =
      Ensures-bind _ (λ _. Unit) (worker_pod_launcher platform settings) _
        (worker_pod_launcher-Keeps platform settings Consistent Q) pass-Keeps

  -- A thread ends its rounds without an exception and with consistent stores.
  abbrev pub EndsWell : (rounds : ℕ) → W → BackgroundThread W → Type 0
  EndsWell rounds w thread = ((thread.run rounds w).0 ≡ ok tt) × Consistent (thread.run rounds w).1

  loop_ends :
      {A : Type 0} (task : Exec W A) (seconds rounds : ℕ) (w : W)
      → ((w' : W) → Consistent w' → Consistent (task w').1)
      → Consistent w
      → ((background_loop (platform.wait seconds) task rounds w).0 ≡ ok tt)
        × Consistent (background_loop (platform.wait seconds) task rounds w).1
  loop_ends task seconds rounds w keeps c = (
    background_loop-returns (platform.wait seconds) task rounds w,
    (background_loop-Ensures (platform.wait seconds) Consistent (Q.wait_keeps seconds) task keeps
          rounds).keeps
        w c,
  )

  start_background_threads-EndsWell :
      (rounds : ℕ) (w : W)
      → Consistent w
      → All (EndsWell rounds w) (start_background_threads platform settings)
  unfolding start_background_threads
  start_background_threads-EndsWell rounds w c = (
    loop_ends (scan_task platform settings) _ rounds w scan_task-Keeps c,
    (
      loop_ends (recovery_task platform settings) _ rounds w recovery_task-Keeps c,
      scaling settings.kubernetes.enabled,
    ),
  )
    where
      scaling :
          (enabled : Bool)
          → All (EndsWell rounds w) (if enabled then scale_thread platform settings ∷ [] else [])
      scaling true =
          (loop_ends (scale_task platform settings) _ rounds w scale_task-Keeps.keeps c, tt)
      scaling false = tt

  -- Each thread that the application of the server starts (the scan, the recovery, and the scaling
  -- where Kubernetes is enabled), from consistent stores over Redis, ends any number of rounds
  -- without an exception and with consistent stores. The configuration can be loaded and allows an
  -- attempt, and nothing that surrounds the process breaks the stores.
  pub create_app-EndsWell :
      (background_tasks : Bool) (rounds : ℕ) (w : W)
      → IsConsistent (get_max_retries repository) (view w)
      → All (EndsWell rounds w) (create_app platform settings background_tasks).threads
  unfolding create_app
  create_app-EndsWell true rounds w c = start_background_threads-EndsWell rounds w c
  create_app-EndsWell false rounds w c = tt
