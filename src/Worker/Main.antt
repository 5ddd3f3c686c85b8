-- ===== src/Worker/Main.antt =====
-- src/vshift/application/worker/main.py and use_cases/register_worker.py: the registration of a
-- worker process and the loop of its rounds. What the host and ffmpeg tell of themselves, the order of texts and the
-- stop event are parameters.
use vshift.Base.{
  ◌≡◌, ℕ, zero, suc, String, Bool, false, Option, none, some, List, [], if◌then◌else◌,
}
use vshift.Base.Exec.{Result, Exec, pure, lift, gets, call, modify, ◌>>=◌, ◌>>◌}
use vshift.Base.Ensures.{
  Ensures, Ensures-pure, Ensures-lift, Ensures-gets, Ensures-call, Ensures-if, Ensures-modify,
  Ensures-bind, Returns-anything,
}
use vshift.Base.Sorting.{sorted}
use vshift.Job.{Uuid, TranscodeJob}
use vshift.Workers.{WorkerInfo, WorkerStatus}
use vshift.Ports.{Stores, Transcoder}
use vshift.Ports.Contract.{View, IsLawful}
use vshift.Lifecycle.{IsConsistent}
use vshift.Lifecycle.Writes.{now_keeps}
use vshift.Worker.{process_next_job}
use vshift.Worker.Cycle.{IsSteady, process_next_job-Ensures}

-- What `socket`, `sys`, `platform` and ffmpeg report.
pub record HostReport : Type 0 where
  pub hostname : String
  pub platform : String
  pub architecture : String
  pub ffmpeg_version : Result String
  pub text_before : String → String → Bool

-- The stop event: whether a signal has set it, and a wait for it that says so.
pub record StopEvent (W : Type 0) : Type 0 where
  pub is_set : W → Bool
  pub wait : W → Bool × W

module _ {W : Type 0} (P : Stores W) (worker_id : Uuid) where
  -- `RegisterWorker.execute`
  unfoldable pub register_worker :
      HostReport → (available_encoders : List String) → Exec W WorkerInfo
  register_worker host available_encoders = do
    now ← call P.now
    version ← lift host.ffmpeg_version
    let worker : WorkerInfo = record {
      worker_id = worker_id;
      hostname = host.hostname;
      created_at = now;
      last_seen_at = now;
      status = WorkerStatus.idle;
      capabilities = record {
        ffmpeg_version = version;
        encoders = sorted host.text_before available_encoders;
        max_concurrent_jobs = 1;
      };
      hardware = record {
        platform = host.platform;
        architecture = host.architecture;
        cpu_model = none;
        cpu_cores = none;
        memory_total_bytes = none;
        gpu_devices = [];
      };
    }
    modify (P.register worker)
    pure worker

  module _ (max_retries : ℕ) (T : Transcoder W) (timeout : ℕ) (stop : StopEvent W) where
    -- `job is None and stop_event.wait(idle_sleep)`
    abbrev pub idle_break : Option TranscodeJob → Exec W Bool
    idle_break none = call stop.wait
    idle_break (some job) = pure false

    -- The loop of `main`, for at most so many rounds.
    unfoldable pub run_loop : (rounds : ℕ) → Exec W Unit
    run_loop zero = pure tt
    run_loop (suc rounds) = do
      stopped ← gets stop.is_set
      let rest = run_loop rounds
      if stopped then pure tt else do
        job ← process_next_job P worker_id max_retries T timeout
        modify (P.heartbeat worker_id)
        leave ← idle_break job
        if leave then pure tt else rest

module _ {W : Type 0} (P : Stores W) (view : W → View) (L : IsLawful P view) (max_retries : ℕ)
    (worker : Uuid) where
  pub register_worker-Ensures :
      (host : HostReport) (available_encoders : List String)
      → Ensures
          (λ w. IsConsistent max_retries (view w))
          (register_worker P worker host available_encoders)
          (λ _. Unit)
  unfolding register_worker
  register_worker-Ensures host available_encoders =
      Ensures-bind (λ _. Unit) _ _ _
        (Ensures-call P.now (now_keeps P view L max_retries) (λ w c. tt))
        λ now _.
          Ensures-bind (λ _. Unit) _ _ _ (Ensures-lift _ (Returns-anything _))
            λ version _. Ensures-modify _ _ (λ w c. rw (L.register_lem _ w) c) (Ensures-pure _ tt)

module _ {W : Type 0} (P : Stores W) (view : W → View) (L : IsLawful P view) (max_retries : ℕ)
    (worker : Uuid) (T : Transcoder W) (steady : IsSteady P view L max_retries T) (timeout : ℕ)
    (stop : StopEvent W) (waits : (w : W) → view (stop.wait w).1 ≡ view w) where
  abbrev Inv : W → Type 0
  Inv w = IsConsistent max_retries (view w)

  pub idle_break-Ensures :
      (job : Option TranscodeJob)
      → Ensures Inv (idle_break P worker max_retries T timeout stop job) (λ _. Unit)
  idle_break-Ensures none = Ensures-call stop.wait (λ w c. rw (waits w) c) (λ w c. tt)
  idle_break-Ensures (some job) = Ensures-pure false tt

  pub run_loop-Ensures :
      (rounds : ℕ) → Ensures Inv (run_loop P worker max_retries T timeout stop rounds) (λ _. Unit)
  unfolding run_loop
  run_loop-Ensures zero = Ensures-pure tt tt
  run_loop-Ensures (suc rounds) =
      Ensures-bind (λ _. Unit) _ _ _ (Ensures-gets stop.is_set (λ w c. tt))
        λ stopped _.
          Ensures-if stopped (pure tt) _ (λ _. Ensures-pure tt tt)
            λ _.
              Ensures-bind (λ _. Unit) _ _ _
                (process_next_job-Ensures P view L max_retries worker T steady timeout)
                λ job _.
                  Ensures-modify _ _ (λ w c. rw (L.heartbeat_lem worker w) c)
                    (Ensures-bind (λ _. Unit) _ _ _ (idle_break-Ensures job)
                      λ leave _.
                        Ensures-if leave (pure tt) _ (λ _. Ensures-pure tt tt)
                          (λ _. run_loop-Ensures rounds))
