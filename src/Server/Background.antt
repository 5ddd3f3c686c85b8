-- ===== src/Server/Background.antt =====
-- src/vshift/infrastructure/api/background.py: the loops of the server's background threads, each
-- for at most so many rounds. The stop event is a parameter: a wait returns whether it is set.
use vshift.Base.{◌≡◌, refl, ℕ, zero, suc, Bool, true, false, none, if◌then◌else◌}
use vshift.Base.Exec.{ok, Exec, pure, call, ◌>>=◌, ◌>>◌}
use vshift.Base.Ensures.{Ensures, Ensures-pure, Ensures-call, Ensures-if, Ensures-bind}
use vshift.Config.Settings.{VshiftConfig}
use vshift.Ports.{Stores, MediaProber, FileScanner, WorkerPodLauncher}
use vshift.Server.{recover_stale_jobs, scan_input_folder, ensure_worker_capacity}

-- `try: task() except Exception: logger.exception(...)`
unfoldable pub guarded : {W A : Type 0} → Exec W A → Exec W Unit
guarded task w = let (r, w') = task w in (ok tt, w')

module _ {W : Type 0} (wait : W → Bool × W) where
  -- `while not stop_event.wait(interval_seconds)`
  unfoldable pub background_loop : {A : Type 0} → Exec W A → (rounds : ℕ) → Exec W Unit
  unfolding guarded
  background_loop task zero = pure tt
  background_loop task (suc rounds) = do
    stopped ← call wait
    let rest = background_loop task rounds
    if stopped then pure tt else do guarded task; rest

  module _ (P : Stores W) where
    -- `_run_scan_loop`
    unfoldable pub run_scan_loop :
        FileScanner W → MediaProber W → VshiftConfig → (rounds : ℕ) → Exec W Unit
    unfolding background_loop
    run_scan_loop scan_once probe config =
        background_loop (scan_input_folder P scan_once probe config none)

    -- `_run_recovery_loop`
    unfoldable pub run_recovery_loop : (max_retries rounds : ℕ) → Exec W Unit
    unfolding background_loop
    run_recovery_loop max_retries = background_loop (recover_stale_jobs P max_retries)

    -- `_run_worker_scale_loop`
    unfoldable pub run_worker_scale_loop :
        WorkerPodLauncher W → (enabled : Bool) → (max_pods rounds : ℕ) → Exec W Unit
    unfolding background_loop
    run_worker_scale_loop launcher enabled max_pods =
        background_loop (ensure_worker_capacity P launcher enabled max_pods)

  background_loop-after :
      {A : Type 0} (task : Exec W A) (rounds : ℕ) (stopped : Bool) (w : W)
      → ((w' : W) → (background_loop task rounds w').0 ≡ ok tt)
      → ((if stopped then pure tt else (guarded task >> background_loop task rounds)) w).0 ≡ ok tt
  unfolding ◌>>=◌ guarded
  background_loop-after task rounds true w h = refl
  background_loop-after task rounds false w h = h (task w).1

  -- A background loop ends in its thread without an exception, after any number of rounds: what a
  -- task raises ends that round only.
  pub background_loop-returns :
      {A : Type 0} (task : Exec W A) (rounds : ℕ) (w : W)
      → (background_loop task rounds w).0 ≡ ok tt
  unfolding background_loop ◌>>=◌
  background_loop-returns task zero w = refl
  background_loop-returns task (suc rounds) w =
      background_loop-after task rounds (wait w).0 (wait w).1 (background_loop-returns task rounds)

  -- What every round of a task keeps, its loop keeps.
  module _ (I : W → Type 0) (waits : (w : W) → I w → I (wait w).1) {A : Type 0} (task : Exec W A)
      (keeps : (w : W) → I w → I (task w).1) where
    guarded-Ensures : Ensures I (guarded task) (λ _. Unit)
    unfolding guarded
    guarded-Ensures = record { keeps = keeps; returns = λ w h. tt }

    pub background_loop-Ensures : (rounds : ℕ) → Ensures I (background_loop task rounds) (λ _. Unit)
    unfolding background_loop
    background_loop-Ensures zero = Ensures-pure _ tt
    background_loop-Ensures (suc rounds) =
        Ensures-bind (λ _. Unit) _ _ _ (Ensures-call wait waits (λ w h. tt))
          λ stopped _.
            Ensures-if stopped (pure tt) _ (λ _. Ensures-pure tt tt)
              λ _.
                Ensures-bind (λ _. Unit) _ _ _ guarded-Ensures
                  (λ _ _. background_loop-Ensures rounds)
