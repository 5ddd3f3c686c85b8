-- ===== src/Server/Keeping.antt =====
-- `RecoverStaleJobs.execute` and `EnsureWorkerCapacity.execute` keep the stores consistent whatever
-- the index lists and whatever the launcher answers.
use vshift.Base.{
  ◌≡◌, ℕ, zero, suc, Bool, true, false, not, List, [], ◌∷◌, All, All-imp, arith, leb, nat_eq,
}
use vshift.Base.Exec.{Exec, pure, gets}
use vshift.Base.Ensures.{
  Ensures, Ensures-pure, Ensures-lift, Ensures-gets, Ensures-call, Ensures-if, Ensures-modify_two,
  Ensures-bind,
}
use vshift.Job.{JobState, pending, claimed, processing, failed, TranscodeJob}
use vshift.Job.Copies.{failed_copy, pending_copy}
use vshift.Ports.{Stores, WorkerPodLauncher}
use vshift.Ports.Contract.{View, IsLawful, IsReading, IsKept}
use vshift.Lifecycle.{IsWellFormed, IsConsistent}
use vshift.Lifecycle.Writes.{transition-Returns, bury_keeps, requeue_keeps, now_keeps}
use vshift.Server.{
  recover_job, recover_next, recover_all, recover_stale_jobs, list_limit, launch_workers,
  ensure_worker_capacity,
}

module _ {W : Type 0} (P : Stores W) (view : W → View) (L : IsLawful P view) (I : IsReading P view)
    (max_retries : ℕ) where
  abbrev Inv : W → Type 0
  Inv w = IsConsistent max_retries (view w)

  recover_job-Ensures :
      (job : TranscodeJob)
      → IsWellFormed max_retries job
      → Ensures Inv (recover_job P max_retries job) (λ _. Unit)
  unfolding recover_job
  recover_job-Ensures job h =
      Ensures-if (leb max_retries job.attempt) _ _
        (λ (spent : leb max_retries job.attempt ≡ true).
          Ensures-bind (λ s. s ≡ failed) _ _ _
            (Ensures-lift _ (transition-Returns job.state failed))
            λ s e.
              Ensures-bind (λ _. Unit) _ _ _
                (Ensures-call P.now (now_keeps P view L max_retries) (λ w c. tt))
                λ now _.
                  let job' = failed_copy job s "worker heartbeat expired" now in
                  let wf : IsWellFormed max_retries job' = ground arith in
                  Ensures-modify_two _ _ _ (λ w. bury_keeps P view L max_retries job' w wf e)
                    (Ensures-pure _ tt))
        (λ (left : leb max_retries job.attempt ≡ false).
          Ensures-bind (λ s. s ≡ pending) _ _ _
            (Ensures-lift _ (transition-Returns job.state pending))
            λ s e.
              let job' = pending_copy job s "worker heartbeat expired; requeued" in
              let wf : IsWellFormed max_retries job' = ground arith in
              Ensures-modify_two _ _ _ (λ w. requeue_keeps P view L max_retries job' w wf e)
                (Ensures-pure _ tt))

  recover_next-Ensures :
      (rest : Exec W (List TranscodeJob)) (job : TranscodeJob) (alive : Bool)
      → IsWellFormed max_retries job
      → Ensures Inv rest (λ _. Unit)
      → Ensures Inv (recover_next P rest max_retries job alive) (λ _. Unit)
  unfolding recover_next
  recover_next-Ensures rest job true h k = k
  recover_next-Ensures rest job false h k =
      Ensures-bind (λ _. Unit) _ _ _ (recover_job-Ensures job h)
        λ updated _. Ensures-bind (λ _. Unit) _ _ _ k (λ recovered _. Ensures-pure _ tt)

  recover_all-Ensures :
      (jobs : List TranscodeJob)
      → All (IsWellFormed max_retries) jobs
      → Ensures Inv (recover_all P max_retries jobs) (λ _. Unit)
  unfolding recover_all
  recover_all-Ensures [] h = Ensures-pure _ tt
  recover_all-Ensures (job ∷ jobs) h =
      Ensures-bind (λ _. Unit) _ _ _ (Ensures-gets _ (λ w c. tt))
        (λ alive _. recover_next-Ensures _ job alive h.0 (recover_all-Ensures jobs h.1))

  listing-IsWellFormed :
      (s : JobState) (w : W)
      → Inv w
      → All (IsWellFormed max_retries) (P.list_by_state s list_limit 0 w)
  listing-IsWellFormed s w c =
      All-imp (IsKept (view w)) (IsWellFormed max_retries) _
        (λ job (id, known). c.well_formed id job known) (I.list_kept s list_limit 0 w)

  -- A recovery keeps the stores consistent, also where a stale index makes it raise half way.
  pub recover_stale_jobs-IsConsistent :
      (w : W)
      → IsConsistent max_retries (view w)
      → IsConsistent max_retries (view (recover_stale_jobs P max_retries w).1)
  unfolding recover_stale_jobs
  recover_stale_jobs-IsConsistent =
      (Ensures-bind (All (IsWellFormed max_retries)) (λ _. Unit)
        (gets (P.list_by_state claimed list_limit 0)) _
        (Ensures-gets _ (listing-IsWellFormed claimed))
        λ claims h.
          Ensures-bind (λ _. Unit) _ _ _ (recover_all-Ensures claims h)
            λ recovered _.
              Ensures-bind (All (IsWellFormed max_retries)) _
                (gets (P.list_by_state processing list_limit 0)) _
                (Ensures-gets _ (listing-IsWellFormed processing))
                λ runs h'.
                  Ensures-bind (λ _. Unit) _ _ _ (recover_all-Ensures runs h')
                    (λ more _. Ensures-pure _ tt)).keeps

  module _ (launcher : WorkerPodLauncher W)
      (count_keeps : Ensures Inv launcher.count_active_workers (λ _. Unit))
      (launch_keeps : Ensures Inv launcher.launch_worker (λ _. Unit)) where
    launch_workers-Ensures : (n : ℕ) → Ensures Inv (launch_workers P launcher n) (λ _. Unit)
    unfolding launch_workers
    launch_workers-Ensures zero = Ensures-pure _ tt
    launch_workers-Ensures (suc n) =
        Ensures-bind (λ _. Unit) _ _ _ launch_keeps
          λ pod _.
            Ensures-bind (λ _. Unit) _ _ _ (launch_workers-Ensures n)
              (λ launched _. Ensures-pure _ tt)

    -- A capacity pass keeps the stores consistent if the launcher does.
    pub ensure_worker_capacity-IsConsistent :
        (enabled : Bool) (max_pods : ℕ) (w : W)
        → IsConsistent max_retries (view w)
        → IsConsistent max_retries (view (ensure_worker_capacity P launcher enabled max_pods w).1)
    unfolding ensure_worker_capacity
    ensure_worker_capacity-IsConsistent enabled max_pods =
        (Ensures-if (not enabled) (pure []) _ (λ _. Ensures-pure _ tt)
          λ _.
            Ensures-bind (λ _. Unit) _ _ _ (Ensures-gets P.depth (λ w c. tt))
              λ queue_depth _.
                Ensures-if (leb queue_depth 0) (pure []) _ (λ _. Ensures-pure _ tt)
                  λ _.
                    Ensures-bind (λ _. Unit) _ _ _ count_keeps
                      (λ active_workers _. launch_workers-Ensures _)).keeps
