-- ===== src/Server/Sparing.antt =====
-- `RecoverStaleJobs.execute`: what a pass leaves alone. A property of the state is kept if it is
-- kept whenever a job that the pass may take back is saved and queued or buried.
use vshift.Base.{
  ◌≡◌, refl, ◌≢◌, ◌⊎◌, inl, inr, ℕ, Bool, true, false, List, [], ◌∷◌, All, All-always, arith,
  nat_eq, leb,
}
use vshift.Base.Exec.{Exec}
use vshift.Base.Ensures.{
  Ensures, Returns-anything, Ensures-pure, Ensures-lift, Ensures-gets, Ensures-call, Ensures-if,
  Ensures-modify_two, Ensures-bind,
}
use vshift.Job.{Uuid, JobState, claimed, processing, TranscodeJob}
use vshift.Job.Copies.{failed_copy, pending_copy}
use vshift.Ports.{Stores}
use vshift.Ports.Contract.{View, IsLawful, put_job, put_queue, put_dead}
use vshift.Server.{list_limit, recover_job, recover_next, recover_all, recover_stale_jobs}

module _ {W : Type 0} (P : Stores W) (view : W → View) (L : IsLawful P view) (max_retries : ℕ) where
  module _ (Kept : W → Type 0) (Aside : Uuid → Type 0)
      (requeued : (job : TranscodeJob) (w : W)
        → Aside job.id
        → Kept w
        → Kept (P.enqueue job.id (P.save job w)))
      (buried : (job : TranscodeJob) (w : W)
        → Aside job.id
        → Kept w
        → Kept (P.push_to_dead_letter job.id (P.save job w)))
      (clock : (w : W) → Kept w → Kept (P.now w).1) where
    -- A job that the pass may take back, if its heartbeat has expired.
    abbrev pub IsFree : TranscodeJob → Type 0
    IsFree job = (w : W) → Kept w → (view w).alive job.id ≡ false → Aside job.id

    recover_job-Kept :
        (job : TranscodeJob)
        → Aside job.id
        → Ensures Kept (recover_job P max_retries job) (λ _. Unit)
    unfolding recover_job
    recover_job-Kept job aside =
        Ensures-if (leb max_retries job.attempt) _ _
          (λ (spent : leb max_retries job.attempt ≡ true).
            Ensures-bind (λ _. Unit) _ _ _ (Ensures-lift _ (Returns-anything _))
              λ s _.
                Ensures-bind (λ _. Unit) _ _ _ (Ensures-call P.now clock (λ w h. tt))
                  λ now _.
                    Ensures-modify_two _ _ _
                      (λ w. buried (failed_copy job s "worker heartbeat expired" now) w aside)
                      (Ensures-pure _ tt))
          (λ (left : leb max_retries job.attempt ≡ false).
            Ensures-bind (λ _. Unit) _ _ _ (Ensures-lift _ (Returns-anything _))
              λ s _.
                Ensures-modify_two _ _ _
                  (λ w. requeued (pending_copy job s "worker heartbeat expired; requeued") w aside)
                  (Ensures-pure _ tt))

    recover_next-Kept :
        (rest : Exec W (List TranscodeJob)) (job : TranscodeJob) (alive : Bool)
        → (alive ≡ false → Aside job.id)
        → Ensures Kept rest (λ _. Unit)
        → Ensures Kept (recover_next P rest max_retries job alive) (λ _. Unit)
    unfolding recover_next
    recover_next-Kept rest job true aside k = k
    recover_next-Kept rest job false aside k =
        Ensures-bind (λ _. Unit) _ _ _ (recover_job-Kept job (aside refl))
          λ updated _. Ensures-bind (λ _. Unit) _ _ _ k (λ recovered _. Ensures-pure _ tt)

    recover_all-Kept :
        (jobs : List TranscodeJob)
        → All IsFree jobs
        → Ensures Kept (recover_all P max_retries jobs) (λ _. Unit)
    unfolding recover_all
    recover_all-Kept [] free = Ensures-pure _ tt
    recover_all-Kept (job ∷ jobs) free =
        Ensures-bind (λ alive. alive ≡ false → Aside job.id) _ _ _
          (Ensures-gets _ (λ w h dead. free.0 w h (ground (arith, L.is_job_alive_lem job.id w))))
          (λ alive aside. recover_next-Kept _ job alive aside (recover_all-Kept jobs free.1))

    pub recover_stale_jobs-Kept :
        ((s : JobState) (w : W)
          → (s ≡ claimed) ⊎ (s ≡ processing)
          → Kept w
          → All IsFree (P.list_by_state s list_limit 0 w))
        → Ensures Kept (recover_stale_jobs P max_retries) (λ _. Unit)
    unfolding recover_stale_jobs
    recover_stale_jobs-Kept free =
        Ensures-bind (All IsFree) _ _ _ (Ensures-gets _ (λ w. free claimed w (inl refl)))
          λ claims c.
            Ensures-bind (λ _. Unit) _ _ _ (recover_all-Kept claims c)
              λ recovered _.
                Ensures-bind (All IsFree) _ _ _ (Ensures-gets _ (λ w. free processing w (inr refl)))
                  λ runs r.
                    Ensures-bind (λ _. Unit) _ _ _ (recover_all-Kept runs r)
                      (λ more _. Ensures-pure _ tt)

  -- A job whose heartbeat has not expired stands after a recovery as it stood before.
  pub recover_stale_jobs-spares :
      (id : Uuid) (w : W)
      → (view w).alive id ≡ true
      → (view (recover_stale_jobs P max_retries w).1).jobs id ≡ (view w).jobs id
  recover_stale_jobs-spares id w alive =
      let Spared = λ (v : View). (v.alive id ≡ true) × (v.jobs id ≡ (view w).jobs id) in
      let requeue = λ (job : TranscodeJob) (v : W) (ne : job.id ≢ id) (h : Spared (view v)).
        requeued_spares job v ne h in
      let bury = λ (job : TranscodeJob) (v : W) (ne : job.id ≢ id) (h : Spared (view v)).
        buried_spares job v ne h in
      let clock = λ (v : W) (h : Spared (view v)). now_spares v h in
      ((recover_stale_jobs-Kept (λ v. Spared (view v)) (λ other. other ≢ id) requeue bury clock
          (λ s w' which h.
            All-always (IsFree (λ v. Spared (view v)) (λ other. other ≢ id) requeue bury clock)
              (λ job w'' kept dead same. ground arith) _)).keeps
        w (alive, refl)).1
    where
      Spares : W → Type 0
      Spares v = ((view v).alive id ≡ true) × ((view v).jobs id ≡ (view w).jobs id)

      requeued_spares :
          (job : TranscodeJob) (v : W)
          → job.id ≢ id
          → Spares v
          → Spares (P.enqueue job.id (P.save job v))
      requeued_spares job v ne h =
          let after : view (P.enqueue job.id (P.save job v))
              ≡ put_queue job.id (put_job job (view v)) =
            simp (L.enqueue_lem, L.save_lem) in
          ground arith

      buried_spares :
          (job : TranscodeJob) (v : W)
          → job.id ≢ id
          → Spares v
          → Spares (P.push_to_dead_letter job.id (P.save job v))
      buried_spares job v ne h =
          let after : view (P.push_to_dead_letter job.id (P.save job v))
              ≡ put_dead job.id (put_job job (view v)) =
            simp (L.push_to_dead_letter_lem, L.save_lem) in
          ground arith

      now_spares : (v : W) → Spares v → Spares (P.now v).1
      now_spares v h = ground (arith, L.now_lem v)
