-- ===== src/Server/Recovery.antt =====
-- `RecoverStaleJobs.execute`: which jobs it takes back, which it spares, and what it keeps.
use vshift.Base.{
  ◌≡◌, refl, subst, ℕ, Bool, true, false, none, List, [], ◌∷◌, arith, Bool-cases, inl, inr, ◌⊎◌,
  All, All-imp, All-append, nat_eq, leb,
}
use vshift.Base.Exec.{Exec, ok, gets}
use vshift.Base.Succeeds.{
  Succeeds, Succeeds-pure, Succeeds-gets, Succeeds-call, Succeeds-lift, Succeeds-modify_two,
  Succeeds-bind,
}
use vshift.Job.{JobState, pending, claimed, processing, failed, TranscodeJob}
use vshift.Job.Transitions.{requeue_ok, fail_ok}
use vshift.Job.Copies.{failed_copy, pending_copy}
use vshift.Ports.{Stores}
use vshift.Ports.Contract.{View, IsLawful, IsListing, IsListed}
use vshift.Lifecycle.{IsWellFormed, IsConsistent, IsIndexed}
use vshift.Lifecycle.Preservation.{put_job-IsIndexed}
use vshift.Server.{recover_job, recover_next, recover_all, recover_stale_jobs, list_limit}
use vshift.Lifecycle.Writes.{bury_keeps, requeue_keeps, now_keeps}

-- A job that a recovery has taken from its worker.
abbrev pub IsRecovered : TranscodeJob → Type 0
IsRecovered job = ((job.state ≡ pending) ⊎ (job.state ≡ failed)) × (job.worker_id ≡ none)

module _ {W : Type 0} (P : Stores W) (view : W → View) (L : IsLawful P view) (I : IsListing P view)
    (max_retries : ℕ) where
  -- Consistent and tidy stores with an exact index.
  abbrev Sound : W → Type 0
  Sound w = IsConsistent max_retries (view w) × IsIndexed (view w) × I.IsTidy w

  -- A job that the table allows to take back.
  abbrev IsHeld : TranscodeJob → Type 0
  IsHeld job = IsWellFormed max_retries job × ((job.state ≡ claimed) ⊎ (job.state ≡ processing))

  enqueue-IsIndexed :
      (job : TranscodeJob) (w : W)
      → IsIndexed (view w)
      → IsIndexed (view (P.enqueue job.id (P.save job w)))
  enqueue-IsIndexed job w x =
      let y = put_job-IsIndexed (view w) job x in
      rw (L.enqueue_lem, L.save_lem)
        record { listed = y.listed; listed_once = y.listed_once; unlisted = y.unlisted }

  push_to_dead_letter-IsIndexed :
      (job : TranscodeJob) (w : W)
      → IsIndexed (view w)
      → IsIndexed (view (P.push_to_dead_letter job.id (P.save job w)))
  push_to_dead_letter-IsIndexed job w x =
      let y = put_job-IsIndexed (view w) job x in
      rw (L.push_to_dead_letter_lem, L.save_lem)
        record { listed = y.listed; listed_once = y.listed_once; unlisted = y.unlisted }

  recover_job-Succeeds :
      (job : TranscodeJob) → IsHeld job → Succeeds Sound (recover_job P max_retries job) IsRecovered
  unfolding recover_job
  recover_job-Succeeds job (h, held) = elim (Bool-cases (leb max_retries job.attempt)) [
    | inl spent ↦ rw spent (
        Succeeds-bind (λ s. s ≡ failed) _ _ _ (Succeeds-lift _ failed (fail_ok job.state held) refl)
          λ s e.
            Succeeds-bind (λ _. Unit) _ _ _
              (Succeeds-call P.now
                (λ w c.
                  (now_keeps P view L max_retries w c.0, rw (L.now_lem w) c.1, I.now_tidy w c.2))
                (λ w c. tt))
              λ now _.
                let job' = failed_copy job s "worker heartbeat expired" now in
                let wf : IsWellFormed max_retries job' = ground arith in
                Succeeds-modify_two _ _ _
                  (λ w c. (
                    bury_keeps P view L max_retries job' w wf e c.0,
                    push_to_dead_letter-IsIndexed job' w c.1,
                    I.push_to_dead_letter_tidy job'.id _ (I.save_tidy job' w c.2),
                  ))
                  (Succeeds-pure _ (inr e, refl)))
    | inr left ↦ rw left (
        Succeeds-bind (λ s. s ≡ pending) _ _ _
          (Succeeds-lift _ pending (requeue_ok job.state held) refl)
          λ s e.
            let job' = pending_copy job s "worker heartbeat expired; requeued" in
            let wf : IsWellFormed max_retries job' = ground arith in
            Succeeds-modify_two _ _ _
              (λ w c. (
                requeue_keeps P view L max_retries job' w wf e c.0,
                enqueue-IsIndexed job' w c.1,
                I.enqueue_tidy job'.id _ (I.save_tidy job' w c.2),
              ))
              (Succeeds-pure _ (inl e, refl)))
  ]

  recover_next-Succeeds :
      (rest : Exec W (List TranscodeJob)) (job : TranscodeJob) (alive : Bool)
      → IsHeld job
      → Succeeds Sound rest (All IsRecovered)
      → Succeeds Sound (recover_next P rest max_retries job alive) (All IsRecovered)
  unfolding recover_next
  recover_next-Succeeds rest job true h k = k
  recover_next-Succeeds rest job false h k =
      Succeeds-bind IsRecovered _ _ _ (recover_job-Succeeds job h)
        λ updated u. Succeeds-bind (All IsRecovered) _ _ _ k (λ recovered r. Succeeds-pure _ (u, r))

  recover_all-Succeeds :
      (jobs : List TranscodeJob)
      → All IsHeld jobs
      → Succeeds Sound (recover_all P max_retries jobs) (All IsRecovered)
  unfolding recover_all
  recover_all-Succeeds [] h = Succeeds-pure _ tt
  recover_all-Succeeds (job ∷ jobs) h =
      Succeeds-bind (λ _. Unit) _ _ _ (Succeeds-gets _ (λ w c. tt))
        (λ alive _. recover_next-Succeeds _ job alive h.0 (recover_all-Succeeds jobs h.1))

  -- A listing of an exact index holds jobs in the state asked for.
  listing-IsHeld :
      (s : JobState) (w : W)
      → (s ≡ claimed) ⊎ (s ≡ processing)
      → Sound w
      → All IsHeld (P.list_by_state s list_limit 0 w)
  listing-IsHeld s w o (c, x, t) =
      All-imp (IsListed (view w) s) IsHeld _
        (λ job (id, under, known).
          let e = x.listed_once id job s known under in
          (c.well_formed id job known, subst (λ u. (u ≡ claimed) ⊎ (u ≡ processing)) e o))
        (I.list_sound s list_limit 0 w t)

  recovery-Succeeds : Succeeds Sound (recover_stale_jobs P max_retries) (All IsRecovered)
  unfolding recover_stale_jobs
  recovery-Succeeds =
      Succeeds-bind (All IsHeld) (All IsRecovered) (gets (P.list_by_state claimed list_limit 0)) _
        (Succeeds-gets _ (λ w. listing-IsHeld claimed w (inl refl)))
        λ claims h.
          Succeeds-bind (All IsRecovered) _ _ _ (recover_all-Succeeds claims h) λ recovered r.
            Succeeds-bind (All IsHeld) _ (gets (P.list_by_state processing list_limit 0)) _
              (Succeeds-gets _ (λ w. listing-IsHeld processing w (inr refl)))
              λ runs h'.
                Succeeds-bind (All IsRecovered) _ _ _ (recover_all-Succeeds runs h')
                  (λ more r'. Succeeds-pure _ (All-append IsRecovered recovered more r r'))

  -- From consistent and tidy stores with an exact index a recovery never raises: it returns jobs
  -- that are pending or failed and have no worker, and leaves consistent and tidy stores with an
  -- exact index.
  pub recover_stale_jobs-Succeeds :
      (w : W)
      → IsConsistent max_retries (view w)
      → IsIndexed (view w)
      → I.IsTidy w
      → (jobs : List TranscodeJob) × (w' : W) × (recover_stale_jobs P max_retries w ≡ (ok jobs, w'))
        × All IsRecovered jobs
        × IsConsistent max_retries (view w')
        × IsIndexed (view w')
        × I.IsTidy w'
  recover_stale_jobs-Succeeds w c x t =
      let (jobs, w', e, recovered, sound) = recovery-Succeeds w (c, x, t) in
      (jobs, w', e, recovered, sound.0, sound.1, sound.2)
