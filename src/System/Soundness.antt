-- ===== src/System/Soundness.antt =====
-- Whatever the processes do in whatever order, the stores stay consistent and every job that a
-- worker holds is well formed.
use vshift.Base.{
  ◌≡◌, refl, subst, ℕ, ◌≤◌, String, Bool, true, false, Option, none, some, arith, nat_eq, ◌==◌,
  if◌then◌else◌,
}
use vshift.Base.Exec.{Result, ok, err, Exec, vshift_exception, other}
use vshift.Base.Ensures.{Ensures, Returns, Ensures-gets, Ensures-bind}
use vshift.Base.FilePath.{FilePath}
use vshift.Config.Settings.{VshiftConfig}
use vshift.Job.{Uuid, processing, TranscodeJob}
use vshift.Ports.{Stores, Transcoder, MediaProber, FileScanner, WorkerPodLauncher}
use vshift.Ports.Contract.{View, IsLawful, IsReading}
use vshift.Lifecycle.{IsWellFormed, IsConsistent}
use vshift.Server.Enqueueing.{scan_input_folder-IsConsistent}
use vshift.Server.Keeping.{recover_stale_jobs-IsConsistent, ensure_worker_capacity-IsConsistent}
use vshift.Worker.Cycle.{
  All?, IsSteady, claim_job-Ensures, start_transcode-Ensures, write_summary-Ensures,
  handle_job_failure-Ensures, stored-IsWellFormed,
}
use vshift.System.{
  Phase, System, Step, Reach, act, after_claim, after_stage, after_report, report_failure, drop_job,
  drop_beat,
}

module _ (max_retries : ℕ) where
  -- The jobs that a worker holds are well formed.
  abbrev pub IsSoundPhase : Phase → Type 0
  IsSoundPhase Phase.idle = Unit
  IsSoundPhase (Phase.holding job) = IsWellFormed max_retries job
  IsSoundPhase (Phase.running job started) =
      IsWellFormed max_retries job × IsWellFormed max_retries started
  IsSoundPhase (Phase.transcoded job started result) =
      IsWellFormed max_retries job × IsWellFormed max_retries started
  IsSoundPhase (Phase.failing job message) = IsWellFormed max_retries job
  IsSoundPhase Phase.stopped = Unit

  drop_job-IsConsistent :
      (v : View) (id : Uuid) → IsConsistent max_retries v → IsConsistent max_retries (drop_job id v)
  drop_job-IsConsistent v id c = record {
    keyed = λ k j e. ground (arith, c.keyed k j);
    well_formed = λ k j e. ground (arith, c.well_formed k j);
    queued = λ k j e s. ground (arith, c.queued k j);
    buried = λ k j e s. ground (arith, c.buried k j);
  }

  drop_beat-IsConsistent :
      (v : View) (id : Uuid)
      → IsConsistent max_retries v
      → IsConsistent max_retries (drop_beat id v)
  drop_beat-IsConsistent v id c = record {
    keyed = c.keyed;
    well_formed = c.well_formed;
    queued = c.queued;
    buried = c.buried;
  }

  after_claim_lem :
      (r : Result (Option TranscodeJob))
      → Returns r (All? (IsWellFormed max_retries))
      → IsSoundPhase (after_claim r)
  after_claim_lem (ok none) q = tt
  after_claim_lem (ok (some job)) q = q
  after_claim_lem (err e) q = tt

  after_stage_lem :
      {A : Type 0} (Q : A → Type 0) (job : TranscodeJob) (next : A → Phase)
      → IsWellFormed max_retries job
      → ((a : A) → Q a → IsSoundPhase (next a))
      → (r : Result A) → Returns r Q
      → IsSoundPhase (after_stage job next r)
  after_stage_lem Q job next h k (ok a) q = k a q
  after_stage_lem Q job next h k (err (vshift_exception message)) q = h
  after_stage_lem Q job next h k (err (other x)) q = tt

  after_report_lem :
      (r : Result TranscodeJob) → Returns r (λ _. Unit) → IsSoundPhase (after_report r)
  after_report_lem (ok job) q = tt
  after_report_lem (err e) q = tt

module _ {W : Type 0} (P : Stores W) (view : W → View) (L : IsLawful P view) (max_retries : ℕ) where
  abbrev Inv : W → Type 0
  Inv w = IsConsistent max_retries (view w)

  abbrev pub IsSound : System W → Type 0
  IsSound s = Inv s.world × ((u : Uuid) → IsSoundPhase max_retries (s.phase u))

  put_phase_sound :
      (u : Uuid) (p : Phase) (s : System W)
      → IsSoundPhase max_retries p
      → ((v : Uuid) → IsSoundPhase max_retries (s.phase v))
      → (v : Uuid) → IsSoundPhase max_retries (if v == u then p else s.phase v)
  put_phase_sound u p s h k v = branch (v == u)
    where
      branch : (b : Bool) → IsSoundPhase max_retries (if b then p else s.phase v)
      branch true = h
      branch false = k v

  act-IsSound :
      {A : Type 0} (Q : A → Type 0) (u : Uuid) (m : Exec W A) (after : Result A → Phase)
      (s : System W)
      → Ensures Inv m Q
      → ((r : Result A) → Returns r Q → IsSoundPhase max_retries (after r))
      → IsSound s
      → IsSound (act u m after s)
  act-IsSound Q u m after s e k (c, h) =
      (e.keeps s.world c, put_phase_sound u (after (m s.world).0) s (k _ (e.returns s.world c)) h)

  -- What a worker in this phase holds is well formed.
  phase_sound :
      (u : Uuid) (p : Phase) (s : System W) → s.phase u ≡ p → IsSound s → IsSoundPhase max_retries p
  phase_sound u p s e (c, h) = subst (IsSoundPhase max_retries) e (h u)

  report_failure-Ensures :
      (u : Uuid) (T : Transcoder W) (steady : IsSteady P view L max_retries T) (job : TranscodeJob)
      (message : String)
      → IsWellFormed max_retries job
      → Ensures Inv (report_failure P u max_retries job message) (λ _. Unit)
  unfolding report_failure
  report_failure-Ensures u T steady job message h =
      Ensures-bind (IsWellFormed max_retries) _ _ _
        (Ensures-gets _ (λ w. stored-IsWellFormed P view L max_retries u T steady job w _ h refl))
        (λ stored q. handle_job_failure-Ensures P view L max_retries u stored message q)

  module _ (T : Transcoder W) (config : VshiftConfig) (scan_once : FileScanner W)
      (probe : MediaProber W) (launcher : WorkerPodLauncher W) (reading : IsReading P view)
      (positive : 1 ≤ max_retries) (steady : IsSteady P view L max_retries T)
      (scan_keeps : (dir : FilePath) → Ensures Inv (scan_once dir) (λ _. Unit))
      (probe_keeps : (path : FilePath) → Ensures Inv (probe path) (λ _. Unit))
      (count_keeps : Ensures Inv launcher.count_active_workers (λ _. Unit))
      (launch_keeps : Ensures Inv launcher.launch_worker (λ _. Unit)) where
    step-IsSound :
        {s t : System W}
        → Step P view max_retries T config scan_once probe launcher s t
        → IsSound s
        → IsSound t
    step-IsSound (Step.claim u timeout s e) i =
        act-IsSound (All? (IsWellFormed max_retries)) u _ after_claim s
          (claim_job-Ensures P view L max_retries u T steady timeout) (after_claim_lem max_retries)
          i
    step-IsSound (Step.start u job s e) i =
        let h = phase_sound u (Phase.holding job) s e i in
        act-IsSound (λ j. IsWellFormed max_retries j × (j.state ≡ processing)) u _ _ s
          (start_transcode-Ensures P view L max_retries u job h)
          (after_stage_lem max_retries _ job (Phase.running job) h (λ j q. (h, q.0))) i
    step-IsSound (Step.transcode u job started s e) i =
        let h = phase_sound u (Phase.running job started) s e i in
        act-IsSound (λ _. Unit) u _ _ s (steady.transcode_keeps started)
          (after_stage_lem max_retries _ job (Phase.transcoded job started) h.0 (λ result q. h)) i
    step-IsSound (Step.finish u job started result s e) i =
        let h = phase_sound u (Phase.transcoded job started result) s e i in
        act-IsSound (λ _. Unit) u _ _ s
          (write_summary-Ensures P view L max_retries T started result steady h.1)
          (after_stage_lem max_retries _ job (λ _. Phase.idle) h.0 (λ summary q. tt)) i
    step-IsSound (Step.report u job message s e) i =
        act-IsSound (λ _. Unit) u _ after_report s
          (report_failure-Ensures u T steady job message
            (phase_sound u (Phase.failing job message) s e i))
          (after_report_lem max_retries) i
    step-IsSound (Step.crash u s) (c, h) = (c, put_phase_sound u Phase.stopped s tt h)
    step-IsSound (Step.register info s) (c, h) = (rw (L.register_lem info s.world) c, h)
    step-IsSound (Step.heartbeat u s) (c, h) = (rw (L.heartbeat_lem u s.world) c, h)
    step-IsSound (Step.deregister u s) (c, h) = (rw (L.deregister_lem u s.world) c, h)
    step-IsSound (Step.scan dir s) (c, h) = (
      scan_input_folder-IsConsistent P view L max_retries positive config scan_once probe scan_keeps
          probe_keeps dir s.world c,
      h,
    )
    step-IsSound (Step.recover s) (c, h) =
        (recover_stale_jobs-IsConsistent P view L reading max_retries s.world c, h)
    step-IsSound (Step.scale enabled max_pods s) (c, h) = (
      ensure_worker_capacity-IsConsistent P view L reading max_retries launcher count_keeps
          launch_keeps enabled max_pods s.world c,
      h,
    )
    step-IsSound (Step.expire_job id w s e) (c, h) =
        (rw e (drop_job-IsConsistent max_retries (view s.world) id c), h)
    step-IsSound (Step.expire_beat id w s e) (c, h) =
        (rw e (drop_beat-IsConsistent max_retries (view s.world) id c), h)

    -- In every state that the processes reach from a sound one, the stores are consistent and each
    -- worker's job is well formed: however the stages of the workers and the tasks of the server
    -- interleave, wherever workers crash between stages, and whichever records and heartbeats
    -- expire. ffmpeg, ffprobe, the scanner and the launcher keep the stores consistent, and a job
    -- has at least one attempt.
    pub Reach-IsSound :
        {s t : System W}
        → IsSound s
        → Reach P view max_retries T config scan_once probe launcher s t
        → IsSound t
    Reach-IsSound h Reach.here = h
    Reach-IsSound h (Reach.next r step) = step-IsSound step (Reach-IsSound h r)
