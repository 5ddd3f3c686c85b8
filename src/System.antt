-- ===== src/System.antt =====
-- The processes together: the server's tasks, the workers and what expires in Redis, as steps that
-- interleave. A round of a worker is cut where it waits: after its claim, after its start, after
-- ffmpeg and after a failure any other process may step, and the worker may crash there.
pub mod Soundness
use vshift.Base.{◌≡◌, ℕ, String, Bool, Option, none, some, nat_eq, ◌==◌, if◌then◌else◌}
use vshift.Base.Exec.{Result, ok, err, Exec, vshift_exception, other, gets, ◌>>=◌}
use vshift.Base.FilePath.{FilePath}
use vshift.Config.Settings.{VshiftConfig}
use vshift.Job.{Uuid, TranscodeJob, TranscodeResult}
use vshift.Ports.{Stores, Transcoder, MediaProber, FileScanner, WorkerPodLauncher}
use vshift.Ports.Contract.{View}
use vshift.Server.{scan_input_folder, recover_stale_jobs, ensure_worker_capacity}
use vshift.Worker.{claim_job, start_transcode, write_summary, handle_job_failure}
use vshift.Workers.{WorkerInfo}

-- Where a worker stands in `ProcessNextJob.execute`: the job as it was claimed, the job as it was
-- started, what ffmpeg returned, or the message of the failure to report.
pub data Phase : Type 0 where
  idle : Phase
  holding : (job : TranscodeJob) → Phase
  running : (job started : TranscodeJob) → Phase
  transcoded : (job started : TranscodeJob) (result : TranscodeResult) → Phase
  failing : (job : TranscodeJob) (message : String) → Phase
  stopped : Phase

pub record System (W : Type 0) : Type 0 where
  pub world : W
  pub phase : Uuid → Phase

abbrev pub after_claim : Result (Option TranscodeJob) → Phase
after_claim (ok none) = Phase.idle
after_claim (ok (some job)) = Phase.holding job
after_claim (err e) = Phase.stopped

-- `except VShiftException` begins the report of a failure, and any other exception ends the worker.
abbrev pub after_stage {ℓ} : {A : Type ℓ} (job : TranscodeJob) (next : A → Phase) → Result A → Phase
after_stage job next (ok a) = next a
after_stage job next (err (vshift_exception message)) = Phase.failing job message
after_stage job next (err (other x)) = Phase.stopped

abbrev pub after_report : Result TranscodeJob → Phase
after_report (ok job) = Phase.idle
after_report (err e) = Phase.stopped

-- A worker does an action and goes on to what follows its result.
abbrev pub act :
    {W A : Type 0} (u : Uuid) → Exec W A → (after : Result A → Phase) → System W → System W
act u m after s =
    let (r, w) = m s.world in
    record { world = w; phase = λ v. if v == u then after r else s.phase v }

-- Another process does an action.
abbrev pub serve : {W A : Type 0} → Exec W A → System W → System W
serve m s = record s { world = (m s.world).1 }

-- The record of a job expires; the index and the queue keep its id.
abbrev pub drop_job : Uuid → View → View
drop_job id v = record v { jobs = λ other. if other == id then none else v.jobs other }

-- The heartbeat of a job expires.
abbrev pub drop_beat : Uuid → View → View
drop_beat id v = record v { alive = λ other. if other == id then Bool.false else v.alive other }

module _ {W : Type 0} (P : Stores W) where
  -- The failure's report, for the job that is stored by then.
  unfoldable pub report_failure :
      Uuid → (max_retries : ℕ) → TranscodeJob → String → Exec W TranscodeJob
  report_failure u max_retries job message = do
    stored ← gets (λ w. elim (P.get job.id w) [ none ↦ job | some found ↦ found ])
    handle_job_failure P u max_retries stored message

  module _ (view : W → View) (max_retries : ℕ) (T : Transcoder W) (config : VshiftConfig)
      (scan_once : FileScanner W) (probe : MediaProber W) (launcher : WorkerPodLauncher W) where
    pub data Step : System W → System W → Type 0 where
      -- the stages of a worker
      claim :
          (u : Uuid) (timeout : ℕ) (s : System W)
          → s.phase u ≡ Phase.idle
          → Step s (act u (claim_job P u timeout) after_claim s)
      start :
          (u : Uuid) (job : TranscodeJob) (s : System W)
          → s.phase u ≡ Phase.holding job
          → Step s (act u (start_transcode P u job) (after_stage job (Phase.running job)) s)
      transcode :
          (u : Uuid) (job started : TranscodeJob) (s : System W)
          → s.phase u ≡ Phase.running job started
          → Step s (act u (T.transcode started) (after_stage job (Phase.transcoded job started)) s)
      finish :
          (u : Uuid) (job started : TranscodeJob) (result : TranscodeResult) (s : System W)
          → s.phase u ≡ Phase.transcoded job started result
          → Step s (act u (write_summary P T started result) (after_stage job (λ _. Phase.idle)) s)
      report :
          (u : Uuid) (job : TranscodeJob) (message : String) (s : System W)
          → s.phase u ≡ Phase.failing job message
          → Step s (act u (report_failure u max_retries job message) after_report s)
      crash :
          (u : Uuid) (s : System W)
          → Step s (record s { phase = λ v. if v == u then Phase.stopped else s.phase v })
      -- the calls around a round
      register :
          (info : WorkerInfo) (s : System W) → Step s (record s { world = P.register info s.world })
      heartbeat : (u : Uuid) (s : System W) → Step s (record s { world = P.heartbeat u s.world })
      deregister : (u : Uuid) (s : System W) → Step s (record s { world = P.deregister u s.world })
      -- the tasks of the server
      scan :
          (dir : Option FilePath) (s : System W)
          → Step s (serve (scan_input_folder P scan_once probe config dir) s)
      recover : (s : System W) → Step s (serve (recover_stale_jobs P max_retries) s)
      scale :
          (enabled : Bool) (max_pods : ℕ) (s : System W)
          → Step s (serve (ensure_worker_capacity P launcher enabled max_pods) s)
      -- what expires
      expire_job :
          (id : Uuid) (w : W) (s : System W)
          → view w ≡ drop_job id (view s.world)
          → Step s (record s { world = w })
      expire_beat :
          (id : Uuid) (w : W) (s : System W)
          → view w ≡ drop_beat id (view s.world)
          → Step s (record s { world = w })

    pub data Reach (s : System W) : System W → Type 0 where
      here : Reach s s
      next : {t u : System W} → Reach s t → Step t u → Reach s u
