-- ===== src/Worker/Attempts.antt =====
-- What becomes of a claimed job, `ProcessNextJob.execute` from its `try` on, for each way in which
-- ffmpeg and ffprobe can end.
use vshift.Base.{
  ◌≡◌, refl, sym, ◌∙◌, ap, subst, ◌⊎◌, inl, inr, ℕ, String, some, arith, nat_eq, option_eq,
}
use vshift.Base.Exec.{ok, err, vshift_exception, Exec, ◌>>=◌, try_except}
use vshift.Job.{
  Uuid, Timestamp, claimed, processing, completed, TranscodeJob, TranscodeResult, JobSummary,
  job_state_eq,
}
use vshift.Job.Copies.{processing_copy, completed_copy}
use vshift.Job.Transitions.{start_ok, finish_ok}
use vshift.Ports.{Stores, Transcoder}
use vshift.Ports.Contract.{View, IsLawful, put_job, put_beat}
use vshift.Worker.Outcomes.{Completes, completed_copy-Completes}
use vshift.Worker.{
  assert_worker_owns_job, start_transcode, execute_transcode, write_summary, after_try,
  process_claimed, handle_job_failure,
}

module _ {W : Type 0} (P : Stores W) (view : W → View) (L : IsLawful P view) where
  -- A call returns here, and the stores are then as before.
  abbrev pub ReturnsAt : {A : Type 0} → Exec W A → W → Type 0
  ReturnsAt {A} m w = (a : A) × (w' : W) × (m w ≡ (ok a, w')) × (view w' ≡ view w)

  -- A call raises a `VShiftException` here, and the stores are then as before.
  abbrev pub RaisesAt : {A : Type 0} → Exec W A → W → Type 0
  RaisesAt m w =
      (message : String) × (w' : W) × (m w ≡ (err (vshift_exception message), w'))
      × (view w' ≡ view w)

  -- ffmpeg and ffprobe succeed, and no other process writes meanwhile.
  pub record IsFinishing (T : Transcoder W) : Type 0 where
    pub transcode_returns : (job : TranscodeJob) (w : W) → ReturnsAt (T.transcode job) w
    pub build_summary_returns :
        (job : TranscodeJob) (result : TranscodeResult) (w : W)
        → ReturnsAt (T.build_summary job result) w

  -- They succeed or raise a `VShiftException`, and no other process writes meanwhile.
  pub record IsAnswering (T : Transcoder W) : Type 0 where
    pub transcode_ends :
        (job : TranscodeJob) (w : W) → ReturnsAt (T.transcode job) w ⊎ RaisesAt (T.transcode job) w
    pub build_summary_ends :
        (job : TranscodeJob) (result : TranscodeResult) (w : W)
        → ReturnsAt (T.build_summary job result) w ⊎ RaisesAt (T.build_summary job result) w

  -- The job that a worker holds is stored as processing, with a heartbeat.
  start_transcode-starts :
      (worker : Uuid) (job : TranscodeJob) (w : W)
      → job.worker_id ≡ some worker
      → job.state ≡ claimed
      → let job' = processing_copy job processing (P.now w).0 in
        ((start_transcode P worker job w).0 ≡ ok job')
        × (view (start_transcode P worker job w).1 ≡ put_beat job.id (put_job job' (view w)))
  unfolding start_transcode assert_worker_owns_job ◌>>=◌
  start_transcode-starts worker job w owned ready =
      ground (arith, start_ok job.state, started (P.now w).0)
    where
      started :
          (now : Timestamp)
          → view (
              P.set_job_heartbeat job.id worker
                (P.save (processing_copy job processing now) (P.now w).1))
            ≡ put_beat job.id (put_job (processing_copy job processing now) (view w))
      started now = simp (L.set_job_heartbeat_lem, L.save_lem, L.now_lem)

  -- A job that is processing is stored as completed.
  write_summary-completes :
      (T : Transcoder W) (job : TranscodeJob) (result : TranscodeResult) (w : W)
      → ReturnsAt (T.build_summary job result) w
      → job.state ≡ processing
      → (summary : JobSummary) × (now : Timestamp) × (w' : W) × (write_summary P T job result w
          ≡ (ok summary, w'))
        × (view w' ≡ put_job (completed_copy job completed now) (view w))
  unfolding write_summary ◌>>=◌
  write_summary-completes T job result w (summary, v, built, kept) busy =
      let (now, v') = P.now (P.save_summary summary v) in
      (
        summary,
        now,
        P.save (completed_copy job completed now) v',
        ground (arith, finish_ok job.state),
        L.save_lem _ v'
            ∙ ap (put_job (completed_copy job completed now))
                (L.now_lem _ ∙ (L.save_summary_lem summary v ∙ kept)),
      )

  -- A summary that cannot be built leaves the job as it is.
  write_summary-raises :
      (T : Transcoder W) (job : TranscodeJob) (result : TranscodeResult) (w : W)
      → RaisesAt (T.build_summary job result) w
      → job.state ≡ processing
      → RaisesAt (write_summary P T job result) w
  unfolding write_summary ◌>>=◌
  write_summary-raises T job result w (message, w', raised, kept) busy =
      (message, w', ground arith, kept)

  module _ (worker : Uuid) (max_retries : ℕ) (T : Transcoder W) where
    module _ (job : TranscodeJob) (w : W) (owned : job.worker_id ≡ some worker)
        (ready : job.state ≡ claimed) where
      -- The job while ffmpeg runs, and the state in which it starts.
      abbrev begun : TranscodeJob
      begun = processing_copy job processing (P.now w).0

      abbrev at_start : W
      at_start = (start_transcode P worker job w).1

      -- The job is completed, and returned.
      abbrev pub CompletesAt : Type 0
      CompletesAt =
          (done : TranscodeJob) × (w' : W) × (process_claimed P worker max_retries T job w
            ≡ (ok (some done), w'))
          × Completes worker job done (view w) (view w')

      -- The job is stored as processing, and its failure is handled and returned.
      abbrev pub ReportsAt : Type 0
      ReportsAt =
          (message : String) × (w' : W) × ((failed_job : TranscodeJob) (w'' : W)
            → handle_job_failure P worker max_retries begun message w' ≡ (ok failed_job, w'')
            → process_claimed P worker max_retries T job w ≡ (ok (some failed_job), w''))
          × (view w' ≡ put_beat job.id (put_job begun (view w)))

      execute_transcode-executes :
          (returned : ReturnsAt (T.transcode begun) at_start)
          → (execute_transcode P worker T job w
              ≡ (ok (record { job = begun; result = returned.0 }), returned.1))
            × (view returned.1 ≡ put_beat job.id (put_job begun (view w)))
      unfolding execute_transcode ◌>>=◌
      execute_transcode-executes (result, w', ran, kept) =
          let (returned, left) = start_transcode-starts worker job w owned ready in
          (ground arith, kept ∙ left)

      pub process_claimed-completes :
          (returned : ReturnsAt (T.transcode begun) at_start)
          → ReturnsAt (T.build_summary begun returned.0) returned.1
          → CompletesAt
      unfolding process_claimed ◌>>=◌ try_except after_try
      process_claimed-completes returned built =
          let (executed, busy) = execute_transcode-executes returned in
          let (summary, now, w2, written, left) =
            write_summary-completes T begun returned.0 returned.1 built refl in
          let done = completed_copy begun completed now in
          (
            done,
            w2,
            ground (arith, L.get_lem job.id w2),
            subst (Completes worker job done (view w)) (sym (left ∙ ap (put_job done) busy))
                (completed_copy-Completes worker job (P.now w).0 now (view w) owned),
          )

      -- What is stored when a call has raised is the job as it was begun.
      found :
          (w' : W)
          → view w' ≡ put_beat job.id (put_job begun (view w))
          → P.get job.id w' ≡ some begun
      found w' left = L.get_lem job.id w' ∙ ap (λ v. v.jobs job.id) left ∙ ground arith

      process_claimed-reports : RaisesAt (T.transcode begun) at_start → ReportsAt
      unfolding process_claimed execute_transcode ◌>>=◌ try_except after_try
      process_claimed-reports (message, w1, raised, kept) =
          let (returned, left) = start_transcode-starts worker job w owned ready in
          let stored = found w1 (kept ∙ left) in
          (message, w1, λ failed_job w2 handled. ground arith, kept ∙ left)

      process_claimed-reports_summary :
          (returned : ReturnsAt (T.transcode begun) at_start)
          → RaisesAt (T.build_summary begun returned.0) returned.1
          → ReportsAt
      unfolding process_claimed ◌>>=◌ try_except after_try
      process_claimed-reports_summary returned raises =
          let (executed, busy) = execute_transcode-executes returned in
          let (message, w2, raised, kept) =
            write_summary-raises T begun returned.0 returned.1 raises refl in
          let stored = found w2 (kept ∙ busy) in
          (message, w2, λ failed_job w3 handled. ground arith, kept ∙ busy)

      -- The job is completed, or its failure is reported.
      pub process_claimed-ends : IsAnswering T → CompletesAt ⊎ ReportsAt
      process_claimed-ends answering = elim (answering.transcode_ends begun at_start) [
        | inl returned ↦ elim (answering.build_summary_ends begun returned.0 returned.1) [
          | inl built ↦ inl (process_claimed-completes returned built)
          | inr raises ↦ inr (process_claimed-reports_summary returned raises)
        ]
        | inr raises ↦ inr (process_claimed-reports raises)
      ]

      pub process_claimed-finishes : IsFinishing T → CompletesAt
      process_claimed-finishes finishing =
          let returned = finishing.transcode_returns begun at_start in
          process_claimed-completes returned
            (finishing.build_summary_returns begun returned.0 returned.1)
