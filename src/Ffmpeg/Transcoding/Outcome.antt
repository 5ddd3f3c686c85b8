-- ===== src/Ffmpeg/Transcoding/Outcome.antt =====
-- What a transcode leaves in the file system where ffmpeg fails, and when it runs ffmpeg again.
use vshift.Base.{
  ◌≡◌, refl, sym, ap, ◌∙◌, subst, ◌≢◌, ℕ, ◌<>◌, String, true, false, Option, none, List, [], ◌∷◌,
  ◌++◌, arith, Bool-cases, inl, inr, string_eq,
}
use vshift.Base.Exec.{Exec, ok, err, vshift_exception, raise, call, bind-ok, ◌>>=◌}
use vshift.Base.Ensures.{
  Ensures, Returns, Keeps, Keeps-bind, Keeps-pure, Keeps-lift, Keeps-gets, Keeps-call, Keeps-if,
  Keeps-raise_if, Keeps-states, Ensures-bind, Ensures-pure, Ensures-lift,
}
use vshift.Base.FilePath.{FilePath}
use vshift.Base.Text.{strip}
use vshift.Profile.{VideoEncoder, video_encoder_eq}
use vshift.Job.{TranscodeJob}
use vshift.Ffmpeg.Arguments.{Texts}
use vshift.Ffmpeg.Command.{command_front, build, build_command}
use vshift.Ffmpeg.Encoders.{Host}
use vshift.Ffmpeg.Probing.{Os, Completed}
use vshift.Ffmpeg.Transcoding.{
  TranscoderSettings, temporary_path, temporary_output_path, discard, run_encoder, retry_encoder,
  keep_output, run_prepared, run_ffmpeg, transcode,
}

-- The last argument of a command.
abbrev pub last : List String → String
last [] = ""
last (x ∷ []) = x
last (x ∷ y ∷ xs) = last (y ∷ xs)

last-append :
    (xs : List String) (y : String) (ys : List String) → last (xs ++ y ∷ ys) ≡ last (y ∷ ys)
last-append [] y ys = refl
last-append (x ∷ []) y ys = refl
last-append (x ∷ x' ∷ xs) y ys = last-append (x' ∷ xs) y ys

-- What the operating system is relied on for, with the content of each file: ffmpeg writes to no
-- file but the one that its last argument names, and a file that is there can be removed.
pub record IsFiles {W : Type 0} (os : Os W) (texts : Texts) (content : FilePath → W → Option String)
    : Type 0 where
  pub mkdir_lem : (path p : FilePath) (w : W) → content p (os.mkdir path w).1 ≡ content p w
  pub perf_counter_lem : (p : FilePath) (w : W) → content p (os.perf_counter w).1 ≡ content p w
  pub exists_lem : (p : FilePath) (w : W) → os.exists p w ≡ false → content p w ≡ none
  pub unlink_lem :
      (p : FilePath) (w : W)
      → os.exists p w ≡ true
      → ((os.unlink p w).0 ≡ ok tt) × (content p (os.unlink p w).1 ≡ none)
  pub unlink_other : (p q : FilePath) (w : W) → q ≢ p → content q (os.unlink p w).1 ≡ content q w
  pub run_lem :
      (args : List String) (p : FilePath) (w : W)
      → texts.str_path p ≢ last args
      → content p (os.run args w).1 ≡ content p w

module _ {W : Type 0} (os : Os W) (host : Host) (texts : Texts) (settings : TranscoderSettings)
    (content : FilePath → W → Option String) (F : IsFiles os texts content) where
  -- The last argument of a command is the file that ffmpeg writes.
  last-build_command :
      (ffmpeg : String) (threads : Option ℕ) (job : TranscodeJob) (output : FilePath)
      (encoder : VideoEncoder)
      → last (build_command texts ffmpeg threads job output encoder) ≡ texts.str_path output
  unfolding build_command
  last-build_command ffmpeg threads job output encoder =
      last-append (command_front texts ffmpeg threads job encoder) "-f" _

  discard-removes :
      (path : FilePath) (w : W)
      → ((discard os host texts settings path w).0 ≡ ok tt)
        × (content path (discard os host texts settings path w).1 ≡ none)
  unfolding discard ◌>>=◌
  discard-removes path w = elim (Bool-cases (os.exists path w)) [
    | inl there ↦ ground (arith, F.unlink_lem path w there)
    | inr missing ↦ ground (arith, F.exists_lem path w missing)
  ]

  module _ (job : TranscodeJob) (apart : job.output_path ≢ temporary_path texts settings job)
      (named_apart : texts.str_path job.output_path
        ≢ texts.str_path (temporary_path texts settings job))
      (c : Option String) where
    abbrev temp : FilePath
    temp = temporary_path texts settings job

    -- The output has this content.
    abbrev Untouched : W → Type 0
    Untouched w = content job.output_path w ≡ c

    discard-Keeps : Keeps Untouched (discard os host texts settings temp)
    unfolding discard
    discard-Keeps = Keeps-bind (Keeps-gets _) λ there.
        Keeps-if there
          (Keeps-states (os.unlink temp) (λ w h. F.unlink_other temp job.output_path w apart ∙ h))
          (Keeps-pure tt)

    run-Keeps :
        (args : List String) → last args ≡ texts.str_path temp → Keeps Untouched (os.run args)
    run-Keeps args e =
        Keeps-states (os.run args)
          (λ w h. F.run_lem args job.output_path w (λ same. named_apart (same ∙ e)) ∙ h)

    run_encoder-Keeps :
        (encoder : VideoEncoder)
        → Keeps Untouched (run_encoder os host texts settings job temp encoder)
    unfolding run_encoder build
    run_encoder-Keeps encoder =
        Ensures-bind (λ args. last args ≡ texts.str_path temp) (λ _. Unit) _ _
          (Ensures-lift _
            (last-build_command settings.ffmpeg settings.thread_count job temp encoder))
          (λ args e. run-Keeps args e)

    retry_encoder-Keeps :
        (encoder : VideoEncoder) (completed : Completed)
        → Keeps Untouched (retry_encoder os host texts settings job temp encoder completed)
    unfolding retry_encoder
    retry_encoder-Keeps encoder completed = Keeps-if _ (Keeps-pure completed) (
        Keeps-bind (Keeps-lift _)
          λ fallback. Keeps-bind discard-Keeps (λ _. run_encoder-Keeps fallback))

    mkdir-Keeps : (path : FilePath) → Keeps Untouched (os.mkdir path)
    mkdir-Keeps path = Keeps-states (os.mkdir path) (λ w h. F.mkdir_lem path job.output_path w ∙ h)

    clock-Keeps : Keeps Untouched (call os.perf_counter)
    clock-Keeps = Keeps-call os.perf_counter (λ w h. F.perf_counter_lem job.output_path w ∙ h)

    -- The path that a run of ffmpeg returns is that of the unfinished file.
    abbrev AtTemp : FilePath × ℕ × Completed → Type 0
    AtTemp (path, seconds, completed) = path ≡ temp

    then_at :
        {A : Type 0} {m : Exec W A} {f : A → Exec W (FilePath × ℕ × Completed)}
        → Keeps Untouched m
        → ((a : A) → Ensures Untouched (f a) AtTemp)
        → Ensures Untouched (m >>= f) AtTemp
    then_at {m = m} {f = f} km kf = Ensures-bind (λ _. Unit) AtTemp m f km (λ a _. kf a)

    run_prepared-Ensures : Ensures Untouched (run_prepared os host texts settings job temp) AtTemp
    unfolding run_prepared
    run_prepared-Ensures = then_at discard-Keeps λ _. then_at (Keeps-lift _) λ encoder.
        then_at clock-Keeps λ started. then_at (run_encoder-Keeps encoder) λ first.
          then_at (retry_encoder-Keeps encoder first)
            λ completed. then_at clock-Keeps (λ finished. Ensures-pure _ refl)

    run_ffmpeg-Ensures : Ensures Untouched (run_ffmpeg os host texts settings job) AtTemp
    unfolding run_ffmpeg temporary_output_path
    run_ffmpeg-Ensures = then_at (Keeps-gets _) λ found. then_at (Keeps-raise_if _ _) λ _.
        then_at (mkdir-Keeps _) λ _.
          Ensures-bind (λ path. path ≡ temp) AtTemp _ _
            (Ensures-bind (λ _. Unit) (λ path. path ≡ temp) _ _ (mkdir-Keeps _)
              (λ _ _. Ensures-pure temp refl))
            (λ path e.
              subst (λ p. Ensures Untouched (run_prepared os host texts settings job p) AtTemp)
                (sym e) run_prepared-Ensures)

  -- How `keep_output` raises for an ffmpeg that failed.
  abbrev pub failure : TranscodeJob → Completed → String
  failure job completed =
      "ffmpeg failed for job " <> settings.str_uuid job.id <> ": " <> strip completed.stderr

  keep_output-failed :
      (job : TranscodeJob) (path : FilePath) (seconds : ℕ) (completed : Completed) (w : W)
      → completed.failed ≡ true
      → keep_output os host texts settings job path seconds completed w ≡ (
        err (vshift_exception (failure job completed)),
        (discard os host texts settings path w).1,
      )
  unfolding keep_output raise
  keep_output-failed job path seconds completed w failed = rw failed (
      bind-ok (discard os host texts settings path)
        (λ _. raise (vshift_exception (failure job completed))) w tt (discard-removes path w).0)

  transcode-after :
      (job : TranscodeJob) (w : W) (path : FilePath) (seconds : ℕ) (completed : Completed)
      → (run_ffmpeg os host texts settings job w).0 ≡ ok (path, seconds, completed)
      → transcode os host texts settings job w
        ≡ keep_output os host texts settings job path seconds completed
            (run_ffmpeg os host texts settings job w).1
  unfolding transcode
  transcode-after job w path seconds completed e =
      bind-ok (run_ffmpeg os host texts settings job) _ w (path, seconds, completed) e

  -- Where the runs of ffmpeg for a transcode have returned (no choice of an encoder, in hardware or
  -- in software, and no call has raised) and the last of them has failed, the transcode raises the
  -- failure with what ffmpeg wrote, leaves the output file as it was, if it is not the unfinished
  -- file, and leaves no unfinished file.
  pub transcode-fails :
      (job : TranscodeJob) (w : W) (path : FilePath) (seconds : ℕ) (completed : Completed)
      → job.output_path ≢ temporary_path texts settings job
      → texts.str_path job.output_path ≢ texts.str_path (temporary_path texts settings job)
      → (run_ffmpeg os host texts settings job w).0 ≡ ok (path, seconds, completed)
      → completed.failed ≡ true
      → let (result, w') = transcode os host texts settings job w in
        (result ≡ err (vshift_exception (failure job completed)))
        × (content job.output_path w' ≡ content job.output_path w)
        × (content (temporary_path texts settings job) w' ≡ none)
  transcode-fails job w path seconds completed apart named_apart e failed =
      let ran = run_ffmpeg-Ensures job apart named_apart (content job.output_path w) in
      let at_temp : path ≡ temporary_path texts settings job =
        subst (λ r. Returns r (AtTemp job apart named_apart (content job.output_path w))) e
          (ran.returns w refl) in
      let w1 = (run_ffmpeg os host texts settings job w).1 in
      let result =
        transcode-after job w path seconds completed e
        ∙ keep_output-failed job path seconds completed w1 failed in
      (
        ap (λ r. r.0) result,
        ap (λ r. content job.output_path r.1) result
            ∙ rw at_temp (
                (discard-Keeps job apart named_apart (content job.output_path w)).keeps w1
                  (ran.keeps w refl)),
        ap (λ r. content (temporary_path texts settings job) r.1) result
            ∙ rw at_temp (discard-removes (temporary_path texts settings job) w1).1,
      )
