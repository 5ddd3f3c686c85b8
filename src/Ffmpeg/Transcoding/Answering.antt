-- ===== src/Ffmpeg/Transcoding/Answering.antt =====
-- The transcoder, where the operating system does what it is asked for: how a transcode and a summary
-- can end (src/vshift/infrastructure/ffmpeg/transcoder.py).
use vshift.Base.{
  ◌≡◌, refl, ◌⊎◌, inl, inr, ℕ, ℤ, Option, String, Bool-cases, Option-cases, ◌==◌, none, some, List,
  arith,
}
use vshift.Base.Exec.{Error, Exec, Result, raise, ok, err, vshift_exception, other}
use vshift.Base.Text.{lower}
use vshift.Base.Answers.{
  IsAnswer, IsVshiftException, wider-IsAnswer, Answers, Answers-bind, Answers-bind_value,
  Answers-pure, Answers-lift, Answers-gets, Answers-call, Answers-raise, Answers-if,
  Answers-raise_if,
}
use vshift.Base.Ensures.{
  Ensures, Returns, Ensures-bind, Ensures-pure, Keeps-gets, Keeps-raise_if, Keeps-states,
}
use vshift.Ffmpeg.Streams.{ProbeStream}
use vshift.Base.FilePath.{FilePath}
use vshift.Profile.{VideoEncoder, VideoProfile, video_encoder_eq}
use vshift.Job.{TranscodeJob, TranscodeResult}
use vshift.Ports.{Stores}
use vshift.Ports.Contract.{View, IsLawful}
use vshift.Worker.Attempts.{ReturnsAt, RaisesAt, IsAnswering}
use vshift.Ffmpeg.Arguments.{Texts}
use vshift.Ffmpeg.Command.{build}
use vshift.Ffmpeg.Encoders.{
  Host, candidates, first_usable, resolve_fallback, resolve_auto, resolve, software_fallback,
}
use vshift.Ffmpeg.Probing.{
  Os, Completed, MediaProbe, ProbeAnswer, ProbeResult, not_negative, format_duration, first_video,
  streams_of, media_probe_of, to_media_probe, probe_answer, probe_media,
}
use vshift.Ffmpeg.Transcoding.{
  TranscoderSettings, ffmpeg_version, temporary_output_path, discard, run_encoder, retry_encoder,
  keep_output, run_prepared, run_ffmpeg, transcode, build_summary, ffmpeg_transcoder,
}

-- An answer of ffprobe with a duration that the model of a summary accepts.
abbrev pub HasDuration : (Error → Type 0) → ProbeAnswer → Type 0
HasDuration E (ProbeAnswer.execute_error stderr) = Unit
HasDuration E (ProbeAnswer.answered none) = Unit
HasDuration E (ProbeAnswer.answered (some result)) =
    IsAnswer E (not_negative (format_duration result.format))

-- No call of the operating system raises other exceptions than these or breaks `I`. With
-- `IsVshiftException`, programs can be started, what they write can be decoded as text, files can
-- be read, made, moved and removed, and ffprobe tells no negative duration.
pub record OsAnswers {W : Type 0} (E : Error → Type 0) (I : W → Type 0) (os : Os W) : Type 0 where
  pub stat_size_answers : (path : FilePath) → Answers E I (os.stat_size path)
  pub mkdir_answers : (path : FilePath) → Answers E I (os.mkdir path)
  pub unlink_answers : (path : FilePath) → Answers E I (os.unlink path)
  pub replace_answers : (source target : FilePath) → Answers E I (os.replace source target)
  pub run_answers : (args : List String) → Answers E I (os.run args)
  pub probe_obj_answers : (path : FilePath) (cmd : String) → Answers E I (os.probe_obj path cmd)
  pub duration_answers :
      (path : FilePath) (cmd : String) (w : W) → Returns (os.probe_obj path cmd w).0 (HasDuration E)
  pub perf_counter_keeps : (w : W) → I w → I (os.perf_counter w).1
  pub now_keeps : (w : W) → I w → I (os.now w).1

module _ (host : Host) where
  resolve_fallback-IsAnswer :
      (codec : String) → IsAnswer IsVshiftException (resolve_fallback host codec)
  unfolding resolve_fallback
  resolve_fallback-IsAnswer codec = ground arith

  software_fallback-IsAnswer :
      (codec : String) → IsAnswer IsVshiftException (software_fallback host codec)
  unfolding software_fallback
  software_fallback-IsAnswer codec = ground arith

  resolve_auto-IsAnswer : (codec : String) → IsAnswer IsVshiftException (resolve_auto host codec)
  unfolding resolve_auto
  resolve_auto-IsAnswer codec = elim (Option-cases (first_usable host (candidates codec))) [
    | inl nothing ↦ ground (arith, resolve_fallback-IsAnswer codec)
    | inr (first, found) ↦ ground arith
  ]

  resolve-IsAnswer : (video : VideoProfile) → IsAnswer IsVshiftException (resolve host video)
  unfolding resolve
  resolve-IsAnswer video = elim (Bool-cases (video.encoder == VideoEncoder.auto)) [
    | inl auto ↦ ground (arith, resolve_auto-IsAnswer (lower video.codec))
    | inr named ↦ ground arith
  ]

module _ {W : Type 0} (E : Error → Type 0)
    (accepts : (message : String) → E (vshift_exception message)) (os : Os W) (I : W → Type 0)
    (S : OsAnswers E I os) where
  to_media_probe-Answers :
      (result : ProbeResult) (path : FilePath) → Answers E I (to_media_probe os result path)
  unfolding to_media_probe
  to_media_probe-Answers result path =
      Answers-bind (Answers-if _ (Answers-pure _) (S.stat_size_answers path))
        (λ size. Answers-pure _)

  probe_answer-Answers :
      (path : FilePath) (answer : ProbeAnswer) → Answers E I (probe_answer os path answer)
  unfolding probe_answer
  probe_answer-Answers path (ProbeAnswer.execute_error stderr) = Answers-raise _ (accepts _)
  probe_answer-Answers path (ProbeAnswer.answered none) = Answers-raise _ (accepts _)
  probe_answer-Answers path (ProbeAnswer.answered (some result)) =
      to_media_probe-Answers result path

  pub probe_media-Answers :
      (ffprobe : String) (path : FilePath) → Answers E I (probe_media os ffprobe path)
  unfolding probe_media
  probe_media-Answers ffprobe path = Answers-bind (Answers-gets _) λ found.
      Answers-bind (Answers-raise_if _ _ (accepts _))
        λ _. Answers-bind (S.probe_obj_answers path ffprobe) (probe_answer-Answers path)

  -- The duration of a probe is one that the model of a summary accepts.
  abbrev HasProbed : MediaProbe → Type 0
  HasProbed media = IsAnswer E (not_negative media.duration_seconds)

  media_probe_of-HasProbed :
      (size : ℕ) (duration : Option ℤ) (video : Option ProbeStream)
      → IsAnswer E (not_negative duration)
      → HasProbed (media_probe_of size duration video)
  unfolding media_probe_of
  media_probe_of-HasProbed size duration none h = h
  media_probe_of-HasProbed size duration (some stream) h = h

  probe_answer-HasProbed :
      (path : FilePath) (answer : ProbeAnswer)
      → HasDuration E answer
      → Ensures (λ (w : W). Unit {0}) (probe_answer os path answer) HasProbed
  unfolding probe_answer to_media_probe raise
  probe_answer-HasProbed path (ProbeAnswer.execute_error stderr) h = record {
    keeps = λ w c. tt;
    returns = λ w c. tt;
  }
  probe_answer-HasProbed path (ProbeAnswer.answered none) h = record {
    keeps = λ w c. tt;
    returns = λ w c. tt;
  }
  probe_answer-HasProbed path (ProbeAnswer.answered (some result)) h =
      Ensures-bind (λ _. Unit) HasProbed _ _ (Keeps-states _ (λ w c. tt))
        λ size. λ _. Ensures-pure _ (
          media_probe_of-HasProbed size (format_duration result.format)
            (first_video (streams_of result.streams)) h)

  probe_media-HasProbed :
      (ffprobe : String) (path : FilePath) (w : W)
      → Returns (probe_media os ffprobe path w).0 HasProbed
  unfolding probe_media
  probe_media-HasProbed ffprobe path w =
      let all : Ensures (λ (v : W). Unit {0}) (probe_media os ffprobe path) HasProbed =
        Ensures-bind (λ _. Unit) HasProbed _ _ (Keeps-gets _)
          λ found _.
            Ensures-bind (λ _. Unit) HasProbed _ _ (Keeps-raise_if _ _)
              λ _ _.
                Ensures-bind (HasDuration E) HasProbed _ _
                  (record { keeps = λ v c. tt; returns = λ v c. S.duration_answers path ffprobe v })
                  (probe_answer-HasProbed path) in
      all.returns w tt

  module _ (host : Host) (texts : Texts) (settings : TranscoderSettings) where
    ffmpeg_version-Answers : Answers E I (ffmpeg_version os host texts settings)
    unfolding ffmpeg_version
    ffmpeg_version-Answers = Answers-bind (S.run_answers _) (λ completed. Answers-pure _)

    discard-Answers : (path : FilePath) → Answers E I (discard os host texts settings path)
    unfolding discard
    discard-Answers path =
        Answers-bind (Answers-gets _)
          (λ there. Answers-if there (S.unlink_answers path) (Answers-pure tt))

    run_encoder-Answers :
        (job : TranscodeJob) (temp_output : FilePath) (encoder : VideoEncoder)
        → Answers E I (run_encoder os host texts settings job temp_output encoder)
    unfolding run_encoder build
    run_encoder-Answers job temp_output encoder = Answers-bind (Answers-lift _ tt) S.run_answers

    retry_encoder-Answers :
        (job : TranscodeJob) (temp_output : FilePath) (encoder : VideoEncoder)
        (completed : Completed)
        → Answers E I (retry_encoder os host texts settings job temp_output encoder completed)
    unfolding retry_encoder
    retry_encoder-Answers job temp_output encoder completed =
        Answers-if _ (Answers-pure completed) (
          Answers-bind
            (Answers-lift _ (wider-IsAnswer E accepts _ (software_fallback-IsAnswer host _)))
            λ fallback.
              Answers-bind (discard-Answers temp_output)
                (λ _. run_encoder-Answers job temp_output fallback))

    keep_output-Answers :
        (job : TranscodeJob) (temp_output : FilePath) (seconds : ℕ) (completed : Completed)
        → Answers E I (keep_output os host texts settings job temp_output seconds completed)
    unfolding keep_output
    keep_output-Answers job temp_output seconds completed =
        Answers-if completed.failed
          (Answers-bind (discard-Answers temp_output) (λ _. Answers-raise _ (accepts _)))
          (Answers-bind (S.replace_answers temp_output job.output_path) λ _.
            Answers-bind (probe_media-Answers _ _)
              λ output_probe. Answers-bind ffmpeg_version-Answers (λ version. Answers-pure _))

    run_prepared-Answers :
        (job : TranscodeJob) (temp_output : FilePath)
        → Answers E I (run_prepared os host texts settings job temp_output)
    unfolding run_prepared
    run_prepared-Answers job temp_output = Answers-bind (discard-Answers temp_output) λ _.
        Answers-bind (Answers-lift _ (wider-IsAnswer E accepts _ (resolve-IsAnswer host _)))
          λ encoder. Answers-bind (Answers-call os.perf_counter S.perf_counter_keeps) λ started.
            Answers-bind (run_encoder-Answers job temp_output encoder) λ first.
              Answers-bind (retry_encoder-Answers job temp_output encoder first) λ completed.
                Answers-bind (Answers-call os.perf_counter S.perf_counter_keeps)
                  (λ finished. Answers-pure _)

    run_ffmpeg-Answers : (job : TranscodeJob) → Answers E I (run_ffmpeg os host texts settings job)
    unfolding run_ffmpeg temporary_output_path
    run_ffmpeg-Answers job = Answers-bind (Answers-gets _) λ found.
        Answers-bind (Answers-raise_if _ _ (accepts _)) λ _. Answers-bind (S.mkdir_answers _) λ _.
          Answers-bind (Answers-bind (S.mkdir_answers _) (λ _. Answers-pure _))
            (λ temp_output. run_prepared-Answers job temp_output)

    pub transcode-Answers :
        (job : TranscodeJob) → Answers E I (transcode os host texts settings job)
    unfolding transcode
    transcode-Answers job =
        Answers-bind (run_ffmpeg-Answers job)
          λ (temp_output, seconds, completed). keep_output-Answers job temp_output seconds completed

    pub build_summary-Answers :
        (job : TranscodeJob) (result : TranscodeResult)
        → Answers E I (build_summary os host texts settings job result)
    unfolding build_summary
    build_summary-Answers job result =
        Answers-bind_value HasProbed (probe_media-Answers _ _) (λ w h. probe_media-HasProbed _ _ w)
          λ input_probe good. Answers-bind (probe_media-Answers _ _) λ output_probe.
            Answers-bind (Answers-call os.now S.now_keeps)
              λ completed_at. Answers-bind (Answers-lift _ good) (λ duration. Answers-pure _)

module _ {W : Type 0} (P : Stores W) (view : W → View) (L : IsLawful P view) where
  ends :
      {A : Type 0} (m : Exec W A) (w w' : W) (r : Result A)
      → m w ≡ (r, w')
      → IsAnswer IsVshiftException r
      → view w' ≡ view w
      → ReturnsAt P view L m w ⊎ RaisesAt P view L m w
  ends m w w' (ok a) e q kept = inl (a, w', e, kept)
  ends m w w' (err (vshift_exception message)) e q kept = inr (message, w', e, kept)
  ends m w w' (err (other x)) e q kept = absurd q

  Answers-ends :
      {A : Type 0} (m : Exec W A) (w : W)
      → Answers IsVshiftException (λ w'. view w' ≡ view w) m
      → ReturnsAt P view L m w ⊎ RaisesAt P view L m w
  Answers-ends m w a = ends m w (m w).1 (m w).0 refl (a.answer w refl) (a.keeps w refl)

  -- If programs can be started and what they write can be decoded as text, if files can be read,
  -- made, moved and removed, if ffprobe tells no negative duration, and if nothing of that touches
  -- the stores, then each transcode and each summary of the ffmpeg transcoder returns or raises a
  -- `VShiftException`, also where ffmpeg or ffprobe fails, and leaves the stores as they were.
  pub ffmpeg_transcoder-IsAnswering :
      (os : Os W) (host : Host) (texts : Texts) (settings : TranscoderSettings)
      → ((v : View) → OsAnswers IsVshiftException (λ w. view w ≡ v) os)
      → IsAnswering P view L (ffmpeg_transcoder os host texts settings)
  unfolding ffmpeg_transcoder
  ffmpeg_transcoder-IsAnswering os host texts settings S = record {
    transcode_ends = λ job w. Answers-ends (transcode os host texts settings job) w (
        transcode-Answers IsVshiftException (λ message. tt) os (λ w'. view w' ≡ view w) (S (view w))
          host texts settings job);
    build_summary_ends = λ job result w.
        Answers-ends (build_summary os host texts settings job result) w (
          build_summary-Answers IsVshiftException (λ message. tt) os (λ w'. view w' ≡ view w)
            (S (view w)) host texts settings job result);
  }
