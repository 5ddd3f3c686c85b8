-- ===== src/Ffmpeg/Transcoding/Stores.antt =====
-- The transcoder and the prober run programs and read files: they leave the stores consistent.
use vshift.Base.{ℕ, String, List, none, some}
use vshift.Base.Ensures.{Keeps, Returns, Keeps-bind, Keeps-raise_if, Keeps-lift, Keeps-pure}
use vshift.Base.Answers.{AnyError, any-IsAnswer, Keeps-Answers, Answers-Keeps}
use vshift.Base.Exec.{Result, ok, err}
use vshift.Base.FilePath.{FilePath}
use vshift.Job.{TranscodeJob, TranscodeResult}
use vshift.Ports.{Stores}
use vshift.Ports.Contract.{View, IsLawful}
use vshift.Worker.Cycle.{Inv, IsSteady}
use vshift.Ffmpeg.Arguments.{Texts}
use vshift.Ffmpeg.Encoders.{Host}
use vshift.Ffmpeg.Probing.{Os, ProbeAnswer, media_prober}
use vshift.Ffmpeg.Transcoding.{TranscoderSettings, transcode, build_summary, ffmpeg_transcoder}
use vshift.Ffmpeg.Transcoding.Answering.{
  OsAnswers, HasDuration, probe_media-Answers, transcode-Answers, build_summary-Answers,
}

-- No call of the operating system breaks `I`.
pub record Spares {W : Type 0} (I : W → Type 0) (os : Os W) : Type 0 where
  pub stat_size_spares : (path : FilePath) → Keeps I (os.stat_size path)
  pub mkdir_spares : (path : FilePath) → Keeps I (os.mkdir path)
  pub unlink_spares : (path : FilePath) → Keeps I (os.unlink path)
  pub replace_spares : (source target : FilePath) → Keeps I (os.replace source target)
  pub run_spares : (args : List String) → Keeps I (os.run args)
  pub probe_obj_spares : (path : FilePath) (cmd : String) → Keeps I (os.probe_obj path cmd)
  pub perf_counter_spares : (w : W) → I w → I (os.perf_counter w).1
  pub now_spares : (w : W) → I w → I (os.now w).1

any-HasDuration : (answer : ProbeAnswer) → HasDuration AnyError answer
any-HasDuration (ProbeAnswer.execute_error stderr) = tt
any-HasDuration (ProbeAnswer.answered none) = tt
any-HasDuration (ProbeAnswer.answered (some result)) = any-IsAnswer _

any_answer : (r : Result ProbeAnswer) → Returns r (HasDuration AnyError)
any_answer (ok answer) = any-HasDuration answer
any_answer (err e) = tt

Spares-OsAnswers : {W : Type 0} (os : Os W) (I : W → Type 0) → Spares I os → OsAnswers AnyError I os
Spares-OsAnswers os I S = record {
  stat_size_answers = λ path. Keeps-Answers (S.stat_size_spares path);
  mkdir_answers = λ path. Keeps-Answers (S.mkdir_spares path);
  unlink_answers = λ path. Keeps-Answers (S.unlink_spares path);
  replace_answers = λ source target. Keeps-Answers (S.replace_spares source target);
  run_answers = λ args. Keeps-Answers (S.run_spares args);
  probe_obj_answers = λ path cmd. Keeps-Answers (S.probe_obj_spares path cmd);
  duration_answers = λ path cmd w. any_answer (os.probe_obj path cmd w).0;
  perf_counter_keeps = S.perf_counter_spares;
  now_keeps = S.now_spares;
}

module _ {W : Type 0} (os : Os W) (I : W → Type 0) (S : Spares I os) where
  pub media_prober-Keeps :
      (ffprobe : String) (path : FilePath) → Keeps I (media_prober os ffprobe path)
  unfolding media_prober
  media_prober-Keeps ffprobe path =
      Keeps-bind
        (Answers-Keeps (
          probe_media-Answers AnyError (λ message. tt) os I (Spares-OsAnswers os I S) ffprobe path))
        λ media.
          Keeps-bind (Keeps-raise_if _ _) λ _. Keeps-bind (Keeps-lift _) (λ duration. Keeps-pure _)

  module _ (host : Host) (texts : Texts) (settings : TranscoderSettings) where
    pub transcode-Keeps : (job : TranscodeJob) → Keeps I (transcode os host texts settings job)
    transcode-Keeps job = Answers-Keeps (
        transcode-Answers AnyError (λ message. tt) os I (Spares-OsAnswers os I S) host texts
          settings job)

    pub build_summary-Keeps :
        (job : TranscodeJob) (result : TranscodeResult)
        → Keeps I (build_summary os host texts settings job result)
    build_summary-Keeps job result = Answers-Keeps (
        build_summary-Answers AnyError (λ message. tt) os I (Spares-OsAnswers os I S) host texts
          settings job result)

module _ {W : Type 0} (P : Stores W) (view : W → View) (L : IsLawful P view) (max_retries : ℕ)
    (os : Os W) (S : Spares (Inv P view L max_retries) os) where
  -- If the calls of the operating system keep the stores consistent, so does the transcoder that is
  -- built on them, in its transcode and in its summary, whatever ffmpeg and ffprobe answer: it is
  -- one that the rounds of a worker may rely on.
  pub ffmpeg_transcoder-IsSteady :
      (host : Host) (texts : Texts) (settings : TranscoderSettings)
      → IsSteady P view L max_retries (ffmpeg_transcoder os host texts settings)
  unfolding ffmpeg_transcoder
  ffmpeg_transcoder-IsSteady host texts settings = record {
    transcode_keeps = transcode-Keeps os (Inv P view L max_retries) S host texts settings;
    build_summary_keeps = build_summary-Keeps os (Inv P view L max_retries) S host texts settings;
  }
