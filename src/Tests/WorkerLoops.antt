-- ===== src/Tests/WorkerLoops.antt =====
-- The loop of a worker over the stores in memory, with a transcoder that succeeds and with one that
-- raises for the second job.
use vshift.Base.{
  ◌==◌, nat_eq, Bool, ◌⊎◌, ◌≡◌, refl, [], ◌∷◌, true, false, some, arith, ℕ_discrete, string_eq,
  option_eq, All, inl, inr,
}
use vshift.Base.Exec.{ok, vshift_exception, Exec, pure, raise}
use vshift.Job.{TranscodeJob, TranscodeResult, job_state_eq}
use vshift.Ports.{Transcoder}
use vshift.Ports.Memory.{Memory, memory, memory-IsLawful}
use vshift.Worker.Claiming.{next_pending}
use vshift.Worker.Attempts.{ReturnsAt, RaisesAt, IsFinishing, IsAnswering}
use vshift.Worker.Settling.{RoundEnds, Settled, process_next_job-settles}
use vshift.Worker.Main.{StopEvent, run_loop}
use vshift.Worker.Queueing.{IsWaiting, Drains}
use vshift.Worker.Liveness.{IsCompletedBy, IsSettled, run_loop-Drains, run_loop-settles}
use vshift.Tests.{stocked, waiting}
use vshift.Tests.WorkerRuns.{seen, start, done_transcoder}

abbrev unset : StopEvent Memory
unset = record { is_set = λ w. false; wait = λ w. (true, w) }

done_transcoder-IsFinishing : IsFinishing memory seen memory-IsLawful done_transcoder
unfolding pure
done_transcoder-IsFinishing = record {
  transcode_returns = λ job w. (_, w, refl, refl);
  build_summary_returns = λ job result w. (_, w, refl, refl);
}

-- The transcode raises where it is told to, and the summary is written.
abbrev transcode_or : (bad : Bool) → TranscodeJob → Exec Memory TranscodeResult
transcode_or true job = raise (vshift_exception "ffmpeg failed")
transcode_or false job = done_transcoder.transcode job

transcode_or-ends :
    (bad : Bool) (job : TranscodeJob) (w : Memory)
    → ReturnsAt memory seen memory-IsLawful (transcode_or bad job) w
      ⊎ RaisesAt memory seen memory-IsLawful (transcode_or bad job) w
unfolding pure raise
transcode_or-ends true job w = inr ("ffmpeg failed", w, refl, refl)
transcode_or-ends false job w = inl (_, w, refl, refl)

-- ffmpeg fails for job 3.
abbrev picky_transcoder : Transcoder Memory
picky_transcoder = record done_transcoder { transcode = λ job. transcode_or (job.id == 3) job }

picky_transcoder-IsAnswering : IsAnswering memory seen memory-IsLawful picky_transcoder
unfolding pure
picky_transcoder-IsAnswering = record {
  transcode_ends = λ job. transcode_or-ends (job.id == 3) job;
  build_summary_ends = λ job result w. inl (_, w, refl, refl);
}

both_wait : All (IsWaiting stocked) (1 ∷ 3 ∷ [])
unfolding ℕ_discrete
both_wait = ((waiting 1, refl, refl, refl), ((waiting 3, refl, refl, refl), tt))

run_loop-Drains_example :
    (w' : Memory) × (run_loop memory 7 3 done_transcoder 5 unset 2 start ≡ (ok tt, w'))
    × Drains (IsCompletedBy 7) (1 ∷ 3 ∷ []) stocked (seen w')
run_loop-Drains_example =
    run_loop-Drains memory seen memory-IsLawful 7 3 done_transcoder 5 unset (λ w. refl) (λ w. refl)
      2 start done_transcoder-IsFinishing ((λ e. absurd (omega (arith, e)), tt), (tt, tt)) both_wait
      (omega arith)

run_loop-settles_example :
    (w' : Memory) × (run_loop memory 7 3 picky_transcoder 5 unset 6 start ≡ (ok tt, w'))
    × Drains (IsSettled 7 3) (1 ∷ 3 ∷ []) stocked (seen w')
unfolding ℕ_discrete
run_loop-settles_example =
    run_loop-settles memory seen memory-IsLawful 7 3 picky_transcoder 5 unset (λ w. refl)
      (λ w. refl) 6 start picky_transcoder-IsAnswering
      ((λ e. absurd (omega (arith, e)), tt), (tt, tt)) both_wait (omega arith)

first_waits : next_pending stocked ≡ some (waiting 1)
unfolding ℕ_discrete job_state_eq
first_waits = refl

process_next_job-settles_example :
    RoundEnds memory seen memory-IsLawful 7 3 picky_transcoder 5
      (waiting 1)
      start
      first_waits
      (Settled memory seen memory-IsLawful 7 3 picky_transcoder 5 (waiting 1) start first_waits)
process_next_job-settles_example =
    process_next_job-settles memory seen memory-IsLawful 7 3 picky_transcoder 5 (waiting 1) start
      first_waits picky_transcoder-IsAnswering
