-- ===== src/Tests/WorkerRuns.antt =====
-- Rounds of a worker over the stores in memory.

use vshift.Base.{◌≡◌, refl, ◌≢◌, String, false, none, some, ℕ_discrete, string_eq, option_eq}
use vshift.Base.Exec.{ok, err, vshift_exception, pure, ◌>>=◌}
use vshift.Base.Ensures.{Ensures-pure}
use vshift.Job.{pending, claimed, processing, TranscodeJob, transition, job_state_eq}
use vshift.Job.Copies.{claimed_copy, pending_copy}
use vshift.Ports.{Transcoder}
use vshift.Ports.Contract.{View, put_job, put_beat, drop_queue}
use vshift.Ports.Memory.{Memory, memory, memory-IsLawful}
use vshift.Lifecycle.{IsConsistent}
use vshift.Worker.{claim_job, execute_transcode, process_claimed, process_next_job}
use vshift.Worker.Claiming.{view-claim_job}
use vshift.Worker.Cycle.{IsSteady, process_next_job-IsConsistent}
use vshift.Worker.Failure.{may_fail}
use vshift.Worker.Exclusion.{claim_job-excludes, process_claimed-raises}
use vshift.Tests.{stocked, in_memory, stocked-IsConsistent, waiting}

abbrev pub seen : Memory → View
seen w = w.seen

abbrev pub start : Memory
start = in_memory stocked

view-claim_job_example :
    ((claim_job memory 7 5 start).0 ≡ ok (some (claimed_copy (waiting 1) claimed 7 200)))
    × (seen (claim_job memory 7 5 start).1
        ≡ put_beat 1 (put_job (claimed_copy (waiting 1) claimed 7 200) (drop_queue stocked)))
unfolding memory ℕ_discrete job_state_eq
view-claim_job_example = view-claim_job memory seen memory-IsLawful 7 5 start

-- A transcoder that always ends well.
abbrev pub done_transcoder : Transcoder Memory
done_transcoder = record {
  transcode = λ job. pure (record {
    output_path = job.output_path;
    wall_clock_seconds = 60;
    ffmpeg_version = "7.1";
    video_codec_out = "libx265";
    resolution_out = none;
  });
  build_summary = λ job result. pure (record {
    job_id = job.id;
    input_path = job.input_path;
    output_path = job.output_path;
    profile_name = job.profile_name;
    input_size_bytes = 2000;
    output_size_bytes = 1000;
    input_duration_seconds = none;
    compression_ratio = none;
    wall_clock_seconds = 60;
    ffmpeg_version = "7.1";
    started_at = 120;
    completed_at = 180;
    video_codec_in = none;
    video_codec_out = "libx265";
    resolution_in = none;
    resolution_out = none;
  });
}

pub done_transcoder-IsSteady : IsSteady memory seen memory-IsLawful 3 done_transcoder
done_transcoder-IsSteady = record {
  transcode_keeps = λ job. Ensures-pure _ tt;
  build_summary_keeps = λ job result. Ensures-pure _ tt;
}

process_next_job-IsConsistent_example :
    IsConsistent 3 (seen (process_next_job memory 7 3 done_transcoder 5 start).1)
process_next_job-IsConsistent_example =
    process_next_job-IsConsistent memory seen memory-IsLawful 3 7 done_transcoder
      done_transcoder-IsSteady 5 start stocked-IsConsistent

-- the first job, once worker 7 has claimed it, and the stores after that
abbrev held : TranscodeJob
held = claimed_copy (waiting 1) claimed 7 200

first_claim : (claim_job memory 7 5 start).0 ≡ ok (some held)
unfolding memory ℕ_discrete job_state_eq
first_claim = (view-claim_job memory seen memory-IsLawful 7 5 start).0

second_claim :
    (claim_job memory 8 5 (claim_job memory 7 5 start).1).0
    ≡ ok (some (claimed_copy (waiting 3) claimed 8 201))
unfolding memory ℕ_discrete job_state_eq claim_job ◌>>=◌ transition
second_claim = refl

claim_job-excludes_example : (claimed_copy (waiting 3) claimed 8 201).id ≢ held.id
claim_job-excludes_example =
    claim_job-excludes memory seen memory-IsLawful 3 7 8 5 start held
      (claimed_copy (waiting 3) claimed 8 201) stocked-IsConsistent first_claim second_claim

-- A transcoder that fails after a recovery has put the job back.
abbrev late_transcoder : Transcoder Memory
late_transcoder = record {
  transcode = λ job w.
      (err (vshift_exception "ffmpeg failed"), memory.save (pending_copy job pending "requeued") w);
  build_summary = done_transcoder.build_summary;
}

abbrev after_late : Memory
after_late = (execute_transcode memory 7 late_transcoder held (claim_job memory 7 5 start).1).1

abbrev put_back : TranscodeJob
put_back =
    pending_copy (record held { state = processing; started_at = some 201 }) pending "requeued"

late_raises :
    execute_transcode memory 7 late_transcoder held (claim_job memory 7 5 start).1
    ≡ (err (vshift_exception "ffmpeg failed"), after_late)
unfolding memory ℕ_discrete job_state_eq option_eq execute_transcode claim_job ◌>>=◌ transition
late_raises = refl

late_stored : (seen after_late).jobs held.id ≡ some put_back
unfolding memory ℕ_discrete job_state_eq option_eq execute_transcode claim_job ◌>>=◌ transition
late_stored = refl

put_back_foreign : may_fail 7 put_back ≡ false
unfolding option_eq ℕ_discrete job_state_eq
put_back_foreign = refl

process_claimed-raises_example :
    (reason : String) × (process_claimed memory 7 3 late_transcoder held
        (claim_job memory 7 5 start).1
      ≡ (err (vshift_exception reason), after_late))
process_claimed-raises_example =
    process_claimed-raises memory seen memory-IsLawful 7 3 late_transcoder held put_back
      "ffmpeg failed" (claim_job memory 7 5 start).1 after_late late_raises late_stored
      put_back_foreign
