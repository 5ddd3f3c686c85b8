-- ===== src/Job/Copies.antt =====
-- The `model_copy` calls of src/vshift/application/worker/use_cases/claim_job.py,
-- execute_transcode.py, write_summary.py and handle_job_failure.py, and of
-- src/vshift/application/server/use_cases/recover_stale_jobs.py.
use vshift.Base.{◌+◌, String, none, some}
use vshift.Job.{Uuid, Timestamp, JobState, TranscodeJob}

-- Each is for the state that the transition returned.
abbrev pub claimed_copy : TranscodeJob → JobState → Uuid → Timestamp → TranscodeJob
claimed_copy job s worker now = record job {
  state = s;
  worker_id = some worker;
  claimed_at = some now;
}

abbrev pub processing_copy : TranscodeJob → JobState → Timestamp → TranscodeJob
processing_copy job s now = record job { state = s; started_at = some now }

abbrev pub completed_copy : TranscodeJob → JobState → Timestamp → TranscodeJob
completed_copy job s now = record job { state = s; completed_at = some now; error_message = none }

abbrev pub failed_copy : TranscodeJob → JobState → String → Timestamp → TranscodeJob
failed_copy job s error now = record job {
  state = s;
  worker_id = none;
  error_message = some error;
  completed_at = some now;
}

abbrev pub pending_copy : TranscodeJob → JobState → String → TranscodeJob
pending_copy job s error = record job {
  state = s;
  worker_id = none;
  claimed_at = none;
  started_at = none;
  attempt = job.attempt + 1;
  error_message = some error;
}
