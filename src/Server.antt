-- ===== src/Server.antt =====
-- src/vshift/application/server/use_cases: what the server process does in its background tasks.
-- The repository of the configuration reads the file when it is made; the configuration is a
-- parameter here.
pub mod Matching
pub mod Recovery
pub mod Sparing
pub mod Stranding
pub mod Keeping
pub mod Background
pub mod Capacity
pub mod Enqueueing
use vshift.Base.{
  ◌≡◌, ℕ, zero, suc, ◌+◌, ◌-◌, ◌<>◌, String, Bool, true, false, not, ◌||◌, Option, none, some, List,
  [], ◌∷◌, ◌++◌, ◌==◌, min, string_eq, leb, if◌then◌else◌,
}
use vshift.Base.Dict.{Dict, lookup}
use vshift.Base.Exec.{
  Result, ok, err, Exec, vshift_exception, other, pure, raise, lift, gets, call, modify, raise_if,
  ◌>>=◌, ◌>>◌,
}
use vshift.Base.FilePath.{FilePath, child, stem}
use vshift.Profile.{VshiftProfile}
use vshift.Input.{ProbedInput}
use vshift.Config.Matcher.{match}
use vshift.Config.Settings.{VshiftConfig, NoMatchAction, no_match_action_eq}
use vshift.Job.{
  Uuid, Timestamp, JobState, pending, claimed, processing, failed, TranscodeJob, transition,
}
use vshift.Job.Copies.{failed_copy, pending_copy}
use vshift.Ports.{Stores, MediaProber, FileScanner, WorkerPodLauncher}

pub record ProfileMatch : Type 0 where
  pub rule_id : String
  pub profile_name : String
  pub profile : VshiftProfile

-- `config.profiles[name]`, as a match of the rule
abbrev profile_match : VshiftConfig → (rule_id name : String) → Result (Option ProfileMatch)
profile_match config rule_id name = elim (lookup name config.profiles) [
  | none ↦ err (other "KeyError")
  | some profile ↦ ok (some (record { rule_id = rule_id; profile_name = name; profile = profile }))
]

-- The part of `MatchProfile.execute` for no matching rule.
unfoldable pub match_default : VshiftConfig → Result (Option ProfileMatch)
match_default config =
    if config.behavior.no_match == NoMatchAction.ignore
    then ok none
    else if config.behavior.no_match == NoMatchAction.reject
    then ok none
    else elim config.behavior.default_profile [
      | none ↦ err (vshift_exception "default_profile is required when no_match is default_profile")
      | some name ↦ profile_match config "__default__" name
    ]

-- `MatchProfile.execute`
unfoldable pub match_profile : VshiftConfig → ProbedInput → Result (Option ProfileMatch)
unfolding match_default
match_profile config probed = elim (match config.rules probed) [
  | some rule ↦ profile_match config rule.id rule.profile
  | none ↦ match_default config
]

-- `_build_output_path`
unfoldable pub build_output_path : FilePath → FilePath → VshiftProfile → FilePath
build_output_path output_dir input_path profile =
    child output_dir (stem input_path <> "." <> profile.format)

-- the `TranscodeJob` that `EnqueueJob.execute` builds
abbrev pub new_job : VshiftConfig → ProbedInput → ProfileMatch → Uuid → Timestamp → TranscodeJob
new_job config probed found id now = record {
  id = id;
  input_path = probed.path;
  output_path = build_output_path config.directories.output probed.path found.profile;
  profile_name = found.profile_name;
  profile_snapshot = found.profile;
  state = pending;
  worker_id = none;
  created_at = now;
  claimed_at = none;
  started_at = none;
  completed_at = none;
  attempt = 1;
  error_message = none;
  match_rule_id = found.rule_id;
}

-- the default `limit` of `JobRepository.list_by_state`
abbrev pub list_limit : ℕ
list_limit = 100

module _ {W : Type 0} (P : Stores W) where
  -- `EnqueueJob.execute`
  unfoldable pub enqueue_job :
      VshiftConfig → ProbedInput → ProfileMatch → Exec W (Option TranscodeJob)
  enqueue_job config probed found = do
    processed ← gets (P.is_processed probed.path)
    if processed then pure none else do
      id ← call P.uuid4
      now ← call P.now
      let job = new_job config probed found id now
      modify (P.save job)
      modify (P.mark_processed probed.path job.id)
      modify (P.enqueue job.id)
      pure (some job)

  -- The last part of the body of the loop of `ScanInputFolder.execute`, for what
  -- `MatchProfile.execute` returned.
  unfoldable pub enqueue_found :
      VshiftConfig → ProbedInput → Option ProfileMatch → Exec W (Option TranscodeJob)
  unfolding enqueue_job
  enqueue_found config probed none = pure none
  enqueue_found config probed (some found) = enqueue_job config probed found

  -- `RecoverStaleJobs._recover_job`
  unfoldable pub recover_job : (max_retries : ℕ) → TranscodeJob → Exec W TranscodeJob
  recover_job max_retries job =
      if leb max_retries job.attempt
      then (do
        s ← lift (transition job.state failed)
        now ← call P.now
        let job' = failed_copy job s "worker heartbeat expired" now
        modify (P.save job')
        modify (P.push_to_dead_letter job'.id)
        pure job')
      else do
        s ← lift (transition job.state pending)
        let job' = pending_copy job s "worker heartbeat expired; requeued"
        modify (P.save job')
        modify (P.enqueue job'.id)
        pure job'

  -- The body of the inner loop of `RecoverStaleJobs.execute`, and the turns after it.
  unfoldable pub recover_next :
      Exec W (List TranscodeJob)
      → (max_retries : ℕ) → TranscodeJob
      → Bool
      → Exec W (List TranscodeJob)
  unfolding recover_job
  recover_next rest max_retries job true = rest
  recover_next rest max_retries job false = do
    updated ← recover_job max_retries job
    recovered ← rest
    pure (updated ∷ recovered)

  -- The inner loop of `RecoverStaleJobs.execute`, over what the listing returned.
  unfoldable pub recover_all : (max_retries : ℕ) → List TranscodeJob → Exec W (List TranscodeJob)
  unfolding recover_next
  recover_all max_retries [] = pure []
  recover_all max_retries (job ∷ jobs) = do
    alive ← gets (P.is_job_alive job.id)
    recover_next (recover_all max_retries jobs) max_retries job alive

  -- `RecoverStaleJobs.execute`
  unfoldable pub recover_stale_jobs : (max_retries : ℕ) → Exec W (List TranscodeJob)
  unfolding recover_all
  recover_stale_jobs max_retries = do
    claims ← gets (P.list_by_state claimed list_limit 0)
    recovered ← recover_all max_retries claims
    runs ← gets (P.list_by_state processing list_limit 0)
    more ← recover_all max_retries runs
    pure (recovered ++ more)

-- `ProbeInputFile.execute`
unfoldable pub probe_input_file : {W : Type 0} → MediaProber W → ProbedInput → Exec W ProbedInput
probe_input_file probe candidate = do
  probed ← probe candidate.path
  pure (
      if candidate.extension == ""
      then probed
      else record probed { extension = candidate.extension })

module _ {W : Type 0} (P : Stores W) (scan_once : FileScanner W) (probe : MediaProber W) where
  -- `enqueued.append(job)`, for a job that is not `None`
  abbrev and_enqueued : Option TranscodeJob → List TranscodeJob → List TranscodeJob
  and_enqueued none jobs = jobs
  and_enqueued (some job) jobs = job ∷ jobs

  -- The loop of `ScanInputFolder.execute`.
  unfoldable pub scan_candidates : VshiftConfig → List ProbedInput → Exec W (List TranscodeJob)
  unfolding match_profile enqueue_found probe_input_file
  scan_candidates config [] = pure []
  scan_candidates config (candidate ∷ candidates) = do
    probed ← probe_input_file probe candidate
    found ← lift (match_profile config probed)
    job ← enqueue_found P config probed found
    enqueued ← scan_candidates config candidates
    pure (and_enqueued job enqueued)

  -- `input_dir or config.directories.input`
  abbrev scan_dir : VshiftConfig → Option FilePath → FilePath
  scan_dir config none = config.directories.input
  scan_dir config (some dir) = dir

  -- `ScanInputFolder.execute`
  unfoldable pub scan_input_folder :
      VshiftConfig → (input_dir : Option FilePath) → Exec W (List TranscodeJob)
  unfolding scan_candidates
  scan_input_folder config input_dir = do
    candidates ← scan_once (scan_dir config input_dir)
    scan_candidates config candidates

module _ {W : Type 0} (P : Stores W) (launcher : WorkerPodLauncher W) where
  -- The loop of `EnsureWorkerCapacity.execute`.
  unfoldable pub launch_workers : (to_launch : ℕ) → Exec W (List String)
  launch_workers zero = pure []
  launch_workers (suc n) = do
    pod ← launcher.launch_worker
    launched ← launch_workers n
    pure (pod ∷ launched)

  -- `EnsureWorkerCapacity.execute`; `-` on ℕ stops at 0, as `max(0, ...)` does.
  unfoldable pub ensure_worker_capacity :
      (enabled : Bool) (max_concurrent_pods : ℕ) → Exec W (List String)
  unfolding launch_workers
  ensure_worker_capacity enabled max_pods = if not enabled then pure [] else do
    queue_depth ← gets P.depth
    if leb queue_depth 0 then pure [] else do
      active_workers ← launcher.count_active_workers
      launch_workers (min queue_depth max_pods - active_workers)
