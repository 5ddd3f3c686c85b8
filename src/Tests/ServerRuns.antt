-- ===== src/Tests/ServerRuns.antt =====
-- The background tasks of the server over the stores in memory.
use vshift.Base.{
  ◌≡◌, refl, ◌⊎◌, ℕ, suc, ◌+◌, ◌-◌, ◌≤◌, min, Bool, true, false, Option, none, some, [], ◌∷◌, arith,
  ℕ_discrete, string_eq, option_eq, nat_eq,
}
use vshift.Base.FilePath.{FilePath}
use vshift.Base.Exec.{ok, pure, ◌>>=◌}
use vshift.Job.{job_state_eq}
use vshift.Ports.{Stores, MediaProber, FileScanner, WorkerPodLauncher}
use vshift.Ports.Contract.{View, put_job, put_queue}
use vshift.Ports.Memory.{Memory, memory, memory-IsLawful}
use vshift.Config.Settings.Validity.{IsValid}
use vshift.Server.{
  ProfileMatch, match_profile, new_job, enqueue_job, recover_stale_jobs, ensure_worker_capacity,
}
use vshift.Server.Matching.{IsMatch, match_profile-IsMatch}
use vshift.Server.Enqueueing.{put_processed, made, enqueue_job-adds, enqueue_job-once}
use vshift.Server.Sparing.{recover_stale_jobs-spares}
use vshift.Server.Capacity.{Counts, ensure_worker_capacity-fills, ensure_worker_capacity-bounded}
use vshift.Tests.{stocked, in_memory, profile, probed, config}

abbrev seen : Memory → View
seen w = w.seen

abbrev start : Memory
start = in_memory stocked

pub config-IsValid : IsValid config
unfolding string_eq
config-IsValid = record {
  has_profiles = refl;
  default_known = λ d. refl;
  ids_differ = (refl, (refl, tt));
  profiles_known = (refl, (refl, tt));
}

match_profile-IsMatch_example :
    (found : Option ProfileMatch) × (match_profile config probed ≡ ok found)
    × IsMatch config probed found
match_profile-IsMatch_example = match_profile-IsMatch config probed config-IsValid

abbrev found : ProfileMatch
found = record { rule_id = "hd"; profile_name = "archive"; profile = profile }

-- a state in which the file has been enqueued before
abbrev enqueued : Memory
enqueued = (enqueue_job memory config probed found start).1

enqueue_job-once_example : enqueue_job memory config probed found enqueued ≡ (ok none, enqueued)
enqueue_job-once_example =
    enqueue_job-once memory seen memory-IsLawful config config probed found found start

enqueue_job-adds_example :
    (p : FilePath → Bool) × (p probed.path ≡ true)
    × ((enqueue_job memory config probed found start).0
        ≡ ok (some (made memory seen memory-IsLawful config probed found start)))
    × (seen (enqueue_job memory config probed found start).1
        ≡ put_queue 4 (put_processed p (put_job (new_job config probed found 4 200) stocked)))
unfolding memory
enqueue_job-adds_example =
    enqueue_job-adds memory seen memory-IsLawful config probed found start refl

-- A folder with one file, which ffprobe can read.
abbrev scanner : FileScanner Memory
scanner dir = pure (probed ∷ [])

abbrev prober : MediaProber Memory
prober path = pure probed

beats : stocked.alive 2 ≡ true
unfolding ℕ_discrete
beats = refl

recover_stale_jobs-spares_example :
    (seen (recover_stale_jobs memory 3 start).1).jobs 2 ≡ stocked.jobs 2
recover_stale_jobs-spares_example =
    recover_stale_jobs-spares memory seen memory-IsLawful 3 2 start beats

-- A cluster whose state is the number of its active pods, beside a queue of four jobs.
abbrev cluster : WorkerPodLauncher ℕ
cluster = record {
  count_active_workers = λ n. (ok n, n);
  launch_worker = λ n. (ok "vshift-worker", suc n);
}

cluster-Counts : Counts cluster (λ n. n)
cluster-Counts = record {
  count_keeps = λ w. refl;
  count_exact = λ w n e. cc;
  launch_adds = λ w pod e. omega arith;
  launch_bounded = λ w. omega arith;
}

abbrev waiting_four : Stores ℕ
waiting_four = record {
  save = λ job w. w;
  get = λ id w. none;
  list_by_state = λ s limit offset w. [];
  save_summary = λ summary w. w;
  get_summary = λ id w. none;
  enqueue = λ id w. w;
  dequeue = λ timeout w. (none, w);
  requeue = λ id w. w;
  push_to_dead_letter = λ id w. w;
  depth = λ w. 4;
  is_processed = λ path w. false;
  mark_processed = λ path id w. w;
  register = λ info w. w;
  heartbeat = λ worker w. w;
  deregister = λ worker w. w;
  list_workers = λ w. ([], w);
  set_job_heartbeat = λ id worker w. w;
  is_job_alive = λ id w. false;
  now = λ w. (0, w);
  uuid4 = λ w. (0, w);
}

launches :
    (ensure_worker_capacity waiting_four cluster true 3 1).0
    ≡ ok ("vshift-worker" ∷ "vshift-worker" ∷ [])
unfolding ensure_worker_capacity ◌>>=◌
launches = refl

ensure_worker_capacity-fills_example :
    (2 ≡ min 4 3 - 1)
    × ((ensure_worker_capacity waiting_four cluster true 3 1).1 ≡ 1 + (min 4 3 - 1))
ensure_worker_capacity-fills_example =
    ensure_worker_capacity-fills waiting_four cluster (λ n. n) cluster-Counts 3 1
      ("vshift-worker" ∷ "vshift-worker" ∷ []) (omega arith) launches

ensure_worker_capacity-bounded_example :
    ((ensure_worker_capacity waiting_four cluster true 3 1).1 ≤ 1)
    ⊎ ((ensure_worker_capacity waiting_four cluster true 3 1).1 ≤ min 4 3)
ensure_worker_capacity-bounded_example =
    ensure_worker_capacity-bounded waiting_four cluster (λ n. n) cluster-Counts 3 1 true
