-- ===== src/Tests/Processes.antt =====
-- The worker process and the threads of the server over a Redis in memory, with an ffmpeg that
-- fails, an empty folder and the environment of a worker pod.
use vshift.Base.{
  ◌≡◌, refl, sym, subst, ap, ◌∙◌, String, true, false, none, [], ◌∷◌, contains, if◌then◌else◌, All,
  arith, nat_eq, string_eq, ℕ_discrete,
}
use vshift.Base.Exec.{ok, pure}
use vshift.Base.Ensures.{Keeps-pure}
use vshift.Job.{TranscodeJob}
use vshift.Settings.{ProcessSettings, LogLevel}
use vshift.Lifecycle.{IsConsistent}
use vshift.Lifecycle.Preservation.{put_job-IsConsistent, put_queue-IsConsistent}
use vshift.Ports.{Stores}
use vshift.Ports.Contract.{View, IsLawful, put_job, put_queue}
use vshift.Redis.{Codec}
use vshift.Redis.Keys.{IsUuidText}
use vshift.Redis.Keyspace.{view_of}
use vshift.Redis.Stores.{redis_stores}
use vshift.Redis.Refinement.{redis_stores-IsLawful}
use vshift.Filesystem.Configuration.{YamlConfigRepository, open_repository}
use vshift.Ffmpeg.Probing.{Os, Completed, ProbeAnswer}
use vshift.Kubernetes.{LoadAnswer}
use vshift.Ffmpeg.Transcoding.Stores.{Spares}
use vshift.Kubernetes.Environment.{pod_env, pod_settings, read_settings-worker_env}
use vshift.Worker.Main.{HostReport}
use vshift.Contexts.{
  context_keys, context_ttls, Platform, context_settings, config_repository, context_stores,
  worker_main,
}
use vshift.Contexts.Working.{
  IsRedisPlatform, context_view, context_stores-IsLawful, Inv, worker_main-IsConsistent,
}
use vshift.Application.{create_app}
use vshift.Application.Threads.{IsQuiet, EndsWell, create_app-EndsWell}
use vshift.Tests.{config, waiting, waiting-IsWellFormed}
use vshift.Tests.JobCodec.{transcode_job}
use vshift.Tests.RedisClient.{
  Shelf, shelf, shelf_model, shelf-IsKeyspace, dotted, dotted-IsUuidText, letters,
}
use vshift.Tests.Pods.{app, lettered, lettered-reads, reads_true, has_password}
use vshift.Tests.Media.{broken, texts}
use vshift.Tests.Documents.{yaml, loads}

-- A codec that reads every job back.
pub codec : Codec
unfolding dotted
codec = record dotted {
  dump_job = λ job. transcode_job.write job "";
  load_job = λ payload. (transcode_job.read payload).0;
}

pub codec-IsUuidText : IsUuidText codec
unfolding codec
codec-IsUuidText = record {
  reads = dotted-IsUuidText.reads;
  not_heartbeat = dotted-IsUuidText.not_heartbeat;
  not_summary = dotted-IsUuidText.not_summary;
}

codec-loads : (job : TranscodeJob) → codec.load_job (codec.dump_job job) ≡ job
unfolding codec
codec-loads job = ap (λ (p : TranscodeJob × String). p.0) (transcode_job.read-write job "")

-- ffmpeg's list of its encoders
abbrev listing : Completed
listing = record broken { failed = false }

abbrev beside : Os Shelf
beside = record {
  is_file = λ path w. true;
  exists = λ path w. false;
  stat_size = λ path. pure 1;
  mkdir = λ path. pure tt;
  unlink = λ path. pure tt;
  replace = λ source target. pure tt;
  run = λ args. pure (if contains args "-encoders" then listing else broken);
  probe_obj = λ path cmd. pure (ProbeAnswer.answered none);
  perf_counter = λ w. (0, w);
  now = λ w. (0, w);
}

abbrev report : HostReport
report = record {
  hostname = "pod";
  platform = "linux";
  architecture = "x86_64";
  ffmpeg_version = ok "7.1";
  text_before = λ a b. true;
}

abbrev pub platform : Platform Shelf
platform = record {
  readers = lettered;
  env = pod_env letters app;
  yaml = yaml;
  codec = codec;
  texts = texts;
  str_int = letters;
  str_uuid = λ id. letters id;
  redis = λ settings. shelf;
  uuid4 = λ w. (7, w);
  os = beside;
  devices = record { is_darwin = false; is_dir = λ path w. false; glob = λ path pattern w. [] };
  get_coders = λ stdout. record { name = "libx265"; video = true } ∷ [];
  host_report = λ ffmpeg. report;
  folder = record {
    is_dir = λ path w. true;
    rglob = λ path w. [];
    is_file = λ path w. true;
    stat = λ path w. ok (record { st_size = 1; st_mtime = 0 });
    time = λ w. (0, w);
    path_before = λ p q. true;
  };
  batch = record {
    list_namespaced_job = λ namespace selector. pure [];
    create_namespaced_job = λ namespace job. pure tt;
    uuid_digits = λ w. ("0123abcd", w);
  };
  loaders = record {
    load_incluster_config = pure LoadAnswer.loaded;
    load_kube_config = pure LoadAnswer.loaded;
  };
  has_batch_api = λ w. true;
  hold_batch_api = λ w. w;
  is_set = λ w. false;
  wait = λ seconds w. (false, w);
}

abbrev pub settings : ProcessSettings
settings = pod_settings lettered app.redis LogLevel.debug 4 "/app/config/vshift.yaml"

settings_read : context_settings platform ≡ ok settings
unfolding ℕ_discrete
settings_read =
    read_settings-worker_env lettered letters lettered-reads app reads_true (omega arith)
      (omega arith) has_password

pub platform-IsRedis : IsRedisPlatform platform settings shelf_model
platform-IsRedis = record {
  holds_text = λ key. key ≡ key;
  is_keyspace = shelf-IsKeyspace;
  is_uuid_text = codec-IsUuidText;
  loads = codec-loads;
  beats = λ id. refl;
  files = λ path. refl;
}

abbrev repository : YamlConfigRepository
repository = record { config_path = settings.config.file; config = config }

repository_loaded : config_repository platform settings ≡ ok repository
unfolding open_repository
repository_loaded = rw (loads settings.config.file) refl

abbrev pub stores : Stores Shelf
stores = context_stores platform settings

abbrev pub view : Shelf → View
view = context_view platform settings shelf_model platform-IsRedis

abbrev Consistent : Shelf → Type 0
Consistent = Inv platform settings shelf_model platform-IsRedis repository

abbrev pub empty : Shelf
empty = record { strings = λ key. none; members = λ key. []; values = λ key. [] }

pub empty-IsConsistent : Consistent empty
empty-IsConsistent = record {
  keyed = λ id job e. absurd (ground arith);
  well_formed = λ id job e. absurd (ground arith);
  queued = λ id job e p. absurd (ground arith);
  buried = λ id job e f. absurd (ground arith);
}

-- Job 1 waits.
unfoldable pub start : Shelf
start = stores.save (waiting 1) (stores.enqueue 1 empty)

pub start-IsConsistent : Consistent start
unfolding start
start-IsConsistent =
    let L = context_stores-IsLawful platform settings shelf_model platform-IsRedis in
    subst (IsConsistent 3)
      (sym (
        L.save_lem (waiting 1) (stores.enqueue 1 empty)
        ∙ ap (put_job (waiting 1)) (L.enqueue_lem 1 empty)))
      (put_job-IsConsistent 3 (put_queue 1 (view empty))
        (put_queue-IsConsistent 3 (view empty) empty-IsConsistent 1) (waiting 1)
        (waiting-IsWellFormed 1) (λ _. ground arith) (λ f. cc))

beside-Spares : Spares Consistent beside
beside-Spares = record {
  stat_size_spares = λ path. Keeps-pure 1;
  mkdir_spares = λ path. Keeps-pure tt;
  unlink_spares = λ path. Keeps-pure tt;
  replace_spares = λ source target. Keeps-pure tt;
  run_spares = λ args. Keeps-pure _;
  probe_obj_spares = λ path cmd. Keeps-pure _;
  perf_counter_spares = λ w h. h;
  now_spares = λ w h. h;
}

worker_main-IsConsistent_example : Consistent (worker_main platform 4 start).1
worker_main-IsConsistent_example =
    worker_main-IsConsistent platform settings shelf_model platform-IsRedis repository beside-Spares
      (λ seconds w. refl) (λ w. refl) 4 start settings_read repository_loaded start-IsConsistent

platform-IsQuiet : IsQuiet platform Consistent
platform-IsQuiet = record {
  os_spares = beside-Spares;
  time_keeps = λ w h. h;
  list_keeps = λ namespace selector. Keeps-pure [];
  create_keeps = λ namespace job. Keeps-pure tt;
  digits_keep = λ w h. h;
  incluster_keeps = Keeps-pure LoadAnswer.loaded;
  kube_keeps = Keeps-pure LoadAnswer.loaded;
  hold_keeps = λ w h. h;
  wait_keeps = λ seconds w h. h;
}

create_app-EndsWell_example :
    All
      (EndsWell platform settings shelf_model platform-IsRedis repository repository_loaded
        (omega arith)
        platform-IsQuiet
        5
        start)
      (create_app platform settings true).threads
create_app-EndsWell_example =
    create_app-EndsWell platform settings shelf_model platform-IsRedis repository repository_loaded
      (omega arith) platform-IsQuiet true 5 start start-IsConsistent

redis_stores-IsLawful_example :
    IsLawful
      (redis_stores (context_keys settings.queue) codec shelf (context_ttls settings.queue))
      (λ w. view_of (context_keys settings.queue) codec (shelf_model w))
redis_stores-IsLawful_example =
    redis_stores-IsLawful (context_keys settings.queue) codec codec-IsUuidText shelf
      (context_ttls settings.queue) shelf_model (λ key. key ≡ key) shelf-IsKeyspace codec-loads
      (λ id. refl) (λ path. refl)
