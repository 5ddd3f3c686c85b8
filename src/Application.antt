-- ===== src/Application.antt =====
-- src/vshift/infrastructure/api: background.py, which starts the threads of the server, app.py and
-- routers/health.py. A thread is its name, the seconds between two rounds and its loop, for at most
-- so many rounds. FastAPI is not modelled: an application is what `create_app` gives it.
pub mod Threads
use vshift.Base.{
  ℕ, String, Bool, true, false, Option, none, some, List, [], ◌∷◌, ◌++◌, ◌==◌, string_eq,
  if◌then◌else◌,
}
use vshift.Base.Exec.{Exec, pure, modify, ◌>>=◌, ◌>>◌}
use vshift.Settings.{ProcessSettings, ApiSettings}
use vshift.Server.Background.{background_loop}
use vshift.Contexts.{Platform, scan_task, recovery_task, scale_task}

pub record BackgroundThread (W : Type 0) : Type 0 where
  pub name : String
  pub interval_seconds : ℕ
  pub run : (rounds : ℕ) → Exec W Unit

module _ {W : Type 0} (platform : Platform W) (settings : ProcessSettings) where
  -- `_run_scan_loop`, `_run_recovery_loop` and `_run_worker_scale_loop`, as threads
  unfoldable pub scan_thread : BackgroundThread W
  unfolding scan_task
  scan_thread = record {
    name = "vshift-scan";
    interval_seconds = settings.server.scan_interval_seconds;
    run =
        background_loop (platform.wait settings.server.scan_interval_seconds)
          (scan_task platform settings);
  }

  unfoldable pub recovery_thread : BackgroundThread W
  unfolding recovery_task
  recovery_thread = record {
    name = "vshift-recovery";
    interval_seconds = settings.server.recovery_interval_seconds;
    run =
        background_loop (platform.wait settings.server.recovery_interval_seconds)
          (recovery_task platform settings);
  }

  unfoldable pub scale_thread : BackgroundThread W
  unfolding scale_task
  scale_thread = record {
    name = "vshift-worker-scale";
    interval_seconds = settings.server.worker_scale_interval_seconds;
    run =
        background_loop (platform.wait settings.server.worker_scale_interval_seconds)
          (scale_task platform settings);
  }

  -- `start_background_threads`
  unfoldable pub start_background_threads : List (BackgroundThread W)
  unfolding scan_thread recovery_thread scale_thread
  start_background_threads =
      scan_thread
      ∷ recovery_thread
      ∷ (if settings.kubernetes.enabled then scale_thread ∷ [] else [])

-- What `create_app` makes of the settings: the addresses of the documentation, and the threads that
-- run from the start of the application to its end.
pub record WebApplication (W : Type 0) : Type 0 where
  pub docs_url : Option String
  pub redoc_url : Option String
  pub openapi_url : Option String
  pub threads : List (BackgroundThread W)

abbrev address : ApiSettings → String → Option String
address api url = if api.docs_enabled then some url else none

-- `create_app`
unfoldable pub create_app :
    {W : Type 0} → Platform W → ProcessSettings → (background_tasks : Bool) → WebApplication W
unfolding start_background_threads
create_app platform settings background_tasks = record {
  docs_url = address settings.api settings.api.docs_url;
  redoc_url = address settings.api settings.api.redoc_url;
  openapi_url = address settings.api settings.api.openapi_url;
  threads = if background_tasks then start_background_threads platform settings else [];
}

-- The answer of a `ping`: a `RedisError`, or not.
pub data Ping : Type 0 where
  pong redis_error : Ping

pub record HealthResponse : Type 0 where
  pub status : String
  pub redis : String
  pub version : String

-- `_check_redis`
abbrev pub check_redis : Ping → String
check_redis pong = "ok"
check_redis redis_error = "error"

-- `health`
unfoldable pub health :
    {W : Type 0} → (ping : Exec W Ping) → (version : String) → Exec W HealthResponse
unfolding string_eq
health ping version = do
  answer ← ping
  let redis_status = check_redis answer
  pure (record {
    status = if redis_status == "ok" then "ok" else "degraded";
    redis = redis_status;
    version = version;
  })
