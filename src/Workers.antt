-- ===== src/Workers.antt =====
-- src/vshift/domain/worker: what a worker process reports of itself.
use vshift.Base.{ℕ, String, Option, List}
use vshift.Job.{Uuid, Timestamp}

pub data WorkerStatus : Type 0 where
  idle busy draining : WorkerStatus

pub record WorkerCapabilities : Type 0 where
  pub ffmpeg_version : String
  pub encoders : List String
  pub max_concurrent_jobs : ℕ

pub record WorkerHardwareInfo : Type 0 where
  pub platform : String
  pub architecture : String
  pub cpu_model : Option String
  pub cpu_cores : Option ℕ
  pub memory_total_bytes : Option ℕ
  pub gpu_devices : List String

pub record WorkerInfo : Type 0 where
  pub worker_id : Uuid
  pub hostname : String
  pub created_at : Timestamp
  pub last_seen_at : Timestamp
  pub status : WorkerStatus
  pub capabilities : WorkerCapabilities
  pub hardware : WorkerHardwareInfo
