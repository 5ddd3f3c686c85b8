-- ===== src/Lib.antt =====
-- A model of vshift, a transcoding service: a server scans an input folder and queues jobs, and
-- workers take the jobs and run ffmpeg. Paths are from the repository's root.
--
-- The parts and the files that model them:
-- - src/vshift/domain: the profile (Profile, Profile/Validation), the probed file (Input), the
--   rules and the configuration (Config and below: Glob is `fnmatch` of Python's library,
--   Criteria is match_rule.py, Matcher is profile_matcher.py, Settings is vshift_config.py), the
--   job and its state machine (Job, Job/Transitions, Job/Copies for the `model_copy` calls), the
--   records of a worker (Workers).
-- - src/vshift/ports: Ports, one record of operations for all stores. Ports/Contract says what a
--   use case may rely on: a `View` (jobs, index by state, queue, dead letters, processed files,
--   heartbeats) and the effect of each call on it. Ports/Memory is an instance, for the tests.
-- - src/vshift/application/worker/use_cases: Worker, with Claiming (claim_job.py against its
--   contract), Cycle (process_next_job.py), Failure (handle_job_failure.py), Exclusion (who holds
--   a job), Attempts, Outcomes and Settling (how a claimed job and a round end) and Main
--   (register_worker.py and src/vshift/application/worker/main.py), whose loop is the subject of
--   Looping, Queueing, Draining and Liveness.
-- - src/vshift/application/server/use_cases: Server, with Matching, Enqueueing (and the scan),
--   Recovery, Sparing, Stranding, Capacity and Keeping; Server/Background has the loops of
--   src/vshift/infrastructure/api/background.py.
-- - System: the workers and the server together, as a step relation. Its steps are the stages of
--   a worker's round (claim, start, ffmpeg, summary, report of a failure), a crash between them,
--   the tasks of the server, and the expiry of a job's record or heartbeat. System/Soundness has
--   what every reachable state has.
-- - src/vshift/application/common/settings.py: Settings, with Settings/Loading for how
--   `Settings()` reads the environment.
-- - src/vshift/application/*/application_context.py: Contexts, what the contexts of the server
--   and of the worker put together; Contexts/Working has the whole worker process over Redis and
--   ffmpeg.
-- - src/vshift/infrastructure/api/app.py, background.py and routers/health.py: Application, with
--   the threads of the server in Application/Threads.
-- - src/vshift/infrastructure: Redis (keys.py, with the stores over a client in Redis/Stores,
--   what Redis documents in Redis/Keyspace, the contract of the ports in Redis/Refinement and the
--   listings in Redis/Listing),
--   Ffmpeg (Encoders is encoder_resolver.py, with Detection for what it asks of ffmpeg and the
--   host, Arguments profile_mapper.py, Command command_builder.py, Streams video_stream_info.py,
--   Probing probe.py and media_prober.py, Version version.py, Transcoding transcoder.py),
--   Filesystem (Scanner is poll_file_scanner.py, Configuration is yaml_config_loader.py and
--   yaml_config_repository.py), Handbrake (importer.py), Api (the queries of the jobs' routes),
--   Kubernetes (the launcher and client.py; Environment has what a pod reads of what the server
--   gives it) and WorkerPods (worker_pod_factory.py and resources.py).
-- - Lifecycle: what must hold of the stores between the use cases, and what keeps it.
-- - Base: shared names, texts, paths, the sort, the monad `Exec` of methods that change a state
--   and may raise, and three logics for it: `Ensures` (an invariant holds after a return and after
--   a raise), `Answers` (only some exceptions are raised) and `Succeeds` (the action returns).
--   Tests: runs at concrete inputs.
--
-- A method is a function `W → Result A × W`: what was written before a raise stays written. A use
-- case runs as one sequence of calls; where ffmpeg, ffprobe or a scan runs, the parameter may
-- change the state. In System the stages of a round are the atoms: within a claim, a start, a
-- recovery or a scan no other process steps, and no process ends half way through one of them.
-- Server/Stranding has what follows when a worker does end between the dequeue and the save of a
-- claim.
--
-- Numbers: times are counted in millionths of a second, floats of a profile and of a document in
-- millionths, a UUID is its number. The fuel of the glob parser is the length of the pattern, and
-- each round takes a character. The worker's loop runs for as many rounds as it is told, any
-- number of them; Worker/Liveness has how many are enough for what waits.
--
-- Parameters: the Redis client, the operating system with ffmpeg and ffprobe, the host's devices,
-- JSON and YAML, how Python reads and writes numbers and paths, how pydantic fills the fields of
-- the configuration and reads texts as numbers, the values of environment variables, the batch
-- API of Kubernetes and the loading of its configuration, the clock, the stop event and `uuid4`.
--
-- Not modelled: FastAPI and uvicorn, the start of threads and signals, logging and the table of
-- the settings, which only call libraries.
pub mod Base
pub mod Profile
pub mod Input
pub mod Handbrake
pub mod Config
pub mod Job
pub mod Workers
pub mod Ports
pub mod Worker
pub mod Server
pub mod System
pub mod Ffmpeg
pub mod Filesystem
pub mod Redis
pub mod WorkerPods
pub mod Kubernetes
pub mod Contexts
pub mod Application
pub mod Settings
pub mod Api
pub mod Tests
pub mod Lifecycle
