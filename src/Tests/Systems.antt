-- ===== src/Tests/Systems.antt =====
-- The processes together, and the server's background loops, over the stores in memory.
use vshift.Base.{refl, [], ◌∷◌, arith, nat_eq}
use vshift.Base.Exec.{pure}
use vshift.Base.Ensures.{Ensures-pure}
use vshift.Ports.{MediaProber, FileScanner, WorkerPodLauncher}
use vshift.Ports.Memory.{Memory, memory, memory-IsLawful, memory-IsReading}
use vshift.Server.{recover_stale_jobs}
use vshift.Worker.{claim_job}
use vshift.System.{Phase, System, Step, Reach, act, serve, after_claim, drop_beat}
use vshift.System.Soundness.{IsSound, Reach-IsSound}
use vshift.Tests.{stocked-IsConsistent, probed, config}
use vshift.Tests.WorkerRuns.{seen, start, done_transcoder, done_transcoder-IsSteady}

abbrev scanner : FileScanner Memory
scanner dir = pure (probed ∷ [])

abbrev prober : MediaProber Memory
prober path = pure probed

abbrev launcher : WorkerPodLauncher Memory
launcher = record { count_active_workers = pure 0; launch_worker = pure "vshift-worker" }

-- All workers are idle.
abbrev quiet : System Memory
quiet = record { world = start; phase = λ u. Phase.idle }

-- Worker 7 has claimed a job.
abbrev claimed : System Memory
claimed = act 7 (claim_job memory 7 5) after_claim quiet

-- The heartbeat of the job has expired meanwhile.
abbrev silent : System Memory
silent = record claimed { world = record claimed.world { seen = drop_beat 1 claimed.world.seen } }

-- The server has taken the job back, while the worker still holds it.
abbrev recovered : System Memory
recovered = serve (recover_stale_jobs memory 3) silent

abbrev run : Reach memory seen 3 done_transcoder config scanner prober launcher quiet recovered
run =
    Reach.next
      (Reach.next (Reach.next Reach.here (Step.claim 7 5 quiet refl))
        (Step.expire_beat 1 silent.world claimed refl))
      (Step.recover silent)

quiet-IsSound : IsSound memory seen memory-IsLawful 3 quiet
quiet-IsSound = (stocked-IsConsistent, λ u. tt)

Reach-IsSound_example : IsSound memory seen memory-IsLawful 3 recovered
Reach-IsSound_example =
    Reach-IsSound memory seen memory-IsLawful 3 done_transcoder config scanner prober launcher
      memory-IsReading (omega arith) done_transcoder-IsSteady (λ dir. Ensures-pure _ tt)
      (λ path. Ensures-pure _ tt) (Ensures-pure _ tt) (Ensures-pure _ tt) quiet-IsSound run
