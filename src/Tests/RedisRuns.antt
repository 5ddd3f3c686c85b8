-- ===== src/Tests/RedisRuns.antt =====
-- Recoveries over the Redis stores, with a client in memory.
use vshift.Base.{
  ◌≡◌, refl, sym, subst, ap, ◌∙◌, false, some, List, [], All, arith, nat_eq, string_eq, contains,
}
use vshift.Base.Exec.{ok}
use vshift.Job.{TranscodeJob}
use vshift.Lifecycle.{IsConsistent, IsIndexed}
use vshift.Lifecycle.Preservation.{put_job-IsConsistent, put_job-IsIndexed}
use vshift.Ports.Contract.{IsLawful, IsListing, put_job, put_queue}
use vshift.Redis.Listing.{redis_stores-IsListing, HasUuids-IsTidy}
use vshift.Contexts.{context_keys, context_ttls, context_stores}
use vshift.Contexts.Working.{context_stores-IsLawful}
use vshift.Server.{recover_stale_jobs}
use vshift.Server.Recovery.{IsRecovered, recover_stale_jobs-Succeeds}
use vshift.Server.Stranding.{recoveries, recoveries-lose}
use vshift.Tests.{waiting, running, running-IsWellFormed}
use vshift.Tests.RedisClient.{Shelf, shelf, shelf_model, shelf-IsKeyspace}
use vshift.Tests.Processes.{
  platform, settings, platform-IsRedis, codec, codec-IsUuidText, stores, view, empty,
  empty-IsConsistent, start, start-IsConsistent,
}

stores-IsLawful : IsLawful stores view
stores-IsLawful = context_stores-IsLawful platform settings shelf_model platform-IsRedis

stores-IsListing : IsListing stores view
unfolding context_stores
stores-IsListing =
    redis_stores-IsListing (context_keys settings.queue) codec codec-IsUuidText shelf
      (context_ttls settings.queue) shelf_model (λ key. key ≡ key) shelf-IsKeyspace

empty-IsTidy : stores-IsListing.IsTidy empty
unfolding stores-IsListing context_stores
empty-IsTidy =
    HasUuids-IsTidy (context_keys settings.queue) codec codec-IsUuidText shelf
      (context_ttls settings.queue) shelf_model (λ key. key ≡ key) shelf-IsKeyspace empty
      (λ s t h. absurd (ground arith))

empty-IsIndexed : IsIndexed (view empty)
empty-IsIndexed = record {
  listed = λ id job e. absurd (ground arith);
  listed_once = λ id job s e i. absurd (ground arith);
  unlisted = λ id s e. ground arith;
}

-- Job 2 is processed by the worker 7, of which no heartbeat is left.
busy : Shelf
busy = stores.save (running 2 7) empty

busy-view : view busy ≡ put_job (running 2 7) (view empty)
unfolding busy
busy-view = stores-IsLawful.save_lem (running 2 7) empty

recover_stale_jobs-Succeeds_example :
    (jobs : List TranscodeJob) × (w' : Shelf) × (recover_stale_jobs stores 3 busy ≡ (ok jobs, w'))
    × All IsRecovered jobs
    × IsConsistent 3 (view w')
    × IsIndexed (view w')
    × stores-IsListing.IsTidy w'
unfolding busy
recover_stale_jobs-Succeeds_example =
    recover_stale_jobs-Succeeds stores view stores-IsLawful stores-IsListing 3 busy
      (subst (IsConsistent 3) (sym busy-view) (
        put_job-IsConsistent 3 (view empty) empty-IsConsistent (running 2 7)
          (running-IsWellFormed 2 7) (λ p. cc) (λ f. cc)))
      (subst IsIndexed (sym busy-view)
        (put_job-IsIndexed (view empty) (running 2 7) empty-IsIndexed))
      (stores-IsListing.save_tidy (running 2 7) empty empty-IsTidy)

start-view : view start ≡ put_job (waiting 1) (put_queue 1 (view empty))
unfolding start
start-view =
    stores-IsLawful.save_lem (waiting 1) (stores.enqueue 1 empty)
    ∙ ap (put_job (waiting 1)) (stores-IsLawful.enqueue_lem 1 empty)

queued-IsIndexed : IsIndexed (put_queue 1 (view empty))
queued-IsIndexed = record {
  listed = empty-IsIndexed.listed;
  listed_once = empty-IsIndexed.listed_once;
  unlisted = empty-IsIndexed.unlisted;
}

start-IsTidy : stores-IsListing.IsTidy start
unfolding start
start-IsTidy =
    stores-IsListing.save_tidy (waiting 1) (stores.enqueue 1 empty)
      (stores-IsListing.enqueue_tidy 1 empty empty-IsTidy)

recoveries-lose_example :
    let w =
      recoveries stores view stores-IsLawful stores-IsListing 3 2 (stores.dequeue 5 start).1 in
    ((view w).jobs 1 ≡ some (waiting 1)) × (contains (view w).queue 1 ≡ false)
recoveries-lose_example =
    recoveries-lose stores view stores-IsLawful stores-IsListing 3 2 5 1 [] (waiting 1) start
      start-IsTidy start-IsConsistent.keyed
      (subst IsIndexed (sym start-view)
        (put_job-IsIndexed (put_queue 1 (view empty)) (waiting 1) queued-IsIndexed))
      (ap (λ v. v.jobs 1) start-view ∙ ground arith) refl
      (ap (λ v. v.queue) start-view ∙ ground arith) (ground arith)
