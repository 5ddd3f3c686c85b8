-- ===== src/Worker/Draining.antt =====
-- The loop of src/vshift/application/worker/main.py over the queue, for rounds that end their job
-- or bring its end nearer.
use vshift.Base.{
  ◌≡◌, sym, ◌∙◌, ap, subst, ◌⊎◌, inl, inr, ℕ, zero, suc, ◌≤◌, ◌<◌, some, List, [], ◌∷◌, ◌++◌, All,
  All-append, All-unsnoc, false, arith, nat_eq,
}
use vshift.Base.Exec.{ok}
use vshift.Job.{Uuid, pending, TranscodeJob}
use vshift.Ports.{Stores, Transcoder}
use vshift.Ports.Contract.{View, IsLawful}
use vshift.Worker.{process_next_job}
use vshift.Worker.Claiming.{next_pending}
use vshift.Worker.Looping.{loop-goes_on, run_loop-idles}
use vshift.Worker.Main.{StopEvent, run_loop}
use vshift.Worker.Queueing.{
  IsWaiting, IsApart, AreDistinct, weight_of, credit, credit-append, SameBeside, still-IsWaiting,
  same_credit, next_waiting, IsApart-snoc, distinct_snoc, IsOver, Ends, Drains, Rejoins,
}

module _ {W : Type 0} (P : Stores W) (view : W → View) (L : IsLawful P view) (worker : Uuid)
    (max_retries : ℕ) (T : Transcoder W) (timeout : ℕ) (stop : StopEvent W)
    (runs_on : (w : W) → stop.is_set w ≡ false) (waits : (w : W) → view (stop.wait w).1 ≡ view w)
    (Over : TranscodeJob → Type 0) (weight : TranscodeJob → ℕ)
    (heavy : (job : TranscodeJob) → 1 ≤ weight job)
    (round : (job : TranscodeJob) (w : W)
      → next_pending (view w) ≡ some job
      → (done : TranscodeJob) × (w' : W) × (process_next_job P worker max_retries T timeout w
          ≡ (ok (some done), w'))
        × (Ends Over job done (view w) (view w')
            ⊎ Rejoins weight job done (view w) (view w'))) where
  -- What a loop of so many rounds does with these ids in the queue.
  abbrev DrainsAt : ℕ → List Uuid → W → Type 0
  DrainsAt rounds ids w =
      (w' : W) × (run_loop P worker max_retries T timeout stop rounds w ≡ (ok tt, w'))
      × Drains Over ids (view w) (view w')

  -- What is assumed of the ids that wait.
  abbrev IsReady : ℕ → List Uuid → W → Type 0
  IsReady rounds ids w =
      ((view w).queue ≡ ids)
      × AreDistinct ids
      × All (IsWaiting (view w)) ids
      × (credit weight (view w) ids ≤ rounds)

  after_end :
      (rounds : ℕ) (id : Uuid) (ids : List Uuid) (w w2 : W) (done : TranscodeJob)
      → IsApart id ids
      → SameBeside id (view w) (view w2)
      → (view w2).jobs id ≡ some done
      → Over done
      → DrainsAt rounds ids w2
      → (w' : W) × (run_loop P worker max_retries T timeout stop rounds w2 ≡ (ok tt, w'))
        × Drains Over (id ∷ ids) (view w) (view w')
  after_end rounds id ids w w2 done apart same stored over (w3, looped, d) = (
    w3,
    looped,
    record {
      all_over = ((done, d.others id apart ∙ stored, over), d.all_over);
      others = λ other (differs, apart'). d.others other apart' ∙ same other (λ e. differs (sym e));
      no_queue = d.no_queue;
    },
  )

  after_retry :
      (rounds : ℕ) (id : Uuid) (ids : List Uuid) (w w2 : W)
      → SameBeside id (view w) (view w2)
      → DrainsAt rounds (ids ++ id ∷ []) w2
      → (w' : W) × (run_loop P worker max_retries T timeout stop rounds w2 ≡ (ok tt, w'))
        × Drains Over (id ∷ ids) (view w) (view w')
  after_retry rounds id ids w w2 same (w3, looped, d) = (
    w3,
    looped,
    record {
      all_over = All-unsnoc (IsOver Over (view w3)) ids id d.all_over;
      others = λ other (differs, apart').
          d.others other (IsApart-snoc id other ids apart' differs)
          ∙ same other (λ e. differs (sym e));
      no_queue = d.no_queue;
    },
  )

  IsReady-again :
      (rounds : ℕ) (id : Uuid) (ids : List Uuid) (w w2 : W) (again : TranscodeJob)
      → IsReady (suc rounds) (id ∷ ids) w
      → SameBeside id (view w) (view w2)
      → (view w2).jobs id ≡ some again
      → again.state ≡ pending
      → again.id ≡ id
      → weight again < weight_of weight ((view w).jobs id)
      → (view w2).queue ≡ ids ++ id ∷ []
      → IsReady rounds (ids ++ id ∷ []) w2
  IsReady-again rounds id ids w w2 again (q, (apart, distinct), (first, waiting), enough) same
        stored pends key lighter q' =
      (
        q',
        distinct_snoc id ids apart distinct,
        All-append (IsWaiting (view w2)) ids (id ∷ [])
            (still-IsWaiting id (view w) (view w2) same ids apart waiting)
            ((again, stored, pends, key), tt),
        omega (
          arith,
          enough,
          lighter,
          credit-append weight (view w2) ids id,
          same_credit weight id (view w) (view w2) same ids apart,
          ap (weight_of weight) stored,
        ),
      )

  pub drained :
      (rounds : ℕ) (ids : List Uuid) (w : W) → IsReady rounds ids w → DrainsAt rounds ids w
  drained rounds [] w ready =
      let (w', looped, kept) =
        run_loop-idles P view L worker max_retries T timeout stop runs_on waits rounds w ready.0 in
      (
        w',
        looped,
        record {
          all_over = tt;
          others = λ id apart. ap (λ v. v.jobs id) kept;
          no_queue = ap (λ v. v.queue) kept ∙ ready.0;
        },
      )
  drained zero (id ∷ ids) w (q, distinct, ((job, known, pends, key), waiting), enough) =
      absurd (omega (arith, enough, heavy job, ap (weight_of weight) known))
  drained (suc rounds) (id ∷ ids) w ready =
      let (q, (apart, distinct), (first, waiting), enough) = ready in
      let (job, known, pends, key) = first in
      let (done, w1, ran, outcome) = round job w (next_waiting id ids (view w) q first) in
      let w2 = P.heartbeat worker w1 in
      let beat : view w2 ≡ view w1 = L.heartbeat_lem worker w1 in
      let stored : (view w1).jobs job.id ≡ some done → (view w2).jobs id ≡ some done =
        λ s. ap (λ v. v.jobs id) beat ∙ subst (λ k. (view w1).jobs k ≡ some done) key s in
      let same : SameBeside job.id (view w) (view w1) → SameBeside id (view w) (view w2) =
        λ s other differs. ap (λ v. v.jobs other) beat ∙ s other (λ e. differs (e ∙ key)) in
      let (w3, looped, d) =
        elim outcome
          as (λ _.
            (w' : W) × (run_loop P worker max_retries T timeout stop rounds w2 ≡ (ok tt, w'))
            × Drains Over (id ∷ ids) (view w) (view w')) [
              | inl e ↦
                  after_end rounds id ids w w2 done apart (same e.others) (stored e.is_stored)
                    e.is_over
                    (drained rounds ids w2 (
                      ground (arith, e.taken),
                      distinct,
                      still-IsWaiting id (view w) (view w2) (same e.others) ids apart waiting,
                      omega (
                        arith,
                        enough,
                        heavy job,
                        ap (weight_of weight) known,
                        same_credit weight id (view w) (view w2) (same e.others) ids apart,
                      ),
                    ))
              | inr r ↦ after_retry rounds id ids w w2 (same r.others) (
                  drained rounds (ids ++ id ∷ []) w2 (
                    IsReady-again rounds id ids w w2 done ready (same r.others) (stored r.is_stored)
                      r.is_pending (r.same_id ∙ key)
                      (omega (arith, r.lighter, ap (weight_of weight) known))
                      (ground (arith, r.queued_again))))
            ] in
      (
        w3,
        loop-goes_on P view L worker max_retries T timeout stop runs_on waits rounds w w1 done ran
            ∙ looped,
        d,
      )
