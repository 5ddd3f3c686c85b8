-- ===== src/Worker/Looping.antt =====
-- The rounds of the loop in src/vshift/application/worker/main.py, while no signal comes.
use vshift.Base.{
  ◌≡◌, refl, sym, ◌∙◌, ap, ℕ, zero, suc, false, none, some, [], arith, nat_eq, Bool-cases, inl, inr,
  if◌then◌else◌,
}
use vshift.Base.Exec.{ok, Exec, ◌>>=◌}
use vshift.Job.{TranscodeJob, Uuid}
use vshift.Ports.{Stores, Transcoder}
use vshift.Ports.Contract.{View, IsLawful, drop_queue, rest}
use vshift.Worker.{process_next_job, process_found, claim_job}
use vshift.Worker.Claiming.{view-claim_job}
use vshift.Worker.Main.{StopEvent, run_loop}

module _ {W : Type 0} (P : Stores W) (view : W → View) (L : IsLawful P view) (worker : Uuid)
    (max_retries : ℕ) (T : Transcoder W) (timeout : ℕ) (stop : StopEvent W)
    (runs_on : (w : W) → stop.is_set w ≡ false)
    (waits : (w : W) → view (stop.wait w).1 ≡ view w) where
  abbrev loop : ℕ → Exec W Unit
  loop = run_loop P worker max_retries T timeout stop

  still_empty : (v : View) → v.queue ≡ [] → drop_queue v ≡ v
  still_empty v empty =
      ap (λ q. record v { queue = rest q }) empty ∙ sym (ap (λ q. record v { queue = q }) empty)

  idle_round :
      (w : W)
      → (view w).queue ≡ []
      → (w' : W) × (process_next_job P worker max_retries T timeout w ≡ (ok none, w'))
        × (view w' ≡ view w)
  unfolding process_next_job process_found ◌>>=◌
  idle_round w empty =
      let (returned, left) = view-claim_job P view L worker timeout w in
      let unchanged = still_empty (view w) empty in
      ((claim_job P worker timeout w).1, ground arith, ground arith)

  -- A round that has found no job waits for the stop event.
  loop-waits :
      (rounds : ℕ) (w w1 : W)
      → process_next_job P worker max_retries T timeout w ≡ (ok none, w1)
      → let (stopped, w2) = stop.wait (P.heartbeat worker w1) in
        loop (suc rounds) w ≡ (if stopped then (ok tt, w2) else loop rounds w2)
  unfolding run_loop ◌>>=◌
  loop-waits rounds w w1 ran = ground (arith, runs_on w)

  -- After a job the loop goes on at once.
  pub loop-goes_on :
      (rounds : ℕ) (w w1 : W) (job : TranscodeJob)
      → process_next_job P worker max_retries T timeout w ≡ (ok (some job), w1)
      → loop (suc rounds) w ≡ loop rounds (P.heartbeat worker w1)
  unfolding run_loop ◌>>=◌
  loop-goes_on rounds w w1 job ran = ground (arith, runs_on w)

  -- With an empty queue the loop waits, and writes nothing but the worker's own heartbeats.
  pub run_loop-idles :
      (rounds : ℕ) (w : W)
      → (view w).queue ≡ []
      → (w' : W) × (loop rounds w ≡ (ok tt, w')) × (view w' ≡ view w)
  unfolding run_loop ◌>>=◌
  run_loop-idles zero w empty = (w, refl, refl)
  run_loop-idles (suc rounds) w empty =
      let (w1, ran, left) = idle_round w empty in
      let (stopped, w2) = stop.wait (P.heartbeat worker w1) in
      let kept : view w2 ≡ view w = waits _ ∙ L.heartbeat_lem worker w1 ∙ left in
      let (w3, looped, left') = run_loop-idles rounds w2 (ap (λ v. v.queue) kept ∙ empty) in
      let next = loop-waits rounds w w1 ran in
      elim (Bool-cases stopped) [
        | inl leaves ↦ (w2, ground arith, kept)
        | inr stays ↦ (w3, ground arith, left' ∙ kept)
      ]
