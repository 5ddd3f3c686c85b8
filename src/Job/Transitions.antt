-- ===== src/Job/Transitions.antt =====
-- The diagram of src/vshift/domain/job/job_state_machine.py.
use vshift.Base.{◌≡◌, refl, ◌≢◌, ◌↔◌, ◌⊎◌, inl, inr, arith}
use vshift.Base.Exec.{Error, ok, err, vshift_exception}
use vshift.Job.{JobState, pending, claimed, processing, completed, failed, transition}

infix 40 ◌⟶◌ ◌⟶*◌
pub data ◌⟶◌ : JobState → JobState → Type 0 where
  claim : pending ⟶ claimed
  abandon : pending ⟶ failed
  start : claimed ⟶ processing
  finish : processing ⟶ completed
  requeue_claimed : claimed ⟶ pending
  requeue_processing : processing ⟶ pending
  fail_claimed : claimed ⟶ failed
  fail_processing : processing ⟶ failed

pub data ◌⟶*◌ : JobState → JobState → Type 0 where
  here : {s : JobState} → s ⟶* s
  next : {s t u : JobState} → s ⟶ t → t ⟶* u → s ⟶* u

ruleset edges = (
  claim, abandon, start, finish, requeue_claimed, requeue_processing, fail_claimed, fail_processing,
)

transition-⟶ : (s t : JobState) → transition s t ≡ ok t → s ⟶ t
unfolding transition
transition-⟶ s t h = grind (arith, edges)

⟶-transition : {s t : JobState} → s ⟶ t → transition s t ≡ ok t
unfolding transition
⟶-transition claim = refl
⟶-transition abandon = refl
⟶-transition start = refl
⟶-transition finish = refl
⟶-transition requeue_claimed = refl
⟶-transition requeue_processing = refl
⟶-transition fail_claimed = refl
⟶-transition fail_processing = refl

-- The table allows a transition exactly along the edges of the diagram.
pub transition_iff : (s t : JobState) → (transition s t ≡ ok t) ↔ (s ⟶ t)
transition_iff s t = (transition-⟶ s t, ⟶-transition)

no_way_on : {s t : JobState} → s ⟶ t → (s ≢ completed) × (s ≢ failed)
no_way_on claim = (λ e. cc, λ e. cc)
no_way_on abandon = (λ e. cc, λ e. cc)
no_way_on start = (λ e. cc, λ e. cc)
no_way_on finish = (λ e. cc, λ e. cc)
no_way_on requeue_claimed = (λ e. cc, λ e. cc)
no_way_on requeue_processing = (λ e. cc, λ e. cc)
no_way_on fail_claimed = (λ e. cc, λ e. cc)
no_way_on fail_processing = (λ e. cc, λ e. cc)

-- Completed and failed are final: no chain of allowed transitions leads out of them.
final_states : {s t : JobState} → (s ≡ completed) ⊎ (s ≡ failed) → s ⟶* t → t ≡ s
final_states h here = refl
final_states (inl e) (next edge r) = absurd ((no_way_on edge).0 e)
final_states (inr e) (next edge r) = absurd ((no_way_on edge).1 e)

ruleset walks = (here, next, edges)

-- From every other state a job can still be completed, and it can still fail.
pub live_states : (s : JobState) → s ≢ completed → s ≢ failed → (s ⟶* completed) × (s ⟶* failed)
live_states pending h k = (search walks, search walks)
live_states claimed h k = (search walks, search walks)
live_states processing h k = (search walks, search walks)
live_states completed h k = absurd (h refl)
live_states failed h k = absurd (k refl)

module _ (s : JobState) where
  pub claim_ok : s ≡ pending → transition s claimed ≡ ok claimed
  unfolding transition
  claim_ok h = ground arith

  pub start_ok : s ≡ claimed → transition s processing ≡ ok processing
  unfolding transition
  start_ok h = ground arith

  -- A worker that runs a job again finds it processing: the table has no such transition.
  pub start_again : s ≡ processing → (e : Error) × (transition s processing ≡ err e)
  unfolding transition
  start_again h = (vshift_exception "invalid job state transition", ground arith)

  pub finish_ok : s ≡ processing → transition s completed ≡ ok completed
  unfolding transition
  finish_ok h = ground arith

  pub requeue_ok : (s ≡ claimed) ⊎ (s ≡ processing) → transition s pending ≡ ok pending
  unfolding transition
  requeue_ok h = ground arith

  pub fail_ok : (s ≡ claimed) ⊎ (s ≡ processing) → transition s failed ≡ ok failed
  unfolding transition
  fail_ok h = ground arith
