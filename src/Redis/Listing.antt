-- ===== src/Redis/Listing.antt =====
-- The index sets of `RedisJobRepository`: each member that the stores write is the text of a UUID,
-- so that `list_by_state` returns jobs that the index lists.
use vshift.Base.{
  All, All-take, All-drop, [], ◌∷◌, ◌≡◌, refl, sym, ap, ◌∙◌, subst, String, true, false, Bool,
  Option, none, some, List, arith, ◌==◌, string_eq, nat_eq, Bool-cases, inl, inr, contains,
}
use vshift.Base.Sorting.{sorted-All}
use vshift.Api.{newest_first}
use vshift.Job.{JobState, TranscodeJob, job_state_eq}
use vshift.Ports.Contract.{View, IsListed, IsListing}
use vshift.Redis.{Client, Codec, RedisKeys, Ttls, job_key, job_state_index}
use vshift.Redis.Keys.{IsUuidText}
use vshift.Redis.Keyspace.{Keyspace, IsKeyspace, put_string, put_member, view_of}
use vshift.Redis.Effects.{unlisted}
use vshift.Redis.Refinement.{get-view, save-model, popped-rest}
use vshift.Redis.Stores.{get, fetch, list_by_state, redis_stores}

contains-here : (x : String) (xs : List String) → contains (x ∷ xs) x ≡ true
contains-here x xs = ground arith

contains-there :
    (x y : String) (xs : List String) → contains xs y ≡ true → contains (x ∷ xs) y ≡ true
contains-there x y xs h = ground arith

module _ (keys : RedisKeys) (codec : Codec) where
  -- The members of the index are texts of UUIDs.
  abbrev pub HasUuids : Keyspace → Type 0
  HasUuids m =
      (s : JobState) (t : String)
      → m.sets (job_state_index keys codec s) t ≡ true
      → codec.uuid_text (codec.uuid_of t) ≡ t

  put_member-HasUuids :
      (present : Bool) (key member : String) (m : Keyspace)
      → codec.uuid_text (codec.uuid_of member) ≡ member
      → HasUuids m
      → HasUuids (put_member present key member m)
  put_member-HasUuids present key member m reads h s t listed = elim (Bool-cases (t == member)) [
    | inl same ↦ ground arith
    | inr other ↦ h s t (ground arith)
  ]

  unlisted-HasUuids :
      (U : IsUuidText codec) (old : Option TranscodeJob) (job : TranscodeJob) (m : Keyspace)
      → HasUuids m
      → HasUuids (unlisted keys codec U old job m)
  unfolding unlisted
  unlisted-HasUuids U none job m h = h
  unlisted-HasUuids U (some existing) job m h = elim (Bool-cases (existing.state == job.state)) [
    | inl same ↦ rw same h
    | inr other ↦ rw other (put_member-HasUuids false _ _ m (ap codec.uuid_text (U.reads job.id)) h)
  ]

module _ (keys : RedisKeys) (codec : Codec) (U : IsUuidText codec) {W : Type 0} (R : Client W)
    (ttls : Ttls) (model : W → Keyspace) (holds_text : String → Type 0)
    (K : IsKeyspace R model holds_text) where
  abbrev view : W → View
  view w = view_of keys codec (model w)

  and_listed :
      (s : JobState) (w : W) (o : Option TranscodeJob) (jobs : List TranscodeJob)
      → ((job : TranscodeJob) → o ≡ some job → IsListed (view w) s job)
      → All (IsListed (view w) s) jobs
      → All (IsListed (view w) s) (elim o [ none ↦ jobs | some job ↦ job ∷ jobs ])
  and_listed s w none jobs found h = h
  and_listed s w (some job) jobs found h = (found job refl, h)

  fetch-IsListed :
      (s : JobState) (ids : List String) (w : W)
      → HasUuids keys codec (model w)
      → ((t : String)
          → contains ids t ≡ true
          → (model w).sets (job_state_index keys codec s) t ≡ true)
      → All (IsListed (view w) s) (fetch keys codec R ttls ids w)
  unfolding fetch
  fetch-IsListed s [] w tidy members = tt
  fetch-IsListed s (t ∷ ids) w tidy members =
      let here = members t (contains-here t ids) in
      and_listed s w (get keys codec R ttls (codec.uuid_of t) w) _
        (λ job e. (
          codec.uuid_of t,
          subst (λ x. (model w).sets (job_state_index keys codec s) x ≡ true) (sym (tidy s t here))
              here,
          sym (get-view keys codec U R ttls model holds_text K (codec.uuid_of t) w) ∙ e,
        ))
        (fetch-IsListed s ids w tidy (λ x h. members x (contains-there t x ids h)))

  save-HasUuids :
      (job : TranscodeJob) (w : W)
      → HasUuids keys codec (model w)
      → HasUuids keys codec (model ((redis_stores keys codec R ttls).save job w))
  unfolding redis_stores
  save-HasUuids job w tidy =
      subst (HasUuids keys codec) (sym (save-model keys codec U R ttls model holds_text K job w)) (
        put_member-HasUuids keys codec true _ _
          (put_string (job_key keys codec job.id) (some (codec.dump_job job))
            (unlisted keys codec U ((view w).jobs job.id) job (model w)))
          (ap codec.uuid_text (U.reads job.id))
          (unlisted-HasUuids keys codec U ((view w).jobs job.id) job (model w) tidy))

  -- In Redis a state is tidy where the index holds texts of UUIDs, which each call keeps.
  pub redis_stores-IsListing :
      IsListing (redis_stores keys codec R ttls) (λ w. view_of keys codec (model w))
  unfolding redis_stores list_by_state
  redis_stores-IsListing = record {
    IsTidy = λ w. HasUuids keys codec (model w);
    list_sound = λ s limit offset w tidy. All-take _ limit _ (
        All-drop _ offset _ (
          sorted-All newest_first _ _ (
            fetch-IsListed s (R.smembers (job_state_index keys codec s) w) w tidy
              (λ t h. sym (K.smembers_lem _ t w) ∙ h))));
    save_tidy = save-HasUuids;
    enqueue_tidy = λ id w tidy. subst (HasUuids keys codec) (sym (K.lpush_lem _ _ w)) tidy;
    dequeue_tidy = λ timeout w tidy.
        subst (HasUuids keys codec)
          (sym (popped-rest keys codec U R ttls model holds_text K timeout w)) tidy;
    push_to_dead_letter_tidy =
        λ id w tidy. subst (HasUuids keys codec) (sym (K.lpush_lem _ _ w)) tidy;
    now_tidy = λ w tidy. subst (HasUuids keys codec) (sym (K.now_lem w)) tidy;
  }

  pub HasUuids-IsTidy : (w : W) → HasUuids keys codec (model w) → redis_stores-IsListing.IsTidy w
  unfolding redis_stores-IsListing
  HasUuids-IsTidy w tidy = tidy
