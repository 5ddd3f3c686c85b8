-- ===== src/Redis/Keys.antt =====
-- src/vshift/infrastructure/redis/keys.py: two different things never share a key.
use text.Mathlib.TextLemmas.{
  append_cancel_left, append_cancel_right, append_inj, append_assoc, length-append,
}
use Prim.Native.String.{count}
use vshift.Base.{
  ◌≡◌, refl, sym, ap, ◌∙◌, ◌≢◌, ◌+◌, ◌<>◌, String, true, false, Eq, ◌==◌, arith, nat_eq, string_eq,
  ℕ_discrete, if◌then◌else◌, Bool-cases, inl, inr,
}
use vshift.Base.FilePath.{FilePath}
use vshift.Job.{Uuid, JobState, pending, claimed, processing, completed, failed, job_state_eq}
use vshift.Redis.{
  Codec, RedisKeys, state_value, pending_queue, dead_letter_queue, job_key, job_summary_key,
  job_heartbeat_key, job_state_index, worker_key, workers_index, processed_file,
}

-- What is relied on in the text of a UUID: it can be read back, and none is another one with the
-- end of a key behind it, since it has no colon.
pub record IsUuidText (codec : Codec) : Type 0 where
  pub reads : (id : Uuid) → codec.uuid_of (codec.uuid_text id) ≡ id
  pub not_heartbeat : (i j : Uuid) → codec.uuid_text i ≢ codec.uuid_text j <> ":heartbeat"
  pub not_summary : (i j : Uuid) → codec.uuid_text i ≢ codec.uuid_text j <> ":summary"

pub eq-false : {A : Type 0} ⦃e : Eq A⦄ (a b : A) → a ≢ b → (a == b) ≡ false
eq-false a b differ = elim (Bool-cases (a == b)) [
  | inl same ↦ absurd (differ (ground arith))
  | inr apart ↦ apart
]

pub differ : {A : Type 0} ⦃e : Eq A⦄ (a b : A) → (a == b) ≡ false → a ≢ b
differ a b h same = ground arith

eq-true : {A : Type 0} ⦃e : Eq A⦄ (a b : A) → a ≡ b → (a == b) ≡ true
eq-true a b same = ground arith

true-eq : {A : Type 0} ⦃e : Eq A⦄ (a b : A) → (a == b) ≡ true → a ≡ b
true-eq a b same = ground arith

-- Keys are equal just where what they are made of is.
pub eq-key :
    {A B : Type 0} ⦃e : Eq A⦄ ⦃f : Eq B⦄ (key : A → B) (a b : A)
    → (key a ≡ key b → a ≡ b)
    → (key a == key b) ≡ (a == b)
eq-key key a b injective = elim (Bool-cases (a == b)) [
  | inl same ↦ eq-true (key a) (key b) (ap key (true-eq a b same)) ∙ sym same
  | inr apart ↦ eq-false (key a) (key b) (λ e. differ a b apart (injective e)) ∙ sym apart
]

-- Texts that begin differently, with the same length, differ.
apart : (a b x y s t : String) → count a ≡ count b → a ≢ b → (a <> x) <> s ≢ (b <> y) <> t
apart a b x y s t same differs e =
    differs (append_inj (sym (append_assoc a x s) ∙ e ∙ append_assoc b y t) same).0

-- Texts that end differently, with the same length, differ.
pub differ_at_end : (x y a b : String) → count a ≡ count b → a ≢ b → x <> a ≢ y <> b
differ_at_end x y a b same differs e =
    let n : count x + count a ≡ count y + count b =
      sym (length-append x a) ∙ ap count e ∙ length-append y b in
    differs (append_inj e (omega (arith, n, same))).1

-- the state with this value
state_of : String → JobState
state_of s =
    if s == "pending"
    then pending
    else if s == "claimed"
    then claimed
    else if s == "processing"
    then processing
    else if s == "completed"
    then completed
    else failed

state_of-state_value : (s : JobState) → state_of (state_value s) ≡ s
unfolding state_of string_eq ℕ_discrete
state_of-state_value pending = refl
state_of-state_value claimed = refl
state_of-state_value processing = refl
state_of-state_value completed = refl
state_of-state_value failed = refl

module _ (keys : RedisKeys) (codec : Codec) (U : IsUuidText codec) where
  uuid_text-injective : (i j : Uuid) → codec.uuid_text i ≡ codec.uuid_text j → i ≡ j
  uuid_text-injective i j e = sym (U.reads i) ∙ ap codec.uuid_of e ∙ U.reads j

  pub eq-uuid_text : (i j : Uuid) → (codec.uuid_text i == codec.uuid_text j) ≡ (i == j)
  eq-uuid_text i j = eq-key codec.uuid_text i j (uuid_text-injective i j)

  pub eq-job_key : (i j : Uuid) → (job_key keys codec i == job_key keys codec j) ≡ (i == j)
  eq-job_key i j = eq-key (job_key keys codec) i j (λ e.
      uuid_text-injective i j
        (append_cancel_left ":job:" _ _ (append_cancel_left keys.prefix _ _ e)))

  pub eq-job_heartbeat_key :
      (i j : Uuid) → (job_heartbeat_key keys codec i == job_heartbeat_key keys codec j) ≡ (i == j)
  eq-job_heartbeat_key i j = eq-key (job_heartbeat_key keys codec) i j (λ e.
      uuid_text-injective i j (
        append_cancel_right _ _ ":heartbeat"
          (append_cancel_left ":job:" _ _ (append_cancel_left keys.prefix _ _ e))))

  pub eq-job_state_index :
      (s t : JobState) → (job_state_index keys codec s == job_state_index keys codec t) ≡ (s == t)
  eq-job_state_index s t = eq-key (job_state_index keys codec) s t (λ e.
      sym (state_of-state_value s)
      ∙ ap state_of (append_cancel_left ":jobs:state:" _ _ (append_cancel_left keys.prefix _ _ e))
      ∙ state_of-state_value t)

  -- Keys of different kinds differ in what follows the start that they share.
  pub job-processed :
      (id : Uuid) (path : FilePath) → job_key keys codec id ≢ processed_file keys codec path
  unfolding string_eq ℕ_discrete
  job-processed id path e =
      apart ":j" ":p" "ob:" "rocessed:" (codec.uuid_text id) (codec.canonical_path path) refl
        (differ ":j" ":p" refl) (append_cancel_left keys.prefix _ _ e)

  pub job-worker : (id worker : Uuid) → job_key keys codec id ≢ worker_key keys codec worker
  unfolding string_eq ℕ_discrete
  job-worker id worker e =
      apart ":j" ":w" "ob:" "orkers:" (codec.uuid_text id) (codec.uuid_text worker) refl
        (differ ":j" ":w" refl) (append_cancel_left keys.prefix _ _ e)

  pub job_heartbeat-processed :
      (id : Uuid) (path : FilePath)
      → job_heartbeat_key keys codec id ≢ processed_file keys codec path
  unfolding string_eq ℕ_discrete
  job_heartbeat-processed id path e =
      apart ":j" ":p" "ob:" "rocessed:" (codec.uuid_text id <> ":heartbeat")
        (codec.canonical_path path) refl (differ ":j" ":p" refl)
        (append_cancel_left keys.prefix _ _ e)

  pub job_heartbeat-worker :
      (id worker : Uuid) → job_heartbeat_key keys codec id ≢ worker_key keys codec worker
  unfolding string_eq ℕ_discrete
  job_heartbeat-worker id worker e =
      apart ":j" ":w" "ob:" "orkers:" (codec.uuid_text id <> ":heartbeat") (codec.uuid_text worker)
        refl (differ ":j" ":w" refl) (append_cancel_left keys.prefix _ _ e)

  pub processed-worker :
      (path : FilePath) (worker : Uuid)
      → processed_file keys codec path ≢ worker_key keys codec worker
  unfolding string_eq ℕ_discrete
  processed-worker path worker e =
      apart ":p" ":w" "rocessed:" "orkers:" (codec.canonical_path path) (codec.uuid_text worker)
        refl (differ ":p" ":w" refl) (append_cancel_left keys.prefix _ _ e)

  pub processed-job_summary :
      (path : FilePath) (id : Uuid) → processed_file keys codec path ≢ job_summary_key keys codec id
  unfolding string_eq ℕ_discrete
  processed-job_summary path id e =
      apart ":p" ":j" "rocessed:" "ob:" (codec.canonical_path path)
        (codec.uuid_text id <> ":summary") refl (differ ":p" ":j" refl)
        (append_cancel_left keys.prefix _ _ e)

  pub job-job_heartbeat : (i j : Uuid) → job_key keys codec i ≢ job_heartbeat_key keys codec j
  job-job_heartbeat i j e =
      U.not_heartbeat i j (append_cancel_left ":job:" _ _ (append_cancel_left keys.prefix _ _ e))

  pub job-job_summary : (i j : Uuid) → job_key keys codec i ≢ job_summary_key keys codec j
  job-job_summary i j e =
      U.not_summary i j (append_cancel_left ":job:" _ _ (append_cancel_left keys.prefix _ _ e))

  pub job_heartbeat-job_summary :
      (i j : Uuid) → job_heartbeat_key keys codec i ≢ job_summary_key keys codec j
  unfolding string_eq ℕ_discrete
  job_heartbeat-job_summary i j e =
      differ_at_end (codec.uuid_text i <> ":h") (codec.uuid_text j) "eartbeat" ":summary" refl
        (differ "eartbeat" ":summary" refl)
        (append_assoc (codec.uuid_text i) ":h" "eartbeat"
          ∙ append_cancel_left ":job:" _ _ (append_cancel_left keys.prefix _ _ e))

  pub job_state_index-workers_index :
      (s : JobState) → job_state_index keys codec s ≢ workers_index keys codec
  unfolding string_eq ℕ_discrete
  job_state_index-workers_index s e =
      apart ":j" ":w" "obs:state:" "orkers:index" (state_value s) "" refl (differ ":j" ":w" refl)
        (append_cancel_left keys.prefix _ _ e)

  pub pending_queue-dead_letter_queue : pending_queue keys codec ≢ dead_letter_queue keys codec
  unfolding string_eq ℕ_discrete
  pending_queue-dead_letter_queue e =
      differ ":queue:pending" ":dlq" refl (append_cancel_left keys.prefix _ _ e)
