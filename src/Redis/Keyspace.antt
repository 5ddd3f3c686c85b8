-- ===== src/Redis/Keyspace.antt =====
-- What Redis documents of its commands, as their effect on the texts, sets and lists it keeps, and
-- the view of the ports that the keys of the stores give.
use vshift.Base.{
  ◌≡◌, ℕ, String, Bool, true, false, Option, none, some, List, [], ◌∷◌, ◌++◌, map, contains, ◌==◌,
  string_eq, is_some, length, if◌then◌else◌,
}
use vshift.Job.{TranscodeJob}
use vshift.Ports.Contract.{View}
use vshift.Redis.{
  Client, Codec, RedisKeys, pending_queue, dead_letter_queue, job_key, job_heartbeat_key,
  job_state_index, processed_file,
}
use vshift.Redis.RoundTrip.{first?, others}

-- The texts, the members of the sets, and the values of the lists from right to left.
pub record Keyspace : Type 0 where
  pub strings : String → Option String
  pub sets : String → String → Bool
  pub lists : String → List String

abbrev pub put_string : String → Option String → Keyspace → Keyspace
put_string key value m = record m { strings = λ k. if k == key then value else m.strings k }

abbrev pub put_member : (present : Bool) → (key member : String) → Keyspace → Keyspace
put_member present key member m = record m {
  sets = λ k. λ x. if k == key then (if x == member then present else m.sets k x) else m.sets k x;
}

abbrev pub put_list : String → List String → Keyspace → Keyspace
put_list key values m = record m { lists = λ k. if k == key then values else m.lists k }

-- The commands at the moment at which they run. A key is used for values of one kind; `holds_text`
-- says for which keys that is a text. What expires meanwhile is not an effect of a command.
pub record IsKeyspace {W : Type 0} (R : Client W) (model : W → Keyspace)
    (holds_text : String → Type 0) : Type 0 where
  pub get_lem : (key : String) (w : W) → R.get key w ≡ (model w).strings key
  pub set_lem :
      (key value : String) (ex : Option ℕ) (w : W)
      → model (R.set key value ex w) ≡ put_string key (some value) (model w)
  pub delete_lem : (key : String) (w : W) → model (R.delete key w) ≡ put_string key none (model w)
  pub exists_lem :
      (key : String) (w : W) → holds_text key → R.exists key w ≡ is_some ((model w).strings key)
  pub sadd_lem :
      (key member : String) (w : W)
      → model (R.sadd key member w) ≡ put_member true key member (model w)
  pub srem_lem :
      (key member : String) (w : W)
      → model (R.srem key member w) ≡ put_member false key member (model w)
  pub smembers_lem :
      (key member : String) (w : W) → contains (R.smembers key w) member ≡ (model w).sets key member
  pub lpush_lem :
      (key value : String) (w : W)
      → model (R.lpush key value w) ≡ put_list key ((model w).lists key ++ value ∷ []) (model w)
  pub rpop_value : (key : String) (w : W) → (R.rpop key w).0 ≡ first? ((model w).lists key)
  pub rpop_rest :
      (key : String) (w : W)
      → model (R.rpop key w).1 ≡ put_list key (others ((model w).lists key)) (model w)
  pub brpop_value :
      (key : String) (timeout : ℕ) (w : W)
      → (R.brpop key timeout w).0
        ≡ (elim (first? ((model w).lists key)) [ none ↦ none | some v ↦ some (key, v) ])
  pub brpop_rest :
      (key : String) (timeout : ℕ) (w : W)
      → model (R.brpop key timeout w).1 ≡ put_list key (others ((model w).lists key)) (model w)
  pub llen_lem : (key : String) (w : W) → R.llen key w ≡ length ((model w).lists key)
  pub now_lem : (w : W) → model (R.now w).1 ≡ model w
  pub uuid4_lem : (w : W) → model (R.uuid4 w).1 ≡ model w

abbrev pub reversed : {A : Type 0} → List A → List A
reversed [] = []
reversed (x ∷ xs) = reversed xs ++ x ∷ []

module _ (keys : RedisKeys) (codec : Codec) where
  -- the job in a text
  abbrev pub loaded : Option String → Option TranscodeJob
  loaded none = none
  loaded (some payload) = some (codec.load_job payload)

  abbrev pub view_of : Keyspace → View
  view_of m = record {
    jobs = λ id. loaded (m.strings (job_key keys codec id));
    index = λ s. λ id. m.sets (job_state_index keys codec s) (codec.uuid_text id);
    queue = map codec.uuid_of (m.lists (pending_queue keys codec));
    dead = reversed (map codec.uuid_of (m.lists (dead_letter_queue keys codec)));
    processed = λ path. is_some (m.strings (processed_file keys codec path));
    alive = λ id. is_some (m.strings (job_heartbeat_key keys codec id));
  }
