-- ===== src/Redis/RoundTrip.antt =====
-- What was saved in Redis is read back and listed, and the pending queue is first in, first out.
use vshift.Base.{
  ◌≡◌, refl, ap, ◌∙◌, ℕ, String, true, Option, none, some, List, [], ◌∷◌, ◌++◌, map, arith,
  contains, string_eq, Option-cases, inl, inr, ltb, Bool-cases,
}
use vshift.Job.{Uuid, TranscodeJob, job_state_eq}
use vshift.Ports.Contract.{head?, rest}
use vshift.Redis.{Client, Codec, RedisKeys, Ttls, pending_queue, job_key, job_state_index}
use vshift.Redis.Stores.{get, save, dequeue, redis_stores}

abbrev pub first? : List String → Option String
first? [] = none
first? (v ∷ vs) = some v

abbrev pub others : List String → List String
others [] = []
others (v ∷ vs) = vs

-- What Redis documents of the commands that the theorems rest on, with the values of a list from
-- its right end to its left. A `brpop` that returns has waited for a value, or for its timeout.
pub record IsRedis {W : Type 0} (R : Client W) (values : String → W → List String) : Type 0 where
  pub get_set :
      (key value : String) (ex : Option ℕ) (w : W) → R.get key (R.set key value ex w) ≡ some value
  pub get_sadd : (key set member : String) (w : W) → R.get key (R.sadd set member w) ≡ R.get key w
  pub member_sadd :
      (key member : String) (w : W) → contains (R.smembers key (R.sadd key member w)) member ≡ true
  pub values_lpush :
      (key value : String) (w : W) → values key (R.lpush key value w) ≡ values key w ++ value ∷ []
  pub rpop_value : (key : String) (w : W) → (R.rpop key w).0 ≡ first? (values key w)
  pub rpop_values : (key : String) (w : W) → values key (R.rpop key w).1 ≡ others (values key w)
  pub brpop_value :
      (key : String) (timeout : ℕ) (w : W)
      → (R.brpop key timeout w).0
        ≡ (elim (first? (values key w)) [ none ↦ none | some v ↦ some (key, v) ])
  pub brpop_values :
      (key : String) (timeout : ℕ) (w : W)
      → values key (R.brpop key timeout w).1 ≡ others (values key w)

module _ (codec : Codec) where
  pub map-snoc :
      (vs : List String) (id : Uuid)
      → codec.uuid_of (codec.uuid_text id) ≡ id
      → map codec.uuid_of (vs ++ codec.uuid_text id ∷ []) ≡ map codec.uuid_of vs ++ id ∷ []
  map-snoc [] id reads = ap (λ i. i ∷ []) reads
  map-snoc (v ∷ vs) id reads = ap (λ ids. codec.uuid_of v ∷ ids) (map-snoc vs id reads)

  pub map-rest : (vs : List String) → map codec.uuid_of (others vs) ≡ rest (map codec.uuid_of vs)
  map-rest [] = refl
  map-rest (v ∷ vs) = refl

  map-head :
      (vs : List String) (o : Option String)
      → first? vs ≡ o
      → head? (map codec.uuid_of vs) ≡ (elim o [ none ↦ none | some v ↦ some (codec.uuid_of v) ])
  map-head [] none e = refl
  map-head [] (some v) e = absurd (ground arith)
  map-head (v ∷ vs) none e = absurd (ground arith)
  map-head (v ∷ vs) (some u) e = ground arith

module _ (keys : RedisKeys) (codec : Codec) {W : Type 0} (R : Client W) (ttls : Ttls)
    (values : String → W → List String) (L : IsRedis R values) where
  get-read :
      (id : Uuid) (payload : String) (w : W)
      → R.get (job_key keys codec id) w ≡ some payload
      → get keys codec R ttls id w ≡ some (codec.load_job payload)
  unfolding get
  get-read id payload w e = ground arith

  -- A saved job whose JSON can be read back is read back as it was, and its id is listed under its
  -- state.
  get-save :
      (job : TranscodeJob) (w : W)
      → codec.load_job (codec.dump_job job) ≡ job
      → let w' = save keys codec R ttls job w in
        (get keys codec R ttls job.id w' ≡ some job)
        × (contains (R.smembers (job_state_index keys codec job.state) w') (codec.uuid_text job.id)
            ≡ true)
  unfolding save
  get-save job w loads = (
    get-read job.id _ _ (L.get_sadd _ _ _ _ ∙ L.get_set _ _ _ _) ∙ ap some loads,
    L.member_sadd _ _ _,
  )

  -- The ids that wait, the next one first.
  abbrev pub waiting : W → List Uuid
  waiting w = map codec.uuid_of (values (pending_queue keys codec) w)

  module _ (timeout : ℕ) (w : W) where
    abbrev pub key : String
    key = pending_queue keys codec

    pub dequeue-value : (dequeue keys codec R ttls timeout w).0 ≡ head? (waiting w)
    unfolding dequeue
    dequeue-value = elim (Bool-cases (ltb 0 timeout)) [
      | inl waits ↦ elim (Option-cases (first? (values key w))) [
        | inl empty ↦
            ground (arith, L.brpop_value key timeout w, map-head codec (values key w) none empty)
        | inr (v, e) ↦
            ground (arith, L.brpop_value key timeout w, map-head codec (values key w) (some v) e)
      ]
      | inr at_once ↦ elim (Option-cases (first? (values key w))) [
        | inl empty ↦ ground (arith, L.rpop_value key w, map-head codec (values key w) none empty)
        | inr (v, e) ↦ ground (arith, L.rpop_value key w, map-head codec (values key w) (some v) e)
      ]
    ]

    pub dequeue-values : values key (dequeue keys codec R ttls timeout w).1 ≡ others (values key w)
    unfolding dequeue
    dequeue-values = elim (Bool-cases (ltb 0 timeout)) [
      | inl waits ↦ elim (Option-cases (R.brpop key timeout w).0) [
        | inl empty ↦ ground (arith, L.brpop_values key timeout w)
        | inr ((k, v), e) ↦ ground (arith, L.brpop_values key timeout w)
      ]
      | inr at_once ↦ elim (Option-cases (R.rpop key w).0) [
        | inl empty ↦ ground (arith, L.rpop_values key w)
        | inr (v, e) ↦ ground (arith, L.rpop_values key w)
      ]
    ]

  -- The queue is first in, first out, if the text of the UUID can be read back: an enqueued id is
  -- the last that waits, and a dequeue, with a timeout or without, returns the first and leaves the
  -- others in their order.
  dequeue-fifo :
      (id : Uuid) (timeout : ℕ) (w : W)
      → codec.uuid_of (codec.uuid_text id) ≡ id
      → let S = redis_stores keys codec R ttls in
        (waiting (S.enqueue id w) ≡ waiting w ++ id ∷ [])
        × ((S.dequeue timeout w).0 ≡ head? (waiting w))
        × (waiting (S.dequeue timeout w).1 ≡ rest (waiting w))
  unfolding redis_stores
  dequeue-fifo id timeout w reads =
      let key = pending_queue keys codec in
      let vs = values key w in
      (
        ap (map codec.uuid_of) (L.values_lpush key (codec.uuid_text id) w)
            ∙ map-snoc codec vs id reads,
        dequeue-value timeout w,
        ap (map codec.uuid_of) (dequeue-values timeout w) ∙ map-rest codec vs,
      )
