-- ===== src/Tests/RedisClient.antt =====
-- The Redis stores over a client in memory, which keeps texts, sets as lists of members, and lists.
use text.Mathlib.TextLemmas.{append_assoc, length-append}
use Prim.Native.String.{count}
use vshift.Base.{
  ◌≡◌, refl, sym, ◌∙◌, ℕ, zero, suc, ◌+◌, ◌-◌, ◌<>◌, String, Bool, false, Option, none, some, List,
  [], ◌∷◌, ◌++◌, arith, ℕ_discrete, string_eq, nat_eq, length, contains, is_some, ◌==◌,
  if◌then◌else◌,
}
use vshift.Redis.{Client, Codec}
use vshift.Redis.Keys.{IsUuidText, differ, differ_at_end}
use vshift.Redis.Keyspace.{Keyspace, IsKeyspace}
use vshift.Redis.RoundTrip.{first?, others}
use vshift.Tests.Adapters.{codec}

pub record Shelf : Type 0 where
  pub strings : String → Option String
  pub members : String → List String
  pub values : String → List String

unfoldable pub dropped : String → List String → List String
dropped member [] = []
dropped member (x ∷ xs) = let rest = dropped member xs in if x == member then rest else x ∷ rest

abbrev pub shelf_put : String → Option String → Shelf → Shelf
shelf_put key value w = record w { strings = λ k. if k == key then value else w.strings k }

abbrev pub shelf_values : String → List String → Shelf → Shelf
shelf_values key vs w = record w { values = λ k. if k == key then vs else w.values k }

unfoldable pub shelf : Client Shelf
unfolding dropped
shelf = record {
  get = λ key w. w.strings key;
  set = λ key value ex w. shelf_put key (some value) w;
  delete = λ key w. shelf_put key none w;
  exists = λ key w. is_some (w.strings key);
  sadd = λ key member w. record w {
    members = λ k. if k == key then member ∷ w.members k else w.members k;
  };
  srem = λ key member w. record w {
    members = λ k. if k == key then dropped member (w.members k) else w.members k;
  };
  smembers = λ key w. w.members key;
  lpush = λ key value w. shelf_values key (w.values key ++ value ∷ []) w;
  rpush = λ key value w. shelf_values key (value ∷ w.values key) w;
  rpop = λ key w. (first? (w.values key), shelf_values key (others (w.values key)) w);
  brpop = λ key timeout w. (
    elim (first? (w.values key)) [ none ↦ none | some v ↦ some (key, v) ],
    shelf_values key (others (w.values key)) w,
  );
  llen = λ key w. length (w.values key);
  now = λ w. (0, w);
  uuid4 = λ w. (0, w);
}

abbrev pub shelf_model : Shelf → Keyspace
shelf_model w = record {
  strings = w.strings;
  sets = λ key. λ member. contains (w.members key) member;
  lists = w.values;
}

contains-dropped :
    (member x : String) (xs : List String)
    → contains (dropped member xs) x ≡ (if x == member then false else contains xs x)
unfolding dropped
contains-dropped member x [] = ground arith
contains-dropped member x (y ∷ ys) = ground (arith, contains-dropped member x ys)

model-ext :
    (w : Shelf) (s t : String → String → Bool)
    → ((k x : String) → s k x ≡ t k x)
    → ◌≡◌ {A = Keyspace}
        record { strings = w.strings; sets = s; lists = w.values }
        record { strings = w.strings; sets = t; lists = w.values }
model-ext w s t e = λ i. record { strings = w.strings; sets = λ k x. e k x i; lists = w.values }

pub shelf-IsKeyspace : IsKeyspace shelf shelf_model (λ key. key ≡ key)
unfolding shelf
shelf-IsKeyspace = record {
  get_lem = λ key w. refl;
  set_lem = λ key value ex w. refl;
  delete_lem = λ key w. refl;
  exists_lem = λ key w t. refl;
  sadd_lem = λ key member w. model-ext w _ _ (λ k x. ground arith);
  srem_lem = λ key member w.
      model-ext w _ _ (λ k x. ground (arith, contains-dropped member x (w.members k)));
  smembers_lem = λ key member w. refl;
  lpush_lem = λ key value w. refl;
  rpop_value = λ key w. refl;
  rpop_rest = λ key w. refl;
  brpop_value = λ key timeout w. refl;
  brpop_rest = λ key timeout w. refl;
  llen_lem = λ key w. refl;
  now_lem = λ w. refl;
  uuid4_lem = λ w. refl;
}

-- as many letters as the number says
unfoldable pub letters : ℕ → String
letters zero = ""
letters (suc n) = "a" <> letters n

pub count-letters : (n : ℕ) → count (letters n) ≡ n
unfolding letters
count-letters zero = refl
count-letters (suc n) =
    let e : count ("a" <> letters n) ≡ 1 + count (letters n) = length-append "a" (letters n) in
    omega (arith, e, count-letters n)

-- A codec whose UUIDs are letters and a dot.
unfoldable pub dotted : Codec
unfolding letters
dotted = record codec { uuid_text = λ id. letters id <> "."; uuid_of = λ text. count text - 1 }

pub dotted-IsUuidText : IsUuidText dotted
unfolding dotted string_eq ℕ_discrete
dotted-IsUuidText = record {
  reads = λ id.
      let n : count (letters id <> ".") ≡ count (letters id) + 1 = length-append (letters id) "." in
      omega (arith, n, count-letters id);
  not_heartbeat = λ i j e.
      differ_at_end (letters i) ((letters j <> ".") <> ":heartbea") "." "t" refl
        (differ "." "t" refl) (e ∙ sym (append_assoc (letters j <> ".") ":heartbea" "t"));
  not_summary = λ i j e.
      differ_at_end (letters i) ((letters j <> ".") <> ":summar") "." "y" refl (differ "." "y" refl)
        (e ∙ sym (append_assoc (letters j <> ".") ":summar" "y"));
}
