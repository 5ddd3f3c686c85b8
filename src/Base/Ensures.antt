-- ===== src/Base/Ensures.antt =====
-- Pre- and postconditions of actions: an invariant of the state, and what a returned value has.
use mathlib.Core.Path.{◌≡◌, refl}
use mathlib.Core.Bool.{Bool, true, false}
use Prim.Native.String.{String}
use vshift.Base.Equality.{if◌then◌else◌}
use vshift.Base.Exec.{
  Error, Result, ok, err, Exec, vshift_exception, other, pure, raise, lift, gets, call, modify,
  raise_if, try_except, ◌>>=◌, ◌>>◌,
}

abbrev pub Returns : {A : Type 0} → Result A → (A → Type 0) → Type 0
Returns (ok a) Q = Q a
Returns (err e) Q = Unit

pub Returns-anything : {A : Type 0} (r : Result A) → Returns r (λ _. Unit)
Returns-anything (ok a) = tt
Returns-anything (err e) = tt

-- From a state with `I` the action ends in one, whether it returns or raises, and what it returns
-- has `Q`.
pub record Ensures {W A : Type 0} (I : W → Type 0) (m : Exec W A) (Q : A → Type 0) : Type 0 where
  pub keeps : (w : W) → I w → I (m w).1
  pub returns : (w : W) → I w → Returns (m w).0 Q

module _ {W A : Type 0} {I : W → Type 0} {Q : A → Type 0} where
  pub Ensures-pure : (a : A) → Q a → Ensures I (pure a) Q
  unfolding pure
  Ensures-pure a q = record { keeps = λ w h. h; returns = λ w h. q }

  pub Ensures-lift : (r : Result A) → Returns r Q → Ensures I (lift r) Q
  unfolding lift
  Ensures-lift r q = record { keeps = λ w h. h; returns = λ w h. q }

  pub Ensures-gets : (f : W → A) → ((w : W) → I w → Q (f w)) → Ensures I (gets f) Q
  unfolding gets
  Ensures-gets f q = record { keeps = λ w h. h; returns = q }

  pub Ensures-call :
      (f : W → A × W)
      → ((w : W) → I w → I (f w).1)
      → ((w : W) → I w → Q (f w).0)
      → Ensures I (call f) Q
  unfolding call
  Ensures-call f k q = record { keeps = k; returns = q }

  -- A write, and what follows it.
  pub Ensures-modify :
      (f : W → W) (k : Exec W A)
      → ((w : W) → I w → I (f w))
      → Ensures I k Q
      → Ensures I (modify f >> k) Q
  unfolding ◌>>=◌
  Ensures-modify f k h e = record {
    keeps = λ w c. e.keeps (f w) (h w c);
    returns = λ w c. e.returns (f w) (h w c);
  }

  -- Two writes that keep the invariant only together.
  pub Ensures-modify_two :
      (f g : W → W) (k : Exec W A)
      → ((w : W) → I w → I (g (f w)))
      → Ensures I k Q
      → Ensures I (modify f >> (modify g >> k)) Q
  unfolding ◌>>=◌
  Ensures-modify_two f g k h e = record {
    keeps = λ w c. e.keeps (g (f w)) (h w c);
    returns = λ w c. e.returns (g (f w)) (h w c);
  }

  -- Three writes that keep the invariant only together.
  pub Ensures-modify_three :
      (f g h : W → W) (k : Exec W A)
      → ((w : W) → I w → I (h (g (f w))))
      → Ensures I k Q
      → Ensures I (modify f >> (modify g >> (modify h >> k))) Q
  unfolding ◌>>=◌
  Ensures-modify_three f g h k keep e = record {
    keeps = λ w c. e.keeps (h (g (f w))) (keep w c);
    returns = λ w c. e.returns (h (g (f w))) (keep w c);
  }

  pub Ensures-if :
      (b : Bool) (m n : Exec W A)
      → (b ≡ true → Ensures I m Q)
      → (b ≡ false → Ensures I n Q)
      → Ensures I (if b then m else n) Q
  Ensures-if true m n km kn = km refl
  Ensures-if false m n km kn = kn refl

-- A write with nothing after it.
pub Ensures-write :
    {W : Type 0} {I : W → Type 0} (f : W → W)
    → ((w : W) → I w → I (f w))
    → Ensures I (modify f) (λ _. Unit {0})
unfolding modify
Ensures-write f h = record { keeps = h; returns = λ w c. tt }

pub Ensures-raise_if :
    {W : Type 0} {I : W → Type 0} {Q : Unit {0} → Type 0} (b : Bool) (e : Error)
    → (b ≡ false → Q tt)
    → Ensures I (raise_if b e) Q
unfolding raise_if
Ensures-raise_if true e q = record { keeps = λ w h. h; returns = λ w h. tt }
Ensures-raise_if false e q = record { keeps = λ w h. h; returns = λ w h. q refl }

module _ {W A B : Type 0} {I : W → Type 0} where
  bind-keeps :
      (R : B → Type 0) (f : A → Exec W B) (Q : A → Type 0) (r : Result A) (w : W)
      → ((a : A) → Q a → Ensures I (f a) R)
      → Returns r Q
      → I w
      → I ((lift r >>= f) w).1
  unfolding ◌>>=◌
  bind-keeps R f Q (ok a) w k q h = (k a q).keeps w h
  bind-keeps R f Q (err e) w k q h = h

  bind-returns :
      (R : B → Type 0) (f : A → Exec W B) (Q : A → Type 0) (r : Result A) (w : W)
      → ((a : A) → Q a → Ensures I (f a) R)
      → Returns r Q
      → I w
      → Returns ((lift r >>= f) w).0 R
  unfolding ◌>>=◌
  bind-returns R f Q (ok a) w k q h = (k a q).returns w h
  bind-returns R f Q (err e) w k q h = tt

  pub Ensures-bind :
      (Q : A → Type 0) (R : B → Type 0) (m : Exec W A) (f : A → Exec W B)
      → Ensures I m Q
      → ((a : A) → Q a → Ensures I (f a) R)
      → Ensures I (m >>= f) R
  unfolding ◌>>=◌
  Ensures-bind Q R m f km kf = record {
    keeps = λ w h. bind-keeps R f Q (m w).0 (m w).1 kf (km.returns w h) (km.keeps w h);
    returns = λ w h. bind-returns R f Q (m w).0 (m w).1 kf (km.returns w h) (km.keeps w h);
  }

module _ {W A : Type 0} (handler : String → Exec W A) where
  -- What `try_except` does with the result of its body.
  abbrev pub settle : Result A → Exec W A
  settle (ok a) w = (ok a, w)
  settle (err (vshift_exception message)) w = handler message w
  settle (err (other x)) w = (err (other x), w)

  pub try_except-settle : (r : Result A) (w : W) → try_except (lift r) handler w ≡ settle r w
  unfolding try_except lift
  try_except-settle (ok a) w = refl
  try_except-settle (err (vshift_exception message)) w = refl
  try_except-settle (err (other x)) w = refl

module _ {W A : Type 0} {I : W → Type 0} (Q : A → Type 0) (handler : String → Exec W A) where
  settle-Ensures :
      (r : Result A)
      → ((message : String) → Ensures I (handler message) Q)
      → Returns r Q
      → Ensures I (settle handler r) Q
  settle-Ensures (ok a) k q = record { keeps = λ w h. h; returns = λ w h. q }
  settle-Ensures (err (vshift_exception message)) k q = k message
  settle-Ensures (err (other x)) k q = record { keeps = λ w h. h; returns = λ w h. tt }

  pub Ensures-try_except :
      (m : Exec W A)
      → Ensures I m Q
      → ((message : String) → Ensures I (handler message) Q)
      → Ensures I (try_except m handler) Q
  unfolding try_except lift
  Ensures-try_except m km kh = record {
    keeps = λ w h.
        rw (try_except-settle handler (m w).0 (m w).1)
          ((settle-Ensures (m w).0 kh (km.returns w h)).keeps (m w).1 (km.keeps w h));
    returns = λ w h.
        rw (try_except-settle handler (m w).0 (m w).1)
          ((settle-Ensures (m w).0 kh (km.returns w h)).returns (m w).1 (km.keeps w h));
  }

-- The same where nothing is asked of the value.
abbrev pub Keeps : {W A : Type 0} → (W → Type 0) → Exec W A → Type 0
Keeps I m = Ensures I m (λ _. Unit)

module _ {W A B : Type 0} {I : W → Type 0} where
  pub Keeps-bind :
      {m : Exec W A} {f : A → Exec W B} → Keeps I m → ((a : A) → Keeps I (f a)) → Keeps I (m >>= f)
  Keeps-bind {m} {f} km kf = Ensures-bind (λ _. Unit) (λ _. Unit) m f km (λ a _. kf a)

module _ {W A : Type 0} {I : W → Type 0} where
  pub Keeps-pure : (a : A) → Keeps I (pure a)
  Keeps-pure a = Ensures-pure a tt

  pub Keeps-lift : (r : Result A) → Keeps I (lift r)
  Keeps-lift r = Ensures-lift r (Returns-anything r)

  pub Keeps-gets : (f : W → A) → Keeps I (gets f)
  Keeps-gets f = Ensures-gets f (λ w h. tt)

  pub Keeps-call : (f : W → A × W) → ((w : W) → I w → I (f w).1) → Keeps I (call f)
  Keeps-call f k = Ensures-call f k (λ w h. tt)

  pub Keeps-raise : (e : Error) → Keeps I (raise {A = A} e)
  unfolding raise
  Keeps-raise e = record { keeps = λ w h. h; returns = λ w h. tt }

  pub Keeps-if : (b : Bool) {m n : Exec W A} → Keeps I m → Keeps I n → Keeps I (if b then m else n)
  Keeps-if true km kn = km
  Keeps-if false km kn = kn

pub Keeps-raise_if : {W : Type 0} {I : W → Type 0} (b : Bool) (e : Error) → Keeps I (raise_if b e)
Keeps-raise_if b e = Ensures-raise_if b e (λ _. tt)

-- An action of which only the states are known.
pub Keeps-states :
    {W A : Type 0} {I : W → Type 0} (m : Exec W A) → ((w : W) → I w → I (m w).1) → Keeps I m
Keeps-states m k = record { keeps = k; returns = λ w h. Returns-anything (m w).0 }
