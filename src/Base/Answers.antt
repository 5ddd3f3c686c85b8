-- ===== src/Base/Answers.antt =====
-- Actions that return or raise one of some exceptions, and no other.
use mathlib.Core.Bool.{Bool, true, false}
use Prim.Native.String.{String}
use vshift.Base.Equality.{if◌then◌else◌}
use vshift.Base.Ensures.{Keeps, Returns, Returns-anything}
use vshift.Base.Exec.{
  Error, Result, ok, err, Exec, vshift_exception, other, pure, raise, lift, gets, call, raise_if,
  ◌>>=◌,
}

abbrev pub IsAnswer : {A : Type 0} → (Error → Type 0) → Result A → Type 0
IsAnswer E (ok a) = Unit
IsAnswer E (err e) = E e

-- Any exception, and a `VShiftException`.
abbrev pub AnyError : Error → Type 0
AnyError e = Unit

abbrev pub IsVshiftException : Error → Type 0
IsVshiftException (vshift_exception message) = Unit
IsVshiftException (other x) = ⊥

-- From a state with `I` the action ends so, in a state with `I`.
pub record Answers {W A : Type 0} (E : Error → Type 0) (I : W → Type 0) (m : Exec W A)
    : Type 0 where
  pub answer : (w : W) → I w → IsAnswer E (m w).0
  pub keeps : (w : W) → I w → I (m w).1

module _ {W A : Type 0} {E : Error → Type 0} {I : W → Type 0} where
  pub Answers-pure : (a : A) → Answers E I (pure a)
  unfolding pure
  Answers-pure a = record { answer = λ w h. tt; keeps = λ w h. h }

  pub Answers-lift : (r : Result A) → IsAnswer E r → Answers E I (lift r)
  unfolding lift
  Answers-lift r q = record { answer = λ w h. q; keeps = λ w h. h }

  pub Answers-gets : (f : W → A) → Answers E I (gets f)
  unfolding gets
  Answers-gets f = record { answer = λ w h. tt; keeps = λ w h. h }

  pub Answers-call : (f : W → A × W) → ((w : W) → I w → I (f w).1) → Answers E I (call f)
  unfolding call
  Answers-call f k = record { answer = λ w h. tt; keeps = k }

  pub Answers-raise : (e : Error) → E e → Answers E I (raise {A = A} e)
  unfolding raise
  Answers-raise e q = record { answer = λ w h. q; keeps = λ w h. h }

  pub Answers-if :
      (b : Bool) {m n : Exec W A} → Answers E I m → Answers E I n → Answers E I (if b then m else n)
  Answers-if true km kn = km
  Answers-if false km kn = kn

pub Answers-raise_if :
    {W : Type 0} {E : Error → Type 0} {I : W → Type 0} (b : Bool) (e : Error)
    → E e
    → Answers E I (raise_if b e)
unfolding raise_if
Answers-raise_if true e q = record { answer = λ w h. q; keeps = λ w h. h }
Answers-raise_if false e q = record { answer = λ w h. tt; keeps = λ w h. h }

module _ {W A B : Type 0} {E : Error → Type 0} {I : W → Type 0} where
  lift-Answers :
      (r : Result A) (f : A → Exec W B)
      → ((a : A) → Answers E I (f a))
      → IsAnswer E r
      → Answers E I (lift r >>= f)
  unfolding ◌>>=◌
  lift-Answers (ok a) f k q = record { answer = (k a).answer; keeps = (k a).keeps }
  lift-Answers (err e) f k q = record { answer = λ w h. q; keeps = λ w h. h }

  -- The same where what follows relies on the value.
  pub Answers-bind_value :
      (Q : A → Type 0) {m : Exec W A} {f : A → Exec W B}
      → Answers E I m
      → ((w : W) → I w → Returns (m w).0 Q)
      → ((a : A) → Q a → Answers E I (f a))
      → Answers E I (m >>= f)
  unfolding ◌>>=◌
  Answers-bind_value Q {m} {f} km q kf = record {
    answer = λ w h. (after (m w).0 (km.answer w h) (q w h)).answer (m w).1 (km.keeps w h);
    keeps = λ w h. (after (m w).0 (km.answer w h) (q w h)).keeps (m w).1 (km.keeps w h);
  }
    where
      after : (r : Result A) → IsAnswer E r → Returns r Q → Answers E I (lift r >>= f)
      after (ok a) p q = record { answer = (kf a q).answer; keeps = (kf a q).keeps }
      after (err e) p q = record { answer = λ w h. p; keeps = λ w h. h }

  pub Answers-bind :
      {m : Exec W A} {f : A → Exec W B}
      → Answers E I m
      → ((a : A) → Answers E I (f a))
      → Answers E I (m >>= f)
  unfolding ◌>>=◌
  Answers-bind {m} {f} km kf = record {
    answer = λ w h. (lift-Answers (m w).0 f kf (km.answer w h)).answer (m w).1 (km.keeps w h);
    keeps = λ w h. (lift-Answers (m w).0 f kf (km.answer w h)).keeps (m w).1 (km.keeps w h);
  }

pub any-IsAnswer : {A : Type 0} (r : Result A) → IsAnswer AnyError r
any-IsAnswer (ok a) = tt
any-IsAnswer (err e) = tt

-- What raises only a `VShiftException` raises only what includes them.
pub wider-IsAnswer :
    {A : Type 0} (E : Error → Type 0)
    → ((message : String) → E (vshift_exception message))
    → (r : Result A) → IsAnswer IsVshiftException r
    → IsAnswer E r
wider-IsAnswer E accepts (ok a) q = tt
wider-IsAnswer E accepts (err (vshift_exception message)) q = accepts message
wider-IsAnswer E accepts (err (other x)) q = absurd q

module _ {W A : Type 0} {I : W → Type 0} {m : Exec W A} where
  pub Keeps-Answers : Keeps I m → Answers AnyError I m
  Keeps-Answers k = record { answer = λ w h. any-IsAnswer (m w).0; keeps = k.keeps }

  pub Answers-Keeps : {E : Error → Type 0} → Answers E I m → Keeps I m
  Answers-Keeps a = record { keeps = a.keeps; returns = λ w h. Returns-anything (m w).0 }
