-- ===== src/Base/Exec.antt =====
-- Methods that change the state of a store or of the world around it, and may raise. What was
-- written before a raise stays written, so the state comes back beside the error too.
use Prim.Native.String.{String}
use mathlib.Core.Path.{◌≡◌, refl}
use vshift.Base.Equality.{if◌then◌else◌}
use mathlib.Core.Bool.{Bool, true, false, not}
use native.Mathlib.Omega.{arith}

-- `VShiftException(msg)`, and any other exception (`KeyError`, `ValueError`, ...).
pub data Error : Type 0 where
  vshift_exception : String → Error
  other : String → Error

pub data Result {ℓ} (A : Type ℓ) : Type ℓ where
  ok : A → Result A
  err : Error → Result A

abbrev pub Exec {ℓ} : Type ℓ → Type ℓ → Type ℓ
Exec W A = W → Result A × W

module _ {W A : Type 0} where
  unfoldable pub pure : A → Exec W A
  pure a w = (ok a, w)

  unfoldable pub raise : Error → Exec W A
  raise e w = (err e, w)

  -- a pure function that may raise
  unfoldable pub lift : Result A → Exec W A
  lift r w = (r, w)

  unfoldable pub gets : (W → A) → Exec W A
  gets f w = (ok (f w), w)

  -- a call that returns a value and cannot raise
  unfoldable pub call : (W → A × W) → Exec W A
  call f w = let (a, w') = f w in (ok a, w')

module _ {W : Type 0} where
  unfoldable pub modify : (W → W) → Exec W Unit
  modify f w = (ok tt, f w)

  unfoldable pub raise_if : Bool → Error → Exec W Unit
  raise_if true e w = (err e, w)
  raise_if false e w = (ok tt, w)

module _ {W A B : Type 0} where
  infixl 5 ◌>>=◌ ◌>>◌
  -- Opening this opens the actions above too.
  unfoldable pub ◌>>=◌ : Exec W A → (A → Exec W B) → Exec W B
  unfolding pure raise lift gets call modify raise_if
  ◌>>=◌ m f w = let (r, w') = m w in elim r [ ok a ↦ f a w' | err e ↦ (err e, w') ]

  abbrev pub ◌>>◌ : Exec W A → Exec W B → Exec W B
  m >> k = m >>= λ _. k

module _ {ℓ κ} {A : Type ℓ} {B : Type κ} where
  -- the same for pure functions that may raise
  abbrev pub and_then : Result A → (A → Result B) → Result B
  and_then (ok a) f = f a
  and_then (err e) f = err e

-- `except VShiftException as error: handler(str(error))`. Other exceptions pass on.
unfoldable pub try_except : {W A : Type 0} → Exec W A → (String → Exec W A) → Exec W A
try_except m handler w =
    let (r, w') = m w in
    elim r [
      | ok a ↦ (ok a, w')
      | err e ↦ elim e [
        | vshift_exception message ↦ handler message w'
        | other x ↦ (err (other x), w')
      ]
    ]

module _ {W A B : Type 0} where
  -- What an action does after one that has returned.
  pub bind-ok :
      (m : Exec W A) (f : A → Exec W B) (w : W) (a : A) → (m w).0 ≡ ok a → (m >>= f) w ≡ f a (m w).1
  unfolding ◌>>=◌
  bind-ok m f w a e = ground arith

  pub bind-err :
      (m : Exec W A) (f : A → Exec W B) (w : W) (x : Error)
      → (m w).0 ≡ err x
      → (m >>= f) w ≡ (err x, (m w).1)
  unfolding ◌>>=◌
  bind-err m f w x e = ground arith

pub and_then-ok {ℓ κ} :
    {A : Type ℓ} {B : Type κ} (r : Result A) (f : A → Result B) (b : B)
    → and_then r f ≡ ok b
    → (a : A) × (r ≡ ok a) × (f a ≡ ok b)
and_then-ok (ok a) f b e = (a, refl, e)
and_then-ok (err x) f b e = absurd (ground arith)

pub ok-injective : {A : Type 0} (a b : A) → ok a ≡ ok b → a ≡ b
ok-injective a b e = cc

-- `if not found: raise ...`, where a value was returned in the end
pub guard-ok :
    {A : Type 0} (found : Bool) (e : Error) (r : Result A) (a : A)
    → (if not found then err e else r) ≡ ok a
    → (found ≡ true) × (r ≡ ok a)
guard-ok true e r a h = (refl, h)
guard-ok false e r a h = absurd (ground arith)

-- `if refused: raise ...`
pub refuse-ok :
    {A : Type 0} (refused : Bool) (e : Error) (r : Result A) (a : A)
    → (if refused then err e else r) ≡ ok a
    → (refused ≡ false) × (r ≡ ok a)
refuse-ok true e r a h = absurd (ground arith)
refuse-ok false e r a h = (refl, h)
