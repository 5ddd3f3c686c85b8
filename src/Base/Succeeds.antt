-- ===== src/Base/Succeeds.antt =====
-- Actions that never raise from the states of an invariant: total correctness.
use mathlib.Core.Path.{◌≡◌, refl, ap, ◌∙◌}
use vshift.Base.Exec.{Result, ok, Exec, pure, lift, gets, call, modify, ◌>>=◌, ◌>>◌}

-- From a state with `I` the action returns a value with `Q`, and ends in a state with `I`.
abbrev pub Succeeds : {W A : Type 0} → (W → Type 0) → Exec W A → (A → Type 0) → Type 0
Succeeds {W} {A} I m Q = (w : W) → I w → (a : A) × (w' : W) × (m w ≡ (ok a, w')) × Q a × I w'

module _ {W A : Type 0} {I : W → Type 0} {Q : A → Type 0} where
  pub Succeeds-pure : (a : A) → Q a → Succeeds I (pure a) Q
  unfolding pure
  Succeeds-pure a q w h = (a, w, refl, q, h)

  pub Succeeds-gets : (f : W → A) → ((w : W) → I w → Q (f w)) → Succeeds I (gets f) Q
  unfolding gets
  Succeeds-gets f q w h = (f w, w, refl, q w h, h)

  pub Succeeds-call :
      (f : W → A × W)
      → ((w : W) → I w → I (f w).1)
      → ((w : W) → I w → Q (f w).0)
      → Succeeds I (call f) Q
  unfolding call
  Succeeds-call f k q w h = ((f w).0, (f w).1, refl, q w h, k w h)

  pub Succeeds-lift : (r : Result A) (a : A) → r ≡ ok a → Q a → Succeeds I (lift r) Q
  unfolding lift
  Succeeds-lift r a e q w h = (a, w, cc, q, h)

  pub Succeeds-modify_two :
      (f g : W → W) (k : Exec W A)
      → ((w : W) → I w → I (g (f w)))
      → Succeeds I k Q
      → Succeeds I (modify f >> (modify g >> k)) Q
  unfolding ◌>>=◌
  Succeeds-modify_two f g k h e w c = e (g (f w)) (h w c)

module _ {W A B : Type 0} where
  bind-step :
      (m : Exec W A) (f : A → Exec W B) (w w' : W) (a : A) → m w ≡ (ok a, w') → (m >>= f) w ≡ f a w'
  unfolding ◌>>=◌
  bind-step m f w w' a e = ap (λ r. (lift r.0 >>= f) r.1) e

module _ {W A B : Type 0} {I : W → Type 0} where
  pub Succeeds-bind :
      (Q : A → Type 0) (R : B → Type 0) (m : Exec W A) (f : A → Exec W B)
      → Succeeds I m Q
      → ((a : A) → Q a → Succeeds I (f a) R)
      → Succeeds I (m >>= f) R
  Succeeds-bind Q R m f km kf w h =
      let (a, w', e, q, h') = km w h in
      let (b, w'', e', r, h'') = kf a q w' h' in (b, w'', bind-step m f w w' a e ∙ e', r, h'')
