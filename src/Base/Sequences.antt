-- ===== src/Base/Sequences.antt =====
-- Lists measured by native numbers, predicates on lists, and the sort that Python's `sorted` does.
use Prim.Native.Nat.{ℕ, zero, suc, ◌+◌}
use mathlib.Core.Path.{◌≡◌, refl}
use mathlib.Core.Logic.{◌⊎◌, inl, inr}
use mathlib.Core.Bool.{Bool, true, false}
use mathlib.Core.Option.{Option, none, some}
use mathlib.Core.List.{List, [], ◌∷◌, ◌++◌}
use native.Mathlib.Omega.{arith}

pub Option-cases {ℓ} : {A : Type ℓ} (o : Option A) → (o ≡ none) ⊎ ((a : A) × (o ≡ some a))
Option-cases none = inl refl
Option-cases (some a) = inr (a, refl)

module _ {ℓ} {A : Type ℓ} where
  abbrev pub length : List A → ℕ
  length [] = 0
  length (x ∷ xs) = suc (length xs)

  abbrev pub take : ℕ → List A → List A
  take zero xs = []
  take (suc n) [] = []
  take (suc n) (x ∷ xs) = x ∷ take n xs

  abbrev pub drop : ℕ → List A → List A
  drop zero xs = xs
  drop (suc n) [] = []
  drop (suc n) (x ∷ xs) = drop n xs

  -- `xs[offset : offset + limit]`
  abbrev pub page : ℕ → ℕ → List A → List A
  page limit offset xs = take limit (drop offset xs)

  abbrev pub is_empty : List A → Bool
  is_empty [] = true
  is_empty (x ∷ xs) = false

  abbrev pub is_some : Option A → Bool
  is_some none = false
  is_some (some a) = true

  pub length-append : (xs ys : List A) → length (xs ++ ys) ≡ length xs + length ys
  length-append [] ys = omega arith
  length-append (x ∷ xs) ys = omega (arith, length-append xs ys)

module _ {ℓ κ} {A : Type ℓ} where
  abbrev pub All : (A → Type κ) → List A → Type κ
  All P [] = Unit
  All P (x ∷ xs) = P x × All P xs

pub All-imp {ℓ κ μ} :
    {A : Type ℓ} (P : A → Type κ) (Q : A → Type μ) (xs : List A)
    → ((x : A) → P x → Q x)
    → All P xs
    → All Q xs
All-imp P Q [] f h = tt
All-imp P Q (x ∷ xs) f h = (f x h.0, All-imp P Q xs f h.1)

module _ {ℓ κ} {A : Type ℓ} (P : A → Type κ) where
  pub All-always : ((x : A) → P x) → (xs : List A) → All P xs
  All-always f [] = tt
  All-always f (x ∷ xs) = (f x, All-always f xs)

  pub All-take : (n : ℕ) (xs : List A) → All P xs → All P (take n xs)
  All-take zero xs h = tt
  All-take (suc n) [] h = tt
  All-take (suc n) (x ∷ xs) h = (h.0, All-take n xs h.1)

  pub All-drop : (n : ℕ) (xs : List A) → All P xs → All P (drop n xs)
  All-drop zero xs h = h
  All-drop (suc n) [] h = tt
  All-drop (suc n) (x ∷ xs) h = All-drop n xs h.1

  pub All-append : (xs ys : List A) → All P xs → All P ys → All P (xs ++ ys)
  All-append [] ys h k = k
  All-append (x ∷ xs) ys h k = (h.0, All-append xs ys h.1 k)

  -- The last element moved to the front.
  pub All-unsnoc : (xs : List A) (y : A) → All P (xs ++ y ∷ []) → All P (y ∷ xs)
  All-unsnoc [] y h = h
  All-unsnoc (x ∷ xs) y h = let (last, others) = All-unsnoc xs y h.1 in (last, (h.0, others))

module _ {A : Type 0} where
  -- An element is in a list.
  abbrev pub Holds : A → List A → Type 0
  Holds a [] = ⊥
  Holds a (x ∷ xs) = (a ≡ x) ⊎ Holds a xs

  pub Holds-append_left : (a : A) (xs ys : List A) → Holds a xs → Holds a (xs ++ ys)
  Holds-append_left a [] ys h = absurd h
  Holds-append_left a (x ∷ xs) ys (inl e) = inl e
  Holds-append_left a (x ∷ xs) ys (inr h) = inr (Holds-append_left a xs ys h)

  pub Holds-append_right : (a : A) (xs ys : List A) → Holds a ys → Holds a (xs ++ ys)
  Holds-append_right a [] ys h = h
  Holds-append_right a (x ∷ xs) ys h = inr (Holds-append_right a xs ys h)

  pub Holds-append : (a : A) (xs ys : List A) → Holds a (xs ++ ys) → Holds a xs ⊎ Holds a ys
  Holds-append a [] ys h = inr h
  Holds-append a (x ∷ xs) ys (inl e) = inl (inl e)
  Holds-append a (x ∷ xs) ys (inr h) = elim (Holds-append a xs ys h) [
    | inl left ↦ inl (inr left)
    | inr right ↦ inr right
  ]
