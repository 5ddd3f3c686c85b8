-- ===== src/Tests/Serial.antt =====
-- Values as texts that can be read back, whatever follows them: what the JSON of the models is
-- where the tests need one.
use Prim.Native.Char.{Char, code}
use Prim.Native.String.{String, [], ◌∷◌, char_at}
use vshift.Base.{
  ◌≡◌, refl, ap, ◌∙◌, ℕ, zero, suc, Bool, true, false, Option, none, some, ℤ, pos, negsuc, ◌==◌,
  nat_eq, ℕ_discrete, if◌then◌else◌,
}

pub record Serial (A : Type 0) : Type 0 where
  pub write : A → String → String
  pub read : String → A × String
  pub read-write : (a : A) (rest : String) → read (write a rest) ≡ (a, rest)

abbrev one : Char
one = char_at "1" 0

abbrev nought : Char
nought = char_at "0" 0

abbrev is_one : Char → Bool
is_one c = code c == 49

-- A number is as many ones, and a nought.
write_nat : ℕ → String → String
write_nat zero rest = nought ∷ rest
write_nat (suc n) rest = one ∷ write_nat n rest

read_nat : String → ℕ × String
read_nat [] = (0, [])
read_nat (c ∷ s) = let (n, rest) = read_nat s in if is_one c then (suc n, rest) else (0, s)

read_nat-write_nat : (n : ℕ) (rest : String) → read_nat (write_nat n rest) ≡ (n, rest)
unfolding read_nat write_nat ℕ_discrete
read_nat-write_nat zero rest = refl
read_nat-write_nat (suc n) rest =
    ap (λ (p : ℕ × String). (suc p.0, p.1)) (read_nat-write_nat n rest)

pub nat : Serial ℕ
unfolding read_nat write_nat
nat = record { write = write_nat; read = read_nat; read-write = read_nat-write_nat }

-- Each character of a text has a one before it.
write_text : String → String → String
write_text [] rest = nought ∷ rest
write_text (c ∷ s) rest = one ∷ c ∷ write_text s rest

read_text : String → String × String
read_text [] = ([], [])
read_text (x ∷ []) = ([], [])
read_text (x ∷ c ∷ r) =
    let (s, rest) = read_text r in if is_one x then (c ∷ s, rest) else ([], c ∷ r)

read_text-write_text : (s rest : String) → read_text (write_text s rest) ≡ (s, rest)
unfolding read_text write_text ℕ_discrete
read_text-write_text [] [] = refl
read_text-write_text [] (c ∷ r) = refl
read_text-write_text (c ∷ s) rest =
    ap (λ (p : String × String). (c ∷ p.0, p.1)) (read_text-write_text s rest)

pub text : Serial String
unfolding read_text write_text
text = record { write = write_text; read = read_text; read-write = read_text-write_text }

module _ {A B : Type 0} (to : A → B) (from : B → A) (back : (a : A) → from (to a) ≡ a)
    (S : Serial B) where
  pub via : Serial A
  via = record {
    write = λ a rest. S.write (to a) rest;
    read = λ s. let (b, rest) = S.read s in (from b, rest);
    read-write = λ a rest.
        ap (λ (p : B × String). (from p.0, p.1)) (S.read-write (to a) rest)
        ∙ ap (λ (x : A). (x, rest)) (back a);
  }

infixr 5 ◌⊗◌
pub ◌⊗◌ : {A B : Type 0} → Serial A → Serial B → Serial (A × B)
S ⊗ T = record {
  write = λ (a, b) rest. S.write a (T.write b rest);
  read = λ s. let (a, r) = S.read s in let (b, rest) = T.read r in ((a, b), rest);
  read-write = λ p rest.
      ap (λ (q : _ × String). ((q.0, (T.read q.1).0), (T.read q.1).1))
        (S.read-write p.0 (T.write p.1 rest))
      ∙ ap (λ (q : _ × String). ((p.0, q.0), q.1)) (T.read-write p.1 rest);
}

flag_of : ℕ → Bool
flag_of zero = false
flag_of (suc n) = true

flag_number : Bool → ℕ
flag_number false = 0
flag_number true = 1

flag-back : (b : Bool) → flag_of (flag_number b) ≡ b
unfolding flag_of flag_number
flag-back false = refl
flag-back true = refl

pub flag : Serial Bool
flag = via flag_number flag_of flag-back nat

-- An integer as its sign and its number.
integer_of : Bool × ℕ → ℤ
integer_of (false, n) = pos n
integer_of (true, n) = negsuc n

integer_parts : ℤ → Bool × ℕ
integer_parts (pos n) = (false, n)
integer_parts (negsuc n) = (true, n)

integer-back : (z : ℤ) → integer_of (integer_parts z) ≡ z
unfolding integer_of integer_parts
integer-back (pos n) = refl
integer-back (negsuc n) = refl

pub integer : Serial ℤ
integer = via integer_parts integer_of integer-back (flag ⊗ nat)

-- No value, or one.
option_flag : {A : Type 0} (S : Serial A) → Option A → String → String
option_flag S none rest = nought ∷ rest
option_flag S (some a) rest = one ∷ S.write a rest

option_read : {A : Type 0} (S : Serial A) → String → Option A × String
option_read S [] = (none, [])
option_read S (c ∷ s) = let (a, rest) = S.read s in if is_one c then (some a, rest) else (none, s)

option_read-option_flag :
    {A : Type 0} (S : Serial A) (o : Option A) (rest : String)
    → option_read S (option_flag S o rest) ≡ (o, rest)
unfolding option_flag option_read ℕ_discrete
option_read-option_flag S none rest = refl
option_read-option_flag S (some a) rest =
    ap (λ (p : _ × String). (some p.0, p.1)) (S.read-write a rest)

pub option : {A : Type 0} → Serial A → Serial (Option A)
unfolding option_flag option_read
option S = record {
  write = option_flag S;
  read = option_read S;
  read-write = option_read-option_flag S;
}
