-- ===== src/Config/Glob.antt =====
-- `fnmatch.fnmatch` of Python's standard library on POSIX, as `MatchCriteria.matches` calls it:
-- `*`, `?`, `[seq]` and `[!seq]`, where an unclosed `[` stands for itself.
use Prim.Native.Char.{Char, code}
use Prim.Native.String.{[], ◌∷◌}
use vshift.Base.{
  ℕ, zero, suc, String, Bool, true, false, not, ◌&&◌, ◌||◌, Option, none, some, List, ◌==◌, leb,
  nat_eq, if◌then◌else◌,
}

pub data GlobToken : Type 0 where
  star one : GlobToken
  literal : Char → GlobToken
  set : (negated : Bool) → List (Char × Char) → GlobToken

-- The text up to the next `]`, and the rest behind it.
until_bracket : String → Option (String × String)
until_bracket [] = none
until_bracket (c ∷ s) = elim (until_bracket s) [
  | none ↦ if code c == b']' then some ([], s) else none
  | some (body, rest) ↦ if code c == b']' then some ([], s) else some (c ∷ body, rest)
]

-- A `]` that comes first belongs to the set.
set_body : String → Option (String × String)
unfolding until_bracket
set_body [] = none
set_body (c ∷ s) =
    if code c == b']'
    then elim (until_bracket s) [ none ↦ none | some (body, rest) ↦ some (c ∷ body, rest) ]
    else until_bracket (c ∷ s)

-- `a-z` is a range; any other character is a range of itself.
ranges : String → List (Char × Char)
ranges [] = List.[]
ranges (c ∷ []) = List.◌∷◌ (c, c) List.[]
ranges (c ∷ d ∷ []) = List.◌∷◌ (c, c) (List.◌∷◌ (d, d) List.[])
ranges (c ∷ d ∷ e ∷ s) =
    let range = List.◌∷◌ (c, e) (ranges s) in
    let single = List.◌∷◌ (c, c) (ranges (d ∷ e ∷ s)) in if code d == b'-' then range else single

-- The set behind a `[`, or `none` where no `]` closes it.
parse_set : String → Option (GlobToken × String)
unfolding set_body ranges
parse_set [] = none
parse_set (c ∷ s) =
    if code c == b'!'
    then elim (set_body s) [ none ↦ none | some (body, rest) ↦ some (set true (ranges body), rest) ]
    else elim (set_body (c ∷ s)) [
      | none ↦ none
      | some (body, rest) ↦ some (set false (ranges body), rest)
    ]

-- Each round takes a character at least, so the length of the pattern is enough fuel.
tokens : ℕ → String → List GlobToken
unfolding parse_set
tokens zero s = List.[]
tokens (suc fuel) [] = List.[]
tokens (suc fuel) (c ∷ s) =
    let next = tokens fuel s in
    if code c == b'*'
    then List.◌∷◌ star next
    else if code c == b'?'
    then List.◌∷◌ one next
    else if code c == b'['
    then elim (parse_set s) [
      | none ↦ List.◌∷◌ (literal c) next
      | some (token, rest) ↦ List.◌∷◌ token (tokens fuel rest)
    ]
    else List.◌∷◌ (literal c) next

abbrev size : String → ℕ
size [] = 0
size (c ∷ s) = suc (size s)

in_ranges : Char → List (Char × Char) → Bool
in_ranges c List.[] = false
in_ranges c (List.◌∷◌ (low, high) rest) =
    leb (code low) (code c) && leb (code c) (code high) || in_ranges c rest

-- `f` at some suffix of the text
some_suffix : (String → Bool) → String → Bool
some_suffix f [] = f []
some_suffix f (c ∷ s) = f (c ∷ s) || some_suffix f s

accepts : GlobToken → Char → Bool
unfolding in_ranges
accepts star c = true
accepts one c = true
accepts (literal d) c = code c == code d
accepts (set negated items) c = if negated then not (in_ranges c items) else in_ranges c items

match_tokens : List GlobToken → String → Bool
unfolding some_suffix accepts
match_tokens List.[] [] = true
match_tokens List.[] (c ∷ s) = false
match_tokens (List.◌∷◌ star rest) s = some_suffix (match_tokens rest) s
match_tokens (List.◌∷◌ token rest) [] = false
match_tokens (List.◌∷◌ token rest) (c ∷ s) = accepts token c && match_tokens rest s

-- `fnmatch.fnmatch(name, pattern)`
unfoldable pub fnmatch : String → String → Bool
unfolding tokens match_tokens
fnmatch name pattern = match_tokens (tokens (size pattern) pattern) name
