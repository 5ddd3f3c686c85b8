-- ===== src/Base/Text.antt =====
-- The operations of Python's `str` and `pathlib` that the program calls. Case mapping and white
-- space are those of ASCII; any other character is left alone by `lower` and is no white space.
use Prim.Native.Nat.{◌-◌}
use Prim.Native.Char.{Char, code}
use Prim.Native.String.{String, [], ◌∷◌, char_at}
use mathlib.Core.Bool.{Bool, true, false, ◌&&◌, ◌||◌}
use mathlib.Core.Option.{Option, none, some}
use text.Mathlib.Text.{starts_with}
use vshift.Base.Equality.{◌==◌, nat_eq, string_eq, if◌then◌else◌}
use vshift.Base.Numbers.{leb}

-- `c.lower()` for one character
lower_char : Char → Char
lower_char c =
    if leb 65 (code c) && leb (code c) 90
    then char_at "abcdefghijklmnopqrstuvwxyz" (code c - 65)
    else c

-- `s.lower()`
unfoldable pub lower : String → String
unfolding lower_char
lower [] = []
lower (c ∷ s) = lower_char c ∷ lower s

-- the characters that `strip` removes
is_space : Char → Bool
is_space c = code c == 32 || leb 9 (code c) && leb (code c) 13 || leb 28 (code c) && leb (code c) 31

-- `not s.strip()`
unfoldable pub is_blank : String → Bool
unfolding is_space
is_blank [] = true
is_blank (c ∷ s) = is_space c && is_blank s

-- `s.lstrip()`
strip_start : String → String
unfolding is_space
strip_start [] = []
strip_start (c ∷ s) = let rest = strip_start s in if is_space c then rest else c ∷ s

-- `s.rstrip()`
strip_end : String → String
unfolding is_space
strip_end [] = []
strip_end (c ∷ s) = let rest = strip_end s in if is_space c && rest == "" then [] else c ∷ rest

-- `s.strip()`
unfoldable pub strip : String → String
unfolding strip_start strip_end
strip s = strip_end (strip_start s)

-- the characters at which `splitlines` splits
is_line_end : Char → Bool
is_line_end c = leb 10 (code c) && leb (code c) 13 || leb 28 (code c) && leb (code c) 30

-- `s.splitlines()[0]`, for a text that is not empty
unfoldable pub first_line : String → String
unfolding is_line_end
first_line [] = []
first_line (c ∷ s) = let rest = first_line s in if is_line_end c then [] else c ∷ rest

-- the characters before the first white space
unfoldable pub first_word : String → String
unfolding is_space
first_word [] = []
first_word (c ∷ s) = let rest = first_word s in if is_space c then [] else c ∷ rest

-- `s.removeprefix(".")`
unfoldable pub remove_dot : String → String
remove_dot [] = []
remove_dot (c ∷ s) = if code c == b'.' then s else c ∷ s

-- `s.lstrip(".")`
unfoldable pub strip_dots : String → String
strip_dots [] = []
strip_dots (c ∷ s) = let rest = strip_dots s in if code c == b'.' then rest else c ∷ s

-- the rest of a text that begins with the prefix
abbrev pub after_prefix : (prefix s : String) → Option String
after_prefix [] s = some s
after_prefix (c ∷ prefix) [] = none
after_prefix (c ∷ prefix) (d ∷ s) =
    let rest = after_prefix prefix s in if code c == code d then rest else none

-- `s.startswith(prefix)`
abbrev pub begins_with : (prefix s : String) → Bool
begins_with prefix s = elim (after_prefix prefix s) [ none ↦ false | some rest ↦ true ]

-- `s.removeprefix(prefix)`
abbrev pub remove_prefix : (prefix s : String) → String
remove_prefix prefix s = elim (after_prefix prefix s) [ none ↦ s | some rest ↦ rest ]

-- `part in s`
unfoldable pub has_part : String → String → Bool
has_part part [] = part == ""
has_part part (c ∷ s) = starts_with (c ∷ s) part || has_part part s

-- The text before the last dot and the text from it on, or `none` where there is no dot.
unfoldable pub split_last_dot : String → Option (String × String)
split_last_dot [] = none
split_last_dot (c ∷ s) = elim (split_last_dot s) [
  | some (before, from) ↦ some (c ∷ before, from)
  | none ↦ if code c == b'.' then some ([], c ∷ s) else none
]
