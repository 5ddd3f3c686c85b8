-- ===== src/Base/FilePath.antt =====
-- `pathlib.Path` as the list of its parts: the root "/" is a part of its own, as in `path.parts`.
use vshift.Base.Equality.{◌==◌, string_eq, if◌then◌else◌}
use vshift.Base.Text.{split_last_dot, strip_dots, lower}
use Prim.Native.String.{String}
use mathlib.Core.Bool.{◌||◌}
use mathlib.Core.Option.{none, some}
use mathlib.Core.List.{List, [], ◌∷◌, ◌++◌}

abbrev pub FilePath : Type 0
FilePath = List String

-- `path.name`
unfoldable pub name : FilePath → String
name [] = ""
name (part ∷ []) = part
name (part ∷ next ∷ rest) = name (next ∷ rest)

-- `path.parent`
unfoldable pub parent : FilePath → FilePath
parent [] = []
parent (part ∷ []) = []
parent (part ∷ next ∷ rest) = part ∷ parent (next ∷ rest)

-- `dir / part`, for a part without a slash
abbrev pub child : FilePath → String → FilePath
child dir part = dir ++ part ∷ []

-- `path.stem`: a dot that begins or ends the name starts no suffix.
unfoldable pub stem : FilePath → String
unfolding name split_last_dot
stem path = elim (split_last_dot (name path)) [
  | none ↦ name path
  | some (before, from) ↦ if before == "" || from == "." then name path else before
]

-- `path.suffix`
unfoldable pub suffix : FilePath → String
unfolding name split_last_dot
suffix path = elim (split_last_dot (name path)) [
  | none ↦ ""
  | some (before, from) ↦ if before == "" || from == "." then "" else from
]

-- `path.suffix.lstrip(".").lower()`
unfoldable pub extension_of : FilePath → String
unfolding suffix strip_dots lower
extension_of path = lower (strip_dots (suffix path))
