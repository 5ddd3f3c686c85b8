-- ===== src/Ffmpeg/Version.antt =====
-- src/vshift/infrastructure/ffmpeg/version.py: what is read of ffmpeg's answer.
use Prim.Native.String.{String, [], ◌∷◌}
use vshift.Base.{Option, none, some, ◌||◌, ◌==◌, string_eq, if◌then◌else◌}
use vshift.Base.Text.{after_prefix, first_line, first_word}
use vshift.Ffmpeg.Probing.{Completed}

-- `re.search(r"ffmpeg version (\S+)", line)`
unfoldable pub search_version : String → Option String
search_version [] = none
search_version (c ∷ s) =
    let further = search_version s in
    elim (after_prefix "ffmpeg version " (c ∷ s)) [
      | none ↦ further
      | some rest ↦ if first_word rest == "" then further else some (first_word rest)
    ]

-- `ffmpeg_version`, for the completed process
unfoldable pub version_of : Completed → String
unfolding search_version
version_of completed =
    if completed.failed || completed.stdout == ""
    then "unknown"
    else elim (search_version (first_line completed.stdout)) [
      | none ↦ "unknown"
      | some version ↦ version
    ]
