-- ===== src/Filesystem/Scanner.antt =====
-- poll_file_scanner.py. The folder, the clock and the order of paths are parameters; times are in
-- millionths of a second.
pub mod Discovery
use vshift.Base.{
  ℕ, ◌+◌, ◌*◌, String, Bool, true, false, not, ◌&&◌, ◌||◌, Option, none, some, List, [], ◌∷◌, leb,
  ltb, if◌then◌else◌,
}
use vshift.Base.Exec.{Result, Exec, pure, lift, gets, call, ◌>>=◌, ◌>>◌}
use vshift.Base.FilePath.{FilePath, extension_of}
use vshift.Base.Sorting.{sorted}
use vshift.Base.Text.{begins_with}
use vshift.Input.{ProbedInput}
use vshift.Ports.{FileScanner}

-- `stat`: the size, and the time of the last change
pub record FileStat : Type 0 where
  pub st_size : ℕ
  pub st_mtime : ℕ

-- What the scanner asks of the file system. A file that is gone makes `stat` raise.
pub record Folder (W : Type 0) : Type 0 where
  pub is_dir : FilePath → W → Bool
  pub rglob : FilePath → W → List FilePath
  pub is_file : FilePath → W → Bool
  pub stat : FilePath → W → Result FileStat
  pub time : W → ℕ × W
  -- the order of `pathlib`: whether the first path may stand before the second
  pub path_before : FilePath → FilePath → Bool

-- `PollFileScanner`: whether it runs, and what it calls for each file it finds
pub record PollFileScanner (W : Type 0) : Type 0 where
  pub file_stability_seconds : ℕ
  pub handler : Option (ProbedInput → Exec W Unit)
  pub running : Bool

-- `start` and `stop`
abbrev pub start :
    {W : Type 0} → (ProbedInput → Exec W Unit) → PollFileScanner W → PollFileScanner W
start handler scanner = record scanner { handler = some handler; running = true }

abbrev pub stop : {W : Type 0} → PollFileScanner W → PollFileScanner W
stop scanner = record scanner { handler = none; running = false }

-- `_is_hidden`
unfoldable pub is_hidden : FilePath → Bool
is_hidden [] = false
is_hidden (part ∷ parts) = begins_with "." part || is_hidden parts

-- `_is_stable`, for what `stat` returned
unfoldable pub is_stable : FileStat → (now stability_seconds : ℕ) → Bool
is_stable stat now stability_seconds =
    ltb 0 stat.st_size && leb (stat.st_mtime + stability_seconds * 1000000) now

-- the file that the scanner reports
abbrev pub discovered : FilePath → ProbedInput
discovered path = record {
  path = path;
  extension = extension_of path;
  width = none;
  height = none;
  bit_depth = none;
  hdr = none;
  duration_seconds = none;
}

module _ {W : Type 0} (folder : Folder W) (scanner : PollFileScanner W) where
  -- `self._running and self._handler is not None`
  abbrev notify : Option (ProbedInput → Exec W Unit) → Bool → ProbedInput → Exec W Unit
  notify none running probed = pure tt
  notify (some handler) true probed = handler probed
  notify (some handler) false probed = pure tt

  -- The loop of `scan_once`, for the time at which it began.
  unfoldable pub scan_paths : (now : ℕ) → List FilePath → Exec W (List ProbedInput)
  unfolding is_hidden is_stable
  scan_paths now [] = pure []
  scan_paths now (path ∷ paths) = do
    let rest = scan_paths now paths
    there ← gets (folder.is_file path)
    if not there || is_hidden path then rest else do
      stat ← λ w. lift (folder.stat path w) w
      if not (is_stable stat now scanner.file_stability_seconds) then rest else do
        notify scanner.handler scanner.running (discovered path)
        others ← rest
        pure (discovered path ∷ others)

  -- `scan_once`
  unfoldable pub poll_scan_once : FileScanner W
  unfolding scan_paths
  poll_scan_once input_dir = do
    there ← gets (folder.is_dir input_dir)
    if not there then pure [] else do
      now ← call folder.time
      paths ← gets (folder.rglob input_dir)
      scan_paths now (sorted folder.path_before paths)
