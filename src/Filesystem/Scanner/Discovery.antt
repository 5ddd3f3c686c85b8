-- ===== src/Filesystem/Scanner/Discovery.antt =====
-- Which files `scan_once` reports.
use vshift.Base.{
  ◌≡◌, refl, subst, ℕ, ◌+◌, ◌*◌, ◌≤◌, ◌<◌, Bool, true, false, not, ◌&&◌, Option, none, some, List,
  [], ◌∷◌, ◌++◌, map, All, All-imp, arith, Bool-cases, inl, inr, if◌then◌else◌,
}
use vshift.Base.Exec.{Result, ok, err, Exec, pure, ◌>>=◌}
use vshift.Base.FilePath.{FilePath}
use vshift.Base.Sorting.{sorted, sorted-All}
use vshift.Base.Text.{begins_with}
use vshift.Input.{ProbedInput}
use vshift.Server.Capacity.{Result-cases}
use vshift.Filesystem.Scanner.{
  Folder, FileStat, PollFileScanner, is_hidden, is_stable, discovered, notify, scan_paths,
  poll_scan_once,
}

-- the elements that pass a test, in their order
abbrev keep_if : {A : Type 0} → (A → Bool) → List A → List A
keep_if test [] = []
keep_if test (x ∷ xs) = let rest = keep_if test xs in if test x then x ∷ rest else rest

-- The elements that have a property, in their order.
pub data Selects {A : Type 0} (Q : A → Type 0) : List A → List A → Type 0 where
  end : Selects Q [] []
  take : {x : A} {xs ys : List A} → Q x → Selects Q xs ys → Selects Q (x ∷ xs) (x ∷ ys)
  skip : {x : A} {xs ys : List A} → (Q x → ⊥) → Selects Q xs ys → Selects Q (x ∷ xs) ys

keep_if-Selects :
    {A : Type 0} (Q : A → Type 0) (test : A → Bool)
    → ((x : A) → test x ≡ true → Q x)
    → ((x : A) → Q x → test x ≡ true)
    → (xs : List A) → Selects Q xs (keep_if test xs)
keep_if-Selects Q test sound complete [] = Selects.end
keep_if-Selects Q test sound complete (x ∷ xs) =
    let rest = keep_if-Selects Q test sound complete xs in
    elim (Bool-cases (test x)) [
      | inl passes ↦
          subst (Selects Q (x ∷ xs)) (ground (arith, passes)) (Selects.take (sound x passes) rest)
      | inr fails ↦
          subst (Selects Q (x ∷ xs)) (ground (arith, fails))
            (Selects.skip (λ q. absurd (ground (arith, complete x q))) rest)
    ]

is_hidden-append : (dir rest : FilePath) → is_hidden dir ≡ true → is_hidden (dir ++ rest) ≡ true
unfolding is_hidden
is_hidden-append [] rest h = absurd (ground arith)
is_hidden-append (part ∷ dir) rest h = elim (Bool-cases (begins_with "." part)) [
  | inl dotted ↦ ground arith
  | inr plain ↦ ground (arith, is_hidden-append dir rest)
]

module _ {W : Type 0} (folder : Folder W) (scanner : PollFileScanner W) where
  -- A file that is there, of which no part of the path begins with a dot, that has at least a byte
  -- and was last changed at least so many seconds before.
  pub record IsDiscoverable (now : ℕ) (w : W) (path : FilePath) : Type 0 where
    pub is_file : folder.is_file path w ≡ true
    pub plain : All (λ part. begins_with "." part ≡ false) path
    pub stat : FileStat
    pub read : folder.stat path w ≡ ok stat
    pub filled : 0 < stat.st_size
    pub old : stat.st_mtime + scanner.file_stability_seconds * 1000000 ≤ now

  abbrev stable_at : (now : ℕ) → Result FileStat → Bool
  stable_at now (ok stat) = is_stable stat now scanner.file_stability_seconds
  stable_at now (err e) = false

  abbrev is_ready : (now : ℕ) → W → FilePath → Bool
  is_ready now w path =
      folder.is_file path w && not (is_hidden path) && stable_at now (folder.stat path w)

  hidden-plain :
      (path : FilePath) → is_hidden path ≡ false → All (λ part. begins_with "." part ≡ false) path
  unfolding is_hidden
  hidden-plain [] h = tt
  hidden-plain (part ∷ path) h = (ground arith, hidden-plain path (ground arith))

  plain-hidden :
      (path : FilePath) → All (λ part. begins_with "." part ≡ false) path → is_hidden path ≡ false
  unfolding is_hidden
  plain-hidden [] h = refl
  plain-hidden (part ∷ path) h = ground (arith, h.0, plain-hidden path h.1)

  ready-IsDiscoverable :
      (now : ℕ) (w : W) (path : FilePath) → is_ready now w path ≡ true → IsDiscoverable now w path
  unfolding is_stable
  ready-IsDiscoverable now w path h = elim (Result-cases (folder.stat path w)) [
    | inl (stat, read) ↦ record {
      is_file = ground arith;
      plain = hidden-plain path (ground arith);
      stat = stat;
      read = read;
      filled = ground arith;
      old = ground arith;
    }
    | inr (x, gone) ↦ absurd (ground arith)
  ]

  IsDiscoverable-ready :
      (now : ℕ) (w : W) (path : FilePath) → IsDiscoverable now w path → is_ready now w path ≡ true
  unfolding is_stable
  IsDiscoverable-ready now w path h =
      ground (arith, h.is_file, h.read, h.filled, h.old, plain-hidden path h.plain)

  notify-quiet :
      (handler : Option (ProbedInput → Exec W Unit)) (probed : ProbedInput) (w : W)
      → notify folder scanner handler false probed w ≡ (ok tt, w)
  unfolding pure
  notify-quiet none probed w = refl
  notify-quiet (some handler) probed w = refl

  scan_paths-ready :
      (now : ℕ) (paths : List FilePath) (w : W) (found : List ProbedInput)
      → scanner.running ≡ false
      → (scan_paths folder scanner now paths w).0 ≡ ok found
      → (found ≡ map discovered (keep_if (is_ready now w) paths))
        × ((scan_paths folder scanner now paths w).1 ≡ w)
  unfolding scan_paths ◌>>=◌
  scan_paths-ready now [] w found quiet e = ground arith
  scan_paths-ready now (path ∷ paths) w found quiet e = elim (Result-cases (folder.stat path w)) [
    | inl (stat, read) ↦
        let silent = notify-quiet scanner.handler (discovered path) w in
        elim (Result-cases (scan_paths folder scanner now paths w).0) [
          | inl (others, f) ↦ ground (
            arith,
            quiet,
            silent,
            scan_paths-ready now paths w others quiet f,
            scan_paths-ready now paths w found quiet,
          )
          | inr (x, f) ↦ ground (arith, quiet, silent, scan_paths-ready now paths w found quiet)
        ]
    | inr (x, gone) ↦ ground (arith, scan_paths-ready now paths w found)
  ]

  scan_paths-hidden :
      (now : ℕ) (paths : List FilePath) (w : W)
      → All (λ path. is_hidden path ≡ true) paths
      → scan_paths folder scanner now paths w ≡ (ok [], w)
  unfolding scan_paths ◌>>=◌
  scan_paths-hidden now [] w h = refl
  scan_paths-hidden now (path ∷ paths) w h = ground (arith, h.0, scan_paths-hidden now paths w h.1)

  -- A scan of a folder that returns, with no handler running, reports the files of the folder, in
  -- the order of their paths and each with its extension, of which no part of the path begins with a
  -- dot, that are not empty and that were last changed at least the configured seconds before the
  -- scan began. It reports no others, and changes nothing but the clock.
  pub poll_scan_once-ready :
      (dir : FilePath) (w : W) (found : List ProbedInput)
      → scanner.running ≡ false
      → folder.is_dir dir w ≡ true
      → (poll_scan_once folder scanner dir w).0 ≡ ok found
      → let (now, w') = folder.time w in
        (kept : List FilePath) × Selects
          (IsDiscoverable now w')
          (sorted folder.path_before (folder.rglob dir w'))
          kept
        × (found ≡ map discovered kept)
        × ((poll_scan_once folder scanner dir w).1 ≡ w')
  unfolding poll_scan_once ◌>>=◌
  poll_scan_once-ready dir w found quiet there e =
      let (now, w') = folder.time w in
      let listed = sorted folder.path_before (folder.rglob dir w') in
      (
        keep_if (is_ready now w') listed,
        keep_if-Selects (IsDiscoverable now w') (is_ready now w') (ready-IsDiscoverable now w')
            (IsDiscoverable-ready now w') listed,
        ground (arith, there, scan_paths-ready now listed w' found quiet),
        ground (arith, there, scan_paths-ready now listed w' found quiet),
      )

  -- A folder one of whose own parts begins with a dot hides all its files: a scan of it returns
  -- none of them, whatever they are.
  pub poll_scan_once-hidden :
      (dir : FilePath) (w : W)
      → is_hidden dir ≡ true
      → ((v : W) → All (λ path. (rest : FilePath) × (path ≡ dir ++ rest)) (folder.rglob dir v))
      → (poll_scan_once folder scanner dir w).0 ≡ ok []
  unfolding poll_scan_once ◌>>=◌
  poll_scan_once-hidden dir w hidden below =
      let (now, w') = folder.time w in
      let listed : All (λ path. is_hidden path ≡ true) (folder.rglob dir w') =
        All-imp _ _ (folder.rglob dir w')
          (λ path (rest, e). rw e (is_hidden-append dir rest hidden)) (below w') in
      ground (
        arith,
        scan_paths-hidden now (sorted folder.path_before (folder.rglob dir w')) w'
            (sorted-All folder.path_before _ (folder.rglob dir w') listed),
      )
