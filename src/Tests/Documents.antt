-- ===== src/Tests/Documents.antt =====
-- HandBrake presets, a scanned folder and a YAML configuration at concrete inputs.
use vshift.Base.{
  ◌≡◌, refl, ◌↔◌, true, false, Option, none, some, List, [], ◌∷◌, ◌++◌, map, All, Holds, length,
  string_eq, ℕ_discrete, int_eq,
}
use vshift.Base.Dict.{Dict}
use vshift.Base.Exec.{Result, ok, err, ◌>>=◌}
use vshift.Base.FilePath.{FilePath}
use vshift.Base.Json.{Json, Items, Fields, Reading}
use vshift.Base.Sorting.{sorted}
use vshift.Base.Text.{is_blank}
use vshift.Profile.{VshiftProfile, quality_mode_eq, frame_rate_type_eq}
use vshift.Profile.Validation.{validate_video, validate_profile}
use vshift.Config.Settings.Validity.{validate_config-IsValid}
use vshift.Handbrake.{iter_leaves, root_nodes, parse_presets_from_json}
use vshift.Handbrake.Leaves.{IsBelow, iter_leaves_iff}
use vshift.Handbrake.Presets.{IsAccepted, parse_presets_from_json-IsAccepted}
use vshift.Filesystem.Scanner.{Folder, PollFileScanner, is_hidden, discovered, poll_scan_once}
use vshift.Filesystem.Scanner.Discovery.{
  Selects, IsDiscoverable, poll_scan_once-ready, poll_scan_once-hidden,
}
use vshift.Filesystem.Configuration.{YamlFiles, resolve_entries, load}
use vshift.Filesystem.Configuration.Loading.{
  AreResolved, resolve_entries-AreResolved, load-match_profile,
}
use vshift.Server.{ProfileMatch, match_profile}
use vshift.Server.Matching.{IsMatch}
use vshift.Tests.{config, probed}
use vshift.Tests.ServerRuns.{config-IsValid}

-- a preset, and a folder with it
abbrev preset : Json
preset = Json.object (
    Fields.field "PresetName" (Json.text "Fast 1080p30")
      (Fields.field "VideoEncoder" (Json.text "x265_10bit") Fields.end))

abbrev folder_node : Json
folder_node = Json.object (
    Fields.field "Folder" (Json.boolean true)
      (Fields.field "ChildrenArray" (Json.array (Items.item preset Items.nil)) Fields.end))

abbrev nodes : Items
nodes = Items.item folder_node Items.nil

abbrev leaf : Dict Json
leaf = ("PresetName", Json.text "Fast 1080p30") ∷ ("VideoEncoder", Json.text "x265_10bit") ∷ []

iter_leaves_iff_example : Holds leaf (iter_leaves nodes) ↔ IsBelow leaf nodes
iter_leaves_iff_example = iter_leaves_iff nodes leaf

-- Python, for a document whose numbers are no texts
abbrev reading : Reading
reading = record { int_text = λ s. none; float_text = λ s. none; repr = λ j. "" }

abbrev document : Result Json
document = ok (Json.object (Fields.field "PresetList" (Json.array nodes) Fields.end))

abbrev imported : Result (List VshiftProfile)
imported = parse_presets_from_json reading document

abbrev profiles_of : Result (List VshiftProfile) → List VshiftProfile
profiles_of (ok profiles) = profiles
profiles_of (err e) = []

imports : imported ≡ ok (profiles_of imported)
unfolding parse_presets_from_json string_eq is_blank quality_mode_eq frame_rate_type_eq int_eq
    validate_video ℕ_discrete validate_profile
imports = refl

parse_presets_from_json-IsAccepted_example :
    (parsed : Json) × (roots : Items) × (document ≡ ok parsed)
    × (root_nodes parsed ≡ ok roots)
    × (length (profiles_of imported) ≡ length (iter_leaves roots))
    × All IsAccepted (profiles_of imported)
parse_presets_from_json-IsAccepted_example =
    parse_presets_from_json-IsAccepted reading document (profiles_of imported) imports

-- A folder with one film of 1000 bytes, changed an hour before the scan, and a hidden file.
abbrev film : FilePath
film = "/" ∷ "in" ∷ "film.MP4" ∷ []

abbrev folder : Folder Unit
folder = record {
  is_dir = λ path w. true;
  rglob = λ dir w. (dir ++ "film.MP4" ∷ []) ∷ (dir ++ ".part" ∷ []) ∷ [];
  is_file = λ path w. true;
  stat = λ path w. ok (record { st_size = 1000; st_mtime = 0 });
  time = λ w. (3600000000, w);
  path_before = λ p q. true;
}

abbrev poller : PollFileScanner Unit
poller = record { file_stability_seconds = 30; handler = none; running = false }

finds : (poll_scan_once folder poller ("/" ∷ "in" ∷ []) tt).0 ≡ ok (discovered film ∷ [])
unfolding poll_scan_once ◌>>=◌ sorted string_eq ℕ_discrete
finds = refl

poll_scan_once-ready_example :
    (kept : List FilePath) × Selects
      (IsDiscoverable folder poller 3600000000 tt)
      (sorted folder.path_before (folder.rglob ("/" ∷ "in" ∷ []) tt))
      kept
    × (discovered film ∷ [] ≡ map discovered kept)
    × ((poll_scan_once folder poller ("/" ∷ "in" ∷ []) tt).1 ≡ tt)
poll_scan_once-ready_example =
    poll_scan_once-ready folder poller ("/" ∷ "in" ∷ []) tt (discovered film ∷ []) refl refl finds

-- The same folder below a directory whose name begins with a dot.
abbrev dotted : FilePath
dotted = "/" ∷ ".media" ∷ []

dotted-is_hidden : is_hidden dotted ≡ true
unfolding is_hidden ℕ_discrete
dotted-is_hidden = refl

poll_scan_once-hidden_example : (poll_scan_once folder poller dotted tt).0 ≡ ok []
poll_scan_once-hidden_example =
    poll_scan_once-hidden folder poller dotted tt dotted-is_hidden
      (λ w. (("film.MP4" ∷ [], refl), ((".part" ∷ [], refl), tt)))

-- A configuration file that is read as the configuration of the tests, with one profile in a file
-- of its own.
abbrev profile_file : Fields
profile_file = Fields.field "name" (Json.text "archive") Fields.end

abbrev references : Fields
references =
    Fields.field "archive" (Json.object (Fields.field "$ref" (Json.text "archive.yaml") Fields.end))
      Fields.end

abbrev pub yaml : YamlFiles
yaml = record {
  is_file = λ path. true;
  safe_load = λ path. ok (Json.object profile_file);
  path_of = λ s. s ∷ [];
  is_absolute = λ path. false;
  join = λ dir path. dir ++ path;
  read_fields = λ fs. ok (some config);
}

resolves :
    resolve_entries yaml ("/" ∷ "etc" ∷ []) references
    ≡ ok (Fields.field "archive" (Json.object profile_file) Fields.end)
unfolding resolve_entries string_eq is_blank ℕ_discrete
resolves = refl

resolve_entries-AreResolved_example :
    AreResolved yaml
      ("/" ∷ "etc" ∷ [])
      references
      (Fields.field "archive" (Json.object profile_file) Fields.end)
resolve_entries-AreResolved_example =
    resolve_entries-AreResolved yaml ("/" ∷ "etc" ∷ []) references
      (Fields.field "archive" (Json.object profile_file) Fields.end) resolves

pub loads : (path : FilePath) → load yaml path ≡ ok config
unfolding load string_eq
loads path = (validate_config-IsValid config).1 config-IsValid

load-match_profile_example :
    (found : Option ProfileMatch) × (match_profile config probed ≡ ok found)
    × IsMatch config probed found
load-match_profile_example =
    load-match_profile yaml ("/" ∷ "etc" ∷ "vshift.yaml" ∷ []) config probed
      (loads ("/" ∷ "etc" ∷ "vshift.yaml" ∷ []))
