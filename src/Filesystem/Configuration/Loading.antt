-- ===== src/Filesystem/Configuration/Loading.antt =====
-- What a configuration that was loaded can be relied on for, and what becomes of its references.
use vshift.Base.{
  ◌≢◌, ◌≡◌, refl, sym, ap, ◌∙◌, subst, inl, inr, true, false, String, Bool-cases, if◌then◌else◌,
  Option, none, some, arith, string_eq,
}
use vshift.Base.Dict.{lookup}
use vshift.Base.Exec.{ok, and_then-ok, ok-injective, guard-ok, refuse-ok}
use vshift.Base.FilePath.{FilePath, parent}
use vshift.Base.Json.{Json, Fields, entries}
use vshift.Base.Text.{is_blank}
use vshift.Input.{ProbedInput}
use vshift.Config.Settings.{VshiftConfig, check_rules, validate_config}
use vshift.Config.Settings.Validity.{IsValid, validate_config-IsValid}
use vshift.Server.Capacity.{Result-cases}
use vshift.Server.{ProfileMatch, match_profile}
use vshift.Server.Matching.{IsMatch, match_profile-IsMatch}
use vshift.Filesystem.Configuration.{
  YamlFiles, only_ref, as_reference, resolve_mapping, load_reference, resolve_reference,
  resolve_profile_entry, resolve_entries, resolve_profile_refs, validated, as_mapping, load,
}

validate_config-ok : (c c' : VshiftConfig) → validate_config c ≡ ok c' → c ≡ c'
unfolding validate_config
validate_config-ok c c' e = elim (Result-cases (check_rules c.profiles c.rules)) [
  | inl (u, checked) ↦ ground arith
  | inr (x, refused) ↦ ground arith
]

module _ (yaml : YamlFiles) where
  validated-IsValid :
      (o : Option VshiftConfig) (c : VshiftConfig) → validated yaml o ≡ ok c → IsValid c
  unfolding validated
  validated-IsValid none c e = absurd (ground arith)
  validated-IsValid (some c') c e =
      let same = validate_config-ok c' c e in
      subst IsValid same ((validate_config-IsValid c').0 (e ∙ ap ok (sym same)))

  pub load-IsValid : (path : FilePath) (c : VshiftConfig) → load yaml path ≡ ok c → IsValid c
  unfolding load
  load-IsValid path c e =
      let (there, e1) = guard-ok (yaml.is_file path) _ _ c e in
      let (raw, _, e2) = and_then-ok (yaml.safe_load path) _ c e1 in
      let (root, _, e3) = and_then-ok (as_mapping yaml raw) _ c e2 in
      let (resolved, _, e4) = and_then-ok (resolve_profile_refs yaml (parent path) root) _ c e3 in
      let (fields, _, e5) = and_then-ok (yaml.read_fields resolved) (validated yaml) c e4 in
      validated-IsValid fields c e5

  -- The server never fails to match a file against a configuration that the loader returned: the
  -- use case returns the profile of the selected rule, the default profile, or nothing.
  pub load-match_profile :
      (path : FilePath) (c : VshiftConfig) (probed : ProbedInput)
      → load yaml path ≡ ok c
      → (found : Option ProfileMatch) × (match_profile c probed ≡ ok found) × IsMatch c probed found
  load-match_profile path c probed e = match_profile-IsMatch c probed (load-IsValid path c e)

  -- The path that a reference means in a folder.
  pub data IsAt (dir : FilePath) (s : String) : FilePath → Type 0 where
    absolute : yaml.is_absolute (yaml.path_of s) ≡ true → IsAt dir s (yaml.path_of s)
    relative :
        yaml.is_absolute (yaml.path_of s) ≡ false → IsAt dir s (yaml.join dir (yaml.path_of s))

  -- A mapping with a reference and nothing else, whose text is not blank.
  pub record IsReference (j : Json) (s : String) : Type 0 where
    pub fields : Fields
    pub is_object : j ≡ Json.object fields
    pub has_ref : lookup "$ref" (entries fields) ≡ some (Json.text s)
    pub has_no_more : (k : String) → k ≢ "$ref" → lookup k (entries fields) ≡ none
    pub is_given : is_blank s ≡ false

  -- What a profile's entry may become: itself, where it is no mapping or has no reference, or the
  -- mapping in the file that its reference names.
  pub data IsResolved (dir : FilePath) (j : Json) : Json → Type 0 where
    as_given :
        ((fs : Fields) → j ≡ Json.object fs → lookup "$ref" (entries fs) ≡ none)
        → IsResolved dir j j
    from_file :
        (s : String) (file : FilePath) (fs : Fields)
        → IsReference j s
        → IsAt dir s file
        → yaml.is_file file ≡ true
        → yaml.safe_load file ≡ ok (Json.object fs)
        → IsResolved dir j (Json.object fs)

  as_reference-IsResolved :
      (dir file : FilePath) (s : String) (j loaded j' : Json)
      → IsReference j s
      → IsAt dir s file
      → yaml.is_file file ≡ true
      → yaml.safe_load file ≡ ok loaded
      → as_reference yaml loaded ≡ ok j'
      → IsResolved dir j j'
  as_reference-IsResolved dir file s j (Json.object fs) j' ref at there read e =
      subst (IsResolved dir j) (ok-injective (Json.object fs) j' e)
        (IsResolved.from_file s file fs ref at there read)
  as_reference-IsResolved dir file s j Json.null j' ref at there read e = absurd (ground arith)
  as_reference-IsResolved dir file s j (Json.boolean b) j' ref at there read e =
      absurd (ground arith)
  as_reference-IsResolved dir file s j (Json.int z) j' ref at there read e = absurd (ground arith)
  as_reference-IsResolved dir file s j (Json.float z) j' ref at there read e = absurd (ground arith)
  as_reference-IsResolved dir file s j (Json.text t) j' ref at there read e = absurd (ground arith)
  as_reference-IsResolved dir file s j (Json.array js) j' ref at there read e =
      absurd (ground arith)

  load_reference-IsResolved :
      (dir file : FilePath) (s : String) (j j' : Json)
      → IsReference j s
      → IsAt dir s file
      → load_reference yaml file ≡ ok j'
      → IsResolved dir j j'
  unfolding load_reference
  load_reference-IsResolved dir file s j j' ref at e =
      let (there, e1) = guard-ok (yaml.is_file file) _ _ j' e in
      let (loaded, read, e2) = and_then-ok (yaml.safe_load file) (as_reference yaml) j' e1 in
      as_reference-IsResolved dir file s j loaded j' ref at there read e2

  ref-IsAt :
      (dir : FilePath) (s : String)
      → IsAt dir s (
          if yaml.is_absolute (yaml.path_of s)
          then yaml.path_of s
          else yaml.join dir (yaml.path_of s))
  ref-IsAt dir s = elim (Bool-cases (yaml.is_absolute (yaml.path_of s))) [
    | inl whole ↦
        subst (IsAt dir s)
          (sym (ap (λ b. if b then yaml.path_of s else yaml.join dir (yaml.path_of s)) whole))
          (IsAt.absolute whole)
    | inr partial ↦
        subst (IsAt dir s)
          (sym (ap (λ b. if b then yaml.path_of s else yaml.join dir (yaml.path_of s)) partial))
          (IsAt.relative partial)
  ]

  only_ref-lookup :
      (fs : Fields) (k : String) → only_ref fs ≡ true → k ≢ "$ref" → lookup k (entries fs) ≡ none
  unfolding only_ref
  only_ref-lookup Fields.end k h other = refl
  only_ref-lookup (Fields.field k' j fs) k h other = ground (arith, only_ref-lookup fs k)

  resolve_reference-IsResolved :
      (dir : FilePath) (fs : Fields) (ref j' : Json)
      → lookup "$ref" (entries fs) ≡ some ref
      → only_ref fs ≡ true
      → resolve_reference yaml dir ref ≡ ok j'
      → IsResolved dir (Json.object fs) j'
  unfolding resolve_reference
  resolve_reference-IsResolved dir fs (Json.text s) j' found only e =
      let (given, e1) = refuse-ok (is_blank s) _ _ j' e in
      load_reference-IsResolved dir _ s (Json.object fs) j'
        (record {
          fields = fs;
          is_object = refl;
          has_ref = found;
          has_no_more = λ k other. only_ref-lookup fs k only other;
          is_given = given;
        })
        (ref-IsAt dir s) e1
  resolve_reference-IsResolved dir fs (Json.object gs) j' found only e = absurd (ground arith)
  resolve_reference-IsResolved dir fs Json.null j' found only e = absurd (ground arith)
  resolve_reference-IsResolved dir fs (Json.boolean b) j' found only e = absurd (ground arith)
  resolve_reference-IsResolved dir fs (Json.int z) j' found only e = absurd (ground arith)
  resolve_reference-IsResolved dir fs (Json.float z) j' found only e = absurd (ground arith)
  resolve_reference-IsResolved dir fs (Json.array js) j' found only e = absurd (ground arith)

  fields-injective : (fs fs' : Fields) → Json.object fs ≡ Json.object fs' → fs ≡ fs'
  fields-injective fs fs' e = cc

  resolve_mapping-IsResolved :
      (dir : FilePath) (fs : Fields) (o : Option Json) (j' : Json)
      → lookup "$ref" (entries fs) ≡ o
      → resolve_mapping yaml dir fs o ≡ ok j'
      → IsResolved dir (Json.object fs) j'
  unfolding resolve_mapping
  resolve_mapping-IsResolved dir fs none j' plain e =
      subst (IsResolved dir (Json.object fs)) (ok-injective (Json.object fs) j' e)
        (IsResolved.as_given (λ fs' same. rw (sym (fields-injective fs fs' same)) plain))
  resolve_mapping-IsResolved dir fs (some ref) j' found e =
      let (only, e1) = guard-ok (only_ref fs) _ _ j' e in
      resolve_reference-IsResolved dir fs ref j' found only e1

  given :
      (dir : FilePath) (j j' : Json)
      → ((fs : Fields) → j ≢ Json.object fs)
      → ok j ≡ ok j'
      → IsResolved dir j j'
  given dir j j' other e =
      subst (IsResolved dir j) (ok-injective j j' e)
        (IsResolved.as_given (λ fs same. absurd (other fs same)))

  resolve_profile_entry-IsResolved :
      (dir : FilePath) (j j' : Json)
      → resolve_profile_entry yaml dir j ≡ ok j'
      → IsResolved dir j j'
  unfolding resolve_profile_entry
  resolve_profile_entry-IsResolved dir (Json.object fs) j' e =
      resolve_mapping-IsResolved dir fs (lookup "$ref" (entries fs)) j' refl e
  resolve_profile_entry-IsResolved dir Json.null j' e = given dir _ j' (λ fs same. cc) e
  resolve_profile_entry-IsResolved dir (Json.boolean b) j' e = given dir _ j' (λ fs same. cc) e
  resolve_profile_entry-IsResolved dir (Json.int z) j' e = given dir _ j' (λ fs same. cc) e
  resolve_profile_entry-IsResolved dir (Json.float z) j' e = given dir _ j' (λ fs same. cc) e
  resolve_profile_entry-IsResolved dir (Json.text s) j' e = given dir _ j' (λ fs same. cc) e
  resolve_profile_entry-IsResolved dir (Json.array js) j' e = given dir _ j' (λ fs same. cc) e

  -- Two mappings with the same keys in the same order, and each value resolved.
  abbrev pub AreResolved : FilePath → Fields → Fields → Type 0
  AreResolved dir Fields.end fs' = fs' ≡ Fields.end
  AreResolved dir (Fields.field name j fs) fs' =
      (j' : Json) × (rest : Fields) × (fs' ≡ Fields.field name j' rest)
      × IsResolved dir j j'
      × AreResolved dir fs rest

  -- A resolution of the profiles that does not raise keeps their names and their order. A profile
  -- without a reference is kept as it is, and any other has a reference and nothing else, and becomes
  -- the mapping in the file that the reference names, in the folder of the configuration if the
  -- reference is relative.
  pub resolve_entries-AreResolved :
      (dir : FilePath) (fs fs' : Fields)
      → resolve_entries yaml dir fs ≡ ok fs'
      → AreResolved dir fs fs'
  unfolding resolve_entries
  resolve_entries-AreResolved dir Fields.end fs' e = sym (ok-injective Fields.end fs' e)
  resolve_entries-AreResolved dir (Fields.field name j fs) fs' e =
      let (j', resolved, e1) = and_then-ok (resolve_profile_entry yaml dir j) _ fs' e in
      let (rest, others, e2) = and_then-ok (resolve_entries yaml dir fs) _ fs' e1 in
      (
        j',
        rest,
        sym (ok-injective (Fields.field name j' rest) fs' e2),
        resolve_profile_entry-IsResolved dir j j' resolved,
        resolve_entries-AreResolved dir fs rest others,
      )
