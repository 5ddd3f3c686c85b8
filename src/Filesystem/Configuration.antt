-- ===== src/Filesystem/Configuration.antt =====
-- yaml_config_loader.py and yaml_config_repository.py. Reading a YAML file and filling the models'
-- fields are parameters; keys of a mapping are texts.
pub mod Loading
use vshift.Base.{
  ℕ, String, Bool, true, false, not, ◌&&◌, ◌||◌, Option, none, some, List, [], ◌∷◌, map, ◌==◌,
  string_eq, if◌then◌else◌,
}
use vshift.Base.Dict.{Dict, lookup, has_key, insert, keys}
use vshift.Base.Exec.{Result, ok, err, Error, vshift_exception, and_then}
use vshift.Base.FilePath.{FilePath, parent}
use vshift.Base.Json.{Json, Items, Fields, entries}
use vshift.Base.Text.{is_blank}
use vshift.Profile.{VshiftProfile}
use vshift.Config.Settings.{VshiftConfig, validate_config}

-- What the loader asks of the file system and of pydantic. `read_fields` fills the fields of the
-- configuration and of the models in it, with their own validators; `none` is a `ValidationError`.
pub record YamlFiles : Type 0 where
  pub is_file : FilePath → Bool
  pub safe_load : FilePath → Result Json
  pub path_of : String → FilePath
  pub is_absolute : FilePath → Bool
  pub join : FilePath → FilePath → FilePath
  pub read_fields : Fields → Result (Option VshiftConfig)

-- `ref_keys == {"$ref"}`, for a mapping that has the key
unfoldable pub only_ref : Fields → Bool
only_ref Fields.end = true
only_ref (Fields.field k j fs) = k == "$ref" && only_ref fs

-- `resolved["profiles"] = ...`, for a mapping that has the key
unfoldable pub put_profiles : Json → Fields → Fields
put_profiles profiles Fields.end = Fields.end
put_profiles profiles (Fields.field k j fs) =
    let rest = put_profiles profiles fs in
    if "profiles" == k then Fields.field k profiles fs else Fields.field k j rest

module _ (yaml : YamlFiles) where
  -- what a referenced file holds, if it is a mapping
  abbrev pub as_reference : Json → Result Json
  as_reference (Json.object fs) = ok (Json.object fs)
  as_reference _ = err (vshift_exception "profile reference must be a mapping")

  -- The part of `_resolve_profile_entry` for a path that was found.
  unfoldable pub load_reference : FilePath → Result Json
  load_reference ref_path =
      if not (yaml.is_file ref_path)
      then err (vshift_exception "profile reference not found")
      else and_then (yaml.safe_load ref_path) as_reference

  -- The part of `_resolve_profile_entry` for the value of the key `$ref`.
  unfoldable pub resolve_reference : FilePath → Json → Result Json
  unfolding load_reference
  resolve_reference config_dir (Json.text s) =
      if is_blank s
      then err (vshift_exception "profile has an invalid $ref value")
      else (let ref_path = yaml.path_of s in
          load_reference
            (if yaml.is_absolute ref_path then ref_path else yaml.join config_dir ref_path))
  resolve_reference config_dir _ = err (vshift_exception "profile has an invalid $ref value")

  -- The part of `_resolve_profile_entry` for a mapping, with the value of `$ref` if it has the key.
  unfoldable pub resolve_mapping : FilePath → Fields → Option Json → Result Json
  unfolding only_ref resolve_reference
  resolve_mapping config_dir fs none = ok (Json.object fs)
  resolve_mapping config_dir fs (some ref_value) =
      if not (only_ref fs)
      then err (vshift_exception "profile $ref entry must only contain the $ref key")
      else resolve_reference config_dir ref_value

  -- `_resolve_profile_entry`
  unfoldable pub resolve_profile_entry : FilePath → Json → Result Json
  unfolding resolve_mapping
  resolve_profile_entry config_dir (Json.object fs) =
      resolve_mapping config_dir fs (lookup "$ref" (entries fs))
  resolve_profile_entry config_dir j = ok j

  -- The loop of `_resolve_profile_refs`.
  unfoldable pub resolve_entries : FilePath → Fields → Result Fields
  unfolding resolve_profile_entry
  resolve_entries config_dir Fields.end = ok Fields.end
  resolve_entries config_dir (Fields.field name j fs) =
      and_then (resolve_profile_entry config_dir j) (λ resolved.
        and_then (resolve_entries config_dir fs) (λ rest. ok (Fields.field name resolved rest)))

  -- `_resolve_profile_refs`
  unfoldable pub resolve_profile_refs : FilePath → Fields → Result Fields
  unfolding resolve_entries put_profiles
  resolve_profile_refs config_dir fs = elim (lookup "profiles" (entries fs)) [
    | none ↦ ok fs
    | some profiles ↦ elim profiles [
      | Json.object items ↦
          and_then (resolve_entries config_dir items)
            (λ resolved. ok (put_profiles (Json.object resolved) fs))
      | _ ↦ ok fs
    ]
  ]

  -- `VshiftConfig.model_validate`, with what `load` makes of a `ValidationError`
  unfoldable pub validated : Option VshiftConfig → Result VshiftConfig
  validated none = err (vshift_exception "invalid configuration")
  validated (some config) = validate_config config

  -- the root of a configuration
  abbrev pub as_mapping : Json → Result Fields
  as_mapping (Json.object fs) = ok fs
  as_mapping _ = err (vshift_exception "config root must be a mapping")

  -- `YamlConfigLoader.load`
  unfoldable pub load : FilePath → Result VshiftConfig
  unfolding resolve_profile_refs validated
  load path =
      if not (yaml.is_file path)
      then err (vshift_exception "config file not found")
      else and_then (yaml.safe_load path) λ raw. and_then (as_mapping raw) λ root.
        and_then (resolve_profile_refs (parent path) root)
          λ resolved. and_then (yaml.read_fields resolved) validated

-- `YamlConfigRepository`: the path of the file and the configuration that was last loaded
pub record YamlConfigRepository : Type 0 where
  pub config_path : FilePath
  pub config : VshiftConfig

module _ (yaml : YamlFiles) where
  -- `YamlConfigRepository(config_path)`
  unfoldable pub open_repository : FilePath → Result YamlConfigRepository
  open_repository config_path =
      and_then (load yaml config_path)
        (λ config. ok (record { config_path = config_path; config = config }))

  -- `reload`: a file that cannot be loaded leaves the configuration as it was.
  unfoldable pub reload : YamlConfigRepository → Result (Unit {0}) × YamlConfigRepository
  reload repository = elim (load yaml repository.config_path) [
    | ok config ↦ (ok tt, record repository { config = config })
    | err e ↦ (err e, repository)
  ]

-- `get_profile`
abbrev pub get_profile : YamlConfigRepository → String → Option VshiftProfile
get_profile repository name = lookup name repository.config.profiles

-- `list_profile_names`
abbrev pub list_profile_names : YamlConfigRepository → List String
list_profile_names repository = keys repository.config.profiles

-- `get_max_retries`
abbrev pub get_max_retries : YamlConfigRepository → ℕ
get_max_retries repository = repository.config.behavior.max_retries

-- `get_file_stability_seconds`
abbrev pub get_file_stability_seconds : YamlConfigRepository → ℕ
get_file_stability_seconds repository = repository.config.behavior.file_stability_seconds
