-- ===== src/Handbrake.antt =====
-- src/vshift/infrastructure/handbrake/importer.py: HandBrake presets as profiles of vshift. The
-- JSON parser is a parameter; a profile is built with the validators of its model.
pub mod Leaves
pub mod Presets
use vshift.Base.{
  ◌≡◌, ℕ, ℤ, pos, int_eq, is_negative, String, Bool, true, false, not, ◌&&◌, ◌||◌, Option, none,
  some, List, [], ◌∷◌, ◌++◌, map, ◌==◌, is_empty, string_eq, if◌then◌else◌,
}
use vshift.Base.Dict.{Dict, lookup, has_key, insert}
use vshift.Base.Exec.{Result, ok, err, other, and_then}
use vshift.Base.Json.{
  Json, Items, Fields, Reading, elements, entries, get_or, as_dict, as_int, equals_zero, truthy,
  str, to_int, to_float,
}
use vshift.Base.Text.{has_part, begins_with, remove_prefix}
use vshift.Profile.{
  FrameRateType, QualityMode, FramerateMode, AudioSelectionMode, SubtitleSelectionMode,
  VideoEncoder, VideoProfile, AudioTrack, SubtitleTrack, VshiftProfile,
}
use vshift.Profile.Validation.{validate_video, validate_profile}

-- `_video_encoder_map`
abbrev video_encoder_map : Dict String
video_encoder_map =
    ("x264", "h264")
    ∷ ("x265", "h265")
    ∷ ("x265_10bit", "h265")
    ∷ ("x265_12bit", "h265")
    ∷ ("svt_av1", "av1")
    ∷ ("svt_av1_10bit", "av1")
    ∷ ("svt_av1_12bit", "av1")
    ∷ ("vp8", "vp8")
    ∷ ("vp9", "vp9")
    ∷ ("vp9_10bit", "vp9")
    ∷ ("theora", "theora")
    ∷ ("mpeg4", "mpeg4")
    ∷ ("mpeg2", "mpeg2")
    ∷ ("ffv1", "ffv1")
    ∷ []

-- `_format_map`
abbrev format_map : Dict String
format_map =
    ("mp4", "mp4")
    ∷ ("av_mp4", "mp4")
    ∷ ("mkv", "mkv")
    ∷ ("av_mkv", "mkv")
    ∷ ("webm", "webm")
    ∷ ("avi", "avi")
    ∷ ("mov", "mov")
    ∷ []

-- `mapping.get(key, default)`
abbrev get_default : {A : Type 0} → Dict A → String → A → A
get_default mapping key default = elim (lookup key mapping) [ none ↦ default | some a ↦ a ]

-- One `if` of `_normalize_handbrake_dict`: the new key gets the old one's value where it is
-- missing.
unfoldable pub copy_key : (old new : String) → Dict Json → Dict Json
copy_key old new d = elim (lookup old d) [
  | none ↦ d
  | some j ↦ if has_key new d then d else insert new j d
]

-- `_normalize_handbrake_dict`
unfoldable pub normalize_handbrake_dict : Dict Json → Dict Json
unfolding copy_key
normalize_handbrake_dict preset = copy_key "Mp4HttpOptimize" "Optimize" (
    copy_key "VideoTurboTwoPass" "VideoTurboMultiPass"
      (copy_key "VideoTwoPass" "VideoMultiPass" preset))

-- `_iter_handbrake_leaf_presets`, for a node, for the nodes of a list, and for the children of a
-- folder: what is no dict is left out.
unfoldable mutual
  unfolding normalize_handbrake_dict

  pub node_leaves : Json → List (Dict Json)
  node_leaves (Json.object fs) =
      let node = normalize_handbrake_dict (entries fs) in
      let below = children_leaves fs in
      if truthy (get_or "Folder" (Json.boolean false) node) then below else node ∷ []
  node_leaves _ = []

  pub iter_leaves : Items → List (Dict Json)
  iter_leaves Items.nil = []
  iter_leaves (Items.item j js) = node_leaves j ++ iter_leaves js

  -- `node.get("ChildrenArray", [])`, if it is a list
  pub children_leaves : Fields → List (Dict Json)
  children_leaves Fields.end = []
  children_leaves (Fields.field k j fs) =
      let here = list_leaves j in
      let further = children_leaves fs in if "ChildrenArray" == k then here else further

  pub list_leaves : Json → List (Dict Json)
  list_leaves (Json.array js) = iter_leaves js
  list_leaves _ = []

-- `_handbrake_root_nodes`, as the list that holds the nodes: the iteration leaves out what is no
-- dict.
unfoldable pub root_nodes : Json → Result Items
root_nodes (Json.array js) = ok js
root_nodes (Json.object fs) = elim (lookup "PresetList" (entries fs)) [
  | none ↦ err (other "ValueError")
  | some j ↦ elim j [ Json.array js ↦ ok js | _ ↦ err (other "ValueError") ]
]
root_nodes _ = err (other "ValueError")

-- `_map_bit_depth`
unfoldable pub map_bit_depth : String → ℕ
map_bit_depth encoder =
    if has_part "12bit" encoder then 12 else if has_part "10bit" encoder then 10 else 8

-- `_map_video_encoder`
unfoldable pub map_video_encoder : String → String × ℕ
unfolding map_bit_depth
map_video_encoder encoder = (get_default video_encoder_map encoder encoder, map_bit_depth encoder)

-- `_map_container_format`
unfoldable pub map_container_format : String → String
map_container_format file_format = get_default format_map file_format file_format

-- `_parse_dimension`, for a key that may be missing
unfoldable pub parse_dimension : Option Json → Option ℤ
parse_dimension none = none
parse_dimension (some j) = if equals_zero j then none else as_int j

-- `_parse_audio_selection_mode`
unfoldable pub parse_audio_selection_mode : String → AudioSelectionMode
parse_audio_selection_mode s =
    let mapping : Dict AudioSelectionMode =
      ("auto", AudioSelectionMode.auto)
      ∷ ("first", AudioSelectionMode.first)
      ∷ ("all", AudioSelectionMode.all)
      ∷ ("none", AudioSelectionMode.none)
      ∷ [] in
    get_default mapping s AudioSelectionMode.auto

-- `_parse_subtitle_selection_mode`
unfoldable pub parse_subtitle_selection_mode : String → SubtitleSelectionMode
parse_subtitle_selection_mode s =
    let mapping : Dict SubtitleSelectionMode =
      ("auto", SubtitleSelectionMode.auto)
      ∷ ("first", SubtitleSelectionMode.first)
      ∷ ("all", SubtitleSelectionMode.all)
      ∷ ("none", SubtitleSelectionMode.none)
      ∷ ("foreign", SubtitleSelectionMode.foreign)
      ∷ [] in
    get_default mapping s SubtitleSelectionMode.auto

-- `FramerateMode(str(...))`, with `VFR` for what is no mode
unfoldable pub parse_framerate_mode : String → FramerateMode
parse_framerate_mode s =
    let modes : Dict FramerateMode =
      ("vfr", FramerateMode.vfr) ∷ ("pfr", FramerateMode.pfr) ∷ ("cfr", FramerateMode.cfr) ∷ [] in
    get_default modes s FramerateMode.vfr

module _ (reading : Reading) where
  -- `str(d.get(key, default))`
  abbrev get_text : String → String → Dict Json → String
  get_text key default d = str reading (get_or key (Json.text default) d)

  -- `bool(d.get(key, default))`
  abbrev get_bool : String → Bool → Dict Json → Bool
  get_bool key default d = truthy (get_or key (Json.boolean default) d)

  -- `_parse_framerate`
  unfoldable pub parse_framerate : String → FrameRateType × Option ℤ
  parse_framerate framerate =
      if framerate == "auto" || framerate == ""
      then (FrameRateType.same_as_source, none)
      else elim (reading.float_text framerate) [
        | none ↦ (FrameRateType.same_as_source, none)
        | some rate ↦ (FrameRateType.custom, some rate)
      ]

  -- `int(avg_bitrate) if avg_bitrate is not None else None`
  abbrev parse_bitrate : Option Json → Result (Option ℤ)
  parse_bitrate none = ok none
  parse_bitrate (some Json.null) = ok none
  parse_bitrate (some j) = and_then (to_int reading j) (λ rate. ok (some rate))

  -- The end of `_parse_quality`.
  unfoldable pub quality_of :
      (quality_type slider : ℤ) (bitrate_kbps : Option ℤ) → QualityMode × ℤ × Option ℤ
  quality_of quality_type slider bitrate_kbps =
      if quality_type == pos 1
      then (QualityMode.average_bitrate, slider, bitrate_kbps)
      else if quality_type == pos 2
      then (QualityMode.constant, slider, none)
      else if not (is_negative slider)
      then (QualityMode.constant, slider, none)
      else (QualityMode.average_bitrate, slider, bitrate_kbps)

  -- `_parse_quality`
  unfoldable pub parse_quality : Dict Json → Result (QualityMode × ℤ × Option ℤ)
  unfolding quality_of
  parse_quality hb =
      and_then (to_int reading (get_or "VideoQualityType" (Json.int (pos 2)) hb)) λ quality_type.
        and_then (to_float reading (get_or "VideoQualitySlider" (Json.float (pos 22000000)) hb))
          λ slider.
            and_then (parse_bitrate (lookup "VideoAvgBitrate" hb))
              (λ bitrate_kbps. ok (quality_of quality_type slider bitrate_kbps))

  -- The sample rate of `_parse_audio_track`: what `int` refuses counts as none.
  abbrev parse_sample_rate : Json → Option ℤ
  parse_sample_rate Json.null = none
  parse_sample_rate (Json.text s) = if s == "auto" || s == "" then none else reading.int_text s
  parse_sample_rate j = elim (to_int reading j) [ ok rate ↦ some rate | err e ↦ none ]

  -- `_parse_audio_track`
  unfoldable pub parse_audio_track : Dict Json → Result AudioTrack
  parse_audio_track entry =
      let encoder = get_text "AudioEncoder" "aac" entry in
      let copy_track = encoder == "copy" || begins_with "copy:" encoder in
      and_then (to_int reading (get_or "AudioBitrate" (Json.int (pos 160)) entry)) λ bit_rate.
        ok record {
          codec = if copy_track then remove_prefix "copy:" encoder else encoder;
          bit_rate = bit_rate;
          sample_rate = parse_sample_rate (get_or "AudioSamplerate" (Json.text "auto") entry);
          mixdown = get_text "AudioMixdown" "stereo" entry;
          copy_track = copy_track;
        }

  -- The loop over the audio list, which passes over what is no dict.
  unfoldable pub parse_audio_list : List Json → Result (List AudioTrack)
  unfolding parse_audio_track
  parse_audio_list [] = ok []
  parse_audio_list (j ∷ js) = elim (as_dict j) [
    | none ↦ parse_audio_list js
    | some entry ↦
        and_then (parse_audio_track entry)
          (λ track. and_then (parse_audio_list js) (λ tracks. ok (track ∷ tracks)))
  ]

  -- `isinstance(audio_list, list)`
  abbrev pub parse_audio_tracks : Json → Result (List AudioTrack)
  parse_audio_tracks (Json.array js) = parse_audio_list (elements js)
  parse_audio_tracks _ = ok []

  -- `_parse_language_list`
  unfoldable pub parse_language_list : Json → List String
  parse_language_list (Json.array js) = map (str reading) (elements js)
  parse_language_list _ = []

  -- The tracks of `_parse_subtitle_tracks`; `index == 0` holds of the first.
  unfoldable pub subtitle_tracks : (burn_in is_default : Bool) → List String → List SubtitleTrack
  subtitle_tracks burn_in is_default [] = []
  subtitle_tracks burn_in is_default (language ∷ languages) =
      record {
        language = language;
        codec = "copy";
        copy_track = true;
        burn_in = burn_in;
        is_default = is_default;
      }
      ∷ subtitle_tracks burn_in false languages

  -- `_parse_subtitle_tracks`
  unfoldable pub parse_subtitle_tracks : Dict Json → List SubtitleTrack
  unfolding parse_language_list subtitle_tracks
  parse_subtitle_tracks hb =
      let languages =
        parse_language_list (get_or "SubtitleLanguageList" (Json.array Items.nil) hb) in
      let burn_behavior = get_text "SubtitleBurnBehavior" "none" hb in
      subtitle_tracks (burn_behavior == "all" || burn_behavior == "foreign") true languages

  -- `any(track.copy_track for track in tracks)`
  abbrev any_copy : {A : Type 0} → (A → Bool) → List A → Bool
  any_copy copies [] = false
  any_copy copies (track ∷ tracks) = copies track || any_copy copies tracks

  -- `str(d.get("PresetDescription") or "")`
  abbrev description_of : Option Json → String
  description_of none = ""
  description_of (some j) = if truthy j then str reading j else ""

  -- The video profile of `parse_preset`, before its validators.
  abbrev pub preset_video : Dict Json → QualityMode × ℤ × Option ℤ → VideoProfile
  preset_video hb (quality_mode, quality, average_bitrate) =
      let (codec, bit_depth) = map_video_encoder (get_text "VideoEncoder" "x264" hb) in
      let (frame_rate_type, frame_rate) = parse_framerate (get_text "VideoFramerate" "auto" hb) in
      record {
        codec = codec;
        encoder = VideoEncoder.auto;
        color_space = "yuv420p";
        bit_depth = bit_depth;
        frame_rate_type = frame_rate_type;
        frame_rate = frame_rate;
        framerate_mode = parse_framerate_mode (get_text "VideoFramerateMode" "vfr" hb);
        width = parse_dimension (lookup "PictureWidth" hb);
        height = parse_dimension (lookup "PictureHeight" hb);
        quality_mode = quality_mode;
        quality = quality;
        average_bitrate = average_bitrate;
        encoder_preset = get_text "VideoPreset" "medium" hb;
        encoder_tune = get_text "VideoTune" "" hb;
        encoder_profile = get_text "VideoProfile" "auto" hb;
        encoder_level = get_text "VideoLevel" "auto" hb;
        multi_pass = get_bool "VideoMultiPass" false hb;
        turbo_multi_pass = get_bool "VideoTurboMultiPass" false hb;
        grayscale = get_bool "VideoGrayScale" false hb;
      }

  -- The profile of `parse_preset`, before its validators.
  abbrev pub preset_profile : Dict Json → VideoProfile → List AudioTrack → VshiftProfile
  preset_profile hb video audio_tracks =
      let subtitles = parse_subtitle_tracks hb in
      record {
        name = get_text "PresetName" "Unnamed" hb;
        description = description_of (lookup "PresetDescription" hb);
        format = map_container_format (get_text "FileFormat" "mp4" hb);
        video = video;
        audio_tracks = audio_tracks;
        audio_selection_mode =
            parse_audio_selection_mode (get_text "AudioTrackSelectionBehavior" "auto" hb);
        audio_language_list =
            parse_language_list (get_or "AudioLanguageList" (Json.array Items.nil) hb);
        audio_passthrough =
            truthy (get_or "AudioCopyMask" Json.null hb)
            || any_copy (λ (track : AudioTrack). track.copy_track) audio_tracks;
        subtitle_tracks = subtitles;
        subtitle_selection_mode =
            parse_subtitle_selection_mode (get_text "SubtitleTrackSelectionBehavior" "auto" hb);
        subtitle_language_list =
            parse_language_list (get_or "SubtitleLanguageList" (Json.array Items.nil) hb);
        subtitle_passthrough =
            get_bool "SubtitleTrackNamePassthru" false hb
            || any_copy (λ (track : SubtitleTrack). track.copy_track) subtitles;
        chapter_markers = get_bool "ChapterMarkers" true hb;
        optimize = get_bool "Optimize" false hb;
      }

  -- the constructors at the end of `parse_preset`, with their validators
  abbrev pub build_profile :
      Dict Json → QualityMode × ℤ × Option ℤ → List AudioTrack → Result VshiftProfile
  build_profile hb quality audio_tracks =
      and_then (validate_video (preset_video hb quality))
        (λ video. validate_profile (preset_profile hb video audio_tracks))

  -- `parse_preset`
  unfoldable pub parse_preset : Dict Json → Result VshiftProfile
  unfolding normalize_handbrake_dict map_video_encoder map_container_format parse_dimension
      parse_audio_selection_mode parse_subtitle_selection_mode parse_framerate_mode parse_framerate
      parse_quality parse_audio_list parse_language_list parse_subtitle_tracks
  parse_preset preset =
      let hb = normalize_handbrake_dict preset in
      and_then (parse_quality hb) λ quality.
        and_then (parse_audio_tracks (get_or "AudioList" (Json.array Items.nil) hb))
          λ audio_tracks. build_profile hb quality audio_tracks

  -- `[self.parse_preset(leaf) for leaf in leaves]`
  unfoldable pub parse_leaves : List (Dict Json) → Result (List VshiftProfile)
  unfolding parse_preset
  parse_leaves [] = ok []
  parse_leaves (leaf ∷ leaves) =
      and_then (parse_preset leaf)
        (λ profile. and_then (parse_leaves leaves) (λ profiles. ok (profile ∷ profiles)))

  -- `parse_presets_from_json`, for what `json.loads` returned
  unfoldable pub parse_presets_from_json : Result Json → Result (List VshiftProfile)
  unfolding root_nodes iter_leaves parse_leaves
  parse_presets_from_json loaded =
      and_then loaded
        λ parsed. and_then (root_nodes parsed) (λ roots. parse_leaves (iter_leaves roots))
