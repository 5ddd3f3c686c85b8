-- ===== src/Handbrake/Presets.antt =====
-- What the importer makes of a HandBrake document: `parse_preset` and `parse_presets_from_json`.
use vshift.Base.{
  suc, ◌≡◌, refl, sym, ap, ◌∙◌, subst, ◌⊎◌, inl, inr, String, true, false, List, [], ◌∷◌, All,
  length, arith, ◌==◌, string_eq, Bool-cases, Option-cases,
}
use vshift.Base.Dict.{Dict, lookup, has_key, lookup-insert}
use vshift.Base.Exec.{Result, ok, and_then-ok, ok-injective}
use vshift.Base.Json.{Json, Items, Reading, get_or}
use vshift.Base.Text.{is_blank}
use vshift.Profile.{VideoProfile, VshiftProfile}
use vshift.Profile.Validation.{IsSound, validate_video, validate_profile, validate_video-IsSound}
use vshift.Handbrake.{
  copy_key, normalize_handbrake_dict, iter_leaves, root_nodes, preset_profile, preset_video,
  build_profile, parse_quality, parse_audio_tracks, parse_preset, parse_leaves,
  parse_presets_from_json,
}

-- The old key is missing, or the new one is there: copying changes nothing.
abbrev IsCopied : (old new : String) → Dict Json → Type 0
IsCopied old new d = (has_key old d ≡ false) ⊎ (has_key new d ≡ true)

copied_is_kept : (old new : String) (d : Dict Json) → IsCopied old new d → copy_key old new d ≡ d
unfolding copy_key
copied_is_kept old new d h = elim (Option-cases (lookup old d)) [
  | inl missing ↦ ground arith
  | inr (j, found) ↦ ground arith
]

copy_key-IsCopied :
    (old new : String) (d : Dict Json) → (new == new) ≡ true → IsCopied old new (copy_key old new d)
unfolding copy_key
copy_key-IsCopied old new d same = elim (Option-cases (lookup old d)) [
  | inl missing ↦ ground arith
  | inr (j, found) ↦ elim (Bool-cases (has_key new d)) [
    | inl taken ↦ ground arith
    | inr free ↦ ground (arith, lookup-insert new new j d)
  ]
]

-- A later copy to another key leaves it so.
copy_key-keeps :
    (old new from to : String) (d : Dict Json)
    → (old == to) ≡ false
    → IsCopied old new d
    → IsCopied old new (copy_key from to d)
unfolding copy_key
copy_key-keeps old new from to d differ h = elim (Option-cases (lookup from d)) [
  | inl missing ↦ ground arith
  | inr (j, found) ↦ elim (Bool-cases (has_key to d)) [
    | inl taken ↦ ground arith
    | inr free ↦ ground (arith, lookup-insert old to j d, lookup-insert new to j d)
  ]
]

-- Normalising twice is the same as normalising once: the import normalises every preset it takes a
-- second time.
pub normalize-idempotent :
    (d : Dict Json)
    → normalize_handbrake_dict (normalize_handbrake_dict d) ≡ normalize_handbrake_dict d
unfolding normalize_handbrake_dict string_eq
normalize-idempotent d =
    let first = copy_key "VideoTwoPass" "VideoMultiPass" d in
    let second = copy_key "VideoTurboTwoPass" "VideoTurboMultiPass" first in
    let third = copy_key "Mp4HttpOptimize" "Optimize" second in
    let a : IsCopied "VideoTwoPass" "VideoMultiPass" third =
      copy_key-keeps _ _ _ _ second refl
        (copy_key-keeps _ _ _ _ first refl (copy_key-IsCopied _ _ d refl)) in
    let b : IsCopied "VideoTurboTwoPass" "VideoTurboMultiPass" third =
      copy_key-keeps _ _ _ _ second refl (copy_key-IsCopied _ _ first refl) in
    let c : IsCopied "Mp4HttpOptimize" "Optimize" third = copy_key-IsCopied _ _ second refl in
    rw (copied_is_kept _ _ third a, copied_is_kept _ _ third b, copied_is_kept _ _ third c) refl

-- A profile that the validators of its models accept.
pub record IsAccepted (p : VshiftProfile) : Type 0 where
  pub sound_video : IsSound p.video
  pub named : is_blank p.name ≡ false
  pub has_format : is_blank p.format ≡ false

validate_video-ok : (v v' : VideoProfile) → validate_video v ≡ ok v' → v ≡ v'
unfolding validate_video
validate_video-ok v v' e = ground arith

validate_profile-ok :
    (p p' : VshiftProfile)
    → validate_profile p ≡ ok p'
    → (p ≡ p') × (is_blank p.name ≡ false) × (is_blank p.format ≡ false)
unfolding validate_profile
validate_profile-ok p p' e = ground arith

accepted_video-IsSound : (v v' : VideoProfile) → validate_video v ≡ ok v' → IsSound v'
accepted_video-IsSound v v' e =
    let same = validate_video-ok v v' e in
    subst IsSound same ((validate_video-IsSound v).0 (e ∙ ap ok (sym same)))

module _ (reading : Reading) where
  parse_preset-IsAccepted :
      (preset : Dict Json) (p : VshiftProfile) → parse_preset reading preset ≡ ok p → IsAccepted p
  unfolding parse_preset
  parse_preset-IsAccepted preset p e =
      let hb = normalize_handbrake_dict preset in
      let (quality, _, e1) = and_then-ok (parse_quality reading hb) _ p e in
      let (tracks, _, e2) =
        and_then-ok (parse_audio_tracks reading (get_or "AudioList" (Json.array Items.nil) hb))
          (build_profile reading hb quality) p e1 in
      let (video, accepted, e3) =
        and_then-ok (validate_video (preset_video reading hb quality)) _ p e2 in
      let (same, named, has_format) =
        validate_profile-ok (preset_profile reading hb video tracks) p e3 in
      subst IsAccepted same record {
        sound_video = accepted_video-IsSound (preset_video reading hb quality) video accepted;
        named = named;
        has_format = has_format;
      }

  parse_leaves-IsAccepted :
      (leaves : List (Dict Json)) (profiles : List VshiftProfile)
      → parse_leaves reading leaves ≡ ok profiles
      → All IsAccepted profiles × (length profiles ≡ length leaves)
  unfolding parse_leaves
  parse_leaves-IsAccepted [] profiles e = ground arith
  parse_leaves-IsAccepted (leaf ∷ leaves) profiles e =
      let (p, parsed, e1) = and_then-ok (parse_preset reading leaf) _ profiles e in
      let (ps, others, e2) = and_then-ok (parse_leaves reading leaves) _ profiles e1 in
      let (accepted, counted) = parse_leaves-IsAccepted leaves ps others in
      let kept : All IsAccepted (p ∷ ps) × (length (p ∷ ps) ≡ suc (length leaves)) =
        ((parse_preset-IsAccepted leaf p parsed, accepted), ap suc counted) in
      subst (λ qs. All IsAccepted qs × (length qs ≡ suc (length leaves)))
        (ok-injective (p ∷ ps) profiles e2) kept

  -- An import that does not raise returns one profile for each preset that the iteration yields,
  -- and each is one that the validators of the profile's models accept.
  pub parse_presets_from_json-IsAccepted :
      (loaded : Result Json) (profiles : List VshiftProfile)
      → parse_presets_from_json reading loaded ≡ ok profiles
      → (document : Json) × (roots : Items) × (loaded ≡ ok document)
        × (root_nodes document ≡ ok roots)
        × (length profiles ≡ length (iter_leaves roots))
        × All IsAccepted profiles
  unfolding parse_presets_from_json
  parse_presets_from_json-IsAccepted loaded profiles e =
      let (document, read, e1) = and_then-ok loaded _ profiles e in
      let (roots, found, e2) = and_then-ok (root_nodes document) _ profiles e1 in
      let (accepted, counted) = parse_leaves-IsAccepted (iter_leaves roots) profiles e2 in
      (document, roots, read, found, counted, accepted)
