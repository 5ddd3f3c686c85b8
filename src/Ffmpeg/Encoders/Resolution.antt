-- ===== src/Ffmpeg/Encoders/Resolution.antt =====
-- What `EncoderResolver` promises of the encoder it resolves.
use vshift.Base.{
  ◌≡◌, subst, inl, inr, String, true, ◌&&◌, none, some, List, [], ◌∷◌, arith, ◌==◌, string_eq,
  Option-cases, Bool-cases,
}
use vshift.Base.Exec.{Error, ok, err, vshift_exception}
use vshift.Base.Text.{lower}
use vshift.Base.Dict.{lookup}
use vshift.Profile.{VideoProfile, VideoEncoder, video_encoder_eq}
use vshift.Ffmpeg.Encoders.{
  Host, candidates, software_fallbacks, encoder_usable, is_available, first_usable,
  resolve_fallback, resolve_auto, resolve, software_fallback,
}

module _ (host : Host) where
  -- ffmpeg lists the encoder, and the host has what it needs.
  abbrev pub Runs : VideoEncoder → Type 0
  Runs encoder = (is_available host encoder ≡ true) × (encoder_usable host encoder ≡ true)

  first_usable-Runs :
      (encoders : List VideoEncoder) (encoder : VideoEncoder)
      → first_usable host encoders ≡ some encoder
      → Runs encoder
  unfolding first_usable
  first_usable-Runs [] encoder e = absurd (ground arith)
  first_usable-Runs (other ∷ others) encoder e =
      elim (Bool-cases (is_available host other && encoder_usable host other)) [
        | inl runs ↦ same other runs (ground arith)
        | inr not_here ↦ first_usable-Runs others encoder (ground arith)
      ]
    where
      same :
          (other : VideoEncoder)
          → (is_available host other && encoder_usable host other) ≡ true
          → other ≡ encoder
          → Runs encoder
      same other runs e = subst Runs e (ground arith, ground arith)

  fallback-usable :
      (codec : String) (encoder : VideoEncoder)
      → lookup codec software_fallbacks ≡ some encoder
      → encoder_usable host encoder ≡ true
  fallback-usable codec encoder e = ground arith

  resolve_fallback-Runs :
      (codec : String) (encoder : VideoEncoder)
      → resolve_fallback host codec ≡ ok encoder
      → Runs encoder
  unfolding resolve_fallback
  resolve_fallback-Runs codec encoder e = elim (Option-cases (lookup codec software_fallbacks)) [
    | inl unknown ↦ absurd (ground arith)
    | inr (fallback, found) ↦ elim (Bool-cases (is_available host fallback)) [
      | inl here ↦ subst Runs (ground arith) (here, fallback-usable codec fallback found)
      | inr missing ↦ absurd (ground arith)
    ]
  ]

  resolve_auto-Runs :
      (codec : String) (encoder : VideoEncoder)
      → resolve_auto host codec ≡ ok encoder
      → Runs encoder
  unfolding resolve_auto
  resolve_auto-Runs codec encoder e = elim (Option-cases (first_usable host (candidates codec))) [
    | inl nothing ↦ resolve_fallback-Runs codec encoder (ground arith)
    | inr (first, found) ↦ first_usable-Runs (candidates codec) encoder (ground arith)
  ]

  -- An encoder that `resolve` returns is listed by ffmpeg and usable on the host, on every branch:
  -- where the profile names it, where it is the first of the codec's list, and as the fallback.
  pub resolve-Runs :
      (video : VideoProfile) (encoder : VideoEncoder)
      → resolve host video ≡ ok encoder
      → Runs encoder
  unfolding resolve
  resolve-Runs video encoder e = elim (Bool-cases (video.encoder == VideoEncoder.auto)) [
    | inl auto ↦ resolve_auto-Runs (lower video.codec) encoder (ground arith)
    | inr named ↦
        subst Runs {x = video.encoder} {y = encoder} (ground arith) (ground arith, ground arith)
  ]

  -- The fallback in `resolve` never yields an encoder: the list of each codec ends with the same
  -- software encoder, so where the loop finds nothing the fallback raises too.
  pub resolve_fallback-raises :
      (codec : String)
      → first_usable host (candidates codec) ≡ none
      → (error : Error) × (resolve_fallback host codec ≡ err error)
  unfolding resolve_fallback first_usable
  resolve_fallback-raises codec e =
      (vshift_exception "no available ffmpeg encoder found", ground arith)

  -- Where the software encoder of a codec is listed by ffmpeg, resolving that codec for the encoder
  -- `auto` never raises, and the encoder it returns is listed by ffmpeg and usable on the host.
  pub resolve-succeeds :
      (video : VideoProfile) (fallback : VideoEncoder)
      → video.encoder ≡ VideoEncoder.auto
      → software_fallback host video.codec ≡ ok fallback
      → (encoder : VideoEncoder) × (resolve host video ≡ ok encoder) × Runs encoder
  unfolding resolve software_fallback
  resolve-succeeds video fallback auto e =
      elim (Option-cases (first_usable host (candidates (lower video.codec)))) [
        | inl nothing ↦ runs fallback (ground arith)
        | inr (first, found) ↦ runs first (ground arith)
      ]
    where
      runs :
          (encoder : VideoEncoder)
          → resolve host video ≡ ok encoder
          → (other : VideoEncoder) × (resolve host video ≡ ok other) × Runs other
      runs encoder ends = (encoder, ends, resolve-Runs video encoder ends)
