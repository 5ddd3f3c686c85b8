-- ===== src/Ffmpeg/Encoders/Detection.antt =====
-- src/vshift/infrastructure/ffmpeg/encoder_resolver.py: what a resolver finds out about ffmpeg and
-- the host. `get_coders` of ffmpeg-core, the platform and the device files are parameters.
use vshift.Base.{
  ◌≡◌, refl, inl, inr, String, Bool, true, false, not, Option, none, some, List, [], ◌∷◌, arith,
  ◌==◌, string_eq, contains, is_empty, Holds, Bool-cases, if◌then◌else◌,
}
use vshift.Base.Exec.{
  Exec, Result, ok, err, vshift_exception, pure, gets, lift, raise_if, ◌>>=◌, ◌>>◌,
}
use vshift.Base.FilePath.{FilePath}
use vshift.Profile.{VideoProfile, VideoEncoder}
use vshift.Ffmpeg.Probing.{Os, Completed}
use vshift.Ffmpeg.Encoders.{Host, value, encoder_usable, resolve}
use vshift.Ffmpeg.Encoders.Resolution.{resolve-Runs}

-- What `get_coders` reads of a line of ffmpeg's list.
pub record Coder : Type 0 where
  pub name : String
  pub video : Bool

-- `sys.platform == "darwin"`, and the folder of the graphics devices
pub record Devices (W : Type 0) : Type 0 where
  pub is_darwin : Bool
  pub is_dir : FilePath → W → Bool
  pub glob : FilePath → (pattern : String) → W → List FilePath

-- `{coder.name for coder in coders if coder.flags.video}`
unfoldable pub video_names : List Coder → List String
video_names [] = []
video_names (coder ∷ coders) =
    if coder.video then coder.name ∷ video_names coders else video_names coders

module _ {W : Type 0} (os : Os W) (devices : Devices W) (get_coders : String → List Coder) where
  -- What `_detect_available_encoders` does with the completed process.
  unfoldable pub encoders_of : Completed → Exec W (List String)
  encoders_of completed = do
    raise_if completed.failed (vshift_exception "failed to list ffmpeg encoders")
    pure (video_names (get_coders completed.stdout))

  -- `_detect_available_encoders`
  unfoldable pub detect_available_encoders : (ffmpeg : String) → Exec W (List String)
  unfolding encoders_of
  detect_available_encoders ffmpeg = do
    completed ← os.run (ffmpeg ∷ "-hide_banner" ∷ "-encoders" ∷ [])
    encoders_of completed

  -- `EncoderResolver.__init__`
  unfoldable pub initial_encoders :
      (ffmpeg : String) (available_encoders : Option (List String)) → Exec W (List String)
  unfolding detect_available_encoders
  initial_encoders ffmpeg (some available_encoders) = pure available_encoders
  initial_encoders ffmpeg none = detect_available_encoders ffmpeg

  -- `_nvidia_gpu_available`
  abbrev pub nvidia_gpu_available : W → Bool
  nvidia_gpu_available w = os.exists ("/" ∷ "dev" ∷ "nvidia0" ∷ []) w

  -- `_intel_gpu_available`
  abbrev pub intel_gpu_available : W → Bool
  intel_gpu_available w =
      let dri : FilePath = "/" ∷ "dev" ∷ "dri" ∷ [] in
      if not (devices.is_dir dri w) then false else not (is_empty (devices.glob dri "renderD*" w))

  abbrev pub host_of : List String → W → Host
  host_of available_encoders w = record {
    available_encoders = available_encoders;
    is_darwin = devices.is_darwin;
    intel_gpu_available = intel_gpu_available w;
    nvidia_gpu_available = nvidia_gpu_available w;
  }

  -- `resolve` of a resolver that has these encoders, on the host as it is then.
  unfoldable pub resolve_among : VideoProfile → List String → Exec W VideoEncoder
  resolve_among video available_encoders = do
    host ← gets (host_of available_encoders)
    lift (resolve host video)

  -- `EncoderResolver(paths, available_encoders).resolve(video)`
  unfoldable pub resolve_on_host :
      (ffmpeg : String) (available_encoders : Option (List String))
      → VideoProfile
      → Exec W VideoEncoder
  unfolding initial_encoders resolve_among
  resolve_on_host ffmpeg available_encoders video = do
    available ← initial_encoders ffmpeg available_encoders
    resolve_among video available

-- The name is that of a coder for video.
abbrev pub IsVideoCoder : List Coder → String → Type 0
IsVideoCoder coders name =
    (coder : Coder) × Holds coder coders × (coder.video ≡ true) × (coder.name ≡ name)

later-IsVideoCoder :
    (other : Coder) (coders : List Coder) (name : String)
    → IsVideoCoder coders name
    → IsVideoCoder (other ∷ coders) name
later-IsVideoCoder other coders name (coder, held, video, named) = (coder, inr held, video, named)

video_names-IsVideoCoder :
    (coders : List Coder) (name : String)
    → contains (video_names coders) name ≡ true
    → IsVideoCoder coders name
unfolding video_names
video_names-IsVideoCoder [] name h = absurd (ground arith)
video_names-IsVideoCoder (coder ∷ coders) name h = elim (Bool-cases coder.video) [
  | inl video ↦ elim (Bool-cases (coder.name == name)) [
    | inl same ↦ (coder, inl refl, video, ground arith)
    | inr differs ↦
        later-IsVideoCoder coder coders name (video_names-IsVideoCoder coders name (ground arith))
  ]
  | inr audio ↦
      later-IsVideoCoder coder coders name (video_names-IsVideoCoder coders name (ground arith))
]

module _ {W A B : Type 0} (f : A → Exec W B) (b : B) (w' : W) where
  lift-inv :
      (r : Result A) (w : W)
      → (lift r >>= f) w ≡ (ok b, w')
      → (a : A) × (r ≡ ok a) × (f a w ≡ (ok b, w'))
  unfolding ◌>>=◌
  lift-inv (ok a) w e = (a, refl, e)
  lift-inv (err x) w e = absurd (ground arith)

  -- A chain that has returned has returned from its first action.
  bind-inv :
      (m : Exec W A) (w : W)
      → (m >>= f) w ≡ (ok b, w')
      → (a : A) × ((m w).0 ≡ ok a) × (f a (m w).1 ≡ (ok b, w'))
  unfolding ◌>>=◌
  bind-inv m w e = lift-inv (m w).0 (m w).1 e

module _ {W : Type 0} (os : Os W) (devices : Devices W) (get_coders : String → List Coder) where
  detect_available_encoders-lists :
      (ffmpeg : String) (names : List String) (w w' : W)
      → detect_available_encoders os devices get_coders ffmpeg w ≡ (ok names, w')
      → (completed : Completed) × (os.run (ffmpeg ∷ "-hide_banner" ∷ "-encoders" ∷ []) w
          ≡ (ok completed, w'))
        × (completed.failed ≡ false)
        × (names ≡ video_names (get_coders completed.stdout))
  unfolding detect_available_encoders encoders_of ◌>>=◌
  detect_available_encoders-lists ffmpeg names w w' e =
      let command = ffmpeg ∷ "-hide_banner" ∷ "-encoders" ∷ [] in
      let (completed, ran, kept) =
        bind-inv (encoders_of os devices get_coders) names w' (os.run command) w e in
      elim (Bool-cases completed.failed) [
        | inl failed ↦ absurd (ground arith)
        | inr well ↦ (completed, ground arith, well, ground arith)
      ]

  -- What an encoder needs of the host: none in software, macOS for VideoToolbox, a render node in
  -- /dev/dri for Intel's encoders, /dev/nvidia0 for Nvidia's.
  abbrev pub HasRenderNode : W → Type 0
  HasRenderNode w =
      let dri : FilePath = "/" ∷ "dev" ∷ "dri" ∷ [] in
      (devices.is_dir dri w ≡ true) × (node : FilePath) × Holds node (devices.glob dri "renderD*" w)

  abbrev pub HasNvidiaDevice : W → Type 0
  HasNvidiaDevice w = os.exists ("/" ∷ "dev" ∷ "nvidia0" ∷ []) w ≡ true

  abbrev pub HasDevice : VideoEncoder → W → Type 0
  HasDevice VideoEncoder.auto w = ⊥
  HasDevice VideoEncoder.libx264 w = Unit
  HasDevice VideoEncoder.libx265 w = Unit
  HasDevice VideoEncoder.libsvtav1 w = Unit
  HasDevice VideoEncoder.h264_nvenc w = HasNvidiaDevice w
  HasDevice VideoEncoder.hevc_nvenc w = HasNvidiaDevice w
  HasDevice VideoEncoder.av1_nvenc w = HasNvidiaDevice w
  HasDevice VideoEncoder.h264_qsv w = HasRenderNode w
  HasDevice VideoEncoder.hevc_qsv w = HasRenderNode w
  HasDevice VideoEncoder.h264_vaapi w = HasRenderNode w
  HasDevice VideoEncoder.hevc_vaapi w = HasRenderNode w
  HasDevice VideoEncoder.h264_videotoolbox w = devices.is_darwin ≡ true
  HasDevice VideoEncoder.hevc_videotoolbox w = devices.is_darwin ≡ true

  some-held : (paths : List FilePath) → is_empty paths ≡ false → (p : FilePath) × Holds p paths
  some-held [] h = absurd (ground arith)
  some-held (p ∷ paths) h = (p, inl refl)

  render_node : (w : W) → intel_gpu_available os devices get_coders w ≡ true → HasRenderNode w
  render_node w h =
      let dri : FilePath = "/" ∷ "dev" ∷ "dri" ∷ [] in
      let (node, held) = some-held (devices.glob dri "renderD*" w) (ground arith) in
      (ground arith, node, held)

  usable-HasDevice :
      (names : List String) (encoder : VideoEncoder) (w : W)
      → encoder_usable (host_of os devices get_coders names w) encoder ≡ true
      → HasDevice encoder w
  usable-HasDevice names VideoEncoder.auto w h = absurd (ground arith)
  usable-HasDevice names VideoEncoder.libx264 w h = tt
  usable-HasDevice names VideoEncoder.libx265 w h = tt
  usable-HasDevice names VideoEncoder.libsvtav1 w h = tt
  usable-HasDevice names VideoEncoder.h264_nvenc w h = h
  usable-HasDevice names VideoEncoder.hevc_nvenc w h = h
  usable-HasDevice names VideoEncoder.av1_nvenc w h = h
  usable-HasDevice names VideoEncoder.h264_qsv w h = render_node w h
  usable-HasDevice names VideoEncoder.hevc_qsv w h = render_node w h
  usable-HasDevice names VideoEncoder.h264_vaapi w h = render_node w h
  usable-HasDevice names VideoEncoder.hevc_vaapi w h = render_node w h
  usable-HasDevice names VideoEncoder.h264_videotoolbox w h = h
  usable-HasDevice names VideoEncoder.hevc_videotoolbox w h = h

  -- An encoder that is resolved with what ffmpeg lists on the host stands in that list as one for
  -- video, the call of ffmpeg has not failed, and the host has the device that the encoder needs.
  pub resolve_on_host-IsVideoCoder :
      (ffmpeg : String) (video : VideoProfile) (encoder : VideoEncoder) (w w' : W)
      → resolve_on_host os devices get_coders ffmpeg none video w ≡ (ok encoder, w')
      → (completed : Completed) × (os.run (ffmpeg ∷ "-hide_banner" ∷ "-encoders" ∷ []) w
          ≡ (ok completed, w'))
        × (completed.failed ≡ false)
        × IsVideoCoder (get_coders completed.stdout) (value encoder)
        × HasDevice encoder w'
  unfolding resolve_on_host initial_encoders resolve_among ◌>>=◌
  resolve_on_host-IsVideoCoder ffmpeg video encoder w w' e =
      let (names, detected, resolved) =
        bind-inv (resolve_among os devices get_coders video) encoder w'
          (detect_available_encoders os devices get_coders ffmpeg) w e in
      let (completed, ran, well, listed) =
        detect_available_encoders-lists ffmpeg names w w' (ground arith) in
      let (available, usable) =
        resolve-Runs (host_of os devices get_coders names w') video encoder (ground arith) in
      (
        completed,
        ran,
        well,
        video_names-IsVideoCoder (get_coders completed.stdout) (value encoder) (ground arith),
        usable-HasDevice names encoder w' usable,
      )
