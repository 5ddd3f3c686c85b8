-- ===== src/Ffmpeg/Streams.antt =====
-- src/vshift/infrastructure/ffmpeg/video_stream_info.py, with the stream that ffprobe reports. Its
-- numbers are not negative.
use vshift.Base.{
  ℕ, String, Bool, true, false, not, ◌&&◌, ◌||◌, Option, none, some, List, [], ◌∷◌, ◌==◌, contains,
  string_eq, option_eq, leb, if◌then◌else◌,
}
use vshift.Base.Dict.{lookup}
use vshift.Base.Json.{Json, as_dict, as_text}
use vshift.Base.Text.{lower, strip, has_part}

-- `_ProbeStream`
pub record ProbeStream : Type 0 where
  pub codec_type : Option String
  pub codec_name : Option String
  pub width : Option ℕ
  pub height : Option ℕ
  pub pix_fmt : Option String
  pub color_transfer : Option String
  pub color_primaries : Option String
  pub side_data_list : Option (List Json)

pub record VideoStreamInfo : Type 0 where
  pub codec_name : Option String
  pub width : Option ℕ
  pub height : Option ℕ
  pub bit_depth : ℕ
  pub hdr : Bool

abbrev hdr_transfers : List String
hdr_transfers = "smpte2084" ∷ "arib-std-b67" ∷ []

abbrev hdr_primaries : List String
hdr_primaries = "bt2020" ∷ "bt2020nc" ∷ []

abbrev sdr_transfers : List String
sdr_transfers = "bt709" ∷ "bt601" ∷ "smpte170m" ∷ "iec61966-2-1" ∷ []

-- `bit_depth_from_pix_fmt`
unfoldable pub bit_depth_from_pix_fmt : Option String → ℕ
bit_depth_from_pix_fmt none = 8
bit_depth_from_pix_fmt (some pix_fmt) =
    let lowered = lower pix_fmt in
    if has_part "12" lowered
    then 12
    else if has_part "10" lowered || (lowered == "p010le" || lowered == "p010be")
    then 10
    else 8

-- `_normalize_color_value`
unfoldable pub normalize_color_value : Option String → String
normalize_color_value none = ""
normalize_color_value (some s) = strip (lower s)

-- The loop of `is_hdr_stream` over the side data.
unfoldable pub has_hdr_metadata : List Json → Bool
has_hdr_metadata [] = false
has_hdr_metadata (j ∷ js) = elim (as_dict j) [
  | none ↦ has_hdr_metadata js
  | some entry ↦ elim (lookup "side_data_type" entry) [
    | none ↦ has_hdr_metadata js
    | some kind ↦ as_text kind == some "HDR Dynamic Metadata" || has_hdr_metadata js
  ]
]

-- `is_hdr_stream`. The dict that `_stream_to_dict` makes of the stream is the stream.
unfoldable pub is_hdr_stream : ProbeStream → (bit_depth : ℕ) → Bool
unfolding normalize_color_value has_hdr_metadata
is_hdr_stream stream bit_depth =
    let transfer = normalize_color_value stream.color_transfer in
    let primaries = normalize_color_value stream.color_primaries in
    let side_data : Bool = elim stream.side_data_list [
      | none ↦ false
      | some js ↦ has_hdr_metadata js
    ] in
    if contains hdr_transfers transfer
    then true
    else if contains hdr_primaries primaries && not (contains sdr_transfers transfer)
    then true
    else if side_data
    then true
    else leb 10 bit_depth && contains hdr_primaries primaries

-- `parse_video_stream`
unfoldable pub parse_video_stream : ProbeStream → VideoStreamInfo
unfolding bit_depth_from_pix_fmt is_hdr_stream
parse_video_stream stream =
    let bit_depth = bit_depth_from_pix_fmt stream.pix_fmt in
    record {
      codec_name = stream.codec_name;
      width = stream.width;
      height = stream.height;
      bit_depth = bit_depth;
      hdr = is_hdr_stream stream bit_depth;
    }
