-- ===== src/Encode/Format.antt =====
-- src/encode/public/encode/format.hpp. The sentinel `Count` of each enumeration is no value here.
pub mod Names
use Prim.Native.Nat.{bit_and}
use klip.Base.{
  ℕ, ◌+◌, ◌^◌, Bool, true, false, not, List, [], ◌∷◌, Bytes, codes, equal, ◌==◌, last_match,
}

pub data Codec : Type 0 where
  h264 hevc av1 : Codec

pub data Container : Type 0 where
  mp4 matroska webm : Container

-- `static_cast<uint32_t>(codec)`.
abbrev pub codec_index : Codec → ℕ
codec_index h264 = 0
codec_index hevc = 1
codec_index av1 = 2

abbrev pub container_index : Container → ℕ
container_index mp4 = 0
container_index matroska = 1
container_index webm = 2

-- The loops over `static_cast<ECodec>(index)` for `index < CodecCount`, and the like.
abbrev pub all_codecs : List Codec
all_codecs = h264 ∷ hevc ∷ av1 ∷ []

abbrev pub all_containers : List Container
all_containers = mp4 ∷ matroska ∷ webm ∷ []

-- `==` on the enumerations.
abbrev pub same_codec : Codec → Codec → Bool
same_codec a b = codec_index a == codec_index b

abbrev pub same_container : Container → Container → Bool
same_container a b = container_index a == container_index b

pub record CodecEntry : Type 0 where
  pub codec : Codec
  pub name : Bytes
  pub encoder : Bytes

abbrev pub codec_entries : List CodecEntry
codec_entries =
    record { codec = h264; name = codes "h264"; encoder = codes "h264_vaapi" }
    ∷ record { codec = hevc; name = codes "hevc"; encoder = codes "hevc_vaapi" }
    ∷ record { codec = av1; name = codes "av1"; encoder = codes "av1_vaapi" }
    ∷ []

pub codec_bit : Codec → ℕ
codec_bit codec = 2 ^ codec_index codec

pub record ContainerEntry : Type 0 where
  pub container : Container
  pub name : Bytes
  pub extension : Bytes
  pub codecs : ℕ
  pub carries_audio : Bool

-- `|` of the three distinct bits.
abbrev pub all_codec_bits : ℕ
all_codec_bits = 1 + 2 + 4

abbrev pub container_entries : List ContainerEntry
container_entries =
    record {
      container = mp4;
      name = codes "mp4";
      extension = codes "mp4";
      codecs = all_codec_bits;
      carries_audio = true;
    }
    ∷ record {
      container = matroska;
      name = codes "matroska";
      extension = codes "mkv";
      codecs = all_codec_bits;
      carries_audio = true;
    }
    ∷ record {
      container = webm;
      name = codes "webm";
      extension = codes "webm";
      codecs = 4;
      carries_audio = false;
    }
    ∷ []

unfoldable pub get_codec_name : Codec → Bytes
get_codec_name codec =
    last_match (λ e. same_codec e.codec codec) (λ e. e.name) (codes "unknown") codec_entries

unfoldable pub get_codec_encoder : Codec → Bytes
get_codec_encoder codec =
    last_match (λ e. same_codec e.codec codec) (λ e. e.encoder) [] codec_entries

unfoldable pub parse_codec : Bytes → Codec → Codec
unfolding equal
parse_codec name fallback =
    last_match (λ e. equal e.name name) (λ e. e.codec) fallback codec_entries

unfoldable pub get_container_name : Container → Bytes
get_container_name container =
    last_match (λ e. same_container e.container container) (λ e. e.name) (codes "unknown")
      container_entries

unfoldable pub get_container_extension : Container → Bytes
get_container_extension container =
    last_match (λ e. same_container e.container container) (λ e. e.extension) [] container_entries

unfoldable pub parse_container : Bytes → Container → Container
unfolding equal
parse_container name fallback =
    last_match (λ e. equal e.name name) (λ e. e.container) fallback container_entries

unfoldable pub container_accepts : Container → Codec → Bool
unfolding codec_bit
container_accepts container codec =
    last_match (λ e. same_container e.container container)
      (λ e. not (bit_and e.codecs (codec_bit codec) == 0)) false container_entries

unfoldable pub container_carries_audio : Container → Bool
container_carries_audio container =
    last_match (λ e. same_container e.container container) (λ e. e.carries_audio) false
      container_entries
