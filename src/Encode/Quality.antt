-- ===== src/Encode/Quality.antt =====
-- src/encode/public/encode/quality.hpp.
pub mod Ladder
use klip.Base.{ℕ, ◌*◌, ◌/◌, ◌%◌, ◌^◌, Bool, List, [], ◌∷◌, Bytes, codes, equal, ◌==◌, last_match}
use klip.Encode.Format.{Codec, h264, hevc, av1}

pub data Quality : Type 0 where
  smallest smaller balanced high best : Quality

abbrev pub quality_index : Quality → ℕ
quality_index smallest = 0
quality_index smaller = 1
quality_index balanced = 2
quality_index high = 3
quality_index best = 4

abbrev pub same_quality : Quality → Quality → Bool
same_quality a b = quality_index a == quality_index b

pub record CodecQuality : Type 0 where
  pub global_quality : ℕ
  pub bits_per_pixel : ℕ

pub record QualityEntry : Type 0 where
  pub quality : Quality
  pub name : Bytes
  pub h264_quality : CodecQuality
  pub hevc_quality : CodecQuality
  pub av1_quality : CodecQuality
  pub audio_bits_per_second : ℕ

abbrev codec_quality : ℕ → ℕ → CodecQuality
codec_quality g b = record { global_quality = g; bits_per_pixel = b }

abbrev pub quality_entries : List QualityEntry
quality_entries =
    record {
      quality = smallest;
      name = codes "smallest";
      h264_quality = codec_quality 34 27;
      hevc_quality = codec_quality 36 23;
      av1_quality = codec_quality 196 20;
      audio_bits_per_second = 64000;
    }
    ∷ record {
      quality = smaller;
      name = codes "smaller";
      h264_quality = codec_quality 29 37;
      hevc_quality = codec_quality 32 29;
      av1_quality = codec_quality 160 26;
      audio_bits_per_second = 96000;
    }
    ∷ record {
      quality = balanced;
      name = codes "balanced";
      h264_quality = codec_quality 25 49;
      hevc_quality = codec_quality 28 37;
      av1_quality = codec_quality 124 34;
      audio_bits_per_second = 128000;
    }
    ∷ record {
      quality = high;
      name = codes "high";
      h264_quality = codec_quality 21 61;
      hevc_quality = codec_quality 24 47;
      av1_quality = codec_quality 76 44;
      audio_bits_per_second = 192000;
    }
    ∷ record {
      quality = best;
      name = codes "best";
      h264_quality = codec_quality 17 78;
      hevc_quality = codec_quality 20 60;
      av1_quality = codec_quality 52 54;
      audio_bits_per_second = 256000;
    }
    ∷ []

unfoldable pub get_quality_name : Quality → Bytes
get_quality_name quality =
    last_match (λ e. same_quality e.quality quality) (λ e. e.name) (codes "unknown") quality_entries

unfoldable pub parse_quality : Bytes → Quality → Quality
unfolding equal
parse_quality name fallback =
    last_match (λ e. equal e.name name) (λ e. e.quality) fallback quality_entries

unfoldable pub get_audio_bits_per_second : Quality → ℕ
get_audio_bits_per_second quality =
    last_match (λ e. same_quality e.quality quality) (λ e. e.audio_bits_per_second) 0
      quality_entries

-- The `switch` inside the loop.
abbrev entry_quality : Codec → QualityEntry → CodecQuality
entry_quality h264 e = e.h264_quality
entry_quality hevc e = e.hevc_quality
entry_quality av1 e = e.av1_quality

unfoldable pub resolve_codec_quality : Codec → Quality → CodecQuality
resolve_codec_quality codec quality =
    last_match (λ e. same_quality e.quality quality) (entry_quality codec) (codec_quality 0 0)
      quality_entries

unfoldable pub resolve_global_quality : Codec → Quality → ℕ
unfolding resolve_codec_quality
resolve_global_quality codec quality = (resolve_codec_quality codec quality).global_quality

-- uint64_t arithmetic.
unfoldable pub estimate_bits_per_second : Codec → Quality → ℕ → ℕ → ℕ → ℕ
unfolding resolve_codec_quality
estimate_bits_per_second codec quality width height frames_per_second =
    (resolve_codec_quality codec quality).bits_per_pixel
    * width
    * height
    * frames_per_second
    % 2 ^ 64
    / 10000
