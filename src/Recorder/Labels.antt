-- ===== src/Recorder/Labels.antt =====
-- src/recorder/private/labels.cpp: the texts of the choices in the window.
use klip.Base.{ℕ, Bytes, codes, ◌≡◌, ◌==◌, arith, if◌then◌else◌}
use klip.Encode.Format.{Container, mp4, matroska, webm, Codec, h264, hevc, av1}
use klip.Encode.Quality.{Quality, smallest, smaller, balanced, high, best}
use klip.Recorder.Settings.{Source, screen, window, region}

unfoldable get_source_label : Source → Bytes
get_source_label screen = codes "Whole screen"
get_source_label window = codes "A window"
get_source_label region = codes "Part of the screen"

unfoldable get_container_label : Container → Bytes
get_container_label mp4 = codes "MP4"
get_container_label matroska = codes "Matroska (MKV)"
get_container_label webm = codes "WebM"

unfoldable get_codec_label : Codec → Bytes
get_codec_label h264 = codes "H.264"
get_codec_label hevc = codes "HEVC (H.265)"
get_codec_label av1 = codes "AV1"

unfoldable get_quality_label : Quality → Bytes
get_quality_label smallest = codes "Smallest file"
get_quality_label smaller = codes "Smaller file"
get_quality_label balanced = codes "Balanced"
get_quality_label high = codes "High"
get_quality_label best = codes "Best quality"

unfoldable get_frame_rate_label : ℕ → Bytes
get_frame_rate_label max_frame_rate =
    if max_frame_rate == 30
    then codes "Up to 30 fps"
    else if max_frame_rate == 60
    then codes "Up to 60 fps"
    else codes "Uncapped"

-- No two choices of a list read alike.
get_source_label-inj : (a b : Source) → get_source_label a ≡ get_source_label b → a ≡ b
unfolding get_source_label
get_source_label-inj a b h = ground arith

get_container_label-inj : (a b : Container) → get_container_label a ≡ get_container_label b → a ≡ b
unfolding get_container_label
get_container_label-inj a b h = ground arith

get_codec_label-inj : (a b : Codec) → get_codec_label a ≡ get_codec_label b → a ≡ b
unfolding get_codec_label
get_codec_label-inj a b h = ground arith

get_quality_label-inj : (a b : Quality) → get_quality_label a ≡ get_quality_label b → a ≡ b
unfolding get_quality_label
get_quality_label-inj a b h = ground arith
