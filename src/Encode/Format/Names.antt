-- ===== src/Encode/Format/Names.antt =====
-- src/encode/public/encode/format.hpp: the names in the settings file.
use klip.Base.{◌≡◌, refl}
use klip.Encode.Format.{
  Codec, h264, Container, mp4, get_codec_name, parse_codec, get_container_name, parse_container,
}

-- A codec is read back from the name written for it, whatever the fallback.
pub parse_codec-get_codec_name :
    (codec fallback : Codec) → parse_codec (get_codec_name codec) fallback ≡ codec
unfolding parse_codec get_codec_name
parse_codec-get_codec_name h264 fallback = refl
parse_codec-get_codec_name _ fallback = refl

-- A container is read back from the name written for it, whatever the fallback.
pub parse_container-get_container_name :
    (container fallback : Container)
    → parse_container (get_container_name container) fallback ≡ container
unfolding parse_container get_container_name
parse_container-get_container_name mp4 fallback = refl
parse_container-get_container_name _ fallback = refl
