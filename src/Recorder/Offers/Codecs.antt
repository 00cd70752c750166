-- ===== src/Recorder/Offers/Codecs.antt =====
-- src/recorder/private/recorder.cpp: the lists of codecs and containers.
use klip.Base.{◌≡◌, refl, true, arith, if◌then◌else◌}
use klip.Encode.Format.{
  Container, mp4, matroska, webm, Codec, h264, hevc, av1, all_codecs, all_containers,
  container_accepts,
}
use klip.Encode.Capabilities.{Capabilities, is_codec_offered}
use klip.Encode.Capabilities.Choice.{offered_codec}
use klip.Recorder.Monitoring.{usable_codecs, has_codec, front_codec}
use klip.Recorder.Start.{is_usable, usable_containers, has_container, front_container}
use klip.Recorder.Offers.{takes}

-- A codec on the list is one that the container and the card take.
pub listed-takes :
    (c : Capabilities) (k : Container) (codec : Codec)
    → has_codec codec (usable_codecs c k all_codecs) ≡ true
    → takes c k codec ≡ true
unfolding usable_codecs
listed-takes c k h264 h = ground arith
listed-takes c k hevc h = ground arith
listed-takes c k av1 h = ground arith

-- Where the container can be used at all, the codec kept or put in its place is taken.
pub chosen-takes :
    (c : Capabilities) (k : Container) (codec : Codec)
    → is_usable c k all_codecs ≡ true
    → takes c k (
        if has_codec codec (usable_codecs c k all_codecs)
        then codec
        else front_codec codec (usable_codecs c k all_codecs))
      ≡ true
unfolding usable_codecs is_usable
chosen-takes c k h264 h = ground arith
chosen-takes c k hevc h = ground arith
chosen-takes c k av1 h = ground arith

pub listed-is_usable :
    (c : Capabilities) (k : Container)
    → has_container k (usable_containers c all_containers) ≡ true
    → is_usable c k all_codecs ≡ true
unfolding usable_containers
listed-is_usable c mp4 h = ground arith
listed-is_usable c matroska h = ground arith
listed-is_usable c webm h = ground arith

mp4-accepts : (codec : Codec) → container_accepts mp4 codec ≡ true
unfolding container_accepts
mp4-accepts h264 = refl
mp4-accepts hevc = refl
mp4-accepts av1 = refl

-- MP4 takes every codec, and some codec is always offered.
mp4-is_usable : (c : Capabilities) → is_usable c mp4 all_codecs ≡ true
unfolding is_usable
mp4-is_usable c = let (codec, h) = offered_codec c in pick codec h
  where
    pick : (codec : Codec) → is_codec_offered c codec ≡ true → is_usable c mp4 all_codecs ≡ true
    pick h264 h = ground (arith, mp4-accepts h264)
    pick hevc h = ground (arith, mp4-accepts hevc)
    pick av1 h = ground (arith, mp4-accepts av1)

-- So the container kept or put in its place can be used.
pub chosen-is_usable :
    (c : Capabilities) (k : Container)
    → is_usable c
        (if has_container k (usable_containers c all_containers)
          then k
          else front_container k (usable_containers c all_containers))
        all_codecs
      ≡ true
unfolding usable_containers
chosen-is_usable c mp4 = ground (arith, mp4-is_usable c)
chosen-is_usable c matroska = ground (arith, mp4-is_usable c)
chosen-is_usable c webm = ground (arith, mp4-is_usable c)
