-- ===== src/Recorder/Offers.antt =====
-- src/recorder/private/recorder.cpp: the choices a recorder may hold, and those the window offers.
pub mod Codecs
pub mod Same
pub mod Kept
use klip.Base.{◌≡◌, Bool, true, ◌&&◌, ◌≤ℤ◌}
use klip.Encode.Format.{Container, Codec, all_codecs, all_containers, container_accepts}
use klip.Encode.Capabilities.{Capabilities, is_codec_offered}
use klip.Recorder.Settings.{AudioSource, minimum_gain, maximum_gain, frame_rate_caps}
use klip.Recorder.State.{Recorder}
use klip.Recorder.Monitoring.{choice, usable_codecs, has_codec}
use klip.Recorder.Start.{usable_containers, has_container, has_rate}
use klip.Recorder.Steps.{Operation, container, codec, max_frame_rate}

-- The container carries the codec, and the card is offered for it.
abbrev pub takes : Capabilities → Container → Codec → Bool
takes c k x = container_accepts k x && is_codec_offered c x

pub record IsOffered (r : Recorder) : Type 0 where
  pub containers : r.containers ≡ usable_containers r.capabilities all_containers
  pub codecs : r.codecs ≡ usable_codecs r.capabilities r.settings.container all_codecs
  pub codec : takes r.capabilities r.settings.container r.settings.codec ≡ true
  pub rate : has_rate r.settings.max_frame_rate frame_rate_caps ≡ true
  pub gain :
      (s : AudioSource)
      → (minimum_gain ≤ℤ (choice r s).gain_decibels) × ((choice r s).gain_decibels ≤ℤ maximum_gain)

-- The window offers the listed containers and codecs, and the frame rate caps.
abbrev pub IsListed : Operation → Recorder → Type 0
IsListed (container c) r = has_container c r.containers ≡ true
IsListed (codec c) r = has_codec c r.codecs ≡ true
IsListed (max_frame_rate f) r = has_rate f frame_rate_caps ≡ true
IsListed _ r = Unit
