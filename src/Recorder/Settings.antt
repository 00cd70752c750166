-- ===== src/Recorder/Settings.antt =====
-- src/recorder/public/recorder: settings.hpp, audio_choice.hpp, audio_source.hpp, source.hpp,
-- frame_rates.hpp, settings_changes.hpp and screen.hpp.
use klip.Base.{ℕ, Bool, false, List, [], ◌∷◌, Bytes, ℤ, pos, negsuc}
use klip.Encode.Format.{Container, Codec, mp4, h264}
use klip.Encode.Quality.{Quality, balanced, high}

pub data AudioSource : Type 0 where
  system microphone : AudioSource

-- A `std::array` indexed by the audio source.
pub record PerSource {ℓ} (A : Type ℓ) : Type ℓ where
  pub of_system : A
  pub of_microphone : A

module _ {ℓ} {A : Type ℓ} where
  abbrev pub get : PerSource A → AudioSource → A
  get p system = p.of_system
  get p microphone = p.of_microphone

  abbrev pub put : PerSource A → AudioSource → A → PerSource A
  put p system a = record p { of_system = a }
  put p microphone a = record p { of_microphone = a }

  abbrev pub both : A → PerSource A
  both a = record { of_system = a; of_microphone = a }

-- The loops over `index < NumAudioSources`.
abbrev pub for_sources {ℓ} : {S : Type ℓ} → (S → AudioSource → S) → S → S
for_sources body s = body (body s system) microphone

pub data Source : Type 0 where
  screen window region : Source

-- Decibels.
abbrev pub minimum_gain : ℤ
minimum_gain = negsuc 29

abbrev pub maximum_gain : ℤ
maximum_gain = pos 20

pub record AudioChoice : Type 0 where
  pub enabled : Bool
  pub device : Bytes
  pub gain_decibels : ℤ

abbrev pub no_frame_rate_cap : ℕ
no_frame_rate_cap = 0

abbrev pub frame_rate_caps : List ℕ
frame_rate_caps = 30 ∷ 60 ∷ no_frame_rate_cap ∷ []

pub record Settings : Type 0 where
  pub directory : Bytes
  pub source : Source
  pub remember_window : Bool
  pub container : Container
  pub codec : Codec
  pub quality : Quality
  pub max_frame_rate : ℕ
  pub audio : PerSource AudioChoice
  pub audio_quality : Quality
  pub screen_token : Bytes
  pub window_token : Bytes

pub record SettingsChanges : Type 0 where
  pub choices : Bool
  pub screen_token : Bool
  pub window_token : Bool

abbrev pub no_changes : SettingsChanges
no_changes = record { choices = false; screen_token = false; window_token = false }

pub record Screen : Type 0 where
  pub width : ℕ
  pub height : ℕ
  pub refresh_hz : ℕ

abbrev no_choice : AudioChoice
no_choice = record { enabled = false; device = []; gain_decibels = pos 0 }

abbrev pub default_settings : Settings
default_settings = record {
  directory = [];
  source = screen;
  remember_window = false;
  container = mp4;
  codec = h264;
  quality = balanced;
  max_frame_rate = no_frame_rate_cap;
  audio = both no_choice;
  audio_quality = high;
  screen_token = [];
  window_token = [];
}
