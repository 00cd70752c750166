-- ===== src/Config/Names.antt =====
-- src/config/private/settings_json.cpp: the names of the sources and the audio keys, and the
-- members of the settings that the reader refers to.
use klip.Base.{ℕ, Bool, Bytes, codes, equal, List, [], ◌∷◌, ◌==◌, last_match, ℤ}
use klip.Encode.Format.{Container, Codec}
use klip.Encode.Quality.{Quality}
use klip.Recorder.Settings.{
  Settings, AudioChoice, AudioSource, system, microphone, Source, screen, window, region, get, put,
}

pub record SourceName : Type 0 where
  pub source : Source
  pub name : Bytes

abbrev pub source_index : Source → ℕ
source_index screen = 0
source_index window = 1
source_index region = 2

abbrev pub source_names : List SourceName
source_names =
    record { source = screen; name = codes "screen" }
    ∷ record { source = window; name = codes "window" }
    ∷ record { source = region; name = codes "region" }
    ∷ []

unfoldable pub get_source_name : Source → Bytes
get_source_name source =
    last_match (λ e. source_index e.source == source_index source) (λ e. e.name) (codes "unknown")
      source_names

unfoldable pub parse_source : Bytes → Source → Source
unfolding equal
parse_source name fallback =
    last_match (λ e. equal e.name name) (λ e. e.source) fallback source_names

abbrev pub audio_key : AudioSource → Bytes
audio_key system = codes "system"
audio_key microphone = codes "microphone"

-- A C++ reference to a member of the settings.
pub record Member (A : Type 0) : Type 0 where
  pub read : Settings → A
  pub write : A → Settings → Settings

abbrev pub directory_member : Member Bytes
directory_member = record { read = λ s. s.directory; write = λ a s. record s { directory = a } }

abbrev pub container_member : Member Container
container_member = record { read = λ s. s.container; write = λ a s. record s { container = a } }

abbrev pub codec_member : Member Codec
codec_member = record { read = λ s. s.codec; write = λ a s. record s { codec = a } }

abbrev pub quality_member : Member Quality
quality_member = record { read = λ s. s.quality; write = λ a s. record s { quality = a } }

abbrev pub source_member : Member Source
source_member = record { read = λ s. s.source; write = λ a s. record s { source = a } }

abbrev pub remember_window_member : Member Bool
remember_window_member = record {
  read = λ s. s.remember_window;
  write = λ a s. record s { remember_window = a };
}

abbrev pub max_frame_rate_member : Member ℕ
max_frame_rate_member = record {
  read = λ s. s.max_frame_rate;
  write = λ a s. record s { max_frame_rate = a };
}

abbrev pub audio_quality_member : Member Quality
audio_quality_member = record {
  read = λ s. s.audio_quality;
  write = λ a s. record s { audio_quality = a };
}

abbrev pub screen_token_member : Member Bytes
screen_token_member = record {
  read = λ s. s.screen_token;
  write = λ a s. record s { screen_token = a };
}

abbrev pub window_token_member : Member Bytes
window_token_member = record {
  read = λ s. s.window_token;
  write = λ a s. record s { window_token = a };
}

-- `settings.audio[index]`, and its members.
abbrev pub choice_member : AudioSource → Member AudioChoice
choice_member index = record {
  read = λ s. get s.audio index;
  write = λ a s. record s { audio = put s.audio index a };
}

abbrev pub enabled_member : Member AudioChoice → Member Bool
enabled_member choice = record {
  read = λ s. (choice.read s).enabled;
  write = λ a s. choice.write (record (choice.read s) { enabled = a }) s;
}

abbrev pub device_member : Member AudioChoice → Member Bytes
device_member choice = record {
  read = λ s. (choice.read s).device;
  write = λ a s. choice.write (record (choice.read s) { device = a }) s;
}

abbrev pub gain_member : Member AudioChoice → Member ℤ
gain_member choice = record {
  read = λ s. (choice.read s).gain_decibels;
  write = λ a s. choice.write (record (choice.read s) { gain_decibels = a }) s;
}
