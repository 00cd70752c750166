-- ===== src/Config/Schema.antt =====
-- What a settings file holds, by the paths of its values: a description of `ReadDocument` of
-- src/config/private/settings_json.cpp that does not follow its steps.
pub mod Steps
pub mod Sections
pub mod Parts
pub mod Found
pub mod Whole
use klip.Base.{
  ℕ, Bool, true, false, Bytes, codes, Option, none, some, List, [], ◌∷◌, ◌++◌, length, equal,
  last_match, if◌then◌else◌,
}
use klip.Json.{Json, kind_at, Kind, leaf, text}
use klip.Encode.Format.{get_container_name, all_containers, get_codec_name, all_codecs}
use klip.Encode.Quality.{Quality, smallest, smaller, balanced, high, best, get_quality_name}
use klip.Recorder.Settings.{
  Settings, AudioSource, AudioChoice, system, microphone, Source, screen, window, region, get,
  minimum_gain, maximum_gain,
}
use klip.Config.Document.{
  SettingsDocument, settings_version, Expected, ok, unexpected, not_json, not_an_object,
}
use klip.Config.Names.{get_source_name, audio_key}
use klip.Config.Reading.{integer_in_range, as_object, as_bool, as_string, as_version, as_frame_rate}

-- The value of the list that has the text as its name.
unfoldable pub named : {A : Type 0} → (A → Bytes) → List A → Kind → Option A
unfolding equal
named name all (leaf (text s)) = last_match (λ a. equal (name a) s) some none all
named name all _ = none

abbrev pub all_qualities : List Quality
all_qualities = smallest ∷ smaller ∷ balanced ∷ high ∷ best ∷ []

abbrev pub all_sources : List Source
all_sources = screen ∷ window ∷ region ∷ []

-- The value that stands at a path, if it is a legal one, and the default otherwise.
abbrev pub valid_or : {A : Type 0} → (Kind → Option A) → A → Option Kind → A
valid_or read fallback none = fallback
valid_or read fallback (some k) = elim (read k) [ none ↦ fallback | some a ↦ a ]

abbrev pub is_some : {A : Type 0} → Option A → Bool
is_some none = false
is_some (some a) = true

abbrev pub rejected : (Kind → Bool) → Bytes → Option Kind → List Bytes
rejected accepts path none = []
rejected accepts path (some k) = if accepts k then [] else path ∷ []

-- "output.codec".
abbrev pub joined : List Bytes → Bytes
joined [] = []
joined (key ∷ []) = key
joined (key ∷ path) = key ++ codes "." ++ joined path

-- The values of a file, by their paths and what is legal there, in the order in which they are read.
pub record Place : Type 0 where
  pub path : List Bytes
  pub accepts : Kind → Bool

abbrev pub audio_places : AudioSource → List Place
audio_places index =
    let path = λ (key : Bytes). codes "audio" ∷ audio_key index ∷ key ∷ [] in
    record { path = codes "audio" ∷ audio_key index ∷ []; accepts = as_object }
    ∷ record { path = path (codes "enabled"); accepts = λ k. is_some (as_bool k) }
    ∷ record { path = path (codes "device"); accepts = λ k. is_some (as_string k) }
    ∷ record {
      path = path (codes "gain");
      accepts = λ k. is_some (integer_in_range minimum_gain maximum_gain k);
    }
    ∷ []

abbrev output_places : List Place
output_places =
    let path = λ (key : Bytes). codes "output" ∷ key ∷ [] in
    record { path = codes "output" ∷ []; accepts = as_object }
    ∷ record { path = path (codes "directory"); accepts = λ k. is_some (as_string k) }
    ∷ record {
      path = path (codes "container");
      accepts = λ k. is_some (named get_container_name all_containers k);
    }
    ∷ record {
      path = path (codes "codec");
      accepts = λ k. is_some (named get_codec_name all_codecs k);
    }
    ∷ record {
      path = path (codes "quality");
      accepts = λ k. is_some (named get_quality_name all_qualities k);
    }
    ∷ []

abbrev capture_places : List Place
capture_places =
    let path = λ (key : Bytes). codes "capture" ∷ key ∷ [] in
    record { path = codes "capture" ∷ []; accepts = as_object }
    ∷ record {
      path = path (codes "source");
      accepts = λ k. is_some (named get_source_name all_sources k);
    }
    ∷ record { path = path (codes "rememberWindow"); accepts = λ k. is_some (as_bool k) }
    ∷ record { path = path (codes "frameRate"); accepts = λ k. is_some (as_frame_rate k) }
    ∷ []

abbrev portal_places : List Place
portal_places =
    let path = λ (rest : List Bytes). codes "portal" ∷ codes "restoreTokens" ∷ rest in
    record { path = codes "portal" ∷ []; accepts = as_object }
    ∷ record { path = path []; accepts = as_object }
    ∷ record { path = path (codes "screen" ∷ []); accepts = λ k. is_some (as_string k) }
    ∷ record { path = path (codes "window" ∷ []); accepts = λ k. is_some (as_string k) }
    ∷ []

abbrev pub places : List Place
places =
    record { path = codes "version" ∷ []; accepts = λ k. is_some (as_version k) }
    ∷ (output_places
        ++ capture_places
        ++ (record { path = codes "audio" ∷ []; accepts = as_object } ∷ [])
        ++ audio_places system
        ++ audio_places microphone
        ++ (record {
          path = codes "audio" ∷ codes "quality" ∷ [];
          accepts = λ k. is_some (named get_quality_name all_qualities k);
        }
            ∷ [])
        ++ portal_places)

abbrev pub rejected_among : List Place → (List Bytes → Option Kind) → List Bytes
rejected_among [] look = []
rejected_among (p ∷ rest) look =
    rejected p.accepts (joined p.path) (look p.path) ++ rejected_among rest look

-- The paths of the values that stand in the file and are not legal there.
unfoldable pub invalid_paths : (List Bytes → Option Kind) → List Bytes
invalid_paths look = rejected_among places look

abbrev pub expected_choice : (List Bytes → Option Kind) → AudioSource → AudioChoice → AudioChoice
expected_choice look index choice =
    let at = λ (key : Bytes). look (codes "audio" ∷ audio_key index ∷ key ∷ []) in
    record {
      enabled = valid_or as_bool choice.enabled (at (codes "enabled"));
      device = valid_or as_string choice.device (at (codes "device"));
      gain_decibels =
          valid_or (integer_in_range minimum_gain maximum_gain) choice.gain_decibels
            (at (codes "gain"));
    }

unfoldable pub expected_settings : (List Bytes → Option Kind) → Settings → Settings
expected_settings look defaults =
    let at = λ (section key : Bytes). look (section ∷ key ∷ []) in
    let token = λ (key : Bytes). look (codes "portal" ∷ codes "restoreTokens" ∷ key ∷ []) in
    record {
      directory = valid_or as_string defaults.directory (at (codes "output") (codes "directory"));
      source =
          valid_or (named get_source_name all_sources) defaults.source
            (at (codes "capture") (codes "source"));
      remember_window =
          valid_or as_bool defaults.remember_window (at (codes "capture") (codes "rememberWindow"));
      container =
          valid_or (named get_container_name all_containers) defaults.container
            (at (codes "output") (codes "container"));
      codec =
          valid_or (named get_codec_name all_codecs) defaults.codec
            (at (codes "output") (codes "codec"));
      quality =
          valid_or (named get_quality_name all_qualities) defaults.quality
            (at (codes "output") (codes "quality"));
      max_frame_rate =
          valid_or as_frame_rate defaults.max_frame_rate (at (codes "capture") (codes "frameRate"));
      audio = record {
        of_system = expected_choice look system (get defaults.audio system);
        of_microphone = expected_choice look microphone (get defaults.audio microphone);
      };
      audio_quality =
          valid_or (named get_quality_name all_qualities) defaults.audio_quality
            (at (codes "audio") (codes "quality"));
      screen_token = valid_or as_string defaults.screen_token (token (codes "screen"));
      window_token = valid_or as_string defaults.window_token (token (codes "window"));
    }

abbrev pub first_or : {A : Type 0} → A → List A → A
first_or a [] = a
first_or a (b ∷ rest) = b

-- A document after reading, from its version, its settings and the paths that were rejected.
abbrev pub outcome : ℕ → Settings → List Bytes → SettingsDocument
outcome version settings invalid = record {
  settings = settings;
  version = version;
  num_invalid = length invalid;
  first_invalid_path = first_or [] invalid;
}

abbrev pub expected_version : (List Bytes → Option Kind) → ℕ
expected_version look = valid_or as_version settings_version (look (codes "version" ∷ []))

abbrev pub expected_document : (List Bytes → Option Kind) → Settings → SettingsDocument
expected_document look defaults =
    outcome (expected_version look) (expected_settings look defaults) (invalid_paths look)

-- What `ReadSettingsJson` answers of a text.
abbrev pub expected_reading : (j : Json) → Bytes → Settings → Expected SettingsDocument
expected_reading j content defaults = elim (j.parse content) [
  | none ↦ unexpected not_json
  | some root ↦
      if as_object (j.kind root)
      then ok (expected_document (λ path. kind_at j path root) defaults)
      else unexpected not_an_object
]
