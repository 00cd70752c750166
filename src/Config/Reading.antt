-- ===== src/Config/Reading.antt =====
-- src/config/private/settings_json.cpp: the reader, up to `ReadSettingsJson`. A lambda that is given
-- to `ReadValue` answers none where its source answers false, and what it stores otherwise.
use klip.Base.{
  ℕ, ◌-◌, ◌^◌, Bool, true, false, ◌&&◌, ◌||◌, Bytes, codes, ℤ, pos, lebℤ, leb, ◌==◌, equal, Option,
  none, some, List, [], ◌∷◌, if◌then◌else◌,
}
use klip.Json.{Json, Kind, leaf, object, boolean, text, unsigned, integer}
use klip.Encode.Format.{get_container_name, parse_container, get_codec_name, parse_codec}
use klip.Encode.Quality.{get_quality_name, parse_quality}
use klip.Recorder.Settings.{
  Settings, AudioChoice, AudioSource, for_sources, minimum_gain, maximum_gain, frame_rate_caps,
}
use klip.Config.Document.{
  SettingsDocument, settings_version, not_json, not_an_object, Expected, ok, unexpected, join_path,
  reject,
}
use klip.Config.Names.{
  get_source_name, parse_source, audio_key, Member, directory_member, container_member,
  codec_member, quality_member, source_member, remember_window_member, max_frame_rate_member,
  audio_quality_member, screen_token_member, window_token_member, choice_member, enabled_member,
  device_member, gain_member,
}

-- `text.contains(byte)`.
abbrev pub contains_byte : ℕ → Bytes → Bool
contains_byte b [] = false
contains_byte b (c ∷ rest) = c == b || contains_byte b rest

-- `std::ranges::find(caps, n) != caps.end()`.
abbrev pub is_among : ℕ → List ℕ → Bool
is_among n [] = false
is_among n (cap ∷ caps) = cap == n || is_among n caps

abbrev is_in_range : ℤ → ℤ → ℤ → Bool
is_in_range n low high = lebℤ low n && lebℤ n high

-- `IsIntegerInRange`, with the number where it answers true.
unfoldable pub integer_in_range : ℤ → ℤ → Kind → Option ℤ
integer_in_range low high (leaf (unsigned n)) =
    if is_in_range (pos n) low high then some (pos n) else none
integer_in_range low high (leaf (integer n)) = if is_in_range n low high then some n else none
integer_in_range low high _ = none

unfoldable pub as_object : Kind → Bool
as_object object = true
as_object _ = false

unfoldable pub as_bool : Kind → Option Bool
as_bool (leaf (boolean b)) = some b
as_bool _ = none

unfoldable pub as_string : Kind → Option Bytes
as_string (leaf (text s)) = if contains_byte 0 s then none else some s
as_string _ = none

unfoldable pub as_name : {A : Type 0} → (Bytes → A → A) → (A → Bytes) → A → Kind → Option A
as_name parse name value (leaf (text s)) =
    let parsed = parse s value in if equal (name parsed) s then some parsed else none
as_name parse name value _ = none

unfoldable pub as_version : Kind → Option ℕ
as_version (leaf (unsigned n)) = if leb n (2 ^ 32 - 1) then some n else none
as_version _ = none

unfoldable pub as_frame_rate : Kind → Option ℕ
as_frame_rate (leaf (unsigned n)) = if is_among n frame_rate_caps then some n else none
as_frame_rate _ = none

module _ (j : Json) where
  -- `ReadValue`, where `store` is what the lambda does to the document.
  unfoldable pub read_value :
      {A : Type 0}
      → j.Value
      → Bytes
      → Bytes
      → (Kind → Option A)
      → (A → SettingsDocument → SettingsDocument)
      → SettingsDocument
      → SettingsDocument
  read_value parent path key read store document = elim (j.find parent key) [
    | none ↦ document
    | some v ↦ elim (read (j.kind v)) [
      | none ↦ reject (join_path path key) document
      | some a ↦ store a document
    ]
  ]

  -- A lambda that writes to a member of the settings.
  abbrev pub store_in : {A : Type 0} → Member A → A → SettingsDocument → SettingsDocument
  store_in m a document = record document { settings = m.write a document.settings }

  -- `FindObject`: the section that it points to, and the document.
  unfoldable pub find_object :
      j.Value → Bytes → Bytes → SettingsDocument → Option j.Value × SettingsDocument
  find_object parent path key document = elim (j.find parent key) [
    | none ↦ (none, document)
    | some v ↦
        if as_object (j.kind v)
        then (some v, document)
        else (none, reject (join_path path key) document)
  ]

  unfoldable pub read_bool :
      j.Value → Bytes → Bytes → Member Bool → SettingsDocument → SettingsDocument
  read_bool parent path key m = read_value parent path key as_bool (store_in m)

  unfoldable pub read_string :
      j.Value → Bytes → Bytes → Member Bytes → SettingsDocument → SettingsDocument
  read_string parent path key m = read_value parent path key as_string (store_in m)

  unfoldable pub read_name :
      {A : Type 0}
      → j.Value
      → Bytes
      → Bytes
      → (Bytes → A → A)
      → (A → Bytes)
      → Member A
      → SettingsDocument
      → SettingsDocument
  read_name parent path key parse name m document =
      read_value parent path key (as_name parse name (m.read document.settings)) (store_in m)
        document

  unfoldable pub read_audio_choice :
      j.Value → Bytes → Member AudioChoice → SettingsDocument → SettingsDocument
  unfolding read_bool read_string
  read_audio_choice choices path m document =
      let document = read_bool choices path (codes "enabled") (enabled_member m) document in
      let document = read_string choices path (codes "device") (device_member m) document in
      read_value choices path (codes "gain") (integer_in_range minimum_gain maximum_gain)
        (store_in (gain_member m)) document

  -- `if (pSection != nullptr) { ... }`, after the `FindObject` that found it.
  abbrev pub inside :
      (j.Value → SettingsDocument → SettingsDocument)
      → Option j.Value × SettingsDocument
      → SettingsDocument
  inside body (none, document) = document
  inside body (some section, document) = body section document

  unfoldable pub read_output : j.Value → SettingsDocument → SettingsDocument
  unfolding read_string read_name
  read_output output document =
      let path = codes "output" in
      let document = read_string output path (codes "directory") directory_member document in
      let document =
        read_name output path (codes "container") parse_container get_container_name
          container_member document in
      let document =
        read_name output path (codes "codec") parse_codec get_codec_name codec_member document in
      read_name output path (codes "quality") parse_quality get_quality_name quality_member document

  unfoldable pub read_capture : j.Value → SettingsDocument → SettingsDocument
  unfolding read_bool read_name
  read_capture capture document =
      let path = codes "capture" in
      let document =
        read_name capture path (codes "source") parse_source get_source_name source_member
          document in
      let document =
        read_bool capture path (codes "rememberWindow") remember_window_member document in
      read_value capture path (codes "frameRate") as_frame_rate (store_in max_frame_rate_member)
        document

  -- One round of the loop over the audio sources.
  unfoldable pub read_audio_source : j.Value → SettingsDocument → AudioSource → SettingsDocument
  unfolding find_object read_audio_choice
  read_audio_source audio document index =
      inside
        (λ choice.
          read_audio_choice choice (join_path (codes "audio") (audio_key index))
            (choice_member index))
        (find_object audio (codes "audio") (audio_key index) document)

  unfoldable pub read_audio : j.Value → SettingsDocument → SettingsDocument
  unfolding read_audio_source read_name
  read_audio audio document =
      read_name audio (codes "audio") (codes "quality") parse_quality get_quality_name
        audio_quality_member (for_sources (read_audio_source audio) document)

  unfoldable pub read_tokens : j.Value → SettingsDocument → SettingsDocument
  unfolding read_string
  read_tokens tokens document =
      let path = codes "portal.restoreTokens" in
      read_string tokens path (codes "window") window_token_member
        (read_string tokens path (codes "screen") screen_token_member document)

  unfoldable pub read_document : j.Value → SettingsDocument → SettingsDocument
  unfolding read_output read_capture read_audio read_tokens find_object
  read_document root document =
      let document =
        read_value root [] (codes "version") as_version (λ n d. record d { version = n })
          document in
      let document = inside read_output (find_object root [] (codes "output") document) in
      let document = inside read_capture (find_object root [] (codes "capture") document) in
      let document = inside read_audio (find_object root [] (codes "audio") document) in
      inside
        (λ portal d.
          inside read_tokens (find_object portal (codes "portal") (codes "restoreTokens") d))
        (find_object root [] (codes "portal") document)

  abbrev pub fresh_document : Settings → SettingsDocument
  fresh_document defaults = record {
    settings = defaults;
    version = settings_version;
    num_invalid = 0;
    first_invalid_path = [];
  }

  unfoldable pub read_settings_json : Bytes → Settings → Expected SettingsDocument
  unfolding read_document
  read_settings_json content defaults = elim (j.parse content) [
    | none ↦ unexpected not_json
    | some root ↦
        if as_object (j.kind root)
        then ok (read_document root (fresh_document defaults))
        else unexpected not_an_object
  ]
