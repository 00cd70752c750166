-- ===== src/Config/Writing.antt =====
-- src/config/private/settings_json.cpp: the writer, `ParseKept`, `GetSection` and
-- `WriteSettingsJson`. A reference to a section is written back into its parent after the
-- assignments to it, before which the source makes no other use of the parent.
pub mod Places
pub mod Kept
pub mod Survival
pub mod Values
pub mod Legal
use klip.Base.{ℕ, Bytes, codes, Option, none, some, List, [], ◌∷◌, ◌++◌, if◌then◌else◌}
use klip.Json.{Json, Leaf, text, boolean, unsigned, integer, newline}
use klip.Encode.Format.{get_container_name, get_codec_name}
use klip.Encode.Quality.{get_quality_name}
use klip.Recorder.Settings.{Settings, AudioSource, for_sources, get}
use klip.Config.Document.{settings_version}
use klip.Config.Names.{get_source_name, audio_key}
use klip.Config.Reading.{as_object}

-- The assignments `section[key] = value` that follow one another.
abbrev pub version_entries : List (Bytes × Leaf)
version_entries = (codes "version", unsigned settings_version) ∷ []

abbrev pub output_entries : Settings → List (Bytes × Leaf)
output_entries s =
    (codes "directory", text s.directory)
    ∷ (codes "container", text (get_container_name s.container))
    ∷ (codes "codec", text (get_codec_name s.codec))
    ∷ (codes "quality", text (get_quality_name s.quality))
    ∷ []

abbrev pub capture_entries : Settings → List (Bytes × Leaf)
capture_entries s =
    (codes "source", text (get_source_name s.source))
    ∷ (codes "frameRate", unsigned s.max_frame_rate)
    ∷ (codes "rememberWindow", boolean s.remember_window)
    ∷ []

abbrev pub choice_entries : Settings → AudioSource → List (Bytes × Leaf)
choice_entries s index =
    let choice = get s.audio index in
    (codes "enabled", boolean choice.enabled)
    ∷ (codes "device", text choice.device)
    ∷ (codes "gain", integer choice.gain_decibels)
    ∷ []

abbrev pub audio_entries : Settings → List (Bytes × Leaf)
audio_entries s = (codes "quality", text (get_quality_name s.audio_quality)) ∷ []

abbrev pub token_entries : Settings → List (Bytes × Leaf)
token_entries s = (codes "screen", text s.screen_token) ∷ (codes "window", text s.window_token) ∷ []

module _ (j : Json) where
  unfoldable pub parse_kept : Bytes → j.Value
  parse_kept kept = elim (j.parse kept) [
    | none ↦ j.empty
    | some root ↦ if as_object (j.kind root) then root else j.empty
  ]

  unfoldable pub get_section : j.Value → Bytes → j.Value
  get_section parent key = elim (j.find parent key) [
    | none ↦ j.empty
    | some section ↦ if as_object (j.kind section) then section else j.empty
  ]

  unfoldable pub assign_all : List (Bytes × Leaf) → j.Value → j.Value
  assign_all [] v = v
  assign_all ((key, l) ∷ entries) v = assign_all entries (j.assign v key (j.make l))

  unfoldable pub in_section : Bytes → (j.Value → j.Value) → j.Value → j.Value
  unfolding get_section
  in_section key change parent = j.assign parent key (change (get_section parent key))

  unfoldable pub write_audio : Settings → j.Value → j.Value
  unfolding in_section assign_all
  write_audio s audio = assign_all (audio_entries s) (
      for_sources
        (λ audio index. in_section (audio_key index) (assign_all (choice_entries s index)) audio)
        audio)

  unfoldable pub write_document : Settings → j.Value → j.Value
  unfolding in_section assign_all write_audio
  write_document s root =
      let root = assign_all version_entries root in
      let root = in_section (codes "output") (assign_all (output_entries s)) root in
      let root = in_section (codes "capture") (assign_all (capture_entries s)) root in
      let root = in_section (codes "audio") (write_audio s) root in
      in_section (codes "portal")
        (in_section (codes "restoreTokens") (assign_all (token_entries s))) root

  unfoldable pub write_settings_json : Settings → Bytes → Bytes
  unfolding parse_kept write_document
  write_settings_json s kept = j.print (write_document s (parse_kept kept)) ++ (newline ∷ [])
