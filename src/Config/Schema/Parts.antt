-- ===== src/Config/Schema/Parts.antt =====
-- The sections of `ReadDocument` of src/config/private/settings_json.cpp, each by the paths in it.
use klip.Base.{Bytes, codes, Option, List, [], ◌∷◌, ◌++◌, ◌≡◌, refl, ◌∙◌, ap, ℤ}
use klip.Json.{Json, Kind, kind_at}
use klip.Encode.Format.{
  get_container_name, parse_container, all_containers, get_codec_name, parse_codec, all_codecs,
}
use klip.Encode.Quality.{get_quality_name, parse_quality}
use klip.Recorder.Settings.{
  Settings, AudioSource, AudioChoice, system, microphone, minimum_gain, maximum_gain,
}
use klip.Config.Document.{join_path}
use klip.Config.Names.{
  Member, audio_key, get_source_name, parse_source, directory_member, container_member,
  codec_member, quality_member, source_member, remember_window_member, max_frame_rate_member,
  screen_token_member, window_token_member, choice_member, enabled_member, device_member,
  gain_member,
}
use klip.Config.Reading.{
  as_bool, as_string, as_frame_rate, integer_in_range, read_bool, read_string, read_output,
  read_capture, read_audio_choice, read_tokens,
}
use klip.Config.Schema.{named, all_qualities, all_sources, valid_or, is_some, rejected}
use klip.Config.Schema.Steps.{as_name-codec, as_name-container, as_name-source, as_name-quality}
use klip.Config.Schema.Sections.{Look, Leaves, Bare, then_effect, value_effect, name_effect}

abbrev pub output_settings : Look → Settings → Settings
output_settings look s = record s {
  directory = valid_or as_string s.directory (look (codes "directory" ∷ []));
  container =
      valid_or (named get_container_name all_containers) s.container
        (look (codes "container" ∷ []));
  codec = valid_or (named get_codec_name all_codecs) s.codec (look (codes "codec" ∷ []));
  quality = valid_or (named get_quality_name all_qualities) s.quality (look (codes "quality" ∷ []));
}

-- The rejected paths of one value, in the section at `path`.
abbrev pub rejected_in : {A : Type 0} → Bytes → (Kind → Option A) → Bytes → Look → List Bytes
rejected_in path read key look =
    rejected (λ k. is_some (read k)) (join_path path key) (look (key ∷ []))

abbrev pub output_invalid : Look → List Bytes
output_invalid look =
    let path = codes "output" in
    ((rejected_in path as_string (codes "directory") look
        ++ rejected_in path (named get_container_name all_containers) (codes "container") look)
      ++ rejected_in path (named get_codec_name all_codecs) (codes "codec") look)
    ++ rejected_in path (named get_quality_name all_qualities) (codes "quality") look

abbrev pub capture_settings : Look → Settings → Settings
capture_settings look s = record s {
  source = valid_or (named get_source_name all_sources) s.source (look (codes "source" ∷ []));
  remember_window = valid_or as_bool s.remember_window (look (codes "rememberWindow" ∷ []));
  max_frame_rate = valid_or as_frame_rate s.max_frame_rate (look (codes "frameRate" ∷ []));
}

abbrev pub capture_invalid : Look → List Bytes
capture_invalid look =
    let path = codes "capture" in
    (rejected_in path (named get_source_name all_sources) (codes "source") look
      ++ rejected_in path as_bool (codes "rememberWindow") look)
    ++ rejected_in path as_frame_rate (codes "frameRate") look

abbrev pub tokens_settings : Look → Settings → Settings
tokens_settings look s = record s {
  screen_token = valid_or as_string s.screen_token (look (codes "screen" ∷ []));
  window_token = valid_or as_string s.window_token (look (codes "window" ∷ []));
}

abbrev pub tokens_invalid : Look → List Bytes
tokens_invalid look =
    let path = codes "portal.restoreTokens" in
    rejected_in path as_string (codes "screen") look
    ++ rejected_in path as_string (codes "window") look

abbrev pub gain_in_range : Kind → Option ℤ
gain_in_range = integer_in_range minimum_gain maximum_gain

-- The three writes of `ReadAudioChoice`.
abbrev pub written :
    {A : Type 0} → Member A → (Kind → Option A) → Bytes → Look → Settings → Settings
written m read key look s = m.write (valid_or read (m.read s) (look (key ∷ []))) s

abbrev pub choice_settings : AudioSource → Look → Settings → Settings
choice_settings index look s =
    let m = choice_member index in
    written (gain_member m) gain_in_range (codes "gain") look (
      written (device_member m) as_string (codes "device") look
        (written (enabled_member m) as_bool (codes "enabled") look s))

abbrev pub choice_invalid : AudioSource → Look → List Bytes
choice_invalid index look =
    let path = join_path (codes "audio") (audio_key index) in
    (rejected_in path as_bool (codes "enabled") look
      ++ rejected_in path as_string (codes "device") look)
    ++ rejected_in path gain_in_range (codes "gain") look

write_enabled :
    (index : AudioSource) (s : Settings)
    → let m = enabled_member (choice_member index) in m.write (m.read s) s ≡ s
write_enabled system s = refl
write_enabled microphone s = refl

write_device :
    (index : AudioSource) (s : Settings)
    → let m = device_member (choice_member index) in m.write (m.read s) s ≡ s
write_device system s = refl
write_device microphone s = refl

write_gain :
    (index : AudioSource) (s : Settings)
    → let m = gain_member (choice_member index) in m.write (m.read s) s ≡ s
write_gain system s = refl
write_gain microphone s = refl

pub choice_still :
    (index : AudioSource) (look : Look) (s : Settings)
    → Bare look
    → choice_settings index look s ≡ s
choice_still index look s bare =
    rw (bare (codes "gain") [], bare (codes "device") [], bare (codes "enabled") [])
      (ap
          (λ t.
            (gain_member (choice_member index)).write ((gain_member (choice_member index)).read t)
              t)
          (ap
              (λ t.
                (device_member (choice_member index)).write
                  ((device_member (choice_member index)).read t) t)
              (write_enabled index s)
            ∙ write_device index s)
        ∙ write_gain index s)

module _ (j : Json) where
  pub output_effect :
      (v : j.Value)
      → Leaves
          (read_output j v)
          (output_settings (λ p. kind_at j p v))
          (output_invalid (λ p. kind_at j p v))
  unfolding read_output read_string
  output_effect v =
      let path : Bytes = codes "output" in
      let directory =
        value_effect j v path (codes "directory") as_string directory_member (λ s. refl) in
      let container =
        name_effect j v path (codes "container") parse_container get_container_name container_member
          (named get_container_name all_containers) as_name-container (λ s. refl) in
      let codec =
        name_effect j v path (codes "codec") parse_codec get_codec_name codec_member
          (named get_codec_name all_codecs) as_name-codec (λ s. refl) in
      let quality =
        name_effect j v path (codes "quality") parse_quality get_quality_name quality_member
          (named get_quality_name all_qualities) as_name-quality (λ s. refl) in
      then_effect (then_effect (then_effect directory container) codec) quality

  pub capture_effect :
      (v : j.Value)
      → Leaves
          (read_capture j v)
          (capture_settings (λ p. kind_at j p v))
          (capture_invalid (λ p. kind_at j p v))
  unfolding read_capture read_bool
  capture_effect v =
      let path : Bytes = codes "capture" in
      let source =
        name_effect j v path (codes "source") parse_source get_source_name source_member
          (named get_source_name all_sources) as_name-source (λ s. refl) in
      let remember =
        value_effect j v path (codes "rememberWindow") as_bool remember_window_member (λ s. refl) in
      let rate =
        value_effect j v path (codes "frameRate") as_frame_rate max_frame_rate_member (λ s. refl) in
      then_effect (then_effect source remember) rate

  pub tokens_effect :
      (v : j.Value)
      → Leaves
          (read_tokens j v)
          (tokens_settings (λ p. kind_at j p v))
          (tokens_invalid (λ p. kind_at j p v))
  unfolding read_tokens read_string
  tokens_effect v =
      let path : Bytes = codes "portal.restoreTokens" in
      then_effect (value_effect j v path (codes "screen") as_string screen_token_member (λ s. refl))
        (value_effect j v path (codes "window") as_string window_token_member (λ s. refl))

  pub choice_effect :
      (index : AudioSource) (v : j.Value)
      → Leaves
          (read_audio_choice j v
            (join_path (codes "audio") (audio_key index))
            (choice_member index))
          (choice_settings index (λ p. kind_at j p v))
          (choice_invalid index (λ p. kind_at j p v))
  unfolding read_audio_choice read_bool read_string
  choice_effect index v =
      let path : Bytes = join_path (codes "audio") (audio_key index) in
      let m : Member AudioChoice = choice_member index in
      then_effect
        (then_effect
          (value_effect j v path (codes "enabled") as_bool (enabled_member m) (write_enabled index))
          (value_effect j v path (codes "device") as_string (device_member m) (write_device index)))
        (value_effect j v path (codes "gain") gain_in_range (gain_member m) (write_gain index))
