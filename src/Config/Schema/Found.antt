-- ===== src/Config/Schema/Found.antt =====
-- The sections of `ReadDocument` of src/config/private/settings_json.cpp where they are found.
use klip.Base.{Bytes, codes, List, [], ◌∷◌, ◌++◌, ◌≡◌, refl}
use klip.Json.{Json, IsLawful, kind_at}
use klip.Encode.Quality.{get_quality_name, parse_quality}
use klip.Recorder.Settings.{Settings, AudioSource, system, microphone}
use klip.Config.Document.{join_path}
use klip.Config.Names.{audio_key, choice_member, audio_quality_member}
use klip.Config.Reading.{
  as_object, read_output, read_capture, read_audio_choice, read_audio_source, read_audio,
  read_tokens, find_object, inside,
}
use klip.Config.Schema.{named, all_qualities, valid_or, rejected}
use klip.Config.Schema.Steps.{as_name-quality}
use klip.Config.Schema.Sections.{Look, Leaves, Bare, then_effect, name_effect, section_effect}
use klip.Config.Schema.Parts.{
  rejected_in, output_settings, output_invalid, output_effect, capture_settings, capture_invalid,
  capture_effect, tokens_settings, tokens_invalid, tokens_effect, choice_settings, choice_invalid,
  choice_still, choice_effect,
}

-- The values of a section that stands under a key.
abbrev pub below : Bytes → Look → Look
below key look path = look (key ∷ path)

abbrev pub rejected_section : Bytes → Bytes → Look → List Bytes
rejected_section path key look = rejected as_object (join_path path key) (look (key ∷ []))

abbrev pub audio_settings : Look → Settings → Settings
audio_settings look s =
    let s' =
      choice_settings microphone (below (codes "microphone") look)
        (choice_settings system (below (codes "system") look) s) in
    record s' {
      audio_quality =
          valid_or (named get_quality_name all_qualities) s'.audio_quality
            (look (codes "quality" ∷ []));
    }

abbrev pub source_invalid : AudioSource → Look → List Bytes
source_invalid index look =
    rejected_section (codes "audio") (audio_key index) look
    ++ choice_invalid index (below (audio_key index) look)

abbrev pub audio_invalid : Look → List Bytes
audio_invalid look =
    (source_invalid system look ++ source_invalid microphone look)
    ++ rejected_in (codes "audio") (named get_quality_name all_qualities) (codes "quality") look

abbrev pub portal_settings : Look → Settings → Settings
portal_settings look = tokens_settings (below (codes "restoreTokens") look)

abbrev pub portal_invalid : Look → List Bytes
portal_invalid look =
    rejected_section (codes "portal") (codes "restoreTokens") look
    ++ tokens_invalid (below (codes "restoreTokens") look)

module _ (j : Json) (law : IsLawful j) where
  choice_silent : (index : AudioSource) (look : Look) → Bare look → choice_invalid index look ≡ []
  choice_silent index look bare =
      rw (bare (codes "gain") [], bare (codes "device") [], bare (codes "enabled") []) refl

  source_effect :
      (index : AudioSource) (v : j.Value)
      → Leaves
          (λ d. read_audio_source j v d index)
          (choice_settings index (below (audio_key index) (λ p. kind_at j p v)))
          (source_invalid index (λ p. kind_at j p v))
  unfolding read_audio_source
  source_effect index v =
      section_effect j law
        (λ choice.
          read_audio_choice j choice (join_path (codes "audio") (audio_key index))
            (choice_member index))
        (choice_settings index) (choice_invalid index) v (codes "audio") (audio_key index)
        (choice_effect j index) (choice_still index) (choice_silent index)

  audio_effect :
      (v : j.Value)
      → Leaves
          (read_audio j v)
          (audio_settings (λ p. kind_at j p v))
          (audio_invalid (λ p. kind_at j p v))
  unfolding read_audio
  audio_effect v = then_effect (then_effect (source_effect system v) (source_effect microphone v)) (
      name_effect j v (codes "audio") (codes "quality") parse_quality get_quality_name
        audio_quality_member (named get_quality_name all_qualities) as_name-quality (λ s. refl))

  portal_effect :
      (v : j.Value)
      → Leaves
          (λ d.
            inside j (read_tokens j) (find_object j v (codes "portal") (codes "restoreTokens") d))
          (portal_settings (λ p. kind_at j p v))
          (portal_invalid (λ p. kind_at j p v))
  portal_effect v =
      section_effect j law (read_tokens j) tokens_settings tokens_invalid v (codes "portal")
        (codes "restoreTokens") (tokens_effect j)
        (λ look s bare. rw (bare (codes "screen") [], bare (codes "window") []) refl)
        (λ look bare. rw (bare (codes "screen") [], bare (codes "window") []) refl)

  pub output_found :
      (root : j.Value)
      → Leaves
          (λ d. inside j (read_output j) (find_object j root [] (codes "output") d))
          (output_settings (below (codes "output") (λ p. kind_at j p root)))
          (rejected_section [] (codes "output") (λ p. kind_at j p root)
            ++ output_invalid (below (codes "output") (λ p. kind_at j p root)))
  output_found root =
      section_effect j law (read_output j) output_settings output_invalid root [] (codes "output")
        (output_effect j)
        (λ look s bare.
          rw
            (
              bare (codes "directory") [],
              bare (codes "container") [],
              bare (codes "codec") [],
              bare (codes "quality") [],
            )
            refl)
        (λ look bare.
          rw
            (
              bare (codes "directory") [],
              bare (codes "container") [],
              bare (codes "codec") [],
              bare (codes "quality") [],
            )
            refl)

  pub capture_found :
      (root : j.Value)
      → Leaves
          (λ d. inside j (read_capture j) (find_object j root [] (codes "capture") d))
          (capture_settings (below (codes "capture") (λ p. kind_at j p root)))
          (rejected_section [] (codes "capture") (λ p. kind_at j p root)
            ++ capture_invalid (below (codes "capture") (λ p. kind_at j p root)))
  capture_found root =
      section_effect j law (read_capture j) capture_settings capture_invalid root []
        (codes "capture") (capture_effect j)
        (λ look s bare.
          rw
            (
              bare (codes "source") [],
              bare (codes "rememberWindow") [],
              bare (codes "frameRate") [],
            )
            refl)
        (λ look bare.
          rw
            (
              bare (codes "source") [],
              bare (codes "rememberWindow") [],
              bare (codes "frameRate") [],
            )
            refl)

  audio_still : (look : Look) (s : Settings) → Bare look → audio_settings look s ≡ s
  audio_still look s bare =
      rw
        (
          bare (codes "system") (codes "enabled" ∷ []),
          bare (codes "system") (codes "device" ∷ []),
          bare (codes "system") (codes "gain" ∷ []),
          bare (codes "microphone") (codes "enabled" ∷ []),
          bare (codes "microphone") (codes "device" ∷ []),
          bare (codes "microphone") (codes "gain" ∷ []),
          bare (codes "quality") [],
        )
        refl

  audio_silent : (look : Look) → Bare look → audio_invalid look ≡ []
  audio_silent look bare =
      rw
        (
          bare (codes "system") (codes "enabled" ∷ []),
          bare (codes "system") (codes "device" ∷ []),
          bare (codes "system") (codes "gain" ∷ []),
          bare (codes "microphone") (codes "enabled" ∷ []),
          bare (codes "microphone") (codes "device" ∷ []),
          bare (codes "microphone") (codes "gain" ∷ []),
          bare (codes "system") [],
          bare (codes "microphone") [],
          bare (codes "quality") [],
        )
        refl

  pub audio_found :
      (root : j.Value)
      → Leaves
          (λ d. inside j (read_audio j) (find_object j root [] (codes "audio") d))
          (audio_settings (below (codes "audio") (λ p. kind_at j p root)))
          (rejected_section [] (codes "audio") (λ p. kind_at j p root)
            ++ audio_invalid (below (codes "audio") (λ p. kind_at j p root)))
  audio_found root =
      section_effect j law (read_audio j) audio_settings audio_invalid root [] (codes "audio")
        audio_effect audio_still audio_silent

  pub portal_found :
      (root : j.Value)
      → Leaves
          (λ d.
            inside j
              (λ portal d.
                inside j
                  (read_tokens j)
                  (find_object j portal (codes "portal") (codes "restoreTokens") d))
              (find_object j root [] (codes "portal") d))
          (portal_settings (below (codes "portal") (λ p. kind_at j p root)))
          (rejected_section [] (codes "portal") (λ p. kind_at j p root)
            ++ portal_invalid (below (codes "portal") (λ p. kind_at j p root)))
  portal_found root =
      section_effect j law
        (λ portal d.
          inside j (read_tokens j)
            (find_object j portal (codes "portal") (codes "restoreTokens") d))
        portal_settings portal_invalid root [] (codes "portal") portal_effect
        (λ look s bare.
          rw
            (
              bare (codes "restoreTokens") (codes "screen" ∷ []),
              bare (codes "restoreTokens") (codes "window" ∷ []),
            )
            refl)
        (λ look bare.
          rw
            (
              bare (codes "restoreTokens") (codes "screen" ∷ []),
              bare (codes "restoreTokens") (codes "window" ∷ []),
              bare (codes "restoreTokens") [],
            )
            refl)
