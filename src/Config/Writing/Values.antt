-- ===== src/Config/Writing/Values.antt =====
-- src/config/private/settings_json.cpp: what stands at the paths that are read, after
-- `WriteSettingsJson`.
use klip.Base.{Bytes, codes, some, List, [], ◌∷◌, ◌≡◌, ◌∙◌, ap, equal, ℤ}
use klip.Json.{Json, IsLawful, Kind, Leaf, leaf, text, boolean, unsigned, integer, object, kind_at}
use klip.Encode.Format.{get_container_name, get_codec_name}
use klip.Encode.Quality.{get_quality_name}
use klip.Recorder.Settings.{Settings, AudioSource, system, microphone, get}
use klip.Config.Document.{settings_version}
use klip.Config.Names.{get_source_name, audio_key}
use klip.Config.Schema.Sections.{Look}
use klip.Config.Writing.{
  output_entries, capture_entries, choice_entries, audio_entries, token_entries, get_section,
  assign_all, write_audio, write_document,
}
use klip.Config.Writing.Places.{
  last_entry, held, get_section-object, assign_all-object, kind_at-assign_all, kind_at-in_section,
  in_section-object,
}
use klip.Config.Writing.Kept.{
  with_version, with_output, with_capture, with_audio, kind_at-write_document,
}
use klip.Config.Writing.Survival.{with_system, kind_at-write_audio}

-- What stands at the paths that are read, once the settings were written.
pub record Holds (look : Look) (s : Settings) (gain_kind : ℤ → Kind) : Type 0 where
  pub version : look (codes "version" ∷ []) ≡ some (leaf (unsigned settings_version))
  pub output : look (codes "output" ∷ []) ≡ some object
  pub directory : look (codes "output" ∷ codes "directory" ∷ []) ≡ some (leaf (text s.directory))
  pub container :
      look (codes "output" ∷ codes "container" ∷ [])
      ≡ some (leaf (text (get_container_name s.container)))
  pub codec :
      look (codes "output" ∷ codes "codec" ∷ []) ≡ some (leaf (text (get_codec_name s.codec)))
  pub quality :
      look (codes "output" ∷ codes "quality" ∷ []) ≡ some (leaf (text (get_quality_name s.quality)))
  pub capture : look (codes "capture" ∷ []) ≡ some object
  pub source :
      look (codes "capture" ∷ codes "source" ∷ []) ≡ some (leaf (text (get_source_name s.source)))
  pub remember :
      look (codes "capture" ∷ codes "rememberWindow" ∷ []) ≡ some (leaf (boolean s.remember_window))
  pub rate :
      look (codes "capture" ∷ codes "frameRate" ∷ []) ≡ some (leaf (unsigned s.max_frame_rate))
  pub audio : look (codes "audio" ∷ []) ≡ some object
  pub choice : (index : AudioSource) → look (codes "audio" ∷ audio_key index ∷ []) ≡ some object
  pub enabled :
      (index : AudioSource)
      → look (codes "audio" ∷ audio_key index ∷ codes "enabled" ∷ [])
        ≡ some (leaf (boolean (get s.audio index).enabled))
  pub device :
      (index : AudioSource)
      → look (codes "audio" ∷ audio_key index ∷ codes "device" ∷ [])
        ≡ some (leaf (text (get s.audio index).device))
  pub gain :
      (index : AudioSource)
      → look (codes "audio" ∷ audio_key index ∷ codes "gain" ∷ [])
        ≡ some (gain_kind (get s.audio index).gain_decibels)
  pub audio_quality :
      look (codes "audio" ∷ codes "quality" ∷ [])
      ≡ some (leaf (text (get_quality_name s.audio_quality)))
  pub portal : look (codes "portal" ∷ []) ≡ some object
  pub tokens : look (codes "portal" ∷ codes "restoreTokens" ∷ []) ≡ some object
  pub screen :
      look (codes "portal" ∷ codes "restoreTokens" ∷ codes "screen" ∷ [])
      ≡ some (leaf (text s.screen_token))
  pub window :
      look (codes "portal" ∷ codes "restoreTokens" ∷ codes "window" ∷ [])
      ≡ some (leaf (text s.window_token))

module _ (j : Json) (law : IsLawful j) (s : Settings) (root : j.Value)
    (obj : j.kind root ≡ object) where
  -- A value in a section that is written as a whole.
  leaf_at : (l : Leaf) → kind_at j [] (j.make l) ≡ some (leaf l)
  leaf_at l = ap some (law.kind-make l)

  output_at :
      (key : Bytes)
      → kind_at j (codes "output" ∷ key ∷ []) (write_document j s root)
        ≡ held j law
            (last_entry key (output_entries s))
            []
            (kind_at j (key ∷ []) (get_section j (with_version j law s root obj) (codes "output")))
  unfolding equal
  output_at key =
      kind_at-write_document j law s root obj (codes "output") (key ∷ [])
      ∙ kind_at-assign_all j law (output_entries s) _ key [] (get_section-object j law _ _)

  capture_at :
      (key : Bytes)
      → kind_at j (codes "capture" ∷ key ∷ []) (write_document j s root)
        ≡ held j law
            (last_entry key (capture_entries s))
            []
            (kind_at j (key ∷ []) (get_section j (with_output j law s root obj) (codes "capture")))
  unfolding equal
  capture_at key =
      kind_at-write_document j law s root obj (codes "capture") (key ∷ [])
      ∙ kind_at-assign_all j law (capture_entries s) _ key [] (get_section-object j law _ _)

  write_audio-object : (a : j.Value) → j.kind a ≡ object → j.kind (write_audio j s a) ≡ object
  unfolding write_audio
  write_audio-object a o = assign_all-object j law (audio_entries s) _ (
      in_section-object j law (codes "microphone") (assign_all j (choice_entries s microphone))
        (with_system j law s a)
        (in_section-object j law (codes "system") (assign_all j (choice_entries s system)) a o))

  -- The section that a choice is written into.
  abbrev old_choice : AudioSource → j.Value
  old_choice index =
      let audio = get_section j (with_capture j law s root obj) (codes "audio") in
      elim index [
        | system ↦ get_section j audio (codes "system")
        | microphone ↦ get_section j (with_system j law s audio) (codes "microphone")
      ]

  choice_at :
      (index : AudioSource) (path : List Bytes)
      → kind_at j (codes "audio" ∷ audio_key index ∷ path) (write_document j s root)
        ≡ kind_at j path (assign_all j (choice_entries s index) (old_choice index))
  unfolding equal
  choice_at system path =
      kind_at-write_document j law s root obj (codes "audio") (codes "system" ∷ path)
      ∙ kind_at-write_audio j law s _ (codes "system") path (get_section-object j law _ _)
  choice_at microphone path =
      kind_at-write_document j law s root obj (codes "audio") (codes "microphone" ∷ path)
      ∙ kind_at-write_audio j law s _ (codes "microphone") path (get_section-object j law _ _)

  old_choice-object : (index : AudioSource) → j.kind (old_choice index) ≡ object
  old_choice-object system = get_section-object j law _ _
  old_choice-object microphone = get_section-object j law _ _

  choice_value :
      (index : AudioSource) (key : Bytes)
      → kind_at j (codes "audio" ∷ audio_key index ∷ key ∷ []) (write_document j s root)
        ≡ held j law
            (last_entry key (choice_entries s index))
            []
            (kind_at j (key ∷ []) (old_choice index))
  choice_value index key =
      choice_at index (key ∷ [])
      ∙ kind_at-assign_all j law (choice_entries s index) (old_choice index) key []
          (old_choice-object index)

  tokens_at :
      (path : List Bytes)
      → kind_at j (codes "portal" ∷ codes "restoreTokens" ∷ path) (write_document j s root)
        ≡ kind_at j path (
            assign_all j (token_entries s) (
              get_section j
                (get_section j (with_audio j law s root obj) (codes "portal"))
                (codes "restoreTokens")))
  unfolding equal
  tokens_at path =
      kind_at-write_document j law s root obj (codes "portal") (codes "restoreTokens" ∷ path)
      ∙ kind_at-in_section j law (codes "restoreTokens") (assign_all j (token_entries s)) _
          (codes "restoreTokens") path (get_section-object j law _ _)

  token_at :
      (key : Bytes)
      → kind_at j (codes "portal" ∷ codes "restoreTokens" ∷ key ∷ []) (write_document j s root)
        ≡ held j law (last_entry key (token_entries s)) [] (
            kind_at j (key ∷ []) (
              get_section j
                (get_section j (with_audio j law s root obj) (codes "portal"))
                (codes "restoreTokens")))
  token_at key =
      tokens_at (key ∷ [])
      ∙ kind_at-assign_all j law (token_entries s) _ key [] (get_section-object j law _ _)

  pub write_document-Holds :
      Holds (λ path. kind_at j path (write_document j s root)) s (λ g. leaf (integer g))
  unfolding equal
  write_document-Holds = record {
    version =
        kind_at-write_document j law s root obj (codes "version") []
        ∙ leaf_at (unsigned settings_version);
    output =
        kind_at-write_document j law s root obj (codes "output") []
        ∙ ap some (assign_all-object j law (output_entries s) _ (get_section-object j law _ _));
    directory = output_at (codes "directory") ∙ leaf_at _;
    container = output_at (codes "container") ∙ leaf_at _;
    codec = output_at (codes "codec") ∙ leaf_at _;
    quality = output_at (codes "quality") ∙ leaf_at _;
    capture =
        kind_at-write_document j law s root obj (codes "capture") []
        ∙ ap some (assign_all-object j law (capture_entries s) _ (get_section-object j law _ _));
    source = capture_at (codes "source") ∙ leaf_at _;
    remember = capture_at (codes "rememberWindow") ∙ leaf_at _;
    rate = capture_at (codes "frameRate") ∙ leaf_at _;
    audio =
        kind_at-write_document j law s root obj (codes "audio") []
        ∙ ap some (write_audio-object _ (get_section-object j law _ _));
    choice = λ index.
        choice_at index []
        ∙ ap some (assign_all-object j law (choice_entries s index) _ (old_choice-object index));
    enabled = λ index. choice_value index (codes "enabled") ∙ leaf_at _;
    device = λ index. choice_value index (codes "device") ∙ leaf_at _;
    gain = λ index. choice_value index (codes "gain") ∙ leaf_at _;
    audio_quality =
        kind_at-write_document j law s root obj (codes "audio") (codes "quality" ∷ [])
        ∙ kind_at-write_audio j law s _ (codes "quality") [] (get_section-object j law _ _)
        ∙ leaf_at _;
    portal =
        kind_at-write_document j law s root obj (codes "portal") []
        ∙ ap some
            (in_section-object j law (codes "restoreTokens") _ _ (get_section-object j law _ _));
    tokens =
        tokens_at []
        ∙ ap some (assign_all-object j law (token_entries s) _ (get_section-object j law _ _));
    screen = token_at (codes "screen") ∙ leaf_at _;
    window = token_at (codes "window") ∙ leaf_at _;
  }
