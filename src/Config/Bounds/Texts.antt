-- ===== src/Config/Bounds/Texts.antt =====
-- src/config/private/settings_json.cpp: the texts of settings that were read are UTF-8.
use klip.Base.{
  true, Bytes, codes, some, List, [], ◌∷◌, ◌≡◌, ◌∙◌, sym, ap, subst, arith, Option-cases,
  Bool-cases, inl, inr,
}
use klip.Json.{Json, IsLawful, Kind, leaf, text, kind_at}
use klip.Recorder.Settings.{Settings, AudioSource, system, microphone, get}
use klip.Config.Document.{SettingsDocument, ok}
use klip.Config.Reading.{as_object, as_string, read_settings_json}
use klip.Config.Schema.{valid_or, expected_settings, expected_document, expected_reading}
use klip.Config.Schema.Whole.{read_settings_json-expected_reading}
use klip.Config.RoundTrip.Utf8.{HasUtf8}

as_string_text : (k : Kind) (b : Bytes) → as_string k ≡ some b → k ≡ leaf (text b)
unfolding as_string
as_string_text (leaf (text s)) b h = ground arith
as_string_text _ b h = absurd (cc)

module _ (j : Json) (law : IsLawful j) where
  -- A text at a path is UTF-8.
  kind_at_utf8 :
      (path : List Bytes) (v : j.Value) (b : Bytes)
      → law.IsUtf8 v
      → kind_at j path v ≡ some (leaf (text b))
      → j.utf8 b ≡ true
  kind_at_utf8 [] v b h e = law.text-IsUtf8 v b h (cc)
  kind_at_utf8 (k ∷ path) v b h e = elim (Option-cases (j.find v k)) [
    | inl absent ↦ absurd (ground arith)
    | inr (w, found) ↦ kind_at_utf8 path w b (law.find-IsUtf8 v w k h found) (ground arith)
  ]

  module _ (root : j.Value) (h : law.IsUtf8 root) (d : Settings) (texts : HasUtf8 j d) where
    string_utf8 :
        (path : List Bytes) (b : Bytes)
        → j.utf8 b ≡ true
        → j.utf8 (valid_or as_string b (kind_at j path root)) ≡ true
    string_utf8 path b base = elim (Option-cases (kind_at j path root)) [
      | inl absent ↦ rw (absent, valid_or) base
      | inr (k, here) ↦ elim (Option-cases (as_string k)) [
        | inl illegal ↦ rw (here, valid_or) (rw (illegal, valid_or) base)
        | inr (s, legal) ↦
            rw (here, valid_or)
              (rw (legal, valid_or)
                (kind_at_utf8 path root s h (here ∙ ap some (as_string_text k s legal))))
      ]
    ]

    device_utf8 :
        (index : AudioSource)
        → j.utf8 (get (expected_settings (λ path. kind_at j path root) d).audio index).device ≡ true
    unfolding expected_settings
    device_utf8 system =
        string_utf8 (codes "audio" ∷ codes "system" ∷ codes "device" ∷ [])
          (get d.audio system).device (texts.device system)
    device_utf8 microphone =
        string_utf8 (codes "audio" ∷ codes "microphone" ∷ codes "device" ∷ [])
          (get d.audio microphone).device (texts.device microphone)

    expected_settings-HasUtf8 : HasUtf8 j (expected_settings (λ path. kind_at j path root) d)
    unfolding expected_settings
    expected_settings-HasUtf8 = record {
      directory = string_utf8 (codes "output" ∷ codes "directory" ∷ []) d.directory texts.directory;
      device = device_utf8;
      screen =
          string_utf8 (codes "portal" ∷ codes "restoreTokens" ∷ codes "screen" ∷ []) d.screen_token
            texts.screen;
      window =
          string_utf8 (codes "portal" ∷ codes "restoreTokens" ∷ codes "window" ∷ []) d.window_token
            texts.window;
    }

  reading-HasUtf8 :
      (content : Bytes) (defaults : Settings) (document : SettingsDocument)
      → HasUtf8 j defaults
      → expected_reading j content defaults ≡ ok document
      → HasUtf8 j document.settings
  reading-HasUtf8 content defaults document texts h = elim (Option-cases (j.parse content)) [
    | inl bad ↦ absurd (ground arith)
    | inr (root, parsed) ↦ elim (Bool-cases (as_object (j.kind root))) [
      | inl yes_object ↦
          let same : expected_document (λ path. kind_at j path root) defaults ≡ document =
            ground arith in
          subst (λ d. HasUtf8 j d.settings) same
            (expected_settings-HasUtf8 root (law.parse-IsUtf8 content root parsed) defaults texts)
      | inr other_kind ↦ absurd (ground arith)
    ]
  ]

  pub read_settings_json-HasUtf8 :
      (content : Bytes) (defaults : Settings) (document : SettingsDocument)
      → HasUtf8 j defaults
      → read_settings_json j content defaults ≡ ok document
      → HasUtf8 j document.settings
  read_settings_json-HasUtf8 content defaults document texts h =
      reading-HasUtf8 content defaults document texts
        (sym (read_settings_json-expected_reading j law content defaults) ∙ h)
