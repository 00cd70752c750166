-- ===== src/Config/Bounds.antt =====
-- src/config/private/settings_json.cpp: what `ReadSettingsJson` answers, whatever the text is.
pub mod Texts
use klip.Base.{
  ℕ, true, false, Bytes, codes, Option, none, some, [], ◌∷◌, ◌≡◌, ◌∙◌, sym, subst, arith, ℤ, pos,
  negsuc, ◌≤ℤ◌, Option-cases, Bool-cases, inl, inr,
}
use klip.Json.{Json, IsLawful, Kind, leaf, text, unsigned, integer, kind_at}
use klip.Recorder.Settings.{
  Settings, AudioSource, system, microphone, get, minimum_gain, maximum_gain, frame_rate_caps,
}
use klip.Config.Document.{SettingsDocument, ok}
use klip.Config.Reading.{
  contains_byte, is_among, integer_in_range, as_object, as_string, as_frame_rate,
  read_settings_json,
}
use klip.Config.Names.{audio_key}
use klip.Config.Schema.{
  valid_or, expected_choice, expected_settings, expected_document, expected_reading,
}
use klip.Config.Schema.Sections.{Look}
use klip.Config.Schema.Whole.{read_settings_json-expected_reading}
use klip.Config.Writing.Legal.{IsLegal}

-- What holds of the default and of every legal value holds of the value that is taken.
valid_or_cases :
    {A : Type 0} (P : A → Type 0) (read : Kind → Option A) (fallback : A) (o : Option Kind)
    → P fallback
    → ((k : Kind) (a : A) → read k ≡ some a → P a)
    → P (valid_or read fallback o)
valid_or_cases P read fallback none base step = base
valid_or_cases P read fallback (some k) base step = elim (Option-cases (read k)) [
  | inl illegal ↦ rw (illegal, valid_or) base
  | inr (a, legal) ↦ rw (legal, valid_or) (step k a legal)
]

as_string_clean : (k : Kind) (b : Bytes) → as_string k ≡ some b → contains_byte 0 b ≡ false
unfolding as_string
as_string_clean (leaf (text s)) b h = ground arith
as_string_clean _ b h = cc

as_frame_rate_offered :
    (k : Kind) (n : ℕ) → as_frame_rate k ≡ some n → is_among n frame_rate_caps ≡ true
unfolding as_frame_rate
as_frame_rate_offered (leaf (unsigned m)) n h = ground arith
as_frame_rate_offered _ n h = cc

integer_in_range_bounds :
    (k : Kind) (g : ℤ)
    → integer_in_range minimum_gain maximum_gain k ≡ some g
    → (minimum_gain ≤ℤ g) × (g ≤ℤ maximum_gain)
unfolding integer_in_range
integer_in_range_bounds (leaf (unsigned n)) g h = ground arith
integer_in_range_bounds (leaf (integer (pos n))) g h = ground arith
integer_in_range_bounds (leaf (integer (negsuc n))) g h = ground arith
integer_in_range_bounds _ g h = cc

module _ (look : Look) (d : Settings) (legal : IsLegal d) where
  string_clean :
      (b : Bytes) (o : Option Kind)
      → contains_byte 0 b ≡ false
      → contains_byte 0 (valid_or as_string b o) ≡ false
  string_clean b o h =
      valid_or_cases (λ b. contains_byte 0 b ≡ false) as_string b o h as_string_clean

  choice_bounds :
      (index : AudioSource)
      → let c = expected_choice look index (get d.audio index) in
        (contains_byte 0 c.device ≡ false)
        × (minimum_gain ≤ℤ c.gain_decibels)
        × (c.gain_decibels ≤ℤ maximum_gain)
  choice_bounds index =
      let (low, high) =
        valid_or_cases (λ g. (minimum_gain ≤ℤ g) × (g ≤ℤ maximum_gain))
          (integer_in_range minimum_gain maximum_gain) (get d.audio index).gain_decibels _
          (legal.low index, legal.high index) integer_in_range_bounds in
      (
        string_clean (get d.audio index).device
            (look (codes "audio" ∷ audio_key index ∷ codes "device" ∷ [])) (legal.device index),
        low,
        high,
      )

  audio_bounds :
      (index : AudioSource)
      → let c = get (expected_settings look d).audio index in
        (contains_byte 0 c.device ≡ false)
        × (minimum_gain ≤ℤ c.gain_decibels)
        × (c.gain_decibels ≤ℤ maximum_gain)
  unfolding expected_settings
  audio_bounds system = choice_bounds system
  audio_bounds microphone = choice_bounds microphone

  expected_settings-IsLegal : IsLegal (expected_settings look d)
  unfolding expected_settings
  expected_settings-IsLegal = record {
    directory =
        string_clean d.directory (look (codes "output" ∷ codes "directory" ∷ [])) legal.directory;
    rate =
        valid_or_cases (λ n. is_among n frame_rate_caps ≡ true) as_frame_rate d.max_frame_rate
          (look (codes "capture" ∷ codes "frameRate" ∷ [])) legal.rate as_frame_rate_offered;
    device = λ index. (audio_bounds index).0;
    low = λ index. (audio_bounds index).1;
    high = λ index. (audio_bounds index).2;
    screen =
        string_clean d.screen_token
          (look (codes "portal" ∷ codes "restoreTokens" ∷ codes "screen" ∷ [])) legal.screen;
    window =
        string_clean d.window_token
          (look (codes "portal" ∷ codes "restoreTokens" ∷ codes "window" ∷ [])) legal.window;
  }

reading-IsLegal :
    (j : Json) (content : Bytes) (defaults : Settings) (document : SettingsDocument)
    → IsLegal defaults
    → expected_reading j content defaults ≡ ok document
    → IsLegal document.settings
reading-IsLegal j content defaults document legal h = elim (Option-cases (j.parse content)) [
  | inl bad ↦ absurd (ground arith)
  | inr (root, parsed) ↦ elim (Bool-cases (as_object (j.kind root))) [
    | inl yes_object ↦
        let same : (expected_document (λ path. kind_at j path root) defaults) ≡ document =
          ground arith in
        subst (λ d. IsLegal d.settings) same
          (expected_settings-IsLegal (λ path. kind_at j path root) defaults legal)
    | inr other_kind ↦ absurd (ground arith)
  ]
]

-- Whatever a text holds, what is read of it over legal settings is legal: no text of the settings
-- has a NUL, the gains are between -30 and 20 decibels, and the frame rate is one of those offered.
pub read_settings_json-IsLegal :
    (j : Json) (content : Bytes) (defaults : Settings) (document : SettingsDocument)
    → IsLawful j
    → IsLegal defaults
    → read_settings_json j content defaults ≡ ok document
    → IsLegal document.settings
read_settings_json-IsLegal j content defaults document law legal h =
    reading-IsLegal j content defaults document legal
      (sym (read_settings_json-expected_reading j law content defaults) ∙ h)
