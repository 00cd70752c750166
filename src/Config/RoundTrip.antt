-- ===== src/Config/RoundTrip.antt =====
-- src/config/private/settings_json.cpp: `WriteSettingsJson` and `ReadSettingsJson` back to back.
pub mod Utf8
use mathlib.Core.Option
use klip.Base.{
  ℕ, ◌<◌, Bool, true, false, Bytes, codes, Option, none, some, List, [], ◌∷◌, ◌++◌, ◌≡◌, refl, ◌∙◌,
  sym, ap, arith, equal, ℤ, All, Option-cases, Bool-cases, inl, inr, if◌then◌else◌,
}
use klip.Json.{
  Json, IsLawful, Kind, Leaf, leaf, text, boolean, unsigned, integer, object, kind_at, stored_kind,
  newline, Rereads, Stores,
}
use klip.Encode.Format.{Container, mp4, Codec, h264, get_container_name, get_codec_name}
use klip.Encode.Quality.{Quality, smallest, get_quality_name}
use klip.Recorder.Settings.{Settings, Source, screen, AudioSource, system, microphone, get}
use klip.Config.Document.{settings_version, Expected, ok}
use klip.Config.Names.{get_source_name, audio_key}
use klip.Config.Reading.{as_object, read_settings_json}
use klip.Config.Schema.{outcome, expected_document}
use klip.Config.Schema.Sections.{Look}
use klip.Config.Schema.Whole.{read_document-expected_document}
use klip.Config.Writing.{
  version_entries, output_entries, capture_entries, choice_entries, audio_entries, token_entries,
  get_section, assign_all, in_section, write_audio, write_document, write_settings_json, parse_kept,
}
use klip.Config.Writing.Places.{parse_kept-object}
use klip.Config.Writing.Values.{Holds, write_document-Holds}
use klip.Config.Writing.Kept.{is_written, write_document-object}
use klip.Config.Writing.Survival.{write_document-kept}
use klip.Config.RoundTrip.Utf8.{HasUtf8, parse_kept-IsUtf8, write_document-IsUtf8}
use klip.Config.Writing.Legal.{IsLegal, stored_gain, expected_document-Holds}

-- A file that is printed and parsed again holds the same, the gains as the parser reads them.
module _ (look again : Look) (s : Settings)
    (same : (path : List Bytes) → again path ≡ Option.map stored_kind (look path))
    (h : Holds look s (λ g. leaf (integer g))) where
  kept : (path : List Bytes) {k : Kind} → look path ≡ some k → again path ≡ some (stored_kind k)
  kept path e = same path ∙ ap (Option.map stored_kind) e

  Holds-again : Holds again s stored_gain
  Holds-again = record {
    version = kept _ h.version;
    output = kept _ h.output;
    directory = kept _ h.directory;
    container = kept _ h.container;
    codec = kept _ h.codec;
    quality = kept _ h.quality;
    capture = kept _ h.capture;
    source = kept _ h.source;
    remember = kept _ h.remember;
    rate = kept _ h.rate;
    audio = kept _ h.audio;
    choice = λ index. kept _ (h.choice index);
    enabled = λ index. kept _ (h.enabled index);
    device = λ index. kept _ (h.device index);
    gain = λ index. kept _ (h.gain index);
    audio_quality = kept _ h.audio_quality;
    portal = kept _ h.portal;
    tokens = kept _ h.tokens;
    screen = kept _ h.screen;
    window = kept _ h.window;
  }

pub some_injective : {A : Type 0} {a b : A} → some a ≡ some b → a ≡ b
some_injective e = cc

parse_kept-some :
    (j : Json) (old : Bytes) (root : j.Value)
    → j.parse old ≡ some root
    → j.kind root ≡ object
    → parse_kept j old ≡ root
unfolding parse_kept as_object
parse_kept-some j old root parsed obj = rw (parsed, parse_kept) (rw obj refl)

module _ (j : Json) (law : IsLawful j) where
  pub read_object :
      (content : Bytes) (w : j.Value) (defaults : Settings)
      → j.parse content ≡ some w
      → j.kind w ≡ object
      → read_settings_json j content defaults ≡ ok (expected_document (λ p. kind_at j p w) defaults)
  unfolding read_settings_json as_object
  read_object content w defaults parsed obj =
      rw (parsed, read_settings_json)
        (rw obj (ap ok (read_document-expected_document j law w defaults)))

  -- Settings that are legal and whose texts are UTF-8 are read back as they were written, whatever
  -- the file held before and whatever the defaults are: nothing is rejected, and the version is
  -- this one's.
  pub read_settings_json-write_settings_json :
      (s defaults : Settings) (old : Bytes)
      → IsLegal s
      → HasUtf8 j s
      → read_settings_json j (write_settings_json j s old) defaults
        ≡ ok (outcome settings_version s [])
  unfolding write_settings_json
  read_settings_json-write_settings_json s defaults old legal texts =
      let root : j.Value = parse_kept j old in
      let root-object = parse_kept-object j law old in
      let (w, parsed, same) =
        law.parse-print (write_document j s root)
          (write_document-IsUtf8 j law s texts root (parse_kept-IsUtf8 j law old)) in
      let h =
        Holds-again (λ p. kind_at j p (write_document j s root)) (λ p. kind_at j p w) s same
          (write_document-Holds j law s root root-object) in
      let w-object = some_injective (
        same []
        ∙ ap (λ k. some (stored_kind k)) (write_document-object j law s root root-object)) in
      read_object _ w defaults parsed w-object
      ∙ ap ok (expected_document-Holds (λ p. kind_at j p w) s h legal defaults)

  -- What this Klip does not know of a file survives a save: at every path that it does not write,
  -- inside its sections or beside them, the new text holds what the old one held, an array or a
  -- float with what is printed of it, except that a number that is not negative is unsigned.
  pub write_settings_json-kept :
      (s : Settings) (old : Bytes) (root : j.Value) (path : List Bytes)
      → HasUtf8 j s
      → j.parse old ≡ some root
      → j.kind root ≡ object
      → is_written path ≡ false
      → (w : j.Value) × (j.parse (write_settings_json j s old) ≡ some w)
        × (kind_at j path w ≡ Option.map stored_kind (kind_at j path root))
  unfolding write_settings_json
  write_settings_json-kept s old root path texts parsed obj unknown =
      let (w, again, same) =
        law.parse-print (write_document j s (parse_kept j old))
          (write_document-IsUtf8 j law s texts (parse_kept j old) (parse_kept-IsUtf8 j law old)) in
      let taken = parse_kept-some j old root parsed obj in
      (
        w,
        again,
        same path
            ∙ ap (λ r. Option.map stored_kind (kind_at j path (write_document j s r))) taken
            ∙ ap (Option.map stored_kind) (write_document-kept j law s root obj path unknown),
      )
