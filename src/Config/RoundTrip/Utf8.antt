-- ===== src/Config/RoundTrip/Utf8.antt =====
-- src/config/private/settings_json.cpp: the value that is written holds only UTF-8, if the
-- settings do.
use klip.Base.{
  ◌<◌, true, Bytes, codes, List, [], ◌∷◌, ◌≡◌, arith, All, Option-cases, Bool-cases, inl, inr,
}
use klip.Json.{Json, IsLawful, Leaf, text}
use klip.Encode.Format.{Container, mp4, Codec, h264, get_container_name, get_codec_name}
use klip.Encode.Quality.{Quality, smallest, get_quality_name}
use klip.Recorder.Settings.{Settings, Source, screen, AudioSource, system, microphone, get}
use klip.Config.Names.{get_source_name}
use klip.Config.Reading.{as_object}
use klip.Config.Writing.{
  version_entries, output_entries, capture_entries, choice_entries, audio_entries, token_entries,
  get_section, assign_all, in_section, write_audio, write_document, parse_kept,
}

-- The texts that a user can choose are UTF-8.
pub record HasUtf8 (j : Json) (s : Settings) : Type 0 where
  pub directory : j.utf8 s.directory ≡ true
  pub device : (index : AudioSource) → j.utf8 (get s.audio index).device ≡ true
  pub screen : j.utf8 s.screen_token ≡ true
  pub window : j.utf8 s.window_token ≡ true

abbrev IsAscii : Bytes → Type 0
IsAscii b = All (λ c. c < 128) b

get_codec_name-IsAscii : (c : Codec) → IsAscii (get_codec_name c)
unfolding get_codec_name
get_codec_name-IsAscii h264 = omega arith
get_codec_name-IsAscii _ = omega arith

get_container_name-IsAscii : (c : Container) → IsAscii (get_container_name c)
unfolding get_container_name
get_container_name-IsAscii mp4 = omega arith
get_container_name-IsAscii _ = omega arith

get_quality_name-IsAscii : (q : Quality) → IsAscii (get_quality_name q)
unfolding get_quality_name
get_quality_name-IsAscii smallest = omega arith
get_quality_name-IsAscii _ = omega arith

get_source_name-IsAscii : (s : Source) → IsAscii (get_source_name s)
unfolding get_source_name
get_source_name-IsAscii screen = omega arith
get_source_name-IsAscii _ = omega arith

module _ (j : Json) (law : IsLawful j) where
  -- A leaf of the model is UTF-8 if its text is.
  abbrev HasUtf8Leaf : Leaf → Type 0
  HasUtf8Leaf l = (b : Bytes) → l ≡ text b → j.utf8 b ≡ true

  text_HasUtf8Leaf : (b : Bytes) → j.utf8 b ≡ true → HasUtf8Leaf (text b)
  text_HasUtf8Leaf b h c e = cc

  assign_all-IsUtf8 :
      (entries : List (Bytes × Leaf)) (v : j.Value)
      → law.IsUtf8 v
      → All (λ e. IsAscii e.0 × HasUtf8Leaf e.1) entries
      → law.IsUtf8 (assign_all j entries v)
  unfolding assign_all
  assign_all-IsUtf8 [] v h k = h
  assign_all-IsUtf8 ((key, l) ∷ entries) v h k =
      assign_all-IsUtf8 entries (j.assign v key (j.make l))
        (law.assign-IsUtf8 v (j.make l) key h (law.make-IsUtf8 l k.0.1) (law.utf8_ascii key k.0.0))
        k.1

  get_section-IsUtf8 : (v : j.Value) (key : Bytes) → law.IsUtf8 v → law.IsUtf8 (get_section j v key)
  unfolding get_section
  get_section-IsUtf8 v key h = elim (Option-cases (j.find v key)) [
    | inl absent ↦ rw (absent, get_section) law.empty-IsUtf8
    | inr (w, found) ↦ elim (Bool-cases (as_object (j.kind w))) [
      | inl yes_object ↦ rw (found, yes_object, get_section) (law.find-IsUtf8 v w key h found)
      | inr other ↦ rw (found, other, get_section) law.empty-IsUtf8
    ]
  ]

  pub parse_kept-IsUtf8 : (kept : Bytes) → law.IsUtf8 (parse_kept j kept)
  unfolding parse_kept
  parse_kept-IsUtf8 kept = elim (Option-cases (j.parse kept)) [
    | inl bad ↦ rw (bad, parse_kept) law.empty-IsUtf8
    | inr (w, parsed) ↦ elim (Bool-cases (as_object (j.kind w))) [
      | inl yes_object ↦ rw (parsed, yes_object, parse_kept) (law.parse-IsUtf8 kept w parsed)
      | inr other ↦ rw (parsed, other, parse_kept) law.empty-IsUtf8
    ]
  ]

  in_section-IsUtf8 :
      (key : Bytes) (change : j.Value → j.Value) (v : j.Value)
      → ((w : j.Value) → law.IsUtf8 w → law.IsUtf8 (change w))
      → IsAscii key
      → law.IsUtf8 v
      → law.IsUtf8 (in_section j key change v)
  unfolding in_section
  in_section-IsUtf8 key change v keep ascii h =
      law.assign-IsUtf8 v _ key h (keep _ (get_section-IsUtf8 v key h)) (law.utf8_ascii key ascii)

  module _ (s : Settings) (texts : HasUtf8 j s) where
    name_leaf : (b : Bytes) → IsAscii b → HasUtf8Leaf (text b)
    name_leaf b ascii = text_HasUtf8Leaf b (law.utf8_ascii b ascii)

    output-IsUtf8 : (v : j.Value) → law.IsUtf8 v → law.IsUtf8 (assign_all j (output_entries s) v)
    output-IsUtf8 v h = assign_all-IsUtf8 (output_entries s) v h (
      (omega arith, text_HasUtf8Leaf _ texts.directory),
      (
        (omega arith, name_leaf _ (get_container_name-IsAscii s.container)),
        (
          (omega arith, name_leaf _ (get_codec_name-IsAscii s.codec)),
          ((omega arith, name_leaf _ (get_quality_name-IsAscii s.quality)), tt),
        ),
      ),
    )

    capture-IsUtf8 : (v : j.Value) → law.IsUtf8 v → law.IsUtf8 (assign_all j (capture_entries s) v)
    capture-IsUtf8 v h = assign_all-IsUtf8 (capture_entries s) v h (
      (omega arith, name_leaf _ (get_source_name-IsAscii s.source)),
      ((omega arith, λ b e. cc), ((omega arith, λ b e. cc), tt)),
    )

    choice-IsUtf8 :
        (index : AudioSource) (v : j.Value)
        → law.IsUtf8 v
        → law.IsUtf8 (assign_all j (choice_entries s index) v)
    choice-IsUtf8 index v h = assign_all-IsUtf8 (choice_entries s index) v h (
      (omega arith, λ b e. cc),
      ((omega arith, text_HasUtf8Leaf _ (texts.device index)), ((omega arith, λ b e. cc), tt)),
    )

    tokens-IsUtf8 : (v : j.Value) → law.IsUtf8 v → law.IsUtf8 (assign_all j (token_entries s) v)
    tokens-IsUtf8 v h = assign_all-IsUtf8 (token_entries s) v h (
      (omega arith, text_HasUtf8Leaf _ texts.screen),
      ((omega arith, text_HasUtf8Leaf _ texts.window), tt),
    )

    audio-IsUtf8 : (v : j.Value) → law.IsUtf8 v → law.IsUtf8 (write_audio j s v)
    unfolding write_audio
    audio-IsUtf8 v h =
        assign_all-IsUtf8 (audio_entries s) _
          (in_section-IsUtf8 (codes "microphone") (assign_all j (choice_entries s microphone)) _
            (choice-IsUtf8 microphone) (omega arith)
            (in_section-IsUtf8 (codes "system") (assign_all j (choice_entries s system)) v
              (choice-IsUtf8 system) (omega arith) h))
          ((omega arith, name_leaf _ (get_quality_name-IsAscii s.audio_quality)), tt)

    pub write_document-IsUtf8 :
        (root : j.Value) → law.IsUtf8 root → law.IsUtf8 (write_document j s root)
    unfolding write_document
    write_document-IsUtf8 root h =
        in_section-IsUtf8 (codes "portal")
          (in_section j (codes "restoreTokens") (assign_all j (token_entries s))) _
          (λ w k.
            in_section-IsUtf8 (codes "restoreTokens") (assign_all j (token_entries s)) w
              tokens-IsUtf8 (omega arith) k)
          (omega arith)
          (in_section-IsUtf8 (codes "audio") (write_audio j s) _ audio-IsUtf8 (omega arith) (
            in_section-IsUtf8 (codes "capture") (assign_all j (capture_entries s)) _ capture-IsUtf8
              (omega arith)
              (in_section-IsUtf8 (codes "output") (assign_all j (output_entries s)) _ output-IsUtf8
                (omega arith)
                (assign_all-IsUtf8 version_entries root h ((omega arith, λ b e. cc), tt)))))
