-- ===== src/Config/Writing/Legal.antt =====
-- src/config/private/settings_json.cpp: a file that holds legal settings is read as them.
use klip.Base.{
  Bool, true, false, Bytes, Option, some, List, [], ◌∷◌, ◌≡◌, refl, arith, ℤ, pos, negsuc, ◌≤ℤ◌,
  All,
}
use klip.Json.{Kind, leaf, text, boolean, unsigned, integer, object, stored_kind}
use klip.Encode.Format.{get_container_name, get_codec_name, all_containers, all_codecs}
use klip.Encode.Quality.{get_quality_name}
use klip.Recorder.Settings.{
  Settings, AudioSource, AudioChoice, system, microphone, get, minimum_gain, maximum_gain,
  frame_rate_caps,
}
use klip.Config.Document.{settings_version}
use klip.Config.Names.{get_source_name}
use klip.Config.Reading.{
  contains_byte, is_among, integer_in_range, as_object, as_bool, as_string, as_version,
  as_frame_rate,
}
use klip.Config.Schema.{
  named, all_qualities, all_sources, outcome, valid_or, is_some, rejected, rejected_among, joined,
  Place, places, expected_choice, invalid_paths, expected_settings, expected_document,
}
use klip.Config.Schema.Steps.{named-codec, named-container, named-quality, named-source}
use klip.Config.Schema.Sections.{Look}
use klip.Config.Writing.Values.{Holds}

-- Settings whose values the reader takes: no text holds a NUL, the gains and the frame rate are
-- those that are offered.
pub record IsLegal (s : Settings) : Type 0 where
  pub directory : contains_byte 0 s.directory ≡ false
  pub rate : is_among s.max_frame_rate frame_rate_caps ≡ true
  pub device : (index : AudioSource) → contains_byte 0 (get s.audio index).device ≡ false
  pub low : (index : AudioSource) → minimum_gain ≤ℤ (get s.audio index).gain_decibels
  pub high : (index : AudioSource) → (get s.audio index).gain_decibels ≤ℤ maximum_gain
  pub screen : contains_byte 0 s.screen_token ≡ false
  pub window : contains_byte 0 s.window_token ≡ false

-- The number that is read for a gain.
abbrev pub stored_gain : ℤ → Kind
stored_gain g = stored_kind (leaf (integer g))

integer_in_range-stored_gain :
    (g : ℤ)
    → minimum_gain ≤ℤ g
    → g ≤ℤ maximum_gain
    → integer_in_range minimum_gain maximum_gain (stored_gain g) ≡ some g
unfolding integer_in_range
integer_in_range-stored_gain (pos n) low high = ground arith
integer_in_range-stored_gain (negsuc n) low high = ground arith

valid_or-legal :
    {A : Type 0} (read : Kind → Option A) (fallback : A) {o : Option Kind} {k : Kind} {a : A}
    → o ≡ some k
    → read k ≡ some a
    → valid_or read fallback o ≡ a
valid_or-legal read fallback e legal = rw (e, valid_or) (rw legal refl)

rejected-legal :
    {A : Type 0} (read : Kind → Option A) (path : Bytes) {o : Option Kind} {k : Kind} {a : A}
    → o ≡ some k
    → read k ≡ some a
    → rejected (λ k. is_some (read k)) path o ≡ []
rejected-legal read path e legal = rw e (rw legal refl)

rejected_among_none :
    (ps : List Place) (look : Look)
    → All (λ p. rejected p.accepts (joined p.path) (look p.path) ≡ []) ps
    → rejected_among ps look ≡ []
rejected_among_none [] look h = refl
rejected_among_none (p ∷ ps) look h = rw h.0 (rejected_among_none ps look h.1)

module _ (look : Look) (s : Settings) (h : Holds look s stored_gain) (legal : IsLegal s) where
  gain_read :
      (index : AudioSource)
      → integer_in_range minimum_gain maximum_gain (stored_gain (get s.audio index).gain_decibels)
        ≡ some (get s.audio index).gain_decibels
  gain_read index = integer_in_range-stored_gain _ (legal.low index) (legal.high index)

  bool_read : (b : Bool) → as_bool (leaf (boolean b)) ≡ some b
  unfolding as_bool
  bool_read b = refl

  object_taken : (path : Bytes) {o : Option Kind} → o ≡ some object → rejected as_object path o ≡ []
  unfolding as_object
  object_taken path e = rw e refl

  string_read : (b : Bytes) → contains_byte 0 b ≡ false → as_string (leaf (text b)) ≡ some b
  unfolding as_string
  string_read b e = rw e refl

  choice_read :
      (index : AudioSource) (c : AudioChoice) → expected_choice look index c ≡ get s.audio index
  choice_read index c = λ i. record {
    enabled = valid_or-legal as_bool c.enabled (h.enabled index) (bool_read _) i;
    device =
        valid_or-legal as_string c.device (h.device index) (string_read _ (legal.device index)) i;
    gain_decibels =
        valid_or-legal (integer_in_range minimum_gain maximum_gain) c.gain_decibels (h.gain index)
          (gain_read index) i;
  }

  rate_read : as_frame_rate (leaf (unsigned s.max_frame_rate)) ≡ some s.max_frame_rate
  unfolding as_frame_rate
  rate_read = rw legal.rate refl

  expected_settings-Holds : (defaults : Settings) → expected_settings look defaults ≡ s
  unfolding expected_settings
  expected_settings-Holds d = λ i. record {
    directory = valid_or-legal as_string d.directory h.directory (string_read _ legal.directory) i;
    source =
        valid_or-legal (named get_source_name all_sources) d.source h.source (named-source s.source)
          i;
    remember_window = valid_or-legal as_bool d.remember_window h.remember (bool_read _) i;
    container =
        valid_or-legal (named get_container_name all_containers) d.container h.container
          (named-container s.container) i;
    codec =
        valid_or-legal (named get_codec_name all_codecs) d.codec h.codec (named-codec s.codec) i;
    quality =
        valid_or-legal (named get_quality_name all_qualities) d.quality h.quality
          (named-quality s.quality) i;
    max_frame_rate = valid_or-legal as_frame_rate d.max_frame_rate h.rate rate_read i;
    audio = record {
      of_system = choice_read system (get d.audio system) i;
      of_microphone = choice_read microphone (get d.audio microphone) i;
    };
    audio_quality =
        valid_or-legal (named get_quality_name all_qualities) d.audio_quality h.audio_quality
          (named-quality s.audio_quality) i;
    screen_token = valid_or-legal as_string d.screen_token h.screen (string_read _ legal.screen) i;
    window_token = valid_or-legal as_string d.window_token h.window (string_read _ legal.window) i;
  }

  version_read : as_version (leaf (unsigned settings_version)) ≡ some settings_version
  unfolding as_version
  version_read = refl

  invalid_paths-Holds : invalid_paths look ≡ []
  unfolding invalid_paths
  invalid_paths-Holds = rejected_among_none places look (
    rejected-legal as_version _ h.version version_read,
    (
      object_taken _ h.output,
      (
        rejected-legal as_string _ h.directory (string_read _ legal.directory),
        (
          rejected-legal (named get_container_name all_containers) _ h.container
              (named-container s.container),
          (
            rejected-legal (named get_codec_name all_codecs) _ h.codec (named-codec s.codec),
            (
              rejected-legal (named get_quality_name all_qualities) _ h.quality
                  (named-quality s.quality),
              (
                object_taken _ h.capture,
                (
                  rejected-legal (named get_source_name all_sources) _ h.source
                      (named-source s.source),
                  (
                    rejected-legal as_bool _ h.remember (bool_read _),
                    (
                      rejected-legal as_frame_rate _ h.rate rate_read,
                      (
                        object_taken _ h.audio,
                        (
                          object_taken _ (h.choice system),
                          (
                            rejected-legal as_bool _ (h.enabled system) (bool_read _),
                            (
                              rejected-legal as_string _ (h.device system)
                                  (string_read _ (legal.device system)),
                              (
                                rejected-legal (integer_in_range minimum_gain maximum_gain) _
                                    (h.gain system) (gain_read system),
                                (
                                  object_taken _ (h.choice microphone),
                                  (
                                    rejected-legal as_bool _ (h.enabled microphone) (bool_read _),
                                    (
                                      rejected-legal as_string _ (h.device microphone)
                                          (string_read _ (legal.device microphone)),
                                      (
                                        rejected-legal (integer_in_range minimum_gain maximum_gain)
                                            _ (h.gain microphone) (gain_read microphone),
                                        (
                                          rejected-legal (named get_quality_name all_qualities) _
                                              h.audio_quality (named-quality s.audio_quality),
                                          (
                                            object_taken _ h.portal,
                                            (
                                              object_taken _ h.tokens,
                                              (
                                                rejected-legal as_string _ h.screen
                                                    (string_read _ legal.screen),
                                                (
                                                  rejected-legal as_string _ h.window
                                                      (string_read _ legal.window),
                                                  tt,
                                                ),
                                              ),
                                            ),
                                          ),
                                        ),
                                      ),
                                    ),
                                  ),
                                ),
                              ),
                            ),
                          ),
                        ),
                      ),
                    ),
                  ),
                ),
              ),
            ),
          ),
        ),
      ),
    ),
  )

  -- A file that holds legal settings is read as them, with nothing rejected.
  pub expected_document-Holds :
      (defaults : Settings) → expected_document look defaults ≡ outcome settings_version s []
  expected_document-Holds defaults = λ i.
      outcome (valid_or-legal as_version settings_version h.version version_read i)
        (expected_settings-Holds defaults i) (invalid_paths-Holds i)
