-- ===== src/Config/Schema/Whole.antt =====
-- `ReadDocument` and `ReadSettingsJson` of src/config/private/settings_json.cpp against the
-- description by paths.
use klip.Base.{
  Bytes, codes, List, [], ◌++◌, ◌≡◌, refl, ◌∙◌, ap, inl, inr, Option-cases, append_assoc,
  append-nil,
}
use klip.Json.{Json, IsLawful, kind_at}
use klip.Recorder.Settings.{Settings}
use klip.Config.Reading.{as_version, read_value, read_document, read_settings_json, fresh_document}
use klip.Config.Schema.{
  valid_or, outcome, invalid_paths, expected_settings, expected_version, expected_document,
  expected_reading,
}
use klip.Config.Schema.Steps.{reject-outcome}
use klip.Config.Schema.Sections.{Look, then_effect}
use klip.Config.Schema.Parts.{rejected_in, output_invalid, capture_invalid}
use klip.Config.Schema.Found.{
  below, rejected_section, audio_invalid, portal_invalid, output_found, capture_found, audio_found,
  portal_found,
}

-- The rejected paths of the sections one after the other are those of the table.
sections_flat :
    (look : Look)
    → rejected_in [] as_version (codes "version") look
        ++ ((((rejected_section [] (codes "output") look
                  ++ output_invalid (below (codes "output") look))
                ++ (rejected_section [] (codes "capture") look
                    ++ capture_invalid (below (codes "capture") look)))
              ++ (rejected_section [] (codes "audio") look
                  ++ audio_invalid (below (codes "audio") look)))
            ++ (rejected_section [] (codes "portal") look
                ++ portal_invalid (below (codes "portal") look)))
      ≡ invalid_paths look
unfolding invalid_paths
sections_flat look = simp (append_assoc, append-nil)

module _ (j : Json) (law : IsLawful j) where
  version_read :
      (root : j.Value) (s : Settings)
      → let look : Look = λ p. kind_at j p root in
        read_value j root []
          (codes "version")
          as_version
          (λ n d. record d { version = n })
          (fresh_document j s)
        ≡ outcome (expected_version look) s (rejected_in [] as_version (codes "version") look)
  unfolding read_value
  version_read root s = elim (Option-cases (j.find root (codes "version"))) [
    | inl absent ↦ rw (absent, read_value, kind_at) refl
    | inr (v, found) ↦ elim (Option-cases (as_version (j.kind v))) [
      | inl illegal ↦
          rw (found, read_value, kind_at)
            (rw (illegal, valid_or) (reject-outcome 1 s [] (codes "version")))
      | inr (a, legal) ↦ rw (found, read_value, kind_at) (rw (legal, valid_or) refl)
    ]
  ]

  pub read_document-expected_document :
      (root : j.Value) (defaults : Settings)
      → read_document j root (fresh_document j defaults)
        ≡ expected_document (λ p. kind_at j p root) defaults
  unfolding read_document expected_settings
  read_document-expected_document root defaults =
      let look : Look = λ p. kind_at j p root in
      let first : List Bytes = rejected_in [] as_version (codes "version") look in
      let sections =
        then_effect
          (then_effect (then_effect (output_found j law root) (capture_found j law root))
            (audio_found j law root))
          (portal_found j law root) in
      rw (version_read root defaults) (
        sections.on (expected_version look) defaults first
        ∙ ap (outcome (expected_version look) (expected_settings look defaults))
            (sections_flat look))

  -- What is read of a text is what its values say by their paths: a text that is not JSON, or not
  -- an object, fails; of an object each setting is the legal value at its path, or the default where
  -- none stands there, and the paths of the values that are not legal are counted in order, the
  -- first of them being kept.
  pub read_settings_json-expected_reading :
      (content : Bytes) (defaults : Settings)
      → read_settings_json j content defaults ≡ expected_reading j content defaults
  unfolding read_settings_json
  read_settings_json-expected_reading content defaults = elim (Option-cases (j.parse content)) [
    | inl bad ↦ rw (bad, read_settings_json, expected_reading) refl
    | inr (root, parsed) ↦
        rw (parsed, read_settings_json, expected_reading)
          (rw (read_document-expected_document root defaults) refl)
  ]
