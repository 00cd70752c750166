-- ===== src/Config/Writing/Kept.antt =====
-- What `WriteSettingsJson` of src/config/private/settings_json.cpp leaves as the file had it.
use klip.Base.{
  Bool, true, false, Bytes, codes, none, List, [], ◌∷◌, ◌≡◌, refl, ◌∙◌, arith, equal, if◌then◌else◌,
  ◌||◌, map,
}
use klip.Json.{Json, IsLawful, Leaf, object, kind_at}
use klip.Recorder.Settings.{Settings}
use klip.Config.Writing.{
  version_entries, output_entries, capture_entries, token_entries, get_section, assign_all,
  in_section, write_audio, write_document,
}
use klip.Config.Writing.Places.{
  last_entry, held, kind_at-get_section, assign_all-object, kind_at-assign_all, in_section-object,
  kind_at-in_section,
}

abbrev pub is_key : Bytes → List Bytes → Bool
is_key i [] = false
is_key i (k ∷ keys) = equal k i || is_key i keys

pub last_entry-none :
    (i : Bytes) (entries : List (Bytes × Leaf))
    → is_key i (map (λ e. e.0) entries) ≡ false
    → last_entry i entries ≡ none
last_entry-none i [] h = refl
last_entry-none i ((k, l) ∷ entries) h = ground (arith, last_entry-none i entries)

abbrev pub has_key : List Bytes → List Bytes → Bool
has_key [] keys = true
has_key (i ∷ path) keys = is_key i keys

abbrev pub is_written_token : Bytes → List Bytes → Bool
is_written_token k path =
    if equal (codes "restoreTokens") k
    then has_key path (codes "screen" ∷ codes "window" ∷ [])
    else false

abbrev pub is_written_choice : Bytes → List Bytes → Bool
is_written_choice k path =
    let keys : List Bytes = codes "enabled" ∷ codes "device" ∷ codes "gain" ∷ [] in
    if equal (codes "quality") k
    then true
    else if equal (codes "microphone") k
    then has_key path keys
    else if equal (codes "system") k
    then has_key path keys
    else false

abbrev pub is_written_in : Bytes → Bytes → List Bytes → Bool
is_written_in i k path =
    if equal (codes "portal") i
    then is_written_token k path
    else if equal (codes "audio") i
    then is_written_choice k path
    else if equal (codes "capture") i
    then is_key k (codes "source" ∷ codes "frameRate" ∷ codes "rememberWindow" ∷ [])
    else if equal (codes "output") i
    then is_key k (codes "directory" ∷ codes "container" ∷ codes "codec" ∷ codes "quality" ∷ [])
    else is_key i (codes "version" ∷ [])

-- The paths of the values and the sections that are written, and what lies below such a value.
abbrev pub is_written : List Bytes → Bool
is_written [] = true
is_written (i ∷ []) =
    is_key i
      (codes "portal" ∷ codes "audio" ∷ codes "capture" ∷ codes "output" ∷ codes "version" ∷ [])
is_written (i ∷ k ∷ path) = is_written_in i k path

module _ (j : Json) (law : IsLawful j) (s : Settings) (root : j.Value)
    (obj : j.kind root ≡ object) where
  abbrev pub with_version : j.Value
  with_version = assign_all j version_entries root

  abbrev pub with_output : j.Value
  with_output = in_section j (codes "output") (assign_all j (output_entries s)) with_version

  abbrev pub with_capture : j.Value
  with_capture = in_section j (codes "capture") (assign_all j (capture_entries s)) with_output

  abbrev pub with_audio : j.Value
  with_audio = in_section j (codes "audio") (write_audio j s) with_capture

  pub with_version-object : j.kind with_version ≡ object
  with_version-object = assign_all-object j law version_entries root obj

  pub with_output-object : j.kind with_output ≡ object
  with_output-object = in_section-object j law (codes "output") _ _ with_version-object

  pub with_capture-object : j.kind with_capture ≡ object
  with_capture-object = in_section-object j law (codes "capture") _ _ with_output-object

  pub with_audio-object : j.kind with_audio ≡ object
  with_audio-object = in_section-object j law (codes "audio") _ _ with_capture-object

  pub write_document-object : j.kind (write_document j s root) ≡ object
  unfolding write_document
  write_document-object =
      in_section-object j law (codes "portal")
        (in_section j (codes "restoreTokens") (assign_all j (token_entries s))) with_audio
        with_audio-object

  -- Each section is made in what the sections before it left.
  pub kind_at-write_document :
      (i : Bytes) (path : List Bytes)
      → kind_at j (i ∷ path) (write_document j s root) ≡ (
          if equal (codes "portal") i
          then kind_at j path (
              in_section j
                (codes "restoreTokens")
                (assign_all j (token_entries s))
                (get_section j with_audio (codes "portal")))
          else if equal (codes "audio") i
          then kind_at j path (write_audio j s (get_section j with_capture (codes "audio")))
          else if equal (codes "capture") i
          then kind_at j path
              (assign_all j (capture_entries s) (get_section j with_output (codes "capture")))
          else if equal (codes "output") i
          then kind_at j path
              (assign_all j (output_entries s) (get_section j with_version (codes "output")))
          else held j law (last_entry i version_entries) path (kind_at j (i ∷ path) root))
  unfolding write_document
  kind_at-write_document i path =
      rw
        (kind_at-in_section j law (codes "portal")
          (in_section j (codes "restoreTokens") (assign_all j (token_entries s))) with_audio i path
          with_audio-object)
        (rw
          (kind_at-in_section j law (codes "audio") (write_audio j s) with_capture i path
            with_capture-object)
          (rw
            (kind_at-in_section j law (codes "capture") (assign_all j (capture_entries s))
              with_output i path with_output-object)
            (rw
              (kind_at-in_section j law (codes "output") (assign_all j (output_entries s))
                with_version i path with_version-object)
              (rw (kind_at-assign_all j law version_entries root i path obj) refl))))

  -- What a section held before it is written is what the file had there.
  pub kind_at-old_portal :
      (i : Bytes) (path : List Bytes)
      → kind_at j (i ∷ path) (get_section j with_audio (codes "portal"))
        ≡ kind_at j (codes "portal" ∷ i ∷ path) root
  unfolding equal
  kind_at-old_portal i path =
      let p : List Bytes = i ∷ path in
      let k : Bytes = codes "portal" in
      kind_at-get_section j law with_audio k i path
      ∙ kind_at-in_section j law (codes "audio") (write_audio j s) with_capture k p
          with_capture-object
      ∙ kind_at-in_section j law (codes "capture") (assign_all j (capture_entries s)) with_output k
          p with_output-object
      ∙ kind_at-in_section j law (codes "output") (assign_all j (output_entries s)) with_version k p
          with_version-object
      ∙ kind_at-assign_all j law version_entries root k p obj

  pub kind_at-old_audio :
      (i : Bytes) (path : List Bytes)
      → kind_at j (i ∷ path) (get_section j with_capture (codes "audio"))
        ≡ kind_at j (codes "audio" ∷ i ∷ path) root
  unfolding equal
  kind_at-old_audio i path =
      let p : List Bytes = i ∷ path in
      let k : Bytes = codes "audio" in
      kind_at-get_section j law with_capture k i path
      ∙ kind_at-in_section j law (codes "capture") (assign_all j (capture_entries s)) with_output k
          p with_output-object
      ∙ kind_at-in_section j law (codes "output") (assign_all j (output_entries s)) with_version k p
          with_version-object
      ∙ kind_at-assign_all j law version_entries root k p obj

  pub kind_at-old_capture :
      (i : Bytes) (path : List Bytes)
      → kind_at j (i ∷ path) (get_section j with_output (codes "capture"))
        ≡ kind_at j (codes "capture" ∷ i ∷ path) root
  unfolding equal
  kind_at-old_capture i path =
      let p : List Bytes = i ∷ path in
      let k : Bytes = codes "capture" in
      kind_at-get_section j law with_output k i path
      ∙ kind_at-in_section j law (codes "output") (assign_all j (output_entries s)) with_version k p
          with_version-object
      ∙ kind_at-assign_all j law version_entries root k p obj

  pub kind_at-old_output :
      (i : Bytes) (path : List Bytes)
      → kind_at j (i ∷ path) (get_section j with_version (codes "output"))
        ≡ kind_at j (codes "output" ∷ i ∷ path) root
  unfolding equal
  kind_at-old_output i path =
      let p : List Bytes = i ∷ path in
      kind_at-get_section j law with_version (codes "output") i path
      ∙ kind_at-assign_all j law version_entries root (codes "output") p obj
