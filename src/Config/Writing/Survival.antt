-- ===== src/Config/Writing/Survival.antt =====
-- src/config/private/settings_json.cpp: the keys of the file that this Klip does not know.
use klip.Base.{
  true, false, Bytes, codes, List, [], ◌∷◌, ◌≡◌, refl, ◌∙◌, ap, arith, equal, equal_iff,
  if◌then◌else◌, Bool-cases, inl, inr, map,
}
use klip.Json.{Json, IsLawful, Leaf, object, kind_at}
use klip.Recorder.Settings.{Settings, system, microphone}
use klip.Config.Writing.{
  version_entries, output_entries, capture_entries, choice_entries, audio_entries, token_entries,
  get_section, assign_all, in_section, write_audio, write_document,
}
use klip.Config.Writing.Places.{
  last_entry, held, get_section-object, kind_at-get_section, kind_at-assign_all, in_section-object,
  kind_at-in_section,
}
use klip.Config.Writing.Kept.{
  last_entry-none, is_written_token, is_written_choice, is_written, has_key, with_version,
  with_output, with_capture, with_audio, kind_at-write_document, kind_at-old_portal,
  kind_at-old_audio, kind_at-old_capture, kind_at-old_output,
}

module _ (j : Json) (law : IsLawful j) (s : Settings) where
  abbrev pub with_system : j.Value → j.Value
  with_system = in_section j (codes "system") (assign_all j (choice_entries s system))

  abbrev pub with_choices : j.Value → j.Value
  with_choices a =
      in_section j (codes "microphone") (assign_all j (choice_entries s microphone)) (with_system a)

  pub kind_at-write_audio :
      (a : j.Value) (i : Bytes) (path : List Bytes)
      → j.kind a ≡ object
      → kind_at j (i ∷ path) (write_audio j s a)
        ≡ held j law (last_entry i (audio_entries s)) path (
            if equal (codes "microphone") i
            then kind_at j path (
                assign_all j
                  (choice_entries s microphone)
                  (get_section j (with_system a) (codes "microphone")))
            else if equal (codes "system") i
            then kind_at j path
                (assign_all j (choice_entries s system) (get_section j a (codes "system")))
            else kind_at j (i ∷ path) a)
  unfolding write_audio
  kind_at-write_audio a i path obj =
      let with_system-object =
        in_section-object j law (codes "system") (assign_all j (choice_entries s system)) a obj in
      rw
        (kind_at-assign_all j law (audio_entries s) (with_choices a) i path (
          in_section-object j law (codes "microphone") (assign_all j (choice_entries s microphone))
            (with_system a) with_system-object))
        (rw
          (kind_at-in_section j law (codes "microphone")
            (assign_all j (choice_entries s microphone)) (with_system a) i path with_system-object)
          (rw
            (kind_at-in_section j law (codes "system") (assign_all j (choice_entries s system)) a i
              path obj)
            refl))

  pub kind_at-old_microphone :
      (a : j.Value) (i : Bytes) (path : List Bytes)
      → j.kind a ≡ object
      → kind_at j (i ∷ path) (get_section j (with_system a) (codes "microphone"))
        ≡ kind_at j (codes "microphone" ∷ i ∷ path) a
  unfolding equal
  kind_at-old_microphone a i path obj =
      kind_at-get_section j law (with_system a) (codes "microphone") i path
      ∙ kind_at-in_section j law (codes "system") (assign_all j (choice_entries s system)) a
          (codes "microphone") (i ∷ path) obj

  at_key :
      (key k : Bytes) (path : List Bytes) (v : j.Value)
      → equal key k ≡ true
      → kind_at j (key ∷ path) v ≡ kind_at j (k ∷ path) v
  at_key key k path v same = ap (λ i. kind_at j (i ∷ path) v) ((equal_iff key k).0 same)

  -- A section of which no written key is asked.
  section_kept :
      (entries : List (Bytes × Leaf)) (v w : j.Value) (key : Bytes) (path : List Bytes)
      → ((i : Bytes) (path : List Bytes)
          → kind_at j (i ∷ path) (get_section j v key) ≡ kind_at j (key ∷ i ∷ path) w)
      → has_key path (map (λ e. e.0) entries) ≡ false
      → kind_at j path (assign_all j entries (get_section j v key)) ≡ kind_at j (key ∷ path) w
  section_kept entries v w key [] old h = absurd (ground arith)
  section_kept entries v w key (i ∷ path) old h =
      kind_at-assign_all j law entries (get_section j v key) i path (get_section-object j law v key)
      ∙ rw (last_entry-none i entries h) (old i path)

  audio_kept :
      (a : j.Value) (k : Bytes) (path : List Bytes)
      → j.kind a ≡ object
      → is_written_choice k path ≡ false
      → kind_at j (k ∷ path) (write_audio j s a) ≡ kind_at j (k ∷ path) a
  audio_kept a k path obj h =
      kind_at-write_audio a k path obj ∙ elim (Bool-cases (equal (codes "quality") k)) [
        | inl quality ↦ absurd (ground arith)
        | inr other ↦ rw other (elim (Bool-cases (equal (codes "microphone") k)) [
          | inl mic ↦ rw mic (
              section_kept (choice_entries s microphone) (with_system a) a (codes "microphone") path
                (λ i p. kind_at-old_microphone a i p obj) (ground arith)
              ∙ at_key (codes "microphone") k path a mic)
          | inr other' ↦ rw other' (elim (Bool-cases (equal (codes "system") k)) [
            | inl sys ↦ rw sys (
                section_kept (choice_entries s system) a a (codes "system") path
                  (λ i p. kind_at-get_section j law a (codes "system") i p) (ground arith)
                ∙ at_key (codes "system") k path a sys)
            | inr other'' ↦ rw other'' refl
          ])
        ])
      ]

  tokens_kept :
      (portal : j.Value) (k : Bytes) (path : List Bytes)
      → j.kind portal ≡ object
      → is_written_token k path ≡ false
      → kind_at j
          (k ∷ path)
          (in_section j (codes "restoreTokens") (assign_all j (token_entries s)) portal)
        ≡ kind_at j (k ∷ path) portal
  tokens_kept portal k path obj h =
      kind_at-in_section j law (codes "restoreTokens") (assign_all j (token_entries s)) portal k
        path obj
      ∙ elim (Bool-cases (equal (codes "restoreTokens") k)) [
        | inr other ↦ rw other refl
        | inl tokens ↦ rw tokens (
            section_kept (token_entries s) portal portal (codes "restoreTokens") path
              (λ i p. kind_at-get_section j law portal (codes "restoreTokens") i p) (ground arith)
            ∙ at_key (codes "restoreTokens") k path portal tokens)
      ]

  module _ (root : j.Value) (obj : j.kind root ≡ object) where
    below_kept :
        (i k : Bytes) (path : List Bytes)
        → is_written (i ∷ k ∷ path) ≡ false
        → kind_at j (i ∷ k ∷ path) (write_document j s root) ≡ kind_at j (i ∷ k ∷ path) root
    below_kept i k path h =
        kind_at-write_document j law s root obj i (k ∷ path)
        ∙ elim (Bool-cases (equal (codes "portal") i)) [
          | inl portal ↦ rw portal (
              tokens_kept (get_section j (with_audio j law s root obj) (codes "portal")) k path
                (get_section-object j law _ _) (ground arith)
              ∙ kind_at-old_portal j law s root obj k path
              ∙ at_key (codes "portal") i (k ∷ path) root portal)
          | inr no_portal ↦ rw no_portal (elim (Bool-cases (equal (codes "audio") i)) [
            | inl audio ↦ rw audio (
                audio_kept (get_section j (with_capture j law s root obj) (codes "audio")) k path
                  (get_section-object j law _ _) (ground arith)
                ∙ kind_at-old_audio j law s root obj k path
                ∙ at_key (codes "audio") i (k ∷ path) root audio)
            | inr no_audio ↦ rw no_audio (elim (Bool-cases (equal (codes "capture") i)) [
              | inl capture ↦ rw capture (
                  section_kept (capture_entries s) (with_output j law s root obj) root
                    (codes "capture") (k ∷ path) (kind_at-old_capture j law s root obj)
                    (ground arith)
                  ∙ at_key (codes "capture") i (k ∷ path) root capture)
              | inr no_capture ↦ rw no_capture (elim (Bool-cases (equal (codes "output") i)) [
                | inl output ↦ rw output (
                    section_kept (output_entries s) (with_version j law s root obj) root
                      (codes "output") (k ∷ path) (kind_at-old_output j law s root obj)
                      (ground arith)
                    ∙ at_key (codes "output") i (k ∷ path) root output)
                | inr no_output ↦
                    rw no_output (rw (last_entry-none i version_entries (ground arith)) refl)
              ])
            ])
          ])
        ]

    top_kept :
        (i : Bytes)
        → is_written (i ∷ []) ≡ false
        → kind_at j (i ∷ []) (write_document j s root) ≡ kind_at j (i ∷ []) root
    top_kept i h =
        let no_portal : equal (codes "portal") i ≡ false = ground arith in
        let no_audio : equal (codes "audio") i ≡ false = ground arith in
        let no_capture : equal (codes "capture") i ≡ false = ground arith in
        let no_output : equal (codes "output") i ≡ false = ground arith in
        kind_at-write_document j law s root obj i []
        ∙ rw (no_portal, no_audio, no_capture, no_output)
            (rw (last_entry-none i version_entries (ground arith)) refl)

    -- Whatever stands at a path that the writer does not write, in the known sections or beside
    -- them, stands there after the settings were written.
    pub write_document-kept :
        (path : List Bytes)
        → is_written path ≡ false
        → kind_at j path (write_document j s root) ≡ kind_at j path root
    write_document-kept [] h = absurd (ground arith)
    write_document-kept (i ∷ []) h = top_kept i h
    write_document-kept (i ∷ k ∷ path) h = below_kept i k path h
