-- ===== src/Config/KlipConf/Object.antt =====
-- src/config/private/klip_conf.cpp: Klip.conf converts to a JSON object.
use klip.Base.{
  ◌&&◌, Bytes, Option, none, some, List, [], ◌∷◌, ◌≡◌, ◌≢◌, refl, ◌∙◌, sym, ap, subst, arith, All,
  equal, length, ◌<◌, Bool-cases, Option-cases, inl, inr,
}
use klip.Json.{Json, IsLawful, Leaf, object, kind_at, stored_kind}
use klip.Recorder.Settings.{Settings}
use klip.Config.Document.{SettingsDocument, ok}
use klip.Config.Reading.{read_settings_json}
use klip.Config.Schema.{expected_document}
use klip.Config.RoundTrip.{read_object, some_injective}
use klip.Config.KlipConf.Text.{lines, trim, split_at, section_name}
use klip.Config.KlipConf.{
  LegacyKey, legacy_keys, find_legacy, Conversion, assign_pointer, convert_entry, convert_pair,
  convert_line, convert_lines, new_conversion, convert_klip_conf,
}

-- What holds of every entry of the table holds of the one that is found.
pub find_legacy-All :
    (P : LegacyKey → Type 0) (section key : Bytes) (table : List LegacyKey) (l : LegacyKey)
    → All P table
    → find_legacy section key table ≡ some l
    → P l
unfolding find_legacy
find_legacy-All P section key [] l all h = absurd (cc)
find_legacy-All P section key (e ∷ table) l all h =
    elim (Bool-cases (equal e.section section && equal e.key key)) [
      | inl hit ↦ subst P (ground arith) all.0
      | inr miss ↦ find_legacy-All P section key table l all.1 (ground arith)
    ]

some_path : (path : List Bytes) → 0 < length path → path ≢ []
some_path [] h e = omega arith
some_path (k ∷ path) h e = cc

legacy_keys_lead : All (λ l. 0 < length l.pointer) legacy_keys
legacy_keys_lead = omega arith

module _ (j : Json) (law : IsLawful j) where
  -- Every pointer of the table leads into the root.
  assign_pointer-object :
      (path : List Bytes) (l : Leaf) (v : j.Value)
      → path ≢ []
      → j.kind v ≡ object
      → j.kind (assign_pointer j path l v) ≡ object
  unfolding assign_pointer
  assign_pointer-object [] l v leads obj = absurd (leads refl)
  assign_pointer-object (k ∷ path) l v leads obj = law.kind-assign v _ k obj

  convert_entry-object :
      (o : Option LegacyKey) (raw : Bytes) (c : Conversion j)
      → ((l : LegacyKey) → o ≡ some l → l.pointer ≢ [])
      → j.kind c.root ≡ object
      → j.kind (convert_entry j o raw c).root ≡ object
  unfolding convert_entry
  convert_entry-object none raw c h obj = obj
  convert_entry-object (some l) raw c h obj =
      assign_pointer-object l.pointer _ c.root (h l refl) obj

  convert_pair-object :
      (o : Option (Bytes × Bytes)) (c : Conversion j)
      → j.kind c.root ≡ object
      → j.kind (convert_pair j o c).root ≡ object
  convert_pair-object none c obj = obj
  convert_pair-object (some (before, after)) c obj =
      convert_entry-object (find_legacy c.section (trim before) legacy_keys) after c
        (λ l found. some_path l.pointer (
          find_legacy-All (λ l. 0 < length l.pointer) c.section (trim before) legacy_keys l
            legacy_keys_lead found))
        obj

  convert_line-object :
      (line : Bytes) (c : Conversion j)
      → j.kind c.root ≡ object
      → j.kind (convert_line j line c).root ≡ object
  unfolding convert_line
  convert_line-object line c obj = elim (Option-cases (section_name line)) [
    | inl no_section ↦
        rw (no_section, convert_line) (convert_pair-object (split_at b'=' line) c obj)
    | inr (name, named) ↦ rw (named, convert_line) obj
  ]

  pub convert_lines-object :
      (ls : List Bytes) (c : Conversion j)
      → j.kind c.root ≡ object
      → j.kind (convert_lines j ls c).root ≡ object
  unfolding convert_lines
  convert_lines-object [] c obj = obj
  convert_lines-object (line ∷ rest) c obj =
      convert_lines-object rest _ (convert_line-object (trim line) c obj)

  -- Whatever Klip.conf holds, what it converts to is read as a JSON object, so that the import's
  -- assertion holds: `ReadSettingsJson` gives a document.
  pub read_settings_json-convert_klip_conf :
      (content t : Bytes) (defaults : Settings)
      → convert_klip_conf j content ≡ some t
      → (document : SettingsDocument) × (read_settings_json j t defaults ≡ ok document)
  unfolding convert_klip_conf
  read_settings_json-convert_klip_conf content t defaults h =
      let root : j.Value = (convert_lines j (lines content) (new_conversion j)).root in
      let (t', dumped, (w, parsed, same)) = law.parse-dump root (law.dump-IsUtf8 root t h) in
      let same_text : t' ≡ t = some_injective (sym dumped ∙ h) in
      let obj : j.kind root ≡ object =
        convert_lines-object (lines content) (new_conversion j) law.kind-empty in
      let w-object : j.kind w ≡ object =
        some_injective (same [] ∙ ap (λ k. some (stored_kind k)) obj) in
      (
        expected_document (λ p. kind_at j p w) defaults,
        read_object j law t w defaults (subst (λ t. j.parse t ≡ some w) same_text parsed) w-object,
      )
