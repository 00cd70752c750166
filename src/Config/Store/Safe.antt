-- ===== src/Config/Store/Safe.antt =====
-- src/config/private/settings_store.cpp: no save loses what a file held that could not be used.
use klip.Base.{
  ◌&&◌, leb, ◌==◌, true, false, Bytes, Option, none, some, List, [], ◌∷◌, ◌≡◌, ◌≢◌, refl, ◌∙◌,
  subst, arith, ◌⊎◌, inl, inr, ◌≤◌, length, Bool-cases, if◌then◌else◌, if-cases,
}
use klip.Json.{Json}
use klip.Recorder.Settings.{Settings}
use klip.Config.Document.{SettingsDocument, settings_version, Expected, ok, unexpected}
use klip.Config.Reading.{read_settings_json}
use klip.Config.Store.{
  File, missing, unreadable, holding, Disk, Answers, Saved, SaveCall, read_file, max_file_size,
  keep_backup, move_aside, write, store_text, load_document, load, load_from, finish_load, save,
  run_saves, has_changes,
}

-- The file was read as a document of this Klip's version or an older one, with nothing rejected.
abbrev IsUsable : Json → Settings → File → Type 0
IsUsable j defaults (holding t) =
    (d : SettingsDocument) × (read_settings_json j t defaults ≡ ok d)
    × (d.num_invalid ≡ 0)
    × (d.version ≤ settings_version)
IsUsable j defaults _ = ⊥

-- The file is where it was, or its copy is, or it needs none.
abbrev pub IsSafe : Json → Settings → File → Disk → Type 0
IsSafe j defaults file disk = (disk.config ≡ file) ⊎ (disk.backup ≡ file) ⊎ IsUsable j defaults file

-- What a load leaves is what it found, with the settings noted as written.
pub finish_inversion :
    (j : Json) (s : Settings) (y : Saved) (r : Option (Settings × Saved))
    → finish_load j r ≡ some (s, y)
    → (y0 : Saved) × (r ≡ some (s, y0))
      × (y ≡ record y0 { store = record y0.store { written = s } })
finish_inversion j s y none h = absurd (cc)
finish_inversion j s y (some (s', y0)) h = (y0, ground arith, ground arith)

module _ (j : Json) where
  write_backup :
      (a : Answers) (s : Settings) (x : Saved) → (write j a s x).0.disk.backup ≡ x.disk.backup
  unfolding write store_text
  write_backup a s x = ground arith

  save_backup :
      (c : SaveCall) (x : Saved)
      → (save j c.answers c.settings c.changes x).disk.backup ≡ x.disk.backup
  unfolding save
  save_backup c x =
      if-cases (λ (y : Saved). y.disk.backup ≡ x.disk.backup)
        (x.store.can_save && has_changes j c.changes) (λ h. write_backup c.answers _ x) (λ h. refl)

  run_saves_backup :
      (calls : List SaveCall) (x : Saved) → (run_saves j calls x).disk.backup ≡ x.disk.backup
  unfolding run_saves
  run_saves_backup [] x = refl
  run_saves_backup (c ∷ calls) x = run_saves_backup calls _ ∙ save_backup c x

  save_refused :
      (c : SaveCall) (x : Saved)
      → x.store.can_save ≡ false
      → save j c.answers c.settings c.changes x ≡ x
  unfolding save
  save_refused c x h = rw h refl

  run_saves_refused :
      (calls : List SaveCall) (x : Saved) → x.store.can_save ≡ false → run_saves j calls x ≡ x
  unfolding run_saves
  run_saves_refused [] x h = refl
  run_saves_refused (c ∷ calls) x h = rw (save_refused c x h) (run_saves_refused calls x h)

  -- After a load: the file is left alone, or copied, or usable.
  abbrev Secured : Settings → File → Saved → Type 0
  Secured defaults file y =
      ((y.disk.config ≡ file) × (y.store.can_save ≡ false))
      ⊎ (y.disk.backup ≡ file)
      ⊎ IsUsable j defaults file

  run_saves-IsSafe :
      (defaults : Settings) (file : File) (y : Saved) (calls : List SaveCall)
      → Secured defaults file y
      → IsSafe j defaults file (run_saves j calls y).disk
  run_saves-IsSafe defaults file y calls (inl (same, refused)) =
      inl (rw (run_saves_refused calls y refused) same)
  run_saves-IsSafe defaults file y calls (inr (inl copied)) =
      inr (inl (run_saves_backup calls y ∙ copied))
  run_saves-IsSafe defaults file y calls (inr (inr usable)) = inr (inr usable)

  load_document-Secured :
      (a : Answers) (t : Bytes) (x : Saved) (r : Expected SettingsDocument)
      → x.disk.config ≡ holding t
      → read_settings_json j t x.store.defaults ≡ r
      → Secured x.store.defaults (holding t) (load_document j a t r x).1
  unfolding load_document keep_backup move_aside
  load_document-Secured a t x (unexpected e) here read = elim (Bool-cases a.renames) [
    | inl moved ↦ inr (inl (ground arith))
    | inr stuck ↦ inl (ground arith, ground arith)
  ]
  load_document-Secured a t x (ok d) here read = elim (Bool-cases (d.num_invalid == 0)) [
    | inl clean ↦ elim (Bool-cases (leb d.version settings_version)) [
      | inl known ↦ inr (inr (d, read, ground arith, ground arith))
      | inr newer ↦ inl (ground arith, ground arith)
    ]
    | inr dirty ↦ elim (Bool-cases a.copies) [
      | inl copied ↦ inr (inl (ground arith))
      | inr stuck ↦ inl (ground arith, ground arith)
    ]
  ]

  load_from-Secured :
      (a : Answers) (x : Saved) (f : File) (s : Settings) (y : Saved)
      → x.store.can_save ≡ false
      → x.disk.config ≡ f
      → f ≢ missing
      → load_from j a (read_file f) x ≡ some (s, y)
      → Secured x.store.defaults f y
  unfolding read_file
  load_from-Secured a x missing s y refused here present h = absurd (present refl)
  load_from-Secured a x unreadable s y refused here present h = inl (ground arith, ground arith)
  load_from-Secured a x (holding t) s y refused here present h =
      elim (Bool-cases (leb (length t) max_file_size)) [
        | inl fits ↦
            let same : (load_document j a t (read_settings_json j t x.store.defaults) x).1 ≡ y =
              ground arith in
            subst (Secured x.store.defaults (holding t)) same
              (load_document-Secured a t x (read_settings_json j t x.store.defaults) here refl)
        | inr large ↦ inl (ground arith, ground arith)
      ]

  -- What stands at config.json and cannot be used is never lost: after a load and any saves it is
  -- still there, or config.json.bad is a copy of it, unless it was read as a document of this
  -- version or an older one with nothing rejected.
  pub run_saves-load-IsSafe :
      (a : Answers) (x : Saved) (s : Settings) (y : Saved) (calls : List SaveCall)
      → x.store.has_path ≡ true
      → x.disk.config ≢ missing
      → load j a x ≡ some (s, y)
      → IsSafe j x.store.defaults x.disk.config (run_saves j calls y).disk
  unfolding load
  run_saves-load-IsSafe a x s y calls known present h =
      let x0 : Saved = record x { store = record x.store { kept = []; can_save = false } } in
      let taken =
        subst
          (λ b.
            finish_load j (
              if b then load_from j a (read_file x.disk.config) x0 else some (x.store.defaults, x0))
            ≡ some (s, y))
          known h in
      let (y0, from, same) =
        finish_inversion j s y (load_from j a (read_file x.disk.config) x0) taken in
      run_saves-IsSafe x.store.defaults x.disk.config y calls
        (rw same (load_from-Secured a x0 x.disk.config s y0 refl refl present from))
