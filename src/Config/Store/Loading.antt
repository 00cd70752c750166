-- ===== src/Config/Store/Loading.antt =====
-- src/config/private/settings_store.cpp: what `Load` leaves for the saves that follow.
use klip.Base.{
  ◌==◌, leb, true, false, Bytes, Option, none, some, [], ◌≡◌, refl, ◌∙◌, sym, ap, subst, arith, inl,
  inr, length, Option-cases, Bool-cases, if◌then◌else◌, if-cases,
}
use klip.Json.{Json, IsLawful}
use klip.Recorder.Settings.{Settings}
use klip.Config.Document.{SettingsDocument, Expected, ok, unexpected}
use klip.Config.Reading.{read_settings_json}
use klip.Config.Writing.Legal.{IsLegal}
use klip.Config.RoundTrip.Utf8.{HasUtf8}
use klip.Config.Bounds.{read_settings_json-IsLegal}
use klip.Config.Bounds.Texts.{read_settings_json-HasUtf8}
use klip.Config.KlipConf.{convert_klip_conf}
use klip.Config.Store.{
  File, missing, unreadable, holding, Answers, Saved, max_file_size, read_file, content, ReadResult,
  keep_backup, move_aside, write, store_text, old_settings, settings_of, import_settings,
  import_text, import_from, load_document, load_from, load, finish_load,
}
use klip.Config.Store.Safe.{finish_inversion}
use klip.Config.Store.Mirror.{Mirrors, write-Wrote}

abbrev pub noted : Settings → Saved → Saved
noted s y = record y { store = record y.store { written = s } }

-- Where saving is allowed, the file and the store agree on the settings that were loaded.
pub record Loaded (j : Json) (x : Saved) (s : Settings) (y : Saved) : Type 0 where
  pub mirrors : y.store.can_save ≡ true → Mirrors j (noted s y)
  pub defaults : y.store.defaults ≡ x.store.defaults
  pub has_path : y.store.has_path ≡ x.store.has_path

settings_of_inversion :
    (j : Json) (s : Settings) (r : Expected SettingsDocument)
    → settings_of j r ≡ some s
    → (d : SettingsDocument) × (r ≡ ok d) × (d.settings ≡ s)
settings_of_inversion j s (unexpected e) h = absurd (cc)
settings_of_inversion j s (ok d) h = (d, refl, ground arith)

-- A write leaves the same, but for what is noted, whatever was noted before.
noted-write :
    (j : Json) (a : Answers) (s : Settings) (x : Saved)
    → noted s (write j a s x).0 ≡ (write j a s (noted s x)).0
unfolding write store_text
noted-write j a s x = ground arith

module _ (j : Json) (law : IsLawful j) (x : Saved) (legal : IsLegal x.store.defaults)
    (texts : HasUtf8 j x.store.defaults) (none_kept : x.store.kept ≡ []) where
  document_on_disk :
      (a : Answers) (t : Bytes) (d : SettingsDocument)
      → x.disk.config ≡ holding t
      → read_settings_json j t x.store.defaults ≡ ok d
      → Loaded j x d.settings (load_document j a t (ok d) x).1
  unfolding load_document keep_backup
  document_on_disk a t d here read =
      let legal_now = read_settings_json-IsLegal j t x.store.defaults d law legal read in
      let texts_now = read_settings_json-HasUtf8 j law t x.store.defaults d texts read in
      if-cases (λ (y : Saved). Loaded j x d.settings y) (d.num_invalid == 0)
        (λ clean. record {
          mirrors = λ saves. record {
            saves = saves;
            legal = legal_now;
            texts = texts_now;
            file = inr (record {
              here = here;
              document = d;
              read = read;
              same = refl;
              known = ground arith;
            });
          };
          defaults = refl;
          has_path = refl;
        })
        (λ dirty.
          if-cases (λ (y : Saved). Loaded j x d.settings y) a.copies
            (λ copied. record {
              mirrors = λ saves. record {
                saves = saves;
                legal = legal_now;
                texts = texts_now;
                file = inr (record {
                  here = here;
                  document = d;
                  read = read;
                  same = refl;
                  known = ground arith;
                });
              };
              defaults = refl;
              has_path = refl;
            })
            (λ stuck. record { mirrors = λ saves. absurd (cc); defaults = refl; has_path = refl }))

  moved_aside : (a : Answers) → Loaded j x x.store.defaults (move_aside a x)
  unfolding move_aside
  moved_aside a =
      if-cases (λ (y : Saved). Loaded j x x.store.defaults y) a.renames
        (λ moved. record {
          mirrors = λ saves. record {
            saves = saves;
            legal = legal;
            texts = texts;
            file = inl (refl, none_kept);
          };
          defaults = refl;
          has_path = refl;
        })
        (λ stuck. record { mirrors = λ saves. absurd (cc); defaults = refl; has_path = refl })

  -- The settings of an old file are as legal as the defaults.
  old_settings-read :
      (t : Bytes) (s : Settings)
      → old_settings j t x.store.defaults ≡ some s
      → IsLegal s × HasUtf8 j s
  unfolding old_settings
  old_settings-read t s h = elim (Option-cases (convert_klip_conf j t)) [
    | inl aborted ↦ absurd (ground arith)
    | inr (c, converted) ↦
        let (d, read, same) =
          settings_of_inversion j s (read_settings_json j c x.store.defaults) (ground arith) in
        (
          subst IsLegal same (read_settings_json-IsLegal j c x.store.defaults d law legal read),
          subst (HasUtf8 j) same (read_settings_json-HasUtf8 j law c x.store.defaults d texts read),
        )
  ]

  imported :
      (a : Answers) (s : Settings)
      → x.disk.config ≡ missing
      → x.store.can_save ≡ true
      → IsLegal s
      → HasUtf8 j s
      → Loaded j x s (write j a s x).0
  imported a s gone saves legal_now texts_now =
      let m : Mirrors j (noted s x) = record {
        saves = saves;
        legal = legal_now;
        texts = texts_now;
        file = inl (gone, none_kept);
      } in
      let wrote = write-Wrote j law s (noted s x) m legal_now texts_now a in
      record {
        mirrors = λ allowed. rw (noted-write j a s x) wrote.mirrors;
        defaults = ap (λ y. y.store.defaults) (noted-write j a s x) ∙ wrote.defaults;
        has_path = ap (λ y. y.store.has_path) (noted-write j a s x) ∙ wrote.has_path;
      }

  untouched : x.disk.config ≡ missing → Loaded j x x.store.defaults x
  untouched gone = record {
    mirrors = λ saves. record {
      saves = saves;
      legal = legal;
      texts = texts;
      file = inl (gone, none_kept);
    };
    defaults = refl;
    has_path = refl;
  }

  import_text-Loaded :
      (a : Answers) (t : Bytes) (o : Option Settings) (s : Settings) (y : Saved)
      → x.disk.config ≡ missing
      → x.store.can_save ≡ true
      → old_settings j t x.store.defaults ≡ o
      → import_text j a o x ≡ some (s, y)
      → Loaded j x s y
  import_text-Loaded a t none s y gone saves old h = absurd (cc)
  import_text-Loaded a t (some s') s y gone saves old h =
      let (legal_now, texts_now) = old_settings-read t s' old in
      let done : Loaded j x s' (write j a s' x).0 = imported a s' gone saves legal_now texts_now in
      let same_settings : s' ≡ s = ground arith in
      let same_store : (write j a s' x).0 ≡ y = ground arith in
      subst (λ z. Loaded j x s z) same_store
        (subst (λ z. Loaded j x z (write j a s' x).0) same_settings done)

  import_from-Loaded :
      (a : Answers) (r : ReadResult) (s : Settings) (y : Saved)
      → x.disk.config ≡ missing
      → x.store.can_save ≡ true
      → import_from j a r x ≡ some (s, y)
      → Loaded j x s y
  import_from-Loaded a (content t) s y gone saves h =
      import_text-Loaded a t (old_settings j t x.store.defaults) s y gone saves refl h
  import_from-Loaded a _ s y gone saves h =
      let same_settings : x.store.defaults ≡ s = ground arith in
      let same_store : x ≡ y = ground arith in
      subst (λ z. Loaded j x s z) same_store
        (subst (λ z. Loaded j x z x) same_settings (untouched gone))

  load_document-Loaded :
      (a : Answers) (t : Bytes) (r : Expected SettingsDocument)
      → x.disk.config ≡ holding t
      → read_settings_json j t x.store.defaults ≡ r
      → let (s, y) = load_document j a t r x in Loaded j x s y
  unfolding load_document
  load_document-Loaded a t (ok d) here read = document_on_disk a t d here read
  load_document-Loaded a t (unexpected e) here read = moved_aside a

module _ (j : Json) (law : IsLawful j) (x : Saved) (legal : IsLegal x.store.defaults)
    (texts : HasUtf8 j x.store.defaults) where
  -- The store as `Load` finds it after its first lines.
  abbrev cleared : Saved
  cleared = record x { store = record x.store { kept = []; can_save = false } }

  failed_load : (s : Settings) (y : Saved) → x.store.defaults ≡ s → cleared ≡ y → Loaded j x s y
  failed_load s y same_settings same_store =
      subst (λ z. Loaded j x s z) same_store
        (record { mirrors = λ saves. absurd (cc); defaults = refl; has_path = refl })

  load_from-Loaded :
      (a : Answers) (f : File) (s : Settings) (y : Saved)
      → x.disk.config ≡ f
      → load_from j a (read_file f) cleared ≡ some (s, y)
      → Loaded j x s y
  unfolding read_file import_settings load_document
  load_from-Loaded a missing s y here h =
      let x1 : Saved = record cleared { store = record cleared.store { can_save = true } } in
      let l : Loaded j x1 s y =
        import_from-Loaded j law x1 legal texts refl a (read_file x.disk.old_config) s y here refl
          h in
      record { mirrors = l.mirrors; defaults = l.defaults; has_path = l.has_path }
  load_from-Loaded a unreadable s y here h = failed_load s y (ground arith) (ground arith)
  load_from-Loaded a (holding t) s y here h = elim (Bool-cases (leb (length t) max_file_size)) [
    | inr large ↦ failed_load s y (ground arith) (ground arith)
    | inl fits ↦
        let r = read_settings_json j t x.store.defaults in
        let done = load_document-Loaded j law cleared legal texts refl a t r here refl in
        let same_settings : (load_document j a t r cleared).0 ≡ s = ground arith in
        let same_store : (load_document j a t r cleared).1 ≡ y = ground arith in
        let moved =
          subst (λ z. Loaded j cleared s z) same_store
            (subst (λ z. Loaded j cleared z (load_document j a t r cleared).1) same_settings
              done) in
        record { mirrors = moved.mirrors; defaults = moved.defaults; has_path = moved.has_path }
  ]

  pub load-Loaded :
      (a : Answers) (s : Settings) (y : Saved)
      → x.store.has_path ≡ true
      → load j a x ≡ some (s, y)
      → Loaded j x s y × (y.store.written ≡ s)
  unfolding load
  load-Loaded a s y known h =
      let taken =
        subst
          (λ b.
            finish_load j (
              if b
              then load_from j a (read_file x.disk.config) cleared
              else some (x.store.defaults, cleared))
            ≡ some (s, y))
          known h in
      let (y0, from, same) =
        finish_inversion j s y (load_from j a (read_file x.disk.config) cleared) taken in
      let l = load_from-Loaded a x.disk.config s y0 refl from in
      let l' : Loaded j x s (noted s y0) = record {
        mirrors = l.mirrors;
        defaults = l.defaults;
        has_path = l.has_path;
      } in
      (subst (Loaded j x s) (sym same) l', ap (λ z. z.store.written) same)
