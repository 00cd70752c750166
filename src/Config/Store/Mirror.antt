-- ===== src/Config/Store/Mirror.antt =====
-- src/config/private/settings_store.cpp: what the file holds is what the store notes as written.
use klip.Base.{
  ℕ, ◌&&◌, Bool, true, false, Bytes, List, [], ◌∷◌, ◌++◌, ◌≡◌, ◌≢◌, refl, ◌∙◌, sym, ap, subst,
  arith, ◌⊎◌, inl, inr, ◌≤◌, All, if◌then◌else◌, equal, equal_iff, if-cases,
}
use klip.Json.{Json, IsLawful}
use klip.Recorder.Settings.{Settings, SettingsChanges}
use klip.Config.Document.{SettingsDocument, settings_version, Expected, ok}
use klip.Config.Reading.{read_settings_json}
use klip.Config.Schema.{outcome}
use klip.Config.Writing.{write_settings_json}
use klip.Config.Writing.Legal.{IsLegal}
use klip.Config.RoundTrip.{read_settings_json-write_settings_json}
use klip.Config.RoundTrip.Utf8.{HasUtf8}
use klip.Config.Store.{
  missing, holding, Answers, Saved, SaveCall, write, store_text, save, run_saves, merge,
  has_changes,
}

merge-IsLegal :
    (j : Json) (w s : Settings) (c : SettingsChanges)
    → IsLegal w
    → IsLegal s
    → IsLegal (merge j w s c)
merge-IsLegal j w s c hw hs = record {
  directory = ground arith;
  rate = ground arith;
  device = λ index. ground (arith, hw.device index, hs.device index);
  low = λ index. ground (arith, hw.low index, hs.low index);
  high = λ index. ground (arith, hw.high index, hs.high index);
  screen = ground arith;
  window = ground arith;
}

merge-HasUtf8 :
    (j : Json) (w s : Settings) (c : SettingsChanges)
    → HasUtf8 j w
    → HasUtf8 j s
    → HasUtf8 j (merge j w s c)
merge-HasUtf8 j w s c hw hs = record {
  directory = ground arith;
  device = λ index. ground (arith, hw.device index, hs.device index);
  screen = ground arith;
  window = ground arith;
}

-- The file holds what the store keeps, and that is read as what was written.
pub record OnDisk (j : Json) (x : Saved) : Type 0 where
  pub here : x.disk.config ≡ holding x.store.kept
  pub document : SettingsDocument
  pub read : read_settings_json j x.store.kept x.store.defaults ≡ ok document
  pub same : document.settings ≡ x.store.written
  pub known : document.version ≤ settings_version

pub record Mirrors (j : Json) (x : Saved) : Type 0 where
  pub saves : x.store.can_save ≡ true
  pub legal : IsLegal x.store.written
  pub texts : HasUtf8 j x.store.written
  pub file : ((x.disk.config ≡ missing) × (x.store.kept ≡ [])) ⊎ OnDisk j x

-- The text that is written ends with a newline.
not_nil : (t : Bytes) (c : ℕ) → (t ++ (c ∷ [])) ≢ []
not_nil [] c e = cc
not_nil (b ∷ t) c e = cc

abbrev pub can_write : Answers → Bool
can_write a = a.creates_directory && a.writes

-- A save takes effect if the file can be written; the other way it changes nothing.
abbrev pub replay : Json → List SaveCall → Settings → Settings
replay j [] w = w
replay j (c ∷ calls) w =
    replay j calls
      (if has_changes j c.changes && can_write c.answers then merge j w c.settings c.changes else w)

-- Every save is of legal settings.
abbrev pub AllLegal : Json → List SaveCall → Type 0
AllLegal j calls = All (λ c. IsLegal c.settings × HasUtf8 j c.settings) calls

-- What a write of settings leaves, if it works and if it does not.
pub record Wrote (j : Json) (x : Saved) (works : Bool) (s : Settings) (y : Saved) : Type 0 where
  pub mirrors : Mirrors j y
  pub written : y.store.written ≡ (if works then s else x.store.written)
  pub defaults : y.store.defaults ≡ x.store.defaults
  pub has_path : y.store.has_path ≡ x.store.has_path
  pub on_disk : works ≡ true → OnDisk j y

ok_injective : {a b : SettingsDocument} → ◌≡◌ {A = Expected SettingsDocument} (ok a) (ok b) → a ≡ b
ok_injective e = cc

module _ (j : Json) (law : IsLawful j) (s : Settings) (x : Saved) (m : Mirrors j x)
    (legal : IsLegal s) (texts : HasUtf8 j s) where
  abbrev new_text : Bytes
  new_text = write_settings_json j s x.store.kept

  read_new : read_settings_json j new_text x.store.defaults ≡ ok (outcome settings_version s [])
  read_new =
      read_settings_json-write_settings_json j law s x.store.defaults x.store.kept legal texts

  -- A text that is already in the file says what was written.
  same_text : new_text ≡ x.store.kept → OnDisk j x × (s ≡ x.store.written)
  unfolding write_settings_json
  same_text e = elim m.file [
    | inl nothing ↦ absurd (not_nil _ _ (e ∙ nothing.1))
    | inr d ↦
        let again : outcome settings_version s [] ≡ d.document =
          ok_injective
            (sym read_new ∙ ap (λ t. read_settings_json j t x.store.defaults) e ∙ d.read) in
        (d, ap (λ doc. doc.settings) again ∙ d.same)
  ]

  unchanged :
      (works : Bool)
      → new_text ≡ x.store.kept
      → Wrote j x works s (record x { store = record x.store { written = s } })
  unchanged works e =
      let (d, same) = same_text e in
      let disk : OnDisk j (record x { store = record x.store { written = s } }) = record {
        here = d.here;
        document = d.document;
        read = d.read;
        same = d.same ∙ sym same;
        known = d.known;
      } in
      record {
        mirrors = record { saves = m.saves; legal = legal; texts = texts; file = inr disk };
        written = if-cases (λ t. s ≡ t) works (λ h. refl) (λ h. same);
        defaults = refl;
        has_path = refl;
        on_disk = λ h. disk;
      }

  stored : Wrote j x true s (record x {
    disk = record x.disk { config = holding new_text };
    store = record x.store { kept = new_text; written = s };
  })
  stored =
      let disk : OnDisk j (record x {
        disk = record x.disk { config = holding new_text };
        store = record x.store { kept = new_text; written = s };
      }) =
        record {
          here = refl;
          document = outcome settings_version s [];
          read = read_new;
          same = refl;
          known = omega arith;
        } in
      record {
        mirrors = record { saves = m.saves; legal = legal; texts = texts; file = inr disk };
        written = refl;
        defaults = refl;
        has_path = refl;
        on_disk = λ h. disk;
      }

  failed_write : Wrote j x false s x
  failed_write = record {
    mirrors = m;
    written = refl;
    defaults = refl;
    has_path = refl;
    on_disk = λ h. absurd (cc);
  }

  pub write-Wrote : (a : Answers) → Wrote j x (can_write a) s (write j a s x).0
  unfolding write store_text
  write-Wrote a =
      if-cases (λ (r : Saved × Bool). Wrote j x (can_write a) s r.0) (equal new_text x.store.kept)
        (λ same. unchanged (can_write a) ((equal_iff _ _).0 same))
        (λ different.
          if-cases (λ (r : Saved × Bool). Wrote j x (can_write a) s r.0) (can_write a)
            (λ works. rw works stored) (λ fails. rw fails failed_write))

changes_of : (a b : Bool) → a && b ≡ true → true ≡ b
changes_of a b h = ground arith

no_changes_of : (a b : Bool) → a ≡ true → a && b ≡ false → false ≡ b
no_changes_of a b h k = ground arith

-- What saves leave.
pub record Replayed (j : Json) (x : Saved) (calls : List SaveCall) (y : Saved) : Type 0 where
  pub mirrors : Mirrors j y
  pub written : y.store.written ≡ replay j calls x.store.written
  pub defaults : y.store.defaults ≡ x.store.defaults
  pub has_path : y.store.has_path ≡ x.store.has_path

module _ (j : Json) (law : IsLawful j) where
  -- The settings that a save leaves as written.
  save_effect :
      (c : SaveCall) (x : Saved)
      → Mirrors j x
      → IsLegal c.settings
      → HasUtf8 j c.settings
      → Wrote j x
          (has_changes j c.changes && can_write c.answers)
          (merge j x.store.written c.settings c.changes)
          (save j c.answers c.settings c.changes x)
  unfolding save
  save_effect c x m legal texts =
      let merged : Settings = merge j x.store.written c.settings c.changes in
      let merged-IsLegal = merge-IsLegal j x.store.written c.settings c.changes m.legal legal in
      let merged-HasUtf8 = merge-HasUtf8 j x.store.written c.settings c.changes m.texts texts in
      let wrote = write-Wrote j law merged x m merged-IsLegal merged-HasUtf8 c.answers in
      let failed : Wrote j x false merged x =
        failed_write j law merged x m merged-IsLegal merged-HasUtf8 in
      if-cases (λ (y : Saved). Wrote j x (has_changes j c.changes && can_write c.answers) merged y)
        (x.store.can_save && has_changes j c.changes)
        (λ h.
          let changes : true ≡ has_changes j c.changes = changes_of x.store.can_save _ h in
          subst (λ b. Wrote j x (b && can_write c.answers) merged (write j c.answers merged x).0)
            changes wrote)
        (λ h.
          let none_made : false ≡ has_changes j c.changes =
            no_changes_of x.store.can_save _ m.saves h in
          subst (λ b. Wrote j x (b && can_write c.answers) merged x) none_made failed)

  pub run_saves-Replayed :
      (calls : List SaveCall) (x : Saved)
      → Mirrors j x
      → AllLegal j calls
      → Replayed j x calls (run_saves j calls x)
  unfolding run_saves
  run_saves-Replayed [] x m legal = record {
    mirrors = m;
    written = refl;
    defaults = refl;
    has_path = refl;
  }
  run_saves-Replayed (c ∷ calls) x m legal =
      let first = save_effect c x m legal.0.0 legal.0.1 in
      let rest =
        run_saves-Replayed calls (save j c.answers c.settings c.changes x) first.mirrors legal.1 in
      record {
        mirrors = rest.mirrors;
        written = rest.written ∙ ap (replay j calls) first.written;
        defaults = rest.defaults ∙ first.defaults;
        has_path = rest.has_path ∙ first.has_path;
      }
