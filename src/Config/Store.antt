-- ===== src/Config/Store.antt =====
-- src/config/private/settings_store.cpp: CSettingsStore, but for `Initialize`, which is in XdgPaths.
-- The messages of the log are left out.
pub mod Safe
pub mod Mirror
pub mod Loading
pub mod Refine
use klip.Base.{
  ℕ, ◌*◌, Bool, true, false, not, ◌&&◌, ◌||◌, Bytes, Option, none, some, List, [], ◌∷◌, equal,
  is_empty, length, leb, ◌==◌, if◌then◌else◌,
}
use klip.Json.{Json}
use klip.Recorder.Settings.{Settings, SettingsChanges}
use klip.Config.Document.{
  SettingsDocument, settings_version, SettingsJsonError, Expected, ok, unexpected,
}
use klip.Config.Reading.{read_settings_json}
use klip.Config.Writing.{write_settings_json}
use klip.Config.KlipConf.{convert_klip_conf}

-- What stands at a path; `unreadable` is anything that is there and cannot be read.
pub data File : Type 0 where
  missing unreadable : File
  holding : Bytes → File

-- config.json, Klip.conf, and the copy of config.json that is kept.
pub record Disk : Type 0 where
  pub config : File
  pub old_config : File
  pub backup : File

-- What the file system answers of the calls that change it.
pub record Answers : Type 0 where
  pub creates_directory : Bool
  pub writes : Bool
  pub copies : Bool
  pub renames : Bool

pub record SettingsStore : Type 0 where
  pub has_path : Bool
  pub defaults : Settings
  pub written : Settings
  pub kept : Bytes
  pub can_save : Bool

abbrev pub max_file_size : ℕ
max_file_size = 1024 * 1024

-- `std::expected<std::string, std::error_code>` of `Json::ReadFile`; `no_such_file` is the error
-- that the store asks for.
pub data ReadResult : Type 0 where
  content : Bytes → ReadResult
  no_such_file failed : ReadResult

unfoldable pub read_file : File → ReadResult
read_file missing = no_such_file
read_file unreadable = failed
read_file (holding t) = if leb (length t) max_file_size then content t else failed

-- The store and the disk that it works on.
pub record Saved : Type 0 where
  pub store : SettingsStore
  pub disk : Disk

unfoldable pub keep_backup : Answers → Saved → Saved
keep_backup a x =
    if a.copies
    then record x { disk = record x.disk { backup = x.disk.config } }
    else record x { store = record x.store { can_save = false } }

unfoldable pub move_aside : Answers → Saved → Saved
move_aside a x =
    if a.renames
    then record x {
      disk = record x.disk { backup = x.disk.config; config = missing };
      store = record x.store { can_save = true };
    }
    else record x { store = record x.store { can_save = false } }

-- One call of `Save`, with what the file system answers.
pub record SaveCall : Type 0 where
  pub answers : Answers
  pub settings : Settings
  pub changes : SettingsChanges

module _ (j : Json) where
  -- The write of a text that is not the one kept.
  unfoldable pub store_text : Answers → Bytes → Settings → Saved → Saved × Bool
  store_text a t settings x =
      if a.creates_directory && a.writes
      then (
        record {
          disk = record x.disk { config = holding t };
          store = record x.store { kept = t; written = settings };
        },
        true,
      )
      else (x, false)

  unfoldable pub write : Answers → Settings → Saved → Saved × Bool
  unfolding equal store_text
  write a settings x =
      let t = write_settings_json j settings x.store.kept in
      if equal t x.store.kept
      then (record x { store = record x.store { written = settings } }, true)
      else store_text a t settings x

  abbrev pub settings_of : Expected SettingsDocument → Option Settings
  settings_of (unexpected e) = none
  settings_of (ok document) = some document.settings

  -- The settings that an old file holds; `none` is an assertion that fails.
  unfoldable pub old_settings : Bytes → Settings → Option Settings
  old_settings t defaults = elim (convert_klip_conf j t) [
    | none ↦ none
    | some converted ↦ settings_of (read_settings_json j converted defaults)
  ]

  abbrev pub import_text : Answers → Option Settings → Saved → Option (Settings × Saved)
  import_text a none x = none
  import_text a (some settings) x = some (settings, (write a settings x).0)

  abbrev pub import_from : Answers → ReadResult → Saved → Option (Settings × Saved)
  import_from a (content t) x = import_text a (old_settings t x.store.defaults) x
  import_from a _ x = some (x.store.defaults, x)

  -- `Import`; `none` is an abort.
  unfoldable pub import_settings : Answers → Saved → Option (Settings × Saved)
  unfolding read_file
  import_settings a x = import_from a (read_file x.disk.old_config) x

  -- What `Load` does with a document, or with a text that holds none.
  unfoldable pub load_document :
      Answers → Bytes → Expected SettingsDocument → Saved → Settings × Saved
  unfolding keep_backup move_aside
  load_document a t (unexpected e) x = (x.store.defaults, move_aside a x)
  load_document a t (ok document) x =
      let x = record x {
        store = record x.store { kept = t; can_save = leb document.version settings_version };
      } in
      (document.settings, if document.num_invalid == 0 then x else keep_backup a x)

  abbrev pub finish_load : Option (Settings × Saved) → Option (Settings × Saved)
  finish_load none = none
  finish_load (some (settings, x)) =
      some (settings, record x { store = record x.store { written = settings } })

  abbrev pub load_from : Answers → ReadResult → Saved → Option (Settings × Saved)
  load_from a (content t) x = some (load_document a t (read_settings_json j t x.store.defaults) x)
  load_from a no_such_file x =
      import_settings a (record x { store = record x.store { can_save = true } })
  load_from a failed x = some (x.store.defaults, x)

  -- `none` is an abort.
  unfoldable pub load : Answers → Saved → Option (Settings × Saved)
  unfolding read_file load_document import_settings
  load a x =
      let x = record x { store = record x.store { kept = []; can_save = false } } in
      finish_load (
        if x.store.has_path
        then load_from a (read_file x.disk.config) x
        else some (x.store.defaults, x))

  -- What changes names is taken of the settings, and the rest of what was written.
  abbrev pub merge : Settings → Settings → SettingsChanges → Settings
  merge written settings changes = record (if changes.choices then settings else written) {
    screen_token = if changes.screen_token then settings.screen_token else written.screen_token;
    window_token = if changes.window_token then settings.window_token else written.window_token;
  }

  abbrev pub has_changes : SettingsChanges → Bool
  has_changes c = c.choices || c.screen_token || c.window_token

  unfoldable pub save : Answers → Settings → SettingsChanges → Saved → Saved
  unfolding write
  save a settings changes x =
      if x.store.can_save && has_changes changes
      then (write a (merge x.store.written settings changes) x).0
      else x

  unfoldable pub run_saves : List SaveCall → Saved → Saved
  unfolding save
  run_saves [] x = x
  run_saves (c ∷ calls) x = run_saves calls (save c.answers c.settings c.changes x)
