-- ===== src/Tests/Disk.antt =====
-- Settings files that are written and read: the calls of src/json/private/files.cpp answered one by
-- one.
use klip.Base.{Bool, true, false, Bytes, codes, none, some, [], ◌∷◌, ◌++◌, ◌≡◌, arith, refl}
use klip.Json.Files.{
  Files, wrote, write_interrupted, System, write_file_atomically, got, read_interrupted, Source,
  regular, read_file, text_of,
}
use klip.Json.Files.Atomic.{IsAtomic, write_file_atomically-IsAtomic}
use klip.Json.Files.Limits.{Answers, read_file-Answers}
use klip.Config.XdgPaths.{Environment, get_home, get_config_home, initialize_store, StorePaths}
use klip.Config.XdgPaths.Videos.{initialize_store-videos_line}
use klip.Config.Store.{content, SettingsStore}
use klip.Config.KlipConf.Text.{lines}
use klip.Json.{newline}
use klip.Recorder.Settings.{default_settings}

-- A file of the user's, and no temporary one.
abbrev private_file : Files
private_file = record {
  target = some (record { content = codes "old"; mode = 384 });
  temporary = none;
}

-- Two bytes, a signal, and four bytes.
abbrev short_writes : System
short_writes = record {
  creates = true;
  sets_mode = true;
  writes = wrote 1 ∷ write_interrupted ∷ wrote 3 ∷ wrote 0 ∷ wrote 0 ∷ wrote 0 ∷ wrote 0 ∷ [];
  flushes = true;
  closes = true;
  renames = true;
  removes = true;
}

stores :
    write_file_atomically short_writes (codes "{true}") private_file
    ≡ some (
      true,
      record { target = some (record { content = codes "{true}"; mode = 384 }); temporary = none },
    )
unfolding write_file_atomically
stores = refl

write_file_atomically-IsAtomic_example :
    (ok : Bool) × (after : Files) × (write_file_atomically short_writes
        (codes "{true}")
        private_file
      ≡ some (ok, after))
    × IsAtomic short_writes (codes "{true}") private_file ok after
write_file_atomically-IsAtomic_example =
    write_file_atomically-IsAtomic short_writes (codes "{true}") private_file refl (omega arith)

-- A file of four bytes that has lost one when it is read.
abbrev shrunken : Source
shrunken = record {
  opens = true;
  stats = true;
  kind = regular;
  size = 4;
  reads = got (codes "tr") ∷ read_interrupted ∷ got (codes "u") ∷ got [] ∷ got [] ∷ got [] ∷ [];
}

reads_less : read_file shrunken 16 ≡ some (text_of (codes "tru"))
unfolding read_file
reads_less = refl

read_file-Answers_example : Answers shrunken 16
read_file-Answers_example = read_file-Answers shrunken 16 (omega arith)

-- XDG_CONFIG_HOME is relative, so it is not used.
abbrev desktop_environment : Environment
desktop_environment = record {
  home = some (codes "/home/klip");
  config_home = some (codes "config");
  state_home = none;
}

abbrev user_dirs : Bytes
user_dirs =
    codes "XDG_VIDEOS_DIR=/mnt"
    ++ (newline ∷ codes "XDG_VIDEOS_DIR=")
    ++ (34 ∷ codes "$HOME/Films" ++ (34 ∷ newline ∷ codes "# end"))

abbrev new_store : SettingsStore
new_store = record {
  has_path = false;
  defaults = default_settings;
  written = default_settings;
  kept = [];
  can_save = false;
}

abbrev no_paths : StorePaths
no_paths = record { path = []; legacy_path = [] }

finds_config :
    (initialize_store
      (get_config_home desktop_environment)
      (get_home desktop_environment)
      (content user_dirs)
      (new_store, no_paths)).1.path
    ≡ codes "/home/klip/.config/klip/config.json"
unfolding initialize_store get_config_home
finds_config = refl

initialize_store-videos_line_example :
    (initialize_store
      (get_config_home desktop_environment)
      (get_home desktop_environment)
      (content user_dirs)
      (new_store, no_paths)).0.defaults.directory
    ≡ codes "/home/klip/Films/klip-captures"
unfolding lines
initialize_store-videos_line_example =
    initialize_store-videos_line desktop_environment user_dirs (codes "ilms") b'F'
      (codes "XDG_VIDEOS_DIR=/mnt" ∷ []) (codes "# end" ∷ []) new_store no_paths refl refl
      (refl, tt) refl
