-- ===== src/Config/XdgPaths.antt =====
-- src/config/private/xdg_paths.cpp, and `Initialize` of settings_store.cpp, which makes its paths of
-- them. A path is its bytes; what the environment holds of a variable is an argument, and so is what
-- `ReadFile` gives of user-dirs.dirs.
pub mod Videos
use klip.Base.{
  ℕ, Bool, true, false, not, ◌&&◌, ◌||◌, Bytes, codes, Option, none, some, List, [], ◌∷◌, ◌++◌,
  is_empty, length, ltb, ◌==◌, if◌then◌else◌, strip_prefix,
}
use klip.Config.KlipConf.Text.{lines, ends_with, without_last}
use klip.Config.Store.{ReadResult, content, no_such_file, failed, SettingsStore}

abbrev pub videos_key : Bytes
videos_key = codes "XDG_VIDEOS_DIR="

abbrev pub home_variable : Bytes
home_variable = codes "$HOME"

abbrev pub starts_with : ℕ → Bytes → Bool
starts_with b [] = false
starts_with b (c ∷ rest) = c == b

abbrev pub is_absolute : Bytes → Bool
is_absolute path = starts_with b'/' path

-- `/` of std::filesystem on the paths of POSIX.
infixl 60 ◌/path◌
abbrev pub ◌/path◌ : Bytes → Bytes → Bytes
path /path name =
    if is_absolute name
    then name
    else if is_empty path || ends_with b'/' path
    then path ++ name
    else path ++ (b'/' ∷ name)

-- `std::getenv` of the three variables that are read.
pub record Environment : Type 0 where
  pub home : Option Bytes
  pub config_home : Option Bytes
  pub state_home : Option Bytes

abbrev pub get_absolute_variable : Option Bytes → Bytes
get_absolute_variable none = []
get_absolute_variable (some value) = if is_absolute value then value else []

abbrev pub get_home : Environment → Bytes
get_home env = get_absolute_variable env.home

unfoldable pub get_config_home : Environment → Bytes
get_config_home env =
    let config_home = get_absolute_variable env.config_home in
    if is_empty config_home && not (is_empty (get_home env))
    then get_home env /path codes ".config"
    else config_home

unfoldable pub get_state_home : Environment → Bytes
get_state_home env =
    let state_home = get_absolute_variable env.state_home in
    if is_empty state_home && not (is_empty (get_home env))
    then get_home env /path codes ".local" /path codes "state"
    else state_home

abbrev rest_of : Bytes → Bytes
rest_of [] = []
rest_of (c ∷ rest) = rest

unfoldable pub unquote : Bytes → Bytes
unquote value =
    if ltb 2 (length value) && starts_with 34 value && ends_with 34 value
    then without_last (rest_of value)
    else value

abbrev pub after_home : Bytes → Bytes → Option Bytes → Bytes
after_home home value none = value
after_home home value (some rest) = home ++ rest

unfoldable pub expand : Bytes → Bytes → Bytes
expand home value = after_home home value (strip_prefix home_variable value)

unfoldable pub drop_slash : Bytes → Bytes
drop_slash found =
    if ltb 1 (length found) && ends_with b'/' found then without_last found else found

-- What a line leaves in `found`.
unfoldable pub found_after : Bytes → Bytes → Option Bytes → Bytes
unfolding unquote expand drop_slash
found_after home found none = found
found_after home found (some value) = drop_slash (expand home (unquote value))

unfoldable pub find_in : List Bytes → Bytes → Bytes → Bytes
unfolding found_after
find_in [] home found = found
find_in (line ∷ rest) home found =
    find_in rest home (found_after home found (strip_prefix videos_key line))

unfoldable pub find_videos_directory : Bytes → Bytes → Bytes
unfolding lines find_in
find_videos_directory text home = find_in (lines text) home []

unfoldable pub found_in : ReadResult → Bytes → Bytes
unfolding find_videos_directory
found_in (content text) home = find_videos_directory text home
found_in no_such_file home = []
found_in failed home = []

unfoldable pub get_videos_directory : Bytes → Bytes → ReadResult → Bytes
unfolding found_in
get_videos_directory config_home home user_dirs =
    let found = if is_absolute config_home then found_in user_dirs home else [] in
    if is_empty found then home /path codes "Videos" else found

-- `m_path` and `m_legacyPath`.
pub record StorePaths : Type 0 where
  pub path : Bytes
  pub legacy_path : Bytes

unfoldable pub initialize_store :
    Bytes → Bytes → ReadResult → SettingsStore × StorePaths → SettingsStore × StorePaths
unfolding get_videos_directory
initialize_store config_home home user_dirs (store, paths) =
    let directory = get_videos_directory config_home home user_dirs /path codes "klip-captures" in
    let with_default = record store {
      defaults = record store.defaults { directory = directory };
    } in
    if is_empty config_home then (with_default, paths) else (
      record with_default { has_path = true },
      record {
        path = config_home /path codes "klip" /path codes "config.json";
        legacy_path = config_home /path codes "klip" /path codes "Klip.conf";
      },
    )
