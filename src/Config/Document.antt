-- ===== src/Config/Document.antt =====
-- src/config/private: settings_document.hpp, settings_json_error.hpp, and SettingsVersion of
-- settings_json.hpp.
use klip.Base.{ℕ, ◌+◌, Bytes, ◌++◌, ◌==◌, is_empty, if◌then◌else◌, codes}
use klip.Recorder.Settings.{Settings}

pub record SettingsDocument : Type 0 where
  pub settings : Settings
  pub version : ℕ
  pub num_invalid : ℕ
  pub first_invalid_path : Bytes

abbrev pub settings_version : ℕ
settings_version = 1

pub data SettingsJsonError : Type 0 where
  not_json not_an_object : SettingsJsonError

-- `std::expected<T, ESettingsJsonError>`.
pub data Expected {ℓ} (A : Type ℓ) : Type ℓ where
  ok : A → Expected A
  unexpected : SettingsJsonError → Expected A

abbrev pub join_path : Bytes → Bytes → Bytes
join_path parent key = if is_empty parent then key else parent ++ codes "." ++ key

-- The count is 32 bits wide; a file has at most 21 values that are read.
unfoldable pub reject : Bytes → SettingsDocument → SettingsDocument
reject path document = record document {
  first_invalid_path = if document.num_invalid == 0 then path else document.first_invalid_path;
  num_invalid = document.num_invalid + 1;
}
