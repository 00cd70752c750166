-- ===== src/Config/XdgPaths/Videos.antt =====
-- src/config/private/xdg_paths.cpp: the videos directory that user-dirs.dirs names.
use klip.Base.{
  ℕ, Bool, true, false, not, ◌&&◌, Bytes, codes, Option, none, some, List, [], ◌∷◌, ◌++◌, ◌≡◌, ◌⊎◌,
  refl, ◌∙◌, ap, arith, is_empty, length, length-append, ltb, if◌then◌else◌, strip_prefix,
  strip_prefix-append, All, Bool-cases, inl, inr,
}
use klip.Config.KlipConf.Text.{lines, ends_with, without_last}
use klip.Config.Store.{ReadResult, content, SettingsStore}
use klip.Config.XdgPaths.{
  videos_key, home_variable, is_absolute, ◌/path◌, Environment, get_absolute_variable, get_home,
  get_config_home, unquote, expand, drop_slash, found_after, find_in, found_in,
  find_videos_directory, get_videos_directory, StorePaths, initialize_store,
}

-- The line that xdg-user-dirs writes for a directory below the home directory.
abbrev pub videos_line : Bytes → Bytes
videos_line rest = videos_key ++ (34 ∷ home_variable ++ (b'/' ∷ rest) ++ (34 ∷ []))

abbrev pub NoKey : Bytes → Type 0
NoKey line = strip_prefix videos_key line ≡ none

ends_with-append : (b c : ℕ) (xs ys : Bytes) → ends_with b (xs ++ (c ∷ ys)) ≡ ends_with b (c ∷ ys)
ends_with-append b c [] ys = refl
ends_with-append b c (x ∷ []) ys = refl
ends_with-append b c (x ∷ y ∷ xs) ys = ends_with-append b c (y ∷ xs) ys

without_last-append : (c : ℕ) (xs : Bytes) → without_last (xs ++ (c ∷ [])) ≡ xs
without_last-append c [] = refl
without_last-append c (x ∷ []) = refl
without_last-append c (x ∷ y ∷ xs) = ap (λ r. x ∷ r) (without_last-append c (y ∷ xs))

find_in-after :
    (after : List Bytes) (home found : Bytes) → All NoKey after → find_in after home found ≡ found
unfolding find_in found_after
find_in-after [] home found h = refl
find_in-after (line ∷ rest) home found (h, more) = rw h (find_in-after rest home found more)

find_in-last :
    (before after : List Bytes) (line value home found : Bytes)
    → strip_prefix videos_key line ≡ some value
    → All NoKey after
    → (left : Bytes) × (find_in (before ++ (line ∷ after)) home found
        ≡ found_after home left (some value))
unfolding find_in
find_in-last [] after line value home found h none_after = (
  found,
  ap (λ v. find_in after home (found_after home found v)) h
      ∙ find_in-after after home (found_after home found (some value)) none_after,
)
find_in-last (b ∷ before) after line value home found h none_after =
    find_in-last before after line value home (found_after home found (strip_prefix videos_key b)) h
      none_after

unquote-quoted : (c : ℕ) (t : Bytes) → unquote (34 ∷ (c ∷ t) ++ (34 ∷ [])) ≡ c ∷ t
unfolding unquote
unquote-quoted c t =
    let ends : ends_with 34 ((34 ∷ (c ∷ t)) ++ (34 ∷ [])) ≡ true =
      ends_with-append 34 34 (34 ∷ c ∷ t) [] in
    let long : ltb 2 (length (34 ∷ (c ∷ t) ++ (34 ∷ []))) ≡ true =
      ground (arith, length-append {0} t (34 ∷ [])) in
    rw (ends, long) (without_last-append 34 (c ∷ t))

if-and_false : (b : Bool) (x y : Bytes) → (if b && false then x else y) ≡ y
if-and_false true x y = refl
if-and_false false x y = refl

-- What such a line names.
found_after-videos_line :
    (home found rest : Bytes) (c : ℕ)
    → ends_with b'/' (c ∷ rest) ≡ false
    → found_after home found (some (34 ∷ home_variable ++ (b'/' ∷ c ∷ rest) ++ (34 ∷ [])))
      ≡ home ++ (b'/' ∷ c ∷ rest)
unfolding found_after expand drop_slash
found_after-videos_line home found rest c h =
    let quoted = unquote-quoted b'$' (codes "HOME" ++ (b'/' ∷ c ∷ rest)) in
    let kept : ends_with b'/' (home ++ (b'/' ∷ c ∷ rest)) ≡ false =
      ends_with-append b'/' b'/' home (c ∷ rest) ∙ h in
    rw (quoted, kept) (if-and_false (ltb 1 (length (home ++ (b'/' ∷ c ∷ rest)))) _ _)

get_absolute_variable-absolute :
    (value : Option Bytes)
    → get_absolute_variable value ≡ [] ⊎ is_absolute (get_absolute_variable value) ≡ true
get_absolute_variable-absolute none = inl refl
get_absolute_variable-absolute (some value) = elim (Bool-cases (is_absolute value)) [
  | inl absolute ↦ inr (rw absolute absolute)
  | inr relative ↦ inl (rw relative refl)
]

path-absolute :
    (home name : Bytes)
    → is_absolute home ≡ true
    → is_absolute name ≡ false
    → is_absolute (home /path name) ≡ true
path-absolute [] name h relative = absurd (cc)
path-absolute (c ∷ home) name h relative = elim (Bool-cases (ends_with b'/' (c ∷ home))) [
  | inl ends ↦ rw (relative, ends) h
  | inr open_end ↦ rw (relative, open_end) h
]

choice-absolute :
    (config home : Bytes)
    → config ≡ [] ⊎ is_absolute config ≡ true
    → is_absolute home ≡ true
    → is_absolute
        (if is_empty config && not (is_empty home) then home /path codes ".config" else config)
      ≡ true
choice-absolute [] [] either h = absurd (cc)
choice-absolute [] (c ∷ home) either h = path-absolute (c ∷ home) (codes ".config") h refl
choice-absolute (c ∷ config) home (inl same) h = absurd (cc)
choice-absolute (c ∷ config) home (inr absolute) h = absolute

-- A home directory is a place for config.json, where no other is named.
get_config_home-absolute :
    (env : Environment)
    → is_absolute (get_home env) ≡ true
    → is_absolute (get_config_home env) ≡ true
unfolding get_config_home
get_config_home-absolute env h =
    choice-absolute (get_absolute_variable env.config_home) (get_home env)
      (get_absolute_variable-absolute env.config_home) h

initialize_store-directory :
    (config_home home : Bytes) (user_dirs : ReadResult) (store : SettingsStore) (paths : StorePaths)
    → (initialize_store config_home home user_dirs (store, paths)).0.defaults.directory
      ≡ get_videos_directory config_home home user_dirs /path codes "klip-captures"
unfolding initialize_store
initialize_store-directory config_home home user_dirs store paths =
    elim (Bool-cases (is_empty config_home)) [
      | inl empty ↦ rw empty refl
      | inr placed ↦ rw placed refl
    ]

is_empty-append : (home : Bytes) (c : ℕ) (rest : Bytes) → is_empty (home ++ (c ∷ rest)) ≡ false
is_empty-append [] c rest = refl
is_empty-append (h ∷ home) c rest = refl

get_videos_directory-videos_line :
    (config_home home text rest : Bytes) (c : ℕ) (before after : List Bytes)
    → is_absolute config_home ≡ true
    → lines text ≡ before ++ (videos_line (c ∷ rest) ∷ after)
    → All NoKey after
    → ends_with b'/' (c ∷ rest) ≡ false
    → get_videos_directory config_home home (content text) ≡ home ++ (b'/' ∷ c ∷ rest)
unfolding get_videos_directory found_in find_videos_directory
get_videos_directory-videos_line config_home home text rest c before after absolute same none_after
      open_end =
    let line =
      strip_prefix-append videos_key (34 ∷ home_variable ++ (b'/' ∷ c ∷ rest) ++ (34 ∷ [])) in
    let (left, last) =
      find_in-last before after (videos_line (c ∷ rest)) _ home [] line none_after in
    let found = last ∙ found_after-videos_line home left rest c open_end in
    rw (absolute, same, found, is_empty-append home b'/' (c ∷ rest)) refl

captures_below :
    (home rest : Bytes) (c : ℕ)
    → ends_with b'/' (c ∷ rest) ≡ false
    → (home ++ (b'/' ∷ c ∷ rest)) /path codes "klip-captures"
      ≡ home ++ (b'/' ∷ c ∷ rest) ++ codes "/klip-captures"
captures_below home rest c open_end =
    let kept = ends_with-append b'/' b'/' home (c ∷ rest) ∙ open_end in
    rw (is_empty-append home b'/' (c ∷ rest), kept) refl

-- Where the home directory is absolute, a user-dirs.dirs whose last line for the videos names a
-- directory below it makes this directory, with klip-captures below it, the default.
pub initialize_store-videos_line :
    (env : Environment) (text rest : Bytes) (c : ℕ) (before after : List Bytes)
    (store : SettingsStore) (paths : StorePaths)
    → is_absolute (get_home env) ≡ true
    → lines text ≡ before ++ (videos_line (c ∷ rest) ∷ after)
    → All NoKey after
    → ends_with b'/' (c ∷ rest) ≡ false
    → (initialize_store
        (get_config_home env)
        (get_home env)
        (content text)
        (store, paths)).0.defaults.directory
      ≡ get_home env ++ (b'/' ∷ c ∷ rest) ++ codes "/klip-captures"
initialize_store-videos_line env text rest c before after store paths absolute same none_after
      open_end =
    let found =
      get_videos_directory-videos_line (get_config_home env) (get_home env) text rest c before after
        (get_config_home-absolute env absolute) same none_after open_end in
    initialize_store-directory (get_config_home env) (get_home env) (content text) store paths
    ∙ ap (λ d. d /path codes "klip-captures") found
    ∙ captures_below (get_home env) rest c open_end
