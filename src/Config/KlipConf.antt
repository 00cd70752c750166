-- ===== src/Config/KlipConf.antt =====
-- src/config/private/klip_conf.cpp: the settings of an old Klip, which QSettings wrote. The loops
-- over an index are recursions on what is left of the text.
pub mod Text
pub mod Object
use klip.Base.{
  ℕ, ◌<◌, Bool, true, false, ◌&&◌, Bytes, codes, Option, none, some, List, [], ◌∷◌, equal, ℤ, pos,
  negsuc, lebℤ, if◌then◌else◌, ◌==◌, ◌||◌,
}
use klip.Json.{Json, Leaf, null, text, boolean, integer}
use klip.Config.KlipConf.Text.{lines, trim, split_at, section_name, unescape, parse_integer}

pub data LegacyKind : Type 0 where
  string_value boolean_value integer_value source_value : LegacyKind

pub record LegacyKey : Type 0 where
  pub section : Bytes
  pub key : Bytes
  pub pointer : List Bytes
  pub kind : LegacyKind

abbrev legacy : Bytes → Bytes → List Bytes → LegacyKind → LegacyKey
legacy section key pointer kind = record {
  section = section;
  key = key;
  pointer = pointer;
  kind = kind;
}

abbrev pub legacy_keys : List LegacyKey
legacy_keys =
    legacy (codes "output") (codes "directory") (codes "output" ∷ codes "directory" ∷ [])
      string_value
    ∷ legacy (codes "output") (codes "container") (codes "output" ∷ codes "container" ∷ [])
        string_value
    ∷ legacy (codes "output") (codes "codec") (codes "output" ∷ codes "codec" ∷ []) string_value
    ∷ legacy (codes "output") (codes "quality") (codes "output" ∷ codes "quality" ∷ []) string_value
    ∷ legacy (codes "capture") (codes "source") (codes "capture" ∷ codes "source" ∷ []) source_value
    ∷ legacy (codes "capture") (codes "frameRate") (codes "capture" ∷ codes "frameRate" ∷ [])
        integer_value
    ∷ legacy (codes "capture") (codes "rememberWindow")
        (codes "capture" ∷ codes "rememberWindow" ∷ []) boolean_value
    ∷ legacy (codes "audio") (codes "systemEnabled")
        (codes "audio" ∷ codes "system" ∷ codes "enabled" ∷ []) boolean_value
    ∷ legacy (codes "audio") (codes "systemDevice")
        (codes "audio" ∷ codes "system" ∷ codes "device" ∷ []) string_value
    ∷ legacy (codes "audio") (codes "systemGain")
        (codes "audio" ∷ codes "system" ∷ codes "gain" ∷ []) integer_value
    ∷ legacy (codes "audio") (codes "microphoneEnabled")
        (codes "audio" ∷ codes "microphone" ∷ codes "enabled" ∷ []) boolean_value
    ∷ legacy (codes "audio") (codes "microphoneDevice")
        (codes "audio" ∷ codes "microphone" ∷ codes "device" ∷ []) string_value
    ∷ legacy (codes "audio") (codes "microphoneGain")
        (codes "audio" ∷ codes "microphone" ∷ codes "gain" ∷ []) integer_value
    ∷ legacy (codes "audio") (codes "quality") (codes "audio" ∷ codes "quality" ∷ []) string_value
    ∷ legacy (codes "portal") (codes "restoreToken\\screen")
        (codes "portal" ∷ codes "restoreTokens" ∷ codes "screen" ∷ []) string_value
    ∷ legacy (codes "portal") (codes "restoreToken\\window")
        (codes "portal" ∷ codes "restoreTokens" ∷ codes "window" ∷ []) string_value
    ∷ []

-- `LegacySources[number]`, for a number in range.
abbrev pub legacy_source : ℤ → Option Bytes
legacy_source (negsuc n) = none
legacy_source (pos n) =
    if n == 0
    then some (codes "screen")
    else if n == 1
    then some (codes "window")
    else if n == 2
    then some (codes "region")
    else none

unfoldable pub convert : LegacyKind → Bytes → Leaf
unfolding equal parse_integer
convert string_value t = text t
convert boolean_value t =
    if equal t (codes "true") || equal t (codes "false")
    then boolean (equal t (codes "true"))
    else text t
convert integer_value t = elim (parse_integer t) [ none ↦ text t | some n ↦ integer n ]
convert source_value t = elim (parse_integer t) [
  | none ↦ text t
  | some n ↦ elim (legacy_source n) [ none ↦ text t | some name ↦ text name ]
]

-- `std::ranges::find_if` over the table.
unfoldable pub find_legacy : Bytes → Bytes → List LegacyKey → Option LegacyKey
unfolding equal
find_legacy section key [] = none
find_legacy section key (l ∷ rest) =
    if equal l.section section && equal l.key key then some l else find_legacy section key rest

-- What is stored for a value that could be unescaped, or could not.
abbrev pub converted : LegacyKind → Option Bytes → Leaf
converted kind none = null
converted kind (some t) = convert kind t

-- The variables of the loop of `ConvertKlipConf`.
pub record Conversion (j : Json) : Type 0 where
  pub section : Bytes
  pub root : j.Value

module _ (j : Json) where
  -- The member that a step of a pointer leads to; a missing one is made an object.
  abbrev pub member_at : j.Value → Bytes → j.Value
  member_at v key = elim (j.find v key) [ none ↦ j.empty | some w ↦ w ]

  -- `root[pointer] = value`.
  unfoldable pub assign_pointer : List Bytes → Leaf → j.Value → j.Value
  assign_pointer [] l v = j.make l
  assign_pointer (key ∷ path) l v = j.assign v key (assign_pointer path l (member_at v key))

  unfoldable pub convert_entry : Option LegacyKey → Bytes → Conversion j → Conversion j
  unfolding assign_pointer unescape trim convert
  convert_entry none raw c = c
  convert_entry (some l) raw c = record c {
    root = assign_pointer l.pointer (converted l.kind (unescape (trim raw))) c.root;
  }

  abbrev pub convert_pair : Option (Bytes × Bytes) → Conversion j → Conversion j
  convert_pair none c = c
  convert_pair (some (before, after)) c =
      convert_entry (find_legacy c.section (trim before) legacy_keys) after c

  unfoldable pub convert_line : Bytes → Conversion j → Conversion j
  unfolding section_name split_at find_legacy convert_entry
  convert_line line c = elim (section_name line) [
    | some name ↦ record c { section = name }
    | none ↦ convert_pair (split_at b'=' line) c
  ]

  unfoldable pub convert_lines : List Bytes → Conversion j → Conversion j
  unfolding convert_line
  convert_lines [] c = c
  convert_lines (line ∷ rest) c = convert_lines rest (convert_line (trim line) c)

  abbrev pub new_conversion : Conversion j
  new_conversion = record { section = []; root = j.empty }

  unfoldable pub convert_klip_conf : Bytes → Option Bytes
  unfolding convert_lines lines
  convert_klip_conf content = j.dump (convert_lines (lines content) new_conversion).root
