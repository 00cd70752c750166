-- ===== src/Config/KlipConf/Text.antt =====
-- src/config/private/klip_conf.cpp: the text of Klip.conf, its lines, values and numbers.
use klip.Base.{
  ℕ, zero, suc, ◌+◌, ◌-◌, ◌*◌, ◌^◌, Bool, true, false, not, ◌&&◌, ◌||◌, Bytes, codes, Option, none,
  some, List, [], ◌∷◌, ◌++◌, is_empty, ℤ, pos, negsuc, leb, ltb, ◌==◌, if◌then◌else◌, strip_prefix,
  last_match,
}
use klip.Json.{newline}

abbrev cons_first : ℕ → List Bytes → List Bytes
cons_first c [] = (c ∷ []) ∷ []
cons_first c (line ∷ rest) = (c ∷ line) ∷ rest

-- The lines that the loop over `start` takes.
unfoldable pub lines : Bytes → List Bytes
lines [] = []
lines (c ∷ rest) = let more = lines rest in if c == newline then [] ∷ more else cons_first c more

abbrev pub is_blank : ℕ → Bool
is_blank c = c == 32 || c == 9 || c == 13

unfoldable pub trim_start : Bytes → Bytes
trim_start [] = []
trim_start (c ∷ rest) = if is_blank c then trim_start rest else c ∷ rest

unfoldable pub trim_end : Bytes → Bytes
trim_end [] = []
trim_end (c ∷ rest) =
    let kept = trim_end rest in if is_blank c && is_empty kept then [] else c ∷ kept

unfoldable pub trim : Bytes → Bytes
unfolding trim_start trim_end
trim text = trim_end (trim_start text)

abbrev with_head : ℕ → Option (Bytes × Bytes) → Option (Bytes × Bytes)
with_head c none = none
with_head c (some (before, after)) = some (c ∷ before, after)

-- The text before the first such byte, and after it.
unfoldable pub split_at : ℕ → Bytes → Option (Bytes × Bytes)
split_at b [] = none
split_at b (c ∷ rest) = if c == b then some ([], rest) else with_head c (split_at b rest)

abbrev pub without_last : Bytes → Bytes
without_last [] = []
without_last (c ∷ []) = []
without_last (c ∷ d ∷ rest) = c ∷ without_last (d ∷ rest)

abbrev pub ends_with : ℕ → Bytes → Bool
ends_with b [] = false
ends_with b (c ∷ []) = c == b
ends_with b (c ∷ d ∷ rest) = ends_with b (d ∷ rest)

-- The name in a line `[name]`.
unfoldable pub section_name : Bytes → Option Bytes
section_name [] = none
section_name (c ∷ rest) =
    if c == b'[' && ends_with b']' rest then some (without_last rest) else none

pub record Escape : Type 0 where
  pub code : ℕ
  pub value : ℕ

abbrev escape : ℕ → ℕ → Escape
escape c v = record { code = c; value = v }

abbrev pub escapes : List Escape
escapes =
    escape b'a' 7
    ∷ escape b'b' 8
    ∷ escape b'f' 12
    ∷ escape b'n' 10
    ∷ escape b'r' 13
    ∷ escape b't' 9
    ∷ escape b'v' 11
    ∷ escape 34 34
    ∷ escape b'?' b'?'
    ∷ escape 39 39
    ∷ escape 92 92
    ∷ []

-- No code stands twice in the table, so the last match is the first.
abbrev pub find_escape : ℕ → Option ℕ
find_escape c = last_match (λ e. e.code == c) (λ e. some e.value) none escapes

-- The variables of the loop of `Unescape`; `is_escaped` while the index is behind a backslash.
pub record Unescaping : Type 0 where
  pub value : Bytes
  pub is_valid : Bool
  pub is_quoted : Bool
  pub is_escaped : Bool

abbrev append_escape : Option ℕ → Unescaping → Unescaping
append_escape none u = record u { is_valid = false; is_escaped = false }
append_escape (some v) u = record u { value = u.value ++ (v ∷ []); is_escaped = false }

unfoldable pub unescape_byte : ℕ → Unescaping → Unescaping
unescape_byte c u =
    if u.is_escaped
    then append_escape (find_escape c) u
    else if c == 92
    then record u { is_escaped = true }
    else if c == 34
    then record u { is_quoted = not u.is_quoted }
    else record u { is_valid = u.is_quoted || not (c == b','); value = u.value ++ (c ∷ []) }

unfoldable pub unescape_all : Bytes → Unescaping → Unescaping
unfolding unescape_byte
unescape_all [] u = u
unescape_all (c ∷ rest) u = unescape_all rest (if u.is_valid then unescape_byte c u else u)

-- `value.erase(0, 1)` of a value that starts with "@@".
abbrev pub undouble : Bytes → Bytes
undouble value = elim (strip_prefix (codes "@@") value) [ none ↦ value | some rest ↦ b'@' ∷ rest ]

unfoldable pub unescape : Bytes → Option Bytes
unfolding unescape_all
unescape raw =
    let u =
      unescape_all raw
        (record { value = []; is_valid = true; is_quoted = false; is_escaped = false }) in
    if u.is_valid && not u.is_escaped then some (undouble u.value) else none

abbrev more_digit : ℕ → Option ℕ → Option ℕ
more_digit c none = none
more_digit c (some n) = if leb b'0' c && leb c b'9' then some (n * 10 + (c - b'0')) else none

abbrev digits_onto : Bytes → Option ℕ → Option ℕ
digits_onto [] n = n
digits_onto (c ∷ rest) n = digits_onto rest (more_digit c n)

-- The number that a text of digits and nothing else is.
unfoldable pub parse_digits : Bytes → Option ℕ
parse_digits [] = none
parse_digits (c ∷ rest) = digits_onto (c ∷ rest) (some 0)

abbrev negate : ℕ → ℤ
negate zero = pos 0
negate (suc n) = negsuc n

-- `std::from_chars` for an `int64_t` that takes the whole text.
unfoldable pub parse_integer : Bytes → Option ℤ
unfolding parse_digits
parse_integer text = elim (strip_prefix (codes "-") text) [
  | none ↦ elim (parse_digits text) [
    | none ↦ none
    | some n ↦ if ltb n (2 ^ 63) then some (pos n) else none
  ]
  | some rest ↦ elim (parse_digits rest) [
    | none ↦ none
    | some n ↦ if leb n (2 ^ 63) then some (negate n) else none
  ]
]
