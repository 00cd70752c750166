-- ===== src/Json.antt =====
-- What src/json and src/config use of nlohmann::ordered_json: the values, their members, the parser
-- and the printer, as a record of operations. `IsLawful` is what is documented of them.
pub mod Files
use mathlib.Core.Option
use klip.Base.{
  ℕ, Bool, true, Bytes, ℤ, pos, Option, none, some, List, [], ◌∷◌, ◌++◌, ◌≡◌, ◌≢◌, ◌<◌, equal,
  if◌then◌else◌, All,
}

-- The values without members.
pub data Leaf : Type 0 where
  null : Leaf
  boolean : Bool → Leaf
  text : Bytes → Leaf
  unsigned : ℕ → Leaf
  integer : ℤ → Leaf

-- `other` is an array or a float, with the text that is printed of it.
pub data Kind : Type 0 where
  leaf : Leaf → Kind
  object : Kind
  other : Bytes → Kind

pub record Json : Type 1 where
  pub Value : Type 0
  -- `is_object()`, `is_string()` and the like, with what `get` answers.
  pub kind : Value → Kind
  -- `find(key)`; `none` is the end.
  pub find : Value → Bytes → Option Value
  -- `parent[key] = value`.
  pub assign : Value → Bytes → Value → Value
  pub make : Leaf → Value
  -- `JsonValue::object()`.
  pub empty : Value
  -- `parse` without exceptions; `none` is a discarded value.
  pub parse : Bytes → Option Value
  -- `dump()`, which aborts with `none` on a string that is not UTF-8.
  pub dump : Value → Option Bytes
  -- `dump` with an indent, and with what is not UTF-8 replaced.
  pub print : Value → Bytes
  pub utf8 : Bytes → Bool

-- A number that is not negative is parsed as an unsigned one.
abbrev pub stored_kind : Kind → Kind
stored_kind (leaf (integer (pos n))) = leaf (unsigned n)
stored_kind k = k

abbrev pub newline : ℕ
newline = 10

module _ (j : Json) where
  -- What stands at the end of a path of keys.
  abbrev pub kind_at : List Bytes → j.Value → Option Kind
  kind_at [] v = some (j.kind v)
  kind_at (k ∷ path) v = elim (j.find v k) [ none ↦ none | some w ↦ kind_at path w ]

  -- The value that the parser gives back for a printed one.
  abbrev pub Rereads : j.Value → j.Value → Type 0
  Rereads v w = (path : List Bytes) → kind_at path w ≡ Option.map stored_kind (kind_at path v)

  -- A text that is read back as the value.
  abbrev pub Stores : Bytes → j.Value → Type 0
  Stores t v = (w : j.Value) × (j.parse t ≡ some w) × Rereads v w

pub record IsLawful (j : Json) : Type 1 where
  pub kind-make : (l : Leaf) → j.kind (j.make l) ≡ leaf l
  pub kind-empty : j.kind j.empty ≡ object
  pub find-empty : (k : Bytes) → j.find j.empty k ≡ none
  pub find_other : (v : j.Value) (k : Bytes) → j.kind v ≢ object → j.find v k ≡ none
  pub kind-assign :
      (v w : j.Value) (k : Bytes) → j.kind v ≡ object → j.kind (j.assign v k w) ≡ object
  pub find-assign :
      (v w : j.Value) (k i : Bytes)
      → j.kind v ≡ object
      → j.find (j.assign v k w) i ≡ (if equal k i then some w else j.find v i)
  -- Every string in the value is UTF-8.
  pub IsUtf8 : j.Value → Type 0
  pub make-IsUtf8 : (l : Leaf) → ((s : Bytes) → l ≡ text s → j.utf8 s ≡ true) → IsUtf8 (j.make l)
  pub empty-IsUtf8 : IsUtf8 j.empty
  pub assign-IsUtf8 :
      (v w : j.Value) (k : Bytes) → IsUtf8 v → IsUtf8 w → j.utf8 k ≡ true → IsUtf8 (j.assign v k w)
  pub find-IsUtf8 : (v w : j.Value) (k : Bytes) → IsUtf8 v → j.find v k ≡ some w → IsUtf8 w
  pub parse-IsUtf8 : (t : Bytes) (v : j.Value) → j.parse t ≡ some v → IsUtf8 v
  pub utf8_ascii : (s : Bytes) → All (λ c. c < 128) s → j.utf8 s ≡ true
  -- A value of UTF-8 strings is read back from what is printed of it: a float is printed with all
  -- its digits, and an array with its elements in order.
  pub parse-print : (v : j.Value) → IsUtf8 v → Stores j (j.print v ++ (newline ∷ [])) v
  pub parse-dump : (v : j.Value) → IsUtf8 v → (t : Bytes) × (j.dump v ≡ some t) × Stores j t v
  -- What is printed without replacing holds only UTF-8.
  pub dump-IsUtf8 : (v : j.Value) (t : Bytes) → j.dump v ≡ some t → IsUtf8 v
  pub text-IsUtf8 :
      (v : j.Value) (b : Bytes) → IsUtf8 v → j.kind v ≡ leaf (text b) → j.utf8 b ≡ true
