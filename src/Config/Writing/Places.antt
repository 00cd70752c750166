-- ===== src/Config/Writing/Places.antt =====
-- Where the assignments of `WriteSettingsJson` of src/config/private/settings_json.cpp leave a value.
use klip.Base.{
  true, Bytes, Option, none, some, List, [], ◌∷◌, ◌≡◌, refl, ◌∙◌, arith, equal, if◌then◌else◌,
  Option-cases, Bool-cases, inl, inr,
}
use klip.Json.{Json, IsLawful, Kind, Leaf, object, kind_at}
use klip.Config.Reading.{as_object}
use klip.Config.Schema.Sections.{object_of}
use klip.Config.Writing.{parse_kept, get_section, assign_all, in_section}

abbrev or_else : Option Leaf → Option Leaf → Option Leaf
or_else none other = other
or_else (some l) other = some l

-- The last assignment to a key.
abbrev pub last_entry : Bytes → List (Bytes × Leaf) → Option Leaf
last_entry i [] = none
last_entry i ((k, l) ∷ entries) =
    or_else (last_entry i entries) (if equal k i then some l else none)

as_object-object : (k : Kind) → as_object k ≡ true → k ≡ object
unfolding as_object
as_object-object object h = refl
as_object-object k h = ground arith

module _ (j : Json) (law : IsLawful j) where
  pub parse_kept-object : (kept : Bytes) → j.kind (parse_kept j kept) ≡ object
  unfolding parse_kept
  parse_kept-object kept = elim (Option-cases (j.parse kept)) [
    | inl bad ↦ rw (bad, parse_kept) law.kind-empty
    | inr (v, parsed) ↦ elim (Bool-cases (as_object (j.kind v))) [
      | inl yes_object ↦ rw (parsed, yes_object, parse_kept) (as_object-object _ yes_object)
      | inr other ↦ rw (parsed, other, parse_kept) law.kind-empty
    ]
  ]

  pub get_section-object : (v : j.Value) (key : Bytes) → j.kind (get_section j v key) ≡ object
  unfolding get_section
  get_section-object v key = elim (Option-cases (j.find v key)) [
    | inl bad ↦ rw (bad, get_section) law.kind-empty
    | inr (w, found) ↦ elim (Bool-cases (as_object (j.kind w))) [
      | inl yes_object ↦ rw (found, yes_object, get_section) (as_object-object _ yes_object)
      | inr other ↦ rw (found, other, get_section) law.kind-empty
    ]
  ]

  -- The values of a section are those that stood at its path.
  pub kind_at-get_section :
      (v : j.Value) (key i : Bytes) (path : List Bytes)
      → kind_at j (i ∷ path) (get_section j v key) ≡ kind_at j (key ∷ i ∷ path) v
  unfolding get_section
  kind_at-get_section v key i path = elim (Option-cases (j.find v key)) [
    | inl bad ↦ rw (bad, get_section, kind_at) (rw (law.find-empty i, kind_at) refl)
    | inr (w, found) ↦ elim (Bool-cases (as_object (j.kind w))) [
      | inl yes_object ↦ rw (found, yes_object, get_section, kind_at) refl
      | inr other ↦
          let bare : j.find w i ≡ none = law.find_other w i (λ e. object_of _ e other) in
          rw (found, other, get_section, kind_at) (rw (law.find-empty i, bare, kind_at) refl)
    ]
  ]

  pub kind_at-assign :
      (v w : j.Value) (key i : Bytes) (path : List Bytes)
      → j.kind v ≡ object
      → kind_at j (i ∷ path) (j.assign v key w)
        ≡ (if equal key i then kind_at j path w else kind_at j (i ∷ path) v)
  kind_at-assign v w key i path obj = elim (Bool-cases (equal key i)) [
    | inl same ↦ rw (law.find-assign v w key i obj, same, kind_at) refl
    | inr other ↦ rw (law.find-assign v w key i obj, other, kind_at) refl
  ]

  pub assign_all-object :
      (entries : List (Bytes × Leaf)) (v : j.Value)
      → j.kind v ≡ object
      → j.kind (assign_all j entries v) ≡ object
  unfolding assign_all
  assign_all-object [] v obj = obj
  assign_all-object ((k, l) ∷ entries) v obj =
      assign_all-object entries (j.assign v k (j.make l)) (law.kind-assign v (j.make l) k obj)

  -- A key holds its last assignment, and what it held where none is made.
  abbrev pub held : Option Leaf → List Bytes → Option Kind → Option Kind
  held none path old = old
  held (some l) path old = kind_at j path (j.make l)

  pub kind_at-assign_all :
      (entries : List (Bytes × Leaf)) (v : j.Value) (i : Bytes) (path : List Bytes)
      → j.kind v ≡ object
      → kind_at j (i ∷ path) (assign_all j entries v)
        ≡ held (last_entry i entries) path (kind_at j (i ∷ path) v)
  unfolding assign_all
  kind_at-assign_all [] v i path obj = refl
  kind_at-assign_all ((k, l) ∷ entries) v i path obj =
      kind_at-assign_all entries (j.assign v k (j.make l)) i path
        (law.kind-assign v (j.make l) k obj)
      ∙ elim (Option-cases (last_entry i entries)) [
        | inr (later, e) ↦ rw e refl
        | inl e ↦ elim (Bool-cases (equal k i)) [
          | inl same ↦ rw (e, same) (kind_at-assign v (j.make l) k i path obj ∙ rw same refl)
          | inr other ↦ rw (e, other) (kind_at-assign v (j.make l) k i path obj ∙ rw other refl)
        ]
      ]

  pub in_section-object :
      (key : Bytes) (change : j.Value → j.Value) (v : j.Value)
      → j.kind v ≡ object
      → j.kind (in_section j key change v) ≡ object
  unfolding in_section
  in_section-object key change v obj = law.kind-assign v _ key obj

  pub kind_at-in_section :
      (key : Bytes) (change : j.Value → j.Value) (v : j.Value) (i : Bytes) (path : List Bytes)
      → j.kind v ≡ object
      → kind_at j (i ∷ path) (in_section j key change v) ≡ (
          if equal key i
          then kind_at j path (change (get_section j v key))
          else kind_at j (i ∷ path) v)
  unfolding in_section
  kind_at-in_section key change v i path obj =
      kind_at-assign v (change (get_section j v key)) key i path obj
