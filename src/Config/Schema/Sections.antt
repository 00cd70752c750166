-- ===== src/Config/Schema/Sections.antt =====
-- The readers of src/config/private/settings_json.cpp one after the other, and a section with what
-- it holds.
use mathlib.Core.Path.{fun_ext}
use klip.Base.{
  ℕ, false, Bytes, Option, none, List, [], ◌∷◌, ◌++◌, ◌≡◌, ◌≢◌, refl, ◌∙◌, ap, arith, append_assoc,
  append-nil, Option-cases, Bool-cases, inl, inr,
}
use klip.Json.{Json, IsLawful, Kind, object, kind_at}
use klip.Recorder.Settings.{Settings}
use klip.Config.Document.{SettingsDocument, join_path}
use klip.Config.Names.{Member}
use klip.Config.Reading.{as_object, as_name, read_value, store_in, read_name, find_object, inside}
use klip.Config.Schema.{valid_or, is_some, rejected, outcome}
use klip.Config.Schema.Steps.{read_value-outcome, reject-outcome}

abbrev pub Look : Type 0
Look = List Bytes → Option Kind

-- What a reader does to a document: to the settings, and to the rejected paths.
pub record Leaves (read : SettingsDocument → SettingsDocument) (change : Settings → Settings)
    (invalid : List Bytes) : Type 0 where
  pub on :
      (version : ℕ) (s : Settings) (ps : List Bytes)
      → read (outcome version s ps) ≡ outcome version (change s) (ps ++ invalid)

pub then_effect :
    {f g : SettingsDocument → SettingsDocument} {c d : Settings → Settings} {ps qs : List Bytes}
    → Leaves f c ps
    → Leaves g d qs
    → Leaves (λ doc. g (f doc)) (λ s. d (c s)) (ps ++ qs)
then_effect {g} {c} {d} {ps} {qs} first second = record {
  on = λ version s before.
      ap g (first.on version s before)
      ∙ second.on version (c s) (before ++ ps)
      ∙ ap (outcome version (d (c s))) (append_assoc before ps qs);
}

-- A section that is not there, or not an object, has no values.
abbrev pub Bare : Look → Type 0
Bare look = (k : Bytes) (path : List Bytes) → look (k ∷ path) ≡ none

pub object_of : (k : Kind) → k ≡ object → as_object k ≢ false
unfolding as_object
object_of k e h = ground arith

module _ (j : Json) where
  pub value_effect :
      {A : Type 0} (parent : j.Value) (path key : Bytes) (read : Kind → Option A) (m : Member A)
      → ((s : Settings) → m.write (m.read s) s ≡ s)
      → Leaves
          (read_value j parent path key read (store_in j m))
          (λ s. m.write (valid_or read (m.read s) (kind_at j (key ∷ []) parent)) s)
          (rejected (λ k. is_some (read k)) (join_path path key) (kind_at j (key ∷ []) parent))
  value_effect parent path key read m same = record {
    on = λ version s ps. read_value-outcome j parent path key read m version s ps (same s);
  }

  pub name_effect :
      {A : Type 0} (parent : j.Value) (path key : Bytes) (parse : Bytes → A → A) (name : A → Bytes)
      (m : Member A) (read : Kind → Option A)
      → ((a : A) (k : Kind) → as_name parse name a k ≡ read k)
      → ((s : Settings) → m.write (m.read s) s ≡ s)
      → Leaves
          (read_name j parent path key parse name m)
          (λ s. m.write (valid_or read (m.read s) (kind_at j (key ∷ []) parent)) s)
          (rejected (λ k. is_some (read k)) (join_path path key) (kind_at j (key ∷ []) parent))
  unfolding read_name
  name_effect parent path key parse name m read agree same = record {
    on = λ version s ps.
        rw (fun_ext (agree (m.read s)))
          ((value_effect parent path key read m same).on version s ps);
  }

  under : Bytes → j.Value → Look
  under key root path = kind_at j (key ∷ path) root

  pub section_effect :
      (law : IsLawful j) (body : j.Value → SettingsDocument → SettingsDocument)
      (change : Look → Settings → Settings) (invalid : Look → List Bytes) (root : j.Value)
      (path key : Bytes)
      → ((v : j.Value)
          → Leaves (body v) (change (λ p. kind_at j p v)) (invalid (λ p. kind_at j p v)))
      → ((look : Look) (s : Settings) → Bare look → change look s ≡ s)
      → ((look : Look) → Bare look → invalid look ≡ [])
      → Leaves
          (λ d. inside j body (find_object j root path key d))
          (change (λ p. kind_at j (key ∷ p) root))
          (rejected as_object (join_path path key) (kind_at j (key ∷ []) root)
            ++ invalid (λ p. kind_at j (key ∷ p) root))
  unfolding find_object
  section_effect law body change invalid root path key effect still silent = record {
    on = λ version s ps. elim (Option-cases (j.find root key)) [
      | inl absent ↦
          let bare : Bare (λ p. kind_at j (key ∷ p) root) = λ k p. rw (absent, kind_at) refl in
          rw (still _ s bare, silent _ bare)
            (rw (absent, find_object, kind_at) (rw append-nil refl))
      | inr (v, found) ↦ elim (Bool-cases (as_object (j.kind v))) [
        | inl yes_object ↦
            let here : (λ (p : List Bytes). kind_at j (key ∷ p) root) ≡ (λ p. kind_at j p v) =
              fun_ext (λ p. rw (found, kind_at) refl) in
            rw here (rw (found, yes_object, find_object, kind_at) ((effect v).on version s ps))
        | inr not_object ↦
            let ne : j.kind v ≢ object = λ e. object_of (j.kind v) e not_object in
            let bare : Bare (λ p. kind_at j (key ∷ p) root) =
              λ k p. rw (found, kind_at) (rw (law.find_other v k ne, kind_at) refl) in
            rw (still _ s bare, silent _ bare)
              (rw (found, not_object, find_object, kind_at)
                (reject-outcome version s ps (join_path path key)))
      ]
    ];
  }
