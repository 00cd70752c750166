-- ===== src/Config/Schema/Steps.antt =====
-- One value at a time: what each reader of src/config/private/settings_json.cpp leaves in the document.
use klip.Base.{
  ℕ, false, Bytes, Option, none, some, List, [], ◌∷◌, ◌++◌, ◌≡◌, refl, arith, equal, append-nil,
  Option-cases, Bool-cases, equal_iff, equal_self, ◌⊎◌, inl, inr, length-append,
}
use klip.Json.{Json, Kind, leaf, text, kind_at}
use klip.Encode.Format.{
  Codec, h264, hevc, av1, Container, mp4, matroska, webm, get_container_name, parse_container,
  all_containers, get_codec_name, parse_codec, all_codecs,
}
use klip.Encode.Format.Names.{parse_codec-get_codec_name, parse_container-get_container_name}
use klip.Encode.Quality.Ladder.{parse_quality-get_quality_name}
use klip.Encode.Quality.{
  Quality, smallest, smaller, balanced, high, best, get_quality_name, parse_quality,
}
use klip.Recorder.Settings.{Settings, Source, screen, window, region}
use klip.Config.Document.{join_path, reject}
use klip.Config.Names.{Member, get_source_name, parse_source}
use klip.Config.Reading.{as_name, read_value, store_in}
use klip.Config.Schema.{named, all_qualities, all_sources, valid_or, is_some, rejected, outcome}

-- A text is the name of a value, or it is nobody's.
abbrev Spelled : {A : Type 0} → (Bytes → A → A) → (A → Bytes) → List A → A → Bytes → Type 0
Spelled {A} parse name all value s =
    ((a : A) × (name a ≡ s))
    ⊎ (((a : A) → equal (name a) s ≡ false)
        × (parse s value ≡ value)
        × (named name all (leaf (text s)) ≡ none))

as_name_text :
    {A : Type 0} (parse : Bytes → A → A) (name : A → Bytes) (all : List A) (value : A) (s : Bytes)
    → ((a : A) → parse (name a) value ≡ a)
    → ((a : A) → named name all (leaf (text (name a))) ≡ some a)
    → Spelled parse name all value s
    → as_name parse name value (leaf (text s)) ≡ named name all (leaf (text s))
unfolding as_name
as_name_text parse name all value s back found (inl (a, e)) =
    rw (← e) (rw (found a, back a, equal_self (name a)) refl)
as_name_text parse name all value s back found (inr (away, kept, nobody)) =
    rw (nobody, kept, away value) refl

as_name_lem :
    {A : Type 0} (parse : Bytes → A → A) (name : A → Bytes) (all : List A) (value : A)
    → ((a : A) → parse (name a) value ≡ a)
    → ((a : A) → named name all (leaf (text (name a))) ≡ some a)
    → ((s : Bytes) → Spelled parse name all value s)
    → (k : Kind) → as_name parse name value k ≡ named name all k
unfolding as_name named
as_name_lem parse name all value back found known (leaf (text s)) =
    as_name_text parse name all value s back found (known s)
as_name_lem parse name all value back found known _ = refl

spelling_of_codec :
    (value : Codec) (s : Bytes) → Spelled parse_codec get_codec_name all_codecs value s
unfolding parse_codec named get_codec_name
spelling_of_codec value s = elim (Bool-cases (equal (get_codec_name h264) s)) [
  | inl e ↦ inl (h264, (equal_iff _ s).0 e)
  | inr n0 ↦ elim (Bool-cases (equal (get_codec_name hevc) s)) [
    | inl e ↦ inl (hevc, (equal_iff _ s).0 e)
    | inr n1 ↦ elim (Bool-cases (equal (get_codec_name av1) s)) [
      | inl e ↦ inl (av1, (equal_iff _ s).0 e)
      | inr n2 ↦ inr (
        λ a. elim a as (λ a. equal (get_codec_name a) s ≡ false) [
          | h264 ↦ n0
          | hevc ↦ n1
          | av1 ↦ n2
        ],
        rw (n0, n1, n2) refl,
        rw (n0, n1, n2) refl,
      )
    ]
  ]
]

pub named-codec :
    (a : Codec) → named get_codec_name all_codecs (leaf (text (get_codec_name a))) ≡ some a
unfolding named get_codec_name
named-codec h264 = refl
named-codec _ = refl

pub as_name-codec :
    (value : Codec) (k : Kind)
    → as_name parse_codec get_codec_name value k ≡ named get_codec_name all_codecs k
as_name-codec value =
    as_name_lem parse_codec get_codec_name all_codecs value
      (λ a. parse_codec-get_codec_name a value) named-codec (spelling_of_codec value)

spelling_of_container :
    (value : Container) (s : Bytes)
    → Spelled parse_container get_container_name all_containers value s
unfolding parse_container named get_container_name
spelling_of_container value s = elim (Bool-cases (equal (get_container_name mp4) s)) [
  | inl e ↦ inl (mp4, (equal_iff _ s).0 e)
  | inr n0 ↦ elim (Bool-cases (equal (get_container_name matroska) s)) [
    | inl e ↦ inl (matroska, (equal_iff _ s).0 e)
    | inr n1 ↦ elim (Bool-cases (equal (get_container_name webm) s)) [
      | inl e ↦ inl (webm, (equal_iff _ s).0 e)
      | inr n2 ↦ inr (
        λ a. elim a as (λ a. equal (get_container_name a) s ≡ false) [
          | mp4 ↦ n0
          | matroska ↦ n1
          | webm ↦ n2
        ],
        rw (n0, n1, n2) refl,
        rw (n0, n1, n2) refl,
      )
    ]
  ]
]

pub named-container :
    (a : Container)
    → named get_container_name all_containers (leaf (text (get_container_name a))) ≡ some a
unfolding named get_container_name
named-container mp4 = refl
named-container _ = refl

pub as_name-container :
    (value : Container) (k : Kind)
    → as_name parse_container get_container_name value k ≡ named get_container_name all_containers k
as_name-container value =
    as_name_lem parse_container get_container_name all_containers value
      (λ a. parse_container-get_container_name a value) named-container
      (spelling_of_container value)

parse_source-get_source_name : (a value : Source) → parse_source (get_source_name a) value ≡ a
unfolding parse_source get_source_name
parse_source-get_source_name screen value = refl
parse_source-get_source_name _ value = refl

spelling_of_source :
    (value : Source) (s : Bytes) → Spelled parse_source get_source_name all_sources value s
unfolding parse_source named get_source_name
spelling_of_source value s = elim (Bool-cases (equal (get_source_name screen) s)) [
  | inl e ↦ inl (screen, (equal_iff _ s).0 e)
  | inr n0 ↦ elim (Bool-cases (equal (get_source_name window) s)) [
    | inl e ↦ inl (window, (equal_iff _ s).0 e)
    | inr n1 ↦ elim (Bool-cases (equal (get_source_name region) s)) [
      | inl e ↦ inl (region, (equal_iff _ s).0 e)
      | inr n2 ↦ inr (
        λ a. elim a as (λ a. equal (get_source_name a) s ≡ false) [
          | screen ↦ n0
          | window ↦ n1
          | region ↦ n2
        ],
        rw (n0, n1, n2) refl,
        rw (n0, n1, n2) refl,
      )
    ]
  ]
]

pub named-source :
    (a : Source) → named get_source_name all_sources (leaf (text (get_source_name a))) ≡ some a
unfolding named get_source_name
named-source screen = refl
named-source _ = refl

pub as_name-source :
    (value : Source) (k : Kind)
    → as_name parse_source get_source_name value k ≡ named get_source_name all_sources k
as_name-source value =
    as_name_lem parse_source get_source_name all_sources value
      (λ a. parse_source-get_source_name a value) named-source (spelling_of_source value)

spelling_of_quality :
    (value : Quality) (s : Bytes) → Spelled parse_quality get_quality_name all_qualities value s
unfolding parse_quality named get_quality_name
spelling_of_quality value s = elim (Bool-cases (equal (get_quality_name smallest) s)) [
  | inl e ↦ inl (smallest, (equal_iff _ s).0 e)
  | inr n0 ↦ elim (Bool-cases (equal (get_quality_name smaller) s)) [
    | inl e ↦ inl (smaller, (equal_iff _ s).0 e)
    | inr n1 ↦ elim (Bool-cases (equal (get_quality_name balanced) s)) [
      | inl e ↦ inl (balanced, (equal_iff _ s).0 e)
      | inr n2 ↦ elim (Bool-cases (equal (get_quality_name high) s)) [
        | inl e ↦ inl (high, (equal_iff _ s).0 e)
        | inr n3 ↦ elim (Bool-cases (equal (get_quality_name best) s)) [
          | inl e ↦ inl (best, (equal_iff _ s).0 e)
          | inr n4 ↦ inr (
            λ a. elim a as (λ a. equal (get_quality_name a) s ≡ false) [
              | smallest ↦ n0
              | smaller ↦ n1
              | balanced ↦ n2
              | high ↦ n3
              | best ↦ n4
            ],
            rw (n0, n1, n2, n3, n4) refl,
            rw (n0, n1, n2, n3, n4) refl,
          )
        ]
      ]
    ]
  ]
]

pub named-quality :
    (a : Quality) → named get_quality_name all_qualities (leaf (text (get_quality_name a))) ≡ some a
unfolding named get_quality_name
named-quality smallest = refl
named-quality _ = refl

pub as_name-quality :
    (value : Quality) (k : Kind)
    → as_name parse_quality get_quality_name value k ≡ named get_quality_name all_qualities k
as_name-quality value =
    as_name_lem parse_quality get_quality_name all_qualities value
      (λ a. parse_quality-get_quality_name a value) named-quality (spelling_of_quality value)

pub reject-outcome :
    (version : ℕ) (s : Settings) (ps : List Bytes) (p : Bytes)
    → reject p (outcome version s ps) ≡ outcome version s (ps ++ (p ∷ []))
unfolding reject
reject-outcome version s [] p = refl
reject-outcome version s (q ∷ ps) p = ground (arith, length-append {0} ps (p ∷ []))

module _ (j : Json) where
  pub read_value-outcome :
      {A : Type 0} (parent : j.Value) (path key : Bytes) (read : Kind → Option A) (m : Member A)
      (version : ℕ) (s : Settings) (ps : List Bytes)
      → m.write (m.read s) s ≡ s
      → read_value j parent path key read (store_in j m) (outcome version s ps)
        ≡ outcome version (m.write (valid_or read (m.read s) (kind_at j (key ∷ []) parent)) s) (
            ps
            ++ rejected (λ k. is_some (read k)) (join_path path key) (kind_at j (key ∷ []) parent))
  unfolding read_value
  read_value-outcome parent path key read m version s ps same =
      elim (Option-cases (j.find parent key)) [
        | inl absent ↦ rw (absent, read_value, kind_at) (rw (same, append-nil ps) refl)
        | inr (v, found) ↦ elim (Option-cases (read (j.kind v))) [
          | inl illegal ↦
              rw (found, illegal, read_value, kind_at)
                (rw same (reject-outcome version s ps (join_path path key)))
          | inr (a, legal) ↦ rw (found, legal, read_value, kind_at) (rw (append-nil ps) refl)
        ]
      ]
