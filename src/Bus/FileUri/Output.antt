-- ===== src/Bus/FileUri/Output.antt =====
-- src/bus/private/file_uri.cpp: what `ToFileUri` and `ToLocalPath` may put out.
use klip.Base.{
  ℕ, ◌<◌, ◌≤◌, ◌/◌, ◌%◌, sym, ◌∙◌, codes, append_assoc, append-nil, ◌≡◌, ◌≢◌, ◌⊎◌, inl, inr, refl,
  true, [], ◌∷◌, ◌++◌, Option, none, some, Bytes, All, All-append, arith, ◌==◌, Bool-cases,
  Option-cases, strip_prefix,
}
use klip.Bus.FileUri.RoundTrip.{decode-plain}
use klip.Bus.FileUri.{
  is_kept_as_is, get_hex_value, hex_digit, uri_byte, append_escaped, to_file_uri, escaped_byte,
  decode, is_rooted, to_local_path, decode_rooted, without_host, scheme, local_host, or_empty,
}

-- A byte between two others.
abbrev pub IsBetween : ℕ → ℕ → ℕ → Type 0
IsBetween low high b = (low ≤ b) × (b ≤ high)

-- The unreserved characters of RFC 3986, and the slash between the parts of a path.
abbrev pub IsPlain : ℕ → Type 0
IsPlain b =
    (IsBetween 65 90 b ⊎ IsBetween 97 122 b)
    ⊎ ((IsBetween 45 47 b ⊎ IsBetween 48 57 b) ⊎ ((b ≡ 95) ⊎ (b ≡ 126)))

-- A digit of an escape, a capital where it is a letter.
abbrev pub IsDigit : ℕ → Type 0
IsDigit b = IsBetween 48 57 b ⊎ IsBetween 65 70 b

-- The path of a URI: plain characters, and `%` with two digits.
pub data IsUriPath : Bytes → Type 0 where
  end : IsUriPath []
  literal : {c : ℕ} {rest : Bytes} → IsPlain c → IsUriPath rest → IsUriPath (c ∷ rest)
  escaped :
      {high low : ℕ} {rest : Bytes}
      → IsDigit high
      → IsDigit low
      → IsUriPath rest
      → IsUriPath (37 ∷ high ∷ low ∷ rest)

IsUriPath-append : {a b : Bytes} → IsUriPath a → IsUriPath b → IsUriPath (a ++ b)
IsUriPath-append end h = h
IsUriPath-append (literal c more) h = literal c (IsUriPath-append more h)
IsUriPath-append (escaped x y more) h = escaped x y (IsUriPath-append more h)

hex_digit-IsDigit : (n : ℕ) → n < 16 → IsDigit (hex_digit n)
unfolding hex_digit
hex_digit-IsDigit n h = ground arith

kept-IsPlain : (c : ℕ) → is_kept_as_is c ≡ true → IsPlain c
unfolding is_kept_as_is
kept-IsPlain c h = ground arith

uri_byte-IsUriPath : (c : ℕ) → c < 256 → IsUriPath (uri_byte c)
unfolding uri_byte
uri_byte-IsUriPath c h = elim (Bool-cases (is_kept_as_is c)) [
  | inl kept ↦ rw kept (literal (kept-IsPlain c kept) end)
  | inr other ↦ rw other (
      escaped (hex_digit-IsDigit (c / 16) (omega arith)) (hex_digit-IsDigit (c % 16) (omega arith))
        end)
]

append_escaped-IsUriPath :
    (path uri : Bytes)
    → All (λ b. b < 256) path
    → (rest : Bytes) × (append_escaped uri path ≡ uri ++ rest) × IsUriPath rest
unfolding append_escaped
append_escaped-IsUriPath [] uri h = ([], sym (append-nil uri), end)
append_escaped-IsUriPath (c ∷ path) uri h =
    let (rest, same, legal) = append_escaped-IsUriPath path (uri ++ uri_byte c) h.1 in
    (
      uri_byte c ++ rest,
      same ∙ append_assoc uri (uri_byte c) rest,
      IsUriPath-append (uri_byte-IsUriPath c h.0) legal,
    )

-- Whatever bytes a path holds, what follows `file://` in its URI is made of letters, digits and
-- `-._~/` as they are and of escapes of two digits with capitals, as RFC 3986 has them.
pub to_file_uri-IsUriPath :
    (path : Bytes)
    → All (λ b. b < 256) path
    → (rest : Bytes) × (to_file_uri path ≡ codes "file://" ++ rest) × IsUriPath rest
unfolding to_file_uri
to_file_uri-IsUriPath path h = append_escaped-IsUriPath path scheme h

escaped_byte-pos : (high low : Option ℕ) {b : ℕ} → escaped_byte high low ≡ some b → b ≢ 0
unfolding escaped_byte
escaped_byte-pos none none e = cc
escaped_byte-pos none (some low) e = cc
escaped_byte-pos (some high) none e = cc
escaped_byte-pos (some high) (some low) e = ground arith

-- No byte is the NUL.
abbrev pub NoNul : Bytes → Type 0
NoNul = All (λ b. b ≢ 0)

-- A path that `ToLocalPath` may answer: absolute, and with no NUL.
abbrev pub IsAbsolute : Bytes → Type 0
IsAbsolute path = (is_rooted path ≡ true) × NoNul path

concat-IsAbsolute : (path : Bytes) (c : ℕ) → IsAbsolute path → c ≢ 0 → IsAbsolute (path ++ c ∷ [])
concat-IsAbsolute [] c h k = cc (h.0)
concat-IsAbsolute (p ∷ path) c h k = (h.0, All-append _ (p ∷ path) (c ∷ []) h.1 (k, tt))

abbrev Answers : Option Bytes → Type 0
Answers none = Unit
Answers (some out) = IsAbsolute out

decode-Answers : (text path : Bytes) → NoNul text → IsAbsolute path → Answers (decode path text)
unfolding decode
decode-Answers [] path h a = a
decode-Answers (c ∷ []) path h a = ground (arith, concat-IsAbsolute path c a h.0)
decode-Answers (c ∷ d ∷ []) path h a =
    ground (arith, decode-Answers (d ∷ []) (path ++ c ∷ []) h.1 (concat-IsAbsolute path c a h.0))
decode-Answers (c ∷ d ∷ e ∷ rest) path h a = elim (Bool-cases (c == b'%')) [
  | inl escape ↦ elim (Option-cases (escaped_byte (get_hex_value d) (get_hex_value e))) [
    | inl bad ↦ rw (escape, bad) tt
    | inr (b, good) ↦
        rw (escape, good)
          (decode-Answers rest (path ++ b ∷ []) h.1.1.1
            (concat-IsAbsolute path b a (escaped_byte-pos _ _ good)))
  ]
  | inr plain ↦
      rw plain (decode-Answers (d ∷ e ∷ rest) (path ++ c ∷ []) h.1 (concat-IsAbsolute path c a h.0))
]

strip_prefix-NoNul : (p text : Bytes) → NoNul text → NoNul (or_empty (strip_prefix p text))
strip_prefix-NoNul [] text h = h
strip_prefix-NoNul (c ∷ p) [] h = tt
strip_prefix-NoNul (c ∷ p) (d ∷ text) h = ground (arith, strip_prefix-NoNul p text h.1)

without_host-NoNul : (rest : Bytes) → NoNul rest → NoNul (without_host rest)
unfolding without_host
without_host-NoNul rest h = elim (Option-cases (strip_prefix local_host rest)) [
  | inl e ↦ rw (e, without_host) h
  | inr (path, e) ↦ rw (e, without_host) (rw e at (strip_prefix-NoNul local_host rest h))
]

or_empty-IsAbsolute : (r : Option Bytes) → Answers r → or_empty r ≢ [] → IsAbsolute (or_empty r)
or_empty-IsAbsolute none a ne = absurd (ne refl)
or_empty-IsAbsolute (some out) a ne = a

decode_rooted-IsAbsolute :
    (rest : Bytes) → NoNul rest → decode_rooted rest ≢ [] → IsAbsolute (decode_rooted rest)
unfolding decode_rooted
decode_rooted-IsAbsolute [] h ne = absurd (ne refl)
decode_rooted-IsAbsolute (c ∷ rest) h ne = elim (Bool-cases (c == b'/')) [
  | inl slash ↦
      let first = decode-plain [] rest c (unfold is_kept_as_is in ground arith) in
      rw (decode_rooted, slash, first)
        (or_empty-IsAbsolute _ (decode-Answers rest (c ∷ []) h.1 (slash, (h.0, tt)))
          (rw (decode_rooted, slash, first) at ne))
  | inr other ↦ absurd (ne (rw other))
]

-- From a URI with no raw NUL the answer is empty or a path that starts with a slash and holds no NUL.
pub to_local_path-IsAbsolute :
    (uri : Bytes) → NoNul uri → to_local_path uri ≢ [] → IsAbsolute (to_local_path uri)
unfolding to_local_path
to_local_path-IsAbsolute uri h =
    decode_rooted-IsAbsolute _ (without_host-NoNul _ (strip_prefix-NoNul scheme uri h))
