-- ===== src/Bus/FileUri/RoundTrip.antt =====
-- src/bus/private/file_uri.cpp: `ToLocalPath` on the output of `ToFileUri`.
use klip.Base.{
  ℕ, ◌<◌, ◌/◌, ◌%◌, true, [], ◌∷◌, ◌++◌, some, Bytes, All, ◌≡◌, sym, ap, ◌∙◌, append_assoc,
  append-nil, arith, inl, inr, Bool-cases, ◌==◌,
}
use klip.Bus.FileUri.{
  is_kept_as_is, get_hex_value, hex_digit, uri_byte, append_escaped, to_file_uri, escaped_byte,
  decode, is_rooted, to_local_path, decode_rooted, without_host, scheme, or_empty,
}

-- A byte of a path: no NUL.
abbrev pub IsPathByte : ℕ → Type 0
IsPathByte b = (0 < b) × (b < 256)

escaped : Bytes → Bytes
escaped [] = []
escaped (c ∷ cs) = uri_byte c ++ escaped cs

append_escaped-escaped : (path uri : Bytes) → append_escaped uri path ≡ uri ++ escaped path
unfolding append_escaped escaped
append_escaped-escaped [] uri = sym (append-nil uri)
append_escaped-escaped (c ∷ path) uri =
    append_escaped-escaped path (uri ++ uri_byte c) ∙ append_assoc uri (uri_byte c) (escaped path)

get_hex_value-hex_digit : (n : ℕ) → n < 16 → get_hex_value (hex_digit n) ≡ some n
unfolding get_hex_value hex_digit
get_hex_value-hex_digit n h = ground arith

escaped_byte_lem :
    (b : ℕ)
    → IsPathByte b
    → escaped_byte (get_hex_value (hex_digit (b / 16))) (get_hex_value (hex_digit (b % 16)))
      ≡ some b
escaped_byte_lem b h =
    rw
      (
        get_hex_value-hex_digit (b / 16) (omega arith),
        get_hex_value-hex_digit (b % 16) (omega arith),
      )
      (unfold escaped_byte in ground arith)

pub decode-plain :
    (path rest : Bytes) (c : ℕ)
    → is_kept_as_is c ≡ true
    → decode path (c ∷ rest) ≡ decode (path ++ c ∷ []) rest
unfolding decode is_kept_as_is
decode-plain path [] c h = ground arith
decode-plain path (d ∷ []) c h = ground arith
decode-plain path (d ∷ e ∷ rest) c h = ground arith

decode-uri_byte :
    (path rest : Bytes) (c : ℕ)
    → IsPathByte c
    → decode path (uri_byte c ++ rest) ≡ decode (path ++ c ∷ []) rest
unfolding uri_byte
decode-uri_byte path rest c h = elim (Bool-cases (is_kept_as_is c)) [
  | inl kept ↦ rw kept (decode-plain path rest c kept)
  | inr other ↦ rw other (unfold decode in rw (escaped_byte_lem c h))
]

decode-escaped :
    (text path : Bytes) → All IsPathByte text → decode path (escaped text) ≡ some (path ++ text)
unfolding escaped
decode-escaped [] path h = unfold decode in rw append-nil
decode-escaped (c ∷ text) path h =
    decode-uri_byte path (escaped text) c h.0
    ∙ decode-escaped text (path ++ c ∷ []) h.1
    ∙ ap some (append_assoc path (c ∷ []) text)

uri_byte-slash : (c : ℕ) → (c == b'/') ≡ true → uri_byte c ≡ c ∷ []
unfolding uri_byte
uri_byte-slash c h = ground arith

without_host-slash :
    (c : ℕ) (rest : Bytes) → (c == b'/') ≡ true → without_host (c ∷ rest) ≡ c ∷ rest
unfolding without_host
without_host-slash c rest h = ground arith

decode_rooted-escaped :
    (path : Bytes)
    → All IsPathByte path
    → is_rooted path ≡ true
    → decode_rooted (without_host (escaped path)) ≡ path
decode_rooted-escaped [] h r = cc
decode_rooted-escaped (c ∷ path) h r =
    let shape = ap (λ u. u ++ escaped path) (uri_byte-slash c r) in
    let read = decode-escaped (c ∷ path) [] h in
    unfold escaped in
    rw (shape, without_host-slash c (escaped path) r)
      (unfold decode_rooted in rw (r, ← shape) (ap or_empty read))

to_file_uri_lem : (path : Bytes) → to_file_uri path ≡ scheme ++ escaped path
unfolding to_file_uri
to_file_uri_lem path = append_escaped-escaped path scheme

-- A path that starts with a slash and holds no NUL comes back whole from its URI.
pub to_local_path-to_file_uri :
    (path : Bytes)
    → All IsPathByte path
    → is_rooted path ≡ true
    → to_local_path (to_file_uri path) ≡ path
unfolding to_local_path decode_rooted
to_local_path-to_file_uri path h r = rw (to_file_uri_lem path) (decode_rooted-escaped path h r)
