-- ===== src/Bus/FileUri.antt =====
-- src/bus/private/file_uri.cpp. A string is the list of its bytes.
pub mod RoundTrip
pub mod Output
use klip.Base.{
  ℕ, ◌+◌, ◌-◌, ◌*◌, ◌/◌, ◌%◌, Bool, true, false, ◌&&◌, ◌||◌, List, [], ◌∷◌, ◌++◌, Option, none,
  some, Bytes, codes, strip_prefix, ltb, leb, ◌==◌, if◌then◌else◌,
}

abbrev pub scheme : Bytes
scheme = codes "file://"

abbrev pub local_host : Bytes
local_host = codes "localhost"

unfoldable pub is_kept_as_is : ℕ → Bool
is_kept_as_is byte =
    (leb b'A' byte && leb byte b'Z')
    || (leb b'a' byte && leb byte b'z')
    || (leb b'0' byte && leb byte b'9')
    || byte == b'-'
    || byte == b'.'
    || byte == b'_'
    || byte == b'~'
    || byte == b'/'

-- The source's -1 is `none`.
unfoldable pub get_hex_value : ℕ → Option ℕ
get_hex_value character =
    if leb b'0' character && leb character b'9'
    then some (character - b'0')
    else if leb b'A' character && leb character b'F'
    then some (character - b'A' + 10)
    else if leb b'a' character && leb character b'f'
    then some (character - b'a' + 10)
    else none

-- One digit of the format `{:02X}`.
unfoldable pub hex_digit : ℕ → ℕ
hex_digit n = if ltb n 10 then b'0' + n else b'A' + (n - 10)

-- What the loop of `ToFileUri` appends for one byte.
unfoldable pub uri_byte : ℕ → Bytes
unfolding is_kept_as_is hex_digit
uri_byte byte =
    if is_kept_as_is byte
    then byte ∷ []
    else b'%' ∷ hex_digit (byte / 16) ∷ hex_digit (byte % 16) ∷ []

-- The loop of `ToFileUri`.
unfoldable pub append_escaped : Bytes → Bytes → Bytes
append_escaped uri [] = uri
append_escaped uri (character ∷ path) = append_escaped (uri ++ uri_byte character) path

unfoldable pub to_file_uri : Bytes → Bytes
to_file_uri path = append_escaped scheme path

-- The byte that an escape stands for; `none` is `isValid == false`.
unfoldable pub escaped_byte : Option ℕ → Option ℕ → Option ℕ
escaped_byte (some high) (some low) =
    if ltb 0 (high * 16 + low) then some (high * 16 + low) else none
escaped_byte (some high) none = none
escaped_byte none low = none

-- The loop of `ToLocalPath`; `none` is a loop that ends with `isValid == false`.
unfoldable pub decode : Bytes → Bytes → Option Bytes
decode path [] = some path
decode path (c ∷ []) = if c == b'%' then none else some (path ++ c ∷ [])
decode path (c ∷ d ∷ []) =
    let plain = decode (path ++ c ∷ []) (d ∷ []) in if c == b'%' then none else plain
decode path (c ∷ d ∷ e ∷ rest) =
    let plain = decode (path ++ c ∷ []) (d ∷ e ∷ rest) in
    let escaped = λ (byte : ℕ). decode (path ++ byte ∷ []) rest in
    if c == b'%'
    then elim (escaped_byte (get_hex_value d) (get_hex_value e)) [
      | none ↦ none
      | some byte ↦ escaped byte
    ]
    else plain

abbrev pub or_empty : Option Bytes → Bytes
or_empty none = []
or_empty (some text) = text

-- `rest` without a leading `localhost`.
unfoldable pub without_host : Bytes → Bytes
without_host rest = elim (strip_prefix local_host rest) [ none ↦ rest | some path ↦ path ]

-- `rest.starts_with('/')`.
abbrev pub is_rooted : Bytes → Bool
is_rooted [] = false
is_rooted (c ∷ rest) = c == b'/'

unfoldable pub decode_rooted : Bytes → Bytes
decode_rooted rest = if is_rooted rest then or_empty (decode [] rest) else []

unfoldable pub to_local_path : Bytes → Bytes
unfolding decode_rooted without_host
to_local_path uri = decode_rooted (without_host (or_empty (strip_prefix scheme uri)))
