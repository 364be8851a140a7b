-- ===== src/Http/UrlEncoding.antt =====
-- src/LibHttp/HttpStringHelpers.h: matching without case, decoding and percent encoding.
pub mod RoundTrip
use forum.Base.{
  ℕ, suc, ◌+◌, ◌-◌, ◌*◌, ◌/◌, ◌%◌, [], ◌∷◌, Bool, true, false, not, ◌&&◌, ◌||◌, ltb, leb, ◌==◌,
  if◌then◌else◌, length, Bytes,
}

-- The loop of matchStringUpperOrLowerSameSize: `lower` and `upper` are the halves of `against`.
unfoldable pub match_loop : Bytes → Bytes → Bytes → Bool
match_loop [] lower upper = true
match_loop (c ∷ source) [] upper = true
match_loop (c ∷ source) (l ∷ lower) [] = true
match_loop (c ∷ source) (l ∷ lower) (u ∷ upper) =
    (c == l || c == u) && match_loop source lower upper

unfoldable pub match_string_upper_or_lower : Bytes → Bytes → Bytes → Bool
unfolding match_loop
match_string_upper_or_lower source lower upper =
    if length source == length lower then match_loop source lower upper else false

-- How many leading bytes trimLeadingChar removes.
unfoldable pub leading : ℕ → Bytes → ℕ
leading to_trim [] = 0
leading to_trim (c ∷ view) = let more = leading to_trim view in if c == to_trim then suc more else 0

-- The table HexParsingValues: 0 where the byte is no hexadecimal digit.
unfoldable pub hex_parsing_value : ℕ → ℕ
hex_parsing_value c =
    if leb b'0' c && leb c b'9'
    then c - b'0'
    else if leb b'A' c && leb c b'F'
    then c - b'A' + 10
    else if leb b'a' c && leb c b'f'
    then c - b'a' + 10
    else 0

-- The bytes that decodeUrlEncodingInPlace leaves at the front of its buffer. A `%` with fewer than
-- two bytes behind it ends the output.
unfoldable pub decode_url_encoding : Bytes → Bytes
unfolding hex_parsing_value
decode_url_encoding [] = []
decode_url_encoding (c ∷ []) = if c == b'%' then [] else c ∷ []
decode_url_encoding (c ∷ d ∷ []) =
    let rest = decode_url_encoding (d ∷ []) in if c == b'%' then [] else c ∷ rest
decode_url_encoding (c ∷ d ∷ e ∷ source) =
    let escaped =
      ((hex_parsing_value d * 16 + hex_parsing_value e) % 256) ∷ decode_url_encoding source in
    let plain = c ∷ decode_url_encoding (d ∷ e ∷ source) in if c == b'%' then escaped else plain

-- The table ReservedCharactersForUrlEncoding.
unfoldable pub is_reserved : ℕ → Bool
is_reserved c = not (
    (leb b'a' c && leb c b'z')
    || (leb b'A' c && leb c b'Z')
    || (leb b'0' c && leb c b'9')
    || c == b'-'
    || c == b'.'
    || c == b'_'
    || c == b'~')

-- "0123456789ABCDEF"
unfoldable pub hex_to_string_upper_case : ℕ → ℕ
hex_to_string_upper_case d = if ltb d 10 then b'0' + d else b'A' + (d - 10)

unfoldable pub encode_bytes : Bytes → Bytes
unfolding is_reserved hex_to_string_upper_case
encode_bytes [] = []
encode_bytes (c ∷ input) =
    let rest = encode_bytes input in
    if is_reserved c
    then b'%' ∷ hex_to_string_upper_case (c / 16) ∷ hex_to_string_upper_case (c % 16) ∷ rest
    else c ∷ rest

-- `size` is the size of the output array; an input that might not fit gives the empty view.
unfoldable pub url_encode : ℕ → Bytes → Bytes
unfolding encode_bytes
url_encode size input = if ltb size (length input * 3) then [] else encode_bytes input
