-- ===== src/Helpers/Uuid.antt =====
-- src/LibForumHelpers/private/UuidString.cpp: parsing and printing of UUIDs, which are 16 bytes.
pub mod RoundTrip
use forum.Base.{
  ℕ, ◌+◌, ◌-◌, ◌*◌, ◌/◌, ◌%◌, List, [], ◌∷◌, Bool, true, false, ◌&&◌, ◌||◌, ltb, leb, ◌==◌,
  if◌then◌else◌, length, get_or, replicate, Bytes,
}

-- The table hexValues: 0 where the byte is no hexadecimal digit.
unfoldable pub hex_value : ℕ → ℕ
hex_value c =
    if leb b'0' c && leb c b'9'
    then c - b'0'
    else if leb b'A' c && leb c b'F'
    then c - b'A' + 10
    else if leb b'a' c && leb c b'f'
    then c - b'a' + 10
    else 0

-- "0123456789abcdef"
unfoldable pub hex_char_lowercase : ℕ → ℕ
hex_char_lowercase d = if ltb d 10 then b'0' + d else b'a' + (d - 10)

-- `high << 4 | low`; the low digit is below 16.
unfoldable pub joined : ℕ → ℕ → ℕ
unfolding hex_value
joined high low = hex_value high * 16 + hex_value low

-- The positions in the compact form, two for each byte.
abbrev pub compact_positions : List (ℕ × ℕ)
compact_positions =
    (0, 1)
    ∷ (2, 3)
    ∷ (4, 5)
    ∷ (6, 7)
    ∷ (8, 9)
    ∷ (10, 11)
    ∷ (12, 13)
    ∷ (14, 15)
    ∷ (16, 17)
    ∷ (18, 19)
    ∷ (20, 21)
    ∷ (22, 23)
    ∷ (24, 25)
    ∷ (26, 27)
    ∷ (28, 29)
    ∷ (30, 31)
    ∷ []

-- uuidValuePositions
abbrev pub uuid_value_positions : List (ℕ × ℕ)
uuid_value_positions =
    (0, 1)
    ∷ (2, 3)
    ∷ (4, 5)
    ∷ (6, 7)
    ∷ (9, 10)
    ∷ (11, 12)
    ∷ (14, 15)
    ∷ (16, 17)
    ∷ (19, 20)
    ∷ (21, 22)
    ∷ (24, 25)
    ∷ (26, 27)
    ∷ (28, 29)
    ∷ (30, 31)
    ∷ (32, 33)
    ∷ (34, 35)
    ∷ []

-- The loop over the positions.
unfoldable pub parse_at : List (ℕ × ℕ) → Bytes → Bytes
unfolding joined
parse_at [] source = []
parse_at ((high, low) ∷ positions) source =
    joined (get_or source high 0) (get_or source low 0) ∷ parse_at positions source

abbrev pub empty : Bytes
empty = replicate 16 0

-- The constructor from a string: an input of any other size gives the empty id.
unfoldable pub parse_uuid : Bytes → Bytes
unfolding parse_at
parse_uuid source =
    if length source == 32
    then parse_at compact_positions source
    else if length source == 36
    then parse_at uuid_value_positions source
    else empty

-- The loop of toStringCompact.
unfoldable pub to_string_compact : Bytes → Bytes
unfolding hex_char_lowercase
to_string_compact [] = []
to_string_compact (value ∷ rest) =
    hex_char_lowercase (value / 16) ∷ hex_char_lowercase (value % 16) ∷ to_string_compact rest

-- The loop of toStringDashed, at the given destination.
unfoldable pub to_string_dashed_from : ℕ → Bytes → Bytes
unfolding hex_char_lowercase
to_string_dashed_from destination [] = []
to_string_dashed_from destination (value ∷ rest) =
    let next = destination + 2 in
    let dashed = next == 8 || next == 13 || next == 18 || next == 23 in
    let tail = to_string_dashed_from (if dashed then next + 1 else next) rest in
    hex_char_lowercase (value / 16)
    ∷ hex_char_lowercase (value % 16)
    ∷ (if dashed then b'-' ∷ tail else tail)

unfoldable pub to_string_dashed : Bytes → Bytes
unfolding to_string_dashed_from
to_string_dashed = to_string_dashed_from 0
