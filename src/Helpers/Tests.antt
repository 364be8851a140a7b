-- ===== src/Helpers/Tests.antt =====
-- Runs of the helpers.
use mathlib.Core.List.{reverse}
use forum.Base.{
  ℕ, ◌+◌, ◌-◌, ◌*◌, List, [], ◌∷◌, ◌≡◌, ◌≢◌, ◌↔◌, refl, arith, ltb, if◌then◌else◌, length, drop,
  Bytes,
}
use forum.Base.All.{All}
use forum.Helpers.Uuid.{parse_uuid, to_string_compact, to_string_dashed}
use forum.Helpers.Uuid.RoundTrip.{parse_uuid-to_string}
use forum.Helpers.IpAddress.{hex_digit, write_uint8, write_uint16_hex}
use forum.Helpers.IpAddress.Digits.{
  IsDecimalDigit, IsHexDigit, read_digits, read_digits-write_uint8, read_digits-write_uint16_hex,
}
use forum.Helpers.CircularBuffer.{empty, to_list, to_list_back}
use forum.Helpers.CircularBuffer.History.{pushes, to_list-pushes}

abbrev uuid : Bytes
uuid = 0 ∷ 255 ∷ 16 ∷ 17 ∷ 1 ∷ 2 ∷ 3 ∷ 4 ∷ 5 ∷ 6 ∷ 7 ∷ 8 ∷ 9 ∷ 10 ∷ 171 ∷ 205 ∷ []

parse_uuid-to_string_example :
    (parse_uuid (to_string_compact uuid) ≡ uuid) × (parse_uuid (to_string_dashed uuid) ≡ uuid)
parse_uuid-to_string_example = parse_uuid-to_string uuid (omega arith)

read_digits-write_uint8_example :
    All IsDecimalDigit (write_uint8 207)
    × (length (write_uint8 207) ≡ (if ltb 207 10 then 1 else if ltb 207 100 then 2 else 3))
    × (read_digits 10 0 (write_uint8 207) ≡ 207)
read_digits-write_uint8_example = read_digits-write_uint8 207 (omega arith)

read_digits-write_uint16_hex_example :
    All IsHexDigit (write_uint16_hex 16 175)
    × ((read_digits 16 0 (write_uint16_hex 16 175) ≡ 16 * 256 + 175)
        ↔ (◌≢◌ {A = ℕ} 16 16 × (◌≡◌ {A = ℕ} 16 0 → ◌≢◌ {A = ℕ} 175 16)))
read_digits-write_uint16_hex_example =
    read_digits-write_uint16_hex 16 175 (omega arith) (omega arith)

-- 16 loses its high digit.
write_uint16_hex_test : write_uint16_hex 0 16 ≡ b'0' ∷ []
unfolding write_uint16_hex hex_digit
write_uint16_hex_test = refl

abbrev pushed : List ℕ
pushed = 1 ∷ 2 ∷ 3 ∷ 4 ∷ 5 ∷ []

to_list-pushes_example :
    (to_list 3 0 (pushes 3 0 (empty 3 0) pushed) ≡ drop (length pushed - 3) pushed)
    × (to_list_back 3 0 (pushes 3 0 (empty 3 0) pushed)
        ≡ reverse (to_list 3 0 (pushes 3 0 (empty 3 0) pushed)))
to_list-pushes_example = to_list-pushes 3 0 pushed (omega arith)
