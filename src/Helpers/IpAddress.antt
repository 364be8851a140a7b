-- ===== src/Helpers/IpAddress.antt =====
-- src/LibForumHelpers/private/IpAddress.cpp: the printing of addresses. The address is its 16
-- bytes; one with an IPv4 address holds it in the first four.
pub mod Digits
use forum.Base.{
  ℕ, ◌+◌, ◌-◌, ◌/◌, ◌%◌, List, [], ◌∷◌, ◌++◌, Bool, true, ◌&&◌, ◌==◌, ltb, if◌then◌else◌, get_or,
  drop, Bytes,
}

unfoldable pub write_uint8 : ℕ → Bytes
write_uint8 value =
    if ltb 99 value
    then (b'0' + value / 100) ∷ (b'0' + value % 100 / 10) ∷ (b'0' + value % 100 % 10) ∷ []
    else if ltb 9 value
    then (b'0' + value / 10) ∷ (b'0' + value % 10) ∷ []
    else (b'0' + value) ∷ []

-- "0123456789ABCDEF"
unfoldable pub hex_digit : ℕ → ℕ
hex_digit d = if ltb d 10 then b'0' + d else b'A' + (d - 10)

unfoldable pub write_uint16_hex : ℕ → ℕ → Bytes
write_uint16_hex most_significant least_significant =
    if ltb 0 most_significant
    then (if ltb 16 most_significant
        then hex_digit (most_significant / 16)
          ∷ hex_digit (most_significant % 16)
          ∷ hex_digit (least_significant / 16)
          ∷ hex_digit (least_significant % 16)
          ∷ []
        else hex_digit (most_significant % 16)
          ∷ hex_digit (least_significant / 16)
          ∷ hex_digit (least_significant % 16)
          ∷ [])
    else if ltb 16 least_significant
    then hex_digit (least_significant / 16) ∷ hex_digit (least_significant % 16) ∷ []
    else hex_digit (least_significant % 16) ∷ []

-- int32[1], int32[2] and int32[3] are 0.
unfoldable pub all_zero : Bytes → Bool
all_zero [] = true
all_zero (b ∷ bytes) = b == 0 && all_zero bytes

unfoldable pub is_v4 : Bytes → Bool
unfolding all_zero
is_v4 bytes = all_zero (drop 4 bytes)

-- The groups of two bytes, with a colon between them.
unfoldable pub write_groups : Bytes → Bytes
unfolding write_uint16_hex
write_groups [] = []
write_groups (a ∷ []) = []
write_groups (a ∷ b ∷ []) = write_uint16_hex a b
write_groups (a ∷ b ∷ c ∷ bytes) = write_uint16_hex a b ++ (b':' ∷ write_groups (c ∷ bytes))

unfoldable pub to_string : Bytes → Bytes
unfolding is_v4 write_uint8 write_groups
to_string bytes =
    let byte = λ (i : ℕ). write_uint8 (get_or bytes i 0) in
    if is_v4 bytes
    then byte 0 ++ (b'.' ∷ byte 1 ++ (b'.' ∷ byte 2 ++ (b'.' ∷ byte 3)))
    else write_groups bytes
