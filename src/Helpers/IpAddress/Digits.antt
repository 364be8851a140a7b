-- ===== src/Helpers/IpAddress/Digits.antt =====
-- The numbers that the printed digits stand for. IpAddress.cpp.
use forum.Base.{
  ℕ, ◌+◌, ◌-◌, ◌*◌, ◌/◌, ◌%◌, ◌<◌, ◌≤◌, [], ◌∷◌, ◌≡◌, ◌≢◌, ◌↔◌, ◌⊎◌, inl, inr, Bool-cases, arith,
  ltb, if◌then◌else◌, length, Bytes,
}
use forum.Base.All.{All}
use forum.Helpers.IpAddress.{write_uint8, hex_digit, write_uint16_hex}

-- The value of a digit, and of a row of digits read from the left.
abbrev pub digit_value : ℕ → ℕ
digit_value c = if ltb c b'A' then c - b'0' else c - b'A' + 10

abbrev pub read_digits : ℕ → ℕ → Bytes → ℕ
read_digits base acc [] = acc
read_digits base acc (c ∷ cs) = read_digits base (acc * base + digit_value c) cs

abbrev pub IsDecimalDigit : ℕ → Type 0
IsDecimalDigit c = (b'0' ≤ c) × (c ≤ b'9')

abbrev pub IsHexDigit : ℕ → Type 0
IsHexDigit c = IsDecimalDigit c ⊎ ((b'A' ≤ c) × (c ≤ b'F'))

-- A byte is printed by the characters 0 to 9 only, as many of them as the number has decimal digits,
-- and read as decimal digits they give the byte.
pub read_digits-write_uint8 :
    (value : ℕ)
    → value < 256
    → All IsDecimalDigit (write_uint8 value)
      × (length (write_uint8 value) ≡ (if ltb value 10 then 1 else if ltb value 100 then 2 else 3))
      × (read_digits 10 0 (write_uint8 value) ≡ value)
unfolding write_uint8
read_digits-write_uint8 value h = (ground arith, ground arith, ground arith)

hex_digit-IsHexDigit : (d : ℕ) → d < 16 → IsHexDigit (hex_digit d)
unfolding hex_digit
hex_digit-IsHexDigit d h = ground arith

write_uint16_hex-IsHexDigit :
    (most least : ℕ) → most < 256 → least < 256 → All IsHexDigit (write_uint16_hex most least)
unfolding write_uint16_hex
write_uint16_hex-IsHexDigit most least h k =
    let m1 = hex_digit-IsHexDigit (most / 16) (omega arith) in
    let m0 = hex_digit-IsHexDigit (most % 16) (omega arith) in
    let l1 = hex_digit-IsHexDigit (least / 16) (omega arith) in
    let l0 = hex_digit-IsHexDigit (least % 16) (omega arith) in
    elim (Bool-cases (ltb 0 most)) [
      | inl e ↦ elim (Bool-cases (ltb 16 most)) [
        | inl g ↦ rw (e, g) (m1, (m0, (l1, (l0, tt))))
        | inr g ↦ rw (e, g) (m0, (l1, (l0, tt)))
      ]
      | inr e ↦ elim (Bool-cases (ltb 16 least)) [
        | inl g ↦ rw (e, g) (l1, (l0, tt))
        | inr g ↦ rw (e, g) (l0, tt)
      ]
    ]

digit_value-hex_digit : (d : ℕ) → d < 16 → digit_value (hex_digit d) ≡ d
unfolding hex_digit
digit_value-hex_digit d h = ground arith

digits_of :
    (a b : ℕ)
    → a < 256
    → read_digits 16 b (hex_digit (a / 16) ∷ hex_digit (a % 16) ∷ []) ≡ b * 256 + a
digits_of a b h = omega (arith, digit_value-hex_digit (a / 16), digit_value-hex_digit (a % 16))

-- A group of an IPv6 address is printed by the characters 0 to 9 and A to F only. They stand for its
-- 16 bits exactly when its high byte is not 16, and its low byte is not 16 where the high one is 0.
pub read_digits-write_uint16_hex :
    (most least : ℕ)
    → most < 256
    → least < 256
    → All IsHexDigit (write_uint16_hex most least)
      × ((read_digits 16 0 (write_uint16_hex most least) ≡ most * 256 + least)
          ↔ ((most ≢ 16) × (most ≡ 0 → least ≢ 16)))
unfolding write_uint16_hex
read_digits-write_uint16_hex most least h k = (
  write_uint16_hex-IsHexDigit most least h k,
  (
    λ e. (
      λ z. ground (arith, digits_of least 0 k, digit_value-hex_digit (most % 16)),
      λ z y. ground (arith, digit_value-hex_digit (least % 16)),
    ),
    λ n. ground (
      arith,
      digits_of most 0 h,
      digits_of least most k,
      digits_of least 0 k,
      digit_value-hex_digit (most % 16),
      digit_value-hex_digit (least / 16),
      digit_value-hex_digit (least % 16),
    ),
  ),
)
