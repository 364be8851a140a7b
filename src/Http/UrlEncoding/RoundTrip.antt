-- ===== src/Http/UrlEncoding/RoundTrip.antt =====
-- Decoding undoes encoding, and what the encoder writes. HttpStringHelpers.h.
use forum.Base.All.{All}
use forum.Base.{
  ℕ, ◌*◌, ◌/◌, ◌%◌, ◌≤◌, ◌<◌, [], ◌∷◌, true, false, ◌≡◌, ◌≢◌, ◌⊎◌, inl, inr, refl, ap, ◌∙◌, arith,
  length, Bool-cases, Bytes,
}
use forum.Http.UrlEncoding.{
  hex_parsing_value, hex_to_string_upper_case, decode_url_encoding, is_reserved, encode_bytes,
  url_encode,
}

hex_parsing_value-hex_to_string_upper_case :
    (d : ℕ) → d < 16 → hex_parsing_value (hex_to_string_upper_case d) ≡ d
unfolding hex_parsing_value hex_to_string_upper_case
hex_parsing_value-hex_to_string_upper_case d h = ground arith

pub decode_plain :
    (c : ℕ) (xs : Bytes) → c ≢ b'%' → decode_url_encoding (c ∷ xs) ≡ c ∷ decode_url_encoding xs
unfolding decode_url_encoding
decode_plain c [] h = ground arith
decode_plain c (d ∷ []) h = ground arith
decode_plain c (d ∷ e ∷ xs) h = ground arith

decode_escaped :
    (c : ℕ) (xs : Bytes)
    → c < 256
    → decode_url_encoding
        (b'%' ∷ hex_to_string_upper_case (c / 16) ∷ hex_to_string_upper_case (c % 16) ∷ xs)
      ≡ c ∷ decode_url_encoding xs
unfolding decode_url_encoding
decode_escaped c xs h =
    rw
      (
        hex_parsing_value-hex_to_string_upper_case (c / 16) (omega arith),
        hex_parsing_value-hex_to_string_upper_case (c % 16) (omega arith),
      )
      (ap (λ x. x ∷ decode_url_encoding xs) (omega arith))

reserved_percent : is_reserved b'%' ≡ true
unfolding is_reserved
reserved_percent = refl

not-reserved : (c : ℕ) → is_reserved c ≡ false → c ≢ b'%'
unfolding is_reserved
not-reserved c h e = ground arith

-- Decoding what was encoded gives back every string of bytes.
pub decode_url_encoding-encode_bytes :
    (input : Bytes) → All (λ c. c < 256) input → decode_url_encoding (encode_bytes input) ≡ input
unfolding encode_bytes
decode_url_encoding-encode_bytes [] h = unfold decode_url_encoding in refl
decode_url_encoding-encode_bytes (c ∷ input) h = elim (Bool-cases (is_reserved c)) [
  | inl r ↦ rw r (
      decode_escaped c (encode_bytes input) h.0
      ∙ ap (◌∷◌ c) (decode_url_encoding-encode_bytes input h.1))
  | inr r ↦ rw r (
      decode_plain c (encode_bytes input) (not-reserved c r)
      ∙ ap (◌∷◌ c) (decode_url_encoding-encode_bytes input h.1))
]

-- The bytes that may stand in the output: unreserved ones, and `%`.
abbrev pub IsUrlByte : ℕ → Type 0
IsUrlByte c = (is_reserved c ≡ false) ⊎ (c ≡ b'%')

hex-IsUrlByte : (d : ℕ) → d < 16 → IsUrlByte (hex_to_string_upper_case d)
unfolding hex_to_string_upper_case is_reserved
hex-IsUrlByte d h = inl (ground arith)

encode_bytes-IsUrlByte :
    (input : Bytes) → All (λ c. c < 256) input → All IsUrlByte (encode_bytes input)
unfolding encode_bytes
encode_bytes-IsUrlByte [] h = tt
encode_bytes-IsUrlByte (c ∷ input) h = elim (Bool-cases (is_reserved c)) [
  | inl r ↦ rw r (
    inr refl,
    (
      hex-IsUrlByte (c / 16) (omega arith),
      (hex-IsUrlByte (c % 16) (omega arith), encode_bytes-IsUrlByte input h.1),
    ),
  )
  | inr r ↦ rw r (inl r, encode_bytes-IsUrlByte input h.1)
]

length-encode_bytes-le : (input : Bytes) → length (encode_bytes input) ≤ length input * 3
unfolding encode_bytes
length-encode_bytes-le [] = omega arith
length-encode_bytes-le (c ∷ input) = ground (arith, length-encode_bytes-le input)

-- The encoder never writes beyond its output array of `size` bytes, and everything that it writes is
-- an unreserved byte or a `%`.
pub url_encode_fits :
    (size : ℕ) (input : Bytes)
    → All (λ c. c < 256) input
    → (length (url_encode size input) ≤ size) × All IsUrlByte (url_encode size input)
unfolding url_encode
url_encode_fits size input h =
    (ground (arith, length-encode_bytes-le input), ground (arith, encode_bytes-IsUrlByte input h))
