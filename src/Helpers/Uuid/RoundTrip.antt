-- ===== src/Helpers/Uuid/RoundTrip.antt =====
-- Parsing gives back the id that was printed, in both forms. UuidString.cpp.
use forum.Base.All.{All}
use forum.Base.{ℕ, ◌/◌, ◌%◌, ◌<◌, [], ◌∷◌, map, ◌≡◌, refl, arith, length, Bytes}
use forum.Helpers.Uuid.{
  hex_value, hex_char_lowercase, joined, parse_at, parse_uuid, to_string_compact, to_string_dashed,
}

hex_value-hex_char_lowercase : (d : ℕ) → d < 16 → hex_value (hex_char_lowercase d) ≡ d
unfolding hex_value hex_char_lowercase
hex_value-hex_char_lowercase d h = ground arith

joined_digits :
    (v : ℕ) → v < 256 → joined (hex_char_lowercase (v / 16)) (hex_char_lowercase (v % 16)) ≡ v
unfolding joined
joined_digits v h =
    rw
      (
        hex_value-hex_char_lowercase (v / 16) (omega arith),
        hex_value-hex_char_lowercase (v % 16) (omega arith),
      )
      (omega arith)

-- An id: 16 bytes.
abbrev pub IsUuid : Bytes → Type 0
IsUuid value = (length value ≡ 16) × All (λ v. v < 256) value

abbrev printed : Bytes → Bytes
printed = map (λ v. joined (hex_char_lowercase (v / 16)) (hex_char_lowercase (v % 16)))

printed_id : (value : Bytes) → All (λ v. v < 256) value → printed value ≡ value
printed_id [] h = refl
printed_id (v ∷ value) h = λ i. joined_digits v h.0 i ∷ printed_id value h.1 i

-- Every id is parsed back from its compact form and from its dashed form.
pub parse_uuid-to_string :
    (value : Bytes)
    → IsUuid value
    → (parse_uuid (to_string_compact value) ≡ value) × (parse_uuid (to_string_dashed value) ≡ value)
unfolding parse_uuid to_string_compact to_string_dashed parse_at
parse_uuid-to_string (a ∷ b ∷ c ∷ d ∷ e ∷ f ∷ g ∷ h ∷ i ∷ j ∷ k ∷ l ∷ m ∷ n ∷ o ∷ p ∷ []) q =
    let same =
      printed_id (a ∷ b ∷ c ∷ d ∷ e ∷ f ∷ g ∷ h ∷ i ∷ j ∷ k ∷ l ∷ m ∷ n ∷ o ∷ p ∷ []) q.1 in
    (same, same)
parse_uuid-to_string _ (s, t) = absurd (omega arith)
