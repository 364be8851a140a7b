-- ===== src/Http/Parser/TooLong.antt =====
-- Input that the header buffer has no room for. src/LibHttp/private/HttpParser.cpp.
use forum.Base.All.{All}
use forum.Base.{
  ℕ, zero, suc, ◌+◌, ◌*◌, ◌≤◌, ◌<◌, [], ◌∷◌, false, ◌≡◌, ◌≢◌, refl, ap, ◌∙◌, arith, if◌then◌else◌,
  length, length-append, Bytes,
}
use forum.Http.Parser.Defs.{
  Parser, Environment, payload_too_large, header_size, push_byte, copy_until,
}
use forum.Http.Parser.Step.{
  init, process_loop, process, parse_step, enough_fuel, on_verb, when_reached,
}

module _ {S : Type 0} where
  abbrev Rejected : Parser S → Type 0
  Rejected p = (p.valid ≡ false) × (p.error_code ≡ payload_too_large)

  copy_until-Rejected :
      (to_search : ℕ) (p : Parser S) (xs : Bytes)
      → All (λ c. c ≢ to_search) xs
      → header_size p ≤ p.header_buffer_size
      → p.header_buffer_size < header_size p + length xs
      → ((copy_until to_search p xs).reached ≡ false) × Rejected (copy_until to_search p xs).parser
  unfolding copy_until
  copy_until-Rejected to_search p [] h a b = absurd (omega arith)
  copy_until-Rejected to_search p (c ∷ xs) h a b = ground (
    arith,
    copy_until-Rejected to_search (push_byte p c) xs h.1,
    length-append p.header_buffer (c ∷ []),
  )

  module _ (env : Environment S) where
    loop_invalid :
        (fuel : ℕ) (p : Parser S) (buffer : Bytes)
        → p.valid ≡ false
        → (process_loop env fuel p buffer).0 ≡ p
    unfolding process_loop
    loop_invalid zero p buffer h = refl
    loop_invalid (suc fuel) p [] h = refl
    loop_invalid (suc fuel) p (c ∷ buffer) h = ground arith

-- A chunk of more bytes than the header buffer has room for, with no space that would end the verb, is
-- rejected, with the status for a payload that is too large.
pub process_too_long :
    {S : Type 0} (env : Environment S) (size max_content_length : ℕ) (state : S) (chunk : Bytes)
    → All (λ c. c ≢ b' ') chunk
    → size < length chunk
    → let p = process env (init size max_content_length state) chunk in
      (p.valid ≡ false) × (p.error_code ≡ payload_too_large)
unfolding process process_loop parse_step init
process_too_long env size max_content_length state [] h k = absurd (omega arith)
process_too_long env size max_content_length state (c ∷ chunk) h k =
    let p = init size max_content_length state in
    let r = copy_until-Rejected b' ' p (c ∷ chunk) h (omega arith) (omega arith) in
    let fuel = 2 * length (c ∷ chunk) + 1 in
    let there : enough_fuel (c ∷ chunk) ≡ suc fuel = omega arith in
    let copied = copy_until b' ' p (c ∷ chunk) in
    let stopped : when_reached on_verb copied ≡ (copied.parser, copied.rest) =
      ap (λ b. if b then (on_verb copied.parser, copied.rest) else (copied.parser, copied.rest))
        r.0 in
    let result : process env p (c ∷ chunk) ≡ copied.parser =
      ap (λ fuel. (process_loop env fuel p (c ∷ chunk)).0) there
      ∙ ap (λ next. (process_loop env fuel next.0 next.1).0) stopped
      ∙ loop_invalid env fuel copied.parser copied.rest r.1.0 in
    (ap (λ q. q.valid) result ∙ r.1.0, ap (λ q. q.error_code) result ∙ r.1.1)
