-- ===== src/Http/Parser/Termination.antt =====
-- The loop of Parser::process ends by its own condition. src/LibHttp/private/HttpParser.cpp.
use forum.Base.{
  ℕ, zero, suc, ◌+◌, ◌*◌, ◌≤◌, ◌<◌, [], ◌∷◌, true, false, ◌≡◌, ◌⊎◌, inl, refl, arith, length, Bytes,
}
use forum.Http.Parser.Defs.{
  Mode, parse_verb, parse_path, parse_version, parse_new_line, parse_header_name,
  parse_header_spacing, parse_header_value, parse_body, Parser, Environment, push_byte, copy_until,
}
use forum.Http.Parser.Interpret.{interpret_important_headers}
use forum.Http.Parser.Step.{
  on_verb, on_path, on_version, on_header_name, on_header_value, on_headers_read, new_line,
  header_name, header_spacing, body, parse_step, process_loop, when_reached, enough_fuel,
}

-- One round of the spacing parser may read nothing, and leaves its mode then.
abbrev weight : Mode → ℕ
weight parse_header_spacing = 1
weight _ = 0

weight-le : (m : Mode) → weight m ≤ 1
weight-le parse_header_spacing = omega arith
weight-le _ = omega arith

module _ {S : Type 0} where
  abbrev measure : Parser S → Bytes → ℕ
  measure p buffer = 2 * length buffer + weight p.current_parser

  -- The parser has rejected its input, or what is left is less than `n`.
  abbrev Progress : ℕ → Parser S × Bytes → Type 0
  Progress n next = (next.0.valid ≡ false) ⊎ (measure next.0 next.1 < n)

  copy_until_reads :
      (to_search : ℕ) (p : Parser S) (buffer : Bytes)
      → length (copy_until to_search p buffer).rest ≤ length buffer
  unfolding copy_until
  copy_until_reads to_search p [] = omega arith
  copy_until_reads to_search p (c ∷ buffer) =
      ground (arith, copy_until_reads to_search (push_byte p c) buffer)

  copy_until_progress :
      (to_search : ℕ) (p : Parser S) (c : ℕ) (buffer : Bytes)
      → let r = copy_until to_search p (c ∷ buffer) in
        ((r.reached ≡ false) × (r.parser.valid ≡ false)) ⊎ (length r.rest ≤ length buffer)
  unfolding copy_until
  copy_until_progress to_search p c buffer =
      ground (arith, copy_until_reads to_search (push_byte p c) buffer)

  when_reached-Progress :
      (f : Parser S → Parser S) (to_search : ℕ) (p : Parser S) (c n : ℕ) (buffer : Bytes)
      → 2 * length buffer + 1 < n
      → Progress n (when_reached f (copy_until to_search p (c ∷ buffer)))
  when_reached-Progress f to_search p c n buffer h =
      let r = copy_until to_search p (c ∷ buffer) in
      ground (
        arith,
        copy_until_progress to_search p c buffer,
        weight-le (f r.parser).current_parser,
        weight-le r.parser.current_parser,
      )

  header_spacing_reads :
      (p : Parser S) (buffer : Bytes)
      → p.current_parser ≡ parse_header_spacing
      → measure (header_spacing p buffer).0 (header_spacing p buffer).1 ≤ 2 * length buffer + 1
  unfolding header_spacing
  header_spacing_reads p [] h = ground arith
  header_spacing_reads p (c ∷ buffer) h = ground (arith, header_spacing_reads p buffer h)

  header_spacing-Progress :
      (p : Parser S) (c : ℕ) (buffer : Bytes)
      → p.current_parser ≡ parse_header_spacing
      → Progress (2 * length (c ∷ buffer) + 1) (header_spacing p (c ∷ buffer))
  unfolding header_spacing
  header_spacing-Progress p c buffer h = ground (arith, header_spacing_reads p buffer h)

  header_name-Progress :
      (p : Parser S) (c : ℕ) (buffer : Bytes)
      → Progress (2 * length (c ∷ buffer)) (header_name p c buffer)
  unfolding header_name
  header_name-Progress p c buffer =
      ground (arith, when_reached-Progress on_header_name b':' p c (2 * length (c ∷ buffer)) buffer)

  module _ (env : Environment S) where
    new_line-Progress :
        (p : Parser S) (c : ℕ) (buffer : Bytes)
        → Progress (2 * length (c ∷ buffer)) (new_line env p c buffer)
    unfolding new_line
    new_line-Progress p c buffer = ground (
      arith,
      weight-le
          (on_headers_read (interpret_important_headers env (push_byte p b'\n'))).current_parser,
    )

    body-Progress :
        (p : Parser S) (c : ℕ) (buffer : Bytes)
        → Progress (2 * length (c ∷ buffer)) (body env p (c ∷ buffer))
    unfolding body
    body-Progress p c buffer = ground (arith, weight-le p.current_parser)

    parse_step-Progress :
        (m : Mode) (p : Parser S) (c : ℕ) (buffer : Bytes)
        → p.current_parser ≡ m
        → Progress (2 * length (c ∷ buffer) + weight m) (parse_step env m p c buffer)
    unfolding parse_step
    parse_step-Progress parse_verb p c buffer h =
        when_reached-Progress on_verb b' ' p c _ buffer (omega arith)
    parse_step-Progress parse_path p c buffer h =
        when_reached-Progress on_path b' ' p c _ buffer (omega arith)
    parse_step-Progress parse_version p c buffer h =
        when_reached-Progress on_version b'\r' p c _ buffer (omega arith)
    parse_step-Progress parse_new_line p c buffer h = ground (arith, new_line-Progress p c buffer)
    parse_step-Progress parse_header_name p c buffer h =
        ground (arith, header_name-Progress p c buffer)
    parse_step-Progress parse_header_spacing p c buffer h = header_spacing-Progress p c buffer h
    parse_step-Progress parse_header_value p c buffer h =
        when_reached-Progress (on_header_value env) b'\r' p c _ buffer (omega arith)
    parse_step-Progress parse_body p c buffer h = ground (arith, body-Progress p c buffer)

    -- The condition of the loop fails.
    abbrev pub Stopped : Parser S × Bytes → Type 0
    Stopped r = (r.1 ≡ []) ⊎ (r.0.valid ≡ false) ⊎ (r.0.finished ≡ true)

    invalid-Stopped :
        (fuel : ℕ) (p : Parser S) (buffer : Bytes)
        → p.valid ≡ false
        → 0 < fuel
        → Stopped (process_loop env fuel p buffer)
    unfolding process_loop
    invalid-Stopped zero p buffer h k = absurd (omega arith)
    invalid-Stopped (suc fuel) p [] h k = inl refl
    invalid-Stopped (suc fuel) p (c ∷ buffer) h k = ground arith

    process_loop-Stopped :
        (fuel : ℕ) (p : Parser S) (buffer : Bytes)
        → measure p buffer < fuel
        → Stopped (process_loop env fuel p buffer)
    unfolding process_loop
    process_loop-Stopped zero p buffer h = absurd (omega arith)
    process_loop-Stopped (suc fuel) p [] h = inl refl
    process_loop-Stopped (suc fuel) p (c ∷ buffer) h =
        let next = parse_step env p.current_parser p c buffer in
        ground (
          arith,
          parse_step-Progress p.current_parser p c buffer refl,
          invalid-Stopped fuel next.0 next.1,
          process_loop-Stopped fuel next.0 next.1,
        )

    -- With the fuel that process gives it, the loop ends because the chunk is read, the input is
    -- invalid or the request is complete, never because the fuel has run out.
    pub process_loop-enough_fuel :
        (p : Parser S) (buffer : Bytes) → Stopped (process_loop env (enough_fuel buffer) p buffer)
    process_loop-enough_fuel p buffer =
        process_loop-Stopped (enough_fuel buffer) p buffer
          (omega (arith, weight-le p.current_parser))
