-- ===== src/Http/Parser/Request/Rounds.antt =====
-- Single rounds of the parser's loop. src/LibHttp/private/HttpParser.cpp.
use forum.Base.All.{All}
use forum.Base.{
  ℕ, suc, ◌+◌, ◌-◌, ◌<◌, [], ◌∷◌, ◌++◌, true, false, ◌&&◌, not, if◌then◌else◌, length, get_or,
  length-append, Bytes, ◌≡◌, ◌≢◌, ap, ◌∙◌, arith,
}
use forum.Http.Parser.Defs.{
  Parser, Environment, copy_until, push_byte, header_size, parse_new_line, parse_header_name,
}
use forum.Http.Parser.Interpret.{interpret_important_headers}
use forum.Http.Parser.Step.{
  byte_at, on_version, on_headers_read, new_line, parse_step, process_loop, when_reached,
}
use forum.Http.Parser.Request.Path.{copy_until-found}

pub get_or-append : (xs ys : Bytes) (i : ℕ) → get_or (xs ++ ys) (length xs + i) 0 ≡ get_or ys i 0
get_or-append [] ys i = let e : 0 + i ≡ i = omega arith in ap (λ n. get_or ys n 0) e
get_or-append (x ∷ xs) ys i =
    let e : suc (length xs) + i ≡ suc (length xs + i) = omega arith in
    ap (λ n. get_or (x ∷ (xs ++ ys)) n 0) e ∙ get_or-append xs ys i

module _ {S : Type 0} (env : Environment S) where
  pub loop_round :
      (fuel : ℕ) (p : Parser S) (c : ℕ) (buffer : Bytes) (q : Parser S) (rest : Bytes)
      → p.valid ≡ true
      → p.finished ≡ false
      → parse_step env p.current_parser p c buffer ≡ (q, rest)
      → process_loop env (suc fuel) p (c ∷ buffer) ≡ process_loop env fuel q rest
  unfolding process_loop
  loop_round fuel p c buffer q rest v f e =
      let next = parse_step env p.current_parser p c buffer in
      let runs : (p.valid && not p.finished) ≡ true = ground arith in
      ap (λ b. if b then process_loop env fuel next.0 next.1 else (p, c ∷ buffer)) runs
      ∙ ap (λ x. process_loop env fuel x.0 x.1) e

  -- A round that copies up to the byte it searches for.
  pub loop_found :
      (fuel : ℕ) (p : Parser S) (to_search : ℕ) (f : Parser S → Parser S) (xs rest : Bytes)
      → ((c : ℕ) (buffer : Bytes)
          → parse_step env p.current_parser p c buffer
            ≡ when_reached f (copy_until to_search p (c ∷ buffer)))
      → p.valid ≡ true
      → p.finished ≡ false
      → All (λ c. c ≢ to_search) xs
      → header_size p + length xs < p.header_buffer_size
      → process_loop env (suc fuel) p (xs ++ (to_search ∷ rest))
        ≡ process_loop env fuel
            (f (record p { header_buffer = p.header_buffer ++ (xs ++ (to_search ∷ [])) }))
            rest
  loop_found fuel p to_search f [] rest step v e h k =
      loop_round fuel p to_search rest _ rest v e
        (step to_search rest ∙ ap (when_reached f) (copy_until-found to_search p [] rest h k))
  loop_found fuel p to_search f (x ∷ xs) rest step v e h k =
      loop_round fuel p x (xs ++ (to_search ∷ rest)) _ rest v e (
        step x (xs ++ (to_search ∷ rest))
        ∙ ap (when_reached f) (copy_until-found to_search p (x ∷ xs) rest h k))

  pub new_line_next :
      (p : Parser S) (rest : Bytes)
      → header_size p < p.header_buffer_size
      → 0 < header_size p
      → byte_at p.header_buffer (header_size p - 1) ≡ b'\r'
      → byte_at (p.header_buffer ++ (b'\n' ∷ [])) (header_size p - 2) ≡ b'1'
      → new_line env p b'\n' rest ≡ (
        record p {
          header_buffer = p.header_buffer ++ (b'\n' ∷ []);
          current_parser = parse_header_name;
          header_name_starts_at = header_size p + 1;
        },
        rest,
      )
  unfolding new_line
  new_line_next p rest a b c d = ground (arith, length-append p.header_buffer (b'\n' ∷ []))

  pub new_line_end :
      (p : Parser S) (rest : Bytes)
      → header_size p < p.header_buffer_size
      → 3 < header_size p
      → byte_at p.header_buffer (header_size p - 1) ≡ b'\r'
      → byte_at (p.header_buffer ++ (b'\n' ∷ [])) (header_size p - 2) ≡ b'\n'
      → byte_at (p.header_buffer ++ (b'\n' ∷ [])) (header_size p - 3) ≡ b'\r'
      → new_line env p b'\n' rest
        ≡ (on_headers_read (interpret_important_headers env (push_byte p b'\n')), rest)
  unfolding new_line
  new_line_end p rest a b c d e = ground (arith, length-append p.header_buffer (b'\n' ∷ []))

abbrev pub version_text : Bytes
version_text = b'H' ∷ b'T' ∷ b'T' ∷ b'P' ∷ b'/' ∷ b'1' ∷ b'.' ∷ b'1' ∷ []

abbrev pub verb_text : Bytes
verb_text = b'G' ∷ b'E' ∷ b'T' ∷ b' ' ∷ []

pub on_version_lem :
    {S : Type 0} (p : Parser S) (front : Bytes)
    → p.header_buffer ≡ front ++ (version_text ++ (b'\r' ∷ []))
    → p.version_starts_at ≡ length front
    → on_version p ≡ record p {
      request = record p.request { version_major = 1; version_minor = 1 };
      current_parser = parse_new_line;
    }
unfolding on_version
on_version_lem p front e f =
    let last : Bytes = version_text ++ (b'\r' ∷ []) in
    let size : header_size p ≡ length front + 9 =
      ap length e ∙ omega (arith, length-append front last) in
    let major : byte_at p.header_buffer (p.version_starts_at + 5) ≡ b'1' =
      ap (λ b. byte_at b (p.version_starts_at + 5)) e
      ∙ ap (λ n. byte_at (front ++ last) (n + 5)) f
      ∙ get_or-append front last 5 in
    let minor : byte_at p.header_buffer (p.version_starts_at + 7) ≡ b'1' =
      ap (λ b. byte_at b (p.version_starts_at + 7)) e
      ∙ ap (λ n. byte_at (front ++ last) (n + 7)) f
      ∙ get_or-append front last 7 in
    ground arith
