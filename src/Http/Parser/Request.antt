-- ===== src/Http/Parser/Request.antt =====
-- A whole request without a body is parsed as it was written. src/LibHttp/private/HttpParser.cpp.
mod Path
mod Rounds
use forum.Base.All.{All}
use forum.Base.{
  ℕ, zero, suc, ◌+◌, ◌-◌, ◌*◌, ◌≤◌, [], ◌∷◌, ◌++◌, true, length, get_or, take, drop, append_assoc,
  length-append, Bytes, ◌≡◌, refl, ap, ◌∙◌, arith,
}
use forum.Http.UrlEncoding.{leading}
use forum.Http.Parser.Defs.{
  get, empty_request, Parser, Environment, push_byte, header_size, content, parse_path,
  parse_version, parse_new_line, parse_header_name,
}
use forum.Http.Parser.Interpret.{interpret_important_headers}
use forum.Http.Parser.Step.{
  byte_at, trimmed, on_verb, on_path, on_version, on_headers_read, header_name, parse_step,
  process_loop, process, init, enough_fuel,
}
use forum.Http.Parser.Request.Path.{
  IsPlain, after_path, length-after_path, on_path-plain, path_bytes, leading-le, take-drop_append,
  IsPlain-no_space,
}
use forum.Http.Parser.Request.Rounds.{
  get_or-append, loop_round, loop_found, new_line_next, new_line_end, version_text, verb_text,
  on_version_lem,
}

abbrev end_text : Bytes
end_text = version_text ++ (b'\r' ∷ b'\n' ∷ b'\r' ∷ b'\n' ∷ [])

-- GET, the path and the version, with no headers.
abbrev pub get_request : Bytes → Bytes
get_request path = verb_text ++ (path ++ (b' ' ∷ end_text))

module _ {S : Type 0} (env : Environment S) (size max_content_length : ℕ) (state : S)
    (path : Bytes) where
  abbrev front : Bytes
  front = after_path verb_text path

  abbrev p1 : Parser S
  p1 = record (init size max_content_length state) {
    header_buffer = verb_text;
    request = record empty_request { verb = get };
    current_parser = parse_path;
    path_starts_at = 4;
  }

  abbrev p2 : Parser S
  p2 = record p1 {
    header_buffer = front;
    request = record p1.request { path = trimmed front (record { start = 4; size = length path }) };
    current_parser = parse_version;
    version_starts_at = length front;
  }

  abbrev p3 : Parser S
  p3 = record p2 {
    header_buffer = front ++ (version_text ++ (b'\r' ∷ []));
    request = record p2.request { version_major = 1; version_minor = 1 };
    current_parser = parse_new_line;
  }

  abbrev p4 : Parser S
  p4 = record p3 {
    header_buffer = p3.header_buffer ++ (b'\n' ∷ []);
    current_parser = parse_header_name;
    header_name_starts_at = header_size p3 + 1;
  }

  abbrev p5 : Parser S
  p5 = record p4 {
    header_buffer = p4.header_buffer ++ (b'\r' ∷ []);
    current_parser = parse_new_line;
  }

  abbrev p6 : Parser S
  p6 = on_headers_read (interpret_important_headers env (push_byte p5 b'\n'))

  module _ (plain : All IsPlain path) (room : length path + 17 ≤ size) where
    to_path :
        (fuel : ℕ) (rest : Bytes)
        → process_loop env (suc fuel) (init size max_content_length state) (verb_text ++ rest)
          ≡ process_loop env fuel p1 rest
    unfolding init on_verb parse_step
    to_path fuel rest =
        loop_found env fuel (init size max_content_length state) b' ' on_verb
          (b'G' ∷ b'E' ∷ b'T' ∷ []) rest (λ c buffer. refl) refl refl (omega arith) (omega arith)

    to_version :
        (fuel : ℕ) (rest : Bytes)
        → process_loop env (suc fuel) p1 (path ++ (b' ' ∷ rest)) ≡ process_loop env fuel p2 rest
    unfolding init parse_step
    to_version fuel rest =
        loop_found env fuel p1 b' ' on_path path rest (λ c buffer. refl) refl refl
          (IsPlain-no_space path plain) (omega arith)
        ∙ ap (λ p. process_loop env fuel p rest)
            (on_path-plain verb_text path plain (record p1 { header_buffer = front }) refl refl)

    to_new_line :
        (fuel : ℕ) (rest : Bytes)
        → process_loop env (suc fuel) p2 (version_text ++ (b'\r' ∷ rest))
          ≡ process_loop env fuel p3 rest
    unfolding init parse_step
    to_new_line fuel rest =
        loop_found env fuel p2 b'\r' on_version version_text rest (λ c buffer. refl) refl refl
          (omega arith) (omega (arith, length-after_path verb_text path))
        ∙ ap (λ p. process_loop env fuel p rest)
            (on_version_lem (record p2 { header_buffer = p3.header_buffer }) front refl refl)

    -- The byte `k` places behind the path, in a header buffer that ends in `text`.
    byte_behind :
        (buffer text : Bytes) (i k : ℕ)
        → buffer ≡ front ++ text
        → i ≡ length front + k
        → byte_at buffer i ≡ get_or text k 0
    byte_behind buffer text i k e f =
        ap (λ b. byte_at b i) e ∙ ap (byte_at (front ++ text)) f ∙ get_or-append front text k

    header_size-p3 : header_size p3 ≡ length path + 14
    header_size-p3 = omega (
      arith,
      length-append front (version_text ++ (b'\r' ∷ [])),
      length-after_path verb_text path,
    )

    to_header_name :
        (fuel : ℕ) (rest : Bytes)
        → process_loop env (suc fuel) p3 (b'\n' ∷ rest) ≡ process_loop env fuel p4 rest
    unfolding init parse_step
    to_header_name fuel rest = loop_round env fuel p3 b'\n' rest p4 rest refl refl (
        new_line_next env p3 rest (omega (arith, header_size-p3)) (omega (arith, header_size-p3))
          (byte_behind p3.header_buffer (version_text ++ (b'\r' ∷ [])) _ 8 refl
            (omega (arith, header_size-p3, length-after_path verb_text path)))
          (byte_behind p4.header_buffer (version_text ++ (b'\r' ∷ b'\n' ∷ [])) _ 7
            (append_assoc front (version_text ++ (b'\r' ∷ [])) (b'\n' ∷ []))
            (omega (arith, header_size-p3, length-after_path verb_text path))))

    header_size-p4 : header_size p4 ≡ length path + 15
    header_size-p4 = omega (arith, header_size-p3, length-append p3.header_buffer (b'\n' ∷ []))

    header_size-p5 : header_size p5 ≡ length path + 16
    header_size-p5 = omega (arith, header_size-p4, length-append p4.header_buffer (b'\r' ∷ []))

    header_name_end : (rest : Bytes) → header_name p4 b'\r' rest ≡ (p5, rest)
    unfolding header_name init
    header_name_end rest = ground (arith, header_size-p4)

    to_last_line :
        (fuel : ℕ) (rest : Bytes)
        → process_loop env (suc fuel) p4 (b'\r' ∷ rest) ≡ process_loop env fuel p5 rest
    unfolding init parse_step
    to_last_line fuel rest =
        loop_round env fuel p4 b'\r' rest p5 rest refl refl (header_name_end rest)

    p5_text : p5.header_buffer ≡ front ++ (version_text ++ (b'\r' ∷ b'\n' ∷ b'\r' ∷ []))
    p5_text =
        ap (λ b. b ++ (b'\r' ∷ [])) (append_assoc front (version_text ++ (b'\r' ∷ [])) (b'\n' ∷ []))
        ∙ append_assoc front (version_text ++ (b'\r' ∷ b'\n' ∷ [])) (b'\r' ∷ [])

    p6_text : p5.header_buffer ++ (b'\n' ∷ []) ≡ front ++ end_text
    p6_text =
        ap (λ b. b ++ (b'\n' ∷ [])) p5_text
        ∙ append_assoc front (version_text ++ (b'\r' ∷ b'\n' ∷ b'\r' ∷ [])) (b'\n' ∷ [])

    to_end :
        (fuel : ℕ) (rest : Bytes)
        → process_loop env (suc fuel) p5 (b'\n' ∷ rest) ≡ process_loop env fuel p6 rest
    unfolding init parse_step
    to_end fuel rest = loop_round env fuel p5 b'\n' rest p6 rest refl refl (
        new_line_end env p5 rest (omega (arith, header_size-p5)) (omega (arith, header_size-p5))
          (byte_behind p5.header_buffer (version_text ++ (b'\r' ∷ b'\n' ∷ b'\r' ∷ [])) _ 10 p5_text
            (omega (arith, header_size-p5, length-after_path verb_text path)))
          (byte_behind (p5.header_buffer ++ (b'\n' ∷ [])) end_text _ 9 p6_text
            (omega (arith, header_size-p5, length-after_path verb_text path)))
          (byte_behind (p5.header_buffer ++ (b'\n' ∷ [])) end_text _ 8 p6_text
            (omega (arith, header_size-p5, length-after_path verb_text path))))

    loop-nil : (fuel : ℕ) → process_loop env fuel p6 [] ≡ (p6, [])
    unfolding process_loop
    loop-nil zero = refl
    loop-nil (suc fuel) = refl

    rounds :
        (fuel : ℕ)
        → process_loop env
            (suc (suc (suc (suc (suc (suc fuel))))))
            (init size max_content_length state)
            (get_request path)
          ≡ (p6, [])
    rounds fuel =
        to_path _ _
        ∙ to_version _ _
        ∙ to_new_line _ _
        ∙ to_header_name _ _
        ∙ to_last_line _ _
        ∙ to_end _ []
        ∙ loop-nil fuel

    fuel_there :
        enough_fuel (get_request path) ≡ suc (suc (suc (suc (suc (suc (2 * length path + 30))))))
    fuel_there = omega (arith, length-append path (b' ' ∷ end_text))

    process-p6 : process env (init size max_content_length state) (get_request path) ≡ p6
    unfolding process init
    process-p6 =
        ap
          (λ fuel.
            (process_loop env fuel (init size max_content_length state) (get_request path)).0)
          fuel_there
        ∙ ap (λ x. x.0) (rounds (2 * length path + 30))

    trimmed_path : content (front ++ end_text) p2.request.path ≡ drop (leading b'/' path) path
    trimmed_path =
        let same = path_bytes verb_text path (length path) refl in
        let n = leading b'/' path in
        let behind : 4 + n ≡ suc (suc (suc (suc n))) = omega arith in
        ap (content (front ++ end_text)) (λ i. record {
          start = 4 + leading b'/' (same i);
          size = length path - leading b'/' (same i);
        })
        ∙ ap (λ m. take (length path - n) (drop m (verb_text ++ (path ++ (b' ' ∷ [])) ++ end_text)))
            behind
        ∙ ap (λ b. take (length path - n) (drop n b)) (append_assoc path (b' ' ∷ []) end_text)
        ∙ take-drop_append path ((b' ' ∷ []) ++ end_text) n (leading-le path)

-- A request to get a path of bytes that stand for themselves, in the version 1.1 and with no headers,
-- for which the header buffer has room: the parser finishes without an error, and reports the verb,
-- the version, and the path without the slashes in front.
pub process-get_request :
    {S : Type 0} (env : Environment S) (size max_content_length : ℕ) (state : S) (path : Bytes)
    → All IsPlain path
    → length path + 17 ≤ size
    → let p = process env (init size max_content_length state) (get_request path) in
      (p.valid ≡ true)
      × (p.finished ≡ true)
      × (p.request.verb ≡ get)
      × (p.request.version_major ≡ 1)
      × (p.request.version_minor ≡ 1)
      × (content p.header_buffer p.request.path ≡ drop (leading b'/' path) path)
unfolding init interpret_important_headers on_headers_read
process-get_request env size max_content_length state path plain room =
    let e = process-p6 env size max_content_length state path plain room in
    (
      ap (λ p. p.valid) e,
      ap (λ p. p.finished) e,
      ap (λ p. p.request.verb) e,
      ap (λ p. p.request.version_major) e,
      ap (λ p. p.request.version_minor) e,
      ap (λ p. content p.header_buffer p.request.path) e
          ∙ ap (λ b. content b (p2 env size max_content_length state path).request.path)
              (p6_text env size max_content_length state path plain room)
          ∙ trimmed_path env size max_content_length state path plain room,
    )
