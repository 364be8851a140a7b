-- ===== src/Http/Parser/Bounds.antt =====
-- The header buffer is never written beyond its end. src/LibHttp/private/HttpParser.cpp.
mod Interpretation
use forum.Base.{
  ℕ, zero, suc, ◌-◌, ◌≤◌, List, [], ◌∷◌, ◌≡◌, refl, ◌∙◌, arith, length, length-append, Bytes,
}
use forum.Http.Parser.Defs.{
  View, Mode, parse_verb, parse_path, parse_version, parse_new_line, parse_header_name,
  parse_header_spacing, parse_header_value, parse_body, Parser, Environment, header_size, push_byte,
  Copied, copy_until, HttpRequest, content,
}
use forum.Http.Parser.Interpret.{
  interpret_cookies, interpret_important_headers, with_cookies, with_important_headers,
  cookie_loop_start,
}
use forum.Http.Parser.Step.{
  on_verb, on_path, on_version, on_header_name, on_header_value, on_headers_read, new_line,
  header_name, header_spacing, body, parse_step, process_loop, process, init, when_reached,
  enough_fuel,
}
use forum.Http.Parser.Bounds.Interpretation.{interpret_path_string-length, cookie_loop-length}

module _ {S : Type 0} where
  -- The bytes written fit into the buffer.
  abbrev pub Fits : Parser S → Type 0
  Fits p = header_size p ≤ p.header_buffer_size

  -- The two parsers have as many bytes in buffers of one size.
  abbrev SameSize : Parser S → Parser S → Type 0
  SameSize p q = (header_size p ≡ header_size q) × (p.header_buffer_size ≡ q.header_buffer_size)

  copy_until-Fits :
      (to_search : ℕ) (p : Parser S) (buffer : Bytes)
      → Fits p
      → Fits (copy_until to_search p buffer).parser
  unfolding copy_until
  copy_until-Fits to_search p [] h = h
  copy_until-Fits to_search p (c ∷ buffer) h = ground (
    arith,
    length-append p.header_buffer (c ∷ []),
    copy_until-Fits to_search (push_byte p c) buffer,
  )

  on_verb-SameSize : (p : Parser S) → SameSize (on_verb p) p
  unfolding on_verb
  on_verb-SameSize p = ground arith

  on_path-SameSize : (p : Parser S) → SameSize (on_path p) p
  unfolding on_path
  on_path-SameSize p = (
    interpret_path_string-length p.path_starts_at p.header_buffer (record p.request {
      path = record { start = p.path_starts_at; size = header_size p - p.path_starts_at };
    }),
    refl,
  )

  on_version-SameSize : (p : Parser S) → SameSize (on_version p) p
  unfolding on_version
  on_version-SameSize p = ground arith

  on_header_name-SameSize : (p : Parser S) → SameSize (on_header_name p) p
  unfolding on_header_name
  on_header_name-SameSize p = (refl, refl)

  on_headers_read-SameSize : (p : Parser S) → SameSize (on_headers_read p) p
  unfolding on_headers_read
  on_headers_read-SameSize p = ground arith

  module _ (env : Environment S) where
    on_header_value-SameSize : (p : Parser S) → SameSize (on_header_value env p) p
    unfolding on_header_value
    on_header_value-SameSize p = ground arith

    with_important_headers-SameSize : (p : Parser S) → SameSize (with_important_headers env p) p
    unfolding with_important_headers
    with_important_headers-SameSize p = ground arith

    interpret_cookies-length :
        (buffer : Bytes) (request : HttpRequest) (value : View)
        → length (interpret_cookies buffer request value).buffer ≡ length buffer
    unfolding interpret_cookies
    interpret_cookies-length buffer request value =
        cookie_loop-length value.start (content buffer value)
          (cookie_loop_start buffer request value)

    interpret_important_headers-SameSize :
        (p : Parser S) → SameSize (interpret_important_headers env p) p
    unfolding interpret_important_headers with_cookies
    interpret_important_headers-SameSize p =
        let q = with_important_headers env p in
        let (size, bound) = with_important_headers-SameSize p in
        (interpret_cookies-length q.header_buffer q.request _ ∙ size, bound)

    new_line-Fits :
        (p : Parser S) (c : ℕ) (buffer : Bytes) → Fits p → Fits (new_line env p c buffer).0
    unfolding new_line
    new_line-Fits p c buffer h =
        let q = push_byte p b'\n' in
        ground (
          arith,
          length-append p.header_buffer (b'\n' ∷ []),
          on_headers_read-SameSize (interpret_important_headers env q),
          interpret_important_headers-SameSize q,
        )

    header_spacing-SameSize :
        (p : Parser S) (buffer : Bytes) → SameSize (header_spacing p buffer).0 p
    unfolding header_spacing
    header_spacing-SameSize p [] = (refl, refl)
    header_spacing-SameSize p (c ∷ buffer) = ground (arith, header_spacing-SameSize p buffer)

    header_name-Fits :
        (p : Parser S) (c : ℕ) (buffer : Bytes) → Fits p → Fits (header_name p c buffer).0
    unfolding header_name
    header_name-Fits p c buffer h = ground (
      arith,
      length-append p.header_buffer (b'\r' ∷ []),
      copy_until-Fits b':' p (c ∷ buffer) h,
      on_header_name-SameSize (copy_until b':' p (c ∷ buffer)).parser,
    )

    body-SameSize : (p : Parser S) (buffer : Bytes) → SameSize (body env p buffer).0 p
    unfolding body
    body-SameSize p buffer = ground arith

    when_reached-Fits :
        (f : Parser S → Parser S) (copied : Copied S)
        → ((q : Parser S) → SameSize (f q) q)
        → Fits copied.parser
        → Fits (when_reached f copied).0
    when_reached-Fits f copied same h = ground (arith, same copied.parser)

    parse_step-Fits :
        (m : Mode) (p : Parser S) (c : ℕ) (buffer : Bytes)
        → Fits p
        → Fits (parse_step env m p c buffer).0
    unfolding parse_step
    parse_step-Fits parse_verb p c buffer h =
        when_reached-Fits on_verb (copy_until b' ' p (c ∷ buffer)) (on_verb-SameSize)
          (copy_until-Fits b' ' p (c ∷ buffer) h)
    parse_step-Fits parse_path p c buffer h =
        when_reached-Fits on_path (copy_until b' ' p (c ∷ buffer)) (on_path-SameSize)
          (copy_until-Fits b' ' p (c ∷ buffer) h)
    parse_step-Fits parse_version p c buffer h =
        when_reached-Fits on_version (copy_until b'\r' p (c ∷ buffer)) (on_version-SameSize)
          (copy_until-Fits b'\r' p (c ∷ buffer) h)
    parse_step-Fits parse_new_line p c buffer h = new_line-Fits p c buffer h
    parse_step-Fits parse_header_name p c buffer h = header_name-Fits p c buffer h
    parse_step-Fits parse_header_spacing p c buffer h =
        omega (arith, header_spacing-SameSize p (c ∷ buffer))
    parse_step-Fits parse_header_value p c buffer h =
        when_reached-Fits (on_header_value env) (copy_until b'\r' p (c ∷ buffer))
          (on_header_value-SameSize) (copy_until-Fits b'\r' p (c ∷ buffer) h)
    parse_step-Fits parse_body p c buffer h = omega (arith, body-SameSize p (c ∷ buffer))

    process_loop-Fits :
        (fuel : ℕ) (p : Parser S) (buffer : Bytes)
        → Fits p
        → Fits (process_loop env fuel p buffer).0
    unfolding process_loop
    process_loop-Fits zero p buffer h = h
    process_loop-Fits (suc fuel) p [] h = h
    process_loop-Fits (suc fuel) p (c ∷ buffer) h =
        let next = parse_step env p.current_parser p c buffer in
        ground (
          arith,
          process_loop-Fits fuel next.0 next.1 (parse_step-Fits p.current_parser p c buffer h),
        )

    process-Fits : (p : Parser S) (buffer : Bytes) → Fits p → Fits (process env p buffer)
    unfolding process
    process-Fits p buffer h = ground (arith, process_loop-Fits (enough_fuel buffer) p buffer h)

    -- Chunk after chunk.
    abbrev pub feed : Parser S → List Bytes → Parser S
    feed p [] = p
    feed p (chunk ∷ chunks) = feed (process env p chunk) chunks

    feed-Fits : (p : Parser S) (chunks : List Bytes) → Fits p → Fits (feed p chunks)
    feed-Fits p [] h = h
    feed-Fits p (chunk ∷ chunks) h = feed-Fits (process env p chunk) chunks (process-Fits p chunk h)

-- Whatever the client sends, in whatever chunks, a parser never writes beyond its header buffer. (The
-- arrays of query pairs and cookies are other memory: beyond 64 pairs or 32 cookies the source writes
-- behind them, and the statement is about requests that stay within both.)
pub feed-init-Fits :
    {S : Type 0} (env : Environment S) (header_buffer_size max_content_length : ℕ) (state : S)
    (chunks : List Bytes)
    → Fits (feed env (init header_buffer_size max_content_length state) chunks)
feed-init-Fits env header_buffer_size max_content_length state chunks =
    feed-Fits env _ chunks (unfold init in omega arith)
