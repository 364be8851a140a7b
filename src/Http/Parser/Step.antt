-- ===== src/Http/Parser/Step.antt =====
-- The parser functions, the loop of process, and reset. src/LibHttp/private/HttpParser.cpp. A
-- function takes the bytes of the chunk that are left, and returns those that it leaves.
use forum.Base.{
  ℕ, zero, suc, ◌+◌, ◌-◌, ◌*◌, [], ◌∷◌, Bool, true, false, not, ◌&&◌, ◌||◌, ltb, leb, ◌==◌,
  if◌then◌else◌, length, get_or, set, take, Bytes,
}
use forum.Http.UrlEncoding.{leading}
use forum.Http.Parser.Defs.{
  HttpVerb, unknown, get, delete, bad_request, payload_too_large, not_implemented,
  http_version_not_supported, View, null_view, empty_request, Mode, parse_verb, parse_path,
  parse_version, parse_new_line, parse_header_name, parse_header_spacing, parse_header_value,
  parse_body, Parser, Environment, header_size, content, push_byte, reject, Copied, copy_until,
  parse_http_verb, content_encoding_header, transfer_encoding_header,
}
use forum.Http.Parser.Interpret.{interpret_path_string, interpret_important_headers}

-- trimLeadingChar(request_.path, '/')
abbrev pub trimmed : Bytes → View → View
trimmed buffer view =
    let n = leading b'/' (content buffer view) in
    record { start = view.start + n; size = view.size - n }

abbrev pub byte_at : Bytes → ℕ → ℕ
byte_at buffer i = get_or buffer i 0

abbrev pub is_unknown : HttpVerb → Bool
is_unknown unknown = true
is_unknown _ = false

abbrev pub has_no_body : HttpVerb → Bool
has_no_body get = true
has_no_body delete = true
has_no_body _ = false

module _ {S : Type 0} where
  unfoldable pub on_verb : Parser S → Parser S
  unfolding parse_http_verb
  on_verb p =
      let verb = parse_http_verb (take (header_size p - 1) p.header_buffer) in
      let q = record p { request = record p.request { verb = verb } } in
      if is_unknown verb
      then record q { valid = false }
      else record q { current_parser = parse_path; path_starts_at = header_size p }

  unfoldable pub on_path : Parser S → Parser S
  unfolding interpret_path_string leading
  on_path p =
      let whole : View = record {
        start = p.path_starts_at;
        size = header_size p - p.path_starts_at;
      } in
      let l =
        interpret_path_string p.path_starts_at p.header_buffer
          (record p.request { path = whole }) in
      record p {
        header_buffer = l.buffer;
        request = record p.request { path = trimmed l.buffer l.path; query_pairs = l.pairs };
        current_parser = parse_version;
        version_starts_at = header_size p;
      }

  unfoldable pub on_version : Parser S → Parser S
  on_version p =
      let q = record p { request = record p.request { version_major = 1 } } in
      let minor = byte_at p.header_buffer (p.version_starts_at + 7) in
      if not (header_size p - 1 - p.version_starts_at == 8)
      then reject p http_version_not_supported
      else if not (byte_at p.header_buffer (p.version_starts_at + 5) == b'1')
      then reject p http_version_not_supported
      else if minor == b'0'
      then record q {
        request = record q.request { version_minor = 0 };
        current_parser = parse_new_line;
      }
      else if minor == b'1'
      then record q {
        request = record q.request { version_minor = 1 };
        current_parser = parse_new_line;
      }
      else reject q http_version_not_supported

  unfoldable pub on_header_name : Parser S → Parser S
  on_header_name p = record p {
    current_header_name = record {
      start = p.header_name_starts_at;
      size = header_size p - 1 - p.header_name_starts_at;
    };
    current_parser = parse_header_spacing;
  }

  -- The end of parseNewLine, once the headers are complete.
  unfoldable pub on_headers_read : Parser S → Parser S
  on_headers_read p =
      if has_no_body p.request.verb || ltb p.expected_content_length 1
      then record p { finished = true }
      else if ltb 0 (get_or p.request.headers transfer_encoding_header null_view).size
          || ltb 0 (get_or p.request.headers content_encoding_header null_view).size
      then reject p not_implemented
      else record p { current_parser = parse_body }

  -- The arguments after the parser are what copyUntil left.
  abbrev pub when_reached : (Parser S → Parser S) → Copied S → Parser S × Bytes
  when_reached f copied =
      if copied.reached then (f copied.parser, copied.rest) else (copied.parser, copied.rest)

  unfoldable pub header_name : Parser S → ℕ → Bytes → Parser S × Bytes
  unfolding copy_until on_header_name
  header_name p c buffer =
      if c == b'\r'
      then (if leb p.header_buffer_size (header_size p)
          then (reject p payload_too_large, c ∷ buffer)
          else (record (push_byte p b'\r') { current_parser = parse_new_line }, buffer))
      else when_reached on_header_name (copy_until b':' p (c ∷ buffer))

  unfoldable pub header_spacing : Parser S → Bytes → Parser S × Bytes
  header_spacing p [] = (p, [])
  header_spacing p (c ∷ buffer) =
      let rest = header_spacing p buffer in
      if c == b' ' then rest else (
        record p { current_parser = parse_header_value; header_value_starts_at = header_size p },
        c ∷ buffer,
      )

-- A round may read nothing (parseHeaderSpacing at its end), but then the next one does.
abbrev pub enough_fuel : Bytes → ℕ
enough_fuel buffer = 2 * length buffer + 2

module _ {S : Type 0} (env : Environment S) where
  unfoldable pub on_header_value : Parser S → Parser S
  on_header_value p =
      let value : View = record {
        start = p.header_value_starts_at;
        size = header_size p - 1 - p.header_value_starts_at;
      } in
      let header = env.match_http_header (content p.header_buffer p.current_header_name) in
      let q = record p { current_header_value = value; current_parser = parse_new_line } in
      if header == 0
      then q
      else record q { request = record p.request { headers = set p.request.headers header value } }

  unfoldable pub new_line : Parser S → ℕ → Bytes → Parser S × Bytes
  unfolding interpret_important_headers on_headers_read
  new_line p c buffer =
      let q = push_byte p b'\n' in
      let n = header_size q in
      if not (c == b'\n')
        || leb p.header_buffer_size (header_size p)
        || ltb (header_size p) 1
        || not (byte_at p.header_buffer (header_size p - 1) == b'\r')
      then (reject p payload_too_large, c ∷ buffer)
      else if ltb 4 n
          && byte_at q.header_buffer (n - 3) == b'\n'
          && byte_at q.header_buffer (n - 4) == b'\r'
      then (on_headers_read (interpret_important_headers env q), buffer)
      else (record q { current_parser = parse_header_name; header_name_starts_at = n }, buffer)

  unfoldable pub body : Parser S → Bytes → Parser S × Bytes
  body p buffer =
      let (room, state) = env.push_body_bytes buffer p.push_body_bytes_state in
      let pushed = record p { push_body_bytes_state = state } in
      let q = if room then pushed else reject pushed payload_too_large in
      let processed = p.request_body_bytes_processed + length buffer in
      let counted = record q { request_body_bytes_processed = processed } in
      if ltb p.max_content_length p.expected_content_length
      then (reject p payload_too_large, buffer)
      else (
        if leb p.expected_content_length processed
            then record counted { finished = true }
            else counted,
        [],
      )

  -- `(this->*currentParser_)(buffer, size)`, where there is at least one byte.
  unfoldable pub parse_step : Mode → Parser S → ℕ → Bytes → Parser S × Bytes
  unfolding copy_until on_verb on_path on_version new_line header_name header_spacing
      on_header_value body
  parse_step parse_verb p c buffer = when_reached on_verb (copy_until b' ' p (c ∷ buffer))
  parse_step parse_path p c buffer = when_reached on_path (copy_until b' ' p (c ∷ buffer))
  parse_step parse_version p c buffer = when_reached on_version (copy_until b'\r' p (c ∷ buffer))
  parse_step parse_new_line p c buffer = new_line p c buffer
  parse_step parse_header_name p c buffer = header_name p c buffer
  parse_step parse_header_spacing p c buffer = header_spacing p (c ∷ buffer)
  parse_step parse_header_value p c buffer =
      when_reached on_header_value (copy_until b'\r' p (c ∷ buffer))
  parse_step parse_body p c buffer = body p (c ∷ buffer)

  -- The loop, with fuel.
  unfoldable pub process_loop : ℕ → Parser S → Bytes → Parser S × Bytes
  unfolding parse_step
  process_loop zero p buffer = (p, buffer)
  process_loop (suc fuel) p [] = (p, [])
  process_loop (suc fuel) p (c ∷ buffer) =
      let next = parse_step p.current_parser p c buffer in
      let rest = process_loop fuel next.0 next.1 in
      if p.valid && not p.finished then rest else (p, c ∷ buffer)

  unfoldable pub process : Parser S → Bytes → Parser S
  unfolding process_loop
  process p buffer = if p.finished then p else (process_loop (enough_fuel buffer) p buffer).0

-- The constructor; the pointers that it sets are offset 0.
unfoldable pub init : {S : Type 0} → ℕ → ℕ → S → Parser S
init header_buffer_size max_content_length state = record {
  header_buffer = [];
  header_buffer_size = header_buffer_size;
  max_content_length = max_content_length;
  push_body_bytes_state = state;
  request = empty_request;
  valid = true;
  finished = false;
  error_code = bad_request;
  current_parser = parse_verb;
  path_starts_at = 0;
  version_starts_at = 0;
  header_name_starts_at = 0;
  current_header_name = null_view;
  header_value_starts_at = 0;
  current_header_value = null_view;
  expected_content_length = 0;
  request_body_bytes_processed = 0;
}

-- Makes the parser ready for a new request; the callback's state is not the parser's to reset.
unfoldable pub reset : {S : Type 0} → Parser S → Parser S
reset p = record {
  header_buffer = [];
  header_buffer_size = p.header_buffer_size;
  max_content_length = p.max_content_length;
  push_body_bytes_state = p.push_body_bytes_state;
  request = empty_request;
  valid = true;
  finished = false;
  error_code = bad_request;
  current_parser = parse_verb;
  path_starts_at = 0;
  version_starts_at = 0;
  header_name_starts_at = 0;
  current_header_name = null_view;
  header_value_starts_at = 0;
  current_header_value = null_view;
  expected_content_length = 0;
  request_body_bytes_processed = 0;
}
