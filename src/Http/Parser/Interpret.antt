-- ===== src/Http/Parser/Interpret.antt =====
-- What the parser reads out of the path, the headers and the cookies: interpretPathString,
-- interpretImportantHeaders and interpretCookies of src/LibHttp/private/HttpParser.cpp. Decoding
-- in place writes only bytes in front of those that the loops still read, so each loop runs over the
-- bytes as they were; it writes to the buffer beside them. The arrays are lists to which
-- a store appends, exact up to 64 pairs and 32 cookies: the source does not test the number either, and
-- then writes behind the arrays.
use forum.Base.{
  ℕ, zero, suc, ◌+◌, ◌-◌, List, [], ◌∷◌, ◌++◌, Option, none, some, Bool, true, false, ◌||◌, ltb,
  ◌==◌, if◌then◌else◌, length, get_or, take, drop, Bytes,
}
use forum.Http.UrlEncoding.{decode_url_encoding, leading, match_string_upper_or_lower}
use forum.Http.Parser.Defs.{
  View, null_view, HttpRequest, Parser, Environment, content, reject, expectation_failed,
  connection_header, content_length_header, cookie_header, expect_header,
}

-- viewAfterDecodingUrlEncodingInPlace on the bytes from `first` up to `last`; a null pointer is
-- handed to it if there are none.
unfoldable pub decoded_view : Bytes → ℕ → ℕ → View
unfolding decode_url_encoding
decoded_view buffer first last =
    if ltb first last
    then record {
      start = first;
      size = length (decode_url_encoding (take (last - first) (drop first buffer)));
    }
    else null_view

unfoldable pub decoded_buffer : Bytes → ℕ → ℕ → Bytes
unfolding decode_url_encoding
decoded_buffer buffer first last =
    let decoded = decode_url_encoding (take (last - first) (drop first buffer)) in
    if ltb first last
    then take first buffer ++ (decoded ++ drop (first + length decoded) buffer)
    else buffer

pub data PathState : Type 0 where
  in_path in_key in_value : PathState

-- The variables of the loop of interpretPathString. Positions are offsets into the buffer.
pub record PathLoop : Type 0 where
  pub state : PathState
  pub key_start : ℕ
  pub key_end : ℕ
  pub value_start : ℕ
  pub value_end : ℕ
  pub buffer : Bytes
  pub path : View
  pub pairs : List (View × View)

-- One round (exact while there are at most 64 pairs), at offset `i` with byte `c`; `last` is `(i + 1) == n`.
unfoldable pub path_round : PathState → ℕ → ℕ → ℕ → Bool → PathLoop → PathLoop
unfolding decoded_view decoded_buffer
path_round in_path starts_at i c last l =
    if c == b'?' || last
    then record l {
      buffer = decoded_buffer l.buffer starts_at i;
      path = record {
        start = starts_at;
        size = length (decode_url_encoding (take (i - starts_at) (drop starts_at l.buffer)));
      };
      state = in_key;
      key_start = i + 1;
      key_end = i + 1;
    }
    else l
path_round in_key starts_at i c last l =
    if c == b'='
    then record l { key_end = i; state = in_value; value_start = i + 1; value_end = i + 1 }
    else l
path_round in_value starts_at i c last l =
    let with_key = decoded_buffer l.buffer l.key_start l.key_end in
    if c == b'&' || last
    then record l {
      value_end = i;
      buffer = decoded_buffer with_key l.value_start i;
      pairs =
          l.pairs
          ++ ((decoded_view l.buffer l.key_start l.key_end, decoded_view with_key l.value_start i)
              ∷ []);
      key_start = i + 1;
      key_end = i + 1;
      state = in_key;
    }
    else l

abbrev pub is_last : Bytes → Bool
is_last [] = true
is_last (c ∷ rest) = false

unfoldable pub path_loop : ℕ → ℕ → Bytes → PathLoop → PathLoop
unfolding path_round
path_loop starts_at i [] l = l
path_loop starts_at i (c ∷ rest) l =
    path_loop starts_at (suc i) rest (path_round l.state starts_at i c (is_last rest) l)

abbrev pub path_loop_start : Bytes → HttpRequest → PathLoop
path_loop_start buffer request = record {
  state = in_path;
  key_start = 0;
  key_end = 0;
  value_start = 0;
  value_end = 0;
  buffer = buffer;
  path = request.path;
  pairs = request.query_pairs;
}

-- `request.path` is the view of the whole path, with the space behind it.
unfoldable pub interpret_path_string : ℕ → Bytes → HttpRequest → PathLoop
unfolding path_loop
interpret_path_string starts_at buffer request =
    path_loop starts_at starts_at (content buffer request.path) (path_loop_start buffer request)

-- The loop of interpretCookies. The first flag is its `state`: false in a name, true in a value.
pub record CookieLoop : Type 0 where
  pub in_cookie_value : Bool
  pub name_start : ℕ
  pub name_end : ℕ
  pub value_start : ℕ
  pub value_end : ℕ
  pub buffer : Bytes
  pub cookies : List (View × View)

-- `while (cookieStart[start] == ' ') start += 1;`
unfoldable pub skip_spaces : Bytes → ℕ → ℕ
unfolding leading
skip_spaces buffer start = start + leading b' ' (drop start buffer)

-- `while (cookieStart[end - 1] == ' ') end -= 1;` The byte in front of the header's value is no
-- space, so that the scan ends at the latest there.
unfoldable pub drop_spaces : Bytes → ℕ → ℕ
drop_spaces buffer zero = zero
drop_spaces buffer (suc n) =
    let less = drop_spaces buffer n in if get_or buffer n 0 == b' ' then less else suc n

-- One round; exact while there are at most 32 cookies.
unfoldable pub cookie_round : ℕ → ℕ → Bool → CookieLoop → CookieLoop
unfolding decoded_view decoded_buffer skip_spaces drop_spaces
cookie_round i c last l =
    let ends = c == b';' || last in
    let end = if last then i + 1 else i in
    let value_start = skip_spaces l.buffer l.value_start in
    let value_end = drop_spaces l.buffer end in
    let name_start = skip_spaces l.buffer l.name_start in
    let name_end = drop_spaces l.buffer l.name_end in
    let with_name = decoded_buffer l.buffer name_start name_end in
    let next = λ (buffer : Bytes) (cookie : View × View). record l {
      in_cookie_value = false;
      name_start = i + 1;
      name_end = i + 1;
      value_start = i + 1;
      value_end = i + 1;
      buffer = buffer;
      cookies = l.cookies ++ (cookie ∷ []);
    } in
    if l.in_cookie_value
    then (if ends
        then next (decoded_buffer with_name value_start value_end) (
          decoded_view l.buffer name_start name_end,
          decoded_view with_name value_start value_end,
        )
        else l)
    else if c == b'='
    then record l { name_end = i; in_cookie_value = true; value_start = i + 1; value_end = i + 1 }
    else if ends
    then next (decoded_buffer l.buffer value_start value_end)
        (null_view, decoded_view l.buffer value_start value_end)
    else l

unfoldable pub cookie_loop : ℕ → Bytes → CookieLoop → CookieLoop
unfolding cookie_round
cookie_loop i [] l = l
cookie_loop i (c ∷ rest) l = cookie_loop (suc i) rest (cookie_round i c (is_last rest) l)

abbrev pub cookie_loop_start : Bytes → HttpRequest → View → CookieLoop
cookie_loop_start buffer request value = record {
  in_cookie_value = false;
  name_start = value.start;
  name_end = value.start;
  value_start = value.start;
  value_end = value.start;
  buffer = buffer;
  cookies = request.cookies;
}

unfoldable pub interpret_cookies : Bytes → HttpRequest → View → CookieLoop
unfolding cookie_loop
interpret_cookies buffer request value =
    cookie_loop value.start (content buffer value) (cookie_loop_start buffer request value)

module _ {S : Type 0} (env : Environment S) where
  abbrev header_view : Parser S → ℕ → View
  header_view p header = get_or p.request.headers header null_view

  abbrev or_zero : Option ℕ → ℕ
  or_zero none = 0
  or_zero (some n) = n

  unfoldable pub with_cookies : Parser S → CookieLoop → Parser S
  with_cookies p l = record p {
    header_buffer = l.buffer;
    request = record p.request { cookies = l.cookies };
  }

  -- Everything but the cookies.
  unfoldable pub with_important_headers : Parser S → Parser S
  unfolding match_string_upper_or_lower
  with_important_headers p =
      let sized = record p {
        expected_content_length = or_zero (
            env.try_lexical_convert
              (content p.header_buffer (header_view p content_length_header)));
        request = record p.request {
          keep_connection_alive =
              match_string_upper_or_lower
                (content p.header_buffer (header_view p connection_header))
                (b'k' ∷ b'e' ∷ b'e' ∷ b'p' ∷ b'-' ∷ b'a' ∷ b'l' ∷ b'i' ∷ b'v' ∷ b'e' ∷ [])
                (b'K' ∷ b'E' ∷ b'E' ∷ b'P' ∷ b'-' ∷ b'A' ∷ b'L' ∷ b'I' ∷ b'V' ∷ b'E' ∷ []);
        };
      } in
      if ltb 0 (header_view p expect_header).size then reject sized expectation_failed else sized

  unfoldable pub interpret_important_headers : Parser S → Parser S
  unfolding with_important_headers interpret_cookies with_cookies
  interpret_important_headers p =
      let q = with_important_headers p in
      with_cookies q (interpret_cookies q.header_buffer q.request (header_view p cookie_header))
