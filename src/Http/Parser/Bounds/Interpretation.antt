-- ===== src/Http/Parser/Bounds/Interpretation.antt =====
-- Interpreting the path and the cookies keeps the header buffer's length.
-- src/LibHttp/private/HttpParser.cpp.
use forum.Base.{
  ℕ, zero, suc, ◌+◌, ◌-◌, ◌≤◌, [], ◌∷◌, ◌++◌, Bool, ◌≡◌, refl, arith, if◌then◌else◌, length,
  length-append, take, drop, Bytes,
}
use forum.Http.UrlEncoding.{decode_url_encoding}
use forum.Http.Parser.Defs.{HttpRequest, content}
use forum.Http.Parser.Interpret.{
  decoded_buffer, PathState, in_path, in_key, in_value, PathLoop, path_round, path_loop,
  interpret_path_string, CookieLoop, cookie_round, skip_spaces, drop_spaces, cookie_loop, is_last,
  path_loop_start,
}

length-decode-le : (xs : Bytes) → length (decode_url_encoding xs) ≤ length xs
unfolding decode_url_encoding
length-decode-le [] = omega arith
length-decode-le (c ∷ []) = ground arith
length-decode-le (c ∷ d ∷ []) = ground (arith, length-decode-le (d ∷ []))
length-decode-le (c ∷ d ∷ e ∷ xs) =
    ground (arith, length-decode-le xs, length-decode-le (d ∷ e ∷ xs))

length-take-drop : (n : ℕ) (xs : Bytes) → length (take n xs) + length (drop n xs) ≡ length xs
length-take-drop zero xs = omega arith
length-take-drop (suc n) [] = omega arith
length-take-drop (suc n) (x ∷ xs) = omega (arith, length-take-drop n xs)

length-drop : (n : ℕ) (xs : Bytes) → length (drop n xs) ≡ length xs - n
length-drop zero xs = omega arith
length-drop (suc n) [] = omega arith
length-drop (suc n) (x ∷ xs) = omega (arith, length-drop n xs)

-- Writing decoded bytes over the front of a region keeps the buffer's length.
length-decoded_buffer :
    (buffer : Bytes) (first last : ℕ) → length (decoded_buffer buffer first last) ≡ length buffer
unfolding decoded_buffer
length-decoded_buffer buffer first last =
    let region = take (last - first) (drop first buffer) in
    let decoded = decode_url_encoding region in
    ground (
      arith,
      length-append (take first buffer) (decoded ++ drop (first + length decoded) buffer),
      length-append decoded (drop (first + length decoded) buffer),
      length-take-drop first buffer,
      length-drop first buffer,
      length-drop (first + length decoded) buffer,
      length-take-drop (last - first) (drop first buffer),
      length-decode-le region,
    )

path_round-length :
    (st : PathState) (s i c : ℕ) (last : Bool) (l : PathLoop)
    → length (path_round st s i c last l).buffer ≡ length l.buffer
unfolding path_round
path_round-length in_path s i c last l = ground (arith, length-decoded_buffer l.buffer s i)
path_round-length in_key s i c last l = ground arith
path_round-length in_value s i c last l =
    let with_key = decoded_buffer l.buffer l.key_start l.key_end in
    ground (
      arith,
      length-decoded_buffer l.buffer l.key_start l.key_end,
      length-decoded_buffer with_key l.value_start i,
    )

path_loop-length :
    (s i : ℕ) (cs : Bytes) (l : PathLoop) → length (path_loop s i cs l).buffer ≡ length l.buffer
unfolding path_loop
path_loop-length s i [] l = refl
path_loop-length s i (c ∷ rest) l = omega (
  arith,
  path_loop-length s (suc i) rest (path_round l.state s i c (is_last rest) l),
  path_round-length l.state s i c (is_last rest) l,
)

pub interpret_path_string-length :
    (s : ℕ) (buffer : Bytes) (request : HttpRequest)
    → length (interpret_path_string s buffer request).buffer ≡ length buffer
unfolding interpret_path_string
interpret_path_string-length s buffer request =
    path_loop-length s s (content buffer request.path) (path_loop_start buffer request)

cookie_round-length :
    (i c : ℕ) (last : Bool) (l : CookieLoop)
    → length (cookie_round i c last l).buffer ≡ length l.buffer
unfolding cookie_round
cookie_round-length i c last l =
    let value_start = skip_spaces l.buffer l.value_start in
    let value_end = drop_spaces l.buffer (if last then i + 1 else i) in
    let name_start = skip_spaces l.buffer l.name_start in
    let name_end = drop_spaces l.buffer l.name_end in
    ground (
      arith,
      length-decoded_buffer l.buffer name_start name_end,
      length-decoded_buffer (decoded_buffer l.buffer name_start name_end) value_start value_end,
      length-decoded_buffer l.buffer value_start value_end,
    )

pub cookie_loop-length :
    (i : ℕ) (cs : Bytes) (l : CookieLoop) → length (cookie_loop i cs l).buffer ≡ length l.buffer
unfolding cookie_loop
cookie_loop-length i [] l = refl
cookie_loop-length i (c ∷ rest) l = omega (
  arith,
  cookie_loop-length (suc i) rest (cookie_round i c (is_last rest) l),
  cookie_round-length i c (is_last rest) l,
)
