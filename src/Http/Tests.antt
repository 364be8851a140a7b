-- ===== src/Http/Tests.antt =====
-- Runs of the parser and of the encoding.
use forum.Base.All.{All}
use forum.Base.{
  ℕ, List, ◌≤◌, [], ◌∷◌, none, true, ◌≡◌, refl, arith, length, Bytes, drop, false, some, ◌<◌, ◌++◌,
  ◌↔◌, ◌+◌,
}
use forum.Http.UrlEncoding.{decode_url_encoding, encode_bytes, url_encode, leading}
use forum.Http.UrlEncoding.RoundTrip.{decode_url_encoding-encode_bytes, url_encode_fits, IsUrlByte}
use forum.Http.Parser.Interpret.{interpret_path_string}
use forum.Http.Parser.Defs.{
  max_query_pairs, get, content, payload_too_large, HttpRequest, empty_request, Environment,
}
use forum.Http.Parser.Request.{get_request, process-get_request}
use forum.Http.Parser.TooLong.{process_too_long}
use forum.Http.BufferPool.{FixedSizeBufferPool, buffer_pool, lease_buffer}
use forum.Http.BufferPool.Leases.{occurrences, lease, start, lease_buffer-exclusive}
use forum.Http.Parser.Queries.{query_of, fields_of, count_pairs, interpret_path_string-fields_of}
use forum.Http.Parser.Step.{init, process_loop, enough_fuel, process}
use forum.Http.Parser.Bounds.{Fits, feed, feed-init-Fits}
use forum.Http.Parser.Termination.{Stopped, process_loop-enough_fuel}

-- The body is collected; no header is known, and no number is read.
abbrev environment : Environment Bytes
environment = record {
  try_lexical_convert = λ bytes. none;
  match_http_header = λ name. 0;
  push_body_bytes = λ bytes body. (true, bytes);
}

abbrev text : Bytes
text = b'a' ∷ b' ' ∷ b'%' ∷ []

decode_url_encoding-encode_bytes_example : decode_url_encoding (encode_bytes text) ≡ text
decode_url_encoding-encode_bytes_example = decode_url_encoding-encode_bytes text (omega arith)

url_encode_fits_example : (length (url_encode 9 text) ≤ 9) × All IsUrlByte (url_encode 9 text)
url_encode_fits_example = url_encode_fits 9 text (omega arith)

abbrev request_line : Bytes
request_line =
    b'G' ∷ b'E' ∷ b'T' ∷ b' ' ∷ b'/' ∷ b'a' ∷ b' ' ∷ b'H' ∷ b'T' ∷ b'T' ∷ b'P' ∷ b'/' ∷ b'1' ∷ b'.'
    ∷ b'1' ∷ b'\r' ∷ b'\n' ∷ []

abbrev last_line : Bytes
last_line = b'\r' ∷ b'\n' ∷ []

feed-init-Fits_example : Fits (feed environment (init 12 100 []) (request_line ∷ last_line ∷ []))
feed-init-Fits_example = feed-init-Fits environment 12 100 [] (request_line ∷ last_line ∷ [])

process_loop-enough_fuel_example :
    Stopped environment
      (process_loop environment (enough_fuel request_line) (init 100 100 []) request_line)
process_loop-enough_fuel_example =
    process_loop-enough_fuel environment (init 100 100 []) request_line

finished_test :
    (process environment (process environment (init 100 100 []) request_line) last_line).finished
    ≡ true
unfolding process init
finished_test = refl

-- Two fields with an equals sign, and one without.
abbrev query_path : Bytes
query_path = b'/' ∷ b'?' ∷ b'a' ∷ b'=' ∷ b'=' ∷ b'&' ∷ b'b' ∷ b'&' ∷ b'c' ∷ b'=' ∷ []

abbrev query_request : HttpRequest
query_request = record empty_request { path = record { start = 0; size = 11 } }

interpret_path_string-fields_of_example :
    let stored = length (interpret_path_string 0 (query_path ++ (b' ' ∷ [])) query_request).pairs in
    let expected =
      length query_request.query_pairs + count_pairs (fields_of (query_of query_path)) in
    (stored ≡ expected) × ((stored ≤ max_query_pairs) ↔ (expected ≤ max_query_pairs))
interpret_path_string-fields_of_example =
    interpret_path_string-fields_of 0 (query_path ++ (b' ' ∷ [])) query_path query_request refl

count_pairs_test : count_pairs (fields_of (query_of query_path)) ≡ 2
count_pairs_test = refl

abbrev slash_a : Bytes
slash_a = b'/' ∷ b'a' ∷ []

abbrev three_bytes : Bytes
three_bytes = b'G' ∷ b'E' ∷ b'T' ∷ []

process-get_request_example :
    let p = process environment (init 100 10 []) (get_request slash_a) in
    (p.valid ≡ true)
    × (p.finished ≡ true)
    × (p.request.verb ≡ get)
    × (p.request.version_major ≡ 1)
    × (p.request.version_minor ≡ 1)
    × (content p.header_buffer p.request.path ≡ drop (leading b'/' slash_a) slash_a)
process-get_request_example =
    process-get_request environment 100 10 [] slash_a (omega arith) (omega arith)

process_too_long_example :
    let p = process environment (init 2 10 []) three_bytes in
    (p.valid ≡ false) × (p.error_code ≡ payload_too_large)
process_too_long_example =
    process_too_long environment 2 10 [] three_bytes (omega arith) (omega arith)

abbrev one_leased : FixedSizeBufferPool
one_leased = (lease_buffer (buffer_pool 2)).1

abbrev held : List ℕ
held = 0 ∷ []

lease_buffer-exclusive_example :
    ((index : ℕ)
      → (lease_buffer one_leased).0 ≡ some index
      → (index < one_leased.max_buffer_count) × (occurrences index held ≡ 0))
    × ((lease_buffer one_leased).0 ≡ none → one_leased.max_buffer_count ≤ length held)
lease_buffer-exclusive_example =
    lease_buffer-exclusive one_leased held
      (lease (buffer_pool 2) [] 0 (start 2) (unfold lease_buffer in unfold buffer_pool in refl))
