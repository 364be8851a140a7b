-- ===== src/Http/Parser/Defs.antt =====
-- The parser's state, and the copying of header bytes. src/LibHttp/private/HttpParser.cpp.
use forum.Base.{
  ℕ, List, [], ◌∷◌, ◌++◌, Option, Bool, true, false, leb, ◌==◌, if◌then◌else◌, length, take, drop,
  replicate, Bytes,
}
use forum.Http.UrlEncoding.{match_loop}

pub data HttpVerb : Type 0 where
  unknown get post put patch delete : HttpVerb

pub data HttpStatusCode : Type 0 where
  bad_request payload_too_large expectation_failed not_implemented : HttpStatusCode
  http_version_not_supported : HttpStatusCode

-- HttpStringView into the header buffer; the null view has length 0.
pub record View : Type 0 where
  pub start : ℕ
  pub size : ℕ

abbrev pub null_view : View
null_view = record { start = 0; size = 0 }

-- The positions of the headers that the parser reads itself, and HTTP_HEADERS_COUNT.
abbrev pub connection_header : ℕ
connection_header = 10

abbrev pub content_encoding_header : ℕ
content_encoding_header = 11

abbrev pub content_length_header : ℕ
content_length_header = 13

abbrev pub cookie_header : ℕ
cookie_header = 18

abbrev pub expect_header : ℕ
expect_header = 22

abbrev pub transfer_encoding_header : ℕ
transfer_encoding_header = 46

abbrev pub http_headers_count : ℕ
http_headers_count = 65

abbrev pub max_query_pairs : ℕ
max_query_pairs = 64

abbrev pub max_cookies : ℕ
max_cookies = 32

-- `query_pairs` and `cookies` are what was stored, in order. In the source they are arrays of 64 and 32
-- places with a count each, and nothing tests the count: the lists are exact up to these numbers, and
-- what further stores do to the memory behind the arrays is not modelled. remoteAddress and
-- requestContentBuffers, which the parser does not use, are left out.
pub record HttpRequest : Type 0 where
  pub verb : HttpVerb
  pub path : View
  pub version_major : ℕ
  pub version_minor : ℕ
  pub keep_connection_alive : Bool
  pub headers : List View
  pub query_pairs : List (View × View)
  pub cookies : List (View × View)

abbrev pub empty_request : HttpRequest
empty_request = record {
  verb = unknown;
  path = null_view;
  version_major = 1;
  version_minor = 0;
  keep_connection_alive = false;
  headers = replicate http_headers_count null_view;
  query_pairs = [];
  cookies = [];
}

-- currentParser_
pub data Mode : Type 0 where
  parse_verb parse_path parse_version parse_new_line parse_header_name : Mode
  parse_header_spacing parse_header_value parse_body : Mode

pub record Parser (S : Type 0) : Type 0 where
  pub header_buffer : Bytes
  pub header_buffer_size : ℕ
  pub max_content_length : ℕ
  pub push_body_bytes_state : S
  pub request : HttpRequest
  pub valid : Bool
  pub finished : Bool
  pub error_code : HttpStatusCode
  pub current_parser : Mode
  pub path_starts_at : ℕ
  pub version_starts_at : ℕ
  pub header_name_starts_at : ℕ
  pub current_header_name : View
  pub header_value_starts_at : ℕ
  pub current_header_value : View
  pub expected_content_length : ℕ
  pub request_body_bytes_processed : ℕ

-- What the parser calls: boost's try_lexical_convert to size_t, the lookup of a header's name, whose
-- result is 0 for an unknown one, and the callback for the bytes of the body.
pub record Environment (S : Type 0) : Type 0 where
  pub try_lexical_convert : Bytes → Option ℕ
  pub match_http_header : Bytes → ℕ
  pub push_body_bytes : Bytes → S → Bool × S

abbrev pub header_size : {S : Type 0} → Parser S → ℕ
header_size p = length p.header_buffer

-- The bytes that a view shows.
abbrev pub content : Bytes → View → Bytes
content buffer view = take view.size (drop view.start buffer)

module _ {S : Type 0} where
  abbrev pub push_byte : Parser S → ℕ → Parser S
  push_byte p c = record p { header_buffer = p.header_buffer ++ (c ∷ []) }

  abbrev pub reject : Parser S → HttpStatusCode → Parser S
  reject p code = record p { valid = false; error_code = code }

-- What copyUntil leaves: whether the byte was reached, the parser, and the input not yet read.
pub record Copied (S : Type 0) : Type 0 where
  pub reached : Bool
  pub parser : Parser S
  pub rest : Bytes

module _ {S : Type 0} where
  unfoldable pub copy_until : ℕ → Parser S → Bytes → Copied S
  copy_until to_search p [] = record { reached = false; parser = p; rest = [] }
  copy_until to_search p (c ∷ buffer) =
      let more = copy_until to_search (push_byte p c) buffer in
      if leb p.header_buffer_size (header_size p)
      then record { reached = false; parser = reject p payload_too_large; rest = c ∷ buffer }
      else if c == to_search
      then record { reached = true; parser = push_byte p c; rest = buffer }
      else more

-- `buffer` are the bytes in front of the space.
unfoldable pub parse_http_verb : Bytes → HttpVerb
unfolding match_loop
parse_http_verb buffer =
    if length buffer == 3
    then (if match_loop buffer (b'g' ∷ b'e' ∷ b't' ∷ []) (b'G' ∷ b'E' ∷ b'T' ∷ [])
        then get
        else if match_loop buffer (b'p' ∷ b'u' ∷ b't' ∷ []) (b'P' ∷ b'U' ∷ b'T' ∷ [])
        then put
        else unknown)
    else if length buffer == 4
    then (if match_loop buffer (b'p' ∷ b'o' ∷ b's' ∷ b't' ∷ []) (b'P' ∷ b'O' ∷ b'S' ∷ b'T' ∷ [])
        then post
        else unknown)
    else if length buffer == 5
    then (if match_loop buffer (b'p' ∷ b'a' ∷ b't' ∷ b'c' ∷ b'h' ∷ [])
          (b'P' ∷ b'A' ∷ b'T' ∷ b'C' ∷ b'H' ∷ [])
        then patch
        else unknown)
    else if length buffer == 6
    then (if match_loop buffer (b'd' ∷ b'e' ∷ b'l' ∷ b'e' ∷ b't' ∷ b'e' ∷ [])
          (b'D' ∷ b'E' ∷ b'L' ∷ b'E' ∷ b'T' ∷ b'E' ∷ [])
        then delete
        else unknown)
    else unknown
