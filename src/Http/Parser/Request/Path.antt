-- ===== src/Http/Parser/Request/Path.antt =====
-- What parsePath makes of a path without query and escapes. src/LibHttp/private/HttpParser.cpp.
use forum.Base.All.{All}
use forum.Base.{
  ℕ, zero, suc, ◌+◌, ◌-◌, ◌≤◌, ◌<◌, [], ◌∷◌, ◌++◌, true, false, length, take, drop, append_assoc,
  append-nil, length-append, take-length_append, drop-length_append, Bytes, ◌≡◌, ◌≢◌, refl, sym, ap,
  ◌∙◌, arith,
}
use forum.Http.UrlEncoding.{leading, decode_url_encoding}
use forum.Http.UrlEncoding.RoundTrip.{decode_plain}
use forum.Http.Parser.Defs.{
  HttpRequest, Parser, Copied, copy_until, push_byte, header_size, content, parse_version,
}
use forum.Http.Parser.Interpret.{
  in_path, in_key, is_last, PathLoop, path_loop, path_round, path_loop_start, interpret_path_string,
  decoded_buffer,
}
use forum.Http.Parser.Step.{trimmed, on_path}

module _ {S : Type 0} where
  copy_until_step :
      (to_search c : ℕ) (p : Parser S) (buffer : Bytes)
      → c ≢ to_search
      → header_size p < p.header_buffer_size
      → copy_until to_search p (c ∷ buffer) ≡ copy_until to_search (push_byte p c) buffer
  unfolding copy_until
  copy_until_step to_search c p buffer h k = ground arith

  abbrev pub copied : Parser S → Bytes → Bytes → Copied S
  copied p buffer rest = record {
    reached = true;
    parser = record p { header_buffer = buffer };
    rest = rest;
  }

  -- Bytes without the one searched for are copied, up to it and with it, if there is room.
  pub copy_until-found :
      (to_search : ℕ) (p : Parser S) (xs rest : Bytes)
      → All (λ c. c ≢ to_search) xs
      → header_size p + length xs < p.header_buffer_size
      → copy_until to_search p (xs ++ (to_search ∷ rest))
        ≡ copied p (p.header_buffer ++ (xs ++ (to_search ∷ []))) rest
  copy_until-found to_search p [] rest h k = unfold copy_until in ground arith
  copy_until-found to_search p (c ∷ xs) rest h k =
      copy_until_step to_search c p (xs ++ (to_search ∷ rest)) h.0 (omega arith)
      ∙ copy_until-found to_search (push_byte p c) xs rest h.1
          (omega (arith, length-append p.header_buffer (c ∷ [])))
      ∙ ap (λ buffer. copied p buffer rest)
          (append_assoc p.header_buffer (c ∷ []) (xs ++ (to_search ∷ [])))

-- A byte of a path that stands for itself.
abbrev pub IsPlain : ℕ → Type 0
IsPlain c = (c ≢ b' ') × (c ≢ b'?') × (c ≢ b'%')

decode_url_encoding_plain : (xs : Bytes) → All IsPlain xs → decode_url_encoding xs ≡ xs
decode_url_encoding_plain [] h = unfold decode_url_encoding in refl
decode_url_encoding_plain (c ∷ xs) h =
    decode_plain c xs h.0.2 ∙ ap (◌∷◌ c) (decode_url_encoding_plain xs h.1)

is_last-snoc : (xs : Bytes) → is_last (xs ++ (b' ' ∷ [])) ≡ false
is_last-snoc [] = refl
is_last-snoc (x ∷ xs) = refl

path_round-plain :
    (starts_at i c : ℕ) (l : PathLoop) → IsPlain c → path_round in_path starts_at i c false l ≡ l
unfolding path_round
path_round-plain starts_at i c l h = ground arith

-- The loop passes over the bytes of the path.
path_loop-plain :
    (starts_at i : ℕ) (xs : Bytes) (l : PathLoop)
    → All IsPlain xs
    → l.state ≡ in_path
    → path_loop starts_at i (xs ++ (b' ' ∷ [])) l
      ≡ path_round in_path starts_at (length xs + i) b' ' true l
unfolding path_loop
path_loop-plain starts_at i [] l h e =
    ap (λ state. path_round state starts_at i b' ' true l) e
    ∙ ap (λ j. path_round in_path starts_at j b' ' true l) (omega arith)
path_loop-plain starts_at i (c ∷ xs) l h e =
    ap (path_loop starts_at (suc i) (xs ++ (b' ' ∷ []))) (
      ap (λ state. path_round state starts_at i c (is_last (xs ++ (b' ' ∷ []))) l) e
      ∙ ap (λ last. path_round in_path starts_at i c last l) (is_last-snoc xs)
      ∙ path_round-plain starts_at i c l h.0)
    ∙ path_loop-plain starts_at (suc i) xs l h.1 e
    ∙ ap (λ j. path_round in_path starts_at j b' ' true l) (omega arith)

-- The header buffer behind the path, in front of which `verb` stands.
abbrev pub after_path : Bytes → Bytes → Bytes
after_path verb path = verb ++ (path ++ (b' ' ∷ []))

drop_verb : (verb path rest : Bytes) → drop (length verb) (verb ++ (path ++ rest)) ≡ path ++ rest
drop_verb verb path rest = drop-length_append verb (path ++ rest)

pub length-after_path :
    (verb path : Bytes) → length (after_path verb path) ≡ length verb + length path + 1
length-after_path verb path =
    omega (arith, length-append verb (path ++ (b' ' ∷ [])), length-append path (b' ' ∷ []))

drop_both :
    (verb path rest : Bytes) → drop (length verb + length path) (verb ++ (path ++ rest)) ≡ rest
drop_both [] path rest =
    let e : 0 + length path ≡ length path = omega arith in
    ap (λ n. drop n (path ++ rest)) e ∙ drop-length_append path rest
drop_both (v ∷ verb) path rest =
    let e : suc (length verb) + length path ≡ suc (length verb + length path) = omega arith in
    ap (λ n. drop n (v ∷ (verb ++ (path ++ rest)))) e ∙ drop_both verb path rest

take_whole : (xs : Bytes) (n : ℕ) → n ≡ length xs → take n xs ≡ xs
take_whole xs n e =
    ap (λ m. take m xs) e ∙ ap (take (length xs)) (sym (append-nil xs)) ∙ take-length_append xs []

pub path_bytes :
    (verb path : Bytes) (n : ℕ)
    → n ≡ length path
    → take n (drop (length verb) (after_path verb path)) ≡ path
path_bytes verb path n e =
    ap (λ m. take m (drop (length verb) (after_path verb path))) e
    ∙ ap (take (length path)) (drop_verb verb path (b' ' ∷ []))
    ∙ take-length_append path (b' ' ∷ [])

module _ (verb path : Bytes) (h : All IsPlain path) where
  decoded_path :
      (n : ℕ)
      → n ≡ length path
      → decode_url_encoding (take n (drop (length verb) (after_path verb path))) ≡ path
  decoded_path n e =
      ap decode_url_encoding (path_bytes verb path n e) ∙ decode_url_encoding_plain path h

  decoded_buffer-same :
      (last : ℕ)
      → last ≡ length path + length verb
      → decoded_buffer (after_path verb path) (length verb) last ≡ after_path verb path
  unfolding decoded_buffer
  decoded_buffer-same last e = rw (decoded_path (last - length verb) (omega arith)) (
      ground
        (arith, take-length_append verb (path ++ (b' ' ∷ [])), drop_both verb path (b' ' ∷ [])))

  abbrev plain_path : HttpRequest → PathLoop
  plain_path request = record {
    state = in_key;
    key_start = length path + length verb + 1;
    key_end = length path + length verb + 1;
    value_start = 0;
    value_end = 0;
    buffer = after_path verb path;
    path = record { start = length verb; size = length path };
    pairs = request.query_pairs;
  }

  path_round-last :
      (request : HttpRequest)
      → path_round in_path
          (length verb)
          (length path + length verb)
          b' '
          true
          (path_loop_start (after_path verb path) request)
        ≡ plain_path request
  unfolding path_round
  path_round-last request =
      let n = length path + length verb in
      λ i. record (plain_path request) {
        buffer = decoded_buffer-same n refl i;
        path = record {
          start = length verb;
          size = length (decoded_path (n - length verb) (omega arith) i);
        };
      }

  interpret_path_string-plain :
      (request : HttpRequest) (size : ℕ)
      → request.path ≡ record { start = length verb; size = size }
      → size ≡ length path + 1
      → interpret_path_string (length verb) (after_path verb path) request ≡ plain_path request
  unfolding interpret_path_string
  interpret_path_string-plain request size e k =
      ap
        (λ bytes.
          path_loop (length verb) (length verb) bytes
            (path_loop_start (after_path verb path) request))
        (ap (content (after_path verb path)) e
          ∙ ap (λ m. take m (drop (length verb) (after_path verb path))) k
          ∙ ap (take (length path + 1)) (drop_verb verb path (b' ' ∷ []))
          ∙ take_whole (path ++ (b' ' ∷ [])) (length path + 1)
              (omega (arith, length-append path (b' ' ∷ []))))
      ∙ path_loop-plain (length verb) (length verb) path
          (path_loop_start (after_path verb path) request) h refl
      ∙ path_round-last request

  module _ {S : Type 0} where
    -- parsePath, once the space behind the path is copied.
    pub on_path-plain :
        (p : Parser S)
        → p.header_buffer ≡ after_path verb path
        → p.path_starts_at ≡ length verb
        → on_path p ≡ record p {
          header_buffer = after_path verb path;
          request = record p.request {
            path =
                trimmed (after_path verb path) (record { start = length verb; size = length path });
            query_pairs = p.request.query_pairs;
          };
          current_parser = parse_version;
          version_starts_at = length (after_path verb path);
        }
    unfolding on_path
    on_path-plain p e f =
        rw (e, f)
          (rw
            (interpret_path_string-plain
              (record p.request {
                path = record {
                  start = length verb;
                  size = length (after_path verb path) - length verb;
                };
              })
              _ refl (omega (arith, length-after_path verb path)))
            refl)

pub leading-le : (path : Bytes) → leading b'/' path ≤ length path
unfolding leading
leading-le [] = omega arith
leading-le (c ∷ path) = ground (arith, leading-le path)

pub take-drop_append :
    (xs ys : Bytes) (n : ℕ) → n ≤ length xs → take (length xs - n) (drop n (xs ++ ys)) ≡ drop n xs
take-drop_append xs ys zero h =
    let e : length xs - 0 ≡ length xs = omega arith in
    ap (λ m. take m (xs ++ ys)) e ∙ take-length_append xs ys
take-drop_append [] ys (suc n) h = absurd (omega arith)
take-drop_append (x ∷ xs) ys (suc n) h =
    let e : suc (length xs) - suc n ≡ length xs - n = omega arith in
    ap (λ m. take m (drop n (xs ++ ys))) e ∙ take-drop_append xs ys n (omega arith)

pub IsPlain-no_space : (path : Bytes) → All IsPlain path → All (λ c. c ≢ b' ') path
IsPlain-no_space [] h = tt
IsPlain-no_space (c ∷ path) h = (h.0.0, IsPlain-no_space path h.1)
