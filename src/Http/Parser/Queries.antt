-- ===== src/Http/Parser/Queries.antt =====
-- How many pairs of a query are stored. src/LibHttp/private/HttpParser.cpp, interpretPathString.
use forum.Base.{
  ℕ, suc, ◌+◌, ◌≤◌, List, [], ◌∷◌, ◌++◌, length, length-append, Bytes, ◌≡◌, ◌↔◌, refl, ap, ◌∙◌,
  arith, Bool, true, false, ◌||◌, ◌==◌, if◌then◌else◌, inl, inr, Bool-cases,
}
use forum.Http.Parser.Defs.{HttpRequest, content, max_query_pairs}
use forum.Http.Parser.Interpret.{
  PathState, in_path, in_key, in_value, PathLoop, is_last, path_round, path_loop, path_loop_start,
  interpret_path_string,
}

-- The query is what stands behind the first question mark.
abbrev pub query_of : Bytes → Bytes
query_of [] = []
query_of (c ∷ text) = if c == b'?' then text else query_of text

abbrev to_first : ℕ → List Bytes → List Bytes
to_first c [] = (c ∷ []) ∷ []
to_first c (field ∷ fields) = (c ∷ field) ∷ fields

-- Its fields stand between ampersands.
abbrev pub fields_of : Bytes → List Bytes
fields_of [] = [] ∷ []
fields_of (c ∷ text) =
    let fields = fields_of text in if c == b'&' then [] ∷ fields else to_first c fields

abbrev has_equals_sign : Bytes → Bool
has_equals_sign [] = false
has_equals_sign (c ∷ field) = c == b'=' || has_equals_sign field

-- The number of fields with an equals sign.
abbrev pub count_pairs : List Bytes → ℕ
count_pairs [] = 0
count_pairs (field ∷ fields) =
    let rest = count_pairs fields in if has_equals_sign field then suc rest else rest

-- What follows the first ampersand.
abbrev next_field : Bytes → Bytes
next_field [] = []
next_field (c ∷ text) = if c == b'&' then text else next_field text

abbrev later : List Bytes → List Bytes
later [] = []
later (field ∷ fields) = fields

count_pairs-to_first :
    (c : ℕ) (fields : List Bytes)
    → count_pairs (to_first c fields)
      ≡ (if c == b'=' then suc (count_pairs (later fields)) else count_pairs fields)
count_pairs-to_first c [] = elim (Bool-cases (c == b'=')) [ inl e ↦ rw e refl | inr e ↦ rw e refl ]
count_pairs-to_first c (field ∷ fields) = elim (Bool-cases (c == b'=')) [
  | inl e ↦ rw e refl
  | inr e ↦ rw e refl
]

later-to_first : (c : ℕ) (fields : List Bytes) → later (to_first c fields) ≡ later fields
later-to_first c [] = refl
later-to_first c (field ∷ fields) = refl

later-fields_of :
    (text : Bytes)
    → count_pairs (later (fields_of text)) ≡ count_pairs (fields_of (next_field text))
later-fields_of [] = refl
later-fields_of (c ∷ text) = elim (Bool-cases (c == b'&')) [
  | inl e ↦ rw e refl
  | inr e ↦ rw e (ap count_pairs (later-to_first c (fields_of text)) ∙ later-fields_of text)
]

fields_of_equals_sign :
    (c : ℕ) (text : Bytes)
    → c == b'=' ≡ true
    → count_pairs (fields_of (c ∷ text)) ≡ suc (count_pairs (fields_of (next_field text)))
fields_of_equals_sign c text e =
    let no_ampersand : c == b'&' ≡ false = ground arith in
    rw (no_ampersand, count_pairs-to_first c (fields_of text), e) (ap suc (later-fields_of text))

fields_of_other :
    (c : ℕ) (text : Bytes)
    → c == b'=' ≡ false
    → count_pairs (fields_of (c ∷ text)) ≡ count_pairs (fields_of text)
fields_of_other c text e = elim (Bool-cases (c == b'&')) [
  | inl k ↦ rw k refl
  | inr k ↦ rw (k, count_pairs-to_first c (fields_of text), e) refl
]

is_last-snoc : (text : Bytes) (c : ℕ) → is_last (text ++ (c ∷ [])) ≡ false
is_last-snoc [] c = refl
is_last-snoc (d ∷ text) c = refl

-- The text is followed by one space, at which the loop ends.
abbrev to_end : Bytes → Bytes
to_end text = text ++ (b' ' ∷ [])

-- How many pairs a text adds, by the part of the path in which it stands.
abbrev added : PathState → Bytes → ℕ
added in_path text = count_pairs (fields_of (query_of text))
added in_key text = count_pairs (fields_of text)
added in_value text = suc (count_pairs (fields_of (next_field text)))

added-path_round :
    (starts_at i c : ℕ) (text : Bytes) (l : PathLoop) (state : PathState)
    → l.state ≡ state
    → let next = path_round state starts_at i c false l in
      length next.pairs + added next.state text ≡ length l.pairs + added state (c ∷ text)
unfolding path_round
added-path_round starts_at i c text l in_path h = elim (Bool-cases (c == b'?')) [
  | inl e ↦ rw e refl
  | inr e ↦ rw (e, h) refl
]
added-path_round starts_at i c text l in_key h = elim (Bool-cases (c == b'=')) [
  | inl e ↦ rw (fields_of_equals_sign c text e, e) refl
  | inr e ↦ rw (fields_of_other c text e, e, h) refl
]
added-path_round starts_at i c text l in_value h = elim (Bool-cases (c == b'&')) [
  | inl e ↦ rw e (omega (arith, length-append l.pairs (_ ∷ [])))
  | inr e ↦ rw (e, h) refl
]

path_loop-added :
    (starts_at i : ℕ) (text : Bytes) (l : PathLoop) (state : PathState)
    → l.state ≡ state
    → length (path_loop starts_at i (to_end text) l).pairs ≡ length l.pairs + added state text
unfolding path_loop
path_loop-added starts_at i [] l in_path h = rw h (omega arith)
path_loop-added starts_at i [] l in_key h = rw h (omega arith)
path_loop-added starts_at i [] l in_value h = rw h (omega (arith, length-append l.pairs (_ ∷ [])))
path_loop-added starts_at i (c ∷ text) l state h =
    let next = path_round state starts_at i c false l in
    let from : PathState → Bool → ℕ = λ s b.
      length (path_loop starts_at (suc i) (to_end text) (path_round s starts_at i c b l)).pairs in
    ap (from l.state) (is_last-snoc text b' ')
    ∙ ap (λ s. from s false) h
    ∙ path_loop-added starts_at (suc i) text next next.state refl
    ∙ added-path_round starts_at i c text l state h

-- For any path, with the space behind it, and any pairs that the request had before, the parser stores one pair for each field with
-- an equals sign, of the fields between the ampersands of what stands behind the first question mark, and
-- none for the other fields. So the stores stay within the 64 places of the array exactly when the pairs
-- from before and these fields together are at most 64: nothing else keeps their number down. (What a
-- store behind the array does to the memory there is not part of the model.)
pub interpret_path_string-fields_of :
    (starts_at : ℕ) (buffer text : Bytes) (request : HttpRequest)
    → content buffer request.path ≡ text ++ (b' ' ∷ [])
    → let stored = length (interpret_path_string starts_at buffer request).pairs in
      let expected = length request.query_pairs + count_pairs (fields_of (query_of text)) in
      (stored ≡ expected) × ((stored ≤ max_query_pairs) ↔ (expected ≤ max_query_pairs))
unfolding interpret_path_string
interpret_path_string-fields_of starts_at buffer text request h =
    let e =
      path_loop-added starts_at starts_at text (path_loop_start buffer request) in_path refl in
    rw h (e, ((λ k. omega (arith, k, e)), (λ k. omega (arith, k, e))))
