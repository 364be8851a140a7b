-- ===== src/Persistence/Blobs/Replay.antt =====
-- Importing what was appended: FileAppender.cpp against EventImporter.cpp.
use forum.Base.{
  ℕ, zero, suc, ◌+◌, ◌-◌, ◌%◌, ◌^◌, ◌<◌, ◌≤◌, List, [], ◌∷◌, ◌++◌, append_assoc, append-nil, Bool,
  true, false, if◌then◌else◌, length, take, drop, replicate, Bytes, ◌≡◌, refl, sym, ap, ◌∙◌, arith,
  length-append, length-replicate, take-length_append, drop-length_append, Bool-cases, inl, inr,
}
use forum.Base.All.{All}
use forum.Persistence.Blobs.{
  write_value, read_value, magic_prefix, blob_padding_required, frame, append, ImportState,
  import_event, iterate_blobs, iterate_blobs_in_file,
}
use forum.Persistence.Blobs.Numbers.{read_value-write_value}

take_all : {A : Type 0} (xs : List A) → take (length xs) xs ≡ xs
take_all [] = refl
take_all (x ∷ xs) = ap (◌∷◌ x) (take_all xs)

take_exact : (n : ℕ) (xs ys : Bytes) → length xs ≡ n → take n (xs ++ ys) ≡ xs
take_exact n xs ys e = rw (sym e) (take-length_append xs ys)

drop_exact : (n : ℕ) (xs ys : Bytes) → length xs ≡ n → drop n (xs ++ ys) ≡ ys
drop_exact n xs ys e = rw (sym e) (drop-length_append xs ys)

-- The event is applied and counted, and the next one follows unless it failed.
unfoldable pub replay :
    {E : Type 0} → (Bytes → E → Bool × E) → List Bytes → ImportState E → ImportState E
unfolding import_event
replay process_event [] r = r
replay process_event (blob ∷ blobs) r =
    let imported = import_event process_event blob r in
    let rest = replay process_event blobs imported in if imported.success then rest else imported

-- One round for each blob, and `fuel` more.
abbrev rounds : List Bytes → ℕ → ℕ
rounds [] fuel = fuel
rounds (blob ∷ blobs) fuel = suc (rounds blobs fuel)

abbrev pub initial : {E : Type 0} → E → ImportState E
initial events = record { read_blobs = 0; imported_blobs = 0; success = true; events = events }

module _ {E : Type 0} (crc32 : Bytes → ℕ) (process_event : Bytes → E → Bool × E)
    (verify : Bool) where
  abbrev after : ℕ → Bytes → ImportState E → ImportState E
  after fuel rest imported =
      if imported.success
      then iterate_blobs crc32 process_event verify fuel rest imported
      else imported

  -- A round whose checks pass.
  iterate_round :
      (fuel size : ℕ) (whole blob rest : Bytes) (r : ImportState E)
      → 16 ≤ length whole
      → read_value 8 whole ≡ magic_prefix
      → read_value 4 (drop 8 whole) ≡ size
      → read_value 4 (drop 12 whole) ≡ crc32 blob
      → take size (drop 16 whole) ≡ blob
      → drop (size + blob_padding_required size) (drop 16 whole) ≡ rest
      → size + blob_padding_required size ≤ length (drop 16 whole)
      → iterate_blobs crc32 process_event verify (suc fuel) whole r
        ≡ after fuel rest (import_event process_event blob r)
  unfolding iterate_blobs read_value
  iterate_round fuel size [] blob rest r l m s c t d b = absurd (omega arith)
  iterate_round fuel size (x ∷ whole) blob rest r l m s c t d b = ground arith

  -- What append writes for a blob whose size fits into 32 bits.
  framed :
      (blob rest : Bytes)
      → length blob < 2 ^ 32
      → frame crc32 blob ++ rest
        ≡ write_value 8 magic_prefix
          ++ (write_value 4 (length blob)
              ++ (write_value 4 (crc32 blob)
                  ++ (blob ++ (replicate (blob_padding_required (length blob)) 0 ++ rest))))
  unfolding frame write_value
  framed blob rest h =
      let small : length blob % 2 ^ 32 ≡ length blob = omega arith in
      rw (small, take_all blob, append_assoc) refl

  frame_round :
      (fuel : ℕ) (blob rest : Bytes) (r : ImportState E)
      → length blob < 2 ^ 32
      → crc32 blob < 2 ^ 32
      → iterate_blobs crc32 process_event verify (suc fuel) (frame crc32 blob ++ rest) r
        ≡ after fuel rest (import_event process_event blob r)
  unfolding write_value
  frame_round fuel blob rest r h k =
      let size = length blob in
      let padding : Bytes = replicate (blob_padding_required size) 0 in
      let body = blob ++ (padding ++ rest) in
      let checked = write_value 4 (crc32 blob) ++ body in
      let sized = write_value 4 size ++ checked in
      let whole = write_value 8 magic_prefix ++ sized in
      let padded =
        length-append blob padding
        ∙ ap (λ x. size + x) (length-replicate {A = ℕ} (blob_padding_required size) 0) in
      rw (framed blob rest h) (
        iterate_round fuel size whole blob rest r (omega arith)
          (read_value-write_value 8 magic_prefix sized (omega arith))
          (read_value-write_value 4 size checked (omega arith))
          (read_value-write_value 4 (crc32 blob) body (omega arith))
          (take_exact size blob (padding ++ rest) refl)
          (ap (drop (size + blob_padding_required size)) (sym (append_assoc blob padding rest))
            ∙ drop_exact (size + blob_padding_required size) (blob ++ padding) rest padded)
          (omega (
            arith,
            length-append blob (padding ++ rest),
            length-append padding rest,
            length-replicate {A = ℕ} (blob_padding_required size) 0,
          )))

  length-frame : (blob : Bytes) → 16 ≤ length (frame crc32 blob)
  unfolding frame write_value
  length-frame blob = omega arith

  -- The frames are replayed, and then the loop goes on with what follows them.
  iterate_blobs-append :
      (fuel : ℕ) (blobs : List Bytes) (tail : Bytes) (r : ImportState E)
      → All (λ blob. (length blob < 2 ^ 32) × (crc32 blob < 2 ^ 32)) blobs
      → r.success ≡ true
      → iterate_blobs crc32 process_event verify (rounds blobs fuel) (append crc32 blobs ++ tail) r
        ≡ after fuel tail (replay process_event blobs r)
  unfolding append replay
  iterate_blobs-append fuel [] tail r h e =
      ap (λ b. if b then iterate_blobs crc32 process_event verify fuel tail r else r) (sym e)
  iterate_blobs-append fuel (blob ∷ blobs) tail r h e =
      rw
        (
          append_assoc (frame crc32 blob) (append crc32 blobs) tail,
          frame_round (rounds blobs fuel) blob (append crc32 blobs ++ tail) r h.0.0 h.0.1,
        )
        (elim (Bool-cases (import_event process_event blob r).success) [
          | inl ok ↦
              rw ok
                (iterate_blobs-append fuel blobs tail (import_event process_event blob r) h.1 ok)
          | inr failed ↦ rw (failed, failed) refl
        ])

  iterate_blobs-nil :
      (fuel : ℕ) (r : ImportState E) → iterate_blobs crc32 process_event verify fuel [] r ≡ r
  unfolding iterate_blobs
  iterate_blobs-nil zero r = refl
  iterate_blobs-nil (suc fuel) r = refl

  rounds_add : (blobs : List Bytes) (fuel : ℕ) → rounds blobs fuel ≡ length blobs + fuel
  rounds_add [] fuel = omega arith
  rounds_add (blob ∷ blobs) fuel = omega (arith, rounds_add blobs fuel)

  append_cons :
      (blob : Bytes) (blobs : List Bytes)
      → append crc32 (blob ∷ blobs) ≡ frame crc32 blob ++ append crc32 blobs
  unfolding append
  append_cons blob blobs = refl

  length-append_blobs :
      (blobs : List Bytes) (tail : Bytes)
      → length blobs + length tail ≤ length (append crc32 blobs ++ tail)
  length-append_blobs [] tail = unfold append in omega arith
  length-append_blobs (blob ∷ blobs) tail =
      rw (append_cons blob blobs, append_assoc (frame crc32 blob) (append crc32 blobs) tail)
        (omega (
          arith,
          length-frame blob,
          length-append_blobs blobs tail,
          length-append (frame crc32 blob) (append crc32 blobs ++ tail),
        ))

  abbrev spare : List Bytes → Bytes → ℕ
  spare blobs tail = length (append crc32 blobs ++ tail) - length blobs

  -- A round for each byte is enough.
  rounds_enough :
      (blobs : List Bytes) (tail : Bytes)
      → suc (length (append crc32 blobs ++ tail)) ≡ rounds blobs (suc (spare blobs tail))
  rounds_enough blobs tail =
      omega (arith, length-append_blobs blobs tail, rounds_add blobs (suc (spare blobs tail)))

  after-nil : (fuel : ℕ) (r : ImportState E) → after fuel [] r ≡ r
  after-nil fuel r = elim (Bool-cases r.success) [
    | inl ok ↦
        ap (λ b. if b then iterate_blobs crc32 process_event verify fuel [] r else r) ok
        ∙ iterate_blobs-nil fuel r
    | inr failed ↦
        ap (λ b. if b then iterate_blobs crc32 process_event verify fuel [] r else r) failed
  ]

  after-torn :
      (fuel : ℕ) (tail : Bytes) (r : ImportState E)
      → 0 < length tail
      → length tail < 16
      → after (suc fuel) tail r ≡ record r { success = false }
  unfolding iterate_blobs
  after-torn fuel [] r h k = absurd (omega arith)
  after-torn fuel (b ∷ tail) r h k = ground arith

  iterate_blobs_in_file-rounds :
      (blobs : List Bytes) (tail : Bytes) (events : E)
      → All (λ blob. (length blob < 2 ^ 32) × (crc32 blob < 2 ^ 32)) blobs
      → iterate_blobs_in_file crc32 process_event verify (append crc32 blobs ++ tail) events
        ≡ after (suc (spare blobs tail)) tail (replay process_event blobs (initial events))
  unfolding iterate_blobs_in_file
  iterate_blobs_in_file-rounds blobs tail events h =
      ap
        (λ fuel.
          iterate_blobs crc32 process_event verify fuel (append crc32 blobs ++ tail)
            (initial events))
        (rounds_enough blobs tail)
      ∙ iterate_blobs-append (suc (spare blobs tail)) blobs tail (initial events) h refl

-- With blobs whose sizes fit into 32 bits and a checksum of 32 bits, importing a file that append
-- wrote, with or without verification, applies exactly the appended events, in their order and up to
-- the first that fails, and counts them.
pub iterate_blobs_in_file-append :
    {E : Type 0} (crc32 : Bytes → ℕ) (process_event : Bytes → E → Bool × E) (verify : Bool)
    (blobs : List Bytes) (events : E)
    → All (λ blob. (length blob < 2 ^ 32) × (crc32 blob < 2 ^ 32)) blobs
    → iterate_blobs_in_file crc32 process_event verify (append crc32 blobs) events
      ≡ replay process_event blobs (initial events)
iterate_blobs_in_file-append crc32 process_event verify blobs events h =
    ap (λ file. iterate_blobs_in_file crc32 process_event verify file events)
      (sym (append-nil (append crc32 blobs)))
    ∙ iterate_blobs_in_file-rounds crc32 process_event verify blobs [] events h
    ∙ after-nil crc32 process_event verify (suc (spare crc32 process_event verify blobs []))
        (replay process_event blobs (initial events))

-- When fewer than 16 bytes of a torn frame follow, the same events are applied and counted, and the
-- import is reported as failed.
pub iterate_blobs_in_file_torn :
    {E : Type 0} (crc32 : Bytes → ℕ) (process_event : Bytes → E → Bool × E) (verify : Bool)
    (blobs : List Bytes) (tail : Bytes) (events : E)
    → All (λ blob. (length blob < 2 ^ 32) × (crc32 blob < 2 ^ 32)) blobs
    → 0 < length tail
    → length tail < 16
    → iterate_blobs_in_file crc32 process_event verify (append crc32 blobs ++ tail) events
      ≡ record (replay process_event blobs (initial events)) { success = false }
iterate_blobs_in_file_torn crc32 process_event verify blobs tail events h low high =
    iterate_blobs_in_file-rounds crc32 process_event verify blobs tail events h
    ∙ after-torn crc32 process_event verify (spare crc32 process_event verify blobs tail) tail
        (replay process_event blobs (initial events)) low high
