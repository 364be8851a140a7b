-- ===== src/Persistence/Payload/Reading.antt =====
-- What was written for a part is read back, whatever follows it. EventObserver.cpp, EventImporter.cpp.
use forum.Base.Int.{ℤ, pos, negsuc}
use forum.Base.{
  not, ◌==◌, List, ℕ, ◌+◌, ◌-◌, ◌^◌, ◌%◌, ◌<◌, [], ◌∷◌, ◌++◌, Bool, true, false, some, ltb,
  if◌then◌else◌, length, drop, Bytes, ◌≡◌, ◌≢◌, refl, sym, ap, ◌∙◌, arith, append_assoc,
  length-append, take-length_append, drop-length_append,
}
use forum.Persistence.Blobs.{write_value}
use forum.Persistence.Blobs.Numbers.{length-write_value, read_value-write_value}
use forum.Persistence.Payload.{
  context_parts, to_unsigned, to_signed, Cursor, advance, read_unsigned, read_signed, read_uuid,
  read_string, ◌>>=◌, read_nonempty_string, ObserverContext, part_bytes, process_context_v1,
  process_context, string_part, parts_bytes, check_read_all_data, BlobPart, uuid_part,
  unsigned_part, signed_part, flag_part,
}

-- The cursor of which the size is right.
abbrev pub at_start : Bytes → Cursor
at_start bytes = record { data_left = bytes; size = length bytes }

-- An integer that `n` bytes of two's complement represent.
abbrev pub FitsSigned : ℕ → ℤ → Type 0
FitsSigned n (pos value) = value + value < 256 ^ n
FitsSigned n (negsuc value) = value + value + 1 < 256 ^ n

advance-append :
    (written rest : Bytes) (n : ℕ)
    → length written ≡ n
    → advance (at_start (written ++ rest)) n ≡ at_start rest
advance-append written rest n h =
    let size : length (written ++ rest) - n ≡ length rest =
      omega (arith, length-append written rest) in
    let dropped : drop n (written ++ rest) ≡ rest =
      ap (λ k. drop k (written ++ rest)) (sym h) ∙ drop-length_append written rest in
    rw (size, dropped) refl

pub read_unsigned-write_value :
    (n value : ℕ) (rest : Bytes)
    → value < 256 ^ n
    → read_unsigned n (at_start (write_value n value ++ rest)) ≡ some (value, at_start rest)
unfolding read_unsigned
read_unsigned-write_value n value rest h =
    let enough : ltb (length (write_value n value ++ rest)) n ≡ false =
      ground (arith, length-append (write_value n value) rest, length-write_value n value) in
    rw enough (
      ap (λ v. some (v, advance (at_start (write_value n value ++ rest)) n))
        (read_value-write_value n value rest h)
      ∙ ap (λ c. some (value, c))
          (advance-append (write_value n value) rest n (length-write_value n value)))

to_signed-to_unsigned :
    (n : ℕ) (value : ℤ)
    → FitsSigned n value
    → (to_unsigned n value < 256 ^ n) × (to_signed n (to_unsigned n value) ≡ value)
to_signed-to_unsigned n (pos value) h = (omega arith, ground arith)
to_signed-to_unsigned n (negsuc value) h = (omega arith, ground arith)

pub read_signed-write_value :
    (n : ℕ) (value : ℤ) (rest : Bytes)
    → FitsSigned n value
    → read_signed n (at_start (write_value n (to_unsigned n value) ++ rest))
      ≡ some (value, at_start rest)
unfolding read_signed
read_signed-write_value n value rest h =
    let (fits, back) = to_signed-to_unsigned n value h in
    rw (read_unsigned-write_value n (to_unsigned n value) rest fits, ◌>>=◌)
      (ap (λ v. some (v, at_start rest)) back)

pub read_uuid-write_value :
    (id : ℕ) (rest : Bytes)
    → id < 256 ^ 16
    → read_uuid (at_start (write_value 16 id ++ rest)) ≡ some (id, at_start rest)
unfolding read_uuid
read_uuid-write_value id rest h = read_unsigned-write_value 16 id rest h

-- A string, after the prefix with its size.
pub read_string-part_bytes :
    (value rest : Bytes)
    → length value < 2 ^ 32
    → length rest < 2 ^ 63
    → read_string (at_start (part_bytes (string_part value) ++ rest)) ≡ some (value, at_start rest)
unfolding read_string part_bytes
read_string-part_bytes value rest h k =
    let small : length value % 2 ^ 32 ≡ length value = omega arith in
    let inside : ltb (length (value ++ rest)) (length value) ≡ false =
      ground (arith, length-append value rest) in
    let left : (length (value ++ rest) + 2 ^ 64 - length value) % 2 ^ 64 ≡ length rest =
      omega (arith, length-append value rest) in
    rw
      (
        append_assoc (write_value 4 (length value % 2 ^ 32)) value rest,
        small,
        read_unsigned-write_value 4 (length value) (value ++ rest) (omega arith),
        inside,
        left,
        take-length_append value rest,
        drop-length_append value rest,
        ◌>>=◌,
      )
      refl

pub read_nonempty_string-part_bytes :
    (value rest : Bytes)
    → value ≢ []
    → length value < 2 ^ 32
    → length rest < 2 ^ 63
    → read_nonempty_string (at_start (part_bytes (string_part value) ++ rest))
      ≡ some (value, at_start rest)
unfolding read_nonempty_string
read_nonempty_string-part_bytes [] rest n h k = absurd (n refl)
read_nonempty_string-part_bytes (b ∷ value) rest n h k =
    rw (read_string-part_bytes (b ∷ value) rest h k, ◌>>=◌) refl

pub read_flag-part :
    (value : Bool) (rest : Bytes)
    → read_unsigned 4 (at_start (write_value 4 (if value then 1 else 0) ++ rest))
      ≡ some (if value then 1 else 0, at_start rest)
read_flag-part true rest = read_unsigned-write_value 4 1 rest (omega arith)
read_flag-part false rest = read_unsigned-write_value 4 0 rest (omega arith)

-- A context of which every member fits into its bytes.
pub record FitsContext (context : ObserverContext) : Type 0 where
  pub timestamp_fits : FitsSigned 8 context.timestamp
  pub performed_by_fits : context.performed_by < 256 ^ 16
  pub ip_address_fits : context.ip_address < 256 ^ 16

pub process_context-context_parts :
    (context : ObserverContext) (rest : Bytes)
    → FitsContext context
    → process_context 1 (
        at_start (
          write_value 8 (to_unsigned 8 context.timestamp)
          ++ (write_value 16 context.performed_by ++ (write_value 16 context.ip_address ++ rest))))
      ≡ some (context, at_start rest)
unfolding process_context process_context_v1
process_context-context_parts context rest h =
    let bytes =
      write_value 8 (to_unsigned 8 context.timestamp)
      ++ (write_value 16 context.performed_by ++ (write_value 16 context.ip_address ++ rest)) in
    let enough : ltb (length bytes) 40 ≡ false = ground (
      arith,
      length-append (write_value 8 (to_unsigned 8 context.timestamp))
          (write_value 16 context.performed_by ++ (write_value 16 context.ip_address ++ rest)),
      length-append (write_value 16 context.performed_by)
          (write_value 16 context.ip_address ++ rest),
      length-append (write_value 16 context.ip_address) rest,
      length-write_value 8 (to_unsigned 8 context.timestamp),
      length-write_value 16 context.performed_by,
      length-write_value 16 context.ip_address,
    ) in
    rw
      (
        enough,
        read_signed-write_value 8 context.timestamp
            (write_value 16 context.performed_by ++ (write_value 16 context.ip_address ++ rest))
            h.timestamp_fits,
        read_uuid-write_value context.performed_by (write_value 16 context.ip_address ++ rest)
            h.performed_by_fits,
        read_unsigned-write_value 16 context.ip_address rest h.ip_address_fits,
        ◌>>=◌,
      )
      refl

-- The same for the parts of a blob, as they are written.
pub read_uuid-part :
    (id : ℕ) (rest : Bytes)
    → id < 256 ^ 16
    → read_uuid (at_start (part_bytes (uuid_part id) ++ rest)) ≡ some (id, at_start rest)
unfolding part_bytes
read_uuid-part id rest h = read_uuid-write_value id rest h

pub read_unsigned-part :
    (n value : ℕ) (rest : Bytes)
    → value < 256 ^ n
    → read_unsigned n (at_start (part_bytes (unsigned_part n value) ++ rest))
      ≡ some (value, at_start rest)
unfolding part_bytes
read_unsigned-part n value rest h = read_unsigned-write_value n value rest h

pub read_signed-part :
    (n : ℕ) (value : ℤ) (rest : Bytes)
    → FitsSigned n value
    → read_signed n (at_start (part_bytes (signed_part n value) ++ rest))
      ≡ some (value, at_start rest)
unfolding part_bytes
read_signed-part n value rest h = read_signed-write_value n value rest h

pub read_unsigned-flag_part :
    (value : Bool) (rest : Bytes)
    → read_unsigned 4 (at_start (part_bytes (flag_part value) ++ rest))
      ≡ some (if value then 1 else 0, at_start rest)
unfolding part_bytes
read_unsigned-flag_part value rest = read_flag-part value rest

pub process_context-parts :
    (context : ObserverContext) (parts : List BlobPart)
    → FitsContext context
    → process_context 1 (at_start (parts_bytes (context_parts context ++ parts)))
      ≡ some (context, at_start (parts_bytes parts))
unfolding parts_bytes part_bytes
process_context-parts context parts h = process_context-context_parts context (parts_bytes parts) h

pub check_read_all_data-at_start : check_read_all_data (at_start []) ≡ some (tt, at_start [])
unfolding check_read_all_data
check_read_all_data-at_start = refl

pub not-flag : (value : Bool) → not ((if value then 1 else 0) == 0) ≡ value
not-flag true = refl
not-flag false = refl

pub flag-one : (value : Bool) → ((if value then 1 else 0) == 1) ≡ value
flag-one true = refl
flag-one false = refl

pub parts_bytes-cons :
    (part : BlobPart) (parts : List BlobPart)
    → parts_bytes (part ∷ parts) ≡ part_bytes part ++ parts_bytes parts
unfolding parts_bytes
parts_bytes-cons part parts = refl

pub parts_bytes-nil : parts_bytes [] ≡ []
unfolding parts_bytes
parts_bytes-nil = refl
