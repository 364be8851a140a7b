-- ===== src/Persistence/Events/RoundTrip/Header.antt =====
-- EventObserver.cpp, EventImporter.cpp: what was written for the parts of a blob is read back, part by part, and
-- its header before them.
use forum.Base.Int.{ℤ}
use forum.Base.{
  ℕ, Bool, if◌then◌else◌, ◌%◌, ◌≢◌, some, ◌^◌, ◌<◌, ◌++◌, [], ◌∷◌, List, Bytes, false, ltb, length,
  ◌≡◌, refl, arith, length-append,
}
use forum.Persistence.Blobs.{write_value}
use forum.Persistence.Blobs.Numbers.{length-write_value}
use forum.Persistence.Payload.{
  Cursor, ObserverContext, empty_context, context_parts, BlobPart, uuid_part, unsigned_part,
  signed_part, flag_part, string_part, part_bytes, parts_bytes, record_blob, ◌>>=◌, read_uuid,
  read_unsigned, read_signed, read_string, read_nonempty_string, check_read_all_data,
  process_context,
}
use forum.Persistence.Payload.Reading.{
  at_start, FitsSigned, FitsContext, read_unsigned-write_value, process_context-parts,
  read_uuid-part, read_unsigned-part, read_signed-part, read_unsigned-flag_part,
  read_string-part_bytes, read_nonempty_string-part_bytes, check_read_all_data-at_start, not-flag,
  flag-one, parts_bytes-cons, parts_bytes-nil,
}
use forum.Persistence.Events.{Event}
use forum.Persistence.Events.Importer.{called, with_value, dispatch, process_event}

-- The cursor at the start of what some parts are written as.
pub at_parts : List BlobPart → Cursor
at_parts parts = at_start (parts_bytes parts)

pub read_uuid-at_parts :
    (id : ℕ) (parts : List BlobPart)
    → id < 256 ^ 16
    → read_uuid (at_parts (uuid_part id ∷ parts)) ≡ some (id, at_parts parts)
unfolding at_parts
read_uuid-at_parts id parts h =
    rw (parts_bytes-cons (uuid_part id) parts) (read_uuid-part id (parts_bytes parts) h)

pub read_unsigned-at_parts :
    (n value : ℕ) (parts : List BlobPart)
    → value < 256 ^ n
    → read_unsigned n (at_parts (unsigned_part n value ∷ parts)) ≡ some (value, at_parts parts)
unfolding at_parts
read_unsigned-at_parts n value parts h =
    rw (parts_bytes-cons (unsigned_part n value) parts)
      (read_unsigned-part n value (parts_bytes parts) h)

pub read_signed-at_parts :
    (n : ℕ) (value : ℤ) (parts : List BlobPart)
    → FitsSigned n value
    → read_signed n (at_parts (signed_part n value ∷ parts)) ≡ some (value, at_parts parts)
unfolding at_parts
read_signed-at_parts n value parts h =
    rw (parts_bytes-cons (signed_part n value) parts)
      (read_signed-part n value (parts_bytes parts) h)

pub read_flag-at_parts :
    (value : Bool) (parts : List BlobPart)
    → read_unsigned 4 (at_parts (flag_part value ∷ parts))
      ≡ some (if value then 1 else 0, at_parts parts)
unfolding at_parts
read_flag-at_parts value parts =
    rw (parts_bytes-cons (flag_part value) parts)
      (read_unsigned-flag_part value (parts_bytes parts))

pub read_string-at_parts :
    (value : Bytes) (parts : List BlobPart)
    → length value < 2 ^ 32
    → length (parts_bytes parts) < 2 ^ 63
    → read_string (at_parts (string_part value ∷ parts)) ≡ some (value, at_parts parts)
unfolding at_parts
read_string-at_parts value parts h k =
    rw (parts_bytes-cons (string_part value) parts)
      (read_string-part_bytes value (parts_bytes parts) h k)

pub read_nonempty_string-at_parts :
    (value : Bytes) (parts : List BlobPart)
    → value ≢ []
    → length value < 2 ^ 32
    → length (parts_bytes parts) < 2 ^ 63
    → read_nonempty_string (at_parts (string_part value ∷ parts)) ≡ some (value, at_parts parts)
unfolding at_parts
read_nonempty_string-at_parts value parts n h k =
    rw (parts_bytes-cons (string_part value) parts)
      (read_nonempty_string-part_bytes value (parts_bytes parts) n h k)

pub process_context-at_parts :
    (context : ObserverContext) (parts : List BlobPart)
    → FitsContext context
    → process_context 1 (at_parts (context_parts context ++ parts)) ≡ some (context, at_parts parts)
unfolding at_parts
process_context-at_parts context parts h = process_context-parts context parts h

pub process_context-empty :
    (parts : List BlobPart)
    → process_context 1 (at_parts (context_parts empty_context ++ parts))
      ≡ some (empty_context, at_parts parts)
process_context-empty parts = process_context-at_parts empty_context parts (record {
  timestamp_fits = omega arith;
  performed_by_fits = omega arith;
  ip_address_fits = omega arith;
})

pub check_read_all_data-at_parts : check_read_all_data (at_parts []) ≡ some (tt, at_parts [])
unfolding at_parts
check_read_all_data-at_parts = rw parts_bytes-nil check_read_all_data-at_start

pub size-at_parts : (at_parts []).size ≡ 0
unfolding at_parts
size-at_parts = rw parts_bytes-nil refl

-- What follows a string is far shorter than 2 ^ 63.
pub nothing_left : length (parts_bytes []) < 2 ^ 63
nothing_left = rw parts_bytes-nil (omega arith)

pub string_left :
    (value : Bytes) → length value < 2 ^ 32 → length (parts_bytes (string_part value ∷ [])) < 2 ^ 63
unfolding parts_bytes part_bytes
string_left value h = omega (
  arith,
  length-append (write_value 4 (length value % 2 ^ 32) ++ value) [],
  length-append (write_value 4 (length value % 2 ^ 32)) value,
  length-write_value 4 (length value % 2 ^ 32),
)

pub flag_left : (value : Bool) → length (parts_bytes (flag_part value ∷ [])) < 2 ^ 63
unfolding parts_bytes part_bytes
flag_left value =
    let written = write_value 4 (if value then 1 else 0) in
    omega (arith, length-append written [], length-write_value 4 (if value then 1 else 0))

pub size_and_flag_left :
    (size : ℕ) (value : Bool)
    → length (parts_bytes (unsigned_part 8 size ∷ flag_part value ∷ [])) < 2 ^ 63
unfolding parts_bytes part_bytes
size_and_flag_left size value =
    let written = write_value 4 (if value then 1 else 0) in
    omega (
      arith,
      length-append (write_value 8 size) (written ++ []),
      length-append written [],
      length-write_value 8 size,
      length-write_value 4 (if value then 1 else 0),
    )

-- What reads a blob back.
pub ruleset reading = (
  ◌>>=◌, process_context-at_parts, process_context-empty, read_uuid-at_parts,
  read_unsigned-at_parts, read_signed-at_parts, read_flag-at_parts, read_string-at_parts,
  read_nonempty_string-at_parts, check_read_all_data-at_parts, size-at_parts, not-flag, flag-one,
  nothing_left, string_left, flag_left, size_and_flag_left,
)

pub process_event-record_blob :
    (event_type version : ℕ) (parts : List BlobPart) {context : ObserverContext} {event : Event}
    → event_type < 256 ^ 4
    → version < 256 ^ 2
    → dispatch event_type version 1 (at_parts parts) ≡ called context event
    → process_event (record_blob event_type version parts) ≡ called context event
unfolding process_event record_blob at_parts
process_event-record_blob event_type version parts h k read =
    let after_version = write_value 2 1 ++ parts_bytes parts in
    let after_type = write_value 2 version ++ after_version in
    let enough : ltb (length (write_value 4 event_type ++ after_type)) 8 ≡ false = ground (
      arith,
      length-append (write_value 4 event_type) after_type,
      length-append (write_value 2 version) after_version,
      length-append (write_value 2 1) (parts_bytes parts),
      length-write_value 4 event_type,
      length-write_value 2 version,
      length-write_value 2 1,
    ) in
    rw
      (
        enough,
        read_unsigned-write_value 4 event_type after_type h,
        read_unsigned-write_value 2 version after_version k,
        read_unsigned-write_value 2 1 (parts_bytes parts) (omega arith),
        with_value,
      )
      read
