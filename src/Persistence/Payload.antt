-- ===== src/Persistence/Payload.antt =====
-- The bytes of one event: recordBlob of src/LibForumPersistence/private/EventObserver.cpp, and the reading
-- of values and of the context in src/LibForumPersistence/private/EventImporter.cpp. An id or an address
-- is the number that its 16 bytes stand for.
pub mod Reading
use forum.Base.Int.{ℤ, pos, negsuc}
use forum.Base.{
  ℕ, ◌+◌, ◌-◌, ◌^◌, ◌%◌, List, [], ◌∷◌, ◌++◌, Bool, true, false, Option, none, some, ltb, ◌==◌,
  if◌then◌else◌, length, take, drop, Bytes,
}
use forum.Persistence.Blobs.{write_value, read_value}

-- BlobPart: the bytes at the address, and whether their number is written in front.
pub record BlobPart : Type 0 where
  pub address : Bytes
  pub include_size_prefix : Bool

-- The two's complement of an integer of `n` bytes.
abbrev pub to_unsigned : ℕ → ℤ → ℕ
to_unsigned n (pos value) = value
to_unsigned n (negsuc value) = 256 ^ n - 1 - value

abbrev pub to_signed : ℕ → ℕ → ℤ
to_signed n value =
    if ltb (value + value) (256 ^ n) then pos value else negsuc (256 ^ n - 1 - value)

-- The parts of an id, of a string, and of integers of `n` bytes.
abbrev pub uuid_part : ℕ → BlobPart
uuid_part id = record { address = write_value 16 id; include_size_prefix = false }

abbrev pub string_part : Bytes → BlobPart
string_part value = record { address = value; include_size_prefix = true }

abbrev pub unsigned_part : ℕ → ℕ → BlobPart
unsigned_part n value = record { address = write_value n value; include_size_prefix = false }

abbrev pub signed_part : ℕ → ℤ → BlobPart
signed_part n value = unsigned_part n (to_unsigned n value)

-- `const uint32_t approved = ... ? 1 : 0;`
abbrev pub flag_part : Bool → BlobPart
flag_part value = unsigned_part 4 (if value then 1 else 0)

-- What the observers are told of the circumstances of an event.
pub record ObserverContext : Type 0 where
  pub timestamp : ℤ
  pub performed_by : ℕ
  pub ip_address : ℕ

-- ADD_CONTEXT_BLOB_PARTS
abbrev pub context_parts : ObserverContext → List BlobPart
context_parts context =
    signed_part 8 context.timestamp
    ∷ uuid_part context.performed_by
    ∷ unsigned_part 16 context.ip_address
    ∷ []

-- ADD_EMPTY_CONTEXT_BLOB_PARTS
abbrev pub empty_context : ObserverContext
empty_context = record { timestamp = pos 0; performed_by = 0; ip_address = 0 }

-- One round of the loop over the parts. The size of a part is a 32-bit number.
unfoldable pub part_bytes : BlobPart → Bytes
part_bytes part =
    if part.include_size_prefix
    then write_value 4 (length part.address % 2 ^ 32) ++ part.address
    else part.address

unfoldable pub parts_bytes : List BlobPart → Bytes
parts_bytes [] = []
parts_bytes (part ∷ parts) = part_bytes part ++ parts_bytes parts

-- recordBlob, with the version 1 of the context.
unfoldable pub record_blob : ℕ → ℕ → List BlobPart → Bytes
record_blob event_type version parts =
    write_value 4 event_type ++ (write_value 2 version ++ (write_value 2 1 ++ parts_bytes parts))

-- The pointer to the data, as the bytes from there on, and the size that the importer counts down.
pub record Cursor : Type 0 where
  pub data_left : Bytes
  pub size : ℕ

abbrev pub Reader : Type 0 → Type 0
Reader A = Cursor → Option (A × Cursor)

infixl 5 ◌>>=◌ ◌>>◌
abbrev pub ◌>>=◌ : {A B : Type 0} → Reader A → (A → Reader B) → Reader B
◌>>=◌ m f c = elim (m c) [ none ↦ none | some (a, c') ↦ f a c' ]

abbrev pub ◌>>◌ : {A B : Type 0} → Reader A → Reader B → Reader B
m >> k = m >>= λ _. k

abbrev pub pure : {A : Type 0} → A → Reader A
pure a c = some (a, c)

abbrev pub advance : Cursor → ℕ → Cursor
advance c n = record { data_left = drop n c.data_left; size = c.size - n }

-- READ_TYPE of an unsigned integer of `n` bytes: CHECK_SIZE, then readAndIncrementBuffer.
unfoldable pub read_unsigned : ℕ → Reader ℕ
read_unsigned n c = if ltb c.size n then none else some (read_value n c.data_left, advance c n)

unfoldable pub read_signed : ℕ → Reader ℤ
read_signed n = do value ← read_unsigned n; pure (to_signed n value)

-- READ_UUID
unfoldable pub read_uuid : Reader ℕ
read_uuid = read_unsigned 16

-- READ_STRING. A string that is longer than what is left is read as empty, and the size then wraps.
unfoldable pub read_string : Reader Bytes
read_string = do
  string_size ← read_unsigned 4
  λ c. some (
    if ltb c.size string_size then [] else take string_size c.data_left,
    record {
      data_left = drop string_size c.data_left;
      size = (c.size + 2 ^ 64 - string_size) % 2 ^ 64;
    },
  )

-- CHECK_NONEMPTY_STRING
abbrev pub nonempty : Bytes → Reader Bytes
nonempty [] c = none
nonempty (b ∷ value) c = some (b ∷ value, c)

-- READ_NONEMPTY_STRING
unfoldable pub read_nonempty_string : Reader Bytes
read_nonempty_string = do value ← read_string; nonempty value

-- CHECK_READ_ALL_DATA
unfoldable pub check_read_all_data : Reader Unit
check_read_all_data c = if c.size == 0 then some (tt, c) else none

unfoldable pub process_context_v1 : Reader ObserverContext
process_context_v1 c =
    if ltb c.size 40
    then none
    else (do
      timestamp ← read_signed 8
      performed_by ← read_uuid
      ip_address ← read_unsigned 16
      pure (record { timestamp = timestamp; performed_by = performed_by; ip_address = ip_address }))
        c

unfoldable pub process_context : ℕ → Reader ObserverContext
process_context context_version c = if context_version == 1 then process_context_v1 c else none
