-- ===== src/Persistence/Blobs.antt =====
-- The framing of event blobs in a file: FileAppender::append in
-- src/LibForumPersistence/private/FileAppender.cpp, iterateBlobsInFile and processEvent's place in
-- src/LibForumPersistence/private/EventImporter.cpp, and PersistenceFormat.h. Integers are stored
-- little-endian, the order of the machines that the files are moved between.
pub mod Numbers
pub mod Replay
use forum.Base.{
  ℕ, zero, suc, ◌+◌, ◌-◌, ◌*◌, ◌/◌, ◌%◌, ◌^◌, List, [], ◌∷◌, ◌++◌, Bool, true, false, not, ◌&&◌,
  ltb, ◌==◌, if◌then◌else◌, length, take, drop, replicate, Bytes,
}

-- writeValue and readAndIncrementBuffer of an unsigned integer of `n` bytes.
unfoldable pub write_value : ℕ → ℕ → Bytes
write_value zero value = []
write_value (suc n) value = (value % 256) ∷ write_value n (value / 256)

unfoldable pub read_value : ℕ → Bytes → ℕ
read_value zero source = 0
read_value (suc n) [] = 0
read_value (suc n) (b ∷ source) = b + 256 * read_value n source

abbrev pub magic_prefix : ℕ
magic_prefix = 2 ^ 64 - 1

abbrev pub blob_padding_bytes : ℕ
blob_padding_bytes = 8

abbrev pub min_blob_size : ℕ
min_blob_size = 16

unfoldable pub blob_padding_required : ℕ → ℕ
blob_padding_required size =
    let size_multiple = size / blob_padding_bytes * blob_padding_bytes in
    if ltb size_multiple size then blob_padding_bytes - (size - size_multiple) else 0

-- `crc32` is boost's checksum, a parameter.
module _ (crc32 : Bytes → ℕ) where
  -- What one round of the loop of append writes. The size is cast to 32 bits.
  unfoldable pub frame : Bytes → Bytes
  unfolding write_value blob_padding_required
  frame blob =
      let blob_size = length blob % 2 ^ 32 in
      write_value 8 magic_prefix
      ++ (write_value 4 blob_size
          ++ (write_value 4 (crc32 blob)
              ++ (take blob_size blob ++ replicate (blob_padding_required blob_size) 0)))

  unfoldable pub append : List Bytes → Bytes
  unfolding frame
  append [] = []
  append (blob ∷ blobs) = frame blob ++ append blobs

-- ImportResult and the state of what the events are applied to.
pub record ImportState (E : Type 0) : Type 0 where
  pub read_blobs : ℕ
  pub imported_blobs : ℕ
  pub success : Bool
  pub events : E

module _ {E : Type 0} (process_event : Bytes → E → Bool × E) where
  -- The end of a round: the event has `blob_size` bytes, and `rest` is what follows the frame.
  unfoldable pub import_event : Bytes → ImportState E → ImportState E
  import_event blob r =
      let (imported, events) = process_event blob r.events in
      if imported
      then record r {
        read_blobs = r.read_blobs + 1;
        imported_blobs = r.imported_blobs + 1;
        events = events;
      }
      else record r { read_blobs = r.read_blobs + 1; success = false; events = events }

module _ {E : Type 0} (crc32 : Bytes → ℕ) (process_event : Bytes → E → Bool × E)
    (verify_checksum : Bool) where
  -- The loop of iterateBlobsInFile, with fuel. It goes on after an event that was imported.
  unfoldable pub iterate_blobs : ℕ → Bytes → ImportState E → ImportState E
  unfolding read_value blob_padding_required import_event
  iterate_blobs zero file r = r
  iterate_blobs (suc fuel) [] r = r
  iterate_blobs (suc fuel) (b ∷ file) r =
      let whole = b ∷ file in
      let blob_size = read_value 4 (drop 8 whole) in
      let stored_checksum = read_value 4 (drop 12 whole) in
      let blob_size_with_padding = blob_size + blob_padding_required blob_size in
      let body = drop 16 whole in
      let blob = take blob_size body in
      let imported = import_event process_event blob r in
      let rest = iterate_blobs fuel (drop blob_size_with_padding body) imported in
      let failed = record r { success = false } in
      if ltb (length whole) min_blob_size
      then failed
      else if not (read_value 8 whole == magic_prefix)
      then failed
      else if ltb (length body) blob_size_with_padding
      then failed
      else if verify_checksum && not (crc32 blob == stored_checksum)
      then failed
      else if imported.success
      then rest
      else imported

  -- A round reads at least 16 bytes.
  unfoldable pub iterate_blobs_in_file : Bytes → E → ImportState E
  unfolding iterate_blobs
  iterate_blobs_in_file file events =
      iterate_blobs (suc (length file)) file
        (record { read_blobs = 0; imported_blobs = 0; success = true; events = events })
