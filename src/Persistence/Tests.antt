-- ===== src/Persistence/Tests.antt =====
-- Runs of the importer.
use forum.Base.{ℕ, List, [], ◌∷◌, ◌++◌, Bool, true, false, ◌≡◌, arith, Bytes}
use forum.Persistence.Blobs.{append, iterate_blobs_in_file}
use forum.Persistence.Blobs.Replay.{
  replay, initial, iterate_blobs_in_file-append, iterate_blobs_in_file_torn,
}

-- A checksum of one byte; the events are collected, and an empty one fails.
abbrev checksum : Bytes → ℕ
checksum [] = 0
checksum (b ∷ bytes) = 7

abbrev collect : Bytes → List Bytes → Bool × List Bytes
collect [] events = (false, events)
collect (b ∷ blob) events = (true, (b ∷ blob) ∷ events)

abbrev blobs : List Bytes
blobs = (1 ∷ 2 ∷ 3 ∷ []) ∷ (4 ∷ []) ∷ []

iterate_blobs_in_file-append_example :
    iterate_blobs_in_file checksum collect true (append checksum blobs) []
    ≡ replay collect blobs (initial [])
iterate_blobs_in_file-append_example =
    iterate_blobs_in_file-append checksum collect true blobs [] (omega arith)

iterate_blobs_in_file_torn_example :
    iterate_blobs_in_file checksum collect true (append checksum blobs ++ (255 ∷ 255 ∷ [])) []
    ≡ record (replay collect blobs (initial [])) { success = false }
iterate_blobs_in_file_torn_example =
    iterate_blobs_in_file_torn checksum collect true blobs (255 ∷ 255 ∷ []) [] (omega arith)
      (omega arith) (omega arith)
