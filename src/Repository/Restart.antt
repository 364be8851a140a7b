-- ===== src/Repository/Restart.antt =====
-- A forum that starts again from a file: the loop over the blobs of EventImporter.cpp on what FileAppender
-- wrote of the events about privileges.
use forum.Base.{
  Option-cases, ℕ, ◌^◌, ◌<◌, List, [], ◌∷◌, map, inl, inr, Option-cases, none, some, Bool, true,
  false, Bytes, length, ◌≡◌, refl, ap, ◌∙◌, arith,
}
use forum.Base.All.{All}
use forum.Base.Int.{ℤ}
use forum.Persistence.Blobs.{ImportState, import_event, append, iterate_blobs_in_file}
use forum.Persistence.Blobs.Replay.{replay, initial, iterate_blobs_in_file-append}
use forum.Persistence.Events.Importer.{process_event}
use forum.Repository.Collection.{EntityCollection}
use forum.Repository.Common.{Request, Repository}
use forum.Repository.Operations.{Operation, run_all}
use forum.Repository.Recovery.{
  blob_of, import_processed, import_blobs, IsStorable, run_all-import_blobs,
}

-- processEvent as the loop calls it.
abbrev pub import_one : Bytes → EntityCollection → Bool × EntityCollection
import_one blob c = elim (import_processed (process_event blob) c) [
  | none ↦ (false, c)
  | some c' ↦ (true, c')
]

import_event-import_one :
    (blob : Bytes) (r : ImportState EntityCollection) (d : EntityCollection)
    → import_processed (process_event blob) r.events ≡ some d
    → ((import_event import_one blob r).events ≡ d)
      × ((import_event import_one blob r).success ≡ r.success)
unfolding import_event
import_event-import_one blob r d h = rw (h, import_one) (refl, refl)

-- Where all blobs can be imported, the loop goes through all of them.
replay-import_blobs :
    (blobs : List Bytes) (r : ImportState EntityCollection) (c : EntityCollection)
    → r.success ≡ true
    → import_blobs blobs r.events ≡ some c
    → ((replay import_one blobs r).success ≡ true) × ((replay import_one blobs r).events ≡ c)
unfolding replay
replay-import_blobs [] r c h k = (h, ground arith)
replay-import_blobs (blob ∷ blobs) r c h k =
    elim (Option-cases (import_processed (process_event blob) r.events)) [
      | inl e ↦ absurd (ground (arith, rw (e, import_blobs) at k))
      | inr (d, e) ↦
          let (events, success) = import_event-import_one blob r d e in
          let ok = success ∙ h in
          rw ok (
            replay-import_blobs blobs (import_event import_one blob r) c ok
              (ap (import_blobs blobs) events ∙ rw (e, import_blobs) at k))
    ]

-- A forum that starts with nothing written, and answers any requests of any users about privileges,
-- allowed or not: if all that it wrote fits into its bytes, and the blobs and checksums into 32 bits, then
-- the import of the file of these blobs into the collection at the start, with or without verification of
-- the checksums, succeeds and gives the collection at the end.
pub run_all-iterate_blobs_in_file :
    (crc32 : Bytes → ℕ) (verify : Bool) (unset : ℤ) (requests : List (Request × Operation))
    (start : Repository)
    → start.written ≡ []
    → All IsStorable (run_all unset requests start).written
    → All
        (λ blob. (length blob < 2 ^ 32) × (crc32 blob < 2 ^ 32))
        (map blob_of (run_all unset requests start).written)
    → let file = append crc32 (map blob_of (run_all unset requests start).written) in
      let imported = iterate_blobs_in_file crc32 import_one verify file start.collection in
      (imported.success ≡ true) × (imported.events ≡ (run_all unset requests start).collection)
run_all-iterate_blobs_in_file crc32 verify unset requests start h storable small =
    let blobs = map blob_of (run_all unset requests start).written in
    rw (iterate_blobs_in_file-append crc32 import_one verify blobs start.collection small) (
      replay-import_blobs blobs (initial start.collection) (run_all unset requests start).collection
        refl (run_all-import_blobs unset requests start h storable))
