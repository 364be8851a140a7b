-- ===== src/Repository/Recovery.antt =====
-- The privileges of a forum that starts again: EventImporter.cpp reads the blobs that EventObserver.cpp
-- wrote, and calls the functions of MemoryRepositoryAuthorization.cpp that change the collection.
use forum.Base.{ℕ, List, [], ◌∷◌, map, Option, none, some, Bytes, ◌≡◌, refl, ap, ◌∙◌}
use forum.Base.All.{All}
use forum.Base.Int.{ℤ, pos, negsuc}
use forum.Persistence.Payload.{ObserverContext}
use forum.Persistence.Payload.Reading.{FitsContext}
use forum.Persistence.Events.Importer.{
  Processed, called, called_and_failed, skipped, failed, process_event,
}
use forum.Persistence.Events.RoundTrip.{process_event-record_event}
use forum.Persistence.Events.RoundTrip.Recorded.{record_event, recorded_context}
use forum.Persistence.Events.RoundTrip.Writable.{IsWritable}
use forum.Repository.Collection.{EntityCollection}
use forum.Repository.Common.{Written, Request, Repository}
use forum.Repository.Import.{import_privileges, check_status_code, replay}
use forum.Repository.Operations.{Operation, run_all, run_all-replay}

-- createObserverContext, and the blob that the observer writes.
abbrev pub context_of : Written → ObserverContext
context_of w = record {
  timestamp = pos w.at;
  performed_by = w.performed_by;
  ip_address = w.ip_address;
}

abbrev pub blob_of : Written → Bytes
blob_of w = record_event (context_of w) w.event

-- The clock during the import. No event was written before 1970.
abbrev to_time : ℤ → ℕ
to_time (pos t) = t
to_time (negsuc t) = 0

abbrev pub import_processed : Processed → EntityCollection → Option EntityCollection
import_processed skipped c = some c
import_processed failed c = none
import_processed (called_and_failed context event) c = none
import_processed (called context event) c =
    check_status_code (import_privileges (to_time context.timestamp) event c)

abbrev pub import_blobs : List Bytes → EntityCollection → Option EntityCollection
import_blobs [] c = some c
import_blobs (blob ∷ blobs) c = elim (import_processed (process_event blob) c) [
  | none ↦ none
  | some c' ↦ import_blobs blobs c'
]

-- The values of the event and of its context fit into their bytes, and it is written with its context.
pub record IsStorable (w : Written) : Type 0 where
  pub context_fits : FitsContext (context_of w)
  pub event_fits : IsWritable w.event
  pub context_written : recorded_context (context_of w) w.event ≡ context_of w

same_chain :
    (f g : EntityCollection → Option EntityCollection) (found : Option EntityCollection)
    → ((d : EntityCollection) → f d ≡ g d)
    → elim found [ none ↦ none | some d ↦ f d ] ≡ elim found [ none ↦ none | some d ↦ g d ]
same_chain f g none h = refl
same_chain f g (some d) h = h d

import_blobs-replay :
    (written : List Written) (c : EntityCollection)
    → All IsStorable written
    → import_blobs (map blob_of written) c ≡ replay written c
import_blobs-replay [] c h = refl
import_blobs-replay (w ∷ written) c (h, hs) =
    let read : process_event (blob_of w) ≡ called (context_of w) w.event =
      process_event-record_event (context_of w) w.event h.context_fits h.event_fits
      ∙ ap (λ context. called context w.event) h.context_written in
    rw (read, import_blobs)
      (same_chain (import_blobs (map blob_of written)) (replay written)
        (check_status_code (import_privileges w.at w.event c))
        (λ d. import_blobs-replay written d hs))

-- A forum that starts with nothing written, and answers any requests of any users about privileges,
-- allowed or not: if all that it wrote fits into its bytes, then the import of the bytes of what it wrote
-- into the collection at the start succeeds and gives the collection at the end.
pub run_all-import_blobs :
    (unset : ℤ) (requests : List (Request × Operation)) (start : Repository)
    → start.written ≡ []
    → All IsStorable (run_all unset requests start).written
    → import_blobs (map blob_of (run_all unset requests start).written) start.collection
      ≡ some (run_all unset requests start).collection
run_all-import_blobs unset requests start h storable =
    import_blobs-replay (run_all unset requests start).written start.collection storable
    ∙ run_all-replay unset requests start start (ap (λ w. replay w start.collection) h)
