-- ===== src/Persistence/Events/Tests.antt =====
-- Runs of the observer and of the importer on one event.
use forum.Base.Int.{pos}
use forum.Base.{replicate, ◌++◌, [], ◌∷◌, ◌≡◌, refl, arith}
use forum.Persistence.Payload.{
  process_context_v1, process_context, read_uuid, read_signed, ObserverContext, read_unsigned,
}
use forum.Persistence.Payload.Reading.{FitsContext}
use forum.Persistence.Blobs.{read_value}
use forum.Persistence.Events.{Event}
use forum.Persistence.Events.Importer.Messages.{import_move_discussion_thread_message_v1}
use forum.Persistence.Events.Importer.{
  called_and_failed, called, dispatch, process_event, skipped, failed,
}
use forum.Persistence.Events.RoundTrip.{process_event-record_event}
use forum.Persistence.Events.RoundTrip.Recorded.{record_event}
use forum.Persistence.Events.RoundTrip.Writable.{IsWritable}

abbrev context : ObserverContext
context = record { timestamp = pos 1500000000; performed_by = 7; ip_address = 1 }

-- A user is given the name "A".
abbrev renamed : Event
renamed = Event.change_user_name 5 (65 ∷ [])

context-FitsContext : FitsContext context
context-FitsContext = record {
  timestamp_fits = omega arith;
  performed_by_fits = omega arith;
  ip_address_fits = omega arith;
}

renamed-IsWritable : IsWritable renamed
renamed-IsWritable = (omega arith, λ e. ground arith, omega arith)

process_event-record_event_example :
    process_event (record_event context renamed) ≡ called context renamed
process_event-record_event_example =
    process_event-record_event context renamed context-FitsContext renamed-IsWritable

-- Too few bytes for a header, and a header of an unknown event.
too_small_test : process_event (1 ∷ 2 ∷ 3 ∷ []) ≡ failed
unfolding process_event
too_small_test = refl

unknown_test : process_event (0 ∷ 0 ∷ 0 ∷ 0 ∷ 1 ∷ 0 ∷ 1 ∷ 0 ∷ []) ≡ skipped
unfolding process_event read_unsigned dispatch read_value
unknown_test = refl

-- A message is moved although a byte follows: type 18, and version 1 of the event and of the context.
moved_and_failed_test :
    process_event (
      (18 ∷ 0 ∷ 0 ∷ 0 ∷ 1 ∷ 0 ∷ 1 ∷ 0 ∷ [])
      ++ (replicate 40 0 ++ (replicate 16 0 ++ (replicate 16 0 ++ (9 ∷ [])))))
    ≡ called_and_failed
        (record { timestamp = pos 0; performed_by = 0; ip_address = 0 })
        (Event.move_discussion_thread_message 0 0)
unfolding process_event read_unsigned read_signed read_uuid dispatch read_value process_context
    process_context_v1 import_move_discussion_thread_message_v1
moved_and_failed_test = refl
