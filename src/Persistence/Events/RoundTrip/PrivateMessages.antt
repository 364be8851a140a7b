-- ===== src/Persistence/Events/RoundTrip/PrivateMessages.antt =====
-- EventObserver.cpp, EventImporter.cpp: events of private messages are read back as they were written.
use forum.Base.{ℕ, Bytes, arith}
use forum.Persistence.Payload.{ObserverContext}
use forum.Persistence.Payload.Reading.{FitsContext}
use forum.Persistence.Events.{Event}
use forum.Persistence.Events.Observer
use forum.Persistence.Events.Importer
use forum.Persistence.Events.Importer.{dispatch}
use forum.Persistence.Events.RoundTrip.Header.{reading, process_event-record_blob}
use forum.Persistence.Events.RoundTrip.Recorded.{IsReadBack}
use forum.Persistence.Events.RoundTrip.Writable.{IsWritable}

pub process_event-on_send_private_message :
    (context : ObserverContext) (id destination_id : ℕ) (content : Bytes)
    → FitsContext context
    → IsWritable (Event.send_private_message id destination_id content)
    → IsReadBack context (Event.send_private_message id destination_id content)
unfolding Observer.Users.on_send_private_message dispatch
    Importer.Users.import_send_private_message_v1
process_event-on_send_private_message context id destination_id content c (h1, h2, h3, h4) =
    process_event-record_blob _ _ _ (omega arith) (omega arith) (simp reading)

pub process_event-on_delete_private_message :
    (context : ObserverContext) (id : ℕ)
    → FitsContext context
    → IsWritable (Event.delete_private_message id)
    → IsReadBack context (Event.delete_private_message id)
unfolding Observer.Users.on_delete_private_message dispatch
    Importer.Users.import_delete_private_message_v1
process_event-on_delete_private_message context id c h =
    process_event-record_blob _ _ _ (omega arith) (omega arith) (simp reading)
