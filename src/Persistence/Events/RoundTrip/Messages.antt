-- ===== src/Persistence/Events/RoundTrip/Messages.antt =====
-- EventObserver.cpp, EventImporter.cpp: events of messages in threads are read back as they were written.
use forum.Base.{ℕ, Bool, Bytes, arith}
use forum.Persistence.Payload.{ObserverContext}
use forum.Persistence.Payload.Reading.{FitsContext}
use forum.Persistence.Events.{Event}
use forum.Persistence.Events.Observer
use forum.Persistence.Events.Importer
use forum.Persistence.Events.Importer.{dispatch}
use forum.Persistence.Events.RoundTrip.Header.{reading, process_event-record_blob}
use forum.Persistence.Events.RoundTrip.Recorded.{IsReadBack}
use forum.Persistence.Events.RoundTrip.Writable.{IsWritable}

pub process_event-on_add_new_discussion_thread_message :
    (context : ObserverContext) (message_id parent_id : ℕ) (approved : Bool) (message : Bytes)
    → FitsContext context
    → IsWritable (Event.add_new_discussion_thread_message message_id parent_id approved message)
    → IsReadBack context
        (Event.add_new_discussion_thread_message message_id parent_id approved message)
unfolding Observer.Messages.on_add_new_discussion_thread_message dispatch
    Importer.Messages.import_add_new_discussion_thread_message_v3
process_event-on_add_new_discussion_thread_message context message_id parent_id approved message c
      (h1, h2, h3, h4) =
    process_event-record_blob _ _ _ (omega arith) (omega arith) (simp reading)

pub process_event-on_change_discussion_thread_message_content :
    (context : ObserverContext) (message_id : ℕ) (content last_updated_reason : Bytes)
    → FitsContext context
    → IsWritable
        (Event.change_discussion_thread_message_content message_id content last_updated_reason)
    → IsReadBack context
        (Event.change_discussion_thread_message_content message_id content last_updated_reason)
unfolding Observer.Messages.on_change_discussion_thread_message_content dispatch
    Importer.Messages.import_change_discussion_thread_message_content_v1
process_event-on_change_discussion_thread_message_content context message_id content
      last_updated_reason c (h1, h2, h3, h4) =
    process_event-record_blob _ _ _ (omega arith) (omega arith) (simp reading)

pub process_event-on_move_discussion_thread_message :
    (context : ObserverContext) (message_id thread_id : ℕ)
    → FitsContext context
    → IsWritable (Event.move_discussion_thread_message message_id thread_id)
    → IsReadBack context (Event.move_discussion_thread_message message_id thread_id)
unfolding Observer.Messages.on_move_discussion_thread_message dispatch
    Importer.Messages.import_move_discussion_thread_message_v1
process_event-on_move_discussion_thread_message context message_id thread_id c (h1, h2) =
    process_event-record_blob _ _ _ (omega arith) (omega arith) (simp reading)

pub process_event-on_delete_discussion_thread_message :
    (context : ObserverContext) (id : ℕ)
    → FitsContext context
    → IsWritable (Event.delete_discussion_thread_message id)
    → IsReadBack context (Event.delete_discussion_thread_message id)
unfolding Observer.Messages.on_delete_discussion_thread_message dispatch
    Importer.Messages.import_delete_discussion_thread_message_v1
process_event-on_delete_discussion_thread_message context id c h =
    process_event-record_blob _ _ _ (omega arith) (omega arith) (simp reading)

pub process_event-on_change_discussion_thread_message_approval :
    (context : ObserverContext) (message_id : ℕ) (approved : Bool)
    → FitsContext context
    → IsWritable (Event.change_discussion_thread_message_approval message_id approved)
    → IsReadBack context (Event.change_discussion_thread_message_approval message_id approved)
unfolding Observer.Messages.on_change_discussion_thread_message_approval dispatch
    Importer.Messages.import_change_discussion_thread_message_approval_v1
process_event-on_change_discussion_thread_message_approval context message_id approved c h =
    process_event-record_blob _ _ _ (omega arith) (omega arith) (simp reading)
