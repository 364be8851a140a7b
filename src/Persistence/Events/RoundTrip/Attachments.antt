-- ===== src/Persistence/Events/RoundTrip/Attachments.antt =====
-- EventObserver.cpp, EventImporter.cpp: events of attachments are read back as they were written.
use forum.Base.{ℕ, Bool, Bytes, arith}
use forum.Persistence.Payload.{ObserverContext}
use forum.Persistence.Payload.Reading.{FitsContext}
use forum.Persistence.Events.{Event}
use forum.Persistence.Events.Observer
use forum.Persistence.Events.Importer
use forum.Persistence.Events.Importer.{dispatch}
use forum.Persistence.Events.RoundTrip.Header.{reading, process_event-record_blob}
use forum.Persistence.Events.RoundTrip.Recorded.{IsReadBack}
use forum.Persistence.Events.RoundTrip.Writable.{IsWritable}

pub process_event-on_add_new_attachment :
    (context : ObserverContext) (attachment_id : ℕ) (attachment_name : Bytes) (attachment_size : ℕ)
    (attachment_approved : Bool)
    → FitsContext context
    → IsWritable
        (Event.add_new_attachment attachment_id attachment_name attachment_size attachment_approved)
    → IsReadBack context
        (Event.add_new_attachment attachment_id attachment_name attachment_size attachment_approved)
unfolding Observer.Attachments.on_add_new_attachment dispatch
    Importer.Attachments.import_add_new_attachment_v1
process_event-on_add_new_attachment context attachment_id attachment_name attachment_size
      attachment_approved c (h1, h2, h3, h4) =
    process_event-record_blob _ _ _ (omega arith) (omega arith) (simp reading)

pub process_event-on_change_attachment_name :
    (context : ObserverContext) (attachment_id : ℕ) (name : Bytes)
    → FitsContext context
    → IsWritable (Event.change_attachment_name attachment_id name)
    → IsReadBack context (Event.change_attachment_name attachment_id name)
unfolding Observer.Attachments.on_change_attachment_name dispatch
    Importer.Attachments.import_change_attachment_name_v1
process_event-on_change_attachment_name context attachment_id name c (h1, h2, h3) =
    process_event-record_blob _ _ _ (omega arith) (omega arith) (simp reading)

pub process_event-on_change_attachment_approval :
    (context : ObserverContext) (attachment_id : ℕ) (approved : Bool)
    → FitsContext context
    → IsWritable (Event.change_attachment_approval attachment_id approved)
    → IsReadBack context (Event.change_attachment_approval attachment_id approved)
unfolding Observer.Attachments.on_change_attachment_approval dispatch
    Importer.Attachments.import_change_attachment_approval_v1
process_event-on_change_attachment_approval context attachment_id approved c h =
    process_event-record_blob _ _ _ (omega arith) (omega arith) (simp reading)

pub process_event-on_add_attachment_to_discussion_thread_message :
    (context : ObserverContext) (attachment_id message_id : ℕ)
    → FitsContext context
    → IsWritable (Event.add_attachment_to_discussion_thread_message attachment_id message_id)
    → IsReadBack context
        (Event.add_attachment_to_discussion_thread_message attachment_id message_id)
unfolding Observer.Attachments.on_add_attachment_to_discussion_thread_message dispatch
    Importer.Attachments.import_add_attachment_to_discussion_thread_message_v1
process_event-on_add_attachment_to_discussion_thread_message context attachment_id message_id c
      (h1, h2) =
    process_event-record_blob _ _ _ (omega arith) (omega arith) (simp reading)

pub process_event-on_remove_attachment_from_discussion_thread_message :
    (context : ObserverContext) (attachment_id message_id : ℕ)
    → FitsContext context
    → IsWritable (Event.remove_attachment_from_discussion_thread_message attachment_id message_id)
    → IsReadBack context
        (Event.remove_attachment_from_discussion_thread_message attachment_id message_id)
unfolding Observer.Attachments.on_remove_attachment_from_discussion_thread_message dispatch
    Importer.Attachments.import_remove_attachment_from_discussion_thread_message_v1
process_event-on_remove_attachment_from_discussion_thread_message context attachment_id message_id c
      (h1, h2) =
    process_event-record_blob _ _ _ (omega arith) (omega arith) (simp reading)

pub process_event-on_delete_attachment :
    (context : ObserverContext) (attachment_id : ℕ)
    → FitsContext context
    → IsWritable (Event.delete_attachment attachment_id)
    → IsReadBack context (Event.delete_attachment attachment_id)
unfolding Observer.Attachments.on_delete_attachment dispatch
    Importer.Attachments.import_delete_attachment_v1
process_event-on_delete_attachment context attachment_id c h =
    process_event-record_blob _ _ _ (omega arith) (omega arith) (simp reading)

pub process_event-on_increment_attachment_number_of_gets :
    (context : ObserverContext) (attachment_id number_of_visits : ℕ)
    → FitsContext context
    → IsWritable (Event.increment_attachment_number_of_gets attachment_id number_of_visits)
    → IsReadBack context (Event.increment_attachment_number_of_gets attachment_id number_of_visits)
unfolding Observer.Attachments.on_increment_attachment_number_of_gets dispatch
    Importer.Attachments.import_increment_attachment_number_of_gets_v1
process_event-on_increment_attachment_number_of_gets context attachment_id number_of_visits c
      (h1, h2) =
    process_event-record_blob _ _ _ (omega arith) (omega arith) (simp reading)
