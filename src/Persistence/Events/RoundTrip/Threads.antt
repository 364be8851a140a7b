-- ===== src/Persistence/Events/RoundTrip/Threads.antt =====
-- EventObserver.cpp, EventImporter.cpp: events of threads are read back as they were written.
use forum.Base.{ℕ, Bool, Bytes, arith}
use forum.Persistence.Payload.{ObserverContext}
use forum.Persistence.Payload.Reading.{FitsContext}
use forum.Persistence.Events.{Event}
use forum.Persistence.Events.Observer
use forum.Persistence.Events.Importer
use forum.Persistence.Events.Importer.{dispatch}
use forum.Persistence.Events.RoundTrip.Header.{reading, process_event-record_blob}
use forum.Persistence.Events.RoundTrip.Recorded.{IsReadBack}
use forum.Persistence.Events.RoundTrip.Writable.{IsWritable}

pub process_event-on_add_new_discussion_thread :
    (context : ObserverContext) (id : ℕ) (thread_name : Bytes) (approved : Bool)
    → FitsContext context
    → IsWritable (Event.add_new_discussion_thread id thread_name approved)
    → IsReadBack context (Event.add_new_discussion_thread id thread_name approved)
unfolding Observer.Threads.on_add_new_discussion_thread dispatch
    Importer.Threads.import_add_new_discussion_thread_v2
process_event-on_add_new_discussion_thread context id thread_name approved c (h1, h2, h3) =
    process_event-record_blob _ _ _ (omega arith) (omega arith) (simp reading)

pub process_event-on_change_discussion_thread_name :
    (context : ObserverContext) (id : ℕ) (thread_name : Bytes)
    → FitsContext context
    → IsWritable (Event.change_discussion_thread_name id thread_name)
    → IsReadBack context (Event.change_discussion_thread_name id thread_name)
unfolding Observer.Threads.on_change_discussion_thread_name dispatch
    Importer.Threads.import_change_discussion_thread_name_v1
process_event-on_change_discussion_thread_name context id thread_name c (h1, h2, h3) =
    process_event-record_blob _ _ _ (omega arith) (omega arith) (simp reading)

pub process_event-on_change_discussion_thread_pin_display_order :
    (context : ObserverContext) (id pin_display_order : ℕ)
    → FitsContext context
    → IsWritable (Event.change_discussion_thread_pin_display_order id pin_display_order)
    → IsReadBack context (Event.change_discussion_thread_pin_display_order id pin_display_order)
unfolding Observer.Threads.on_change_discussion_thread_pin_display_order dispatch
    Importer.Threads.import_change_discussion_thread_pin_display_order_v1
process_event-on_change_discussion_thread_pin_display_order context id pin_display_order c
      (h1, h2) =
    process_event-record_blob _ _ _ (omega arith) (omega arith) (simp reading)

pub process_event-on_delete_discussion_thread :
    (context : ObserverContext) (id : ℕ)
    → FitsContext context
    → IsWritable (Event.delete_discussion_thread id)
    → IsReadBack context (Event.delete_discussion_thread id)
unfolding Observer.Threads.on_delete_discussion_thread dispatch
    Importer.Threads.import_delete_discussion_thread_v1
process_event-on_delete_discussion_thread context id c h =
    process_event-record_blob _ _ _ (omega arith) (omega arith) (simp reading)

pub process_event-on_merge_discussion_threads :
    (context : ObserverContext) (from_thread_id into_thread_id : ℕ)
    → FitsContext context
    → IsWritable (Event.merge_discussion_threads from_thread_id into_thread_id)
    → IsReadBack context (Event.merge_discussion_threads from_thread_id into_thread_id)
unfolding Observer.Threads.on_merge_discussion_threads dispatch
    Importer.Threads.import_merge_discussion_threads_v1
process_event-on_merge_discussion_threads context from_thread_id into_thread_id c (h1, h2) =
    process_event-record_blob _ _ _ (omega arith) (omega arith) (simp reading)

pub process_event-on_subscribe_to_discussion_thread :
    (context : ObserverContext) (id : ℕ)
    → FitsContext context
    → IsWritable (Event.subscribe_to_discussion_thread id)
    → IsReadBack context (Event.subscribe_to_discussion_thread id)
unfolding Observer.Threads.on_subscribe_to_discussion_thread dispatch
    Importer.Threads.import_subscribe_to_discussion_thread_v1
process_event-on_subscribe_to_discussion_thread context id c h =
    process_event-record_blob _ _ _ (omega arith) (omega arith) (simp reading)

pub process_event-on_unsubscribe_from_discussion_thread :
    (context : ObserverContext) (id : ℕ)
    → FitsContext context
    → IsWritable (Event.unsubscribe_from_discussion_thread id)
    → IsReadBack context (Event.unsubscribe_from_discussion_thread id)
unfolding Observer.Threads.on_unsubscribe_from_discussion_thread dispatch
    Importer.Threads.import_unsubscribe_from_discussion_thread_v1
process_event-on_unsubscribe_from_discussion_thread context id c h =
    process_event-record_blob _ _ _ (omega arith) (omega arith) (simp reading)

pub process_event-on_change_discussion_thread_approval :
    (context : ObserverContext) (thread_id : ℕ) (approved : Bool)
    → FitsContext context
    → IsWritable (Event.change_discussion_thread_approval thread_id approved)
    → IsReadBack context (Event.change_discussion_thread_approval thread_id approved)
unfolding Observer.Threads.on_change_discussion_thread_approval dispatch
    Importer.Threads.import_change_discussion_thread_approval_v1
process_event-on_change_discussion_thread_approval context thread_id approved c h =
    process_event-record_blob _ _ _ (omega arith) (omega arith) (simp reading)
