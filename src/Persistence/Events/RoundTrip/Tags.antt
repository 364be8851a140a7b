-- ===== src/Persistence/Events/RoundTrip/Tags.antt =====
-- EventObserver.cpp, EventImporter.cpp: events of tags are read back as they were written.
use forum.Base.{ℕ, Bytes, arith}
use forum.Persistence.Payload.{ObserverContext}
use forum.Persistence.Payload.Reading.{FitsContext}
use forum.Persistence.Events.{Event}
use forum.Persistence.Events.Observer
use forum.Persistence.Events.Importer
use forum.Persistence.Events.Importer.{dispatch}
use forum.Persistence.Events.RoundTrip.Header.{reading, process_event-record_blob}
use forum.Persistence.Events.RoundTrip.Recorded.{IsReadBack}
use forum.Persistence.Events.RoundTrip.Writable.{IsWritable}

pub process_event-on_add_new_discussion_tag :
    (context : ObserverContext) (id : ℕ) (tag_name : Bytes)
    → FitsContext context
    → IsWritable (Event.add_new_discussion_tag id tag_name)
    → IsReadBack context (Event.add_new_discussion_tag id tag_name)
unfolding Observer.Tags.on_add_new_discussion_tag dispatch
    Importer.Tags.import_add_new_discussion_tag_v1
process_event-on_add_new_discussion_tag context id tag_name c (h1, h2, h3) =
    process_event-record_blob _ _ _ (omega arith) (omega arith) (simp reading)

pub process_event-on_change_discussion_tag_name :
    (context : ObserverContext) (id : ℕ) (tag_name : Bytes)
    → FitsContext context
    → IsWritable (Event.change_discussion_tag_name id tag_name)
    → IsReadBack context (Event.change_discussion_tag_name id tag_name)
unfolding Observer.Tags.on_change_discussion_tag_name dispatch
    Importer.Tags.import_change_discussion_tag_name_v1
process_event-on_change_discussion_tag_name context id tag_name c (h1, h2, h3) =
    process_event-record_blob _ _ _ (omega arith) (omega arith) (simp reading)

pub process_event-on_change_discussion_tag_ui_blob :
    (context : ObserverContext) (id : ℕ) (ui_blob : Bytes)
    → FitsContext context
    → IsWritable (Event.change_discussion_tag_ui_blob id ui_blob)
    → IsReadBack context (Event.change_discussion_tag_ui_blob id ui_blob)
unfolding Observer.Tags.on_change_discussion_tag_ui_blob dispatch
    Importer.Tags.import_change_discussion_tag_ui_blob_v1
process_event-on_change_discussion_tag_ui_blob context id ui_blob c (h1, h2) =
    process_event-record_blob _ _ _ (omega arith) (omega arith) (simp reading)

pub process_event-on_delete_discussion_tag :
    (context : ObserverContext) (id : ℕ)
    → FitsContext context
    → IsWritable (Event.delete_discussion_tag id)
    → IsReadBack context (Event.delete_discussion_tag id)
unfolding Observer.Tags.on_delete_discussion_tag dispatch
    Importer.Tags.import_delete_discussion_tag_v1
process_event-on_delete_discussion_tag context id c h =
    process_event-record_blob _ _ _ (omega arith) (omega arith) (simp reading)

pub process_event-on_add_discussion_tag_to_thread :
    (context : ObserverContext) (tag_id thread_id : ℕ)
    → FitsContext context
    → IsWritable (Event.add_discussion_tag_to_thread tag_id thread_id)
    → IsReadBack context (Event.add_discussion_tag_to_thread tag_id thread_id)
unfolding Observer.Tags.on_add_discussion_tag_to_thread dispatch
    Importer.Tags.import_add_discussion_tag_to_thread_v1
process_event-on_add_discussion_tag_to_thread context tag_id thread_id c (h1, h2) =
    process_event-record_blob _ _ _ (omega arith) (omega arith) (simp reading)

pub process_event-on_remove_discussion_tag_from_thread :
    (context : ObserverContext) (tag_id thread_id : ℕ)
    → FitsContext context
    → IsWritable (Event.remove_discussion_tag_from_thread tag_id thread_id)
    → IsReadBack context (Event.remove_discussion_tag_from_thread tag_id thread_id)
unfolding Observer.Tags.on_remove_discussion_tag_from_thread dispatch
    Importer.Tags.import_remove_discussion_tag_from_thread_v1
process_event-on_remove_discussion_tag_from_thread context tag_id thread_id c (h1, h2) =
    process_event-record_blob _ _ _ (omega arith) (omega arith) (simp reading)

pub process_event-on_merge_discussion_tags :
    (context : ObserverContext) (from_tag_id into_tag_id : ℕ)
    → FitsContext context
    → IsWritable (Event.merge_discussion_tags from_tag_id into_tag_id)
    → IsReadBack context (Event.merge_discussion_tags from_tag_id into_tag_id)
unfolding Observer.Tags.on_merge_discussion_tags dispatch
    Importer.Tags.import_merge_discussion_tags_v1
process_event-on_merge_discussion_tags context from_tag_id into_tag_id c (h1, h2) =
    process_event-record_blob _ _ _ (omega arith) (omega arith) (simp reading)
