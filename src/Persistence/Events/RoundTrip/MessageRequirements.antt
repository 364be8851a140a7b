-- ===== src/Persistence/Events/RoundTrip/MessageRequirements.antt =====
-- EventObserver.cpp, EventImporter.cpp: events of privileges that messages require are read back as they were written.
use forum.Base.Int.{ℤ}
use forum.Base.{ℕ, arith}
use forum.Persistence.Payload.{ObserverContext}
use forum.Persistence.Payload.Reading.{FitsContext}
use forum.Persistence.Events.{Event}
use forum.Persistence.Events.Observer
use forum.Persistence.Events.Importer
use forum.Persistence.Events.Importer.{dispatch}
use forum.Persistence.Events.RoundTrip.Header.{reading, process_event-record_blob}
use forum.Persistence.Events.RoundTrip.Recorded.{IsReadBack}
use forum.Persistence.Events.RoundTrip.Writable.{IsWritable}

pub process_event-on_change_discussion_thread_message_required_privilege_for_thread_message :
    (context : ObserverContext) (message_id current_privilege : ℕ) (current_privilege_value : ℤ)
    → FitsContext context
    → IsWritable (
        Event.change_discussion_thread_message_required_privilege_for_thread_message message_id
          current_privilege current_privilege_value)
    → IsReadBack context (
        Event.change_discussion_thread_message_required_privilege_for_thread_message message_id
          current_privilege current_privilege_value)
unfolding Observer.Requirements.on_change_discussion_thread_message_required_privilege_for_thread_message
    dispatch
    Importer.Requirements.import_change_discussion_thread_message_required_privilege_for_thread_message_v1
process_event-on_change_discussion_thread_message_required_privilege_for_thread_message context
      message_id current_privilege current_privilege_value c (h1, h2, h3) =
    process_event-record_blob _ _ _ (omega arith) (omega arith) (simp reading)

pub process_event-on_change_discussion_thread_message_required_privilege_for_thread :
    (context : ObserverContext) (thread_id current_privilege : ℕ) (current_privilege_value : ℤ)
    → FitsContext context
    → IsWritable (
        Event.change_discussion_thread_message_required_privilege_for_thread thread_id
          current_privilege current_privilege_value)
    → IsReadBack context (
        Event.change_discussion_thread_message_required_privilege_for_thread thread_id
          current_privilege current_privilege_value)
unfolding Observer.Requirements.on_change_discussion_thread_message_required_privilege_for_thread
    dispatch
    Importer.Requirements.import_change_discussion_thread_message_required_privilege_for_thread_v1
process_event-on_change_discussion_thread_message_required_privilege_for_thread context thread_id
      current_privilege current_privilege_value c (h1, h2, h3) =
    process_event-record_blob _ _ _ (omega arith) (omega arith) (simp reading)

pub process_event-on_change_discussion_thread_message_required_privilege_for_tag :
    (context : ObserverContext) (tag_id current_privilege : ℕ) (current_privilege_value : ℤ)
    → FitsContext context
    → IsWritable (
        Event.change_discussion_thread_message_required_privilege_for_tag tag_id current_privilege
          current_privilege_value)
    → IsReadBack context (
        Event.change_discussion_thread_message_required_privilege_for_tag tag_id current_privilege
          current_privilege_value)
unfolding Observer.Requirements.on_change_discussion_thread_message_required_privilege_for_tag
    dispatch
    Importer.Requirements.import_change_discussion_thread_message_required_privilege_for_tag_v1
process_event-on_change_discussion_thread_message_required_privilege_for_tag context tag_id
      current_privilege current_privilege_value c (h1, h2, h3) =
    process_event-record_blob _ _ _ (omega arith) (omega arith) (simp reading)

pub process_event-on_change_discussion_thread_message_required_privilege_forum_wide :
    (context : ObserverContext) (current_privilege : ℕ) (current_privilege_value : ℤ)
    → FitsContext context
    → IsWritable (
        Event.change_discussion_thread_message_required_privilege_forum_wide current_privilege
          current_privilege_value)
    → IsReadBack context (
        Event.change_discussion_thread_message_required_privilege_forum_wide current_privilege
          current_privilege_value)
unfolding Observer.Requirements.on_change_discussion_thread_message_required_privilege_forum_wide
    dispatch
    Importer.Requirements.import_change_discussion_thread_message_required_privilege_forum_wide_v1
process_event-on_change_discussion_thread_message_required_privilege_forum_wide context
      current_privilege current_privilege_value c (h1, h2) =
    process_event-record_blob _ _ _ (omega arith) (omega arith) (simp reading)
