-- ===== src/Persistence/Events/RoundTrip/Assignments.antt =====
-- EventObserver.cpp, EventImporter.cpp: events of privileges that are assigned are read back as they were written.
use forum.Base.Int.{ℤ}
use forum.Base.{ℕ, arith}
use forum.Persistence.Payload.{ObserverContext}
use forum.Persistence.Payload.Reading.{FitsContext}
use forum.Persistence.Events.{Event}
use forum.Persistence.Events.Observer
use forum.Persistence.Events.Importer
use forum.Persistence.Events.Importer.{dispatch}
use forum.Persistence.Events.RoundTrip.Header.{reading, process_event-record_blob}
use forum.Persistence.Events.RoundTrip.Recorded.{IsReadBack}
use forum.Persistence.Events.RoundTrip.Writable.{IsWritable}

pub process_event-on_assign_discussion_thread_message_privilege :
    (context : ObserverContext) (message_id user_id : ℕ)
    (current_privilege_value current_duration_value : ℤ)
    → FitsContext context
    → IsWritable (
        Event.assign_discussion_thread_message_privilege message_id user_id current_privilege_value
          current_duration_value)
    → IsReadBack context (
        Event.assign_discussion_thread_message_privilege message_id user_id current_privilege_value
          current_duration_value)
unfolding Observer.Assignments.on_assign_discussion_thread_message_privilege dispatch
    Importer.Assignments.import_assign_discussion_thread_message_privilege_v1
process_event-on_assign_discussion_thread_message_privilege context message_id user_id
      current_privilege_value current_duration_value c (h1, h2, h3, h4) =
    process_event-record_blob _ _ _ (omega arith) (omega arith) (simp reading)

pub process_event-on_assign_discussion_thread_privilege :
    (context : ObserverContext) (thread_id user_id : ℕ)
    (current_privilege_value current_duration_value : ℤ)
    → FitsContext context
    → IsWritable (
        Event.assign_discussion_thread_privilege thread_id user_id current_privilege_value
          current_duration_value)
    → IsReadBack context (
        Event.assign_discussion_thread_privilege thread_id user_id current_privilege_value
          current_duration_value)
unfolding Observer.Assignments.on_assign_discussion_thread_privilege dispatch
    Importer.Assignments.import_assign_discussion_thread_privilege_v1
process_event-on_assign_discussion_thread_privilege context thread_id user_id
      current_privilege_value current_duration_value c (h1, h2, h3, h4) =
    process_event-record_blob _ _ _ (omega arith) (omega arith) (simp reading)

pub process_event-on_assign_discussion_tag_privilege :
    (context : ObserverContext) (tag_id user_id : ℕ)
    (current_privilege_value current_duration_value : ℤ)
    → FitsContext context
    → IsWritable (
        Event.assign_discussion_tag_privilege tag_id user_id current_privilege_value
          current_duration_value)
    → IsReadBack context (
        Event.assign_discussion_tag_privilege tag_id user_id current_privilege_value
          current_duration_value)
unfolding Observer.Assignments.on_assign_discussion_tag_privilege dispatch
    Importer.Assignments.import_assign_discussion_tag_privilege_v1
process_event-on_assign_discussion_tag_privilege context tag_id user_id current_privilege_value
      current_duration_value c (h1, h2, h3, h4) =
    process_event-record_blob _ _ _ (omega arith) (omega arith) (simp reading)

pub process_event-on_assign_discussion_category_privilege :
    (context : ObserverContext) (category_id user_id : ℕ)
    (current_privilege_value current_duration_value : ℤ)
    → FitsContext context
    → IsWritable (
        Event.assign_discussion_category_privilege category_id user_id current_privilege_value
          current_duration_value)
    → IsReadBack context (
        Event.assign_discussion_category_privilege category_id user_id current_privilege_value
          current_duration_value)
unfolding Observer.Assignments.on_assign_discussion_category_privilege dispatch
    Importer.Assignments.import_assign_discussion_category_privilege_v1
process_event-on_assign_discussion_category_privilege context category_id user_id
      current_privilege_value current_duration_value c (h1, h2, h3, h4) =
    process_event-record_blob _ _ _ (omega arith) (omega arith) (simp reading)

pub process_event-on_assign_forum_wide_privilege :
    (context : ObserverContext) (user_id : ℕ) (current_privilege_value current_duration_value : ℤ)
    → FitsContext context
    → IsWritable
        (Event.assign_forum_wide_privilege user_id current_privilege_value current_duration_value)
    → IsReadBack context
        (Event.assign_forum_wide_privilege user_id current_privilege_value current_duration_value)
unfolding Observer.Assignments.on_assign_forum_wide_privilege dispatch
    Importer.Assignments.import_assign_forum_wide_privilege_v1
process_event-on_assign_forum_wide_privilege context user_id current_privilege_value
      current_duration_value c (h1, h2, h3) =
    process_event-record_blob _ _ _ (omega arith) (omega arith) (simp reading)
