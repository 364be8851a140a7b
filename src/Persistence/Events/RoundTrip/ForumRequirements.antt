-- ===== src/Persistence/Events/RoundTrip/ForumRequirements.antt =====
-- EventObserver.cpp, EventImporter.cpp: events of privileges required in the whole forum are read back as they were written.
use forum.Base.Int.{ℤ}
use forum.Base.{ℕ, arith}
use forum.Persistence.Payload.{ObserverContext}
use forum.Persistence.Payload.Reading.{FitsContext}
use forum.Persistence.Events.{Event}
use forum.Persistence.Events.Observer
use forum.Persistence.Events.Importer
use forum.Persistence.Events.Importer.{dispatch}
use forum.Persistence.Events.RoundTrip.Header.{reading, process_event-record_blob}
use forum.Persistence.Events.RoundTrip.Recorded.{IsReadBack}
use forum.Persistence.Events.RoundTrip.Writable.{IsWritable}

pub process_event-on_change_discussion_tag_required_privilege_forum_wide :
    (context : ObserverContext) (current_privilege : ℕ) (current_privilege_value : ℤ)
    → FitsContext context
    → IsWritable (
        Event.change_discussion_tag_required_privilege_forum_wide current_privilege
          current_privilege_value)
    → IsReadBack context (
        Event.change_discussion_tag_required_privilege_forum_wide current_privilege
          current_privilege_value)
unfolding Observer.Requirements.on_change_discussion_tag_required_privilege_forum_wide dispatch
    Importer.Requirements.import_change_discussion_tag_required_privilege_forum_wide_v1
process_event-on_change_discussion_tag_required_privilege_forum_wide context current_privilege
      current_privilege_value c (h1, h2) =
    process_event-record_blob _ _ _ (omega arith) (omega arith) (simp reading)

pub process_event-on_change_discussion_category_required_privilege_forum_wide :
    (context : ObserverContext) (current_privilege : ℕ) (current_privilege_value : ℤ)
    → FitsContext context
    → IsWritable (
        Event.change_discussion_category_required_privilege_forum_wide current_privilege
          current_privilege_value)
    → IsReadBack context (
        Event.change_discussion_category_required_privilege_forum_wide current_privilege
          current_privilege_value)
unfolding Observer.Requirements.on_change_discussion_category_required_privilege_forum_wide dispatch
    Importer.Requirements.import_change_discussion_category_required_privilege_forum_wide_v1
process_event-on_change_discussion_category_required_privilege_forum_wide context current_privilege
      current_privilege_value c (h1, h2) =
    process_event-record_blob _ _ _ (omega arith) (omega arith) (simp reading)

pub process_event-on_change_forum_wide_required_privilege :
    (context : ObserverContext) (current_privilege : ℕ) (current_privilege_value : ℤ)
    → FitsContext context
    → IsWritable
        (Event.change_forum_wide_required_privilege current_privilege current_privilege_value)
    → IsReadBack context
        (Event.change_forum_wide_required_privilege current_privilege current_privilege_value)
unfolding Observer.Requirements.on_change_forum_wide_required_privilege dispatch
    Importer.Requirements.import_change_forum_wide_required_privilege_v1
process_event-on_change_forum_wide_required_privilege context current_privilege
      current_privilege_value c (h1, h2) =
    process_event-record_blob _ _ _ (omega arith) (omega arith) (simp reading)

pub process_event-on_change_forum_wide_default_privilege_level :
    (context : ObserverContext) (current_privilege_duration : ℕ)
    (current_value current_duration : ℤ)
    → FitsContext context
    → IsWritable (
        Event.change_forum_wide_default_privilege_level current_privilege_duration current_value
          current_duration)
    → IsReadBack context (
        Event.change_forum_wide_default_privilege_level current_privilege_duration current_value
          current_duration)
unfolding Observer.Requirements.on_change_forum_wide_default_privilege_level dispatch
    Importer.Requirements.import_change_forum_wide_default_privilege_level_v1
process_event-on_change_forum_wide_default_privilege_level context current_privilege_duration
      current_value current_duration c (h1, h2, h3) =
    process_event-record_blob _ _ _ (omega arith) (omega arith) (simp reading)
