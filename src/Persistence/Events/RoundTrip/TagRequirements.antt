-- ===== src/Persistence/Events/RoundTrip/TagRequirements.antt =====
-- EventObserver.cpp, EventImporter.cpp: events of privileges that a tag or category requires are read back as they were written.
use forum.Base.Int.{ℤ}
use forum.Base.{ℕ, arith}
use forum.Persistence.Payload.{ObserverContext}
use forum.Persistence.Payload.Reading.{FitsContext}
use forum.Persistence.Events.{Event}
use forum.Persistence.Events.Observer
use forum.Persistence.Events.Importer
use forum.Persistence.Events.Importer.{dispatch}
use forum.Persistence.Events.RoundTrip.Header.{reading, process_event-record_blob}
use forum.Persistence.Events.RoundTrip.Recorded.{IsReadBack}
use forum.Persistence.Events.RoundTrip.Writable.{IsWritable}

pub process_event-on_change_discussion_tag_required_privilege_for_tag :
    (context : ObserverContext) (tag_id current_privilege : ℕ) (current_privilege_value : ℤ)
    → FitsContext context
    → IsWritable (
        Event.change_discussion_tag_required_privilege_for_tag tag_id current_privilege
          current_privilege_value)
    → IsReadBack context (
        Event.change_discussion_tag_required_privilege_for_tag tag_id current_privilege
          current_privilege_value)
unfolding Observer.Requirements.on_change_discussion_tag_required_privilege_for_tag dispatch
    Importer.Requirements.import_change_discussion_tag_required_privilege_for_tag_v1
process_event-on_change_discussion_tag_required_privilege_for_tag context tag_id current_privilege
      current_privilege_value c (h1, h2, h3) =
    process_event-record_blob _ _ _ (omega arith) (omega arith) (simp reading)

pub process_event-on_change_discussion_category_required_privilege_for_category :
    (context : ObserverContext) (category_id current_privilege : ℕ) (current_privilege_value : ℤ)
    → FitsContext context
    → IsWritable (
        Event.change_discussion_category_required_privilege_for_category category_id
          current_privilege current_privilege_value)
    → IsReadBack context (
        Event.change_discussion_category_required_privilege_for_category category_id
          current_privilege current_privilege_value)
unfolding Observer.Requirements.on_change_discussion_category_required_privilege_for_category
    dispatch
    Importer.Requirements.import_change_discussion_category_required_privilege_for_category_v1
process_event-on_change_discussion_category_required_privilege_for_category context category_id
      current_privilege current_privilege_value c (h1, h2, h3) =
    process_event-record_blob _ _ _ (omega arith) (omega arith) (simp reading)
