-- ===== src/Persistence/Events/RoundTrip/Visits.antt =====
-- EventObserver.cpp, EventImporter.cpp: events of visits are read back as they were written.
use forum.Base.{ℕ, arith}
use forum.Persistence.Payload.{ObserverContext}
use forum.Persistence.Payload.Reading.{FitsContext}
use forum.Persistence.Events.{Event}
use forum.Persistence.Events.Observer
use forum.Persistence.Events.Importer
use forum.Persistence.Events.Importer.{dispatch}
use forum.Persistence.Events.RoundTrip.Header.{reading, process_event-record_blob}
use forum.Persistence.Events.RoundTrip.Recorded.{IsReadBack}
use forum.Persistence.Events.RoundTrip.Writable.{IsWritable}

pub process_event-on_increment_discussion_thread_number_of_visits :
    (context : ObserverContext) (thread_id number_of_visits : ℕ)
    → FitsContext context
    → IsWritable (Event.increment_discussion_thread_number_of_visits thread_id number_of_visits)
    → IsReadBack context
        (Event.increment_discussion_thread_number_of_visits thread_id number_of_visits)
unfolding Observer.Visits.on_increment_discussion_thread_number_of_visits dispatch
    Importer.Visits.import_increment_discussion_thread_number_of_visits_v1
process_event-on_increment_discussion_thread_number_of_visits context thread_id number_of_visits c
      (h1, h2) =
    process_event-record_blob _ _ _ (omega arith) (omega arith) (simp reading)

pub process_event-on_increment_user_latest_visited_page :
    (context : ObserverContext) (user_id thread_id latest_visited_page : ℕ)
    → FitsContext context
    → IsWritable (Event.increment_user_latest_visited_page user_id thread_id latest_visited_page)
    → IsReadBack context
        (Event.increment_user_latest_visited_page user_id thread_id latest_visited_page)
unfolding Observer.Visits.on_increment_user_latest_visited_page dispatch
    Importer.Visits.import_increment_user_latest_visited_page_v1
process_event-on_increment_user_latest_visited_page context user_id thread_id latest_visited_page c
      (h1, h2, h3) =
    process_event-record_blob _ _ _ (omega arith) (omega arith) (simp reading)
