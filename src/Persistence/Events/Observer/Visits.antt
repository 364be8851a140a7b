-- ===== src/Persistence/Events/Observer/Visits.antt =====
-- EventObserver.cpp: what is written for events of visits and downloads, which are written from time to time.
use forum.Base.{ℕ, Bytes, [], ◌∷◌, ◌++◌}
use forum.Persistence.Payload.{context_parts, empty_context, uuid_part, unsigned_part, record_blob}

-- EventType::INCREMENT_DISCUSSION_THREAD_NUMBER_OF_VISITS
unfoldable pub on_increment_discussion_thread_number_of_visits : ℕ → ℕ → Bytes
on_increment_discussion_thread_number_of_visits thread_id number_of_visits =
    record_blob 17 1
      (context_parts empty_context ++ (uuid_part thread_id ∷ unsigned_part 4 number_of_visits ∷ []))

-- EventType::INCREMENT_USER_LATEST_VISITED_PAGE
unfoldable pub on_increment_user_latest_visited_page : ℕ → ℕ → ℕ → Bytes
on_increment_user_latest_visited_page user_id thread_id latest_visited_page = record_blob 60 1 (
    context_parts empty_context
    ++ (uuid_part user_id ∷ uuid_part thread_id ∷ unsigned_part 4 latest_visited_page ∷ []))
