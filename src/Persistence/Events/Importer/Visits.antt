-- ===== src/Persistence/Events/Importer/Visits.antt =====
-- EventImporter.cpp: how events of visits and downloads, which are written from time to time are read.
use forum.Base.{ℕ}
use forum.Persistence.Payload.{
  ObserverContext, Reader, ◌>>=◌, ◌>>◌, pure, read_unsigned, read_uuid, check_read_all_data,
  process_context,
}
use forum.Persistence.Events.{Event}

-- INCREMENT_DISCUSSION_THREAD_NUMBER_OF_VISITS, version 1
unfoldable pub import_increment_discussion_thread_number_of_visits_v1 :
    ℕ → Reader (ObserverContext × Event)
import_increment_discussion_thread_number_of_visits_v1 context_version = do
  context ← process_context context_version
  thread_id ← read_uuid
  number_of_visits ← read_unsigned 4
  check_read_all_data
  pure (context, Event.increment_discussion_thread_number_of_visits thread_id number_of_visits)

-- INCREMENT_USER_LATEST_VISITED_PAGE, version 1
unfoldable pub import_increment_user_latest_visited_page_v1 : ℕ → Reader (ObserverContext × Event)
import_increment_user_latest_visited_page_v1 context_version = do
  context ← process_context context_version
  user_id ← read_uuid
  thread_id ← read_uuid
  latest_visited_page ← read_unsigned 4
  check_read_all_data
  pure (context, Event.increment_user_latest_visited_page user_id thread_id latest_visited_page)
