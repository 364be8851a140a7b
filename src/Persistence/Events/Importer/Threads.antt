-- ===== src/Persistence/Events/Importer/Threads.antt =====
-- EventImporter.cpp: how events of threads are read.
use forum.Base.{ℕ, true, not, ◌==◌}
use forum.Persistence.Payload.{
  ObserverContext, Reader, ◌>>=◌, ◌>>◌, pure, read_unsigned, read_uuid, read_nonempty_string,
  check_read_all_data, process_context,
}
use forum.Persistence.Events.{Event}

-- ADD_NEW_DISCUSSION_THREAD, version 1
unfoldable pub import_add_new_discussion_thread_v1 : ℕ → Reader (ObserverContext × Event)
import_add_new_discussion_thread_v1 context_version = do
  context ← process_context context_version
  id ← read_uuid
  thread_name ← read_nonempty_string
  check_read_all_data
  pure (context, Event.add_new_discussion_thread id thread_name true)

-- ADD_NEW_DISCUSSION_THREAD, version 2
unfoldable pub import_add_new_discussion_thread_v2 : ℕ → Reader (ObserverContext × Event)
import_add_new_discussion_thread_v2 context_version = do
  context ← process_context context_version
  id ← read_uuid
  thread_name ← read_nonempty_string
  approved ← read_unsigned 4
  check_read_all_data
  pure (context, Event.add_new_discussion_thread id thread_name (not (approved == 0)))

-- CHANGE_DISCUSSION_THREAD_NAME, version 1
unfoldable pub import_change_discussion_thread_name_v1 : ℕ → Reader (ObserverContext × Event)
import_change_discussion_thread_name_v1 context_version = do
  context ← process_context context_version
  id ← read_uuid
  thread_name ← read_nonempty_string
  check_read_all_data
  pure (context, Event.change_discussion_thread_name id thread_name)

-- CHANGE_DISCUSSION_THREAD_PIN_DISPLAY_ORDER, version 1
unfoldable pub import_change_discussion_thread_pin_display_order_v1 :
    ℕ → Reader (ObserverContext × Event)
import_change_discussion_thread_pin_display_order_v1 context_version = do
  context ← process_context context_version
  id ← read_uuid
  pin_display_order ← read_unsigned 2
  check_read_all_data
  pure (context, Event.change_discussion_thread_pin_display_order id pin_display_order)

-- DELETE_DISCUSSION_THREAD, version 1
unfoldable pub import_delete_discussion_thread_v1 : ℕ → Reader (ObserverContext × Event)
import_delete_discussion_thread_v1 context_version = do
  context ← process_context context_version
  id ← read_uuid
  check_read_all_data
  pure (context, Event.delete_discussion_thread id)

-- MERGE_DISCUSSION_THREADS, version 1
unfoldable pub import_merge_discussion_threads_v1 : ℕ → Reader (ObserverContext × Event)
import_merge_discussion_threads_v1 context_version = do
  context ← process_context context_version
  from_thread_id ← read_uuid
  into_thread_id ← read_uuid
  check_read_all_data
  pure (context, Event.merge_discussion_threads from_thread_id into_thread_id)

-- SUBSCRIBE_TO_DISCUSSION_THREAD, version 1
unfoldable pub import_subscribe_to_discussion_thread_v1 : ℕ → Reader (ObserverContext × Event)
import_subscribe_to_discussion_thread_v1 context_version = do
  context ← process_context context_version
  id ← read_uuid
  check_read_all_data
  pure (context, Event.subscribe_to_discussion_thread id)

-- UNSUBSCRIBE_FROM_DISCUSSION_THREAD, version 1
unfoldable pub import_unsubscribe_from_discussion_thread_v1 : ℕ → Reader (ObserverContext × Event)
import_unsubscribe_from_discussion_thread_v1 context_version = do
  context ← process_context context_version
  id ← read_uuid
  check_read_all_data
  pure (context, Event.unsubscribe_from_discussion_thread id)

-- CHANGE_DISCUSSION_THREAD_APPROVAL, version 1
unfoldable pub import_change_discussion_thread_approval_v1 : ℕ → Reader (ObserverContext × Event)
import_change_discussion_thread_approval_v1 context_version = do
  context ← process_context context_version
  thread_id ← read_uuid
  approved ← read_unsigned 4
  check_read_all_data
  pure (context, Event.change_discussion_thread_approval thread_id (not (approved == 0)))
