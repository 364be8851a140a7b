-- ===== src/Persistence/Events/Importer/Assignments.antt =====
-- EventImporter.cpp: how events of granted privileges are read.
use forum.Base.{ℕ}
use forum.Persistence.Payload.{
  ObserverContext, Reader, ◌>>=◌, ◌>>◌, pure, read_signed, read_uuid, check_read_all_data,
  process_context,
}
use forum.Persistence.Events.{Event}

-- ASSIGN_DISCUSSION_THREAD_MESSAGE_PRIVILEGE, version 1
unfoldable pub import_assign_discussion_thread_message_privilege_v1 :
    ℕ → Reader (ObserverContext × Event)
import_assign_discussion_thread_message_privilege_v1 context_version = do
  context ← process_context context_version
  message_id ← read_uuid
  user_id ← read_uuid
  current_privilege_value ← read_signed 2
  current_duration_value ← read_signed 8
  check_read_all_data
  pure (
    context,
    Event.assign_discussion_thread_message_privilege message_id user_id current_privilege_value
        current_duration_value,
  )

-- ASSIGN_DISCUSSION_THREAD_PRIVILEGE, version 1
unfoldable pub import_assign_discussion_thread_privilege_v1 : ℕ → Reader (ObserverContext × Event)
import_assign_discussion_thread_privilege_v1 context_version = do
  context ← process_context context_version
  thread_id ← read_uuid
  user_id ← read_uuid
  current_privilege_value ← read_signed 2
  current_duration_value ← read_signed 8
  check_read_all_data
  pure (
    context,
    Event.assign_discussion_thread_privilege thread_id user_id current_privilege_value
        current_duration_value,
  )

-- ASSIGN_DISCUSSION_TAG_PRIVILEGE, version 1
unfoldable pub import_assign_discussion_tag_privilege_v1 : ℕ → Reader (ObserverContext × Event)
import_assign_discussion_tag_privilege_v1 context_version = do
  context ← process_context context_version
  tag_id ← read_uuid
  user_id ← read_uuid
  current_privilege_value ← read_signed 2
  current_duration_value ← read_signed 8
  check_read_all_data
  pure (
    context,
    Event.assign_discussion_tag_privilege tag_id user_id current_privilege_value
        current_duration_value,
  )

-- ASSIGN_DISCUSSION_CATEGORY_PRIVILEGE, version 1
unfoldable pub import_assign_discussion_category_privilege_v1 : ℕ → Reader (ObserverContext × Event)
import_assign_discussion_category_privilege_v1 context_version = do
  context ← process_context context_version
  category_id ← read_uuid
  user_id ← read_uuid
  current_privilege_value ← read_signed 2
  current_duration_value ← read_signed 8
  check_read_all_data
  pure (
    context,
    Event.assign_discussion_category_privilege category_id user_id current_privilege_value
        current_duration_value,
  )

-- ASSIGN_FORUM_WIDE_PRIVILEGE, version 1
unfoldable pub import_assign_forum_wide_privilege_v1 : ℕ → Reader (ObserverContext × Event)
import_assign_forum_wide_privilege_v1 context_version = do
  context ← process_context context_version
  user_id ← read_uuid
  current_privilege_value ← read_signed 2
  current_duration_value ← read_signed 8
  check_read_all_data
  pure (
    context,
    Event.assign_forum_wide_privilege user_id current_privilege_value current_duration_value,
  )
