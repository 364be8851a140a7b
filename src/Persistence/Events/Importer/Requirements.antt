-- ===== src/Persistence/Events/Importer/Requirements.antt =====
-- EventImporter.cpp: how events of required privileges are read.
use forum.Base.{ℕ}
use forum.Persistence.Payload.{
  ObserverContext, Reader, ◌>>=◌, ◌>>◌, pure, read_unsigned, read_signed, read_uuid,
  check_read_all_data, process_context,
}
use forum.Persistence.Events.{Event}

-- CHANGE_DISCUSSION_THREAD_MESSAGE_REQUIRED_PRIVILEGE_FOR_THREAD_MESSAGE, version 1
unfoldable pub import_change_discussion_thread_message_required_privilege_for_thread_message_v1 :
    ℕ → Reader (ObserverContext × Event)
import_change_discussion_thread_message_required_privilege_for_thread_message_v1 context_version =
    do
      context ← process_context context_version
      message_id ← read_uuid
      current_privilege ← read_unsigned 2
      current_privilege_value ← read_signed 2
      check_read_all_data
      pure (
        context,
        Event.change_discussion_thread_message_required_privilege_for_thread_message message_id
            current_privilege current_privilege_value,
      )

-- CHANGE_DISCUSSION_THREAD_MESSAGE_REQUIRED_PRIVILEGE_FOR_THREAD, version 1
unfoldable pub import_change_discussion_thread_message_required_privilege_for_thread_v1 :
    ℕ → Reader (ObserverContext × Event)
import_change_discussion_thread_message_required_privilege_for_thread_v1 context_version = do
  context ← process_context context_version
  thread_id ← read_uuid
  current_privilege ← read_unsigned 2
  current_privilege_value ← read_signed 2
  check_read_all_data
  pure (
    context,
    Event.change_discussion_thread_message_required_privilege_for_thread thread_id current_privilege
        current_privilege_value,
  )

-- CHANGE_DISCUSSION_THREAD_MESSAGE_REQUIRED_PRIVILEGE_FOR_TAG, version 1
unfoldable pub import_change_discussion_thread_message_required_privilege_for_tag_v1 :
    ℕ → Reader (ObserverContext × Event)
import_change_discussion_thread_message_required_privilege_for_tag_v1 context_version = do
  context ← process_context context_version
  tag_id ← read_uuid
  current_privilege ← read_unsigned 2
  current_privilege_value ← read_signed 2
  check_read_all_data
  pure (
    context,
    Event.change_discussion_thread_message_required_privilege_for_tag tag_id current_privilege
        current_privilege_value,
  )

-- CHANGE_DISCUSSION_THREAD_MESSAGE_REQUIRED_PRIVILEGE_FORUM_WIDE, version 1
unfoldable pub import_change_discussion_thread_message_required_privilege_forum_wide_v1 :
    ℕ → Reader (ObserverContext × Event)
import_change_discussion_thread_message_required_privilege_forum_wide_v1 context_version = do
  context ← process_context context_version
  current_privilege ← read_unsigned 2
  current_privilege_value ← read_signed 2
  check_read_all_data
  pure (
    context,
    Event.change_discussion_thread_message_required_privilege_forum_wide current_privilege
        current_privilege_value,
  )

-- CHANGE_DISCUSSION_THREAD_REQUIRED_PRIVILEGE_FOR_THREAD, version 1
unfoldable pub import_change_discussion_thread_required_privilege_for_thread_v1 :
    ℕ → Reader (ObserverContext × Event)
import_change_discussion_thread_required_privilege_for_thread_v1 context_version = do
  context ← process_context context_version
  thread_id ← read_uuid
  current_privilege ← read_unsigned 2
  current_privilege_value ← read_signed 2
  check_read_all_data
  pure (
    context,
    Event.change_discussion_thread_required_privilege_for_thread thread_id current_privilege
        current_privilege_value,
  )

-- CHANGE_DISCUSSION_THREAD_REQUIRED_PRIVILEGE_FOR_TAG, version 1
unfoldable pub import_change_discussion_thread_required_privilege_for_tag_v1 :
    ℕ → Reader (ObserverContext × Event)
import_change_discussion_thread_required_privilege_for_tag_v1 context_version = do
  context ← process_context context_version
  tag_id ← read_uuid
  current_privilege ← read_unsigned 2
  current_privilege_value ← read_signed 2
  check_read_all_data
  pure (
    context,
    Event.change_discussion_thread_required_privilege_for_tag tag_id current_privilege
        current_privilege_value,
  )

-- CHANGE_DISCUSSION_THREAD_REQUIRED_PRIVILEGE_FORUM_WIDE, version 1
unfoldable pub import_change_discussion_thread_required_privilege_forum_wide_v1 :
    ℕ → Reader (ObserverContext × Event)
import_change_discussion_thread_required_privilege_forum_wide_v1 context_version = do
  context ← process_context context_version
  current_privilege ← read_unsigned 2
  current_privilege_value ← read_signed 2
  check_read_all_data
  pure (
    context,
    Event.change_discussion_thread_required_privilege_forum_wide current_privilege
        current_privilege_value,
  )

-- CHANGE_DISCUSSION_TAG_REQUIRED_PRIVILEGE_FOR_TAG, version 1
unfoldable pub import_change_discussion_tag_required_privilege_for_tag_v1 :
    ℕ → Reader (ObserverContext × Event)
import_change_discussion_tag_required_privilege_for_tag_v1 context_version = do
  context ← process_context context_version
  tag_id ← read_uuid
  current_privilege ← read_unsigned 2
  current_privilege_value ← read_signed 2
  check_read_all_data
  pure (
    context,
    Event.change_discussion_tag_required_privilege_for_tag tag_id current_privilege
        current_privilege_value,
  )

-- CHANGE_DISCUSSION_TAG_REQUIRED_PRIVILEGE_FORUM_WIDE, version 1
unfoldable pub import_change_discussion_tag_required_privilege_forum_wide_v1 :
    ℕ → Reader (ObserverContext × Event)
import_change_discussion_tag_required_privilege_forum_wide_v1 context_version = do
  context ← process_context context_version
  current_privilege ← read_unsigned 2
  current_privilege_value ← read_signed 2
  check_read_all_data
  pure (
    context,
    Event.change_discussion_tag_required_privilege_forum_wide current_privilege
        current_privilege_value,
  )

-- CHANGE_DISCUSSION_CATEGORY_REQUIRED_PRIVILEGE_FOR_CATEGORY, version 1
unfoldable pub import_change_discussion_category_required_privilege_for_category_v1 :
    ℕ → Reader (ObserverContext × Event)
import_change_discussion_category_required_privilege_for_category_v1 context_version = do
  context ← process_context context_version
  category_id ← read_uuid
  current_privilege ← read_unsigned 2
  current_privilege_value ← read_signed 2
  check_read_all_data
  pure (
    context,
    Event.change_discussion_category_required_privilege_for_category category_id current_privilege
        current_privilege_value,
  )

-- CHANGE_DISCUSSION_CATEGORY_REQUIRED_PRIVILEGE_FORUM_WIDE, version 1
unfoldable pub import_change_discussion_category_required_privilege_forum_wide_v1 :
    ℕ → Reader (ObserverContext × Event)
import_change_discussion_category_required_privilege_forum_wide_v1 context_version = do
  context ← process_context context_version
  current_privilege ← read_unsigned 2
  current_privilege_value ← read_signed 2
  check_read_all_data
  pure (
    context,
    Event.change_discussion_category_required_privilege_forum_wide current_privilege
        current_privilege_value,
  )

-- CHANGE_FORUM_WIDE_REQUIRED_PRIVILEGE, version 1
unfoldable pub import_change_forum_wide_required_privilege_v1 : ℕ → Reader (ObserverContext × Event)
import_change_forum_wide_required_privilege_v1 context_version = do
  context ← process_context context_version
  current_privilege ← read_unsigned 2
  current_privilege_value ← read_signed 2
  check_read_all_data
  pure (
    context,
    Event.change_forum_wide_required_privilege current_privilege current_privilege_value,
  )

-- CHANGE_FORUM_WIDE_DEFAULT_PRIVILEGE_LEVEL, version 1
unfoldable pub import_change_forum_wide_default_privilege_level_v1 :
    ℕ → Reader (ObserverContext × Event)
import_change_forum_wide_default_privilege_level_v1 context_version = do
  context ← process_context context_version
  current_privilege_duration ← read_unsigned 2
  current_value ← read_signed 2
  current_duration ← read_signed 8
  check_read_all_data
  pure (
    context,
    Event.change_forum_wide_default_privilege_level current_privilege_duration current_value
        current_duration,
  )
