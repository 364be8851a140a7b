-- ===== src/Persistence/Events/Importer/Tags.antt =====
-- EventImporter.cpp: how events of tags are read.
use forum.Base.{ℕ}
use forum.Persistence.Payload.{
  ObserverContext, Reader, ◌>>=◌, ◌>>◌, pure, read_uuid, read_string, read_nonempty_string,
  check_read_all_data, process_context,
}
use forum.Persistence.Events.{Event}

-- ADD_NEW_DISCUSSION_TAG, version 1
unfoldable pub import_add_new_discussion_tag_v1 : ℕ → Reader (ObserverContext × Event)
import_add_new_discussion_tag_v1 context_version = do
  context ← process_context context_version
  id ← read_uuid
  tag_name ← read_nonempty_string
  check_read_all_data
  pure (context, Event.add_new_discussion_tag id tag_name)

-- CHANGE_DISCUSSION_TAG_NAME, version 1
unfoldable pub import_change_discussion_tag_name_v1 : ℕ → Reader (ObserverContext × Event)
import_change_discussion_tag_name_v1 context_version = do
  context ← process_context context_version
  id ← read_uuid
  tag_name ← read_nonempty_string
  check_read_all_data
  pure (context, Event.change_discussion_tag_name id tag_name)

-- CHANGE_DISCUSSION_TAG_UI_BLOB, version 1
unfoldable pub import_change_discussion_tag_ui_blob_v1 : ℕ → Reader (ObserverContext × Event)
import_change_discussion_tag_ui_blob_v1 context_version = do
  context ← process_context context_version
  id ← read_uuid
  ui_blob ← read_string
  check_read_all_data
  pure (context, Event.change_discussion_tag_ui_blob id ui_blob)

-- DELETE_DISCUSSION_TAG, version 1
unfoldable pub import_delete_discussion_tag_v1 : ℕ → Reader (ObserverContext × Event)
import_delete_discussion_tag_v1 context_version = do
  context ← process_context context_version
  id ← read_uuid
  check_read_all_data
  pure (context, Event.delete_discussion_tag id)

-- ADD_DISCUSSION_TAG_TO_THREAD, version 1
unfoldable pub import_add_discussion_tag_to_thread_v1 : ℕ → Reader (ObserverContext × Event)
import_add_discussion_tag_to_thread_v1 context_version = do
  context ← process_context context_version
  tag_id ← read_uuid
  thread_id ← read_uuid
  check_read_all_data
  pure (context, Event.add_discussion_tag_to_thread tag_id thread_id)

-- REMOVE_DISCUSSION_TAG_FROM_THREAD, version 1
unfoldable pub import_remove_discussion_tag_from_thread_v1 : ℕ → Reader (ObserverContext × Event)
import_remove_discussion_tag_from_thread_v1 context_version = do
  context ← process_context context_version
  tag_id ← read_uuid
  thread_id ← read_uuid
  check_read_all_data
  pure (context, Event.remove_discussion_tag_from_thread tag_id thread_id)

-- MERGE_DISCUSSION_TAGS, version 1
unfoldable pub import_merge_discussion_tags_v1 : ℕ → Reader (ObserverContext × Event)
import_merge_discussion_tags_v1 context_version = do
  context ← process_context context_version
  from_tag_id ← read_uuid
  into_tag_id ← read_uuid
  check_read_all_data
  pure (context, Event.merge_discussion_tags from_tag_id into_tag_id)
