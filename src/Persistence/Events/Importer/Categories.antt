-- ===== src/Persistence/Events/Importer/Categories.antt =====
-- EventImporter.cpp: how events of categories are read.
use forum.Base.{ℕ}
use forum.Persistence.Payload.{
  ObserverContext, Reader, ◌>>=◌, ◌>>◌, pure, read_signed, read_uuid, read_string,
  read_nonempty_string, check_read_all_data, process_context,
}
use forum.Persistence.Events.{Event}

-- ADD_NEW_DISCUSSION_CATEGORY, version 1
unfoldable pub import_add_new_discussion_category_v1 : ℕ → Reader (ObserverContext × Event)
import_add_new_discussion_category_v1 context_version = do
  context ← process_context context_version
  category_id ← read_uuid
  parent_id ← read_uuid
  category_name ← read_nonempty_string
  check_read_all_data
  pure (context, Event.add_new_discussion_category category_id parent_id category_name)

-- CHANGE_DISCUSSION_CATEGORY_NAME, version 1
unfoldable pub import_change_discussion_category_name_v1 : ℕ → Reader (ObserverContext × Event)
import_change_discussion_category_name_v1 context_version = do
  context ← process_context context_version
  id ← read_uuid
  category_name ← read_nonempty_string
  check_read_all_data
  pure (context, Event.change_discussion_category_name id category_name)

-- CHANGE_DISCUSSION_CATEGORY_DESCRIPTION, version 1
unfoldable pub import_change_discussion_category_description_v1 :
    ℕ → Reader (ObserverContext × Event)
import_change_discussion_category_description_v1 context_version = do
  context ← process_context context_version
  id ← read_uuid
  description ← read_string
  check_read_all_data
  pure (context, Event.change_discussion_category_description id description)

-- CHANGE_DISCUSSION_CATEGORY_DISPLAY_ORDER, version 1
unfoldable pub import_change_discussion_category_display_order_v1 :
    ℕ → Reader (ObserverContext × Event)
import_change_discussion_category_display_order_v1 context_version = do
  context ← process_context context_version
  id ← read_uuid
  display_order ← read_signed 2
  check_read_all_data
  pure (context, Event.change_discussion_category_display_order id display_order)

-- CHANGE_DISCUSSION_CATEGORY_PARENT, version 1
unfoldable pub import_change_discussion_category_parent_v1 : ℕ → Reader (ObserverContext × Event)
import_change_discussion_category_parent_v1 context_version = do
  context ← process_context context_version
  category_id ← read_uuid
  parent_id ← read_uuid
  check_read_all_data
  pure (context, Event.change_discussion_category_parent category_id parent_id)

-- DELETE_DISCUSSION_CATEGORY, version 1
unfoldable pub import_delete_discussion_category_v1 : ℕ → Reader (ObserverContext × Event)
import_delete_discussion_category_v1 context_version = do
  context ← process_context context_version
  id ← read_uuid
  check_read_all_data
  pure (context, Event.delete_discussion_category id)

-- ADD_DISCUSSION_TAG_TO_CATEGORY, version 1
unfoldable pub import_add_discussion_tag_to_category_v1 : ℕ → Reader (ObserverContext × Event)
import_add_discussion_tag_to_category_v1 context_version = do
  context ← process_context context_version
  tag_id ← read_uuid
  category_id ← read_uuid
  check_read_all_data
  pure (context, Event.add_discussion_tag_to_category tag_id category_id)

-- REMOVE_DISCUSSION_TAG_FROM_CATEGORY, version 1
unfoldable pub import_remove_discussion_tag_from_category_v1 : ℕ → Reader (ObserverContext × Event)
import_remove_discussion_tag_from_category_v1 context_version = do
  context ← process_context context_version
  tag_id ← read_uuid
  category_id ← read_uuid
  check_read_all_data
  pure (context, Event.remove_discussion_tag_from_category tag_id category_id)
