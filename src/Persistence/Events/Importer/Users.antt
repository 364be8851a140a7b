-- ===== src/Persistence/Events/Importer/Users.antt =====
-- EventImporter.cpp: how events of users and private messages are read.
use forum.Base.{ℕ}
use forum.Persistence.Payload.{
  ObserverContext, Reader, ◌>>=◌, ◌>>◌, pure, read_unsigned, read_uuid, read_string,
  read_nonempty_string, check_read_all_data, process_context,
}
use forum.Persistence.Events.{Event}

-- ADD_NEW_USER, version 1
unfoldable pub import_add_new_user_v1 : ℕ → Reader (ObserverContext × Event)
import_add_new_user_v1 context_version = do
  context ← process_context context_version
  id ← read_uuid
  auth ← read_nonempty_string
  user_name ← read_nonempty_string
  check_read_all_data
  pure (context, Event.add_new_user id auth user_name)

-- CHANGE_USER_NAME, version 1
unfoldable pub import_change_user_name_v1 : ℕ → Reader (ObserverContext × Event)
import_change_user_name_v1 context_version = do
  context ← process_context context_version
  id ← read_uuid
  new_name ← read_nonempty_string
  check_read_all_data
  pure (context, Event.change_user_name id new_name)

-- CHANGE_USER_INFO, version 1
unfoldable pub import_change_user_info_v1 : ℕ → Reader (ObserverContext × Event)
import_change_user_info_v1 context_version = do
  context ← process_context context_version
  id ← read_uuid
  new_info ← read_string
  check_read_all_data
  pure (context, Event.change_user_info id new_info)

-- CHANGE_USER_TITLE, version 1
unfoldable pub import_change_user_title_v1 : ℕ → Reader (ObserverContext × Event)
import_change_user_title_v1 context_version = do
  context ← process_context context_version
  id ← read_uuid
  new_title ← read_string
  check_read_all_data
  pure (context, Event.change_user_title id new_title)

-- CHANGE_USER_SIGNATURE, version 1
unfoldable pub import_change_user_signature_v1 : ℕ → Reader (ObserverContext × Event)
import_change_user_signature_v1 context_version = do
  context ← process_context context_version
  id ← read_uuid
  new_signature ← read_string
  check_read_all_data
  pure (context, Event.change_user_signature id new_signature)

-- CHANGE_USER_LOGO, version 1
unfoldable pub import_change_user_logo_v1 : ℕ → Reader (ObserverContext × Event)
import_change_user_logo_v1 context_version = do
  context ← process_context context_version
  id ← read_uuid
  new_logo ← read_string
  check_read_all_data
  pure (context, Event.change_user_logo id new_logo)

-- DELETE_USER, version 1
unfoldable pub import_delete_user_v1 : ℕ → Reader (ObserverContext × Event)
import_delete_user_v1 context_version = do
  context ← process_context context_version
  id ← read_uuid
  check_read_all_data
  pure (context, Event.delete_user id)

-- SEND_PRIVATE_MESSAGE, version 1
unfoldable pub import_send_private_message_v1 : ℕ → Reader (ObserverContext × Event)
import_send_private_message_v1 context_version = do
  context ← process_context context_version
  id ← read_uuid
  destination_id ← read_uuid
  content ← read_nonempty_string
  check_read_all_data
  pure (context, Event.send_private_message id destination_id content)

-- DELETE_PRIVATE_MESSAGE, version 1
unfoldable pub import_delete_private_message_v1 : ℕ → Reader (ObserverContext × Event)
import_delete_private_message_v1 context_version = do
  context ← process_context context_version
  id ← read_uuid
  check_read_all_data
  pure (context, Event.delete_private_message id)

-- CHANGE_USER_ATTACHMENT_QUOTA, version 1
unfoldable pub import_change_user_attachment_quota_v1 : ℕ → Reader (ObserverContext × Event)
import_change_user_attachment_quota_v1 context_version = do
  context ← process_context context_version
  id ← read_uuid
  new_quota ← read_unsigned 8
  check_read_all_data
  pure (context, Event.change_user_attachment_quota id new_quota)
