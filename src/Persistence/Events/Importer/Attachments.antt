-- ===== src/Persistence/Events/Importer/Attachments.antt =====
-- EventImporter.cpp: how events of attachments are read.
use forum.Base.{ℕ, not, ◌==◌}
use forum.Persistence.Payload.{
  ObserverContext, Reader, ◌>>=◌, ◌>>◌, pure, read_unsigned, read_uuid, read_nonempty_string,
  check_read_all_data, process_context,
}
use forum.Persistence.Events.{Event}

-- ADD_NEW_ATTACHMENT, version 1
unfoldable pub import_add_new_attachment_v1 : ℕ → Reader (ObserverContext × Event)
import_add_new_attachment_v1 context_version = do
  context ← process_context context_version
  attachment_id ← read_uuid
  attachment_name ← read_nonempty_string
  attachment_size ← read_unsigned 8
  attachment_approved ← read_unsigned 4
  check_read_all_data
  pure (
    context,
    Event.add_new_attachment attachment_id attachment_name attachment_size
        (attachment_approved == 1),
  )

-- CHANGE_ATTACHMENT_NAME, version 1
unfoldable pub import_change_attachment_name_v1 : ℕ → Reader (ObserverContext × Event)
import_change_attachment_name_v1 context_version = do
  context ← process_context context_version
  attachment_id ← read_uuid
  name ← read_nonempty_string
  check_read_all_data
  pure (context, Event.change_attachment_name attachment_id name)

-- CHANGE_ATTACHMENT_APPROVAL, version 1
unfoldable pub import_change_attachment_approval_v1 : ℕ → Reader (ObserverContext × Event)
import_change_attachment_approval_v1 context_version = do
  context ← process_context context_version
  attachment_id ← read_uuid
  approved ← read_unsigned 4
  check_read_all_data
  pure (context, Event.change_attachment_approval attachment_id (not (approved == 0)))

-- ADD_ATTACHMENT_TO_DISCUSSION_THREAD_MESSAGE, version 1
unfoldable pub import_add_attachment_to_discussion_thread_message_v1 :
    ℕ → Reader (ObserverContext × Event)
import_add_attachment_to_discussion_thread_message_v1 context_version = do
  context ← process_context context_version
  attachment_id ← read_uuid
  message_id ← read_uuid
  check_read_all_data
  pure (context, Event.add_attachment_to_discussion_thread_message attachment_id message_id)

-- REMOVE_ATTACHMENT_FROM_DISCUSSION_THREAD_MESSAGE, version 1
unfoldable pub import_remove_attachment_from_discussion_thread_message_v1 :
    ℕ → Reader (ObserverContext × Event)
import_remove_attachment_from_discussion_thread_message_v1 context_version = do
  context ← process_context context_version
  attachment_id ← read_uuid
  message_id ← read_uuid
  check_read_all_data
  pure (context, Event.remove_attachment_from_discussion_thread_message attachment_id message_id)

-- DELETE_ATTACHMENT, version 1
unfoldable pub import_delete_attachment_v1 : ℕ → Reader (ObserverContext × Event)
import_delete_attachment_v1 context_version = do
  context ← process_context context_version
  attachment_id ← read_uuid
  check_read_all_data
  pure (context, Event.delete_attachment attachment_id)

-- INCREMENT_ATTACHMENT_NUMBER_OF_GETS, version 1
unfoldable pub import_increment_attachment_number_of_gets_v1 : ℕ → Reader (ObserverContext × Event)
import_increment_attachment_number_of_gets_v1 context_version = do
  context ← process_context context_version
  attachment_id ← read_uuid
  number_of_visits ← read_unsigned 4
  check_read_all_data
  pure (context, Event.increment_attachment_number_of_gets attachment_id number_of_visits)
