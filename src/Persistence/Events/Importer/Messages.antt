-- ===== src/Persistence/Events/Importer/Messages.antt =====
-- EventImporter.cpp: how events of messages of threads are read.
use forum.Base.{ℕ, true, not, ◌==◌}
use forum.Persistence.Payload.{
  ObserverContext, Reader, ◌>>=◌, ◌>>◌, pure, read_unsigned, read_uuid, read_string,
  read_nonempty_string, check_read_all_data, process_context,
}
use forum.Persistence.Events.{Event}

-- ADD_NEW_DISCUSSION_THREAD_MESSAGE, version 1
unfoldable pub import_add_new_discussion_thread_message_v1 : ℕ → Reader (ObserverContext × Event)
import_add_new_discussion_thread_message_v1 context_version = do
  context ← process_context context_version
  message_id ← read_uuid
  parent_id ← read_uuid
  message ← read_nonempty_string
  check_read_all_data
  pure (context, Event.add_new_discussion_thread_message message_id parent_id true message)

-- ADD_NEW_DISCUSSION_THREAD_MESSAGE, version 2
unfoldable pub import_add_new_discussion_thread_message_v2 : ℕ → Reader (ObserverContext × Event)
import_add_new_discussion_thread_message_v2 context_version = do
  context ← process_context context_version
  message_id ← read_uuid
  parent_id ← read_uuid
  message_size ← read_unsigned 4
  message_offset ← read_unsigned 8
  check_read_all_data
  pure (
    context,
    Event.add_new_discussion_thread_message_in_file message_id parent_id true message_size
        message_offset,
  )

-- ADD_NEW_DISCUSSION_THREAD_MESSAGE, version 3
unfoldable pub import_add_new_discussion_thread_message_v3 : ℕ → Reader (ObserverContext × Event)
import_add_new_discussion_thread_message_v3 context_version = do
  context ← process_context context_version
  message_id ← read_uuid
  parent_id ← read_uuid
  approved ← read_unsigned 4
  message ← read_nonempty_string
  check_read_all_data
  pure (
    context,
    Event.add_new_discussion_thread_message message_id parent_id (not (approved == 0)) message,
  )

-- ADD_NEW_DISCUSSION_THREAD_MESSAGE, version 4
unfoldable pub import_add_new_discussion_thread_message_v4 : ℕ → Reader (ObserverContext × Event)
import_add_new_discussion_thread_message_v4 context_version = do
  context ← process_context context_version
  message_id ← read_uuid
  parent_id ← read_uuid
  approved ← read_unsigned 4
  message_size ← read_unsigned 4
  message_offset ← read_unsigned 8
  check_read_all_data
  pure (
    context,
    Event.add_new_discussion_thread_message_in_file message_id parent_id (not (approved == 0))
        message_size message_offset,
  )

-- CHANGE_DISCUSSION_THREAD_MESSAGE_CONTENT, version 1
unfoldable pub import_change_discussion_thread_message_content_v1 :
    ℕ → Reader (ObserverContext × Event)
import_change_discussion_thread_message_content_v1 context_version = do
  context ← process_context context_version
  message_id ← read_uuid
  content ← read_nonempty_string
  last_updated_reason ← read_string
  check_read_all_data
  pure (
    context,
    Event.change_discussion_thread_message_content message_id content last_updated_reason,
  )

-- MOVE_DISCUSSION_THREAD_MESSAGE, version 1. Unlike the others, the source calls the repository before it
-- checks that all data is read: to_processed has that check.
unfoldable pub import_move_discussion_thread_message_v1 : ℕ → Reader (ObserverContext × Event)
import_move_discussion_thread_message_v1 context_version = do
  context ← process_context context_version
  message_id ← read_uuid
  thread_id ← read_uuid
  pure (context, Event.move_discussion_thread_message message_id thread_id)

-- DELETE_DISCUSSION_THREAD_MESSAGE, version 1
unfoldable pub import_delete_discussion_thread_message_v1 : ℕ → Reader (ObserverContext × Event)
import_delete_discussion_thread_message_v1 context_version = do
  context ← process_context context_version
  id ← read_uuid
  check_read_all_data
  pure (context, Event.delete_discussion_thread_message id)

-- DISCUSSION_THREAD_MESSAGE_UP_VOTE, version 1
unfoldable pub import_discussion_thread_message_up_vote_v1 : ℕ → Reader (ObserverContext × Event)
import_discussion_thread_message_up_vote_v1 context_version = do
  context ← process_context context_version
  id ← read_uuid
  check_read_all_data
  pure (context, Event.discussion_thread_message_up_vote id)

-- DISCUSSION_THREAD_MESSAGE_DOWN_VOTE, version 1
unfoldable pub import_discussion_thread_message_down_vote_v1 : ℕ → Reader (ObserverContext × Event)
import_discussion_thread_message_down_vote_v1 context_version = do
  context ← process_context context_version
  id ← read_uuid
  check_read_all_data
  pure (context, Event.discussion_thread_message_down_vote id)

-- DISCUSSION_THREAD_MESSAGE_RESET_VOTE, version 1
unfoldable pub import_discussion_thread_message_reset_vote_v1 : ℕ → Reader (ObserverContext × Event)
import_discussion_thread_message_reset_vote_v1 context_version = do
  context ← process_context context_version
  id ← read_uuid
  check_read_all_data
  pure (context, Event.discussion_thread_message_reset_vote id)

-- ADD_COMMENT_TO_DISCUSSION_THREAD_MESSAGE, version 1
unfoldable pub import_add_comment_to_discussion_thread_message_v1 :
    ℕ → Reader (ObserverContext × Event)
import_add_comment_to_discussion_thread_message_v1 context_version = do
  context ← process_context context_version
  comment_id ← read_uuid
  message_id ← read_uuid
  comment ← read_nonempty_string
  check_read_all_data
  pure (context, Event.add_comment_to_discussion_thread_message comment_id message_id comment)

-- SOLVE_DISCUSSION_THREAD_MESSAGE_COMMENT, version 1
unfoldable pub import_solve_discussion_thread_message_comment_v1 :
    ℕ → Reader (ObserverContext × Event)
import_solve_discussion_thread_message_comment_v1 context_version = do
  context ← process_context context_version
  id ← read_uuid
  check_read_all_data
  pure (context, Event.solve_discussion_thread_message_comment id)

-- QUOTE_USER_IN_DISCUSSION_THREAD_MESSAGE, version 1
unfoldable pub import_quote_user_in_discussion_thread_message_v1 :
    ℕ → Reader (ObserverContext × Event)
import_quote_user_in_discussion_thread_message_v1 context_version = do
  context ← process_context context_version
  message_id ← read_uuid
  user_id ← read_uuid
  check_read_all_data
  pure (context, Event.quote_user_in_discussion_thread_message message_id user_id)

-- CHANGE_DISCUSSION_THREAD_MESSAGE_APPROVAL, version 1
unfoldable pub import_change_discussion_thread_message_approval_v1 :
    ℕ → Reader (ObserverContext × Event)
import_change_discussion_thread_message_approval_v1 context_version = do
  context ← process_context context_version
  message_id ← read_uuid
  approved ← read_unsigned 4
  check_read_all_data
  pure (context, Event.change_discussion_thread_message_approval message_id (not (approved == 0)))
