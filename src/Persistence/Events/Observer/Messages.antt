-- ===== src/Persistence/Events/Observer/Messages.antt =====
-- EventObserver.cpp: what is written for events of messages of threads.
use forum.Base.{ℕ, Bool, Bytes, [], ◌∷◌, ◌++◌}
use forum.Persistence.Payload.{
  ObserverContext, context_parts, uuid_part, string_part, flag_part, record_blob,
}

-- EventType::ADD_NEW_DISCUSSION_THREAD_MESSAGE
unfoldable pub on_add_new_discussion_thread_message : ObserverContext → ℕ → ℕ → Bool → Bytes → Bytes
on_add_new_discussion_thread_message context message_id parent_id approved message =
    record_blob 15 3 (
      context_parts context
      ++ (uuid_part message_id
          ∷ uuid_part parent_id
          ∷ flag_part approved
          ∷ string_part message
          ∷ []))

-- EventType::CHANGE_DISCUSSION_THREAD_MESSAGE_CONTENT
unfoldable pub on_change_discussion_thread_message_content :
    ObserverContext → ℕ → Bytes → Bytes → Bytes
on_change_discussion_thread_message_content context message_id content last_updated_reason =
    record_blob 16 1 (
      context_parts context
      ++ (uuid_part message_id ∷ string_part content ∷ string_part last_updated_reason ∷ []))

-- EventType::MOVE_DISCUSSION_THREAD_MESSAGE
unfoldable pub on_move_discussion_thread_message : ObserverContext → ℕ → ℕ → Bytes
on_move_discussion_thread_message context message_id thread_id =
    record_blob 18 1 (context_parts context ++ (uuid_part message_id ∷ uuid_part thread_id ∷ []))

-- EventType::DELETE_DISCUSSION_THREAD_MESSAGE
unfoldable pub on_delete_discussion_thread_message : ObserverContext → ℕ → Bytes
on_delete_discussion_thread_message context id =
    record_blob 19 1 (context_parts context ++ (uuid_part id ∷ []))

-- EventType::DISCUSSION_THREAD_MESSAGE_UP_VOTE
unfoldable pub on_discussion_thread_message_up_vote : ObserverContext → ℕ → Bytes
on_discussion_thread_message_up_vote context id =
    record_blob 20 1 (context_parts context ++ (uuid_part id ∷ []))

-- EventType::DISCUSSION_THREAD_MESSAGE_DOWN_VOTE
unfoldable pub on_discussion_thread_message_down_vote : ObserverContext → ℕ → Bytes
on_discussion_thread_message_down_vote context id =
    record_blob 21 1 (context_parts context ++ (uuid_part id ∷ []))

-- EventType::DISCUSSION_THREAD_MESSAGE_RESET_VOTE
unfoldable pub on_discussion_thread_message_reset_vote : ObserverContext → ℕ → Bytes
on_discussion_thread_message_reset_vote context id =
    record_blob 22 1 (context_parts context ++ (uuid_part id ∷ []))

-- EventType::ADD_COMMENT_TO_DISCUSSION_THREAD_MESSAGE
unfoldable pub on_add_comment_to_discussion_thread_message : ObserverContext → ℕ → ℕ → Bytes → Bytes
on_add_comment_to_discussion_thread_message context comment_id message_id comment =
    record_blob 23 1 (
      context_parts context
      ++ (uuid_part comment_id ∷ uuid_part message_id ∷ string_part comment ∷ []))

-- EventType::SOLVE_DISCUSSION_THREAD_MESSAGE_COMMENT
unfoldable pub on_solve_discussion_thread_message_comment : ObserverContext → ℕ → Bytes
on_solve_discussion_thread_message_comment context id =
    record_blob 24 1 (context_parts context ++ (uuid_part id ∷ []))

-- EventType::QUOTE_USER_IN_DISCUSSION_THREAD_MESSAGE
unfoldable pub on_quote_user_in_discussion_thread_message : ObserverContext → ℕ → ℕ → Bytes
on_quote_user_in_discussion_thread_message context message_id user_id =
    record_blob 58 1 (context_parts context ++ (uuid_part message_id ∷ uuid_part user_id ∷ []))

-- EventType::CHANGE_DISCUSSION_THREAD_MESSAGE_APPROVAL
unfoldable pub on_change_discussion_thread_message_approval : ObserverContext → ℕ → Bool → Bytes
on_change_discussion_thread_message_approval context message_id approved =
    record_blob 59 1 (context_parts context ++ (uuid_part message_id ∷ flag_part approved ∷ []))
