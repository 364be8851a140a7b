-- ===== src/Persistence/Events/Observer/Attachments.antt =====
-- EventObserver.cpp: what is written for events of attachments.
use forum.Base.{ℕ, Bool, Bytes, [], ◌∷◌, ◌++◌}
use forum.Persistence.Payload.{
  ObserverContext, context_parts, empty_context, uuid_part, string_part, unsigned_part, flag_part,
  record_blob,
}

-- EventType::ADD_NEW_ATTACHMENT
unfoldable pub on_add_new_attachment : ObserverContext → ℕ → Bytes → ℕ → Bool → Bytes
on_add_new_attachment context attachment_id attachment_name attachment_size attachment_approved =
    record_blob 65 1 (
      context_parts context
      ++ (uuid_part attachment_id
          ∷ string_part attachment_name
          ∷ unsigned_part 8 attachment_size
          ∷ flag_part attachment_approved
          ∷ []))

-- EventType::CHANGE_ATTACHMENT_NAME
unfoldable pub on_change_attachment_name : ObserverContext → ℕ → Bytes → Bytes
on_change_attachment_name context attachment_id name =
    record_blob 66 1 (context_parts context ++ (uuid_part attachment_id ∷ string_part name ∷ []))

-- EventType::CHANGE_ATTACHMENT_APPROVAL
unfoldable pub on_change_attachment_approval : ObserverContext → ℕ → Bool → Bytes
on_change_attachment_approval context attachment_id approved =
    record_blob 67 1 (context_parts context ++ (uuid_part attachment_id ∷ flag_part approved ∷ []))

-- EventType::ADD_ATTACHMENT_TO_DISCUSSION_THREAD_MESSAGE
unfoldable pub on_add_attachment_to_discussion_thread_message : ObserverContext → ℕ → ℕ → Bytes
on_add_attachment_to_discussion_thread_message context attachment_id message_id =
    record_blob 68 1
      (context_parts context ++ (uuid_part attachment_id ∷ uuid_part message_id ∷ []))

-- EventType::REMOVE_ATTACHMENT_FROM_DISCUSSION_THREAD_MESSAGE
unfoldable pub on_remove_attachment_from_discussion_thread_message : ObserverContext → ℕ → ℕ → Bytes
on_remove_attachment_from_discussion_thread_message context attachment_id message_id =
    record_blob 69 1
      (context_parts context ++ (uuid_part attachment_id ∷ uuid_part message_id ∷ []))

-- EventType::DELETE_ATTACHMENT
unfoldable pub on_delete_attachment : ObserverContext → ℕ → Bytes
on_delete_attachment context attachment_id =
    record_blob 70 1 (context_parts context ++ (uuid_part attachment_id ∷ []))

-- EventType::INCREMENT_ATTACHMENT_NUMBER_OF_GETS
unfoldable pub on_increment_attachment_number_of_gets : ℕ → ℕ → Bytes
on_increment_attachment_number_of_gets attachment_id number_of_visits = record_blob 71 1 (
    context_parts empty_context
    ++ (uuid_part attachment_id ∷ unsigned_part 4 number_of_visits ∷ []))
