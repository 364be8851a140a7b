-- ===== src/Persistence/Events/Observer/Assignments.antt =====
-- EventObserver.cpp: what is written for events of granted privileges.
use forum.Base.Int.{ℤ}
use forum.Base.{ℕ, Bytes, [], ◌∷◌, ◌++◌}
use forum.Persistence.Payload.{ObserverContext, context_parts, uuid_part, signed_part, record_blob}

-- EventType::ASSIGN_DISCUSSION_THREAD_MESSAGE_PRIVILEGE
unfoldable pub on_assign_discussion_thread_message_privilege :
    ObserverContext → ℕ → ℕ → ℤ → ℤ → Bytes
on_assign_discussion_thread_message_privilege context message_id user_id current_privilege_value
      current_duration_value =
    record_blob 53 1 (
      context_parts context
      ++ (uuid_part message_id
          ∷ uuid_part user_id
          ∷ signed_part 2 current_privilege_value
          ∷ signed_part 8 current_duration_value
          ∷ []))

-- EventType::ASSIGN_DISCUSSION_THREAD_PRIVILEGE
unfoldable pub on_assign_discussion_thread_privilege : ObserverContext → ℕ → ℕ → ℤ → ℤ → Bytes
on_assign_discussion_thread_privilege context thread_id user_id current_privilege_value
      current_duration_value =
    record_blob 54 1 (
      context_parts context
      ++ (uuid_part thread_id
          ∷ uuid_part user_id
          ∷ signed_part 2 current_privilege_value
          ∷ signed_part 8 current_duration_value
          ∷ []))

-- EventType::ASSIGN_DISCUSSION_TAG_PRIVILEGE
unfoldable pub on_assign_discussion_tag_privilege : ObserverContext → ℕ → ℕ → ℤ → ℤ → Bytes
on_assign_discussion_tag_privilege context tag_id user_id current_privilege_value
      current_duration_value =
    record_blob 55 1 (
      context_parts context
      ++ (uuid_part tag_id
          ∷ uuid_part user_id
          ∷ signed_part 2 current_privilege_value
          ∷ signed_part 8 current_duration_value
          ∷ []))

-- EventType::ASSIGN_DISCUSSION_CATEGORY_PRIVILEGE
unfoldable pub on_assign_discussion_category_privilege : ObserverContext → ℕ → ℕ → ℤ → ℤ → Bytes
on_assign_discussion_category_privilege context category_id user_id current_privilege_value
      current_duration_value =
    record_blob 56 1 (
      context_parts context
      ++ (uuid_part category_id
          ∷ uuid_part user_id
          ∷ signed_part 2 current_privilege_value
          ∷ signed_part 8 current_duration_value
          ∷ []))

-- EventType::ASSIGN_FORUM_WIDE_PRIVILEGE
unfoldable pub on_assign_forum_wide_privilege : ObserverContext → ℕ → ℤ → ℤ → Bytes
on_assign_forum_wide_privilege context user_id current_privilege_value current_duration_value =
    record_blob 57 1 (
      context_parts context
      ++ (uuid_part user_id
          ∷ signed_part 2 current_privilege_value
          ∷ signed_part 8 current_duration_value
          ∷ []))
