-- ===== src/Persistence/Events/Observer/Requirements.antt =====
-- EventObserver.cpp: what is written for events of required privileges.
use forum.Base.Int.{ℤ}
use forum.Base.{ℕ, Bytes, [], ◌∷◌, ◌++◌}
use forum.Persistence.Payload.{
  ObserverContext, context_parts, uuid_part, unsigned_part, signed_part, record_blob,
}

-- EventType::CHANGE_DISCUSSION_THREAD_MESSAGE_REQUIRED_PRIVILEGE_FOR_THREAD_MESSAGE
unfoldable pub on_change_discussion_thread_message_required_privilege_for_thread_message :
    ObserverContext → ℕ → ℕ → ℤ → Bytes
on_change_discussion_thread_message_required_privilege_for_thread_message context message_id
      current_privilege current_privilege_value =
    record_blob 40 1 (
      context_parts context
      ++ (uuid_part message_id
          ∷ unsigned_part 2 current_privilege
          ∷ signed_part 2 current_privilege_value
          ∷ []))

-- EventType::CHANGE_DISCUSSION_THREAD_MESSAGE_REQUIRED_PRIVILEGE_FOR_THREAD
unfoldable pub on_change_discussion_thread_message_required_privilege_for_thread :
    ObserverContext → ℕ → ℕ → ℤ → Bytes
on_change_discussion_thread_message_required_privilege_for_thread context thread_id
      current_privilege current_privilege_value =
    record_blob 41 1 (
      context_parts context
      ++ (uuid_part thread_id
          ∷ unsigned_part 2 current_privilege
          ∷ signed_part 2 current_privilege_value
          ∷ []))

-- EventType::CHANGE_DISCUSSION_THREAD_MESSAGE_REQUIRED_PRIVILEGE_FOR_TAG
unfoldable pub on_change_discussion_thread_message_required_privilege_for_tag :
    ObserverContext → ℕ → ℕ → ℤ → Bytes
on_change_discussion_thread_message_required_privilege_for_tag context tag_id current_privilege
      current_privilege_value =
    record_blob 42 1 (
      context_parts context
      ++ (uuid_part tag_id
          ∷ unsigned_part 2 current_privilege
          ∷ signed_part 2 current_privilege_value
          ∷ []))

-- EventType::CHANGE_DISCUSSION_THREAD_MESSAGE_REQUIRED_PRIVILEGE_FORUM_WIDE
unfoldable pub on_change_discussion_thread_message_required_privilege_forum_wide :
    ObserverContext → ℕ → ℤ → Bytes
on_change_discussion_thread_message_required_privilege_forum_wide context current_privilege
      current_privilege_value =
    record_blob 43 1 (
      context_parts context
      ++ (unsigned_part 2 current_privilege ∷ signed_part 2 current_privilege_value ∷ []))

-- EventType::CHANGE_DISCUSSION_THREAD_REQUIRED_PRIVILEGE_FOR_THREAD
unfoldable pub on_change_discussion_thread_required_privilege_for_thread :
    ObserverContext → ℕ → ℕ → ℤ → Bytes
on_change_discussion_thread_required_privilege_for_thread context thread_id current_privilege
      current_privilege_value =
    record_blob 44 1 (
      context_parts context
      ++ (uuid_part thread_id
          ∷ unsigned_part 2 current_privilege
          ∷ signed_part 2 current_privilege_value
          ∷ []))

-- EventType::CHANGE_DISCUSSION_THREAD_REQUIRED_PRIVILEGE_FOR_TAG
unfoldable pub on_change_discussion_thread_required_privilege_for_tag :
    ObserverContext → ℕ → ℕ → ℤ → Bytes
on_change_discussion_thread_required_privilege_for_tag context tag_id current_privilege
      current_privilege_value =
    record_blob 45 1 (
      context_parts context
      ++ (uuid_part tag_id
          ∷ unsigned_part 2 current_privilege
          ∷ signed_part 2 current_privilege_value
          ∷ []))

-- EventType::CHANGE_DISCUSSION_THREAD_REQUIRED_PRIVILEGE_FORUM_WIDE
unfoldable pub on_change_discussion_thread_required_privilege_forum_wide :
    ObserverContext → ℕ → ℤ → Bytes
on_change_discussion_thread_required_privilege_forum_wide context current_privilege
      current_privilege_value =
    record_blob 46 1 (
      context_parts context
      ++ (unsigned_part 2 current_privilege ∷ signed_part 2 current_privilege_value ∷ []))

-- EventType::CHANGE_DISCUSSION_TAG_REQUIRED_PRIVILEGE_FOR_TAG
unfoldable pub on_change_discussion_tag_required_privilege_for_tag :
    ObserverContext → ℕ → ℕ → ℤ → Bytes
on_change_discussion_tag_required_privilege_for_tag context tag_id current_privilege
      current_privilege_value =
    record_blob 47 1 (
      context_parts context
      ++ (uuid_part tag_id
          ∷ unsigned_part 2 current_privilege
          ∷ signed_part 2 current_privilege_value
          ∷ []))

-- EventType::CHANGE_DISCUSSION_TAG_REQUIRED_PRIVILEGE_FORUM_WIDE
unfoldable pub on_change_discussion_tag_required_privilege_forum_wide :
    ObserverContext → ℕ → ℤ → Bytes
on_change_discussion_tag_required_privilege_forum_wide context current_privilege
      current_privilege_value =
    record_blob 48 1 (
      context_parts context
      ++ (unsigned_part 2 current_privilege ∷ signed_part 2 current_privilege_value ∷ []))

-- EventType::CHANGE_DISCUSSION_CATEGORY_REQUIRED_PRIVILEGE_FOR_CATEGORY
unfoldable pub on_change_discussion_category_required_privilege_for_category :
    ObserverContext → ℕ → ℕ → ℤ → Bytes
on_change_discussion_category_required_privilege_for_category context category_id current_privilege
      current_privilege_value =
    record_blob 49 1 (
      context_parts context
      ++ (uuid_part category_id
          ∷ unsigned_part 2 current_privilege
          ∷ signed_part 2 current_privilege_value
          ∷ []))

-- EventType::CHANGE_DISCUSSION_CATEGORY_REQUIRED_PRIVILEGE_FORUM_WIDE
unfoldable pub on_change_discussion_category_required_privilege_forum_wide :
    ObserverContext → ℕ → ℤ → Bytes
on_change_discussion_category_required_privilege_forum_wide context current_privilege
      current_privilege_value =
    record_blob 50 1 (
      context_parts context
      ++ (unsigned_part 2 current_privilege ∷ signed_part 2 current_privilege_value ∷ []))

-- EventType::CHANGE_FORUM_WIDE_REQUIRED_PRIVILEGE
unfoldable pub on_change_forum_wide_required_privilege : ObserverContext → ℕ → ℤ → Bytes
on_change_forum_wide_required_privilege context current_privilege current_privilege_value =
    record_blob 51 1 (
      context_parts context
      ++ (unsigned_part 2 current_privilege ∷ signed_part 2 current_privilege_value ∷ []))

-- EventType::CHANGE_FORUM_WIDE_DEFAULT_PRIVILEGE_LEVEL
unfoldable pub on_change_forum_wide_default_privilege_level : ObserverContext → ℕ → ℤ → ℤ → Bytes
on_change_forum_wide_default_privilege_level context current_privilege_duration current_value
      current_duration =
    record_blob 52 1 (
      context_parts context
      ++ (unsigned_part 2 current_privilege_duration
          ∷ signed_part 2 current_value
          ∷ signed_part 8 current_duration
          ∷ []))
