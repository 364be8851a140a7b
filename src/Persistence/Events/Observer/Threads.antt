-- ===== src/Persistence/Events/Observer/Threads.antt =====
-- EventObserver.cpp: what is written for events of threads.
use forum.Base.{ℕ, Bool, Bytes, [], ◌∷◌, ◌++◌}
use forum.Persistence.Payload.{
  ObserverContext, context_parts, uuid_part, string_part, unsigned_part, flag_part, record_blob,
}

-- EventType::ADD_NEW_DISCUSSION_THREAD
unfoldable pub on_add_new_discussion_thread : ObserverContext → ℕ → Bytes → Bool → Bytes
on_add_new_discussion_thread context id thread_name approved =
    record_blob 8 2
      (context_parts context ++ (uuid_part id ∷ string_part thread_name ∷ flag_part approved ∷ []))

-- EventType::CHANGE_DISCUSSION_THREAD_NAME
unfoldable pub on_change_discussion_thread_name : ObserverContext → ℕ → Bytes → Bytes
on_change_discussion_thread_name context id thread_name =
    record_blob 9 1 (context_parts context ++ (uuid_part id ∷ string_part thread_name ∷ []))

-- EventType::CHANGE_DISCUSSION_THREAD_PIN_DISPLAY_ORDER
unfoldable pub on_change_discussion_thread_pin_display_order : ObserverContext → ℕ → ℕ → Bytes
on_change_discussion_thread_pin_display_order context id pin_display_order =
    record_blob 10 1
      (context_parts context ++ (uuid_part id ∷ unsigned_part 2 pin_display_order ∷ []))

-- EventType::DELETE_DISCUSSION_THREAD
unfoldable pub on_delete_discussion_thread : ObserverContext → ℕ → Bytes
on_delete_discussion_thread context id =
    record_blob 11 1 (context_parts context ++ (uuid_part id ∷ []))

-- EventType::MERGE_DISCUSSION_THREADS
unfoldable pub on_merge_discussion_threads : ObserverContext → ℕ → ℕ → Bytes
on_merge_discussion_threads context from_thread_id into_thread_id =
    record_blob 12 1
      (context_parts context ++ (uuid_part from_thread_id ∷ uuid_part into_thread_id ∷ []))

-- EventType::SUBSCRIBE_TO_DISCUSSION_THREAD
unfoldable pub on_subscribe_to_discussion_thread : ObserverContext → ℕ → Bytes
on_subscribe_to_discussion_thread context id =
    record_blob 13 1 (context_parts context ++ (uuid_part id ∷ []))

-- EventType::UNSUBSCRIBE_FROM_DISCUSSION_THREAD
unfoldable pub on_unsubscribe_from_discussion_thread : ObserverContext → ℕ → Bytes
on_unsubscribe_from_discussion_thread context id =
    record_blob 14 1 (context_parts context ++ (uuid_part id ∷ []))

-- EventType::CHANGE_DISCUSSION_THREAD_APPROVAL
unfoldable pub on_change_discussion_thread_approval : ObserverContext → ℕ → Bool → Bytes
on_change_discussion_thread_approval context thread_id approved =
    record_blob 61 1 (context_parts context ++ (uuid_part thread_id ∷ flag_part approved ∷ []))
