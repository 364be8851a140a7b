-- ===== src/Persistence/Events/Observer/Tags.antt =====
-- EventObserver.cpp: what is written for events of tags.
use forum.Base.{ℕ, Bytes, [], ◌∷◌, ◌++◌}
use forum.Persistence.Payload.{ObserverContext, context_parts, uuid_part, string_part, record_blob}

-- EventType::ADD_NEW_DISCUSSION_TAG
unfoldable pub on_add_new_discussion_tag : ObserverContext → ℕ → Bytes → Bytes
on_add_new_discussion_tag context id tag_name =
    record_blob 25 1 (context_parts context ++ (uuid_part id ∷ string_part tag_name ∷ []))

-- EventType::CHANGE_DISCUSSION_TAG_NAME
unfoldable pub on_change_discussion_tag_name : ObserverContext → ℕ → Bytes → Bytes
on_change_discussion_tag_name context id tag_name =
    record_blob 26 1 (context_parts context ++ (uuid_part id ∷ string_part tag_name ∷ []))

-- EventType::CHANGE_DISCUSSION_TAG_UI_BLOB
unfoldable pub on_change_discussion_tag_ui_blob : ObserverContext → ℕ → Bytes → Bytes
on_change_discussion_tag_ui_blob context id ui_blob =
    record_blob 27 1 (context_parts context ++ (uuid_part id ∷ string_part ui_blob ∷ []))

-- EventType::DELETE_DISCUSSION_TAG
unfoldable pub on_delete_discussion_tag : ObserverContext → ℕ → Bytes
on_delete_discussion_tag context id =
    record_blob 28 1 (context_parts context ++ (uuid_part id ∷ []))

-- EventType::ADD_DISCUSSION_TAG_TO_THREAD
unfoldable pub on_add_discussion_tag_to_thread : ObserverContext → ℕ → ℕ → Bytes
on_add_discussion_tag_to_thread context tag_id thread_id =
    record_blob 29 1 (context_parts context ++ (uuid_part tag_id ∷ uuid_part thread_id ∷ []))

-- EventType::REMOVE_DISCUSSION_TAG_FROM_THREAD
unfoldable pub on_remove_discussion_tag_from_thread : ObserverContext → ℕ → ℕ → Bytes
on_remove_discussion_tag_from_thread context tag_id thread_id =
    record_blob 30 1 (context_parts context ++ (uuid_part tag_id ∷ uuid_part thread_id ∷ []))

-- EventType::MERGE_DISCUSSION_TAGS
unfoldable pub on_merge_discussion_tags : ObserverContext → ℕ → ℕ → Bytes
on_merge_discussion_tags context from_tag_id into_tag_id =
    record_blob 31 1 (context_parts context ++ (uuid_part from_tag_id ∷ uuid_part into_tag_id ∷ []))
