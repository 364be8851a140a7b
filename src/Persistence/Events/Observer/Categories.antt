-- ===== src/Persistence/Events/Observer/Categories.antt =====
-- EventObserver.cpp: what is written for events of categories.
use forum.Base.Int.{ℤ}
use forum.Base.{ℕ, Bytes, [], ◌∷◌, ◌++◌}
use forum.Persistence.Payload.{
  ObserverContext, context_parts, uuid_part, string_part, signed_part, record_blob,
}

-- EventType::ADD_NEW_DISCUSSION_CATEGORY
unfoldable pub on_add_new_discussion_category : ObserverContext → ℕ → ℕ → Bytes → Bytes
on_add_new_discussion_category context category_id parent_id category_name = record_blob 32 1 (
    context_parts context
    ++ (uuid_part category_id ∷ uuid_part parent_id ∷ string_part category_name ∷ []))

-- EventType::CHANGE_DISCUSSION_CATEGORY_NAME
unfoldable pub on_change_discussion_category_name : ObserverContext → ℕ → Bytes → Bytes
on_change_discussion_category_name context id category_name =
    record_blob 33 1 (context_parts context ++ (uuid_part id ∷ string_part category_name ∷ []))

-- EventType::CHANGE_DISCUSSION_CATEGORY_DESCRIPTION
unfoldable pub on_change_discussion_category_description : ObserverContext → ℕ → Bytes → Bytes
on_change_discussion_category_description context id description =
    record_blob 34 1 (context_parts context ++ (uuid_part id ∷ string_part description ∷ []))

-- EventType::CHANGE_DISCUSSION_CATEGORY_DISPLAY_ORDER
unfoldable pub on_change_discussion_category_display_order : ObserverContext → ℕ → ℤ → Bytes
on_change_discussion_category_display_order context id display_order =
    record_blob 35 1 (context_parts context ++ (uuid_part id ∷ signed_part 2 display_order ∷ []))

-- EventType::CHANGE_DISCUSSION_CATEGORY_PARENT
unfoldable pub on_change_discussion_category_parent : ObserverContext → ℕ → ℕ → Bytes
on_change_discussion_category_parent context category_id parent_id =
    record_blob 36 1 (context_parts context ++ (uuid_part category_id ∷ uuid_part parent_id ∷ []))

-- EventType::DELETE_DISCUSSION_CATEGORY
unfoldable pub on_delete_discussion_category : ObserverContext → ℕ → Bytes
on_delete_discussion_category context id =
    record_blob 37 1 (context_parts context ++ (uuid_part id ∷ []))

-- EventType::ADD_DISCUSSION_TAG_TO_CATEGORY
unfoldable pub on_add_discussion_tag_to_category : ObserverContext → ℕ → ℕ → Bytes
on_add_discussion_tag_to_category context tag_id category_id =
    record_blob 38 1 (context_parts context ++ (uuid_part tag_id ∷ uuid_part category_id ∷ []))

-- EventType::REMOVE_DISCUSSION_TAG_FROM_CATEGORY
unfoldable pub on_remove_discussion_tag_from_category : ObserverContext → ℕ → ℕ → Bytes
on_remove_discussion_tag_from_category context tag_id category_id =
    record_blob 39 1 (context_parts context ++ (uuid_part tag_id ∷ uuid_part category_id ∷ []))
