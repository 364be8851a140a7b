-- ===== src/Persistence/Events/Observer/Users.antt =====
-- EventObserver.cpp: what is written for events of users and private messages.
use forum.Base.{ℕ, Option, none, some, Bytes, [], ◌∷◌, ◌++◌}
use forum.Persistence.Payload.{
  ObserverContext, context_parts, uuid_part, string_part, unsigned_part, record_blob,
}

-- EventType::ADD_NEW_USER
unfoldable pub on_add_new_user : ObserverContext → ℕ → Bytes → Bytes → Bytes
on_add_new_user context id auth user_name =
    record_blob 1 1
      (context_parts context ++ (uuid_part id ∷ string_part auth ∷ string_part user_name ∷ []))

-- EventType::CHANGE_USER_NAME
unfoldable pub on_change_user_name : ObserverContext → ℕ → Bytes → Bytes
on_change_user_name context id new_name =
    record_blob 2 1 (context_parts context ++ (uuid_part id ∷ string_part new_name ∷ []))

-- EventType::CHANGE_USER_INFO
unfoldable pub on_change_user_info : ObserverContext → ℕ → Bytes → Bytes
on_change_user_info context id new_info =
    record_blob 3 1 (context_parts context ++ (uuid_part id ∷ string_part new_info ∷ []))

-- EventType::CHANGE_USER_TITLE
unfoldable pub on_change_user_title : ObserverContext → ℕ → Bytes → Bytes
on_change_user_title context id new_title =
    record_blob 4 1 (context_parts context ++ (uuid_part id ∷ string_part new_title ∷ []))

-- EventType::CHANGE_USER_SIGNATURE
unfoldable pub on_change_user_signature : ObserverContext → ℕ → Bytes → Bytes
on_change_user_signature context id new_signature =
    record_blob 5 1 (context_parts context ++ (uuid_part id ∷ string_part new_signature ∷ []))

-- EventType::CHANGE_USER_LOGO
unfoldable pub on_change_user_logo : ObserverContext → ℕ → Bytes → Bytes
on_change_user_logo context id new_logo =
    record_blob 6 1 (context_parts context ++ (uuid_part id ∷ string_part new_logo ∷ []))

-- EventType::DELETE_USER
unfoldable pub on_delete_user : ObserverContext → ℕ → Bytes
on_delete_user context id = record_blob 7 1 (context_parts context ++ (uuid_part id ∷ []))

-- EventType::SEND_PRIVATE_MESSAGE
unfoldable pub on_send_private_message : ObserverContext → ℕ → ℕ → Bytes → Bytes
on_send_private_message context id destination_id content =
    record_blob 62 1 (
      context_parts context ++ (uuid_part id ∷ uuid_part destination_id ∷ string_part content ∷ []))

-- EventType::DELETE_PRIVATE_MESSAGE
unfoldable pub on_delete_private_message : ObserverContext → ℕ → Bytes
on_delete_private_message context id =
    record_blob 63 1 (context_parts context ++ (uuid_part id ∷ []))

-- EventType::CHANGE_USER_ATTACHMENT_QUOTA. A user without a quota is written with one of 0.
unfoldable pub on_change_user_attachment_quota : ObserverContext → ℕ → Option ℕ → Bytes
on_change_user_attachment_quota context id attachment_quota =
    let quota : ℕ = elim attachment_quota [ none ↦ 0 | some own ↦ own ] in
    record_blob 64 1 (context_parts context ++ (uuid_part id ∷ unsigned_part 8 quota ∷ []))
