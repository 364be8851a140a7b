-- ===== src/Authorization/DefaultAuthorization/Attachments/Readers.antt =====
-- Who may see a message, and who gets an attachment. DefaultAuthorization.cpp.
use forum.Base.Int.{pos}
use forum.Base.All.{Any}
use forum.Base.{
  List, [], ◌∷◌, none, some, true, is_some, ◌==◌, ◌&&◌, ◌||◌, ◌≡◌, ◌↔◌, ◌⊎◌, inl, inr, refl, sym,
  ◌∙◌, Bool-cases, arith, if◌then◌else◌,
}
use forum.Authorization.Privileges.{PrivilegeValueType}
use forum.Authorization.Enums.{
  DiscussionThreadMessagePrivilege, ForumWidePrivilege, message_position, thread_position,
}
use forum.Authorization.Entities.{User, DiscussionThreadMessage}
use forum.Authorization.Restriction.{
  Attachment, user_id_or_empty, allows_message, allows_thread, check_message_allow_view_approval,
  check_thread_allow_view_approval, is_allowed_to_view_thread, is_allowed_to_view_message,
}
use forum.Authorization.DefaultAuthorization.{
  DefaultAuthorization, Context, ok, to_status, is_ok, with_message, with_thread, with_forum_wide,
}
use forum.Authorization.DefaultAuthorization.Attachments.{
  user_allows_thread_approval, user_allowed_to_view_thread, user_allows_message_approval,
  user_allowed_to_view_message, gets_attachment_of_message, gets_attachment_of_messages,
  can_get_attachment,
}

is_ok-to_status : (v : PrivilegeValueType) → is_ok (to_status v) ≡ is_some v
is_ok-to_status none = refl
is_ok-to_status (some v) = refl

module _ (a : DefaultAuthorization) (c : Context) (user : User) where
  -- For a user, the rule whether a message may be viewed and the restriction that an answer is
  -- written with agree on every message, whatever the stores and the time.
  pub user_allowed_to_view_message-is_allowed :
      (message : DiscussionThreadMessage)
      → user_allowed_to_view_message a c user message
        ≡ is_allowed_to_view_message a.forum_wide_privilege_store a.granted_privilege_store
            (some user)
            (pos c.current_time)
            message
  unfolding user_allowed_to_view_message user_allows_message_approval is_allowed_to_view_message
      check_message_allow_view_approval user_id_or_empty allows_message with_message
      message_position user_allowed_to_view_thread user_allows_thread_approval with_thread
      thread_position allows_thread is_allowed_to_view_thread check_thread_allow_view_approval
  user_allowed_to_view_message-is_allowed message = simp is_ok-to_status

  -- The message lets the user have the attachment: the user wrote it, or may see its attachments, this
  -- one in particular where it is not approved, and the message itself.
  abbrev pub LetsHave : Attachment → DiscussionThreadMessage → Type 0
  LetsHave attachment message =
      (user.id ≡ message.created_by)
      ⊎ ((is_some (with_message a c user message DiscussionThreadMessagePrivilege.view_attachment)
            ≡ true)
          × ((attachment.approved ≡ true)
              ⊎ (is_some (
                    with_message a c user message
                      DiscussionThreadMessagePrivilege.view_unapproved_attachment)
                  ≡ true))
          × (is_allowed_to_view_message a.forum_wide_privilege_store a.granted_privilege_store
                (some user) (pos c.current_time) message
              ≡ true))

  opened :
      (attachment : Attachment) (message : DiscussionThreadMessage)
      → gets_attachment_of_message a c user attachment message ≡ (
          if user.id == message.created_by
          then true
          else is_some
              (with_message a c user message DiscussionThreadMessagePrivilege.view_attachment)
            && (attachment.approved
                || is_some (
                    with_message a c user message
                      DiscussionThreadMessagePrivilege.view_unapproved_attachment))
            && user_allowed_to_view_message a c user message)
  unfolding gets_attachment_of_message
  opened attachment message = simp is_ok-to_status

  gets_attachment_of_message-LetsHave :
      (attachment : Attachment) (message : DiscussionThreadMessage)
      → (gets_attachment_of_message a c user attachment message ≡ true)
        ↔ LetsHave attachment message
  gets_attachment_of_message-LetsHave attachment message =
      let e = user_allowed_to_view_message-is_allowed message in
      let f = opened attachment message in (λ h. ground arith, λ h. ground arith)

  none_left :
      (attachment : Attachment) → gets_attachment_of_messages a c user attachment [] ≡ ok → ⊥
  unfolding gets_attachment_of_messages
  none_left attachment h = ground arith

  one_more :
      (attachment : Attachment) (message : DiscussionThreadMessage)
      (messages : List DiscussionThreadMessage)
      → gets_attachment_of_messages a c user attachment (message ∷ messages) ≡ (
          if gets_attachment_of_message a c user attachment message
          then ok
          else gets_attachment_of_messages a c user attachment messages)
  unfolding gets_attachment_of_messages
  one_more attachment message messages = refl

  opened_get :
      (attachment : Attachment)
      → can_get_attachment a c user attachment ≡ (
          if user.id == attachment.created_by
          then ok
          else if is_some (with_forum_wide a c user ForumWidePrivilege.get_all_attachments)
          then ok
          else if is_some (with_forum_wide a c user ForumWidePrivilege.get_attachments_of_user)
          then ok
          else gets_attachment_of_messages a c user attachment attachment.messages)
  unfolding can_get_attachment
  opened_get attachment = simp is_ok-to_status

  gets_attachment_of_messages-Any :
      (attachment : Attachment) (messages : List DiscussionThreadMessage)
      → (gets_attachment_of_messages a c user attachment messages ≡ ok)
        ↔ Any (LetsHave attachment) messages
  gets_attachment_of_messages-Any attachment [] = (λ h. none_left attachment h, λ h. absurd h)
  gets_attachment_of_messages-Any attachment (message ∷ messages) =
      let (one, other) = gets_attachment_of_message-LetsHave attachment message in
      let (some_left, back) = gets_attachment_of_messages-Any attachment messages in
      let e = one_more attachment message messages in
      elim (Bool-cases (gets_attachment_of_message a c user attachment message)) [
        | inl t ↦ (λ h. inl (one t), λ h. e ∙ rw t refl)
        | inr f ↦ (
          λ h. inr (some_left (sym (e ∙ rw f refl) ∙ h)),
          λ h. elim h [
            | inl k ↦ absurd (ground (arith, other k))
            | inr k ↦ (e ∙ rw f refl) ∙ back k
          ],
        )
      ]

  -- An attachment is given exactly to who made it, to who may get all attachments or those of a user, and
  -- to who wrote a message that has it, or may see the attachments of such a message, this one in
  -- particular where it is not approved, and the message itself as answers are restricted to.
  pub can_get_attachment-LetsHave :
      (attachment : Attachment)
      → ((can_get_attachment a c user attachment ≡ ok) ↔ (
          (user.id ≡ attachment.created_by)
          ⊎ ((is_some (with_forum_wide a c user ForumWidePrivilege.get_all_attachments) ≡ true)
              ⊎ ((is_some (with_forum_wide a c user ForumWidePrivilege.get_attachments_of_user)
                    ≡ true)
                  ⊎ Any (LetsHave attachment) attachment.messages))))
  can_get_attachment-LetsHave attachment =
      let (one, other) = gets_attachment_of_messages-Any attachment attachment.messages in
      let e = opened_get attachment in (λ h. ground arith, λ h. ground arith)
