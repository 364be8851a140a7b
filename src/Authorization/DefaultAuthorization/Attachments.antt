-- ===== src/Authorization/DefaultAuthorization/Attachments.antt =====
-- DefaultAuthorization.cpp: what may be done with attachments, and who may see a message or a thread.
pub mod Readers
use forum.Base.{List, [], ◌∷◌, Bool, true, not, ◌&&◌, ◌||◌, ◌==◌, if◌then◌else◌}
use forum.Authorization.Enums.{
  DiscussionThreadMessagePrivilege, DiscussionThreadPrivilege, ForumWidePrivilege,
  UserActionThrottling,
}
use forum.Authorization.Entities.{User, DiscussionThread, DiscussionThreadMessage}
use forum.Authorization.Restriction.{Attachment}
use forum.Authorization.DefaultAuthorization.{
  DefaultAuthorization, Context, AuthorizationStatus, ok, not_allowed, Action, ◌>>◌, answer,
  to_status, is_ok, ok_if, return_if_throttled, with_message, with_thread, with_forum_wide,
}

module _ (a : DefaultAuthorization) (c : Context) (current_user : User) where
  unfoldable pub get_attachments : AuthorizationStatus
  unfolding with_forum_wide
  get_attachments =
      to_status (with_forum_wide a c current_user ForumWidePrivilege.get_all_attachments)

  unfoldable pub get_attachments_of_user : User → AuthorizationStatus
  unfolding with_forum_wide
  get_attachments_of_user user =
      if current_user.id == user.id
      then ok
      else to_status (with_forum_wide a c current_user ForumWidePrivilege.get_attachments_of_user)

  unfoldable pub can_add_attachment : Action
  unfolding return_if_throttled with_forum_wide
  can_add_attachment = do
    return_if_throttled a c current_user UserActionThrottling.new_content
    answer (to_status (with_forum_wide a c current_user ForumWidePrivilege.create_attachment))

  unfoldable pub auto_approve_attachment : AuthorizationStatus
  unfolding with_forum_wide
  auto_approve_attachment =
      to_status (with_forum_wide a c current_user ForumWidePrivilege.auto_approve_attachment)

  unfoldable pub change_attachment_name : Attachment → Action
  unfolding return_if_throttled with_forum_wide
  change_attachment_name attachment = do
    return_if_throttled a c current_user UserActionThrottling.edit_content
    answer (
        if current_user.id == attachment.created_by
        then to_status
            (with_forum_wide a c current_user ForumWidePrivilege.change_own_attachment_name)
        else to_status
            (with_forum_wide a c current_user ForumWidePrivilege.change_any_attachment_name))

  unfoldable pub change_attachment_approval : Attachment → Action
  unfolding return_if_throttled with_forum_wide
  change_attachment_approval _ = do
    return_if_throttled a c current_user UserActionThrottling.edit_content
    answer (
        to_status
          (with_forum_wide a c current_user ForumWidePrivilege.change_any_attachment_approval))

  unfoldable pub delete_attachment : Attachment → Action
  unfolding return_if_throttled with_forum_wide
  delete_attachment attachment = do
    return_if_throttled a c current_user UserActionThrottling.edit_content
    answer (
        if current_user.id == attachment.created_by
        then to_status (with_forum_wide a c current_user ForumWidePrivilege.delete_own_attachment)
        else to_status (with_forum_wide a c current_user ForumWidePrivilege.delete_any_attachment))

  unfoldable pub add_attachment_to_discussion_thread_message :
      Attachment → DiscussionThreadMessage → AuthorizationStatus
  unfolding with_message
  add_attachment_to_discussion_thread_message attachment message =
      if not (current_user.id == attachment.created_by)
      then not_allowed
      else to_status
          (with_message a c current_user message DiscussionThreadMessagePrivilege.add_attachment)

  unfoldable pub add_new_attachment : Action
  unfolding can_add_attachment
  add_new_attachment = can_add_attachment

  unfoldable pub user_allows_thread_approval : DiscussionThread → Bool
  unfolding with_thread
  user_allows_thread_approval thread =
      if thread.approved
      then true
      else thread.created_by == current_user.id
        || is_ok (
            to_status
              (with_thread a c current_user thread DiscussionThreadPrivilege.view_unapproved))

  unfoldable pub user_allowed_to_view_thread : DiscussionThread → Bool
  unfolding with_thread user_allows_thread_approval
  user_allowed_to_view_thread thread =
      is_ok (to_status (with_thread a c current_user thread DiscussionThreadPrivilege.view))
      && user_allows_thread_approval thread

  unfoldable pub user_allows_message_approval : DiscussionThreadMessage → Bool
  unfolding with_message
  user_allows_message_approval message =
      if message.approved
      then true
      else message.created_by == current_user.id
        || is_ok (
            to_status (
              with_message a c current_user message
                DiscussionThreadMessagePrivilege.view_unapproved))

  unfoldable pub user_allowed_to_view_message : DiscussionThreadMessage → Bool
  unfolding with_message user_allows_message_approval user_allowed_to_view_thread
  user_allowed_to_view_message message =
      is_ok
        (to_status (with_message a c current_user message DiscussionThreadMessagePrivilege.view))
      && user_allows_message_approval message
      && user_allowed_to_view_thread message.parent_thread

  -- The body of the loop over the messages that have the attachment.
  unfoldable pub gets_attachment_of_message : Attachment → DiscussionThreadMessage → Bool
  unfolding with_message user_allowed_to_view_message
  gets_attachment_of_message attachment message =
      if current_user.id == message.created_by
      then true
      else is_ok (
          to_status (
            with_message a c current_user message DiscussionThreadMessagePrivilege.view_attachment))
        && (attachment.approved
            || is_ok (
                to_status (
                  with_message a c current_user message
                    DiscussionThreadMessagePrivilege.view_unapproved_attachment)))
        && user_allowed_to_view_message message

  unfoldable pub gets_attachment_of_messages :
      Attachment → List DiscussionThreadMessage → AuthorizationStatus
  unfolding gets_attachment_of_message
  gets_attachment_of_messages attachment [] = not_allowed
  gets_attachment_of_messages attachment (message ∷ messages) =
      let rest = gets_attachment_of_messages attachment messages in
      if gets_attachment_of_message attachment message then ok else rest

  unfoldable pub can_get_attachment : Attachment → AuthorizationStatus
  unfolding with_forum_wide gets_attachment_of_messages
  can_get_attachment attachment =
      if current_user.id == attachment.created_by
      then ok
      else if is_ok
          (to_status (with_forum_wide a c current_user ForumWidePrivilege.get_all_attachments))
      then ok
      else if is_ok
          (to_status (with_forum_wide a c current_user ForumWidePrivilege.get_attachments_of_user))
      then ok
      else gets_attachment_of_messages attachment attachment.messages

  unfoldable pub remove_attachment_from_discussion_thread_message :
      Attachment → DiscussionThreadMessage → Action
  unfolding return_if_throttled with_message with_forum_wide
  remove_attachment_from_discussion_thread_message attachment message = do
    return_if_throttled a c current_user UserActionThrottling.edit_content
    answer (
        ok_if (
          is_ok (
            to_status (
              with_message a c current_user message
                DiscussionThreadMessagePrivilege.remove_attachment))
          || is_ok (
              to_status (with_forum_wide a c current_user ForumWidePrivilege.delete_any_attachment))
          || (current_user.id == attachment.created_by
              && is_ok (
                  to_status
                    (with_forum_wide a c current_user ForumWidePrivilege.delete_own_attachment)))))
