-- ===== src/Authorization/DefaultAuthorization/Messages.antt =====
-- DefaultAuthorization.cpp: what may be done with messages of threads and their comments.
pub mod Votes
use forum.Base.{some, ◌==◌}
use forum.Authorization.Enums.{
  DiscussionThreadMessagePrivilege, DiscussionThreadPrivilege, DiscussionTagPrivilege,
  ForumWidePrivilege, UserActionThrottling,
}
use forum.Authorization.Entities.{
  User, DiscussionTag, DiscussionThread, DiscussionThreadMessage, is_anonymous_user,
}
use forum.Authorization.DefaultAuthorization.{
  DefaultAuthorization, Context, AuthorizationStatus, not_allowed, Action, ◌>>◌, answer, return_if,
  unless_empty, to_status, return_if_throttled, with_message, with_thread, with_tag,
  with_forum_wide,
}

pub record MessageComment : Type 0 where
  pub parent_message : DiscussionThreadMessage

module _ (a : DefaultAuthorization) (c : Context) (current_user : User) where
  unfoldable pub get_discussion_thread_message_required_privileges :
      DiscussionThreadMessage → AuthorizationStatus
  unfolding with_message
  get_discussion_thread_message_required_privileges message = to_status (
      with_message a c current_user message
        DiscussionThreadMessagePrivilege.view_required_privileges)

  unfoldable pub get_discussion_thread_message_assigned_privileges :
      DiscussionThreadMessage → AuthorizationStatus
  unfolding with_message
  get_discussion_thread_message_assigned_privileges message = to_status (
      with_message a c current_user message
        DiscussionThreadMessagePrivilege.view_assigned_privileges)

  unfoldable pub get_discussion_thread_message_by_id : DiscussionThreadMessage → AuthorizationStatus
  unfolding with_message
  get_discussion_thread_message_by_id message =
      to_status (with_message a c current_user message DiscussionThreadMessagePrivilege.view)

  unfoldable pub get_allow_discussion_thread_message_privilege_change :
      DiscussionThreadMessage → AuthorizationStatus
  unfolding with_message
  get_allow_discussion_thread_message_privilege_change message =
      to_status
        (with_message a c current_user message DiscussionThreadMessagePrivilege.adjust_privilege)

  unfoldable pub get_discussion_thread_messages_of_user_by_created : User → AuthorizationStatus
  unfolding with_forum_wide
  get_discussion_thread_messages_of_user_by_created _ =
      to_status
        (with_forum_wide a c current_user ForumWidePrivilege.get_discussion_thread_messages_of_user)

  unfoldable pub get_discussion_thread_message_rank : DiscussionThreadMessage → AuthorizationStatus
  unfolding with_message
  get_discussion_thread_message_rank message =
      to_status (with_message a c current_user message DiscussionThreadMessagePrivilege.view)

  unfoldable pub get_message_comments : AuthorizationStatus
  unfolding with_forum_wide
  get_message_comments =
      to_status (with_forum_wide a c current_user ForumWidePrivilege.get_all_message_comments)

  unfoldable pub get_message_comments_of_discussion_thread_message :
      DiscussionThreadMessage → AuthorizationStatus
  unfolding with_message
  get_message_comments_of_discussion_thread_message message =
      to_status (
        with_message a c current_user message DiscussionThreadMessagePrivilege.get_message_comments)

  unfoldable pub get_message_comments_of_user : User → AuthorizationStatus
  unfolding with_forum_wide
  get_message_comments_of_user _ =
      to_status (with_forum_wide a c current_user ForumWidePrivilege.get_message_comments_of_user)

  unfoldable pub add_new_discussion_message_in_thread : DiscussionThread → Action
  unfolding return_if_throttled with_thread
  add_new_discussion_message_in_thread thread = do
    unless_empty thread (return_if_throttled a c current_user UserActionThrottling.new_content)
    answer (to_status (with_thread a c current_user thread DiscussionThreadPrivilege.add_message))

  unfoldable pub auto_approve_discussion_message_in_thread : DiscussionThread → AuthorizationStatus
  unfolding with_thread
  auto_approve_discussion_message_in_thread thread =
      to_status (with_thread a c current_user thread DiscussionThreadPrivilege.auto_approve_message)

  unfoldable pub delete_discussion_message : DiscussionThreadMessage → Action
  unfolding return_if_throttled with_message
  delete_discussion_message message = do
    return_if_throttled a c current_user UserActionThrottling.edit_content
    answer
        (to_status (with_message a c current_user message DiscussionThreadMessagePrivilege.delete))

  unfoldable pub change_discussion_thread_message_content : DiscussionThreadMessage → Action
  unfolding return_if_throttled with_message
  change_discussion_thread_message_content message = do
    return_if_throttled a c current_user UserActionThrottling.edit_content
    answer (
        to_status
          (with_message a c current_user message DiscussionThreadMessagePrivilege.change_content))

  unfoldable pub change_discussion_thread_message_approval : DiscussionThreadMessage → Action
  unfolding return_if_throttled with_message
  change_discussion_thread_message_approval message = do
    return_if_throttled a c current_user UserActionThrottling.edit_content
    answer (
        to_status
          (with_message a c current_user message DiscussionThreadMessagePrivilege.change_approval))

  unfoldable pub move_discussion_thread_message :
      DiscussionThreadMessage → DiscussionThread → Action
  unfolding return_if_throttled with_message
  move_discussion_thread_message message _ = do
    return_if_throttled a c current_user UserActionThrottling.edit_content
    answer (to_status (with_message a c current_user message DiscussionThreadMessagePrivilege.move))

  unfoldable pub up_vote_discussion_thread_message : DiscussionThreadMessage → Action
  unfolding is_anonymous_user return_if_throttled with_message
  up_vote_discussion_thread_message message = do
    return_if (current_user.id == message.created_by) not_allowed
    return_if (is_anonymous_user (some current_user)) not_allowed
    return_if_throttled a c current_user UserActionThrottling.vote
    answer
        (to_status (with_message a c current_user message DiscussionThreadMessagePrivilege.up_vote))

  unfoldable pub down_vote_discussion_thread_message : DiscussionThreadMessage → Action
  unfolding is_anonymous_user return_if_throttled with_message
  down_vote_discussion_thread_message message = do
    return_if (current_user.id == message.created_by) not_allowed
    return_if (is_anonymous_user (some current_user)) not_allowed
    return_if_throttled a c current_user UserActionThrottling.vote
    answer (
        to_status
          (with_message a c current_user message DiscussionThreadMessagePrivilege.down_vote))

  unfoldable pub reset_vote_discussion_thread_message : DiscussionThreadMessage → Action
  unfolding is_anonymous_user return_if_throttled with_message
  reset_vote_discussion_thread_message message = do
    return_if (current_user.id == message.created_by) not_allowed
    return_if (is_anonymous_user (some current_user)) not_allowed
    return_if_throttled a c current_user UserActionThrottling.vote
    answer (
        to_status
          (with_message a c current_user message DiscussionThreadMessagePrivilege.reset_vote))

  unfoldable pub add_comment_to_discussion_thread_message : DiscussionThreadMessage → Action
  unfolding return_if_throttled with_message
  add_comment_to_discussion_thread_message message = do
    return_if_throttled a c current_user UserActionThrottling.new_content
    answer (
        to_status
          (with_message a c current_user message DiscussionThreadMessagePrivilege.add_comment))

  unfoldable pub set_message_comment_to_solved : MessageComment → Action
  unfolding return_if_throttled with_message
  set_message_comment_to_solved comment = do
    return_if_throttled a c current_user UserActionThrottling.edit_content
    answer (
        to_status (
          with_message a c current_user comment.parent_message
            DiscussionThreadMessagePrivilege.set_comment_to_solved))

  unfoldable pub get_discussion_tag_required_privileges : DiscussionTag → AuthorizationStatus
  unfolding with_tag
  get_discussion_tag_required_privileges tag =
      to_status (with_tag a c current_user tag DiscussionTagPrivilege.view_required_privileges)

  unfoldable pub get_discussion_tag_assigned_privileges : DiscussionTag → AuthorizationStatus
  unfolding with_tag
  get_discussion_tag_assigned_privileges tag =
      to_status (with_tag a c current_user tag DiscussionTagPrivilege.view_assigned_privileges)
