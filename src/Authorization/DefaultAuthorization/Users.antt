-- ===== src/Authorization/DefaultAuthorization/Users.antt =====
-- DefaultAuthorization.cpp: what may be done with users and private messages.
pub mod Targets
use forum.Base.{ℕ, ◌||◌, ◌==◌, if◌then◌else◌}
use forum.Authorization.Enums.{DiscussionThreadPrivilege, ForumWidePrivilege, UserActionThrottling}
use forum.Authorization.Entities.{User, DiscussionThread}
use forum.Authorization.DefaultAuthorization.{
  DefaultAuthorization, Context, AuthorizationStatus, ok, not_allowed, throttled, Action, ◌>>◌,
  answer, to_status, return_if_throttled, with_thread, with_forum_wide, allowed_on_user,
}

pub record PrivateMessage : Type 0 where
  pub source : ℕ
  pub destination : ℕ

module _ (a : DefaultAuthorization) (c : Context) (current_user : User) where
  unfoldable pub get_users : AuthorizationStatus
  unfolding with_forum_wide
  get_users = to_status (with_forum_wide a c current_user ForumWidePrivilege.get_all_users)

  unfoldable pub get_user_by_id : User → AuthorizationStatus
  get_user_by_id _ = ok

  unfoldable pub get_user_by_name : User → AuthorizationStatus
  get_user_by_name _ = ok

  unfoldable pub add_new_user : Action
  unfolding return_if_throttled with_forum_wide
  add_new_user = do
    return_if_throttled a c current_user UserActionThrottling.new_content
    answer (to_status (with_forum_wide a c current_user ForumWidePrivilege.add_user))

  unfoldable pub change_user_name : User → Action
  unfolding allowed_on_user return_if_throttled with_forum_wide
  change_user_name user = do
    return_if_throttled a c current_user UserActionThrottling.edit_content
    answer (
        if current_user.id == user.id
        then to_status (with_forum_wide a c current_user ForumWidePrivilege.change_own_user_name)
        else allowed_on_user a c current_user ForumWidePrivilege.change_any_user_name user)

  unfoldable pub change_user_info : User → Action
  unfolding allowed_on_user return_if_throttled with_forum_wide
  change_user_info user = do
    return_if_throttled a c current_user UserActionThrottling.edit_content
    answer (
        if current_user.id == user.id
        then to_status (with_forum_wide a c current_user ForumWidePrivilege.change_own_user_info)
        else allowed_on_user a c current_user ForumWidePrivilege.change_any_user_info user)

  unfoldable pub change_user_title : User → Action
  unfolding allowed_on_user return_if_throttled with_forum_wide
  change_user_title user = do
    return_if_throttled a c current_user UserActionThrottling.edit_content
    answer (
        if current_user.id == user.id
        then to_status (with_forum_wide a c current_user ForumWidePrivilege.change_own_user_title)
        else allowed_on_user a c current_user ForumWidePrivilege.change_any_user_title user)

  unfoldable pub change_user_signature : User → Action
  unfolding allowed_on_user return_if_throttled with_forum_wide
  change_user_signature user = do
    return_if_throttled a c current_user UserActionThrottling.edit_content
    answer (
        if current_user.id == user.id
        then to_status
            (with_forum_wide a c current_user ForumWidePrivilege.change_own_user_signature)
        else allowed_on_user a c current_user ForumWidePrivilege.change_any_user_signature user)

  unfoldable pub change_user_attachment_quota : User → Action
  unfolding allowed_on_user return_if_throttled
  change_user_attachment_quota user = do
    return_if_throttled a c current_user UserActionThrottling.edit_content
    answer (allowed_on_user a c current_user ForumWidePrivilege.change_user_attachment_quota user)

  unfoldable pub change_user_logo : User → Action
  unfolding allowed_on_user return_if_throttled with_forum_wide
  change_user_logo user = do
    return_if_throttled a c current_user UserActionThrottling.edit_content
    answer (
        if current_user.id == user.id
        then to_status (with_forum_wide a c current_user ForumWidePrivilege.change_own_user_logo)
        else allowed_on_user a c current_user ForumWidePrivilege.change_any_user_logo user)

  unfoldable pub delete_user_logo : User → Action
  unfolding allowed_on_user return_if_throttled with_forum_wide
  delete_user_logo user = do
    return_if_throttled a c current_user UserActionThrottling.edit_content
    answer (
        if current_user.id == user.id
        then to_status (with_forum_wide a c current_user ForumWidePrivilege.delete_own_user_logo)
        else allowed_on_user a c current_user ForumWidePrivilege.delete_any_user_logo user)

  unfoldable pub delete_user : User → Action
  unfolding allowed_on_user return_if_throttled
  delete_user user = do
    return_if_throttled a c current_user UserActionThrottling.edit_content
    answer (allowed_on_user a c current_user ForumWidePrivilege.delete_any_user user)

  unfoldable pub send_private_message : User → Action
  unfolding return_if_throttled with_forum_wide
  send_private_message destination_user = do
    return_if_throttled a c current_user UserActionThrottling.new_content
    answer (
        if current_user.id == destination_user.id
        then not_allowed
        else to_status (with_forum_wide a c current_user ForumWidePrivilege.send_private_message))

  unfoldable pub get_discussion_thread_required_privileges : DiscussionThread → AuthorizationStatus
  unfolding with_thread
  get_discussion_thread_required_privileges thread =
      to_status
        (with_thread a c current_user thread DiscussionThreadPrivilege.view_required_privileges)

  unfoldable pub delete_private_message : PrivateMessage → AuthorizationStatus
  delete_private_message message =
      if current_user.id == message.source || current_user.id == message.destination
      then ok
      else throttled
