-- ===== src/Authorization/DefaultAuthorization/Threads.antt =====
-- DefaultAuthorization.cpp: what may be done with threads.
use forum.Base.{some, ◌==◌, if◌then◌else◌}
use forum.Authorization.Enums.{
  DiscussionThreadPrivilege, DiscussionTagPrivilege, DiscussionCategoryPrivilege,
  ForumWidePrivilege, UserActionThrottling,
}
use forum.Authorization.Entities.{
  User, DiscussionTag, DiscussionThread, DiscussionCategory, is_anonymous_user,
}
use forum.Authorization.DefaultAuthorization.{
  DefaultAuthorization, Context, AuthorizationStatus, ok, not_allowed, Action, ◌>>◌, answer,
  return_if, to_status, return_if_throttled, with_thread, with_tag, with_category, with_forum_wide,
  allowed_threads,
}

module _ (a : DefaultAuthorization) (c : Context) (current_user : User) where
  unfoldable pub get_discussion_thread_assigned_privileges : DiscussionThread → AuthorizationStatus
  unfolding with_thread
  get_discussion_thread_assigned_privileges thread =
      to_status
        (with_thread a c current_user thread DiscussionThreadPrivilege.view_assigned_privileges)

  unfoldable pub get_discussion_threads : AuthorizationStatus
  unfolding with_forum_wide
  get_discussion_threads =
      to_status (with_forum_wide a c current_user ForumWidePrivilege.get_all_discussion_threads)

  unfoldable pub get_discussion_thread_by_id : DiscussionThread → AuthorizationStatus
  unfolding with_thread
  get_discussion_thread_by_id thread =
      to_status (with_thread a c current_user thread DiscussionThreadPrivilege.view)

  unfoldable pub get_discussion_thread_subscribed_users : DiscussionThread → AuthorizationStatus
  unfolding with_thread
  get_discussion_thread_subscribed_users thread =
      to_status (with_thread a c current_user thread DiscussionThreadPrivilege.get_subscribed_users)

  unfoldable pub get_discussion_threads_of_user : User → AuthorizationStatus
  unfolding with_forum_wide
  get_discussion_threads_of_user user =
      if current_user.id == user.id
      then ok
      else to_status
          (with_forum_wide a c current_user ForumWidePrivilege.get_discussion_threads_of_user)

  unfoldable pub get_subscribed_discussion_threads_of_user : User → AuthorizationStatus
  unfolding with_forum_wide
  get_subscribed_discussion_threads_of_user user =
      if current_user.id == user.id
      then ok
      else to_status (
          with_forum_wide a c current_user
            ForumWidePrivilege.get_subscribed_discussion_threads_of_user)

  unfoldable pub get_discussion_threads_with_tag : DiscussionTag → AuthorizationStatus
  unfolding with_tag
  get_discussion_threads_with_tag tag =
      to_status (with_tag a c current_user tag DiscussionTagPrivilege.get_discussion_threads)

  unfoldable pub get_discussion_threads_of_category : DiscussionCategory → AuthorizationStatus
  unfolding with_category
  get_discussion_threads_of_category category =
      to_status
        (with_category a c current_user category DiscussionCategoryPrivilege.get_discussion_threads)

  unfoldable pub get_allow_discussion_thread_privilege_change :
      DiscussionThread → AuthorizationStatus
  unfolding with_thread
  get_allow_discussion_thread_privilege_change thread =
      to_status (with_thread a c current_user thread DiscussionThreadPrivilege.adjust_privilege)

  unfoldable pub add_new_discussion_thread : Action
  unfolding return_if_throttled with_forum_wide
  add_new_discussion_thread = do
    return_if_throttled a c current_user UserActionThrottling.new_content
    answer (to_status (with_forum_wide a c current_user ForumWidePrivilege.add_discussion_thread))

  unfoldable pub change_discussion_thread_name : DiscussionThread → Action
  unfolding return_if_throttled with_thread
  change_discussion_thread_name thread = do
    return_if_throttled a c current_user UserActionThrottling.edit_content
    answer (to_status (with_thread a c current_user thread DiscussionThreadPrivilege.change_name))

  unfoldable pub change_discussion_thread_pin_display_order : DiscussionThread → Action
  unfolding return_if_throttled with_thread
  change_discussion_thread_pin_display_order thread = do
    return_if_throttled a c current_user UserActionThrottling.edit_content
    answer (
        to_status
          (with_thread a c current_user thread DiscussionThreadPrivilege.change_pin_display_order))

  unfoldable pub change_discussion_thread_approval : DiscussionThread → Action
  unfolding return_if_throttled with_thread
  change_discussion_thread_approval thread = do
    return_if_throttled a c current_user UserActionThrottling.edit_content
    answer
        (to_status (with_thread a c current_user thread DiscussionThreadPrivilege.change_approval))

  unfoldable pub auto_approve_discussion_thread : AuthorizationStatus
  unfolding with_forum_wide
  auto_approve_discussion_thread =
      to_status (with_forum_wide a c current_user ForumWidePrivilege.auto_approve_discussion_thread)

  unfoldable pub delete_discussion_thread : DiscussionThread → Action
  unfolding return_if_throttled with_thread
  delete_discussion_thread thread = do
    return_if_throttled a c current_user UserActionThrottling.edit_content
    answer (to_status (with_thread a c current_user thread DiscussionThreadPrivilege.delete))

  unfoldable pub merge_discussion_threads : DiscussionThread → DiscussionThread → Action
  unfolding allowed_threads return_if_throttled
  merge_discussion_threads from into = do
    return_if_throttled a c current_user UserActionThrottling.edit_content
    answer (allowed_threads a c current_user from into DiscussionThreadPrivilege.merge)

  unfoldable pub subscribe_to_discussion_thread : DiscussionThread → Action
  unfolding is_anonymous_user return_if_throttled with_thread
  subscribe_to_discussion_thread thread = do
    return_if (is_anonymous_user (some current_user)) not_allowed
    return_if_throttled a c current_user UserActionThrottling.subscribe
    answer (to_status (with_thread a c current_user thread DiscussionThreadPrivilege.subscribe))

  unfoldable pub unsubscribe_from_discussion_thread : DiscussionThread → Action
  unfolding is_anonymous_user return_if_throttled with_thread
  unsubscribe_from_discussion_thread thread = do
    return_if (is_anonymous_user (some current_user)) not_allowed
    return_if_throttled a c current_user UserActionThrottling.subscribe
    answer (to_status (with_thread a c current_user thread DiscussionThreadPrivilege.unsubscribe))
