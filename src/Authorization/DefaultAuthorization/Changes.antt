-- ===== src/Authorization/DefaultAuthorization/Changes.antt =====
-- DefaultAuthorization.cpp: who may change what an entity or the forum requires.
pub mod Limits
use forum.Base.Int.{ℤ, pos, negsuc, leb_ℤ}
use forum.Base.{suc, none, some, Bool, true, ◌&&◌}
use forum.Authorization.Privileges.{PrivilegeValueType, optional_or_zero}
use forum.Authorization.Enums.{
  DiscussionThreadMessagePrivilege, DiscussionThreadPrivilege, DiscussionTagPrivilege,
  DiscussionCategoryPrivilege, ForumWidePrivilege, UserActionThrottling,
}
use forum.Authorization.Entities.{
  User, DiscussionTag, DiscussionThread, DiscussionThreadMessage, DiscussionCategory,
}
use forum.Authorization.DefaultAuthorization.{
  DefaultAuthorization, Context, AuthorizationStatus, not_allowed, Action, ◌>>◌, answer, ok_if,
  return_if_throttled, with_message, with_messages_of_thread, with_messages_of_tag, with_thread,
  with_threads_of_tag, with_tag, with_category, with_messages_of_forum, with_threads_of_forum,
  with_tags_of_forum, with_categories_of_forum, with_forum_wide,
}

-- std::abs; the int16_t is promoted to int, so that nothing wraps.
abbrev pub abs_ℤ : ℤ → ℤ
abs_ℤ (pos n) = pos n
abs_ℤ (negsuc n) = pos (suc n)

abbrev pub absent_or : (ℤ → Bool) → PrivilegeValueType → Bool
absent_or test none = true
absent_or test (some value) = test value

unfoldable pub allow_privilege_update : PrivilegeValueType → ℤ → PrivilegeValueType → Bool
unfolding optional_or_zero
allow_privilege_update old_value new_value current_permissions =
    let current_permissions_value = optional_or_zero current_permissions in
    absent_or (λ old. leb_ℤ (abs_ℤ old) current_permissions_value) old_value
    && leb_ℤ (abs_ℤ new_value) current_permissions_value

-- What the functions that allow a change do once they have computed `with`.
unfoldable pub updated : PrivilegeValueType → PrivilegeValueType → ℤ → AuthorizationStatus
unfolding allow_privilege_update
updated none old_value new_value = not_allowed
updated (some value) old_value new_value =
    ok_if (allow_privilege_update old_value new_value (some value))

module _ (a : DefaultAuthorization) (c : Context) (current_user : User) where
  unfoldable pub update_discussion_thread_message_privilege_of_message :
      DiscussionThreadMessage → PrivilegeValueType → ℤ → Action
  unfolding return_if_throttled with_message updated
  update_discussion_thread_message_privilege_of_message message old_value new_value = do
    return_if_throttled a c current_user UserActionThrottling.edit_privileges
    answer (
        updated
          (with_message a c current_user message DiscussionThreadMessagePrivilege.adjust_privilege)
          old_value new_value)

  unfoldable pub update_discussion_thread_message_privilege_of_thread :
      DiscussionThread → PrivilegeValueType → ℤ → Action
  unfolding return_if_throttled with_messages_of_thread updated
  update_discussion_thread_message_privilege_of_thread thread old_value new_value = do
    return_if_throttled a c current_user UserActionThrottling.edit_privileges
    answer (
        updated
          (with_messages_of_thread a c current_user thread
            DiscussionThreadMessagePrivilege.adjust_privilege)
          old_value new_value)

  unfoldable pub update_discussion_thread_privilege_of_thread :
      DiscussionThread → PrivilegeValueType → ℤ → Action
  unfolding return_if_throttled with_thread updated
  update_discussion_thread_privilege_of_thread thread old_value new_value = do
    return_if_throttled a c current_user UserActionThrottling.edit_privileges
    answer (
        updated (with_thread a c current_user thread DiscussionThreadPrivilege.adjust_privilege)
          old_value new_value)

  unfoldable pub update_discussion_thread_message_privilege_of_tag :
      DiscussionTag → PrivilegeValueType → ℤ → Action
  unfolding return_if_throttled with_messages_of_tag updated
  update_discussion_thread_message_privilege_of_tag tag old_value new_value = do
    return_if_throttled a c current_user UserActionThrottling.edit_privileges
    answer (
        updated
          (with_messages_of_tag a c current_user tag
            DiscussionThreadMessagePrivilege.adjust_privilege)
          old_value new_value)

  unfoldable pub update_discussion_thread_privilege_of_tag :
      DiscussionTag → PrivilegeValueType → ℤ → Action
  unfolding return_if_throttled with_threads_of_tag updated
  update_discussion_thread_privilege_of_tag tag old_value new_value = do
    return_if_throttled a c current_user UserActionThrottling.edit_privileges
    answer (
        updated
          (with_threads_of_tag a c current_user tag DiscussionThreadPrivilege.adjust_privilege)
          old_value new_value)

  unfoldable pub update_discussion_tag_privilege_of_tag :
      DiscussionTag → PrivilegeValueType → ℤ → Action
  unfolding return_if_throttled with_tag updated
  update_discussion_tag_privilege_of_tag tag old_value new_value = do
    return_if_throttled a c current_user UserActionThrottling.edit_privileges
    answer (
        updated (with_tag a c current_user tag DiscussionTagPrivilege.adjust_privilege) old_value
          new_value)

  unfoldable pub update_discussion_category_privilege_of_category :
      DiscussionCategory → PrivilegeValueType → ℤ → Action
  unfolding return_if_throttled with_category updated
  update_discussion_category_privilege_of_category category old_value new_value = do
    return_if_throttled a c current_user UserActionThrottling.edit_privileges
    answer (
        updated
          (with_category a c current_user category DiscussionCategoryPrivilege.adjust_privilege)
          old_value new_value)

  unfoldable pub update_discussion_thread_message_privilege : PrivilegeValueType → ℤ → Action
  unfolding return_if_throttled with_messages_of_forum updated
  update_discussion_thread_message_privilege old_value new_value = do
    return_if_throttled a c current_user UserActionThrottling.edit_privileges
    answer (
        updated
          (with_messages_of_forum a c current_user
            DiscussionThreadMessagePrivilege.adjust_privilege)
          old_value new_value)

  unfoldable pub update_discussion_thread_privilege : PrivilegeValueType → ℤ → Action
  unfolding return_if_throttled with_threads_of_forum updated
  update_discussion_thread_privilege old_value new_value = do
    return_if_throttled a c current_user UserActionThrottling.edit_privileges
    answer (
        updated (with_threads_of_forum a c current_user DiscussionThreadPrivilege.adjust_privilege)
          old_value new_value)

  unfoldable pub update_discussion_tag_privilege : PrivilegeValueType → ℤ → Action
  unfolding return_if_throttled with_tags_of_forum updated
  update_discussion_tag_privilege old_value new_value = do
    return_if_throttled a c current_user UserActionThrottling.edit_privileges
    answer (
        updated (with_tags_of_forum a c current_user DiscussionTagPrivilege.adjust_privilege)
          old_value new_value)

  unfoldable pub update_discussion_category_privilege : PrivilegeValueType → ℤ → Action
  unfolding return_if_throttled with_categories_of_forum updated
  update_discussion_category_privilege old_value new_value = do
    return_if_throttled a c current_user UserActionThrottling.edit_privileges
    answer (
        updated
          (with_categories_of_forum a c current_user DiscussionCategoryPrivilege.adjust_privilege)
          old_value new_value)

  unfoldable pub update_forum_wide_privilege : PrivilegeValueType → ℤ → Action
  unfolding return_if_throttled with_forum_wide updated
  update_forum_wide_privilege old_value new_value = do
    return_if_throttled a c current_user UserActionThrottling.edit_privileges
    answer (
        updated (with_forum_wide a c current_user ForumWidePrivilege.adjust_forum_wide_privilege)
          old_value new_value)
