-- ===== src/Authorization/DefaultAuthorization/Assignments.antt =====
-- DefaultAuthorization.cpp: who may grant privileges to a user.
pub mod Limits
use forum.Base.Int.{ℤ, pos, negsuc, ltb_ℤ, max_ℤ}
use forum.Base.{suc, none, some, Bool, ◌&&◌, ◌==◌}
use forum.Authorization.Privileges.{PrivilegeValueType, optional_or_zero, to_int16}
use forum.Authorization.Enums.{
  DiscussionThreadMessagePrivilege, DiscussionThreadPrivilege, DiscussionTagPrivilege,
  DiscussionCategoryPrivilege, ForumWidePrivilege, UserActionThrottling,
}
use forum.Authorization.Entities.{
  User, DiscussionTag, DiscussionThread, DiscussionThreadMessage, DiscussionCategory,
}
use forum.Authorization.Store.{
  Levels, no_levels, calculate_message_privilege, calculate_thread_privilege,
  calculate_tag_privilege, calculate_category_privilege, calculate_forum_wide_privilege,
}
use forum.Authorization.DefaultAuthorization.{
  DefaultAuthorization, Context, AuthorizationStatus, not_allowed, Action, ◌>>◌, answer, return_if,
  ok_if, return_if_throttled, with_message, with_thread, with_tag, with_category, with_forum_wide,
}
use forum.Authorization.DefaultAuthorization.Changes.{abs_ℤ, absent_or}

unfoldable pub allow_privilege_assignment : PrivilegeValueType → ℤ → PrivilegeValueType → Bool
unfolding optional_or_zero
allow_privilege_assignment old_value new_value current_permissions =
    let current_permissions_value = optional_or_zero current_permissions in
    absent_or (λ old. ltb_ℤ (abs_ℤ old) current_permissions_value) old_value
    && ltb_ℤ (abs_ℤ new_value) current_permissions_value

-- Helpers::absValue of an int16_t, which returns one.
unfoldable pub abs_value : ℤ → ℤ
unfolding to_int16
abs_value (pos n) = pos n
abs_value (negsuc n) = to_int16 (pos (suc n))

-- Where there is a negative level and no positive one, the code reads an empty optional: `unset` is
-- what it finds there.
module _ (unset : ℤ) where
  abbrev value_or_unset : PrivilegeValueType → ℤ
  value_or_unset none = unset
  value_or_unset (some value) = value

  unfoldable pub compute_old_value_for_assigning_privileges :
      PrivilegeValueType → PrivilegeValueType → PrivilegeValueType
  unfolding abs_value
  compute_old_value_for_assigning_privileges positive none = positive
  compute_old_value_for_assigning_privileges positive (some negative) =
      some (max_ℤ (value_or_unset positive) (abs_value negative))

  -- What the functions that allow an assignment do once they have computed `with`.
  unfoldable pub assigned : PrivilegeValueType → Levels → ℤ → AuthorizationStatus
  unfolding allow_privilege_assignment compute_old_value_for_assigning_privileges
  assigned none old new_value = not_allowed
  assigned (some value) old new_value =
      let old_value = compute_old_value_for_assigning_privileges old.positive old.negative in
      ok_if (allow_privilege_assignment old_value new_value (some value))

  module _ (a : DefaultAuthorization) (c : Context) (current_user target_user : User) where
    unfoldable pub assign_discussion_thread_message_privilege : DiscussionThreadMessage → ℤ → Action
    unfolding return_if_throttled with_message assigned calculate_message_privilege
    assign_discussion_thread_message_privilege message new_value = do
      return_if (current_user.id == target_user.id) not_allowed
      return_if_throttled a c current_user UserActionThrottling.edit_privileges
      answer (
          assigned
            (with_message a c current_user message
              DiscussionThreadMessagePrivilege.adjust_privilege)
            (calculate_message_privilege a.granted_privilege_store (some target_user) message
              (pos c.current_time) no_levels)
            new_value)

    unfoldable pub assign_discussion_thread_privilege : DiscussionThread → ℤ → Action
    unfolding return_if_throttled with_thread assigned calculate_thread_privilege
    assign_discussion_thread_privilege thread new_value = do
      return_if (current_user.id == target_user.id) not_allowed
      return_if_throttled a c current_user UserActionThrottling.edit_privileges
      answer (
          assigned (with_thread a c current_user thread DiscussionThreadPrivilege.adjust_privilege)
            (calculate_thread_privilege a.granted_privilege_store (some target_user) thread
              (pos c.current_time) no_levels)
            new_value)

    unfoldable pub assign_discussion_tag_privilege : DiscussionTag → ℤ → Action
    unfolding return_if_throttled with_tag assigned calculate_tag_privilege
    assign_discussion_tag_privilege tag new_value = do
      return_if (current_user.id == target_user.id) not_allowed
      return_if_throttled a c current_user UserActionThrottling.edit_privileges
      answer (
          assigned (with_tag a c current_user tag DiscussionTagPrivilege.adjust_privilege)
            (calculate_tag_privilege a.granted_privilege_store (some target_user) tag
              (pos c.current_time) no_levels)
            new_value)

    unfoldable pub assign_discussion_category_privilege : DiscussionCategory → ℤ → Action
    unfolding return_if_throttled with_category assigned calculate_category_privilege
    assign_discussion_category_privilege category new_value = do
      return_if (current_user.id == target_user.id) not_allowed
      return_if_throttled a c current_user UserActionThrottling.edit_privileges
      answer (
          assigned
            (with_category a c current_user category DiscussionCategoryPrivilege.adjust_privilege)
            (calculate_category_privilege a.granted_privilege_store (some target_user) category.id
              (pos c.current_time) no_levels)
            new_value)

    unfoldable pub assign_forum_wide_privilege : ℤ → Action
    unfolding return_if_throttled with_forum_wide assigned calculate_forum_wide_privilege
    assign_forum_wide_privilege new_value = do
      return_if (current_user.id == target_user.id) not_allowed
      return_if_throttled a c current_user UserActionThrottling.edit_privileges
      answer (
          assigned (with_forum_wide a c current_user ForumWidePrivilege.adjust_forum_wide_privilege)
            (calculate_forum_wide_privilege a.granted_privilege_store (some target_user)
              (pos c.current_time) no_levels)
            new_value)
