-- ===== src/Authorization/DefaultAuthorization/ForumWide.antt =====
-- DefaultAuthorization.cpp: what may be done with the forum as a whole.
use forum.Base.{◌==◌, if◌then◌else◌}
use forum.Authorization.Enums.{ForumWidePrivilege, UserActionThrottling}
use forum.Authorization.Entities.{User}
use forum.Authorization.DefaultAuthorization.{
  DefaultAuthorization, Context, AuthorizationStatus, ok, Action, ◌>>◌, answer, to_status,
  return_if_throttled, with_forum_wide,
}

module _ (a : DefaultAuthorization) (c : Context) (current_user : User) where
  unfoldable pub get_entities_count : AuthorizationStatus
  unfolding with_forum_wide
  get_entities_count =
      to_status (with_forum_wide a c current_user ForumWidePrivilege.get_entities_count)

  unfoldable pub get_version : AuthorizationStatus
  unfolding with_forum_wide
  get_version = to_status (with_forum_wide a c current_user ForumWidePrivilege.get_version)

  unfoldable pub update_forum_wide_default_privilege_level : Action
  unfolding return_if_throttled with_forum_wide
  update_forum_wide_default_privilege_level = do
    return_if_throttled a c current_user UserActionThrottling.edit_privileges
    answer (
        to_status (with_forum_wide a c current_user ForumWidePrivilege.adjust_forum_wide_privilege))

  unfoldable pub get_forum_wide_required_privileges : AuthorizationStatus
  unfolding with_forum_wide
  get_forum_wide_required_privileges =
      to_status
        (with_forum_wide a c current_user ForumWidePrivilege.view_forum_wide_required_privileges)

  unfoldable pub get_forum_wide_assigned_privileges : AuthorizationStatus
  unfolding with_forum_wide
  get_forum_wide_assigned_privileges =
      to_status
        (with_forum_wide a c current_user ForumWidePrivilege.view_forum_wide_assigned_privileges)

  unfoldable pub get_user_assigned_privileges : User → AuthorizationStatus
  unfolding with_forum_wide
  get_user_assigned_privileges target_user =
      if current_user.id == target_user.id
      then ok
      else to_status
          (with_forum_wide a c current_user ForumWidePrivilege.view_user_assigned_privileges)

  unfoldable pub get_allow_forum_wide_privilege_change : AuthorizationStatus
  unfolding with_forum_wide
  get_allow_forum_wide_privilege_change =
      to_status (with_forum_wide a c current_user ForumWidePrivilege.adjust_forum_wide_privilege)
