-- ===== src/Repository/Grants.antt =====
-- The overloads in src/LibForumData/private/MemoryRepositoryAuthorization.cpp that grant privileges at a
-- time without asking for the rules; the importer of events calls them as well.
use forum.Base.{ℕ, ◌==◌, none, some, ◌&&◌, not, if◌then◌else◌}
use forum.Base.Int.{ℤ, pos}
use forum.Authorization.Privileges.{calculate_privilege_expires}
use forum.Authorization.Store.{
  grant_discussion_thread_message_privilege, grant_discussion_thread_privilege,
  grant_discussion_tag_privilege, grant_discussion_category_privilege, grant_forum_wide_privilege,
}
use forum.Repository.Common.{
  success, not_found, invalid_parameters, Inner, is_valid_privilege_value,
  is_valid_privilege_duration, is_valid_assignment,
}
use forum.Repository.Collection.{find_user, find_message, find_thread, find_tag, find_category}

unfoldable pub assign_discussion_thread_message_privilege_in : ℕ → ℕ → ℤ → ℤ → ℕ → Inner
unfolding find_message find_user is_valid_privilege_value is_valid_privilege_duration
    grant_discussion_thread_message_privilege calculate_privilege_expires
assign_discussion_thread_message_privilege_in message_id user_id value duration now c =
    if is_valid_assignment user_id value duration && not (message_id == 0)
    then elim (find_message c message_id) [
      | none ↦ (not_found, c)
      | some _ ↦ elim (find_user c user_id) [
        | none ↦ (not_found, c)
        | some _ ↦ (
          success,
          record c {
            granted_privileges =
                grant_discussion_thread_message_privilege c.granted_privileges user_id message_id
                  value (pos now) (calculate_privilege_expires now duration);
          },
        )
      ]
    ]
    else (invalid_parameters, c)

unfoldable pub assign_discussion_thread_privilege_in : ℕ → ℕ → ℤ → ℤ → ℕ → Inner
unfolding find_thread find_user is_valid_privilege_value is_valid_privilege_duration
    grant_discussion_thread_privilege calculate_privilege_expires
assign_discussion_thread_privilege_in thread_id user_id value duration now c =
    if is_valid_assignment user_id value duration && not (thread_id == 0)
    then elim (find_thread c thread_id) [
      | none ↦ (not_found, c)
      | some _ ↦ elim (find_user c user_id) [
        | none ↦ (not_found, c)
        | some _ ↦ (
          success,
          record c {
            granted_privileges =
                grant_discussion_thread_privilege c.granted_privileges user_id thread_id value
                  (pos now) (calculate_privilege_expires now duration);
          },
        )
      ]
    ]
    else (invalid_parameters, c)

unfoldable pub assign_discussion_tag_privilege_in : ℕ → ℕ → ℤ → ℤ → ℕ → Inner
unfolding find_tag find_user is_valid_privilege_value is_valid_privilege_duration
    grant_discussion_tag_privilege calculate_privilege_expires
assign_discussion_tag_privilege_in tag_id user_id value duration now c =
    if is_valid_assignment user_id value duration && not (tag_id == 0)
    then elim (find_tag c tag_id) [
      | none ↦ (not_found, c)
      | some _ ↦ elim (find_user c user_id) [
        | none ↦ (not_found, c)
        | some _ ↦ (
          success,
          record c {
            granted_privileges =
                grant_discussion_tag_privilege c.granted_privileges user_id tag_id value (pos now)
                  (calculate_privilege_expires now duration);
          },
        )
      ]
    ]
    else (invalid_parameters, c)

unfoldable pub assign_discussion_category_privilege_in : ℕ → ℕ → ℤ → ℤ → ℕ → Inner
unfolding find_category find_user is_valid_privilege_value is_valid_privilege_duration
    grant_discussion_category_privilege calculate_privilege_expires
assign_discussion_category_privilege_in category_id user_id value duration now c =
    if is_valid_assignment user_id value duration && not (category_id == 0)
    then elim (find_category c category_id) [
      | none ↦ (not_found, c)
      | some _ ↦ elim (find_user c user_id) [
        | none ↦ (not_found, c)
        | some _ ↦ (
          success,
          record c {
            granted_privileges =
                grant_discussion_category_privilege c.granted_privileges user_id category_id value
                  (pos now) (calculate_privilege_expires now duration);
          },
        )
      ]
    ]
    else (invalid_parameters, c)

unfoldable pub assign_forum_wide_privilege_in : ℕ → ℤ → ℤ → ℕ → Inner
unfolding find_user is_valid_privilege_value is_valid_privilege_duration grant_forum_wide_privilege
    calculate_privilege_expires
assign_forum_wide_privilege_in user_id value duration now c =
    if is_valid_assignment user_id value duration
    then elim (find_user c user_id) [
      | none ↦ (not_found, c)
      | some _ ↦ (
        success,
        record c {
          granted_privileges =
              grant_forum_wide_privilege c.granted_privileges user_id 0 value (pos now)
                (calculate_privilege_expires now duration);
        },
      )
    ]
    else (invalid_parameters, c)
