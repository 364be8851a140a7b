-- ===== src/Repository/ForumChanges.antt =====
-- The overloads in src/LibForumData/private/MemoryRepositoryAuthorization.cpp that change what is required
-- in the whole forum, and the default levels, without asking for the rules.
use forum.Base.{ℕ, some, ◌&&◌, if◌then◌else◌, set}
use forum.Base.Int.{ℤ}
use forum.Authorization.Privileges.{set_lazy_privilege, set_privilege}
use forum.Authorization.Entities.{
  thread_message_privilege_count, thread_privilege_count, tag_privilege_count,
  category_privilege_count, forum_wide_privilege_count,
}
use forum.Repository.Common.{
  success, invalid_parameters, Inner, is_valid_privilege, is_valid_privilege_value,
  is_valid_privilege_duration, default_duration_count,
}

unfoldable pub change_discussion_thread_message_required_privilege_in : ℕ → ℤ → Inner
unfolding is_valid_privilege_value set_lazy_privilege
change_discussion_thread_message_required_privilege_in privilege value c =
    if is_valid_privilege privilege thread_message_privilege_count && is_valid_privilege_value value
    then (
      success,
      record c {
        forum_wide = record c.forum_wide {
          thread_message_privileges =
              set_lazy_privilege thread_message_privilege_count
                c.forum_wide.thread_message_privileges privilege value;
        };
      },
    )
    else (invalid_parameters, c)

unfoldable pub change_discussion_thread_required_privilege_in : ℕ → ℤ → Inner
unfolding is_valid_privilege_value set_privilege
change_discussion_thread_required_privilege_in privilege value c =
    if is_valid_privilege privilege thread_privilege_count && is_valid_privilege_value value
    then (
      success,
      record c {
        forum_wide = record c.forum_wide {
          thread_privileges =
              set_privilege thread_privilege_count c.forum_wide.thread_privileges privilege value;
        };
      },
    )
    else (invalid_parameters, c)

unfoldable pub change_discussion_tag_required_privilege_in : ℕ → ℤ → Inner
unfolding is_valid_privilege_value set_privilege
change_discussion_tag_required_privilege_in privilege value c =
    if is_valid_privilege privilege tag_privilege_count && is_valid_privilege_value value
    then (
      success,
      record c {
        forum_wide = record c.forum_wide {
          tag_privileges =
              set_privilege tag_privilege_count c.forum_wide.tag_privileges privilege value;
        };
      },
    )
    else (invalid_parameters, c)

unfoldable pub change_discussion_category_required_privilege_in : ℕ → ℤ → Inner
unfolding is_valid_privilege_value set_privilege
change_discussion_category_required_privilege_in privilege value c =
    if is_valid_privilege privilege category_privilege_count && is_valid_privilege_value value
    then (
      success,
      record c {
        forum_wide = record c.forum_wide {
          category_privileges =
              set_privilege category_privilege_count c.forum_wide.category_privileges privilege
                value;
        };
      },
    )
    else (invalid_parameters, c)

unfoldable pub change_forum_wide_required_privilege_in : ℕ → ℤ → Inner
unfolding is_valid_privilege_value set_privilege
change_forum_wide_required_privilege_in privilege value c =
    if is_valid_privilege privilege forum_wide_privilege_count && is_valid_privilege_value value
    then (
      success,
      record c {
        forum_wide = record c.forum_wide {
          forum_wide_privileges =
              set_privilege forum_wide_privilege_count c.forum_wide.forum_wide_privileges privilege
                value;
        };
      },
    )
    else (invalid_parameters, c)

-- The value is checked as if it were the duration, which is not checked.
unfoldable pub change_forum_wide_default_privilege_level_in : ℕ → ℤ → ℤ → Inner
unfolding is_valid_privilege_duration
change_forum_wide_default_privilege_level_in privilege value duration c =
    if is_valid_privilege privilege default_duration_count && is_valid_privilege_duration value
    then (
      success,
      record c {
        default_levels =
            set c.default_levels privilege (some (record { value = value; duration = duration }));
      },
    )
    else (invalid_parameters, c)
