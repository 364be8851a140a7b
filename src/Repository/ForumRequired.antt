-- ===== src/Repository/ForumRequired.antt =====
-- src/LibForumData/private/MemoryRepositoryAuthorization.cpp: the functions that change what is required in
-- the whole forum, and the default levels.
pub mod Outcomes
use forum.Base.{ℕ, ◌&&◌}
use forum.Base.Int.{ℤ}
use forum.Authorization.Privileges.{get_lazy_privilege, get_privilege}
use forum.Authorization.Entities.{
  thread_message_privilege_count, thread_privilege_count, tag_privilege_count,
  category_privilege_count, forum_wide_privilege_count,
}
use forum.Authorization.DefaultAuthorization.Changes.{
  update_discussion_thread_message_privilege, update_discussion_thread_privilege,
  update_discussion_tag_privilege, update_discussion_category_privilege,
  update_forum_wide_privilege,
}
use forum.Authorization.DefaultAuthorization.ForumWide.{update_forum_wide_default_privilege_level}
use forum.Persistence.Events.{Event}
use forum.Repository.ForumChanges.{
  change_discussion_thread_message_required_privilege_in,
  change_discussion_thread_required_privilege_in, change_discussion_tag_required_privilege_in,
  change_discussion_category_required_privilege_in, change_forum_wide_required_privilege_in,
  change_forum_wide_default_privilege_level_in,
}
use forum.Repository.Common.{
  StatusCode, Request, Repository, rules, current_user, write_authorized, when_valid,
  is_valid_privilege, is_valid_privilege_value, is_valid_privilege_duration, default_duration_count,
}

module _ (q : Request) where
  unfoldable pub change_discussion_thread_message_required_privilege :
      ℕ → ℤ → Repository → StatusCode × Repository
  unfolding current_user is_valid_privilege_value get_lazy_privilege
      update_discussion_thread_message_privilege
      change_discussion_thread_message_required_privilege_in
  change_discussion_thread_message_required_privilege privilege value r =
      when_valid
        (is_valid_privilege privilege thread_message_privilege_count
          && is_valid_privilege_value value)
        (λ r.
          write_authorized q
            (update_discussion_thread_message_privilege (rules r) q.context
              (current_user q r.collection)
              (get_lazy_privilege thread_message_privilege_count
                r.collection.forum_wide.thread_message_privileges privilege)
              value)
            (Event.change_discussion_thread_message_required_privilege_forum_wide privilege value)
            (change_discussion_thread_message_required_privilege_in privilege value) r)
        r

  unfoldable pub change_discussion_thread_required_privilege :
      ℕ → ℤ → Repository → StatusCode × Repository
  unfolding current_user is_valid_privilege_value get_privilege update_discussion_thread_privilege
      change_discussion_thread_required_privilege_in
  change_discussion_thread_required_privilege privilege value r =
      when_valid
        (is_valid_privilege privilege thread_privilege_count && is_valid_privilege_value value)
        (λ r.
          write_authorized q
            (update_discussion_thread_privilege (rules r) q.context (current_user q r.collection)
              (get_privilege thread_privilege_count r.collection.forum_wide.thread_privileges
                privilege)
              value)
            (Event.change_discussion_thread_required_privilege_forum_wide privilege value)
            (change_discussion_thread_required_privilege_in privilege value) r)
        r

  unfoldable pub change_discussion_tag_required_privilege :
      ℕ → ℤ → Repository → StatusCode × Repository
  unfolding current_user is_valid_privilege_value get_privilege update_discussion_tag_privilege
      change_discussion_tag_required_privilege_in
  change_discussion_tag_required_privilege privilege value r =
      when_valid
        (is_valid_privilege privilege tag_privilege_count && is_valid_privilege_value value)
        (λ r.
          write_authorized q
            (update_discussion_tag_privilege (rules r) q.context (current_user q r.collection)
              (get_privilege tag_privilege_count r.collection.forum_wide.tag_privileges privilege)
              value)
            (Event.change_discussion_tag_required_privilege_forum_wide privilege value)
            (change_discussion_tag_required_privilege_in privilege value) r)
        r

  unfoldable pub change_discussion_category_required_privilege :
      ℕ → ℤ → Repository → StatusCode × Repository
  unfolding current_user is_valid_privilege_value get_privilege update_discussion_category_privilege
      change_discussion_category_required_privilege_in
  change_discussion_category_required_privilege privilege value r =
      when_valid
        (is_valid_privilege privilege category_privilege_count && is_valid_privilege_value value)
        (λ r.
          write_authorized q
            (update_discussion_category_privilege (rules r) q.context (current_user q r.collection)
              (get_privilege category_privilege_count r.collection.forum_wide.category_privileges
                privilege)
              value)
            (Event.change_discussion_category_required_privilege_forum_wide privilege value)
            (change_discussion_category_required_privilege_in privilege value) r)
        r

  unfoldable pub change_forum_wide_required_privilege : ℕ → ℤ → Repository → StatusCode × Repository
  unfolding current_user is_valid_privilege_value get_privilege update_forum_wide_privilege
      change_forum_wide_required_privilege_in
  change_forum_wide_required_privilege privilege value r =
      when_valid
        (is_valid_privilege privilege forum_wide_privilege_count && is_valid_privilege_value value)
        (λ r.
          write_authorized q
            (update_forum_wide_privilege (rules r) q.context (current_user q r.collection)
              (get_privilege forum_wide_privilege_count
                r.collection.forum_wide.forum_wide_privileges privilege)
              value)
            (Event.change_forum_wide_required_privilege privilege value)
            (change_forum_wide_required_privilege_in privilege value) r)
        r

  unfoldable pub change_forum_wide_default_privilege_level :
      ℕ → ℤ → ℤ → Repository → StatusCode × Repository
  unfolding current_user is_valid_privilege_duration update_forum_wide_default_privilege_level
      change_forum_wide_default_privilege_level_in
  change_forum_wide_default_privilege_level privilege value duration r =
      when_valid
        (is_valid_privilege privilege default_duration_count && is_valid_privilege_duration value)
        (λ r.
          write_authorized q
            (update_forum_wide_default_privilege_level (rules r) q.context
              (current_user q r.collection))
            (Event.change_forum_wide_default_privilege_level privilege value duration)
            (change_forum_wide_default_privilege_level_in privilege value duration) r)
        r
