-- ===== src/Authorization/Allowed.antt =====
-- The checks of src/LibForumData/private/AuthorizationGrantedPrivilegeStore.cpp: the static
-- isAllowed, and the overloads of GrantedPrivilegeStore::isAllowed.
pub mod Checks
use forum.Base.Int.{ℤ, ◌+ℤ◌, leb_ℤ}
use forum.Base.{ℕ, Option, none, some, if◌then◌else◌}
use forum.Authorization.Privileges.{PrivilegeValueType, to_int16, optional_or_zero}
use forum.Authorization.Entities.{
  User, ForumWidePrivilegeStore, DiscussionTag, DiscussionThread, DiscussionThreadMessage,
  DiscussionCategory, forum_thread_message_privilege, forum_thread_privilege, forum_tag_privilege,
  forum_category_privilege, forum_wide_privilege, tag_thread_message_privilege,
  tag_thread_privilege, tag_privilege, thread_thread_message_privilege, thread_privilege,
  message_privilege, category_privilege,
}
use forum.Authorization.Store.{
  GrantedPrivilegeStore, Levels, no_levels, calculate_message_privilege, calculate_thread_privilege,
  calculate_tag_privilege, calculate_category_privilege, calculate_forum_wide_privilege,
  calculate_tags, calculate_parents, calculate_messages_of_thread,
}

-- The sum is converted to int16_t by the return type.
unfoldable pub effective_privilege_value : PrivilegeValueType → PrivilegeValueType → ℤ
unfolding to_int16 optional_or_zero ◌+ℤ◌
effective_privilege_value positive negative =
    to_int16 (optional_or_zero positive +ℤ optional_or_zero negative)

-- The static isAllowed.
unfoldable pub check : Levels → PrivilegeValueType → PrivilegeValueType
unfolding effective_privilege_value optional_or_zero
check l required =
    let value = effective_privilege_value l.positive l.negative in
    if leb_ℤ (optional_or_zero required) value then some value else none

-- The overloads of isAllowed.
module _ (forum_wide : ForumWidePrivilegeStore) (s : GrantedPrivilegeStore)
    (user : Option User) where
  unfoldable pub is_allowed_message : DiscussionThreadMessage → ℕ → ℤ → PrivilegeValueType
  unfolding check calculate_message_privilege calculate_messages_of_thread message_privilege
  is_allowed_message message privilege now =
      check
        (calculate_messages_of_thread s user message.parent_thread now
          (calculate_message_privilege s user message now no_levels))
        (message_privilege forum_wide message privilege)

  unfoldable pub is_allowed_messages_of_thread : DiscussionThread → ℕ → ℤ → PrivilegeValueType
  unfolding check calculate_messages_of_thread thread_thread_message_privilege
  is_allowed_messages_of_thread thread privilege now =
      check (calculate_messages_of_thread s user thread now no_levels)
        (thread_thread_message_privilege forum_wide thread privilege)

  abbrev tag_levels : DiscussionTag → ℤ → Levels
  tag_levels tag now =
      calculate_forum_wide_privilege s user now (calculate_tag_privilege s user tag now no_levels)

  unfoldable pub is_allowed_messages_of_tag : DiscussionTag → ℕ → ℤ → PrivilegeValueType
  unfolding check calculate_tag_privilege calculate_forum_wide_privilege
      tag_thread_message_privilege
  is_allowed_messages_of_tag tag privilege now =
      check (tag_levels tag now) (tag_thread_message_privilege forum_wide tag privilege)

  unfoldable pub is_allowed_thread : DiscussionThread → ℕ → ℤ → PrivilegeValueType
  unfolding check calculate_thread_privilege calculate_tags calculate_forum_wide_privilege
      thread_privilege
  is_allowed_thread thread privilege now =
      check
        (calculate_forum_wide_privilege s user now (
          calculate_tags s user thread.tags now
            (calculate_thread_privilege s user thread now no_levels)))
        (thread_privilege forum_wide thread privilege)

  unfoldable pub is_allowed_threads_of_tag : DiscussionTag → ℕ → ℤ → PrivilegeValueType
  unfolding check calculate_tag_privilege calculate_forum_wide_privilege tag_thread_privilege
  is_allowed_threads_of_tag tag privilege now =
      check (tag_levels tag now) (tag_thread_privilege forum_wide tag privilege)

  unfoldable pub is_allowed_tag : DiscussionTag → ℕ → ℤ → PrivilegeValueType
  unfolding check calculate_tag_privilege calculate_forum_wide_privilege tag_privilege
  is_allowed_tag tag privilege now =
      check (tag_levels tag now) (tag_privilege forum_wide tag privilege)

  unfoldable pub is_allowed_category : DiscussionCategory → ℕ → ℤ → PrivilegeValueType
  unfolding check calculate_category_privilege calculate_parents calculate_forum_wide_privilege
      category_privilege
  is_allowed_category category privilege now =
      check
        (calculate_forum_wide_privilege s user now (
          calculate_parents s user category.parents now
            (calculate_category_privilege s user category.id now no_levels)))
        (category_privilege forum_wide category privilege)

  -- The overloads on the forum-wide store itself.
  abbrev forum_levels : ℤ → Levels
  forum_levels now = calculate_forum_wide_privilege s user now no_levels

  unfoldable pub is_allowed_messages_of_forum : ℕ → ℤ → PrivilegeValueType
  unfolding check calculate_forum_wide_privilege forum_thread_message_privilege
  is_allowed_messages_of_forum privilege now =
      check (forum_levels now) (forum_thread_message_privilege forum_wide privilege)

  unfoldable pub is_allowed_threads_of_forum : ℕ → ℤ → PrivilegeValueType
  unfolding check calculate_forum_wide_privilege forum_thread_privilege
  is_allowed_threads_of_forum privilege now =
      check (forum_levels now) (forum_thread_privilege forum_wide privilege)

  unfoldable pub is_allowed_tags_of_forum : ℕ → ℤ → PrivilegeValueType
  unfolding check calculate_forum_wide_privilege forum_tag_privilege
  is_allowed_tags_of_forum privilege now =
      check (forum_levels now) (forum_tag_privilege forum_wide privilege)

  unfoldable pub is_allowed_categories_of_forum : ℕ → ℤ → PrivilegeValueType
  unfolding check calculate_forum_wide_privilege forum_category_privilege
  is_allowed_categories_of_forum privilege now =
      check (forum_levels now) (forum_category_privilege forum_wide privilege)

  unfoldable pub is_allowed_forum_wide : ℕ → ℤ → PrivilegeValueType
  unfolding check calculate_forum_wide_privilege forum_wide_privilege
  is_allowed_forum_wide privilege now =
      check (forum_levels now) (forum_wide_privilege forum_wide privilege)
