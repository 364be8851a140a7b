-- ===== src/Authorization/Entities.antt =====
-- The parts of users, messages, threads, tags and categories that authorization reads
-- (src/LibForumData/Entity*.h), and the required privileges they answer with
-- (EntityDiscussionThreadMessage.cpp, EntityDiscussionThread.cpp, EntityDiscussionTag.cpp,
-- EntityDiscussionCategory.cpp). An id is a number, 0 for the empty id.
use forum.Base.{ℕ, List, [], ◌∷◌, Option, none, some, Bool, true, ◌==◌}
use forum.Authorization.Privileges.{
  PrivilegeValueType, PrivilegeArray, maximum_privilege_value, get_privilege, get_lazy_privilege,
}

-- The COUNT members of the enumerations.
abbrev pub thread_message_privilege_count : ℕ
thread_message_privilege_count = 22

abbrev pub thread_privilege_count : ℕ
thread_privilege_count = 17

abbrev pub tag_privilege_count : ℕ
tag_privilege_count = 9

abbrev pub category_privilege_count : ℕ
category_privilege_count = 12

abbrev pub forum_wide_privilege_count : ℕ
forum_wide_privilege_count = 49

pub record User : Type 0 where
  pub id : ℕ
  pub message_count : ℕ

-- ForumWidePrivilegeStore, which EntityCollection derives from.
pub record ForumWidePrivilegeStore : Type 0 where
  pub thread_message_privileges : Option PrivilegeArray
  pub thread_privileges : PrivilegeArray
  pub tag_privileges : PrivilegeArray
  pub category_privileges : PrivilegeArray
  pub forum_wide_privileges : PrivilegeArray

pub record DiscussionTag : Type 0 where
  pub id : ℕ
  pub thread_message_privileges : Option PrivilegeArray
  pub thread_privileges : PrivilegeArray
  pub tag_privileges : PrivilegeArray

pub record DiscussionThread : Type 0 where
  pub id : ℕ
  pub created_by : ℕ
  pub message_count : ℕ
  pub approved : Bool
  pub tags : List DiscussionTag
  pub thread_message_privileges : Option PrivilegeArray
  pub thread_privileges : PrivilegeArray

pub record DiscussionThreadMessage : Type 0 where
  pub id : ℕ
  pub created_by : ℕ
  pub approved : Bool
  pub parent_thread : DiscussionThread
  pub thread_message_privileges : Option PrivilegeArray

-- A category, and its parents from the nearest to the root.
pub record DiscussionCategory : Type 0 where
  pub id : ℕ
  pub parents : List ℕ
  pub category_privileges : PrivilegeArray

unfoldable pub is_anonymous_user : Option User → Bool
is_anonymous_user none = true
is_anonymous_user (some user) = user.id == 0

-- `if (result) return result;`
abbrev pub or_else : PrivilegeValueType → PrivilegeValueType → PrivilegeValueType
or_else none other = other
or_else (some v) other = some v

module _ (forum_wide : ForumWidePrivilegeStore) where
  unfoldable pub forum_thread_message_privilege : ℕ → PrivilegeValueType
  unfolding get_lazy_privilege
  forum_thread_message_privilege privilege =
      get_lazy_privilege thread_message_privilege_count forum_wide.thread_message_privileges
        privilege

  unfoldable pub forum_thread_privilege : ℕ → PrivilegeValueType
  unfolding get_privilege
  forum_thread_privilege privilege =
      get_privilege thread_privilege_count forum_wide.thread_privileges privilege

  unfoldable pub forum_tag_privilege : ℕ → PrivilegeValueType
  unfolding get_privilege
  forum_tag_privilege privilege =
      get_privilege tag_privilege_count forum_wide.tag_privileges privilege

  unfoldable pub forum_category_privilege : ℕ → PrivilegeValueType
  unfolding get_privilege
  forum_category_privilege privilege =
      get_privilege category_privilege_count forum_wide.category_privileges privilege

  unfoldable pub forum_wide_privilege : ℕ → PrivilegeValueType
  unfolding get_privilege
  forum_wide_privilege privilege =
      get_privilege forum_wide_privilege_count forum_wide.forum_wide_privileges privilege

  unfoldable pub tag_thread_message_privilege : DiscussionTag → ℕ → PrivilegeValueType
  unfolding get_lazy_privilege forum_thread_message_privilege
  tag_thread_message_privilege tag privilege =
      or_else
        (get_lazy_privilege thread_message_privilege_count tag.thread_message_privileges privilege)
        (forum_thread_message_privilege privilege)

  unfoldable pub tag_thread_privilege : DiscussionTag → ℕ → PrivilegeValueType
  unfolding get_privilege forum_thread_privilege
  tag_thread_privilege tag privilege =
      or_else (get_privilege thread_privilege_count tag.thread_privileges privilege)
        (forum_thread_privilege privilege)

  unfoldable pub tag_privilege : DiscussionTag → ℕ → PrivilegeValueType
  unfolding get_privilege forum_tag_privilege
  tag_privilege tag privilege =
      or_else (get_privilege tag_privilege_count tag.tag_privileges privilege)
        (forum_tag_privilege privilege)

  -- The loop over a thread's tags: the most demanding of them counts.
  unfoldable pub most_required :
      (DiscussionTag → PrivilegeValueType)
      → PrivilegeValueType
      → List DiscussionTag
      → PrivilegeValueType
  unfolding maximum_privilege_value
  most_required required result [] = result
  most_required required result (tag ∷ tags) =
      most_required required (maximum_privilege_value result (required tag)) tags

  unfoldable pub tags_or_forum :
      List DiscussionTag
      → (DiscussionTag → PrivilegeValueType)
      → PrivilegeValueType
      → PrivilegeValueType
  unfolding most_required
  tags_or_forum [] required forum = forum
  tags_or_forum (tag ∷ tags) required forum = most_required required none (tag ∷ tags)

  unfoldable pub thread_thread_message_privilege : DiscussionThread → ℕ → PrivilegeValueType
  unfolding get_lazy_privilege tags_or_forum forum_thread_message_privilege
      tag_thread_message_privilege
  thread_thread_message_privilege thread privilege =
      or_else
        (get_lazy_privilege thread_message_privilege_count thread.thread_message_privileges
          privilege)
        (tags_or_forum thread.tags (λ tag. tag_thread_message_privilege tag privilege)
          (forum_thread_message_privilege privilege))

  unfoldable pub thread_privilege : DiscussionThread → ℕ → PrivilegeValueType
  unfolding get_privilege tags_or_forum forum_thread_privilege tag_thread_privilege
  thread_privilege thread privilege =
      or_else (get_privilege thread_privilege_count thread.thread_privileges privilege) (
        tags_or_forum thread.tags (λ tag. tag_thread_privilege tag privilege)
          (forum_thread_privilege privilege))

  unfoldable pub message_privilege : DiscussionThreadMessage → ℕ → PrivilegeValueType
  unfolding get_lazy_privilege thread_thread_message_privilege
  message_privilege message privilege =
      or_else
        (get_lazy_privilege thread_message_privilege_count message.thread_message_privileges
          privilege)
        (thread_thread_message_privilege message.parent_thread privilege)

  unfoldable pub category_privilege : DiscussionCategory → ℕ → PrivilegeValueType
  unfolding get_privilege forum_category_privilege
  category_privilege category privilege =
      or_else (get_privilege category_privilege_count category.category_privileges privilege)
        (forum_category_privilege privilege)

-- The overload that is handed the value found at thread level.
unfoldable pub message_privilege_or :
    DiscussionThreadMessage → ℕ → PrivilegeValueType → PrivilegeValueType
unfolding get_lazy_privilege
message_privilege_or message privilege thread_level =
    or_else
      (get_lazy_privilege thread_message_privilege_count message.thread_message_privileges
        privilege)
      thread_level
