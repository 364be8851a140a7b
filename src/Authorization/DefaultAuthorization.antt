-- ===== src/Authorization/DefaultAuthorization.antt =====
-- src/LibForumData/private/DefaultAuthorization.cpp: the rules that say whether a user may do something.
-- This module has the throttling and the private overloads of isAllowed; the children have the rules,
-- one module for each kind of entity.
pub mod Throttled
pub mod Requests
mod Tests
pub mod Users
pub mod Threads
pub mod Messages
pub mod Tags
pub mod Categories
pub mod Attachments
pub mod ForumWide
pub mod Changes
pub mod Assignments
use forum.Base.Int.{ℤ, pos, ltb_ℤ}
use forum.Base.{ℕ, Option, none, some, Bool, true, false, not, ◌&&◌, ◌==◌, is_some, if◌then◌else◌}
use forum.Authorization.Privileges.{PrivilegeValueType, optional_or_zero}
use forum.Authorization.Enums.{
  DiscussionThreadMessagePrivilege, DiscussionThreadPrivilege, DiscussionTagPrivilege,
  DiscussionCategoryPrivilege, ForumWidePrivilege, UserActionThrottling, message_position,
  thread_position, tag_position, category_position, forum_wide_position,
}
use forum.Authorization.Entities.{
  User, ForumWidePrivilegeStore, DiscussionTag, DiscussionThread, DiscussionThreadMessage,
  DiscussionCategory,
}
use forum.Authorization.Store.{GrantedPrivilegeStore, no_levels, calculate_forum_wide_privilege}
use forum.Authorization.Allowed.{
  is_allowed_message, is_allowed_messages_of_thread, is_allowed_messages_of_tag, is_allowed_thread,
  is_allowed_threads_of_tag, is_allowed_tag, is_allowed_category, is_allowed_messages_of_forum,
  is_allowed_threads_of_forum, is_allowed_tags_of_forum, is_allowed_categories_of_forum,
  is_allowed_forum_wide,
}
use forum.Authorization.DefaultThrottling.{DefaultThrottling, check_action}

pub data AuthorizationStatus : Type 0 where
  ok not_allowed throttled : AuthorizationStatus

-- `throttling_` is the state that a rule is run on.
pub record DefaultAuthorization : Type 0 where
  pub granted_privilege_store : GrantedPrivilegeStore
  pub forum_wide_privilege_store : ForumWidePrivilegeStore
  pub disable_throttling : Bool

-- What the rules ask the Context for.
pub record Context : Type 0 where
  pub current_time : ℕ
  pub current_user_ip_address : ℕ

-- A rule that may count an action.
abbrev pub Action : Type 0
Action = DefaultThrottling → AuthorizationStatus × DefaultThrottling

-- A statement that may return early.
abbrev pub Guard : Type 0
Guard = DefaultThrottling → Option AuthorizationStatus × DefaultThrottling

infixl 5 ◌>>◌
abbrev pub ◌>>◌ : Guard → Action → Action
◌>>◌ guard rest t =
    let (early, t') = guard t in elim early [ none ↦ rest t' | some status ↦ (status, t') ]

abbrev pub answer : AuthorizationStatus → Action
answer status t = (status, t)

abbrev pub return_if : Bool → AuthorizationStatus → Guard
return_if condition status t = (if condition then some status else none, t)

-- `(with = ...) ? AuthorizationStatus::OK : AuthorizationStatus::NOT_ALLOWED`
abbrev pub to_status : PrivilegeValueType → AuthorizationStatus
to_status none = not_allowed
to_status (some value) = ok

abbrev pub is_ok : AuthorizationStatus → Bool
is_ok ok = true
is_ok _ = false

abbrev pub ok_if : Bool → AuthorizationStatus
ok_if condition = if condition then ok else not_allowed

-- `if (status != AuthorizationStatus::OK) return status;`
abbrev pub both : AuthorizationStatus → AuthorizationStatus → AuthorizationStatus
both ok next = next
both status next = status

-- `if ( ! thread.empty() && ...) return ...;`
abbrev pub unless_empty : DiscussionThread → Guard → Guard
unless_empty thread guard t = if thread.message_count == 0 then (none, t) else guard t

-- The overloads of isAllowed. The value is what they assign to `with`, and to_status of it what they
-- return.
module _ (a : DefaultAuthorization) (c : Context) (user : User) where
  unfoldable pub with_message :
      DiscussionThreadMessage → DiscussionThreadMessagePrivilege → PrivilegeValueType
  unfolding is_allowed_message message_position
  with_message message privilege =
      is_allowed_message a.forum_wide_privilege_store a.granted_privilege_store (some user) message
        (message_position privilege) (pos c.current_time)

  unfoldable pub with_messages_of_thread :
      DiscussionThread → DiscussionThreadMessagePrivilege → PrivilegeValueType
  unfolding is_allowed_messages_of_thread message_position
  with_messages_of_thread thread privilege =
      is_allowed_messages_of_thread a.forum_wide_privilege_store a.granted_privilege_store
        (some user) thread (message_position privilege) (pos c.current_time)

  unfoldable pub with_messages_of_tag :
      DiscussionTag → DiscussionThreadMessagePrivilege → PrivilegeValueType
  unfolding is_allowed_messages_of_tag message_position
  with_messages_of_tag tag privilege =
      is_allowed_messages_of_tag a.forum_wide_privilege_store a.granted_privilege_store (some user)
        tag (message_position privilege) (pos c.current_time)

  unfoldable pub with_thread : DiscussionThread → DiscussionThreadPrivilege → PrivilegeValueType
  unfolding is_allowed_thread thread_position
  with_thread thread privilege =
      is_allowed_thread a.forum_wide_privilege_store a.granted_privilege_store (some user) thread
        (thread_position privilege) (pos c.current_time)

  unfoldable pub with_threads_of_tag :
      DiscussionTag → DiscussionThreadPrivilege → PrivilegeValueType
  unfolding is_allowed_threads_of_tag thread_position
  with_threads_of_tag tag privilege =
      is_allowed_threads_of_tag a.forum_wide_privilege_store a.granted_privilege_store (some user)
        tag (thread_position privilege) (pos c.current_time)

  -- The overload on two threads.
  unfoldable pub allowed_threads :
      DiscussionThread → DiscussionThread → DiscussionThreadPrivilege → AuthorizationStatus
  unfolding with_thread
  allowed_threads from into privilege =
      ok_if (is_some (with_thread from privilege) && is_some (with_thread into privilege))

  unfoldable pub with_tag : DiscussionTag → DiscussionTagPrivilege → PrivilegeValueType
  unfolding is_allowed_tag tag_position
  with_tag tag privilege =
      is_allowed_tag a.forum_wide_privilege_store a.granted_privilege_store (some user) tag
        (tag_position privilege) (pos c.current_time)

  -- The overload on two tags.
  unfoldable pub allowed_tags :
      DiscussionTag → DiscussionTag → DiscussionTagPrivilege → AuthorizationStatus
  unfolding with_tag
  allowed_tags from into privilege =
      ok_if (is_some (with_tag from privilege) && is_some (with_tag into privilege))

  unfoldable pub with_category :
      DiscussionCategory → DiscussionCategoryPrivilege → PrivilegeValueType
  unfolding is_allowed_category category_position
  with_category category privilege =
      is_allowed_category a.forum_wide_privilege_store a.granted_privilege_store (some user)
        category (category_position privilege) (pos c.current_time)

  unfoldable pub with_messages_of_forum : DiscussionThreadMessagePrivilege → PrivilegeValueType
  unfolding is_allowed_messages_of_forum message_position
  with_messages_of_forum privilege =
      is_allowed_messages_of_forum a.forum_wide_privilege_store a.granted_privilege_store
        (some user) (message_position privilege) (pos c.current_time)

  unfoldable pub with_threads_of_forum : DiscussionThreadPrivilege → PrivilegeValueType
  unfolding is_allowed_threads_of_forum thread_position
  with_threads_of_forum privilege =
      is_allowed_threads_of_forum a.forum_wide_privilege_store a.granted_privilege_store (some user)
        (thread_position privilege) (pos c.current_time)

  unfoldable pub with_tags_of_forum : DiscussionTagPrivilege → PrivilegeValueType
  unfolding is_allowed_tags_of_forum tag_position
  with_tags_of_forum privilege =
      is_allowed_tags_of_forum a.forum_wide_privilege_store a.granted_privilege_store (some user)
        (tag_position privilege) (pos c.current_time)

  unfoldable pub with_categories_of_forum : DiscussionCategoryPrivilege → PrivilegeValueType
  unfolding is_allowed_categories_of_forum category_position
  with_categories_of_forum privilege =
      is_allowed_categories_of_forum a.forum_wide_privilege_store a.granted_privilege_store
        (some user) (category_position privilege) (pos c.current_time)

  unfoldable pub with_forum_wide : ForumWidePrivilege → PrivilegeValueType
  unfolding is_allowed_forum_wide forum_wide_position
  with_forum_wide privilege =
      is_allowed_forum_wide a.forum_wide_privilege_store a.granted_privilege_store (some user)
        (forum_wide_position privilege) (pos c.current_time)

  -- The overload with a target user, whose positive level `with` has to exceed.
  unfoldable pub allowed_on_user : ForumWidePrivilege → User → AuthorizationStatus
  unfolding with_forum_wide optional_or_zero calculate_forum_wide_privilege
  allowed_on_user privilege target_user = elim (with_forum_wide privilege) [
    | none ↦ not_allowed
    | some value ↦
        let target =
          calculate_forum_wide_privilege a.granted_privilege_store (some target_user)
            (pos c.current_time) no_levels in
        ok_if (ltb_ℤ (optional_or_zero target.positive) value)
  ]

  unfoldable pub is_throttled : UserActionThrottling → DefaultThrottling → Bool × DefaultThrottling
  unfolding with_forum_wide check_action
  is_throttled action t =
      if not a.disable_throttling
        && not (is_some (with_forum_wide ForumWidePrivilege.no_throttling))
      then check_action t action c.current_time user.id c.current_user_ip_address
      else (false, t)

  -- `if (isThrottled(action, currentUser)) return AuthorizationStatus::THROTTLED;`
  unfoldable pub return_if_throttled : UserActionThrottling → Guard
  unfolding is_throttled
  return_if_throttled action t =
      let (answer, t') = is_throttled action t in (if answer then some throttled else none, t')
