-- ===== src/Authorization/DefaultAuthorization/Changes/Limits.antt =====
-- What a user may change requirements to. DefaultAuthorization.cpp.
use forum.Base.Int.{ℤ, ◌≤ℤ◌}
use forum.Base.{some, none, ◌≡◌, refl, arith}
use forum.Authorization.Privileges.{PrivilegeValueType, optional_or_zero}
use forum.Authorization.Enums.{
  DiscussionThreadMessagePrivilege, DiscussionThreadPrivilege, DiscussionTagPrivilege,
  DiscussionCategoryPrivilege, ForumWidePrivilege, UserActionThrottling,
}
use forum.Authorization.Entities.{
  User, DiscussionTag, DiscussionThread, DiscussionThreadMessage, DiscussionCategory,
}
use forum.Authorization.DefaultThrottling.{DefaultThrottling}
use forum.Authorization.DefaultAuthorization.{
  DefaultAuthorization, Context, ok, Action, ◌>>◌, answer, return_if_throttled, with_message,
  with_messages_of_thread, with_messages_of_tag, with_thread, with_threads_of_tag, with_tag,
  with_category, with_messages_of_forum, with_threads_of_forum, with_tags_of_forum,
  with_categories_of_forum, with_forum_wide,
}
use forum.Authorization.DefaultAuthorization.Throttled.{rule_after_ok}
use forum.Authorization.DefaultAuthorization.Changes.{
  abs_ℤ, allow_privilege_update, updated, update_discussion_thread_message_privilege_of_message,
  update_discussion_thread_message_privilege_of_thread,
  update_discussion_thread_privilege_of_thread, update_discussion_thread_message_privilege_of_tag,
  update_discussion_thread_privilege_of_tag, update_discussion_tag_privilege_of_tag,
  update_discussion_category_privilege_of_category, update_discussion_thread_message_privilege,
  update_discussion_thread_privilege, update_discussion_tag_privilege,
  update_discussion_category_privilege, update_forum_wide_privilege,
}

-- A predicate of a value, where there is one.
abbrev pub AbsentOr : (ℤ → Type 0) → PrivilegeValueType → Type 0
AbsentOr P none = Unit
AbsentOr P (some value) = P value

-- A requirement that is to change: what it is on, and which kind of privilege it is about.
pub data Requirement : Type 0 where
  message_of_message : DiscussionThreadMessage → Requirement
  message_of_thread thread_of_thread : DiscussionThread → Requirement
  message_of_tag thread_of_tag tag_of_tag : DiscussionTag → Requirement
  category_of_category : DiscussionCategory → Requirement
  message_of_forum thread_of_forum tag_of_forum category_of_forum forum_of_forum : Requirement

module _ (a : DefaultAuthorization) (c : Context) (user : User) where
  -- The level that the user has for adjusting the requirement.
  abbrev pub adjusts_with : Requirement → PrivilegeValueType
  adjusts_with (message_of_message message) =
      with_message a c user message DiscussionThreadMessagePrivilege.adjust_privilege
  adjusts_with (message_of_thread thread) =
      with_messages_of_thread a c user thread DiscussionThreadMessagePrivilege.adjust_privilege
  adjusts_with (thread_of_thread thread) =
      with_thread a c user thread DiscussionThreadPrivilege.adjust_privilege
  adjusts_with (message_of_tag tag) =
      with_messages_of_tag a c user tag DiscussionThreadMessagePrivilege.adjust_privilege
  adjusts_with (thread_of_tag tag) =
      with_threads_of_tag a c user tag DiscussionThreadPrivilege.adjust_privilege
  adjusts_with (tag_of_tag tag) = with_tag a c user tag DiscussionTagPrivilege.adjust_privilege
  adjusts_with (category_of_category category) =
      with_category a c user category DiscussionCategoryPrivilege.adjust_privilege
  adjusts_with message_of_forum =
      with_messages_of_forum a c user DiscussionThreadMessagePrivilege.adjust_privilege
  adjusts_with thread_of_forum =
      with_threads_of_forum a c user DiscussionThreadPrivilege.adjust_privilege
  adjusts_with tag_of_forum = with_tags_of_forum a c user DiscussionTagPrivilege.adjust_privilege
  adjusts_with category_of_forum =
      with_categories_of_forum a c user DiscussionCategoryPrivilege.adjust_privilege
  adjusts_with forum_of_forum =
      with_forum_wide a c user ForumWidePrivilege.adjust_forum_wide_privilege

  -- The rule for it.
  abbrev pub update : Requirement → PrivilegeValueType → ℤ → Action
  update (message_of_message message) =
      update_discussion_thread_message_privilege_of_message a c user message
  update (message_of_thread thread) =
      update_discussion_thread_message_privilege_of_thread a c user thread
  update (thread_of_thread thread) = update_discussion_thread_privilege_of_thread a c user thread
  update (message_of_tag tag) = update_discussion_thread_message_privilege_of_tag a c user tag
  update (thread_of_tag tag) = update_discussion_thread_privilege_of_tag a c user tag
  update (tag_of_tag tag) = update_discussion_tag_privilege_of_tag a c user tag
  update (category_of_category category) =
      update_discussion_category_privilege_of_category a c user category
  update message_of_forum = update_discussion_thread_message_privilege a c user
  update thread_of_forum = update_discussion_thread_privilege a c user
  update tag_of_forum = update_discussion_tag_privilege a c user
  update category_of_forum = update_discussion_category_privilege a c user
  update forum_of_forum = update_forum_wide_privilege a c user

  abbrev pub guarded : PrivilegeValueType → PrivilegeValueType → ℤ → Action
  guarded value old_value new_value =
      return_if_throttled a c user UserActionThrottling.edit_privileges
      >> answer (updated value old_value new_value)

  pub update-guarded :
      (r : Requirement) (old_value : PrivilegeValueType) (new_value : ℤ)
      → update r old_value new_value ≡ guarded (adjusts_with r) old_value new_value
  unfolding update_discussion_thread_message_privilege_of_message
      update_discussion_thread_message_privilege_of_thread
      update_discussion_thread_privilege_of_thread update_discussion_thread_message_privilege_of_tag
      update_discussion_thread_privilege_of_tag update_discussion_tag_privilege_of_tag
      update_discussion_category_privilege_of_category update_discussion_thread_message_privilege
      update_discussion_thread_privilege update_discussion_tag_privilege
      update_discussion_category_privilege update_forum_wide_privilege
  update-guarded (message_of_message message) old_value new_value = refl
  update-guarded (message_of_thread thread) old_value new_value = refl
  update-guarded (thread_of_thread thread) old_value new_value = refl
  update-guarded (message_of_tag tag) old_value new_value = refl
  update-guarded (thread_of_tag tag) old_value new_value = refl
  update-guarded (tag_of_tag tag) old_value new_value = refl
  update-guarded (category_of_category category) old_value new_value = refl
  update-guarded message_of_forum old_value new_value = refl
  update-guarded thread_of_forum old_value new_value = refl
  update-guarded tag_of_forum old_value new_value = refl
  update-guarded category_of_forum old_value new_value = refl
  update-guarded forum_of_forum old_value new_value = refl

  -- Both values lie within what the level `value` reaches.
  pub record IsInReach (old_value : PrivilegeValueType) (new_value value : ℤ) : Type 0 where
    pub old_reached : AbsentOr (λ old. abs_ℤ old ≤ℤ value) old_value
    pub new_reached : abs_ℤ new_value ≤ℤ value

  updated-IsInReach :
      (w old_value : PrivilegeValueType) (new_value : ℤ)
      → updated w old_value new_value ≡ ok
      → (value : ℤ) × (w ≡ some value) × IsInReach old_value new_value value
  unfolding updated allow_privilege_update optional_or_zero
  updated-IsInReach none old_value new_value h = ground arith
  updated-IsInReach (some value) none new_value h =
      (value, refl, record { old_reached = tt; new_reached = ground arith })
  updated-IsInReach (some value) (some old) new_value h =
      (value, refl, record { old_reached = ground arith; new_reached = ground arith })

  -- A user who may change a requirement has a level for adjusting it, and neither the value before nor
  -- the new one is beyond that level on either side of 0, whichever of the twelve requirements it is.
  pub update-IsInReach :
      (r : Requirement) (old_value : PrivilegeValueType) (new_value : ℤ) (t : DefaultThrottling)
      → (update r old_value new_value t).0 ≡ ok
      → (value : ℤ) × (adjusts_with r ≡ some value) × IsInReach old_value new_value value
  update-IsInReach r old_value new_value t h =
      updated-IsInReach (adjusts_with r) old_value new_value (
        rule_after_ok a c user UserActionThrottling.edit_privileges
          (answer (updated (adjusts_with r) old_value new_value)) t
          (rw (update-guarded r old_value new_value) at h))
