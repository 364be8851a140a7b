-- ===== src/Authorization/DefaultAuthorization/Assignments/Limits.antt =====
-- What a user may grant to whom. DefaultAuthorization.cpp.
use forum.Base.Int.{ℤ, pos, ◌<ℤ◌}
use forum.Base.{some, none, ◌==◌, ◌≡◌, ◌≢◌, refl, arith, inl, inr, Bool-cases}
use forum.Authorization.Privileges.{PrivilegeValueType, optional_or_zero}
use forum.Authorization.Enums.{
  DiscussionThreadMessagePrivilege, DiscussionThreadPrivilege, DiscussionTagPrivilege,
  DiscussionCategoryPrivilege, ForumWidePrivilege, UserActionThrottling,
}
use forum.Authorization.Entities.{
  User, DiscussionTag, DiscussionThread, DiscussionThreadMessage, DiscussionCategory,
}
use forum.Authorization.Store.{
  Levels, no_levels, calculate_message_privilege, calculate_thread_privilege,
  calculate_tag_privilege, calculate_category_privilege, calculate_forum_wide_privilege,
}
use forum.Authorization.DefaultThrottling.{DefaultThrottling}
use forum.Authorization.DefaultAuthorization.{
  DefaultAuthorization, Context, ok, not_allowed, Action, ◌>>◌, answer, return_if,
  return_if_throttled, with_message, with_thread, with_tag, with_category, with_forum_wide,
}
use forum.Authorization.DefaultAuthorization.Throttled.{rule_after_ok}
use forum.Authorization.DefaultAuthorization.Changes.{abs_ℤ}
use forum.Authorization.DefaultAuthorization.Changes.Limits.{AbsentOr}
use forum.Authorization.DefaultAuthorization.Assignments.{
  allow_privilege_assignment, abs_value, compute_old_value_for_assigning_privileges, assigned,
  assign_discussion_thread_message_privilege, assign_discussion_thread_privilege,
  assign_discussion_tag_privilege, assign_discussion_category_privilege,
  assign_forum_wide_privilege,
}

-- What a privilege is granted on.
pub data Grantable : Type 0 where
  message : DiscussionThreadMessage → Grantable
  thread : DiscussionThread → Grantable
  tag : DiscussionTag → Grantable
  category : DiscussionCategory → Grantable
  whole_forum : Grantable

module _ (unset : ℤ) (a : DefaultAuthorization) (c : Context) (user target : User) where
  -- The level that the user has for granting.
  abbrev pub grants_with : Grantable → PrivilegeValueType
  grants_with (message m) =
      with_message a c user m DiscussionThreadMessagePrivilege.adjust_privilege
  grants_with (thread t) = with_thread a c user t DiscussionThreadPrivilege.adjust_privilege
  grants_with (tag t) = with_tag a c user t DiscussionTagPrivilege.adjust_privilege
  grants_with (category g) = with_category a c user g DiscussionCategoryPrivilege.adjust_privilege
  grants_with whole_forum = with_forum_wide a c user ForumWidePrivilege.adjust_forum_wide_privilege

  -- The levels that the target has from entries on it.
  abbrev pub granted_before : Grantable → Levels
  granted_before (message m) =
      calculate_message_privilege a.granted_privilege_store (some target) m (pos c.current_time)
        no_levels
  granted_before (thread t) =
      calculate_thread_privilege a.granted_privilege_store (some target) t (pos c.current_time)
        no_levels
  granted_before (tag t) =
      calculate_tag_privilege a.granted_privilege_store (some target) t (pos c.current_time)
        no_levels
  granted_before (category g) =
      calculate_category_privilege a.granted_privilege_store (some target) g.id (pos c.current_time)
        no_levels
  granted_before whole_forum =
      calculate_forum_wide_privilege a.granted_privilege_store (some target) (pos c.current_time)
        no_levels

  -- The rule for it.
  abbrev pub assign : Grantable → ℤ → Action
  assign (message m) = assign_discussion_thread_message_privilege unset a c user target m
  assign (thread t) = assign_discussion_thread_privilege unset a c user target t
  assign (tag t) = assign_discussion_tag_privilege unset a c user target t
  assign (category g) = assign_discussion_category_privilege unset a c user target g
  assign whole_forum = assign_forum_wide_privilege unset a c user target

  abbrev guarded : PrivilegeValueType → Levels → ℤ → Action
  guarded value old new_value =
      return_if (user.id == target.id) not_allowed
      >> (return_if_throttled a c user UserActionThrottling.edit_privileges
          >> answer (assigned unset value old new_value))

  assign-guarded :
      (g : Grantable) (new_value : ℤ)
      → assign g new_value ≡ guarded (grants_with g) (granted_before g) new_value
  unfolding assign_discussion_thread_message_privilege assign_discussion_thread_privilege
      assign_discussion_tag_privilege assign_discussion_category_privilege
      assign_forum_wide_privilege
  assign-guarded (message m) new_value = refl
  assign-guarded (thread t) new_value = refl
  assign-guarded (tag t) new_value = refl
  assign-guarded (category g) new_value = refl
  assign-guarded whole_forum new_value = refl

  -- The new value and the levels before lie within what the level `value` exceeds.
  pub record IsExceeded (old : Levels) (new_value value : ℤ) : Type 0 where
    pub new_exceeded : abs_ℤ new_value <ℤ value
    pub positive_exceeded : AbsentOr (λ p. p <ℤ value) old.positive
    pub negative_exceeded : AbsentOr (λ n. abs_value n <ℤ value) old.negative

  bounded :
      (value : ℤ) (positive negative : PrivilegeValueType) (new_value : ℤ)
      → assigned unset (some value) (record { positive = positive; negative = negative }) new_value
        ≡ ok
      → IsExceeded (record { positive = positive; negative = negative }) new_value value
  unfolding assigned allow_privilege_assignment compute_old_value_for_assigning_privileges
      optional_or_zero
  bounded value none none new_value h = record {
    new_exceeded = ground arith;
    positive_exceeded = tt;
    negative_exceeded = tt;
  }
  bounded value (some p) none new_value h = record {
    new_exceeded = ground arith;
    positive_exceeded = ground arith;
    negative_exceeded = tt;
  }
  bounded value none (some n) new_value h = record {
    new_exceeded = ground arith;
    positive_exceeded = tt;
    negative_exceeded = ground arith;
  }
  bounded value (some p) (some n) new_value h = record {
    new_exceeded = ground arith;
    positive_exceeded = ground arith;
    negative_exceeded = ground arith;
  }

  assigned-IsExceeded :
      (w : PrivilegeValueType) (old : Levels) (new_value : ℤ)
      → assigned unset w old new_value ≡ ok
      → (value : ℤ) × (w ≡ some value) × IsExceeded old new_value value
  unfolding assigned
  assigned-IsExceeded none old new_value h = ground arith
  assigned-IsExceeded (some value) old new_value h =
      (value, refl, bounded value old.positive old.negative new_value h)

  -- A user who may grant a value to another one is another user, has a level for granting on what the
  -- value is for, and this level exceeds the new value on either side of 0, the target's positive level
  -- there, and the target's negative level turned positive as the code turns it (-32768 stays negative);
  -- whatever is read where the code looks into an empty optional, and whichever of the five things it is
  -- for.
  pub assign-IsExceeded :
      (g : Grantable) (new_value : ℤ) (t : DefaultThrottling)
      → (assign g new_value t).0 ≡ ok
      → (user.id ≢ target.id)
        × ((value : ℤ) × (grants_with g ≡ some value)
            × IsExceeded (granted_before g) new_value value)
  assign-IsExceeded g new_value t h =
      let k = rw (assign-guarded g new_value) at h in
      elim (Bool-cases (user.id == target.id)) [
        | inl e ↦ absurd (ground arith)
        | inr e ↦ (
          ground arith,
          assigned-IsExceeded (grants_with g) (granted_before g) new_value (
              rule_after_ok a c user UserActionThrottling.edit_privileges
                (answer (assigned unset (grants_with g) (granted_before g) new_value)) t
                (rw e at k)),
        )
      ]
