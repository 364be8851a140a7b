-- ===== src/Authorization/DefaultAuthorization/Users/Targets.antt =====
-- What a user may do to another user, and to himself. DefaultAuthorization.cpp.
use forum.Base.Int.{ℤ, pos, ◌<ℤ◌, ltb_ℤ, +ℤ_parts}
use forum.Base.{some, none, false, ◌==◌, ◌≡◌, ◌≢◌, refl, arith}
use forum.Authorization.Privileges.{PrivilegeValueType, optional_or_zero}
use forum.Authorization.Enums.{ForumWidePrivilege, UserActionThrottling, forum_wide_position}
use forum.Authorization.Entities.{User, forum_wide_privilege}
use forum.Authorization.Store.{Levels, no_levels, calculate_forum_wide_privilege}
use forum.Authorization.Allowed.{is_allowed_forum_wide, check}
use forum.Authorization.Allowed.Checks.{IsWithin, check-IsWithin}
use forum.Authorization.DefaultThrottling.{DefaultThrottling}
use forum.Authorization.DefaultAuthorization.{
  DefaultAuthorization, Context, ok, not_allowed, Action, AuthorizationStatus, ◌>>◌, answer, ok_if,
  return_if_throttled, with_forum_wide, allowed_on_user,
}
use forum.Authorization.DefaultAuthorization.Throttled.{rule_after_ok}
use forum.Authorization.DefaultAuthorization.Users.{
  change_user_name, change_user_info, change_user_title, change_user_signature,
  change_user_attachment_quota, change_user_logo, delete_user_logo, delete_user,
}

-- What can be changed of a user, for which a privilege for anybody's and one for the own are
-- distinguished, or only the former.
pub data Change : Type 0 where
  name info title signature logo no_logo quota deletion : Change

module _ (a : DefaultAuthorization) (c : Context) (user target : User) where
  abbrev pub change : Change → Action
  change name = change_user_name a c user target
  change info = change_user_info a c user target
  change title = change_user_title a c user target
  change signature = change_user_signature a c user target
  change logo = change_user_logo a c user target
  change no_logo = delete_user_logo a c user target
  change quota = change_user_attachment_quota a c user target
  change deletion = delete_user a c user target

  abbrev pub any_privilege : Change → ForumWidePrivilege
  any_privilege name = ForumWidePrivilege.change_any_user_name
  any_privilege info = ForumWidePrivilege.change_any_user_info
  any_privilege title = ForumWidePrivilege.change_any_user_title
  any_privilege signature = ForumWidePrivilege.change_any_user_signature
  any_privilege logo = ForumWidePrivilege.change_any_user_logo
  any_privilege no_logo = ForumWidePrivilege.delete_any_user_logo
  any_privilege quota = ForumWidePrivilege.change_user_attachment_quota
  any_privilege deletion = ForumWidePrivilege.delete_any_user

  -- The levels that a user has for the whole forum.
  abbrev pub forum_levels_of : User → Levels
  forum_levels_of u =
      calculate_forum_wide_privilege a.granted_privilege_store (some u) (pos c.current_time)
        no_levels

  opened :
      (privilege : ForumWidePrivilege)
      → allowed_on_user a c user privilege target ≡ elim (with_forum_wide a c user privilege) [
        | none ↦ not_allowed
        | some value ↦ ok_if (ltb_ℤ (optional_or_zero (forum_levels_of target).positive) value)
      ]
  unfolding allowed_on_user
  opened privilege = refl

  allowed_on_user_ok :
      (privilege : ForumWidePrivilege)
      → allowed_on_user a c user privilege target ≡ ok
      → (value : ℤ) × (with_forum_wide a c user privilege ≡ some value)
        × (optional_or_zero (forum_levels_of target).positive <ℤ value)
  allowed_on_user_ok privilege h =
      go (with_forum_wide a c user privilege) (rw (opened privilege) at h)
    where
      target_level : ℤ
      target_level = optional_or_zero (forum_levels_of target).positive

      go :
          (w : PrivilegeValueType)
          → elim w [ none ↦ not_allowed | some value ↦ ok_if (ltb_ℤ target_level value) ] ≡ ok
          → (value : ℤ) × (w ≡ some value) × (target_level <ℤ value)
      go none k = ground arith
      go (some value) k = (value, refl, ground arith)

  abbrev guarded : AuthorizationStatus → Action
  guarded status = return_if_throttled a c user UserActionThrottling.edit_content >> answer status

  change-guarded :
      (k : Change)
      → (user.id == target.id) ≡ false
      → change k ≡ guarded (allowed_on_user a c user (any_privilege k) target)
  unfolding change_user_name change_user_info change_user_title change_user_signature
      change_user_attachment_quota change_user_logo delete_user_logo delete_user
  change-guarded name h = rw h refl
  change-guarded info h = rw h refl
  change-guarded title h = rw h refl
  change-guarded signature h = rw h refl
  change-guarded logo h = rw h refl
  change-guarded no_logo h = rw h refl
  change-guarded quota h = refl
  change-guarded deletion h = refl

  -- A user who may change something of another user, or delete him, has the privilege to do so with
  -- anybody, and with a level that exceeds the other's positive level for the whole forum.
  pub change-IsAbove :
      (k : Change) (t : DefaultThrottling)
      → (user.id == target.id) ≡ false
      → (change k t).0 ≡ ok
      → (value : ℤ) × (with_forum_wide a c user (any_privilege k) ≡ some value)
        × (optional_or_zero (forum_levels_of target).positive <ℤ value)
  change-IsAbove k t e h = allowed_on_user_ok (any_privilege k) (
      rule_after_ok a c user UserActionThrottling.edit_content
        (answer (allowed_on_user a c user (any_privilege k) target)) t
        (rw (change-guarded k e) at h))

module _ (a : DefaultAuthorization) (c : Context) (user : User) where
  with_forum_wide_lem :
      (privilege : ForumWidePrivilege)
      → with_forum_wide a c user privilege
        ≡ check
            (forum_levels_of a c user user user)
            (forum_wide_privilege a.forum_wide_privilege_store (forum_wide_position privilege))
  unfolding with_forum_wide is_allowed_forum_wide
  with_forum_wide_lem privilege = refl

  not_above_oneself :
      (privilege : ForumWidePrivilege) (value : ℤ)
      → IsWithin (forum_levels_of a c user user user)
      → with_forum_wide a c user privilege ≡ some value
      → optional_or_zero (forum_levels_of a c user user user).positive <ℤ value
      → ⊥
  not_above_oneself privilege value within e h =
      let l = forum_levels_of a c user user user in
      let required =
        forum_wide_privilege a.forum_wide_privilege_store (forum_wide_position privilege) in
      let sum =
        (check-IsWithin l required within).1 value (rw (with_forum_wide_lem privilege) at e) in
      let parts = +ℤ_parts (optional_or_zero l.positive) (optional_or_zero l.negative) in
      ground (arith, within.3)

  opened_deletion :
      (t : DefaultThrottling)
      → (change a c user user deletion t).0 ≡ ok
      → allowed_on_user a c user (any_privilege a c user user deletion) user ≡ ok
  unfolding delete_user
  opened_deletion t h =
      rule_after_ok a c user UserActionThrottling.edit_content
        (answer (allowed_on_user a c user (any_privilege a c user user deletion) user)) t h

  opened_quota :
      (t : DefaultThrottling)
      → (change a c user user quota t).0 ≡ ok
      → allowed_on_user a c user (any_privilege a c user user quota) user ≡ ok
  unfolding change_user_attachment_quota
  opened_quota t h =
      rule_after_ok a c user UserActionThrottling.edit_content
        (answer (allowed_on_user a c user (any_privilege a c user user quota) user)) t h

  -- While a user's levels for the whole forum lie within the limits of grants, nobody may delete himself
  -- or change his own quota for attachments, whatever his privileges: no level exceeds itself.
  pub change-oneself :
      (t : DefaultThrottling)
      → IsWithin (forum_levels_of a c user user user)
      → ((change a c user user deletion t).0 ≢ ok) × ((change a c user user quota t).0 ≢ ok)
  change-oneself t within =
      (λ h. impossible deletion (opened_deletion t h), λ h. impossible quota (opened_quota t h))
    where
      impossible :
          (k : Change) → allowed_on_user a c user (any_privilege a c user user k) user ≡ ok → ⊥
      impossible k h =
          let (value, e, above) =
            allowed_on_user_ok a c user user (any_privilege a c user user k) h in
          not_above_oneself (any_privilege a c user user k) value within e above
