-- ===== src/Authorization/Tests.antt =====
-- Runs of the authorization code on a small forum.
use mathlib.Core.List.{Permᴰ}
use forum.Base.Int.{ℤ, pos, negsuc, ◌+ℤ◌, ◌≤ℤ◌, leb_ℤ}
use forum.Authorization.Privileges.{optional_or_zero, set_lazy_privilege, get_lazy_privilege}
use forum.Authorization.Privileges.Arrays.{IsSized, get_lazy_privilege-set_lazy}
use forum.Base.{
  ◌++◌, ◌+◌, length, get_or, ltb, ◌==◌, ◌&&◌, ℕ, ◌%◌, List, [], ◌∷◌, none, some, true, false, ◌≡◌,
  refl, replicate, arith, ◌≢◌, ◌⊎◌, ◌↔◌, map, is_some, if◌then◌else◌,
}
use forum.Authorization.Throttling.{throttling_check, is_allowed}
use forum.Authorization.Throttling.Queue.{actions, is_allowed-actions}
use forum.Authorization.Store.Negative.{IsLowest, calculate_privilege-IsLowest}
use forum.Authorization.Entities.{
  User, ForumWidePrivilegeStore, DiscussionThread, DiscussionThreadMessage, is_anonymous_user,
  thread_privilege_count, tag_privilege_count, category_privilege_count, forum_wide_privilege_count,
  thread_message_privilege_count, message_privilege, thread_privilege,
}
use forum.Authorization.Store.{
  PrivilegeEntry, GrantedPrivilegeStore, no_levels, calculate_privilege, default_positive_value,
  Levels, grant,
}
use forum.Authorization.Store.Order.{calculate_privilege-perm}
use forum.Authorization.Store.Grants.{
  calculate_privilege-grant, calculate_privilege-IsHighest, IsHighest,
}
use forum.Authorization.Allowed.Checks.{check-IsWithin, is_allowed_message_anonymous}
use forum.Authorization.Allowed.{check, is_allowed_message}
use forum.Authorization.Batch.{PrivilegeCheck, compute_visibility_allowed}
use forum.Authorization.Batch.Equivalence.{
  checked_alone, compute_visibility_allowed-is_allowed_message,
}
use forum.Authorization.Enumeration.{enumerate_entity, enumerate_user}
use forum.Authorization.Enumeration.Revoked.{without, enumerate-revoke}
use forum.Authorization.Restriction.{is_allowed_to_view_message}
use forum.Authorization.Restriction.Anonymous.{
  IsOpen, IsShown, is_allowed_to_view_message_anonymous,
}

abbrev pub alice : User
alice = record { id = 1; message_count = 10 }

abbrev given : ℕ → ℕ → ℤ → PrivilegeEntry
given user_id entity_id value = record {
  user_id = user_id;
  entity_id = entity_id;
  privilege_value = value;
  granted_at = pos 5;
  expires_at = pos 0;
}

abbrev granted : List PrivilegeEntry
granted = given 1 7 (pos 100) ∷ given 1 7 (negsuc 9) ∷ given 2 7 (pos 300) ∷ []

abbrev granted_swapped : List PrivilegeEntry
granted_swapped = given 1 7 (negsuc 9) ∷ given 1 7 (pos 100) ∷ given 2 7 (pos 300) ∷ []

abbrev pub store : GrantedPrivilegeStore
store = record {
  message_specific = granted;
  thread_specific = [];
  tag_specific = [];
  category_specific = [];
  forum_wide_specific = [];
  default_privilege_value_for_logged_in_user = pos 10;
  message_count_bonus = λ n. pos (n % 100);
  max_message_count_privilege_bonus = pos 5;
}

abbrev pub forum_wide : ForumWidePrivilegeStore
forum_wide = record {
  thread_message_privileges = none;
  thread_privileges = replicate thread_privilege_count none;
  tag_privileges = replicate tag_privilege_count none;
  category_privileges = replicate category_privilege_count none;
  forum_wide_privileges = replicate forum_wide_privilege_count none;
}

abbrev pub thread : DiscussionThread
thread = record {
  id = 3;
  created_by = 2;
  message_count = 1;
  approved = true;
  tags = [];
  thread_message_privileges = none;
  thread_privileges = replicate thread_privilege_count none;
}

abbrev pub message : DiscussionThreadMessage
message = record {
  id = 7;
  created_by = 2;
  approved = true;
  parent_thread = thread;
  thread_message_privileges = some (replicate thread_message_privilege_count (some (pos 50)));
}

abbrev item : PrivilegeCheck
item = record {
  user = some alice;
  message = message;
  allowed_to_show_message = false;
  allowed_to_show_user = false;
  allowed_to_show_votes = false;
  allowed_to_show_ip_address = false;
  allowed_to_view_comments = false;
}

-- 100, the highest positive value, and -10.
levels_test :
    calculate_privilege store granted (some alice) 7 (pos 20) no_levels
    ≡ record { positive = some (pos 100); negative = some (negsuc 9) }
unfolding calculate_privilege is_anonymous_user
levels_test = refl

allowed_test : is_allowed_message forum_wide store (some alice) message 0 (pos 20) ≡ some (pos 90)
unfolding is_allowed_message is_anonymous_user
allowed_test = refl

calculate_privilege-perm_example :
    calculate_privilege store granted (some alice) 7 (pos 20) no_levels
    ≡ calculate_privilege store granted_swapped (some alice) 7 (pos 20) no_levels
calculate_privilege-perm_example =
    calculate_privilege-perm store granted granted_swapped (some alice) 7 (pos 20) no_levels
      ∣ Permᴰ.swap refl refl ∣₁

calculate_privilege-grant_example :
    (◌≢◌ {A = ℕ} 1 2 ⊎ ◌≢◌ {A = ℕ} 7 7
      → calculate_privilege store
          (grant granted 2 7 (pos 40) (pos 6) (pos 0))
          (some alice)
          7
          (pos 20)
          no_levels
        ≡ calculate_privilege store granted (some alice) 7 (pos 20) no_levels)
    × (calculate_privilege store
          (grant granted 1 7 (pos 0) (pos 6) (pos 0))
          (some alice)
          7
          (pos 20)
          no_levels
        ≡ calculate_privilege store [] (some alice) 7 (pos 20) no_levels)
calculate_privilege-grant_example =
    calculate_privilege-grant store alice granted 2 7 (pos 40) (pos 6) (pos 0) (pos 20) 7 no_levels

calculate_privilege-IsHighest_example :
    (p : ℤ) × ((calculate_privilege store granted (some alice) 7 (pos 20) no_levels).positive
      ≡ some p)
    × IsHighest 1 7 (pos 20) granted (default_positive_value store alice) p
calculate_privilege-IsHighest_example =
    calculate_privilege-IsHighest store granted alice 7 (pos 20) (unfold is_anonymous_user in refl)

abbrev levels : Levels
levels = record { positive = some (pos 100); negative = some (negsuc 9) }

check-IsWithin_example :
    ((is_some (check levels (some (pos 90))) ≡ true) ↔ (
      optional_or_zero (some (pos 90))
      ≤ℤ optional_or_zero levels.positive +ℤ optional_or_zero levels.negative))
    × ((v : ℤ)
        → check levels (some (pos 90)) ≡ some v
        → v ≡ optional_or_zero levels.positive +ℤ optional_or_zero levels.negative)
check-IsWithin_example =
    check-IsWithin levels (some (pos 90))
      (unfold optional_or_zero in (omega arith, omega arith, omega arith, omega arith))

is_allowed_message_anonymous_example :
    is_allowed_message forum_wide store none message 0 (pos 20) ≡ (
      if leb_ℤ (optional_or_zero (message_privilege forum_wide message 0)) (pos 0)
      then some (pos 0)
      else none)
is_allowed_message_anonymous_example =
    is_allowed_message_anonymous store none (pos 20) (unfold is_anonymous_user in refl) forum_wide
      message 0

compute_visibility_allowed-is_allowed_message_example :
    compute_visibility_allowed forum_wide store (pos 20) (item ∷ item ∷ [])
    ≡ map (checked_alone forum_wide store (pos 20)) (item ∷ item ∷ [])
compute_visibility_allowed-is_allowed_message_example =
    compute_visibility_allowed-is_allowed_message forum_wide store (pos 20) item (item ∷ [])
      ((refl, refl), tt)

enumerate-revoke_example :
    (enumerate_entity (grant granted 1 7 (pos 0) (pos 6) (pos 0)) 7
      ≡ without 1 (enumerate_entity granted 7))
    × (enumerate_user (grant granted 1 7 (pos 0) (pos 6) (pos 0)) 1
        ≡ without 7 (enumerate_user granted 1))
enumerate-revoke_example = enumerate-revoke granted 1 7 (pos 6) (pos 0)

is_allowed_to_view_message_anonymous_example :
    (is_allowed_to_view_message forum_wide store none (pos 20) message ≡ true) ↔ (
      IsOpen (message_privilege forum_wide message 0)
      × IsShown true 2 (message_privilege forum_wide message 16)
      × IsOpen (thread_privilege forum_wide thread 0)
      × IsShown true 2 (thread_privilege forum_wide thread 15))
is_allowed_to_view_message_anonymous_example =
    is_allowed_to_view_message_anonymous forum_wide store (pos 20) message

calculate_privilege-IsLowest_example :
    IsLowest 1 7
      (pos 20)
      granted
      (calculate_privilege store granted (some alice) 7 (pos 20) no_levels).negative
calculate_privilege-IsLowest_example =
    calculate_privilege-IsLowest store granted alice 7 (pos 20) (unfold is_anonymous_user in refl)

get_lazy_privilege-set_lazy_example :
    (get_lazy_privilege 22 (set_lazy_privilege 22 none 3 (pos 5)) 3
      ≡ (if 3 == 3 && ltb 3 22 then some (pos 5) else get_lazy_privilege 22 none 3))
    × IsSized 22 (set_lazy_privilege 22 none 3 (pos 5))
get_lazy_privilege-set_lazy_example = get_lazy_privilege-set_lazy 22 none 3 3 (pos 5) tt

abbrev times : List ℕ
times = 100 ∷ 103 ∷ 105 ∷ []

-- Three actions, then a fourth one within ten seconds of the second.
is_allowed-actions_example :
    (is_allowed (actions (throttling_check 2 10) times) 109).0
    ≡ ltb 109 (get_or (replicate 2 0 ++ times) (length times) 0 + 10)
is_allowed-actions_example = is_allowed-actions 2 10 times 109 (omega arith) (omega arith)
