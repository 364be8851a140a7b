-- ===== src/Authorization/Store.antt =====
-- src/LibForumData/AuthorizationGrantedPrivilegeStore.h and
-- private/AuthorizationGrantedPrivilegeStore.cpp: the privileges granted to users, and the checks.
-- A collection is the list of its entries; the hashed indices promise no order.
pub mod Calculation
pub mod Order
pub mod Grants
pub mod Negative
use forum.Base.Int.{ℤ, pos, ◌+ℤ◌, min_ℤ, ltb_ℤ}
use forum.Base.{ℕ, List, [], ◌∷◌, Option, none, some, Bool, ◌&&◌, ◌==◌, if◌then◌else◌}
use forum.Authorization.Privileges.{PrivilegeValueType, to_int16, minimum_with, maximum_with}
use forum.Authorization.Entities.{
  User, DiscussionTag, DiscussionThread, DiscussionThreadMessage, is_anonymous_user,
}

pub record PrivilegeEntry : Type 0 where
  pub user_id : ℕ
  pub entity_id : ℕ
  pub privilege_value : ℤ
  pub granted_at : ℤ
  pub expires_at : ℤ

-- `message_count_bonus` is the int16_t that the configured multiplier, a double, gives for a number
-- of messages.
pub record GrantedPrivilegeStore : Type 0 where
  pub message_specific : List PrivilegeEntry
  pub thread_specific : List PrivilegeEntry
  pub tag_specific : List PrivilegeEntry
  pub category_specific : List PrivilegeEntry
  pub forum_wide_specific : List PrivilegeEntry
  pub default_privilege_value_for_logged_in_user : ℤ
  pub message_count_bonus : ℕ → ℤ
  pub max_message_count_privilege_bonus : ℤ

-- The two out-parameters that the calculations accumulate into.
pub record Levels : Type 0 where
  pub positive : PrivilegeValueType
  pub negative : PrivilegeValueType

abbrev pub no_levels : Levels
no_levels = record { positive = none; negative = none }

abbrev pub has_key : ℕ → ℕ → PrivilegeEntry → Bool
has_key user_id entity_id entry = entry.user_id == user_id && entry.entity_id == entity_id

-- The index by user and entity: all entries with the key, and the erasure of all of them.
unfoldable pub equal_range : ℕ → ℕ → List PrivilegeEntry → List PrivilegeEntry
equal_range user_id entity_id [] = []
equal_range user_id entity_id (entry ∷ rest) =
    let found = equal_range user_id entity_id rest in
    if has_key user_id entity_id entry then entry ∷ found else found

unfoldable pub erase : ℕ → ℕ → List PrivilegeEntry → List PrivilegeEntry
erase user_id entity_id [] = []
erase user_id entity_id (entry ∷ rest) =
    let kept = erase user_id entity_id rest in
    if has_key user_id entity_id entry then kept else entry ∷ kept

-- The common body of the five functions that grant: a value of 0 revokes.
unfoldable pub grant : List PrivilegeEntry → ℕ → ℕ → ℤ → ℤ → ℤ → List PrivilegeEntry
unfolding erase
grant entries user_id entity_id (pos value) now expires_at =
    if value == 0
    then erase user_id entity_id entries
    else (record {
      user_id = user_id;
      entity_id = entity_id;
      privilege_value = pos value;
      granted_at = now;
      expires_at = expires_at;
    })
      ∷ entries
grant entries user_id entity_id value now expires_at =
    (record {
      user_id = user_id;
      entity_id = entity_id;
      privilege_value = value;
      granted_at = now;
      expires_at = expires_at;
    })
    ∷ entries

module _ (s : GrantedPrivilegeStore) (user_id entity_id : ℕ) (value now expires_at : ℤ) where
  unfoldable pub grant_discussion_thread_message_privilege : GrantedPrivilegeStore
  unfolding grant
  grant_discussion_thread_message_privilege = record s {
    message_specific = grant s.message_specific user_id entity_id value now expires_at;
  }

  unfoldable pub grant_discussion_thread_privilege : GrantedPrivilegeStore
  unfolding grant
  grant_discussion_thread_privilege = record s {
    thread_specific = grant s.thread_specific user_id entity_id value now expires_at;
  }

  unfoldable pub grant_discussion_tag_privilege : GrantedPrivilegeStore
  unfolding grant
  grant_discussion_tag_privilege = record s {
    tag_specific = grant s.tag_specific user_id entity_id value now expires_at;
  }

  unfoldable pub grant_discussion_category_privilege : GrantedPrivilegeStore
  unfolding grant
  grant_discussion_category_privilege = record s {
    category_specific = grant s.category_specific user_id entity_id value now expires_at;
  }

  unfoldable pub grant_forum_wide_privilege : GrantedPrivilegeStore
  unfolding grant
  grant_forum_wide_privilege = record s {
    forum_wide_specific = grant s.forum_wide_specific user_id entity_id value now expires_at;
  }

-- `(expiresAt > 0) && (expiresAt < now)`
abbrev pub is_expired : ℤ → PrivilegeEntry → Bool
is_expired now entry = ltb_ℤ (pos 0) entry.expires_at && ltb_ℤ entry.expires_at now

unfoldable pub apply_entry : ℤ → PrivilegeEntry → Levels → Levels
unfolding maximum_with minimum_with
apply_entry now entry l =
    if is_expired now entry
    then l
    else if ltb_ℤ (pos 0) entry.privilege_value
    then record l { positive = maximum_with l.positive entry.privilege_value }
    else record l { negative = minimum_with l.negative entry.privilege_value }

unfoldable pub apply_entries : ℤ → List PrivilegeEntry → Levels → Levels
unfolding apply_entry
apply_entries now [] l = l
apply_entries now (entry ∷ rest) l = apply_entries now rest (apply_entry now entry l)

module _ (s : GrantedPrivilegeStore) where
  unfoldable pub default_positive_value : User → ℤ
  unfolding to_int16 ◌+ℤ◌
  default_positive_value user = to_int16 (
      s.default_privilege_value_for_logged_in_user
      +ℤ min_ℤ s.max_message_count_privilege_bonus (s.message_count_bonus user.message_count))

  unfoldable pub calculate_privilege : List PrivilegeEntry → Option User → ℕ → ℤ → Levels → Levels
  unfolding maximum_with default_positive_value apply_entries equal_range
  calculate_privilege collection none entity_id now l = record l {
    positive = maximum_with l.positive (pos 0);
  }
  calculate_privilege collection (some user) entity_id now l =
      if is_anonymous_user (some user)
      then record l { positive = maximum_with l.positive (pos 0) }
      else apply_entries now (equal_range user.id entity_id collection)
          (record l { positive = maximum_with l.positive (default_positive_value user) })

  module _ (user : Option User) where
    unfoldable pub calculate_message_privilege : DiscussionThreadMessage → ℤ → Levels → Levels
    unfolding calculate_privilege
    calculate_message_privilege message now =
        calculate_privilege s.message_specific user message.id now

    unfoldable pub calculate_thread_privilege : DiscussionThread → ℤ → Levels → Levels
    unfolding calculate_privilege
    calculate_thread_privilege thread now = calculate_privilege s.thread_specific user thread.id now

    unfoldable pub calculate_tag_privilege : DiscussionTag → ℤ → Levels → Levels
    unfolding calculate_privilege
    calculate_tag_privilege tag now = calculate_privilege s.tag_specific user tag.id now

    unfoldable pub calculate_category_privilege : ℕ → ℤ → Levels → Levels
    unfolding calculate_privilege
    calculate_category_privilege category_id now =
        calculate_privilege s.category_specific user category_id now

    unfoldable pub calculate_forum_wide_privilege : ℤ → Levels → Levels
    unfolding calculate_privilege
    calculate_forum_wide_privilege now = calculate_privilege s.forum_wide_specific user 0 now

    -- The loop over a thread's tags.
    unfoldable pub calculate_tags : List DiscussionTag → ℤ → Levels → Levels
    unfolding calculate_tag_privilege
    calculate_tags [] now l = l
    calculate_tags (tag ∷ tags) now l = calculate_tags tags now (calculate_tag_privilege tag now l)

    -- The loop from a category's parent up to the root.
    unfoldable pub calculate_parents : List ℕ → ℤ → Levels → Levels
    unfolding calculate_category_privilege
    calculate_parents [] now l = l
    calculate_parents (parent ∷ parents) now l =
        calculate_parents parents now (calculate_category_privilege parent now l)

    -- calculateDiscussionThreadMessagePrivilege of a thread.
    unfoldable pub calculate_messages_of_thread : DiscussionThread → ℤ → Levels → Levels
    unfolding calculate_thread_privilege calculate_tags calculate_forum_wide_privilege
    calculate_messages_of_thread thread now l =
        calculate_forum_wide_privilege now
          (calculate_tags thread.tags now (calculate_thread_privilege thread now l))
