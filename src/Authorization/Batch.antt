-- ===== src/Authorization/Batch.antt =====
-- GrantedPrivilegeStore::computeDiscussionThreadMessageVisibilityAllowed: the flags of a page of
-- messages, with what is the same for all of them computed once.
-- src/LibForumData/private/AuthorizationGrantedPrivilegeStore.cpp.
pub mod Equivalence
use forum.Base.Int.{ℤ}
use forum.Base.{ℕ, List, [], ◌∷◌, Option, Bool, is_some}
use forum.Authorization.Privileges.{
  PrivilegeValueType, maximum_privilege_value, minimum_privilege_value,
}
use forum.Authorization.Entities.{
  User, ForumWidePrivilegeStore, DiscussionThreadMessage, thread_thread_message_privilege,
  message_privilege_or,
}
use forum.Authorization.Store.{
  GrantedPrivilegeStore, Levels, no_levels, calculate_message_privilege,
  calculate_messages_of_thread,
}
use forum.Authorization.Allowed.{check}

-- The positions of the privileges in DiscussionThreadMessagePrivilege.
abbrev pub view : ℕ
view = 0

abbrev pub view_creator_user : ℕ
view_creator_user = 3

abbrev pub view_ip_address : ℕ
view_ip_address = 4

abbrev pub view_votes : ℕ
view_votes = 5

abbrev pub get_message_comments : ℕ
get_message_comments = 11

-- DiscussionThreadMessagePrivilegeCheck; its message is not null.
pub record PrivilegeCheck : Type 0 where
  pub user : Option User
  pub message : DiscussionThreadMessage
  pub allowed_to_show_message : Bool
  pub allowed_to_show_user : Bool
  pub allowed_to_show_votes : Bool
  pub allowed_to_show_ip_address : Bool
  pub allowed_to_view_comments : Bool

module _ (forum_wide : ForumWidePrivilegeStore) (s : GrantedPrivilegeStore) (now : ℤ) where
  -- The body of the loop: `thread_level` and `required` were computed from the first item.
  unfoldable pub compute_item : Levels → (ℕ → PrivilegeValueType) → PrivilegeCheck → PrivilegeCheck
  unfolding maximum_privilege_value minimum_privilege_value message_privilege_or check
      calculate_message_privilege
  compute_item thread_level required item =
      let message_level = calculate_message_privilege s item.user item.message now no_levels in
      let levels : Levels = record {
        positive = maximum_privilege_value message_level.positive thread_level.positive;
        negative = minimum_privilege_value message_level.negative thread_level.negative;
      } in
      let allowed = λ (privilege : ℕ).
        is_some (check levels (message_privilege_or item.message privilege (required privilege))) in
      record item {
        allowed_to_show_message = allowed view;
        allowed_to_show_user = allowed view_creator_user;
        allowed_to_show_votes = allowed view_votes;
        allowed_to_show_ip_address = allowed view_ip_address;
        allowed_to_view_comments = allowed get_message_comments;
      }

  unfoldable pub compute_items :
      Levels → (ℕ → PrivilegeValueType) → List PrivilegeCheck → List PrivilegeCheck
  unfolding compute_item
  compute_items thread_level required [] = []
  compute_items thread_level required (item ∷ items) =
      compute_item thread_level required item ∷ compute_items thread_level required items

  unfoldable pub compute_visibility_allowed : List PrivilegeCheck → List PrivilegeCheck
  unfolding compute_items calculate_messages_of_thread thread_thread_message_privilege
  compute_visibility_allowed [] = []
  compute_visibility_allowed (first ∷ rest) =
      compute_items
        (calculate_messages_of_thread s first.user first.message.parent_thread now no_levels)
        (thread_thread_message_privilege forum_wide first.message.parent_thread) (first ∷ rest)
