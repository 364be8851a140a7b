-- ===== src/Authorization/Batch/Equivalence.antt =====
-- The batch gives each message the answers of the single check.
use forum.Base.Int.{ℤ}
use forum.Base.All.{All}
use forum.Base.{ℕ, List, [], ◌∷◌, Option, is_some, map, ◌≡◌, refl, sym, ap}
use forum.Authorization.Entities.{
  User, ForumWidePrivilegeStore, DiscussionThread, DiscussionThreadMessage,
  thread_thread_message_privilege, message_privilege, message_privilege_or,
}
use forum.Authorization.Store.Calculation.{join, calculate_messages_of_thread-Contributes}
use forum.Authorization.Store.{
  GrantedPrivilegeStore, no_levels, calculate_message_privilege, calculate_messages_of_thread,
}
use forum.Authorization.Allowed.{check, is_allowed_message}
use forum.Authorization.Batch.{
  PrivilegeCheck, compute_item, compute_items, compute_visibility_allowed, view, view_creator_user,
  view_votes, view_ip_address, get_message_comments,
}

module _ (forum_wide : ForumWidePrivilegeStore) (s : GrantedPrivilegeStore) (now : ℤ) where
  -- The item with each flag set by a check of its own.
  abbrev pub checked_alone : PrivilegeCheck → PrivilegeCheck
  checked_alone item =
      let allowed = λ (privilege : ℕ).
        is_some (is_allowed_message forum_wide s item.user item.message privilege now) in
      record item {
        allowed_to_show_message = allowed view;
        allowed_to_show_user = allowed view_creator_user;
        allowed_to_show_votes = allowed view_votes;
        allowed_to_show_ip_address = allowed view_ip_address;
        allowed_to_view_comments = allowed get_message_comments;
      }

  -- The item is for this user, and its message is in this thread.
  abbrev pub IsOfPage : Option User → DiscussionThread → PrivilegeCheck → Type 0
  IsOfPage user thread item = (item.user ≡ user) × (item.message.parent_thread ≡ thread)

  is_allowed_message-join :
      (user : Option User) (message : DiscussionThreadMessage) (privilege : ℕ)
      → is_allowed_message forum_wide s user message privilege now
        ≡ check
            (join
              (calculate_message_privilege s user message now no_levels)
              (calculate_messages_of_thread s user message.parent_thread now no_levels))
            (message_privilege_or message privilege
              (thread_thread_message_privilege forum_wide message.parent_thread privilege))
  unfolding is_allowed_message message_privilege message_privilege_or
  is_allowed_message-join user message privilege =
      ap (λ l. check l (message_privilege forum_wide message privilege))
        (calculate_messages_of_thread-Contributes s user now message.parent_thread
          (calculate_message_privilege s user message now no_levels))

  compute_item_lem :
      (item : PrivilegeCheck)
      → compute_item forum_wide s now
          (calculate_messages_of_thread s item.user item.message.parent_thread now no_levels)
          (thread_thread_message_privilege forum_wide item.message.parent_thread)
          item
        ≡ checked_alone item
  unfolding compute_item join
  compute_item_lem item =
      let same = λ (privilege : ℕ).
        ap is_some (sym (is_allowed_message-join item.user item.message privilege)) in
      λ i. record item {
        allowed_to_show_message = same view i;
        allowed_to_show_user = same view_creator_user i;
        allowed_to_show_votes = same view_votes i;
        allowed_to_show_ip_address = same view_ip_address i;
        allowed_to_view_comments = same get_message_comments i;
      }

  compute_items_lem :
      (user : Option User) (thread : DiscussionThread) (items : List PrivilegeCheck)
      → All (IsOfPage user thread) items
      → compute_items forum_wide s now
          (calculate_messages_of_thread s user thread now no_levels)
          (thread_thread_message_privilege forum_wide thread)
          items
        ≡ map checked_alone items
  unfolding compute_items
  compute_items_lem user thread [] h = refl
  compute_items_lem user thread (item ∷ items) h =
      λ i. head i ∷ compute_items_lem user thread items h.1 i
    where
      head :
          compute_item forum_wide s now
            (calculate_messages_of_thread s user thread now no_levels)
            (thread_thread_message_privilege forum_wide thread)
            item
          ≡ checked_alone item
      head = rw (← h.0.0, ← h.0.1) (compute_item_lem item)

  -- For a page of messages of one thread, asked for by one user, the batch computes for every message
  -- exactly the five answers that is_allowed_message gives for it alone.
  pub compute_visibility_allowed-is_allowed_message :
      (first : PrivilegeCheck) (rest : List PrivilegeCheck)
      → All (IsOfPage first.user first.message.parent_thread) rest
      → compute_visibility_allowed forum_wide s now (first ∷ rest)
        ≡ map checked_alone (first ∷ rest)
  unfolding compute_visibility_allowed
  compute_visibility_allowed-is_allowed_message first rest h =
      compute_items_lem first.user first.message.parent_thread (first ∷ rest) ((refl, refl), h)
