-- ===== src/Repository/Collection.antt =====
-- src/LibForumData/EntityCollection.h: what the repositories change of the entities. Entities that others
-- point to are found by their ids, so that a change of one shows wherever it is pointed to.
use forum.Base.{ℕ, ◌==◌, List, [], ◌∷◌, Option, none, some, Bool, if◌then◌else◌}
use forum.Base.Int.{ℤ}
use forum.Authorization.Privileges.{PrivilegeArray}
use forum.Authorization.Entities.{
  User, ForumWidePrivilegeStore, DiscussionTag, DiscussionThread, DiscussionThreadMessage,
  DiscussionCategory,
}
use forum.Authorization.Store.{GrantedPrivilegeStore}

-- A thread, which points to its tags, and a message, which points to its thread.
pub record ThreadEntity : Type 0 where
  pub id : ℕ
  pub created_by : ℕ
  pub message_count : ℕ
  pub approved : Bool
  pub tag_ids : List ℕ
  pub thread_message_privileges : Option PrivilegeArray
  pub thread_privileges : PrivilegeArray

pub record MessageEntity : Type 0 where
  pub id : ℕ
  pub created_by : ℕ
  pub approved : Bool
  pub parent_thread_id : ℕ
  pub thread_message_privileges : Option PrivilegeArray

-- PrivilegeDefaultLevel
pub record PrivilegeDefaultLevel : Type 0 where
  pub value : ℤ
  pub duration : ℤ

pub record EntityCollection : Type 0 where
  pub users : List User
  pub threads : List ThreadEntity
  pub thread_messages : List MessageEntity
  pub tags : List DiscussionTag
  pub categories : List DiscussionCategory
  pub granted_privileges : GrantedPrivilegeStore
  pub forum_wide : ForumWidePrivilegeStore
  pub default_levels : List (Option PrivilegeDefaultLevel)

-- The search in an index by id, and a change of what is found.
abbrev pub find_by : {A : Type 0} → (A → ℕ) → ℕ → List A → Option A
find_by key id [] = none
find_by key id (x ∷ xs) = let rest = find_by key id xs in if key x == id then some x else rest

abbrev pub modify_by : {A : Type 0} → (A → ℕ) → ℕ → (A → A) → List A → List A
modify_by key id f [] = []
modify_by key id f (x ∷ xs) =
    let rest = modify_by key id f xs in if key x == id then f x ∷ xs else x ∷ rest

module _ (c : EntityCollection) where
  unfoldable pub find_user : ℕ → Option User
  find_user id = find_by (λ u. u.id) id c.users

  unfoldable pub find_tag : ℕ → Option DiscussionTag
  find_tag id = find_by (λ t. t.id) id c.tags

  unfoldable pub find_category : ℕ → Option DiscussionCategory
  find_category id = find_by (λ t. t.id) id c.categories

  -- The tags that a thread points to.
  abbrev find_tags : List ℕ → List DiscussionTag
  find_tags [] = []
  find_tags (id ∷ ids) =
      let rest = find_tags ids in
      elim (find_by (λ t. t.id) id c.tags) [ none ↦ rest | some tag ↦ tag ∷ rest ]

  abbrev to_thread : ThreadEntity → DiscussionThread
  to_thread t = record {
    id = t.id;
    created_by = t.created_by;
    message_count = t.message_count;
    approved = t.approved;
    tags = find_tags t.tag_ids;
    thread_message_privileges = t.thread_message_privileges;
    thread_privileges = t.thread_privileges;
  }

  abbrev to_message : MessageEntity → DiscussionThread → DiscussionThreadMessage
  to_message m thread = record {
    id = m.id;
    created_by = m.created_by;
    approved = m.approved;
    parent_thread = thread;
    thread_message_privileges = m.thread_message_privileges;
  }

  unfoldable pub find_thread : ℕ → Option DiscussionThread
  find_thread id = elim (find_by (λ t. t.id) id c.threads) [
    | none ↦ none
    | some thread ↦ some (to_thread thread)
  ]

  -- Every message has a thread.
  unfoldable pub find_message : ℕ → Option DiscussionThreadMessage
  unfolding find_thread
  find_message id = elim (find_by (λ t. t.id) id c.thread_messages) [
    | none ↦ none
    | some message ↦ elim (find_thread message.parent_thread_id) [
      | none ↦ none
      | some thread ↦ some (to_message message thread)
    ]
  ]
