-- ===== src/Authorization/Enumeration.antt =====
-- The listings of granted privileges, by entity and by user: the enumerate functions of
-- src/LibForumData/private/AuthorizationGrantedPrivilegeStore.cpp. A listing is the row of calls of
-- its callback.
pub mod Revoked
use forum.Base.Int.{ℤ}
use forum.Base.{ℕ, List, [], ◌∷◌, map, Bool, ◌==◌, if◌then◌else◌}
use forum.Authorization.Store.{PrivilegeEntry, GrantedPrivilegeStore}

-- The arguments of one call: the other id, the value, and the two times.
pub record Listed : Type 0 where
  pub id : ℕ
  pub privilege_value : ℤ
  pub granted_at : ℤ
  pub expires_at : ℤ

abbrev pub of_user : PrivilegeEntry → Listed
of_user entry = record {
  id = entry.user_id;
  privilege_value = entry.privilege_value;
  granted_at = entry.granted_at;
  expires_at = entry.expires_at;
}

abbrev pub of_entity : PrivilegeEntry → Listed
of_entity entry = record {
  id = entry.entity_id;
  privilege_value = entry.privilege_value;
  granted_at = entry.granted_at;
  expires_at = entry.expires_at;
}

-- The equal_range of the index by entity and of the index by user.
unfoldable pub by_entity : ℕ → List PrivilegeEntry → List PrivilegeEntry
by_entity id [] = []
by_entity id (entry ∷ rest) =
    let found = by_entity id rest in if entry.entity_id == id then entry ∷ found else found

unfoldable pub by_user : ℕ → List PrivilegeEntry → List PrivilegeEntry
by_user id [] = []
by_user id (entry ∷ rest) =
    let found = by_user id rest in if entry.user_id == id then entry ∷ found else found

-- The bodies that the enumerate functions share.
unfoldable pub enumerate_entity : List PrivilegeEntry → ℕ → List Listed
unfolding by_entity
enumerate_entity entries id = map of_user (by_entity id entries)

unfoldable pub enumerate_user : List PrivilegeEntry → ℕ → List Listed
unfolding by_user
enumerate_user entries id = map of_entity (by_user id entries)

module _ (s : GrantedPrivilegeStore) (id : ℕ) where
  unfoldable pub enumerate_message_privileges : List Listed
  unfolding enumerate_entity
  enumerate_message_privileges = enumerate_entity s.message_specific id

  unfoldable pub enumerate_thread_privileges : List Listed
  unfolding enumerate_entity
  enumerate_thread_privileges = enumerate_entity s.thread_specific id

  unfoldable pub enumerate_tag_privileges : List Listed
  unfolding enumerate_entity
  enumerate_tag_privileges = enumerate_entity s.tag_specific id

  unfoldable pub enumerate_category_privileges : List Listed
  unfolding enumerate_entity
  enumerate_category_privileges = enumerate_entity s.category_specific id

  -- The id is ignored: these privileges stand under the empty one.
  unfoldable pub enumerate_forum_wide_privileges : List Listed
  unfolding enumerate_entity
  enumerate_forum_wide_privileges = enumerate_entity s.forum_wide_specific 0

  unfoldable pub enumerate_message_privileges_assigned_to_user : List Listed
  unfolding enumerate_user
  enumerate_message_privileges_assigned_to_user = enumerate_user s.message_specific id

  unfoldable pub enumerate_thread_privileges_assigned_to_user : List Listed
  unfolding enumerate_user
  enumerate_thread_privileges_assigned_to_user = enumerate_user s.thread_specific id

  unfoldable pub enumerate_tag_privileges_assigned_to_user : List Listed
  unfolding enumerate_user
  enumerate_tag_privileges_assigned_to_user = enumerate_user s.tag_specific id

  unfoldable pub enumerate_category_privileges_assigned_to_user : List Listed
  unfolding enumerate_user
  enumerate_category_privileges_assigned_to_user = enumerate_user s.category_specific id

  unfoldable pub enumerate_forum_wide_privileges_assigned_to_user : List Listed
  unfolding enumerate_user
  enumerate_forum_wide_privileges_assigned_to_user = enumerate_user s.forum_wide_specific id
