-- ===== src/Authorization/Enumeration/Revoked.antt =====
-- What a listing shows after a revocation. AuthorizationGrantedPrivilegeStore.cpp.
use forum.Base.Int.{ℤ, pos}
use forum.Base.{ℕ, List, [], ◌∷◌, ◌==◌, ◌≡◌, refl, if◌then◌else◌, arith}
use forum.Authorization.Store.{PrivilegeEntry, erase, grant}
use forum.Authorization.Enumeration.{Listed, by_entity, by_user, enumerate_entity, enumerate_user}

-- A listing less the lines of one id.
abbrev pub without : ℕ → List Listed → List Listed
without id [] = []
without id (line ∷ lines) = if line.id == id then without id lines else line ∷ without id lines

enumerate_entity-erase :
    (user_id entity_id : ℕ) (c : List PrivilegeEntry)
    → enumerate_entity (erase user_id entity_id c) entity_id
      ≡ without user_id (enumerate_entity c entity_id)
unfolding erase enumerate_entity by_entity
enumerate_entity-erase user_id entity_id [] = refl
enumerate_entity-erase user_id entity_id (entry ∷ c) =
    ground (arith, enumerate_entity-erase user_id entity_id c)

enumerate_user-erase :
    (user_id entity_id : ℕ) (c : List PrivilegeEntry)
    → enumerate_user (erase user_id entity_id c) user_id
      ≡ without entity_id (enumerate_user c user_id)
unfolding erase enumerate_user by_user
enumerate_user-erase user_id entity_id [] = refl
enumerate_user-erase user_id entity_id (entry ∷ c) =
    ground (arith, enumerate_user-erase user_id entity_id c)

-- After a privilege of a user on an entity is revoked, by granting 0, the listing of the entity is
-- the one before without the user's lines, and the listing of the user the one before without the
-- entity's lines.
pub enumerate-revoke :
    (c : List PrivilegeEntry) (user_id entity_id : ℕ) (now expires_at : ℤ)
    → (enumerate_entity (grant c user_id entity_id (pos 0) now expires_at) entity_id
        ≡ without user_id (enumerate_entity c entity_id))
      × (enumerate_user (grant c user_id entity_id (pos 0) now expires_at) user_id
          ≡ without entity_id (enumerate_user c user_id))
unfolding grant
enumerate-revoke c user_id entity_id now expires_at =
    (enumerate_entity-erase user_id entity_id c, enumerate_user-erase user_id entity_id c)
