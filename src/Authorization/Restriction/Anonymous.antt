-- ===== src/Authorization/Restriction/Anonymous.antt =====
-- What a visitor who is not logged in may see. AuthorizationGrantedPrivilegeStore.h.
use forum.Base.Int.{ℤ, pos, ◌≤ℤ◌}
use forum.Base.{ℕ, none, Bool, true, ◌≡◌, ◌⊎◌, ◌↔◌, refl, arith}
use forum.Authorization.Privileges.{optional_or_zero, PrivilegeValueType}
use forum.Authorization.Entities.{
  ForumWidePrivilegeStore, DiscussionThread, DiscussionThreadMessage, is_anonymous_user,
  message_privilege, thread_privilege,
}
use forum.Authorization.Store.{GrantedPrivilegeStore}
use forum.Authorization.Allowed.Checks.{is_allowed_message_anonymous, is_allowed_thread_anonymous}
use forum.Authorization.Restriction.{
  allows_message, allows_thread, check_message_allow_view_approval,
  check_thread_allow_view_approval, is_allowed_to_view_thread, is_allowed_to_view_message,
  user_id_or_empty, message_view, message_view_unapproved, thread_view, thread_view_unapproved,
}

-- At most 0 is required.
abbrev pub IsOpen : PrivilegeValueType → Type 0
IsOpen required = optional_or_zero required ≤ℤ pos 0

-- Approved, of no user, or open to everybody.
abbrev pub IsShown : Bool → ℕ → PrivilegeValueType → Type 0
IsShown approved created_by required = (approved ≡ true) ⊎ (created_by ≡ 0) ⊎ IsOpen required

module _ (forum_wide : ForumWidePrivilegeStore) (s : GrantedPrivilegeStore) (now : ℤ) where
  allows_message_anonymous :
      (message : DiscussionThreadMessage) (privilege : ℕ)
      → (allows_message forum_wide s none now message privilege ≡ true)
        ↔ IsOpen (message_privilege forum_wide message privilege)
  unfolding allows_message
  allows_message_anonymous message privilege = ground (
    arith,
    is_allowed_message_anonymous s none now (unfold is_anonymous_user in refl) forum_wide message
        privilege,
  )

  allows_thread_anonymous :
      (thread : DiscussionThread) (privilege : ℕ)
      → (allows_thread forum_wide s none now thread privilege ≡ true)
        ↔ IsOpen (thread_privilege forum_wide thread privilege)
  unfolding allows_thread
  allows_thread_anonymous thread privilege = ground (
    arith,
    is_allowed_thread_anonymous s none now (unfold is_anonymous_user in refl) forum_wide thread
        privilege,
  )

  -- A visitor who is not logged in sees a message exactly when viewing the message and viewing its
  -- thread require at most 0, and the message and the thread are each approved, written by a visitor
  -- who was not logged in either, or require at most 0 of who views them unapproved.
  pub is_allowed_to_view_message_anonymous :
      (message : DiscussionThreadMessage)
      → let thread = message.parent_thread in
        (is_allowed_to_view_message forum_wide s none now message ≡ true) ↔ (
          IsOpen (message_privilege forum_wide message message_view)
          × IsShown message.approved message.created_by
              (message_privilege forum_wide message message_view_unapproved)
          × IsOpen (thread_privilege forum_wide thread thread_view)
          × IsShown thread.approved thread.created_by
              (thread_privilege forum_wide thread thread_view_unapproved))
  unfolding is_allowed_to_view_message check_message_allow_view_approval is_allowed_to_view_thread
      check_thread_allow_view_approval user_id_or_empty
  is_allowed_to_view_message_anonymous message =
      let thread = message.parent_thread in
      ground (
        arith,
        allows_message_anonymous message message_view,
        allows_message_anonymous message message_view_unapproved,
        allows_thread_anonymous thread thread_view,
        allows_thread_anonymous thread thread_view_unapproved,
      )
