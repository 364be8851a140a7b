-- ===== src/Authorization/Restriction.antt =====
-- SerializationRestriction of src/LibForumData/AuthorizationGrantedPrivilegeStore.h: what of an
-- answer a user may see.
pub mod Anonymous
use forum.Base.Int.{ℤ}
use forum.Base.{ℕ, List, Option, none, some, Bool, ◌&&◌, ◌||◌, ◌==◌, is_some, true, if◌then◌else◌}
use forum.Authorization.Entities.{
  User, ForumWidePrivilegeStore, DiscussionTag, DiscussionThread, DiscussionThreadMessage,
  DiscussionCategory,
}
use forum.Authorization.Store.{GrantedPrivilegeStore}
use forum.Authorization.Allowed.{
  is_allowed_message, is_allowed_thread, is_allowed_tag, is_allowed_category, is_allowed_forum_wide,
}

pub record Attachment : Type 0 where
  pub created_by : ℕ
  pub approved : Bool
  pub messages : List DiscussionThreadMessage

-- The positions of the privileges in their enumerations.
abbrev pub message_view : ℕ
message_view = 0

abbrev pub message_view_unapproved : ℕ
message_view_unapproved = 16

abbrev pub message_view_attachment : ℕ
message_view_attachment = 18

abbrev pub message_view_unapproved_attachment : ℕ
message_view_unapproved_attachment = 19

abbrev pub thread_view : ℕ
thread_view = 0

abbrev pub thread_view_unapproved : ℕ
thread_view_unapproved = 15

abbrev pub get_all_attachments : ℕ
get_all_attachments = 41

abbrev pub get_attachments_of_user : ℕ
get_attachments_of_user = 42

unfoldable pub user_id_or_empty : Option User → ℕ
user_id_or_empty none = 0
user_id_or_empty (some user) = user.id

module _ (forum_wide : ForumWidePrivilegeStore) (s : GrantedPrivilegeStore) (user : Option User)
    (now : ℤ) where
  unfoldable pub allows_message : DiscussionThreadMessage → ℕ → Bool
  unfolding is_allowed_message
  allows_message message privilege =
      is_some (is_allowed_message forum_wide s user message privilege now)

  unfoldable pub allows_thread : DiscussionThread → ℕ → Bool
  unfolding is_allowed_thread
  allows_thread thread privilege =
      is_some (is_allowed_thread forum_wide s user thread privilege now)

  unfoldable pub allows_tag : DiscussionTag → ℕ → Bool
  unfolding is_allowed_tag
  allows_tag tag privilege = is_some (is_allowed_tag forum_wide s user tag privilege now)

  unfoldable pub allows_category : DiscussionCategory → ℕ → Bool
  unfolding is_allowed_category
  allows_category category privilege =
      is_some (is_allowed_category forum_wide s user category privilege now)

  unfoldable pub allows_forum_wide : ℕ → Bool
  unfolding is_allowed_forum_wide
  allows_forum_wide privilege = is_some (is_allowed_forum_wide forum_wide s user privilege now)

  unfoldable pub is_allowed_to_view_any_attachment : Bool
  unfolding allows_forum_wide
  is_allowed_to_view_any_attachment =
      allows_forum_wide get_all_attachments || allows_forum_wide get_attachments_of_user

  unfoldable pub is_allowed_to_view_attachment : Attachment → DiscussionThreadMessage → Bool
  unfolding user_id_or_empty allows_message
  is_allowed_to_view_attachment attachment message =
      message.created_by == user_id_or_empty user
      || attachment.created_by == user_id_or_empty user
      || attachment.approved
      || allows_message message message_view_unapproved_attachment

  unfoldable pub is_allowed_to_view_message_attachments : DiscussionThreadMessage → Bool
  unfolding allows_message
  is_allowed_to_view_message_attachments message = allows_message message message_view_attachment

  unfoldable pub check_message_allow_view_approval : DiscussionThreadMessage → Bool
  unfolding user_id_or_empty allows_message
  check_message_allow_view_approval message =
      if message.approved
      then true
      else message.created_by == user_id_or_empty user
        || allows_message message message_view_unapproved

  unfoldable pub check_thread_allow_view_approval : DiscussionThread → Bool
  unfolding user_id_or_empty allows_thread
  check_thread_allow_view_approval thread =
      if thread.approved
      then true
      else thread.created_by == user_id_or_empty user || allows_thread thread thread_view_unapproved

  unfoldable pub is_allowed_to_view_thread : DiscussionThread → Bool
  unfolding allows_thread check_thread_allow_view_approval
  is_allowed_to_view_thread thread =
      allows_thread thread thread_view && check_thread_allow_view_approval thread

  unfoldable pub is_allowed_to_view_message : DiscussionThreadMessage → Bool
  unfolding allows_message check_message_allow_view_approval is_allowed_to_view_thread
  is_allowed_to_view_message message =
      allows_message message message_view
      && check_message_allow_view_approval message
      && is_allowed_to_view_thread message.parent_thread
