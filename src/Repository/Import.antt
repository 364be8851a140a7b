-- ===== src/Repository/Import.antt =====
-- src/LibForumPersistence/private/EventImporter.cpp: what the import functions for privileges call.
use forum.Base.{Option, none, some, ℕ, List, [], ◌∷◌}
use forum.Persistence.Events.{Event}
use forum.Repository.Collection.{EntityCollection}
use forum.Repository.Common.{StatusCode, success, Written}
use forum.Repository.Changes.{
  change_discussion_thread_message_required_privilege_for_thread_message_in,
  change_discussion_thread_message_required_privilege_for_thread_in,
  change_discussion_thread_required_privilege_for_thread_in,
  change_discussion_thread_message_required_privilege_for_tag_in,
  change_discussion_thread_required_privilege_for_tag_in,
  change_discussion_tag_required_privilege_for_tag_in,
  change_discussion_category_required_privilege_for_category_in,
}
use forum.Repository.ForumChanges.{
  change_discussion_thread_message_required_privilege_in,
  change_discussion_thread_required_privilege_in, change_discussion_tag_required_privilege_in,
  change_discussion_category_required_privilege_in, change_forum_wide_required_privilege_in,
  change_forum_wide_default_privilege_level_in,
}
use forum.Repository.Grants.{
  assign_discussion_thread_message_privilege_in, assign_discussion_thread_privilege_in,
  assign_discussion_tag_privilege_in, assign_discussion_category_privilege_in,
  assign_forum_wide_privilege_in,
}

-- The time is the one that the event was written at. Events of other kinds change nothing here.
abbrev pub import_privileges : ℕ → Event → EntityCollection → StatusCode × EntityCollection
import_privileges _
      (Event.change_discussion_thread_message_required_privilege_for_thread_message message_id
        privilege value)
      c =
    change_discussion_thread_message_required_privilege_for_thread_message_in message_id privilege
      value c
import_privileges _
      (Event.change_discussion_thread_message_required_privilege_for_thread thread_id privilege
        value)
      c =
    change_discussion_thread_message_required_privilege_for_thread_in thread_id privilege value c
import_privileges _
      (Event.change_discussion_thread_required_privilege_for_thread thread_id privilege value) c =
    change_discussion_thread_required_privilege_for_thread_in thread_id privilege value c
import_privileges _
      (Event.change_discussion_thread_message_required_privilege_for_tag tag_id privilege value) c =
    change_discussion_thread_message_required_privilege_for_tag_in tag_id privilege value c
import_privileges _
      (Event.change_discussion_thread_required_privilege_for_tag tag_id privilege value) c =
    change_discussion_thread_required_privilege_for_tag_in tag_id privilege value c
import_privileges _ (Event.change_discussion_tag_required_privilege_for_tag tag_id privilege value)
      c =
    change_discussion_tag_required_privilege_for_tag_in tag_id privilege value c
import_privileges _
      (Event.change_discussion_category_required_privilege_for_category category_id privilege value)
      c =
    change_discussion_category_required_privilege_for_category_in category_id privilege value c
import_privileges _
      (Event.change_discussion_thread_message_required_privilege_forum_wide privilege value) c =
    change_discussion_thread_message_required_privilege_in privilege value c
import_privileges _ (Event.change_discussion_thread_required_privilege_forum_wide privilege value)
      c =
    change_discussion_thread_required_privilege_in privilege value c
import_privileges _ (Event.change_discussion_tag_required_privilege_forum_wide privilege value) c =
    change_discussion_tag_required_privilege_in privilege value c
import_privileges _ (Event.change_discussion_category_required_privilege_forum_wide privilege value)
      c =
    change_discussion_category_required_privilege_in privilege value c
import_privileges _ (Event.change_forum_wide_required_privilege privilege value) c =
    change_forum_wide_required_privilege_in privilege value c
import_privileges _ (Event.change_forum_wide_default_privilege_level privilege value duration) c =
    change_forum_wide_default_privilege_level_in privilege value duration c
import_privileges now
      (Event.assign_discussion_thread_message_privilege message_id user_id value duration) c =
    assign_discussion_thread_message_privilege_in message_id user_id value duration now c
import_privileges now (Event.assign_discussion_thread_privilege thread_id user_id value duration)
      c =
    assign_discussion_thread_privilege_in thread_id user_id value duration now c
import_privileges now (Event.assign_discussion_tag_privilege tag_id user_id value duration) c =
    assign_discussion_tag_privilege_in tag_id user_id value duration now c
import_privileges now
      (Event.assign_discussion_category_privilege category_id user_id value duration) c =
    assign_discussion_category_privilege_in category_id user_id value duration now c
import_privileges now (Event.assign_forum_wide_privilege user_id value duration) c =
    assign_forum_wide_privilege_in user_id value duration now c
import_privileges _ _ c = (success, c)

-- CHECK_STATUS_CODE
abbrev pub check_status_code : StatusCode × EntityCollection → Option EntityCollection
check_status_code (success, c) = some c
check_status_code (_, c) = none

abbrev pub replay : List Written → EntityCollection → Option EntityCollection
replay [] c = some c
replay (w ∷ written) c = elim (check_status_code (import_privileges w.at w.event c)) [
  | none ↦ none
  | some c' ↦ replay written c'
]
