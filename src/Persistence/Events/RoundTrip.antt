-- ===== src/Persistence/Events/RoundTrip.antt =====
-- Every event that is recorded is imported as it was. EventObserver.cpp, EventImporter.cpp.
pub mod Header
pub mod Recorded
pub mod Writable
pub mod Users
pub mod PrivateMessages
pub mod Threads
pub mod Messages
pub mod Comments
pub mod Visits
pub mod Tags
pub mod Categories
pub mod MessageRequirements
pub mod ThreadRequirements
pub mod TagRequirements
pub mod ForumRequirements
pub mod Assignments
pub mod Attachments
use forum.Base.{◌≡◌}
use forum.Persistence.Payload.{ObserverContext}
use forum.Persistence.Payload.Reading.{FitsContext}
use forum.Persistence.Events.{Event}
use forum.Persistence.Events.Importer.{called, process_event}
use forum.Persistence.Events.RoundTrip.Recorded.{record_event, recorded_context}
use forum.Persistence.Events.RoundTrip.Writable.{IsWritable}
use Users.*
use PrivateMessages.*
use Threads.*
use Messages.*
use Comments.*
use Visits.*
use Tags.*
use Categories.*
use MessageRequirements.*
use ThreadRequirements.*
use TagRequirements.*
use ForumRequirements.*
use Assignments.*
use Attachments.*

-- Every event that the observer records, of any of the 71 kinds, is imported as the same event with the same
-- values and context, where its values fit into their bytes and its names are not empty; the events of
-- visits and downloads come back with the empty context that they are written with.
pub process_event-record_event :
    (context : ObserverContext) (event : Event)
    → FitsContext context
    → IsWritable event
    → process_event (record_event context event) ≡ called (recorded_context context event) event
process_event-record_event context (Event.add_new_user _ _ _) c h =
    process_event-on_add_new_user context _ _ _ c h
process_event-record_event context (Event.change_user_name _ _) c h =
    process_event-on_change_user_name context _ _ c h
process_event-record_event context (Event.change_user_info _ _) c h =
    process_event-on_change_user_info context _ _ c h
process_event-record_event context (Event.change_user_title _ _) c h =
    process_event-on_change_user_title context _ _ c h
process_event-record_event context (Event.change_user_signature _ _) c h =
    process_event-on_change_user_signature context _ _ c h
process_event-record_event context (Event.change_user_logo _ _) c h =
    process_event-on_change_user_logo context _ _ c h
process_event-record_event context (Event.delete_user _) c h =
    process_event-on_delete_user context _ c h
process_event-record_event context (Event.add_new_discussion_thread _ _ _) c h =
    process_event-on_add_new_discussion_thread context _ _ _ c h
process_event-record_event context (Event.change_discussion_thread_name _ _) c h =
    process_event-on_change_discussion_thread_name context _ _ c h
process_event-record_event context (Event.change_discussion_thread_pin_display_order _ _) c h =
    process_event-on_change_discussion_thread_pin_display_order context _ _ c h
process_event-record_event context (Event.delete_discussion_thread _) c h =
    process_event-on_delete_discussion_thread context _ c h
process_event-record_event context (Event.merge_discussion_threads _ _) c h =
    process_event-on_merge_discussion_threads context _ _ c h
process_event-record_event context (Event.subscribe_to_discussion_thread _) c h =
    process_event-on_subscribe_to_discussion_thread context _ c h
process_event-record_event context (Event.unsubscribe_from_discussion_thread _) c h =
    process_event-on_unsubscribe_from_discussion_thread context _ c h
process_event-record_event context (Event.add_new_discussion_thread_message _ _ _ _) c h =
    process_event-on_add_new_discussion_thread_message context _ _ _ _ c h
process_event-record_event context (Event.change_discussion_thread_message_content _ _ _) c h =
    process_event-on_change_discussion_thread_message_content context _ _ _ c h
process_event-record_event context (Event.increment_discussion_thread_number_of_visits _ _) c h =
    process_event-on_increment_discussion_thread_number_of_visits context _ _ c h
process_event-record_event context (Event.move_discussion_thread_message _ _) c h =
    process_event-on_move_discussion_thread_message context _ _ c h
process_event-record_event context (Event.delete_discussion_thread_message _) c h =
    process_event-on_delete_discussion_thread_message context _ c h
process_event-record_event context (Event.discussion_thread_message_up_vote _) c h =
    process_event-on_discussion_thread_message_up_vote context _ c h
process_event-record_event context (Event.discussion_thread_message_down_vote _) c h =
    process_event-on_discussion_thread_message_down_vote context _ c h
process_event-record_event context (Event.discussion_thread_message_reset_vote _) c h =
    process_event-on_discussion_thread_message_reset_vote context _ c h
process_event-record_event context (Event.add_comment_to_discussion_thread_message _ _ _) c h =
    process_event-on_add_comment_to_discussion_thread_message context _ _ _ c h
process_event-record_event context (Event.solve_discussion_thread_message_comment _) c h =
    process_event-on_solve_discussion_thread_message_comment context _ c h
process_event-record_event context (Event.add_new_discussion_tag _ _) c h =
    process_event-on_add_new_discussion_tag context _ _ c h
process_event-record_event context (Event.change_discussion_tag_name _ _) c h =
    process_event-on_change_discussion_tag_name context _ _ c h
process_event-record_event context (Event.change_discussion_tag_ui_blob _ _) c h =
    process_event-on_change_discussion_tag_ui_blob context _ _ c h
process_event-record_event context (Event.delete_discussion_tag _) c h =
    process_event-on_delete_discussion_tag context _ c h
process_event-record_event context (Event.add_discussion_tag_to_thread _ _) c h =
    process_event-on_add_discussion_tag_to_thread context _ _ c h
process_event-record_event context (Event.remove_discussion_tag_from_thread _ _) c h =
    process_event-on_remove_discussion_tag_from_thread context _ _ c h
process_event-record_event context (Event.merge_discussion_tags _ _) c h =
    process_event-on_merge_discussion_tags context _ _ c h
process_event-record_event context (Event.add_new_discussion_category _ _ _) c h =
    process_event-on_add_new_discussion_category context _ _ _ c h
process_event-record_event context (Event.change_discussion_category_name _ _) c h =
    process_event-on_change_discussion_category_name context _ _ c h
process_event-record_event context (Event.change_discussion_category_description _ _) c h =
    process_event-on_change_discussion_category_description context _ _ c h
process_event-record_event context (Event.change_discussion_category_display_order _ _) c h =
    process_event-on_change_discussion_category_display_order context _ _ c h
process_event-record_event context (Event.change_discussion_category_parent _ _) c h =
    process_event-on_change_discussion_category_parent context _ _ c h
process_event-record_event context (Event.delete_discussion_category _) c h =
    process_event-on_delete_discussion_category context _ c h
process_event-record_event context (Event.add_discussion_tag_to_category _ _) c h =
    process_event-on_add_discussion_tag_to_category context _ _ c h
process_event-record_event context (Event.remove_discussion_tag_from_category _ _) c h =
    process_event-on_remove_discussion_tag_from_category context _ _ c h
process_event-record_event context
      (Event.change_discussion_thread_message_required_privilege_for_thread_message _ _ _) c h =
    process_event-on_change_discussion_thread_message_required_privilege_for_thread_message context
      _ _ _ c h
process_event-record_event context
      (Event.change_discussion_thread_message_required_privilege_for_thread _ _ _) c h =
    process_event-on_change_discussion_thread_message_required_privilege_for_thread context _ _ _ c
      h
process_event-record_event context
      (Event.change_discussion_thread_message_required_privilege_for_tag _ _ _) c h =
    process_event-on_change_discussion_thread_message_required_privilege_for_tag context _ _ _ c h
process_event-record_event context
      (Event.change_discussion_thread_message_required_privilege_forum_wide _ _) c h =
    process_event-on_change_discussion_thread_message_required_privilege_forum_wide context _ _ c h
process_event-record_event context
      (Event.change_discussion_thread_required_privilege_for_thread _ _ _) c h =
    process_event-on_change_discussion_thread_required_privilege_for_thread context _ _ _ c h
process_event-record_event context (Event.change_discussion_thread_required_privilege_for_tag _ _ _)
      c h =
    process_event-on_change_discussion_thread_required_privilege_for_tag context _ _ _ c h
process_event-record_event context
      (Event.change_discussion_thread_required_privilege_forum_wide _ _) c h =
    process_event-on_change_discussion_thread_required_privilege_forum_wide context _ _ c h
process_event-record_event context (Event.change_discussion_tag_required_privilege_for_tag _ _ _) c
      h =
    process_event-on_change_discussion_tag_required_privilege_for_tag context _ _ _ c h
process_event-record_event context (Event.change_discussion_tag_required_privilege_forum_wide _ _) c
      h =
    process_event-on_change_discussion_tag_required_privilege_forum_wide context _ _ c h
process_event-record_event context
      (Event.change_discussion_category_required_privilege_for_category _ _ _) c h =
    process_event-on_change_discussion_category_required_privilege_for_category context _ _ _ c h
process_event-record_event context
      (Event.change_discussion_category_required_privilege_forum_wide _ _) c h =
    process_event-on_change_discussion_category_required_privilege_forum_wide context _ _ c h
process_event-record_event context (Event.change_forum_wide_required_privilege _ _) c h =
    process_event-on_change_forum_wide_required_privilege context _ _ c h
process_event-record_event context (Event.change_forum_wide_default_privilege_level _ _ _) c h =
    process_event-on_change_forum_wide_default_privilege_level context _ _ _ c h
process_event-record_event context (Event.assign_discussion_thread_message_privilege _ _ _ _) c h =
    process_event-on_assign_discussion_thread_message_privilege context _ _ _ _ c h
process_event-record_event context (Event.assign_discussion_thread_privilege _ _ _ _) c h =
    process_event-on_assign_discussion_thread_privilege context _ _ _ _ c h
process_event-record_event context (Event.assign_discussion_tag_privilege _ _ _ _) c h =
    process_event-on_assign_discussion_tag_privilege context _ _ _ _ c h
process_event-record_event context (Event.assign_discussion_category_privilege _ _ _ _) c h =
    process_event-on_assign_discussion_category_privilege context _ _ _ _ c h
process_event-record_event context (Event.assign_forum_wide_privilege _ _ _) c h =
    process_event-on_assign_forum_wide_privilege context _ _ _ c h
process_event-record_event context (Event.quote_user_in_discussion_thread_message _ _) c h =
    process_event-on_quote_user_in_discussion_thread_message context _ _ c h
process_event-record_event context (Event.change_discussion_thread_message_approval _ _) c h =
    process_event-on_change_discussion_thread_message_approval context _ _ c h
process_event-record_event context (Event.increment_user_latest_visited_page _ _ _) c h =
    process_event-on_increment_user_latest_visited_page context _ _ _ c h
process_event-record_event context (Event.change_discussion_thread_approval _ _) c h =
    process_event-on_change_discussion_thread_approval context _ _ c h
process_event-record_event context (Event.send_private_message _ _ _) c h =
    process_event-on_send_private_message context _ _ _ c h
process_event-record_event context (Event.delete_private_message _) c h =
    process_event-on_delete_private_message context _ c h
process_event-record_event context (Event.change_user_attachment_quota _ _) c h =
    process_event-on_change_user_attachment_quota context _ _ c h
process_event-record_event context (Event.add_new_attachment _ _ _ _) c h =
    process_event-on_add_new_attachment context _ _ _ _ c h
process_event-record_event context (Event.change_attachment_name _ _) c h =
    process_event-on_change_attachment_name context _ _ c h
process_event-record_event context (Event.change_attachment_approval _ _) c h =
    process_event-on_change_attachment_approval context _ _ c h
process_event-record_event context (Event.add_attachment_to_discussion_thread_message _ _) c h =
    process_event-on_add_attachment_to_discussion_thread_message context _ _ c h
process_event-record_event context (Event.remove_attachment_from_discussion_thread_message _ _) c
      h =
    process_event-on_remove_attachment_from_discussion_thread_message context _ _ c h
process_event-record_event context (Event.delete_attachment _) c h =
    process_event-on_delete_attachment context _ c h
process_event-record_event context (Event.increment_attachment_number_of_gets _ _) c h =
    process_event-on_increment_attachment_number_of_gets context _ _ c h
process_event-record_event context (Event.add_new_discussion_thread_message_in_file _ _ _ _ _) c h =
    absurd h
