-- ===== src/Persistence/Events/RoundTrip/Recorded.antt =====
-- What is written for an event. EventObserver.cpp.
use forum.Base.{some, Bytes, ◌≡◌, []}
use forum.Persistence.Payload.{ObserverContext, empty_context}
use forum.Persistence.Events.{Event}
use forum.Persistence.Events.Importer.{called, process_event}
use forum.Persistence.Events.Observer.Users.{
  on_add_new_user, on_change_user_name, on_change_user_info, on_change_user_title,
  on_change_user_signature, on_change_user_logo, on_delete_user, on_change_user_attachment_quota,
  on_send_private_message, on_delete_private_message,
}
use forum.Persistence.Events.Observer.Threads.{
  on_add_new_discussion_thread, on_change_discussion_thread_name,
  on_change_discussion_thread_pin_display_order, on_delete_discussion_thread,
  on_merge_discussion_threads, on_subscribe_to_discussion_thread,
  on_unsubscribe_from_discussion_thread, on_change_discussion_thread_approval,
}
use forum.Persistence.Events.Observer.Messages.{
  on_add_new_discussion_thread_message, on_change_discussion_thread_message_content,
  on_move_discussion_thread_message, on_delete_discussion_thread_message,
  on_change_discussion_thread_message_approval, on_discussion_thread_message_up_vote,
  on_discussion_thread_message_down_vote, on_discussion_thread_message_reset_vote,
  on_add_comment_to_discussion_thread_message, on_solve_discussion_thread_message_comment,
  on_quote_user_in_discussion_thread_message,
}
use forum.Persistence.Events.Observer.Visits.{
  on_increment_discussion_thread_number_of_visits, on_increment_user_latest_visited_page,
}
use forum.Persistence.Events.Observer.Tags.{
  on_add_new_discussion_tag, on_change_discussion_tag_name, on_change_discussion_tag_ui_blob,
  on_delete_discussion_tag, on_add_discussion_tag_to_thread, on_remove_discussion_tag_from_thread,
  on_merge_discussion_tags,
}
use forum.Persistence.Events.Observer.Categories.{
  on_add_new_discussion_category, on_change_discussion_category_name,
  on_change_discussion_category_description, on_change_discussion_category_display_order,
  on_change_discussion_category_parent, on_delete_discussion_category,
  on_add_discussion_tag_to_category, on_remove_discussion_tag_from_category,
}
use forum.Persistence.Events.Observer.Requirements.{
  on_change_discussion_thread_message_required_privilege_for_thread_message,
  on_change_discussion_thread_message_required_privilege_for_thread,
  on_change_discussion_thread_message_required_privilege_for_tag,
  on_change_discussion_thread_message_required_privilege_forum_wide,
  on_change_discussion_thread_required_privilege_for_thread,
  on_change_discussion_thread_required_privilege_for_tag,
  on_change_discussion_thread_required_privilege_forum_wide,
  on_change_discussion_tag_required_privilege_for_tag,
  on_change_discussion_category_required_privilege_for_category,
  on_change_discussion_tag_required_privilege_forum_wide,
  on_change_discussion_category_required_privilege_forum_wide,
  on_change_forum_wide_required_privilege, on_change_forum_wide_default_privilege_level,
}
use forum.Persistence.Events.Observer.Assignments.{
  on_assign_discussion_thread_message_privilege, on_assign_discussion_thread_privilege,
  on_assign_discussion_tag_privilege, on_assign_discussion_category_privilege,
  on_assign_forum_wide_privilege,
}
use forum.Persistence.Events.Observer.Attachments.{
  on_add_new_attachment, on_change_attachment_name, on_change_attachment_approval,
  on_add_attachment_to_discussion_thread_message,
  on_remove_attachment_from_discussion_thread_message, on_delete_attachment,
  on_increment_attachment_number_of_gets,
}

-- What the observer writes for an event. Events of visits have an empty context; a message in another file
-- is not written.
abbrev pub record_event : ObserverContext → Event → Bytes
record_event context (Event.add_new_user id auth user_name) =
    on_add_new_user context id auth user_name
record_event context (Event.change_user_name id new_name) = on_change_user_name context id new_name
record_event context (Event.change_user_info id new_info) = on_change_user_info context id new_info
record_event context (Event.change_user_title id new_title) =
    on_change_user_title context id new_title
record_event context (Event.change_user_signature id new_signature) =
    on_change_user_signature context id new_signature
record_event context (Event.change_user_logo id new_logo) = on_change_user_logo context id new_logo
record_event context (Event.delete_user id) = on_delete_user context id
record_event context (Event.add_new_discussion_thread id thread_name approved) =
    on_add_new_discussion_thread context id thread_name approved
record_event context (Event.change_discussion_thread_name id thread_name) =
    on_change_discussion_thread_name context id thread_name
record_event context (Event.change_discussion_thread_pin_display_order id pin_display_order) =
    on_change_discussion_thread_pin_display_order context id pin_display_order
record_event context (Event.delete_discussion_thread id) = on_delete_discussion_thread context id
record_event context (Event.merge_discussion_threads from_thread_id into_thread_id) =
    on_merge_discussion_threads context from_thread_id into_thread_id
record_event context (Event.subscribe_to_discussion_thread id) =
    on_subscribe_to_discussion_thread context id
record_event context (Event.unsubscribe_from_discussion_thread id) =
    on_unsubscribe_from_discussion_thread context id
record_event context
      (Event.add_new_discussion_thread_message message_id parent_id approved message) =
    on_add_new_discussion_thread_message context message_id parent_id approved message
record_event context
      (Event.change_discussion_thread_message_content message_id content last_updated_reason) =
    on_change_discussion_thread_message_content context message_id content last_updated_reason
record_event _ (Event.increment_discussion_thread_number_of_visits thread_id number_of_visits) =
    on_increment_discussion_thread_number_of_visits thread_id number_of_visits
record_event context (Event.move_discussion_thread_message message_id thread_id) =
    on_move_discussion_thread_message context message_id thread_id
record_event context (Event.delete_discussion_thread_message id) =
    on_delete_discussion_thread_message context id
record_event context (Event.discussion_thread_message_up_vote id) =
    on_discussion_thread_message_up_vote context id
record_event context (Event.discussion_thread_message_down_vote id) =
    on_discussion_thread_message_down_vote context id
record_event context (Event.discussion_thread_message_reset_vote id) =
    on_discussion_thread_message_reset_vote context id
record_event context
      (Event.add_comment_to_discussion_thread_message comment_id message_id comment) =
    on_add_comment_to_discussion_thread_message context comment_id message_id comment
record_event context (Event.solve_discussion_thread_message_comment id) =
    on_solve_discussion_thread_message_comment context id
record_event context (Event.add_new_discussion_tag id tag_name) =
    on_add_new_discussion_tag context id tag_name
record_event context (Event.change_discussion_tag_name id tag_name) =
    on_change_discussion_tag_name context id tag_name
record_event context (Event.change_discussion_tag_ui_blob id ui_blob) =
    on_change_discussion_tag_ui_blob context id ui_blob
record_event context (Event.delete_discussion_tag id) = on_delete_discussion_tag context id
record_event context (Event.add_discussion_tag_to_thread tag_id thread_id) =
    on_add_discussion_tag_to_thread context tag_id thread_id
record_event context (Event.remove_discussion_tag_from_thread tag_id thread_id) =
    on_remove_discussion_tag_from_thread context tag_id thread_id
record_event context (Event.merge_discussion_tags from_tag_id into_tag_id) =
    on_merge_discussion_tags context from_tag_id into_tag_id
record_event context (Event.add_new_discussion_category category_id parent_id category_name) =
    on_add_new_discussion_category context category_id parent_id category_name
record_event context (Event.change_discussion_category_name id category_name) =
    on_change_discussion_category_name context id category_name
record_event context (Event.change_discussion_category_description id description) =
    on_change_discussion_category_description context id description
record_event context (Event.change_discussion_category_display_order id display_order) =
    on_change_discussion_category_display_order context id display_order
record_event context (Event.change_discussion_category_parent category_id parent_id) =
    on_change_discussion_category_parent context category_id parent_id
record_event context (Event.delete_discussion_category id) =
    on_delete_discussion_category context id
record_event context (Event.add_discussion_tag_to_category tag_id category_id) =
    on_add_discussion_tag_to_category context tag_id category_id
record_event context (Event.remove_discussion_tag_from_category tag_id category_id) =
    on_remove_discussion_tag_from_category context tag_id category_id
record_event context
      (Event.change_discussion_thread_message_required_privilege_for_thread_message message_id
        current_privilege current_privilege_value) =
    on_change_discussion_thread_message_required_privilege_for_thread_message context message_id
      current_privilege current_privilege_value
record_event context
      (Event.change_discussion_thread_message_required_privilege_for_thread thread_id
        current_privilege current_privilege_value) =
    on_change_discussion_thread_message_required_privilege_for_thread context thread_id
      current_privilege current_privilege_value
record_event context
      (Event.change_discussion_thread_message_required_privilege_for_tag tag_id current_privilege
        current_privilege_value) =
    on_change_discussion_thread_message_required_privilege_for_tag context tag_id current_privilege
      current_privilege_value
record_event context
      (Event.change_discussion_thread_message_required_privilege_forum_wide current_privilege
        current_privilege_value) =
    on_change_discussion_thread_message_required_privilege_forum_wide context current_privilege
      current_privilege_value
record_event context
      (Event.change_discussion_thread_required_privilege_for_thread thread_id current_privilege
        current_privilege_value) =
    on_change_discussion_thread_required_privilege_for_thread context thread_id current_privilege
      current_privilege_value
record_event context
      (Event.change_discussion_thread_required_privilege_for_tag tag_id current_privilege
        current_privilege_value) =
    on_change_discussion_thread_required_privilege_for_tag context tag_id current_privilege
      current_privilege_value
record_event context
      (Event.change_discussion_thread_required_privilege_forum_wide current_privilege
        current_privilege_value) =
    on_change_discussion_thread_required_privilege_forum_wide context current_privilege
      current_privilege_value
record_event context
      (Event.change_discussion_tag_required_privilege_for_tag tag_id current_privilege
        current_privilege_value) =
    on_change_discussion_tag_required_privilege_for_tag context tag_id current_privilege
      current_privilege_value
record_event context
      (Event.change_discussion_tag_required_privilege_forum_wide current_privilege
        current_privilege_value) =
    on_change_discussion_tag_required_privilege_forum_wide context current_privilege
      current_privilege_value
record_event context
      (Event.change_discussion_category_required_privilege_for_category category_id
        current_privilege current_privilege_value) =
    on_change_discussion_category_required_privilege_for_category context category_id
      current_privilege current_privilege_value
record_event context
      (Event.change_discussion_category_required_privilege_forum_wide current_privilege
        current_privilege_value) =
    on_change_discussion_category_required_privilege_forum_wide context current_privilege
      current_privilege_value
record_event context
      (Event.change_forum_wide_required_privilege current_privilege current_privilege_value) =
    on_change_forum_wide_required_privilege context current_privilege current_privilege_value
record_event context
      (Event.change_forum_wide_default_privilege_level current_privilege_duration current_value
        current_duration) =
    on_change_forum_wide_default_privilege_level context current_privilege_duration current_value
      current_duration
record_event context
      (Event.assign_discussion_thread_message_privilege message_id user_id current_privilege_value
        current_duration_value) =
    on_assign_discussion_thread_message_privilege context message_id user_id current_privilege_value
      current_duration_value
record_event context
      (Event.assign_discussion_thread_privilege thread_id user_id current_privilege_value
        current_duration_value) =
    on_assign_discussion_thread_privilege context thread_id user_id current_privilege_value
      current_duration_value
record_event context
      (Event.assign_discussion_tag_privilege tag_id user_id current_privilege_value
        current_duration_value) =
    on_assign_discussion_tag_privilege context tag_id user_id current_privilege_value
      current_duration_value
record_event context
      (Event.assign_discussion_category_privilege category_id user_id current_privilege_value
        current_duration_value) =
    on_assign_discussion_category_privilege context category_id user_id current_privilege_value
      current_duration_value
record_event context
      (Event.assign_forum_wide_privilege user_id current_privilege_value current_duration_value) =
    on_assign_forum_wide_privilege context user_id current_privilege_value current_duration_value
record_event context (Event.quote_user_in_discussion_thread_message message_id user_id) =
    on_quote_user_in_discussion_thread_message context message_id user_id
record_event context (Event.change_discussion_thread_message_approval message_id approved) =
    on_change_discussion_thread_message_approval context message_id approved
record_event _ (Event.increment_user_latest_visited_page user_id thread_id latest_visited_page) =
    on_increment_user_latest_visited_page user_id thread_id latest_visited_page
record_event context (Event.change_discussion_thread_approval thread_id approved) =
    on_change_discussion_thread_approval context thread_id approved
record_event context (Event.send_private_message id destination_id content) =
    on_send_private_message context id destination_id content
record_event context (Event.delete_private_message id) = on_delete_private_message context id
record_event context (Event.change_user_attachment_quota id new_quota) =
    on_change_user_attachment_quota context id (some new_quota)
record_event context
      (Event.add_new_attachment attachment_id attachment_name attachment_size attachment_approved) =
    on_add_new_attachment context attachment_id attachment_name attachment_size attachment_approved
record_event context (Event.change_attachment_name attachment_id name) =
    on_change_attachment_name context attachment_id name
record_event context (Event.change_attachment_approval attachment_id approved) =
    on_change_attachment_approval context attachment_id approved
record_event context (Event.add_attachment_to_discussion_thread_message attachment_id message_id) =
    on_add_attachment_to_discussion_thread_message context attachment_id message_id
record_event context
      (Event.remove_attachment_from_discussion_thread_message attachment_id message_id) =
    on_remove_attachment_from_discussion_thread_message context attachment_id message_id
record_event context (Event.delete_attachment attachment_id) =
    on_delete_attachment context attachment_id
record_event _ (Event.increment_attachment_number_of_gets attachment_id number_of_visits) =
    on_increment_attachment_number_of_gets attachment_id number_of_visits
record_event _ (Event.add_new_discussion_thread_message_in_file _ _ _ _ _) = []

abbrev pub recorded_context : ObserverContext → Event → ObserverContext
recorded_context _ (Event.increment_discussion_thread_number_of_visits _ _) = empty_context
recorded_context _ (Event.increment_user_latest_visited_page _ _ _) = empty_context
recorded_context _ (Event.increment_attachment_number_of_gets _ _) = empty_context
recorded_context context _ = context

abbrev pub IsReadBack : ObserverContext → Event → Type 0
IsReadBack context event =
    process_event (record_event context event) ≡ called (recorded_context context event) event
