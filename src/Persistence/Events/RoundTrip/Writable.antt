-- ===== src/Persistence/Events/RoundTrip/Writable.antt =====
-- Which events are written faithfully: those of which every value fits. EventObserver.cpp.
use forum.Base.{◌^◌, ◌<◌, ◌≢◌, [], length}
use forum.Persistence.Payload.Reading.{FitsSigned}
use forum.Persistence.Events.{Event}

-- The values fit into the bytes that are reserved for them, and names are not empty.
abbrev pub IsWritable : Event → Type 0
IsWritable (Event.add_new_user id auth user_name) =
    (id < 256 ^ 16)
    × (auth ≢ [])
    × (length auth < 2 ^ 32)
    × (user_name ≢ [])
    × (length user_name < 2 ^ 32)
IsWritable (Event.change_user_name id new_name) =
    (id < 256 ^ 16) × (new_name ≢ []) × (length new_name < 2 ^ 32)
IsWritable (Event.change_user_info id new_info) = (id < 256 ^ 16) × (length new_info < 2 ^ 32)
IsWritable (Event.change_user_title id new_title) = (id < 256 ^ 16) × (length new_title < 2 ^ 32)
IsWritable (Event.change_user_signature id new_signature) =
    (id < 256 ^ 16) × (length new_signature < 2 ^ 32)
IsWritable (Event.change_user_logo id new_logo) = (id < 256 ^ 16) × (length new_logo < 2 ^ 32)
IsWritable (Event.delete_user id) = (id < 256 ^ 16)
IsWritable (Event.add_new_discussion_thread id thread_name _) =
    (id < 256 ^ 16) × (thread_name ≢ []) × (length thread_name < 2 ^ 32)
IsWritable (Event.change_discussion_thread_name id thread_name) =
    (id < 256 ^ 16) × (thread_name ≢ []) × (length thread_name < 2 ^ 32)
IsWritable (Event.change_discussion_thread_pin_display_order id pin_display_order) =
    (id < 256 ^ 16) × (pin_display_order < 256 ^ 2)
IsWritable (Event.delete_discussion_thread id) = (id < 256 ^ 16)
IsWritable (Event.merge_discussion_threads from_thread_id into_thread_id) =
    (from_thread_id < 256 ^ 16) × (into_thread_id < 256 ^ 16)
IsWritable (Event.subscribe_to_discussion_thread id) = (id < 256 ^ 16)
IsWritable (Event.unsubscribe_from_discussion_thread id) = (id < 256 ^ 16)
IsWritable (Event.add_new_discussion_thread_message message_id parent_id _ message) =
    (message_id < 256 ^ 16) × (parent_id < 256 ^ 16) × (message ≢ []) × (length message < 2 ^ 32)
IsWritable (Event.change_discussion_thread_message_content message_id content last_updated_reason) =
    (message_id < 256 ^ 16)
    × (content ≢ [])
    × (length content < 2 ^ 32)
    × (length last_updated_reason < 2 ^ 32)
IsWritable (Event.increment_discussion_thread_number_of_visits thread_id number_of_visits) =
    (thread_id < 256 ^ 16) × (number_of_visits < 256 ^ 4)
IsWritable (Event.move_discussion_thread_message message_id thread_id) =
    (message_id < 256 ^ 16) × (thread_id < 256 ^ 16)
IsWritable (Event.delete_discussion_thread_message id) = (id < 256 ^ 16)
IsWritable (Event.discussion_thread_message_up_vote id) = (id < 256 ^ 16)
IsWritable (Event.discussion_thread_message_down_vote id) = (id < 256 ^ 16)
IsWritable (Event.discussion_thread_message_reset_vote id) = (id < 256 ^ 16)
IsWritable (Event.add_comment_to_discussion_thread_message comment_id message_id comment) =
    (comment_id < 256 ^ 16) × (message_id < 256 ^ 16) × (comment ≢ []) × (length comment < 2 ^ 32)
IsWritable (Event.solve_discussion_thread_message_comment id) = (id < 256 ^ 16)
IsWritable (Event.add_new_discussion_tag id tag_name) =
    (id < 256 ^ 16) × (tag_name ≢ []) × (length tag_name < 2 ^ 32)
IsWritable (Event.change_discussion_tag_name id tag_name) =
    (id < 256 ^ 16) × (tag_name ≢ []) × (length tag_name < 2 ^ 32)
IsWritable (Event.change_discussion_tag_ui_blob id ui_blob) =
    (id < 256 ^ 16) × (length ui_blob < 2 ^ 32)
IsWritable (Event.delete_discussion_tag id) = (id < 256 ^ 16)
IsWritable (Event.add_discussion_tag_to_thread tag_id thread_id) =
    (tag_id < 256 ^ 16) × (thread_id < 256 ^ 16)
IsWritable (Event.remove_discussion_tag_from_thread tag_id thread_id) =
    (tag_id < 256 ^ 16) × (thread_id < 256 ^ 16)
IsWritable (Event.merge_discussion_tags from_tag_id into_tag_id) =
    (from_tag_id < 256 ^ 16) × (into_tag_id < 256 ^ 16)
IsWritable (Event.add_new_discussion_category category_id parent_id category_name) =
    (category_id < 256 ^ 16)
    × (parent_id < 256 ^ 16)
    × (category_name ≢ [])
    × (length category_name < 2 ^ 32)
IsWritable (Event.change_discussion_category_name id category_name) =
    (id < 256 ^ 16) × (category_name ≢ []) × (length category_name < 2 ^ 32)
IsWritable (Event.change_discussion_category_description id description) =
    (id < 256 ^ 16) × (length description < 2 ^ 32)
IsWritable (Event.change_discussion_category_display_order id display_order) =
    (id < 256 ^ 16) × (FitsSigned 2 display_order)
IsWritable (Event.change_discussion_category_parent category_id parent_id) =
    (category_id < 256 ^ 16) × (parent_id < 256 ^ 16)
IsWritable (Event.delete_discussion_category id) = (id < 256 ^ 16)
IsWritable (Event.add_discussion_tag_to_category tag_id category_id) =
    (tag_id < 256 ^ 16) × (category_id < 256 ^ 16)
IsWritable (Event.remove_discussion_tag_from_category tag_id category_id) =
    (tag_id < 256 ^ 16) × (category_id < 256 ^ 16)
IsWritable
      (Event.change_discussion_thread_message_required_privilege_for_thread_message message_id
        current_privilege current_privilege_value) =
    (message_id < 256 ^ 16) × (current_privilege < 256 ^ 2) × (FitsSigned 2 current_privilege_value)
IsWritable
      (Event.change_discussion_thread_message_required_privilege_for_thread thread_id
        current_privilege current_privilege_value) =
    (thread_id < 256 ^ 16) × (current_privilege < 256 ^ 2) × (FitsSigned 2 current_privilege_value)
IsWritable
      (Event.change_discussion_thread_message_required_privilege_for_tag tag_id current_privilege
        current_privilege_value) =
    (tag_id < 256 ^ 16) × (current_privilege < 256 ^ 2) × (FitsSigned 2 current_privilege_value)
IsWritable
      (Event.change_discussion_thread_message_required_privilege_forum_wide current_privilege
        current_privilege_value) =
    (current_privilege < 256 ^ 2) × (FitsSigned 2 current_privilege_value)
IsWritable
      (Event.change_discussion_thread_required_privilege_for_thread thread_id current_privilege
        current_privilege_value) =
    (thread_id < 256 ^ 16) × (current_privilege < 256 ^ 2) × (FitsSigned 2 current_privilege_value)
IsWritable
      (Event.change_discussion_thread_required_privilege_for_tag tag_id current_privilege
        current_privilege_value) =
    (tag_id < 256 ^ 16) × (current_privilege < 256 ^ 2) × (FitsSigned 2 current_privilege_value)
IsWritable
      (Event.change_discussion_thread_required_privilege_forum_wide current_privilege
        current_privilege_value) =
    (current_privilege < 256 ^ 2) × (FitsSigned 2 current_privilege_value)
IsWritable
      (Event.change_discussion_tag_required_privilege_for_tag tag_id current_privilege
        current_privilege_value) =
    (tag_id < 256 ^ 16) × (current_privilege < 256 ^ 2) × (FitsSigned 2 current_privilege_value)
IsWritable
      (Event.change_discussion_tag_required_privilege_forum_wide current_privilege
        current_privilege_value) =
    (current_privilege < 256 ^ 2) × (FitsSigned 2 current_privilege_value)
IsWritable
      (Event.change_discussion_category_required_privilege_for_category category_id
        current_privilege current_privilege_value) =
    (category_id < 256 ^ 16)
    × (current_privilege < 256 ^ 2)
    × (FitsSigned 2 current_privilege_value)
IsWritable
      (Event.change_discussion_category_required_privilege_forum_wide current_privilege
        current_privilege_value) =
    (current_privilege < 256 ^ 2) × (FitsSigned 2 current_privilege_value)
IsWritable (Event.change_forum_wide_required_privilege current_privilege current_privilege_value) =
    (current_privilege < 256 ^ 2) × (FitsSigned 2 current_privilege_value)
IsWritable
      (Event.change_forum_wide_default_privilege_level current_privilege_duration current_value
        current_duration) =
    (current_privilege_duration < 256 ^ 2)
    × (FitsSigned 2 current_value)
    × (FitsSigned 8 current_duration)
IsWritable
      (Event.assign_discussion_thread_message_privilege message_id user_id current_privilege_value
        current_duration_value) =
    (message_id < 256 ^ 16)
    × (user_id < 256 ^ 16)
    × (FitsSigned 2 current_privilege_value)
    × (FitsSigned 8 current_duration_value)
IsWritable
      (Event.assign_discussion_thread_privilege thread_id user_id current_privilege_value
        current_duration_value) =
    (thread_id < 256 ^ 16)
    × (user_id < 256 ^ 16)
    × (FitsSigned 2 current_privilege_value)
    × (FitsSigned 8 current_duration_value)
IsWritable
      (Event.assign_discussion_tag_privilege tag_id user_id current_privilege_value
        current_duration_value) =
    (tag_id < 256 ^ 16)
    × (user_id < 256 ^ 16)
    × (FitsSigned 2 current_privilege_value)
    × (FitsSigned 8 current_duration_value)
IsWritable
      (Event.assign_discussion_category_privilege category_id user_id current_privilege_value
        current_duration_value) =
    (category_id < 256 ^ 16)
    × (user_id < 256 ^ 16)
    × (FitsSigned 2 current_privilege_value)
    × (FitsSigned 8 current_duration_value)
IsWritable
      (Event.assign_forum_wide_privilege user_id current_privilege_value current_duration_value) =
    (user_id < 256 ^ 16)
    × (FitsSigned 2 current_privilege_value)
    × (FitsSigned 8 current_duration_value)
IsWritable (Event.quote_user_in_discussion_thread_message message_id user_id) =
    (message_id < 256 ^ 16) × (user_id < 256 ^ 16)
IsWritable (Event.change_discussion_thread_message_approval message_id _) = (message_id < 256 ^ 16)
IsWritable (Event.increment_user_latest_visited_page user_id thread_id latest_visited_page) =
    (user_id < 256 ^ 16) × (thread_id < 256 ^ 16) × (latest_visited_page < 256 ^ 4)
IsWritable (Event.change_discussion_thread_approval thread_id _) = (thread_id < 256 ^ 16)
IsWritable (Event.send_private_message id destination_id content) =
    (id < 256 ^ 16) × (destination_id < 256 ^ 16) × (content ≢ []) × (length content < 2 ^ 32)
IsWritable (Event.delete_private_message id) = (id < 256 ^ 16)
IsWritable (Event.change_user_attachment_quota id new_quota) =
    (id < 256 ^ 16) × (new_quota < 256 ^ 8)
IsWritable (Event.add_new_attachment attachment_id attachment_name attachment_size _) =
    (attachment_id < 256 ^ 16)
    × (attachment_name ≢ [])
    × (length attachment_name < 2 ^ 32)
    × (attachment_size < 256 ^ 8)
IsWritable (Event.change_attachment_name attachment_id name) =
    (attachment_id < 256 ^ 16) × (name ≢ []) × (length name < 2 ^ 32)
IsWritable (Event.change_attachment_approval attachment_id _) = (attachment_id < 256 ^ 16)
IsWritable (Event.add_attachment_to_discussion_thread_message attachment_id message_id) =
    (attachment_id < 256 ^ 16) × (message_id < 256 ^ 16)
IsWritable (Event.remove_attachment_from_discussion_thread_message attachment_id message_id) =
    (attachment_id < 256 ^ 16) × (message_id < 256 ^ 16)
IsWritable (Event.delete_attachment attachment_id) = (attachment_id < 256 ^ 16)
IsWritable (Event.increment_attachment_number_of_gets attachment_id number_of_visits) =
    (attachment_id < 256 ^ 16) × (number_of_visits < 256 ^ 4)
IsWritable (Event.add_new_discussion_thread_message_in_file _ _ _ _ _) = ⊥
