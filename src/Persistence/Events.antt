-- ===== src/Persistence/Events.antt =====
-- The events that are persisted: EventType of src/LibForumPersistence/PersistenceFormat.h, each with what
-- the importer hands to the repositories (src/LibForumPersistence/private/EventImporter.cpp).
pub mod Observer
pub mod Importer
pub mod RoundTrip
mod Tests
use forum.Base.Int.{ℤ}
use forum.Base.{ℕ, Bool, Bytes}

pub data Event : Type 0 where
  add_new_user : ℕ → Bytes → Bytes → Event
  change_user_name : ℕ → Bytes → Event
  change_user_info : ℕ → Bytes → Event
  change_user_title : ℕ → Bytes → Event
  change_user_signature : ℕ → Bytes → Event
  change_user_logo : ℕ → Bytes → Event
  delete_user : ℕ → Event
  add_new_discussion_thread : ℕ → Bytes → Bool → Event
  change_discussion_thread_name : ℕ → Bytes → Event
  change_discussion_thread_pin_display_order : ℕ → ℕ → Event
  delete_discussion_thread : ℕ → Event
  merge_discussion_threads : ℕ → ℕ → Event
  subscribe_to_discussion_thread : ℕ → Event
  unsubscribe_from_discussion_thread : ℕ → Event
  add_new_discussion_thread_message : ℕ → ℕ → Bool → Bytes → Event
  change_discussion_thread_message_content : ℕ → Bytes → Bytes → Event
  increment_discussion_thread_number_of_visits : ℕ → ℕ → Event
  move_discussion_thread_message : ℕ → ℕ → Event
  delete_discussion_thread_message : ℕ → Event
  discussion_thread_message_up_vote : ℕ → Event
  discussion_thread_message_down_vote : ℕ → Event
  discussion_thread_message_reset_vote : ℕ → Event
  add_comment_to_discussion_thread_message : ℕ → ℕ → Bytes → Event
  solve_discussion_thread_message_comment : ℕ → Event
  add_new_discussion_tag : ℕ → Bytes → Event
  change_discussion_tag_name : ℕ → Bytes → Event
  change_discussion_tag_ui_blob : ℕ → Bytes → Event
  delete_discussion_tag : ℕ → Event
  add_discussion_tag_to_thread : ℕ → ℕ → Event
  remove_discussion_tag_from_thread : ℕ → ℕ → Event
  merge_discussion_tags : ℕ → ℕ → Event
  add_new_discussion_category : ℕ → ℕ → Bytes → Event
  change_discussion_category_name : ℕ → Bytes → Event
  change_discussion_category_description : ℕ → Bytes → Event
  change_discussion_category_display_order : ℕ → ℤ → Event
  change_discussion_category_parent : ℕ → ℕ → Event
  delete_discussion_category : ℕ → Event
  add_discussion_tag_to_category : ℕ → ℕ → Event
  remove_discussion_tag_from_category : ℕ → ℕ → Event
  change_discussion_thread_message_required_privilege_for_thread_message : ℕ → ℕ → ℤ → Event
  change_discussion_thread_message_required_privilege_for_thread : ℕ → ℕ → ℤ → Event
  change_discussion_thread_message_required_privilege_for_tag : ℕ → ℕ → ℤ → Event
  change_discussion_thread_message_required_privilege_forum_wide : ℕ → ℤ → Event
  change_discussion_thread_required_privilege_for_thread : ℕ → ℕ → ℤ → Event
  change_discussion_thread_required_privilege_for_tag : ℕ → ℕ → ℤ → Event
  change_discussion_thread_required_privilege_forum_wide : ℕ → ℤ → Event
  change_discussion_tag_required_privilege_for_tag : ℕ → ℕ → ℤ → Event
  change_discussion_tag_required_privilege_forum_wide : ℕ → ℤ → Event
  change_discussion_category_required_privilege_for_category : ℕ → ℕ → ℤ → Event
  change_discussion_category_required_privilege_forum_wide : ℕ → ℤ → Event
  change_forum_wide_required_privilege : ℕ → ℤ → Event
  change_forum_wide_default_privilege_level : ℕ → ℤ → ℤ → Event
  assign_discussion_thread_message_privilege : ℕ → ℕ → ℤ → ℤ → Event
  assign_discussion_thread_privilege : ℕ → ℕ → ℤ → ℤ → Event
  assign_discussion_tag_privilege : ℕ → ℕ → ℤ → ℤ → Event
  assign_discussion_category_privilege : ℕ → ℕ → ℤ → ℤ → Event
  assign_forum_wide_privilege : ℕ → ℤ → ℤ → Event
  quote_user_in_discussion_thread_message : ℕ → ℕ → Event
  change_discussion_thread_message_approval : ℕ → Bool → Event
  increment_user_latest_visited_page : ℕ → ℕ → ℕ → Event
  change_discussion_thread_approval : ℕ → Bool → Event
  send_private_message : ℕ → ℕ → Bytes → Event
  delete_private_message : ℕ → Event
  change_user_attachment_quota : ℕ → ℕ → Event
  add_new_attachment : ℕ → Bytes → ℕ → Bool → Event
  change_attachment_name : ℕ → Bytes → Event
  change_attachment_approval : ℕ → Bool → Event
  add_attachment_to_discussion_thread_message : ℕ → ℕ → Event
  remove_attachment_from_discussion_thread_message : ℕ → ℕ → Event
  delete_attachment : ℕ → Event
  increment_attachment_number_of_gets : ℕ → ℕ → Event
  -- A message of which the text is a part of a file: its size and offset.
  add_new_discussion_thread_message_in_file : ℕ → ℕ → Bool → ℕ → ℕ → Event
