-- ===== src/Persistence/Events/Importer.antt =====
-- src/LibForumPersistence/private/EventImporter.cpp: the table of the import functions, and processEvent.
pub mod Users
pub mod Threads
pub mod Messages
pub mod Visits
pub mod Tags
pub mod Categories
pub mod Requirements
pub mod Assignments
pub mod Attachments
use forum.Base.{
  ℕ, List, [], ◌∷◌, Option, none, some, Bool, ltb, leb, ◌==◌, if◌then◌else◌, length, get_or, Bytes,
}
use forum.Persistence.Payload.{ObserverContext, Cursor, Reader, read_unsigned}
use forum.Persistence.Events.{Event}
use Users.*
use Threads.*
use Messages.*
use Visits.*
use Tags.*
use Categories.*
use Requirements.*
use Assignments.*
use Attachments.*

-- An import function takes the version of the context. A place for a version that has none is empty.
abbrev pub ImportFunction : Type 0
ImportFunction = Option (ℕ → Reader (ObserverContext × Event))

-- importFunctions_, by type and version.
abbrev pub import_functions : List (List ImportFunction)
import_functions =
    []
    ∷ (none ∷ some import_add_new_user_v1 ∷ [])
    ∷ (none ∷ some import_change_user_name_v1 ∷ [])
    ∷ (none ∷ some import_change_user_info_v1 ∷ [])
    ∷ (none ∷ some import_change_user_title_v1 ∷ [])
    ∷ (none ∷ some import_change_user_signature_v1 ∷ [])
    ∷ (none ∷ some import_change_user_logo_v1 ∷ [])
    ∷ (none ∷ some import_delete_user_v1 ∷ [])
    ∷ (none
        ∷ some import_add_new_discussion_thread_v1
        ∷ some import_add_new_discussion_thread_v2
        ∷ [])
    ∷ (none ∷ some import_change_discussion_thread_name_v1 ∷ [])
    ∷ (none ∷ some import_change_discussion_thread_pin_display_order_v1 ∷ [])
    ∷ (none ∷ some import_delete_discussion_thread_v1 ∷ [])
    ∷ (none ∷ some import_merge_discussion_threads_v1 ∷ [])
    ∷ (none ∷ some import_subscribe_to_discussion_thread_v1 ∷ [])
    ∷ (none ∷ some import_unsubscribe_from_discussion_thread_v1 ∷ [])
    ∷ (none
        ∷ some import_add_new_discussion_thread_message_v1
        ∷ some import_add_new_discussion_thread_message_v2
        ∷ some import_add_new_discussion_thread_message_v3
        ∷ some import_add_new_discussion_thread_message_v4
        ∷ [])
    ∷ (none ∷ some import_change_discussion_thread_message_content_v1 ∷ [])
    ∷ (none ∷ some import_increment_discussion_thread_number_of_visits_v1 ∷ [])
    ∷ (none ∷ some import_move_discussion_thread_message_v1 ∷ [])
    ∷ (none ∷ some import_delete_discussion_thread_message_v1 ∷ [])
    ∷ (none ∷ some import_discussion_thread_message_up_vote_v1 ∷ [])
    ∷ (none ∷ some import_discussion_thread_message_down_vote_v1 ∷ [])
    ∷ (none ∷ some import_discussion_thread_message_reset_vote_v1 ∷ [])
    ∷ (none ∷ some import_add_comment_to_discussion_thread_message_v1 ∷ [])
    ∷ (none ∷ some import_solve_discussion_thread_message_comment_v1 ∷ [])
    ∷ (none ∷ some import_add_new_discussion_tag_v1 ∷ [])
    ∷ (none ∷ some import_change_discussion_tag_name_v1 ∷ [])
    ∷ (none ∷ some import_change_discussion_tag_ui_blob_v1 ∷ [])
    ∷ (none ∷ some import_delete_discussion_tag_v1 ∷ [])
    ∷ (none ∷ some import_add_discussion_tag_to_thread_v1 ∷ [])
    ∷ (none ∷ some import_remove_discussion_tag_from_thread_v1 ∷ [])
    ∷ (none ∷ some import_merge_discussion_tags_v1 ∷ [])
    ∷ (none ∷ some import_add_new_discussion_category_v1 ∷ [])
    ∷ (none ∷ some import_change_discussion_category_name_v1 ∷ [])
    ∷ (none ∷ some import_change_discussion_category_description_v1 ∷ [])
    ∷ (none ∷ some import_change_discussion_category_display_order_v1 ∷ [])
    ∷ (none ∷ some import_change_discussion_category_parent_v1 ∷ [])
    ∷ (none ∷ some import_delete_discussion_category_v1 ∷ [])
    ∷ (none ∷ some import_add_discussion_tag_to_category_v1 ∷ [])
    ∷ (none ∷ some import_remove_discussion_tag_from_category_v1 ∷ [])
    ∷ (none
        ∷ some import_change_discussion_thread_message_required_privilege_for_thread_message_v1
        ∷ [])
    ∷ (none ∷ some import_change_discussion_thread_message_required_privilege_for_thread_v1 ∷ [])
    ∷ (none ∷ some import_change_discussion_thread_message_required_privilege_for_tag_v1 ∷ [])
    ∷ (none ∷ some import_change_discussion_thread_message_required_privilege_forum_wide_v1 ∷ [])
    ∷ (none ∷ some import_change_discussion_thread_required_privilege_for_thread_v1 ∷ [])
    ∷ (none ∷ some import_change_discussion_thread_required_privilege_for_tag_v1 ∷ [])
    ∷ (none ∷ some import_change_discussion_thread_required_privilege_forum_wide_v1 ∷ [])
    ∷ (none ∷ some import_change_discussion_tag_required_privilege_for_tag_v1 ∷ [])
    ∷ (none ∷ some import_change_discussion_tag_required_privilege_forum_wide_v1 ∷ [])
    ∷ (none ∷ some import_change_discussion_category_required_privilege_for_category_v1 ∷ [])
    ∷ (none ∷ some import_change_discussion_category_required_privilege_forum_wide_v1 ∷ [])
    ∷ (none ∷ some import_change_forum_wide_required_privilege_v1 ∷ [])
    ∷ (none ∷ some import_change_forum_wide_default_privilege_level_v1 ∷ [])
    ∷ (none ∷ some import_assign_discussion_thread_message_privilege_v1 ∷ [])
    ∷ (none ∷ some import_assign_discussion_thread_privilege_v1 ∷ [])
    ∷ (none ∷ some import_assign_discussion_tag_privilege_v1 ∷ [])
    ∷ (none ∷ some import_assign_discussion_category_privilege_v1 ∷ [])
    ∷ (none ∷ some import_assign_forum_wide_privilege_v1 ∷ [])
    ∷ (none ∷ some import_quote_user_in_discussion_thread_message_v1 ∷ [])
    ∷ (none ∷ some import_change_discussion_thread_message_approval_v1 ∷ [])
    ∷ (none ∷ some import_increment_user_latest_visited_page_v1 ∷ [])
    ∷ (none ∷ some import_change_discussion_thread_approval_v1 ∷ [])
    ∷ (none ∷ some import_send_private_message_v1 ∷ [])
    ∷ (none ∷ some import_delete_private_message_v1 ∷ [])
    ∷ (none ∷ some import_change_user_attachment_quota_v1 ∷ [])
    ∷ (none ∷ some import_add_new_attachment_v1 ∷ [])
    ∷ (none ∷ some import_change_attachment_name_v1 ∷ [])
    ∷ (none ∷ some import_change_attachment_approval_v1 ∷ [])
    ∷ (none ∷ some import_add_attachment_to_discussion_thread_message_v1 ∷ [])
    ∷ (none ∷ some import_remove_attachment_from_discussion_thread_message_v1 ∷ [])
    ∷ (none ∷ some import_delete_attachment_v1 ∷ [])
    ∷ (none ∷ some import_increment_attachment_number_of_gets_v1 ∷ [])
    ∷ []

-- What processEvent does: it skips the event, fails, or calls a repository and then perhaps fails all the
-- same.
pub data Processed : Type 0 where
  skipped failed : Processed
  called called_and_failed : ObserverContext → Event → Processed

-- An import function that returns an event calls the repository with it. Only the one for
-- MOVE_DISCUSSION_THREAD_MESSAGE may have data left here, for which it fails after the call.
abbrev pub to_processed : Option ((ObserverContext × Event) × Cursor) → Processed
to_processed none = failed
to_processed (some ((context, event), c)) =
    if c.size == 0 then called context event else called_and_failed context event

abbrev pub run_import : ImportFunction → ℕ → Cursor → Processed
run_import none context_version c = failed
run_import (some import) context_version c = to_processed (import context_version c)

-- After the header has been read.
unfoldable pub dispatch : ℕ → ℕ → ℕ → Cursor → Processed
dispatch event_type version context_version c =
    if event_type == 0
    then skipped
    else if leb (length import_functions) event_type
    then failed
    else let importer_versions = get_or import_functions event_type [] in
      if leb (length importer_versions) version
      then failed
      else run_import (get_or importer_versions version none) context_version c

-- `read_unsigned` fails only where there are too few bytes, which the first test has excluded.
abbrev pub with_value : ℕ → (ℕ → Cursor → Processed) → Cursor → Processed
with_value n next c = elim (read_unsigned n c) [ none ↦ failed | some (value, c') ↦ next value c' ]

unfoldable pub process_event : Bytes → Processed
process_event bytes =
    if ltb (length bytes) 8
    then failed
    else with_value 4
        (λ event_type. with_value 2 (λ version. with_value 2 (dispatch event_type version)))
        (record { data_left = bytes; size = length bytes })
