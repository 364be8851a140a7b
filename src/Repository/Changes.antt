-- ===== src/Repository/Changes.antt =====
-- The overloads in src/LibForumData/private/MemoryRepositoryAuthorization.cpp that change the collection
-- without asking for the rules; the importer of events calls them as well.
use forum.Base.{ℕ, none, some, if◌then◌else◌}
use forum.Base.Int.{ℤ}
use forum.Authorization.Privileges.{set_lazy_privilege, set_privilege}
use forum.Authorization.Entities.{
  thread_message_privilege_count, thread_privilege_count, tag_privilege_count,
  category_privilege_count,
}
use forum.Repository.Common.{
  success, not_found, invalid_parameters, Inner, is_valid_privilege_value, is_valid_change,
}
use forum.Repository.Collection.{modify_by, find_message, find_thread, find_tag, find_category}

unfoldable pub change_discussion_thread_message_required_privilege_for_thread_message_in :
    ℕ → ℕ → ℤ → Inner
unfolding find_message is_valid_privilege_value set_lazy_privilege
change_discussion_thread_message_required_privilege_for_thread_message_in message_id privilege value
      c =
    if is_valid_change message_id privilege thread_message_privilege_count value
    then elim (find_message c message_id) [
      | none ↦ (not_found, c)
      | some _ ↦ (
        success,
        record c {
          thread_messages =
              modify_by (λ e. e.id) message_id
                (λ e. record e {
                  thread_message_privileges =
                      set_lazy_privilege thread_message_privilege_count e.thread_message_privileges
                        privilege value;
                })
                c.thread_messages;
        },
      )
    ]
    else (invalid_parameters, c)

unfoldable pub change_discussion_thread_message_required_privilege_for_thread_in : ℕ → ℕ → ℤ → Inner
unfolding find_thread is_valid_privilege_value set_lazy_privilege
change_discussion_thread_message_required_privilege_for_thread_in thread_id privilege value c =
    if is_valid_change thread_id privilege thread_message_privilege_count value
    then elim (find_thread c thread_id) [
      | none ↦ (not_found, c)
      | some _ ↦ (
        success,
        record c {
          threads =
              modify_by (λ e. e.id) thread_id
                (λ e. record e {
                  thread_message_privileges =
                      set_lazy_privilege thread_message_privilege_count e.thread_message_privileges
                        privilege value;
                })
                c.threads;
        },
      )
    ]
    else (invalid_parameters, c)

unfoldable pub change_discussion_thread_required_privilege_for_thread_in : ℕ → ℕ → ℤ → Inner
unfolding find_thread is_valid_privilege_value set_privilege
change_discussion_thread_required_privilege_for_thread_in thread_id privilege value c =
    if is_valid_change thread_id privilege thread_privilege_count value
    then elim (find_thread c thread_id) [
      | none ↦ (not_found, c)
      | some _ ↦ (
        success,
        record c {
          threads =
              modify_by (λ e. e.id) thread_id
                (λ e. record e {
                  thread_privileges =
                      set_privilege thread_privilege_count e.thread_privileges privilege value;
                })
                c.threads;
        },
      )
    ]
    else (invalid_parameters, c)

unfoldable pub change_discussion_thread_message_required_privilege_for_tag_in : ℕ → ℕ → ℤ → Inner
unfolding find_tag is_valid_privilege_value set_lazy_privilege
change_discussion_thread_message_required_privilege_for_tag_in tag_id privilege value c =
    if is_valid_change tag_id privilege thread_message_privilege_count value
    then elim (find_tag c tag_id) [
      | none ↦ (not_found, c)
      | some _ ↦ (
        success,
        record c {
          tags =
              modify_by (λ e. e.id) tag_id
                (λ e. record e {
                  thread_message_privileges =
                      set_lazy_privilege thread_message_privilege_count e.thread_message_privileges
                        privilege value;
                })
                c.tags;
        },
      )
    ]
    else (invalid_parameters, c)

unfoldable pub change_discussion_thread_required_privilege_for_tag_in : ℕ → ℕ → ℤ → Inner
unfolding find_tag is_valid_privilege_value set_privilege
change_discussion_thread_required_privilege_for_tag_in tag_id privilege value c =
    if is_valid_change tag_id privilege thread_privilege_count value
    then elim (find_tag c tag_id) [
      | none ↦ (not_found, c)
      | some _ ↦ (
        success,
        record c {
          tags =
              modify_by (λ e. e.id) tag_id
                (λ e. record e {
                  thread_privileges =
                      set_privilege thread_privilege_count e.thread_privileges privilege value;
                })
                c.tags;
        },
      )
    ]
    else (invalid_parameters, c)

unfoldable pub change_discussion_tag_required_privilege_for_tag_in : ℕ → ℕ → ℤ → Inner
unfolding find_tag is_valid_privilege_value set_privilege
change_discussion_tag_required_privilege_for_tag_in tag_id privilege value c =
    if is_valid_change tag_id privilege tag_privilege_count value
    then elim (find_tag c tag_id) [
      | none ↦ (not_found, c)
      | some _ ↦ (
        success,
        record c {
          tags =
              modify_by (λ e. e.id) tag_id
                (λ e. record e {
                  tag_privileges =
                      set_privilege tag_privilege_count e.tag_privileges privilege value;
                })
                c.tags;
        },
      )
    ]
    else (invalid_parameters, c)

unfoldable pub change_discussion_category_required_privilege_for_category_in : ℕ → ℕ → ℤ → Inner
unfolding find_category is_valid_privilege_value set_privilege
change_discussion_category_required_privilege_for_category_in category_id privilege value c =
    if is_valid_change category_id privilege category_privilege_count value
    then elim (find_category c category_id) [
      | none ↦ (not_found, c)
      | some _ ↦ (
        success,
        record c {
          categories =
              modify_by (λ e. e.id) category_id
                (λ e. record e {
                  category_privileges =
                      set_privilege category_privilege_count e.category_privileges privilege value;
                })
                c.categories;
        },
      )
    ]
    else (invalid_parameters, c)
