-- ===== src/Repository/Required.antt =====
-- src/LibForumData/private/MemoryRepositoryAuthorization.cpp: the functions that change what is required,
-- with their checks, the rule that is asked, the event that is written and the change.
pub mod Outcomes
use forum.Base.{ℕ}
use forum.Base.Int.{ℤ}
use forum.Authorization.Privileges.{get_lazy_privilege, get_privilege}
use forum.Authorization.Entities.{
  thread_message_privilege_count, thread_privilege_count, tag_privilege_count,
  category_privilege_count,
}
use forum.Authorization.DefaultAuthorization.Changes.{
  update_discussion_thread_message_privilege_of_message,
  update_discussion_thread_message_privilege_of_thread,
  update_discussion_thread_privilege_of_thread, update_discussion_thread_message_privilege_of_tag,
  update_discussion_thread_privilege_of_tag, update_discussion_tag_privilege_of_tag,
  update_discussion_category_privilege_of_category,
}
use forum.Persistence.Events.{Event}
use forum.Repository.Changes.{
  change_discussion_thread_message_required_privilege_for_thread_message_in,
  change_discussion_thread_message_required_privilege_for_thread_in,
  change_discussion_thread_required_privilege_for_thread_in,
  change_discussion_thread_message_required_privilege_for_tag_in,
  change_discussion_thread_required_privilege_for_tag_in,
  change_discussion_tag_required_privilege_for_tag_in,
  change_discussion_category_required_privilege_for_category_in,
}
use forum.Repository.Common.{
  StatusCode, Request, Repository, rules, current_user, write_authorized, when_valid, when_found,
  is_valid_privilege_value, is_valid_change,
}
use forum.Repository.Collection.{find_message, find_thread, find_tag, find_category}

module _ (q : Request) where
  unfoldable pub change_discussion_thread_message_required_privilege_for_thread_message :
      ℕ → ℕ → ℤ → Repository → StatusCode × Repository
  unfolding find_message current_user is_valid_privilege_value get_lazy_privilege
      update_discussion_thread_message_privilege_of_message
      change_discussion_thread_message_required_privilege_for_thread_message_in
  change_discussion_thread_message_required_privilege_for_thread_message message_id privilege value
        r =
      when_valid (is_valid_change message_id privilege thread_message_privilege_count value)
        (λ r.
          when_found (find_message r.collection message_id)
            (λ message r.
              write_authorized q
                (update_discussion_thread_message_privilege_of_message (rules r) q.context
                  (current_user q r.collection) message
                  (get_lazy_privilege thread_message_privilege_count
                    message.thread_message_privileges privilege)
                  value)
                (Event.change_discussion_thread_message_required_privilege_for_thread_message
                  message_id privilege value)
                (change_discussion_thread_message_required_privilege_for_thread_message_in
                  message_id privilege value)
                r)
            r)
        r

  unfoldable pub change_discussion_thread_message_required_privilege_for_thread :
      ℕ → ℕ → ℤ → Repository → StatusCode × Repository
  unfolding find_thread current_user is_valid_privilege_value get_lazy_privilege
      update_discussion_thread_message_privilege_of_thread
      change_discussion_thread_message_required_privilege_for_thread_in
  change_discussion_thread_message_required_privilege_for_thread thread_id privilege value r =
      when_valid (is_valid_change thread_id privilege thread_message_privilege_count value)
        (λ r.
          when_found (find_thread r.collection thread_id)
            (λ thread r.
              write_authorized q
                (update_discussion_thread_message_privilege_of_thread (rules r) q.context
                  (current_user q r.collection) thread
                  (get_lazy_privilege thread_message_privilege_count
                    thread.thread_message_privileges privilege)
                  value)
                (Event.change_discussion_thread_message_required_privilege_for_thread thread_id
                  privilege value)
                (change_discussion_thread_message_required_privilege_for_thread_in thread_id
                  privilege value)
                r)
            r)
        r

  unfoldable pub change_discussion_thread_required_privilege_for_thread :
      ℕ → ℕ → ℤ → Repository → StatusCode × Repository
  unfolding find_thread current_user is_valid_privilege_value get_privilege
      update_discussion_thread_privilege_of_thread
      change_discussion_thread_required_privilege_for_thread_in
  change_discussion_thread_required_privilege_for_thread thread_id privilege value r =
      when_valid (is_valid_change thread_id privilege thread_privilege_count value)
        (λ r.
          when_found (find_thread r.collection thread_id)
            (λ thread r.
              write_authorized q
                (update_discussion_thread_privilege_of_thread (rules r) q.context
                  (current_user q r.collection) thread
                  (get_privilege thread_privilege_count thread.thread_privileges privilege) value)
                (Event.change_discussion_thread_required_privilege_for_thread thread_id privilege
                  value)
                (change_discussion_thread_required_privilege_for_thread_in thread_id privilege
                  value)
                r)
            r)
        r

  unfoldable pub change_discussion_thread_message_required_privilege_for_tag :
      ℕ → ℕ → ℤ → Repository → StatusCode × Repository
  unfolding find_tag current_user is_valid_privilege_value get_lazy_privilege
      update_discussion_thread_message_privilege_of_tag
      change_discussion_thread_message_required_privilege_for_tag_in
  change_discussion_thread_message_required_privilege_for_tag tag_id privilege value r =
      when_valid (is_valid_change tag_id privilege thread_message_privilege_count value)
        (λ r.
          when_found (find_tag r.collection tag_id)
            (λ tag r.
              write_authorized q
                (update_discussion_thread_message_privilege_of_tag (rules r) q.context
                  (current_user q r.collection) tag
                  (get_lazy_privilege thread_message_privilege_count tag.thread_message_privileges
                    privilege)
                  value)
                (Event.change_discussion_thread_message_required_privilege_for_tag tag_id privilege
                  value)
                (change_discussion_thread_message_required_privilege_for_tag_in tag_id privilege
                  value)
                r)
            r)
        r

  unfoldable pub change_discussion_thread_required_privilege_for_tag :
      ℕ → ℕ → ℤ → Repository → StatusCode × Repository
  unfolding find_tag current_user is_valid_privilege_value get_privilege
      update_discussion_thread_privilege_of_tag
      change_discussion_thread_required_privilege_for_tag_in
  change_discussion_thread_required_privilege_for_tag tag_id privilege value r =
      when_valid (is_valid_change tag_id privilege thread_privilege_count value)
        (λ r.
          when_found (find_tag r.collection tag_id)
            (λ tag r.
              write_authorized q
                (update_discussion_thread_privilege_of_tag (rules r) q.context
                  (current_user q r.collection) tag
                  (get_privilege thread_privilege_count tag.thread_privileges privilege) value)
                (Event.change_discussion_thread_required_privilege_for_tag tag_id privilege value)
                (change_discussion_thread_required_privilege_for_tag_in tag_id privilege value) r)
            r)
        r

  unfoldable pub change_discussion_tag_required_privilege_for_tag :
      ℕ → ℕ → ℤ → Repository → StatusCode × Repository
  unfolding find_tag current_user is_valid_privilege_value get_privilege
      update_discussion_tag_privilege_of_tag change_discussion_tag_required_privilege_for_tag_in
  change_discussion_tag_required_privilege_for_tag tag_id privilege value r =
      when_valid (is_valid_change tag_id privilege tag_privilege_count value)
        (λ r.
          when_found (find_tag r.collection tag_id)
            (λ tag r.
              write_authorized q
                (update_discussion_tag_privilege_of_tag (rules r) q.context
                  (current_user q r.collection) tag
                  (get_privilege tag_privilege_count tag.tag_privileges privilege) value)
                (Event.change_discussion_tag_required_privilege_for_tag tag_id privilege value)
                (change_discussion_tag_required_privilege_for_tag_in tag_id privilege value) r)
            r)
        r

  unfoldable pub change_discussion_category_required_privilege_for_category :
      ℕ → ℕ → ℤ → Repository → StatusCode × Repository
  unfolding find_category current_user is_valid_privilege_value get_privilege
      update_discussion_category_privilege_of_category
      change_discussion_category_required_privilege_for_category_in
  change_discussion_category_required_privilege_for_category category_id privilege value r =
      when_valid (is_valid_change category_id privilege category_privilege_count value)
        (λ r.
          when_found (find_category r.collection category_id)
            (λ category r.
              write_authorized q
                (update_discussion_category_privilege_of_category (rules r) q.context
                  (current_user q r.collection) category
                  (get_privilege category_privilege_count category.category_privileges privilege)
                  value)
                (Event.change_discussion_category_required_privilege_for_category category_id
                  privilege value)
                (change_discussion_category_required_privilege_for_category_in category_id privilege
                  value)
                r)
            r)
        r
