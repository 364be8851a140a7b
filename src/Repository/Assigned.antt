-- ===== src/Repository/Assigned.antt =====
-- src/LibForumData/private/MemoryRepositoryAuthorization.cpp: the functions that assign privileges, with
-- their checks, the rule that is asked, the event that is written and the grant.
pub mod Outcomes
use forum.Base.{ℕ, ◌==◌, ◌&&◌, not}
use forum.Base.Int.{ℤ}
use forum.Authorization.DefaultAuthorization.Assignments
use forum.Persistence.Events.{Event}
use forum.Repository.Grants.{
  assign_discussion_thread_message_privilege_in, assign_discussion_thread_privilege_in,
  assign_discussion_tag_privilege_in, assign_discussion_category_privilege_in,
  assign_forum_wide_privilege_in,
}
use forum.Repository.Common.{
  StatusCode, Request, Repository, rules, current_user, write_authorized, when_valid, when_found,
  is_valid_privilege_value, is_valid_privilege_duration, is_valid_assignment,
}
use forum.Repository.Collection.{find_user, find_message, find_thread, find_tag, find_category}

module _ (unset : ℤ) (q : Request) where
  unfoldable pub assign_discussion_thread_message_privilege :
      ℕ → ℕ → ℤ → ℤ → Repository → StatusCode × Repository
  unfolding find_message find_user current_user is_valid_privilege_value is_valid_privilege_duration
      Assignments.assign_discussion_thread_message_privilege
      assign_discussion_thread_message_privilege_in
  assign_discussion_thread_message_privilege message_id user_id value duration r =
      when_valid (is_valid_assignment user_id value duration && not (message_id == 0))
        (λ r.
          when_found (find_message r.collection message_id)
            (λ message r.
              when_found (find_user r.collection user_id)
                (λ target_user r.
                  write_authorized q
                    (Assignments.assign_discussion_thread_message_privilege unset (rules r)
                      q.context (current_user q r.collection) target_user message value)
                    (Event.assign_discussion_thread_message_privilege message_id user_id value
                      duration)
                    (assign_discussion_thread_message_privilege_in message_id user_id value duration
                      q.context.current_time)
                    r)
                r)
            r)
        r

  unfoldable pub assign_discussion_thread_privilege :
      ℕ → ℕ → ℤ → ℤ → Repository → StatusCode × Repository
  unfolding find_thread find_user current_user is_valid_privilege_value is_valid_privilege_duration
      Assignments.assign_discussion_thread_privilege assign_discussion_thread_privilege_in
  assign_discussion_thread_privilege thread_id user_id value duration r =
      when_valid (is_valid_assignment user_id value duration && not (thread_id == 0))
        (λ r.
          when_found (find_thread r.collection thread_id)
            (λ thread r.
              when_found (find_user r.collection user_id)
                (λ target_user r.
                  write_authorized q
                    (Assignments.assign_discussion_thread_privilege unset (rules r) q.context
                      (current_user q r.collection) target_user thread value)
                    (Event.assign_discussion_thread_privilege thread_id user_id value duration)
                    (assign_discussion_thread_privilege_in thread_id user_id value duration
                      q.context.current_time)
                    r)
                r)
            r)
        r

  unfoldable pub assign_discussion_tag_privilege :
      ℕ → ℕ → ℤ → ℤ → Repository → StatusCode × Repository
  unfolding find_tag find_user current_user is_valid_privilege_value is_valid_privilege_duration
      Assignments.assign_discussion_tag_privilege assign_discussion_tag_privilege_in
  assign_discussion_tag_privilege tag_id user_id value duration r =
      when_valid (is_valid_assignment user_id value duration && not (tag_id == 0))
        (λ r.
          when_found (find_tag r.collection tag_id)
            (λ tag r.
              when_found (find_user r.collection user_id)
                (λ target_user r.
                  write_authorized q
                    (Assignments.assign_discussion_tag_privilege unset (rules r) q.context
                      (current_user q r.collection) target_user tag value)
                    (Event.assign_discussion_tag_privilege tag_id user_id value duration)
                    (assign_discussion_tag_privilege_in tag_id user_id value duration
                      q.context.current_time)
                    r)
                r)
            r)
        r

  unfoldable pub assign_discussion_category_privilege :
      ℕ → ℕ → ℤ → ℤ → Repository → StatusCode × Repository
  unfolding find_category find_user current_user is_valid_privilege_value
      is_valid_privilege_duration Assignments.assign_discussion_category_privilege
      assign_discussion_category_privilege_in
  assign_discussion_category_privilege category_id user_id value duration r =
      when_valid (is_valid_assignment user_id value duration && not (category_id == 0))
        (λ r.
          when_found (find_category r.collection category_id)
            (λ category r.
              when_found (find_user r.collection user_id)
                (λ target_user r.
                  write_authorized q
                    (Assignments.assign_discussion_category_privilege unset (rules r) q.context
                      (current_user q r.collection) target_user category value)
                    (Event.assign_discussion_category_privilege category_id user_id value duration)
                    (assign_discussion_category_privilege_in category_id user_id value duration
                      q.context.current_time)
                    r)
                r)
            r)
        r

  unfoldable pub assign_forum_wide_privilege : ℕ → ℤ → ℤ → Repository → StatusCode × Repository
  unfolding find_user current_user is_valid_privilege_value is_valid_privilege_duration
      Assignments.assign_forum_wide_privilege assign_forum_wide_privilege_in
  assign_forum_wide_privilege user_id value duration r =
      when_valid (is_valid_assignment user_id value duration)
        (λ r.
          when_found (find_user r.collection user_id)
            (λ target_user r.
              write_authorized q
                (Assignments.assign_forum_wide_privilege unset (rules r) q.context
                  (current_user q r.collection) target_user value)
                (Event.assign_forum_wide_privilege user_id value duration)
                (assign_forum_wide_privilege_in user_id value duration q.context.current_time) r)
            r)
        r
