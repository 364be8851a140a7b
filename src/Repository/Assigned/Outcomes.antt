-- ===== src/Repository/Assigned/Outcomes.antt =====
-- What the operations that assign privileges come to. MemoryRepositoryAuthorization.cpp.
use forum.Base.{ℕ, refl, ◌&&◌, not, ◌==◌}
use forum.Base.Int.{ℤ}
use forum.Persistence.Events.{Event}
use forum.Repository.Common.{Request, Repository, is_valid_assignment}
use forum.Repository.Collection.{find_message, find_thread, find_tag, find_category, find_user}
use forum.Repository.Outcome.{
  Outcome, when_valid-Outcome, when_found-Outcome, write_authorized-Outcome,
}
use forum.Repository.Grants.{
  assign_discussion_thread_message_privilege_in, assign_discussion_thread_privilege_in,
  assign_discussion_tag_privilege_in, assign_discussion_category_privilege_in,
  assign_forum_wide_privilege_in,
}
use forum.Repository.Assigned.{
  assign_discussion_thread_message_privilege, assign_discussion_thread_privilege,
  assign_discussion_tag_privilege, assign_discussion_category_privilege,
  assign_forum_wide_privilege,
}

module _ (unset : ℤ) (q : Request) where
  pub assign_discussion_thread_message_privilege-Outcome :
      (message_id user_id : ℕ) (value duration : ℤ) (r : Repository)
      → Outcome q
          (Event.assign_discussion_thread_message_privilege message_id user_id value duration)
          r
          (assign_discussion_thread_message_privilege unset q message_id user_id value duration r)
  unfolding assign_discussion_thread_message_privilege assign_discussion_thread_message_privilege_in
  assign_discussion_thread_message_privilege-Outcome message_id user_id value duration r =
      when_valid-Outcome q _ (is_valid_assignment user_id value duration && not (message_id == 0)) _
        r
        (λ e. when_found-Outcome q _ (find_message r.collection message_id) _ r (λ x f.
          when_found-Outcome q _ (find_user r.collection user_id) _ r (λ y g.
            write_authorized-Outcome q _
              (Event.assign_discussion_thread_message_privilege message_id user_id value duration)
              (assign_discussion_thread_message_privilege_in message_id user_id value duration
                q.context.current_time)
              r refl (rw (e, f, g) refl))))

  pub assign_discussion_thread_privilege-Outcome :
      (thread_id user_id : ℕ) (value duration : ℤ) (r : Repository)
      → Outcome q
          (Event.assign_discussion_thread_privilege thread_id user_id value duration)
          r
          (assign_discussion_thread_privilege unset q thread_id user_id value duration r)
  unfolding assign_discussion_thread_privilege assign_discussion_thread_privilege_in
  assign_discussion_thread_privilege-Outcome thread_id user_id value duration r =
      when_valid-Outcome q _ (is_valid_assignment user_id value duration && not (thread_id == 0)) _
        r
        (λ e. when_found-Outcome q _ (find_thread r.collection thread_id) _ r (λ x f.
          when_found-Outcome q _ (find_user r.collection user_id) _ r (λ y g.
            write_authorized-Outcome q _
              (Event.assign_discussion_thread_privilege thread_id user_id value duration)
              (assign_discussion_thread_privilege_in thread_id user_id value duration
                q.context.current_time)
              r refl (rw (e, f, g) refl))))

  pub assign_discussion_tag_privilege-Outcome :
      (tag_id user_id : ℕ) (value duration : ℤ) (r : Repository)
      → Outcome q
          (Event.assign_discussion_tag_privilege tag_id user_id value duration)
          r
          (assign_discussion_tag_privilege unset q tag_id user_id value duration r)
  unfolding assign_discussion_tag_privilege assign_discussion_tag_privilege_in
  assign_discussion_tag_privilege-Outcome tag_id user_id value duration r =
      when_valid-Outcome q _ (is_valid_assignment user_id value duration && not (tag_id == 0)) _ r
        (λ e. when_found-Outcome q _ (find_tag r.collection tag_id) _ r (λ x f.
          when_found-Outcome q _ (find_user r.collection user_id) _ r (λ y g.
            write_authorized-Outcome q _
              (Event.assign_discussion_tag_privilege tag_id user_id value duration)
              (assign_discussion_tag_privilege_in tag_id user_id value duration
                q.context.current_time)
              r refl (rw (e, f, g) refl))))

  pub assign_discussion_category_privilege-Outcome :
      (category_id user_id : ℕ) (value duration : ℤ) (r : Repository)
      → Outcome q
          (Event.assign_discussion_category_privilege category_id user_id value duration)
          r
          (assign_discussion_category_privilege unset q category_id user_id value duration r)
  unfolding assign_discussion_category_privilege assign_discussion_category_privilege_in
  assign_discussion_category_privilege-Outcome category_id user_id value duration r =
      when_valid-Outcome q _ (is_valid_assignment user_id value duration && not (category_id == 0))
        _ r
        (λ e. when_found-Outcome q _ (find_category r.collection category_id) _ r (λ x f.
          when_found-Outcome q _ (find_user r.collection user_id) _ r (λ y g.
            write_authorized-Outcome q _
              (Event.assign_discussion_category_privilege category_id user_id value duration)
              (assign_discussion_category_privilege_in category_id user_id value duration
                q.context.current_time)
              r refl (rw (e, f, g) refl))))

  pub assign_forum_wide_privilege-Outcome :
      (user_id : ℕ) (value duration : ℤ) (r : Repository)
      → Outcome q
          (Event.assign_forum_wide_privilege user_id value duration)
          r
          (assign_forum_wide_privilege unset q user_id value duration r)
  unfolding assign_forum_wide_privilege assign_forum_wide_privilege_in
  assign_forum_wide_privilege-Outcome user_id value duration r =
      when_valid-Outcome q _ (is_valid_assignment user_id value duration) _ r (λ e.
        when_found-Outcome q _ (find_user r.collection user_id) _ r (λ y g.
          write_authorized-Outcome q _ (Event.assign_forum_wide_privilege user_id value duration)
            (assign_forum_wide_privilege_in user_id value duration q.context.current_time) r refl
            (rw (e, g) refl)))
