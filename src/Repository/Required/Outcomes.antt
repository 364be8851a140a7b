-- ===== src/Repository/Required/Outcomes.antt =====
-- What the operations on required privileges come to. MemoryRepositoryAuthorization.cpp.
use forum.Base.{ℕ, refl}
use forum.Base.Int.{ℤ}
use forum.Persistence.Events.{Event}
use forum.Repository.Common.{Request, Repository, is_valid_change}
use forum.Repository.Collection.{find_message, find_thread, find_tag, find_category}
use forum.Authorization.Entities.{
  thread_message_privilege_count, thread_privilege_count, tag_privilege_count,
  category_privilege_count,
}
use forum.Repository.Outcome.{
  Outcome, when_valid-Outcome, when_found-Outcome, write_authorized-Outcome,
}
use forum.Repository.Changes.{
  change_discussion_thread_message_required_privilege_for_thread_message_in,
  change_discussion_thread_message_required_privilege_for_thread_in,
  change_discussion_thread_required_privilege_for_thread_in,
  change_discussion_thread_message_required_privilege_for_tag_in,
  change_discussion_thread_required_privilege_for_tag_in,
  change_discussion_tag_required_privilege_for_tag_in,
  change_discussion_category_required_privilege_for_category_in,
}
use forum.Repository.Required.{
  change_discussion_thread_message_required_privilege_for_thread_message,
  change_discussion_thread_message_required_privilege_for_thread,
  change_discussion_thread_required_privilege_for_thread,
  change_discussion_thread_message_required_privilege_for_tag,
  change_discussion_thread_required_privilege_for_tag,
  change_discussion_tag_required_privilege_for_tag,
  change_discussion_category_required_privilege_for_category,
}

module _ (q : Request) where
  pub change_discussion_thread_message_required_privilege_for_thread_message-Outcome :
      (message_id privilege : ℕ) (value : ℤ) (r : Repository)
      → Outcome q
          (Event.change_discussion_thread_message_required_privilege_for_thread_message message_id
            privilege value)
          r
          (change_discussion_thread_message_required_privilege_for_thread_message q message_id
            privilege value r)
  unfolding change_discussion_thread_message_required_privilege_for_thread_message
      change_discussion_thread_message_required_privilege_for_thread_message_in
  change_discussion_thread_message_required_privilege_for_thread_message-Outcome message_id
        privilege value r =
      when_valid-Outcome q _
        (is_valid_change message_id privilege thread_message_privilege_count value) _ r
        (λ e. when_found-Outcome q _ (find_message r.collection message_id) _ r (λ x f.
          write_authorized-Outcome q _
            (Event.change_discussion_thread_message_required_privilege_for_thread_message message_id
              privilege value)
            (change_discussion_thread_message_required_privilege_for_thread_message_in message_id
              privilege value)
            r refl (rw (e, f) refl)))

  pub change_discussion_thread_message_required_privilege_for_thread-Outcome :
      (thread_id privilege : ℕ) (value : ℤ) (r : Repository)
      → Outcome q
          (Event.change_discussion_thread_message_required_privilege_for_thread thread_id privilege
            value)
          r
          (change_discussion_thread_message_required_privilege_for_thread q thread_id privilege
            value r)
  unfolding change_discussion_thread_message_required_privilege_for_thread
      change_discussion_thread_message_required_privilege_for_thread_in
  change_discussion_thread_message_required_privilege_for_thread-Outcome thread_id privilege value
        r =
      when_valid-Outcome q _
        (is_valid_change thread_id privilege thread_message_privilege_count value) _ r
        (λ e. when_found-Outcome q _ (find_thread r.collection thread_id) _ r (λ x f.
          write_authorized-Outcome q _
            (Event.change_discussion_thread_message_required_privilege_for_thread thread_id
              privilege value)
            (change_discussion_thread_message_required_privilege_for_thread_in thread_id privilege
              value)
            r refl (rw (e, f) refl)))

  pub change_discussion_thread_required_privilege_for_thread-Outcome :
      (thread_id privilege : ℕ) (value : ℤ) (r : Repository)
      → Outcome q
          (Event.change_discussion_thread_required_privilege_for_thread thread_id privilege value)
          r
          (change_discussion_thread_required_privilege_for_thread q thread_id privilege value r)
  unfolding change_discussion_thread_required_privilege_for_thread
      change_discussion_thread_required_privilege_for_thread_in
  change_discussion_thread_required_privilege_for_thread-Outcome thread_id privilege value r =
      when_valid-Outcome q _ (is_valid_change thread_id privilege thread_privilege_count value) _ r
        (λ e. when_found-Outcome q _ (find_thread r.collection thread_id) _ r (λ x f.
          write_authorized-Outcome q _
            (Event.change_discussion_thread_required_privilege_for_thread thread_id privilege value)
            (change_discussion_thread_required_privilege_for_thread_in thread_id privilege value) r
            refl (rw (e, f) refl)))

  pub change_discussion_thread_message_required_privilege_for_tag-Outcome :
      (tag_id privilege : ℕ) (value : ℤ) (r : Repository)
      → Outcome q
          (Event.change_discussion_thread_message_required_privilege_for_tag tag_id privilege value)
          r
          (change_discussion_thread_message_required_privilege_for_tag q tag_id privilege value r)
  unfolding change_discussion_thread_message_required_privilege_for_tag
      change_discussion_thread_message_required_privilege_for_tag_in
  change_discussion_thread_message_required_privilege_for_tag-Outcome tag_id privilege value r =
      when_valid-Outcome q _ (is_valid_change tag_id privilege thread_message_privilege_count value)
        _ r
        (λ e. when_found-Outcome q _ (find_tag r.collection tag_id) _ r (λ x f.
          write_authorized-Outcome q _
            (Event.change_discussion_thread_message_required_privilege_for_tag tag_id privilege
              value)
            (change_discussion_thread_message_required_privilege_for_tag_in tag_id privilege value)
            r refl (rw (e, f) refl)))

  pub change_discussion_thread_required_privilege_for_tag-Outcome :
      (tag_id privilege : ℕ) (value : ℤ) (r : Repository)
      → Outcome q
          (Event.change_discussion_thread_required_privilege_for_tag tag_id privilege value)
          r
          (change_discussion_thread_required_privilege_for_tag q tag_id privilege value r)
  unfolding change_discussion_thread_required_privilege_for_tag
      change_discussion_thread_required_privilege_for_tag_in
  change_discussion_thread_required_privilege_for_tag-Outcome tag_id privilege value r =
      when_valid-Outcome q _ (is_valid_change tag_id privilege thread_privilege_count value) _ r
        (λ e. when_found-Outcome q _ (find_tag r.collection tag_id) _ r (λ x f.
          write_authorized-Outcome q _
            (Event.change_discussion_thread_required_privilege_for_tag tag_id privilege value)
            (change_discussion_thread_required_privilege_for_tag_in tag_id privilege value) r refl
            (rw (e, f) refl)))

  pub change_discussion_tag_required_privilege_for_tag-Outcome :
      (tag_id privilege : ℕ) (value : ℤ) (r : Repository)
      → Outcome q
          (Event.change_discussion_tag_required_privilege_for_tag tag_id privilege value)
          r
          (change_discussion_tag_required_privilege_for_tag q tag_id privilege value r)
  unfolding change_discussion_tag_required_privilege_for_tag
      change_discussion_tag_required_privilege_for_tag_in
  change_discussion_tag_required_privilege_for_tag-Outcome tag_id privilege value r =
      when_valid-Outcome q _ (is_valid_change tag_id privilege tag_privilege_count value) _ r (λ e.
        when_found-Outcome q _ (find_tag r.collection tag_id) _ r (λ x f.
          write_authorized-Outcome q _
            (Event.change_discussion_tag_required_privilege_for_tag tag_id privilege value)
            (change_discussion_tag_required_privilege_for_tag_in tag_id privilege value) r refl
            (rw (e, f) refl)))

  pub change_discussion_category_required_privilege_for_category-Outcome :
      (category_id privilege : ℕ) (value : ℤ) (r : Repository)
      → Outcome q
          (Event.change_discussion_category_required_privilege_for_category category_id privilege
            value)
          r
          (change_discussion_category_required_privilege_for_category q category_id privilege value
            r)
  unfolding change_discussion_category_required_privilege_for_category
      change_discussion_category_required_privilege_for_category_in
  change_discussion_category_required_privilege_for_category-Outcome category_id privilege value r =
      when_valid-Outcome q _ (is_valid_change category_id privilege category_privilege_count value)
        _ r
        (λ e. when_found-Outcome q _ (find_category r.collection category_id) _ r (λ x f.
          write_authorized-Outcome q _
            (Event.change_discussion_category_required_privilege_for_category category_id privilege
              value)
            (change_discussion_category_required_privilege_for_category_in category_id privilege
              value)
            r refl (rw (e, f) refl)))
