-- ===== src/Repository/ForumRequired/Outcomes.antt =====
-- What the operations on what the whole forum requires come to. MemoryRepositoryAuthorization.cpp.
use forum.Base.{ℕ, refl}
use forum.Base.Int.{ℤ}
use forum.Persistence.Events.{Event}
use forum.Repository.Common.{Request, Repository}
use forum.Repository.Outcome.{Outcome, when_valid-Outcome, write_authorized-Outcome}
use forum.Repository.ForumChanges.{
  change_discussion_thread_message_required_privilege_in,
  change_discussion_thread_required_privilege_in, change_discussion_tag_required_privilege_in,
  change_discussion_category_required_privilege_in, change_forum_wide_required_privilege_in,
  change_forum_wide_default_privilege_level_in,
}
use forum.Repository.ForumRequired.{
  change_discussion_thread_message_required_privilege, change_discussion_thread_required_privilege,
  change_discussion_tag_required_privilege, change_discussion_category_required_privilege,
  change_forum_wide_required_privilege, change_forum_wide_default_privilege_level,
}

module _ (q : Request) where
  pub change_discussion_thread_message_required_privilege-Outcome :
      (privilege : ℕ) (value : ℤ) (r : Repository)
      → Outcome q
          (Event.change_discussion_thread_message_required_privilege_forum_wide privilege value)
          r
          (change_discussion_thread_message_required_privilege q privilege value r)
  unfolding change_discussion_thread_message_required_privilege
      change_discussion_thread_message_required_privilege_in
  change_discussion_thread_message_required_privilege-Outcome privilege value r =
      when_valid-Outcome q _ _ _ r (λ e.
        write_authorized-Outcome q _
          (Event.change_discussion_thread_message_required_privilege_forum_wide privilege value)
          (change_discussion_thread_message_required_privilege_in privilege value) r refl
          (rw e refl))

  pub change_discussion_thread_required_privilege-Outcome :
      (privilege : ℕ) (value : ℤ) (r : Repository)
      → Outcome q
          (Event.change_discussion_thread_required_privilege_forum_wide privilege value)
          r
          (change_discussion_thread_required_privilege q privilege value r)
  unfolding change_discussion_thread_required_privilege
      change_discussion_thread_required_privilege_in
  change_discussion_thread_required_privilege-Outcome privilege value r =
      when_valid-Outcome q _ _ _ r (λ e.
        write_authorized-Outcome q _
          (Event.change_discussion_thread_required_privilege_forum_wide privilege value)
          (change_discussion_thread_required_privilege_in privilege value) r refl (rw e refl))

  pub change_discussion_tag_required_privilege-Outcome :
      (privilege : ℕ) (value : ℤ) (r : Repository)
      → Outcome q
          (Event.change_discussion_tag_required_privilege_forum_wide privilege value)
          r
          (change_discussion_tag_required_privilege q privilege value r)
  unfolding change_discussion_tag_required_privilege change_discussion_tag_required_privilege_in
  change_discussion_tag_required_privilege-Outcome privilege value r =
      when_valid-Outcome q _ _ _ r (λ e.
        write_authorized-Outcome q _
          (Event.change_discussion_tag_required_privilege_forum_wide privilege value)
          (change_discussion_tag_required_privilege_in privilege value) r refl (rw e refl))

  pub change_discussion_category_required_privilege-Outcome :
      (privilege : ℕ) (value : ℤ) (r : Repository)
      → Outcome q
          (Event.change_discussion_category_required_privilege_forum_wide privilege value)
          r
          (change_discussion_category_required_privilege q privilege value r)
  unfolding change_discussion_category_required_privilege
      change_discussion_category_required_privilege_in
  change_discussion_category_required_privilege-Outcome privilege value r =
      when_valid-Outcome q _ _ _ r (λ e.
        write_authorized-Outcome q _
          (Event.change_discussion_category_required_privilege_forum_wide privilege value)
          (change_discussion_category_required_privilege_in privilege value) r refl (rw e refl))

  pub change_forum_wide_required_privilege-Outcome :
      (privilege : ℕ) (value : ℤ) (r : Repository)
      → Outcome q
          (Event.change_forum_wide_required_privilege privilege value)
          r
          (change_forum_wide_required_privilege q privilege value r)
  unfolding change_forum_wide_required_privilege change_forum_wide_required_privilege_in
  change_forum_wide_required_privilege-Outcome privilege value r =
      when_valid-Outcome q _ _ _ r (λ e.
        write_authorized-Outcome q _ (Event.change_forum_wide_required_privilege privilege value)
          (change_forum_wide_required_privilege_in privilege value) r refl (rw e refl))

  pub change_forum_wide_default_privilege_level-Outcome :
      (privilege : ℕ) (value duration : ℤ) (r : Repository)
      → Outcome q
          (Event.change_forum_wide_default_privilege_level privilege value duration)
          r
          (change_forum_wide_default_privilege_level q privilege value duration r)
  unfolding change_forum_wide_default_privilege_level change_forum_wide_default_privilege_level_in
  change_forum_wide_default_privilege_level-Outcome privilege value duration r =
      when_valid-Outcome q _ _ _ r (λ e.
        write_authorized-Outcome q _
          (Event.change_forum_wide_default_privilege_level privilege value duration)
          (change_forum_wide_default_privilege_level_in privilege value duration) r refl
          (rw e refl))
