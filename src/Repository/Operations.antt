-- ===== src/Repository/Operations.antt =====
-- The operations that change privileges, as data, and what runs of them come to.
use forum.Base.{some, ℕ, List, [], ◌∷◌, ◌≡◌}
use forum.Base.Int.{ℤ}
use forum.Persistence.Events.{Event}
use forum.Repository.Common.{StatusCode, Request, Repository}
use forum.Repository.Import.{replay}
use forum.Repository.Outcome.{Outcome, replay-Outcome}
use forum.Repository.Required.{
  change_discussion_thread_message_required_privilege_for_thread_message,
  change_discussion_thread_message_required_privilege_for_thread,
  change_discussion_thread_required_privilege_for_thread,
  change_discussion_thread_message_required_privilege_for_tag,
  change_discussion_thread_required_privilege_for_tag,
  change_discussion_tag_required_privilege_for_tag,
  change_discussion_category_required_privilege_for_category,
}
use forum.Repository.ForumRequired.{
  change_discussion_thread_message_required_privilege, change_discussion_thread_required_privilege,
  change_discussion_tag_required_privilege, change_discussion_category_required_privilege,
  change_forum_wide_required_privilege, change_forum_wide_default_privilege_level,
}
use forum.Repository.Assigned.{
  assign_discussion_thread_message_privilege, assign_discussion_thread_privilege,
  assign_discussion_tag_privilege, assign_discussion_category_privilege,
  assign_forum_wide_privilege,
}
use forum.Repository.Required.Outcomes.{
  change_discussion_thread_message_required_privilege_for_thread_message-Outcome,
  change_discussion_thread_message_required_privilege_for_thread-Outcome,
  change_discussion_thread_required_privilege_for_thread-Outcome,
  change_discussion_thread_message_required_privilege_for_tag-Outcome,
  change_discussion_thread_required_privilege_for_tag-Outcome,
  change_discussion_tag_required_privilege_for_tag-Outcome,
  change_discussion_category_required_privilege_for_category-Outcome,
}
use forum.Repository.ForumRequired.Outcomes.{
  change_discussion_thread_message_required_privilege-Outcome,
  change_discussion_thread_required_privilege-Outcome,
  change_discussion_tag_required_privilege-Outcome,
  change_discussion_category_required_privilege-Outcome,
  change_forum_wide_required_privilege-Outcome, change_forum_wide_default_privilege_level-Outcome,
}
use forum.Repository.Assigned.Outcomes.{
  assign_discussion_thread_message_privilege-Outcome, assign_discussion_thread_privilege-Outcome,
  assign_discussion_tag_privilege-Outcome, assign_discussion_category_privilege-Outcome,
  assign_forum_wide_privilege-Outcome,
}

pub data Operation : Type 0 where
  require_of_thread_message_for_thread_message : ℕ → ℕ → ℤ → Operation
  require_of_thread_message_for_thread : ℕ → ℕ → ℤ → Operation
  require_of_thread_for_thread : ℕ → ℕ → ℤ → Operation
  require_of_thread_message_for_tag : ℕ → ℕ → ℤ → Operation
  require_of_thread_for_tag : ℕ → ℕ → ℤ → Operation
  require_of_tag_for_tag : ℕ → ℕ → ℤ → Operation
  require_of_category_for_category : ℕ → ℕ → ℤ → Operation
  require_of_thread_message : ℕ → ℤ → Operation
  require_of_thread : ℕ → ℤ → Operation
  require_of_tag : ℕ → ℤ → Operation
  require_of_category : ℕ → ℤ → Operation
  require_of_forum_wide : ℕ → ℤ → Operation
  require_of_default_level : ℕ → ℤ → ℤ → Operation
  assign_thread_message : ℕ → ℕ → ℤ → ℤ → Operation
  assign_thread : ℕ → ℕ → ℤ → ℤ → Operation
  assign_tag : ℕ → ℕ → ℤ → ℤ → Operation
  assign_category : ℕ → ℕ → ℤ → ℤ → Operation
  assign_forum_wide : ℕ → ℤ → ℤ → Operation

abbrev pub event_of : Operation → Event
event_of (Operation.require_of_thread_message_for_thread_message message_id privilege value) =
    Event.change_discussion_thread_message_required_privilege_for_thread_message message_id
      privilege value
event_of (Operation.require_of_thread_message_for_thread thread_id privilege value) =
    Event.change_discussion_thread_message_required_privilege_for_thread thread_id privilege value
event_of (Operation.require_of_thread_for_thread thread_id privilege value) =
    Event.change_discussion_thread_required_privilege_for_thread thread_id privilege value
event_of (Operation.require_of_thread_message_for_tag tag_id privilege value) =
    Event.change_discussion_thread_message_required_privilege_for_tag tag_id privilege value
event_of (Operation.require_of_thread_for_tag tag_id privilege value) =
    Event.change_discussion_thread_required_privilege_for_tag tag_id privilege value
event_of (Operation.require_of_tag_for_tag tag_id privilege value) =
    Event.change_discussion_tag_required_privilege_for_tag tag_id privilege value
event_of (Operation.require_of_category_for_category category_id privilege value) =
    Event.change_discussion_category_required_privilege_for_category category_id privilege value
event_of (Operation.require_of_thread_message privilege value) =
    Event.change_discussion_thread_message_required_privilege_forum_wide privilege value
event_of (Operation.require_of_thread privilege value) =
    Event.change_discussion_thread_required_privilege_forum_wide privilege value
event_of (Operation.require_of_tag privilege value) =
    Event.change_discussion_tag_required_privilege_forum_wide privilege value
event_of (Operation.require_of_category privilege value) =
    Event.change_discussion_category_required_privilege_forum_wide privilege value
event_of (Operation.require_of_forum_wide privilege value) =
    Event.change_forum_wide_required_privilege privilege value
event_of (Operation.require_of_default_level privilege value duration) =
    Event.change_forum_wide_default_privilege_level privilege value duration
event_of (Operation.assign_thread_message message_id user_id value duration) =
    Event.assign_discussion_thread_message_privilege message_id user_id value duration
event_of (Operation.assign_thread thread_id user_id value duration) =
    Event.assign_discussion_thread_privilege thread_id user_id value duration
event_of (Operation.assign_tag tag_id user_id value duration) =
    Event.assign_discussion_tag_privilege tag_id user_id value duration
event_of (Operation.assign_category category_id user_id value duration) =
    Event.assign_discussion_category_privilege category_id user_id value duration
event_of (Operation.assign_forum_wide user_id value duration) =
    Event.assign_forum_wide_privilege user_id value duration

abbrev pub run : ℤ → Request → Operation → Repository → StatusCode × Repository
run unset q (Operation.require_of_thread_message_for_thread_message message_id privilege value) =
    change_discussion_thread_message_required_privilege_for_thread_message q message_id privilege
      value
run unset q (Operation.require_of_thread_message_for_thread thread_id privilege value) =
    change_discussion_thread_message_required_privilege_for_thread q thread_id privilege value
run unset q (Operation.require_of_thread_for_thread thread_id privilege value) =
    change_discussion_thread_required_privilege_for_thread q thread_id privilege value
run unset q (Operation.require_of_thread_message_for_tag tag_id privilege value) =
    change_discussion_thread_message_required_privilege_for_tag q tag_id privilege value
run unset q (Operation.require_of_thread_for_tag tag_id privilege value) =
    change_discussion_thread_required_privilege_for_tag q tag_id privilege value
run unset q (Operation.require_of_tag_for_tag tag_id privilege value) =
    change_discussion_tag_required_privilege_for_tag q tag_id privilege value
run unset q (Operation.require_of_category_for_category category_id privilege value) =
    change_discussion_category_required_privilege_for_category q category_id privilege value
run unset q (Operation.require_of_thread_message privilege value) =
    change_discussion_thread_message_required_privilege q privilege value
run unset q (Operation.require_of_thread privilege value) =
    change_discussion_thread_required_privilege q privilege value
run unset q (Operation.require_of_tag privilege value) =
    change_discussion_tag_required_privilege q privilege value
run unset q (Operation.require_of_category privilege value) =
    change_discussion_category_required_privilege q privilege value
run unset q (Operation.require_of_forum_wide privilege value) =
    change_forum_wide_required_privilege q privilege value
run unset q (Operation.require_of_default_level privilege value duration) =
    change_forum_wide_default_privilege_level q privilege value duration
run unset q (Operation.assign_thread_message message_id user_id value duration) =
    assign_discussion_thread_message_privilege unset q message_id user_id value duration
run unset q (Operation.assign_thread thread_id user_id value duration) =
    assign_discussion_thread_privilege unset q thread_id user_id value duration
run unset q (Operation.assign_tag tag_id user_id value duration) =
    assign_discussion_tag_privilege unset q tag_id user_id value duration
run unset q (Operation.assign_category category_id user_id value duration) =
    assign_discussion_category_privilege unset q category_id user_id value duration
run unset q (Operation.assign_forum_wide user_id value duration) =
    assign_forum_wide_privilege unset q user_id value duration

abbrev pub run_all : ℤ → List (Request × Operation) → Repository → Repository
run_all unset [] r = r
run_all unset ((q, operation) ∷ rest) r = run_all unset rest (run unset q operation r).1

-- Each of the 18 operations that change required, default or granted privileges either answers another
-- status than OK, and changes neither the collection nor what was written; or answers OK, writes exactly
-- one event, its own, and changes the collection just as the import of this event would, which
-- succeeds.
pub run-Outcome :
    (unset : ℤ) (q : Request) (operation : Operation) (r : Repository)
    → Outcome q (event_of operation) r (run unset q operation r)
run-Outcome unset q
      (Operation.require_of_thread_message_for_thread_message message_id privilege value) r =
    change_discussion_thread_message_required_privilege_for_thread_message-Outcome q message_id
      privilege value r
run-Outcome unset q (Operation.require_of_thread_message_for_thread thread_id privilege value) r =
    change_discussion_thread_message_required_privilege_for_thread-Outcome q thread_id privilege
      value r
run-Outcome unset q (Operation.require_of_thread_for_thread thread_id privilege value) r =
    change_discussion_thread_required_privilege_for_thread-Outcome q thread_id privilege value r
run-Outcome unset q (Operation.require_of_thread_message_for_tag tag_id privilege value) r =
    change_discussion_thread_message_required_privilege_for_tag-Outcome q tag_id privilege value r
run-Outcome unset q (Operation.require_of_thread_for_tag tag_id privilege value) r =
    change_discussion_thread_required_privilege_for_tag-Outcome q tag_id privilege value r
run-Outcome unset q (Operation.require_of_tag_for_tag tag_id privilege value) r =
    change_discussion_tag_required_privilege_for_tag-Outcome q tag_id privilege value r
run-Outcome unset q (Operation.require_of_category_for_category category_id privilege value) r =
    change_discussion_category_required_privilege_for_category-Outcome q category_id privilege value
      r
run-Outcome unset q (Operation.require_of_thread_message privilege value) r =
    change_discussion_thread_message_required_privilege-Outcome q privilege value r
run-Outcome unset q (Operation.require_of_thread privilege value) r =
    change_discussion_thread_required_privilege-Outcome q privilege value r
run-Outcome unset q (Operation.require_of_tag privilege value) r =
    change_discussion_tag_required_privilege-Outcome q privilege value r
run-Outcome unset q (Operation.require_of_category privilege value) r =
    change_discussion_category_required_privilege-Outcome q privilege value r
run-Outcome unset q (Operation.require_of_forum_wide privilege value) r =
    change_forum_wide_required_privilege-Outcome q privilege value r
run-Outcome unset q (Operation.require_of_default_level privilege value duration) r =
    change_forum_wide_default_privilege_level-Outcome q privilege value duration r
run-Outcome unset q (Operation.assign_thread_message message_id user_id value duration) r =
    assign_discussion_thread_message_privilege-Outcome unset q message_id user_id value duration r
run-Outcome unset q (Operation.assign_thread thread_id user_id value duration) r =
    assign_discussion_thread_privilege-Outcome unset q thread_id user_id value duration r
run-Outcome unset q (Operation.assign_tag tag_id user_id value duration) r =
    assign_discussion_tag_privilege-Outcome unset q tag_id user_id value duration r
run-Outcome unset q (Operation.assign_category category_id user_id value duration) r =
    assign_discussion_category_privilege-Outcome unset q category_id user_id value duration r
run-Outcome unset q (Operation.assign_forum_wide user_id value duration) r =
    assign_forum_wide_privilege-Outcome unset q user_id value duration r

-- If the import of the events that were written into the collection at the start succeeds and gives the
-- collection as it is, then it still does so after any requests about privileges, by any users at any times,
-- allowed or not.
pub run_all-replay :
    (unset : ℤ) (requests : List (Request × Operation)) (start r : Repository)
    → replay r.written start.collection ≡ some r.collection
    → replay (run_all unset requests r).written start.collection
      ≡ some (run_all unset requests r).collection
run_all-replay unset [] start r h = h
run_all-replay unset ((q, operation) ∷ rest) start r h =
    run_all-replay unset rest start (run unset q operation r).1 (
      replay-Outcome q (event_of operation) r (run unset q operation r) start.collection
        (run-Outcome unset q operation r) h)
