-- ===== src/Repository/Tests.antt =====
-- Runs of requests about privileges on a small forum.
use forum.Base.{Bytes, length, ◌^◌, ◌<◌}
use forum.Persistence.Payload.{record_blob, part_bytes, parts_bytes}
use forum.Persistence.Blobs.{append, iterate_blobs_in_file, write_value}
use forum.Persistence.Events.Observer.Requirements.{
  on_change_discussion_thread_message_required_privilege_for_thread_message,
}
use forum.Persistence.Events.Observer.Assignments.{on_assign_discussion_thread_message_privilege}
use forum.Repository.Restart.{import_one, run_all-iterate_blobs_in_file}
use forum.Base.{ℕ, List, [], ◌∷◌, map, none, some, true, false, replicate, ◌≡◌, refl, arith}
use forum.Base.All.{All}
use forum.Base.Int.{pos}
use forum.Authorization.Entities.{
  User, is_anonymous_user, thread_privilege_count, thread_message_privilege_count,
}
use forum.Authorization.Tests.{alice, store, forum_wide}
use forum.Repository.Collection.{EntityCollection, find_user}
use forum.Repository.Common.{
  Request, Repository, success, unauthorized, write_authorized, when_valid, when_found,
  is_valid_change, is_valid_assignment, current_user,
}
use forum.Repository.Required.{
  change_discussion_thread_message_required_privilege_for_thread_message,
}
use forum.Repository.Assigned.{assign_discussion_thread_message_privilege}
use forum.Repository.Import.{replay}
use forum.Repository.Outcome.{Outcome}
use forum.Repository.Operations.{Operation, event_of, run, run_all, run-Outcome, run_all-replay}
use forum.Repository.Recovery.{blob_of, import_blobs, IsStorable, run_all-import_blobs}

abbrev carol : User
carol = record { id = 4; message_count = 0 }

abbrev collection : EntityCollection
collection = record {
  users = alice ∷ carol ∷ [];
  threads =
      record {
        id = 3;
        created_by = 2;
        message_count = 1;
        approved = true;
        tag_ids = [];
        thread_message_privileges = none;
        thread_privileges = replicate thread_privilege_count none;
      }
      ∷ [];
  thread_messages =
      record {
        id = 7;
        created_by = 2;
        approved = true;
        parent_thread_id = 3;
        thread_message_privileges = some (replicate thread_message_privilege_count (some (pos 50)));
      }
      ∷ [];
  tags = [];
  categories = [];
  granted_privileges = store;
  forum_wide = forum_wide;
  default_levels = none ∷ none ∷ [];
}

abbrev start : Repository
start = record {
  collection = collection;
  throttling = λ _. none;
  disable_throttling = false;
  written = [];
}

abbrev by : ℕ → Request
by user_id = record {
  context = record { current_time = 5000; current_user_ip_address = 9 };
  current_user_id = user_id;
}

-- Alice, with a level of 90 on the message, requires 60 for viewing it, and gives Carol 70 on it; before
-- that, Carol is refused.
abbrev raised : Operation
raised = Operation.require_of_thread_message_for_thread_message 7 0 (pos 60)

abbrev given : Operation
given = Operation.assign_thread_message 7 4 (pos 70) (pos 0)

abbrev requests : List (Request × Operation)
requests = (by 4, raised) ∷ (by 1, raised) ∷ (by 1, given) ∷ []

refused_test : (run (pos 0) (by 4) raised start).0 ≡ unauthorized
unfolding change_discussion_thread_message_required_privilege_for_thread_message is_anonymous_user
    write_authorized when_valid when_found is_valid_change
refused_test = refl

raised_test : (run (pos 0) (by 1) raised start).0 ≡ success
unfolding change_discussion_thread_message_required_privilege_for_thread_message is_anonymous_user
    write_authorized when_valid when_found is_valid_change
raised_test = refl

run-Outcome_example : Outcome (by 1) (event_of raised) start (run (pos 0) (by 1) raised start)
run-Outcome_example = run-Outcome (pos 0) (by 1) raised start

run_all-replay_example :
    replay (run_all (pos 0) requests start).written collection
    ≡ some (run_all (pos 0) requests start).collection
run_all-replay_example = run_all-replay (pos 0) requests start start refl

-- Both of Alice's requests have written an event.
written-IsStorable : All IsStorable (run_all (pos 0) requests start).written
unfolding change_discussion_thread_message_required_privilege_for_thread_message
    assign_discussion_thread_message_privilege is_anonymous_user write_authorized when_valid
    when_found is_valid_change is_valid_assignment current_user find_user
written-IsStorable = (
  record {
    context_fits = record {
      timestamp_fits = omega arith;
      performed_by_fits = omega arith;
      ip_address_fits = omega arith;
    };
    event_fits = (omega arith, omega arith, omega arith);
    context_written = refl;
  },
  (
    record {
      context_fits = record {
        timestamp_fits = omega arith;
        performed_by_fits = omega arith;
        ip_address_fits = omega arith;
      };
      event_fits = (omega arith, omega arith, omega arith, omega arith);
      context_written = refl;
    },
    tt,
  ),
)

run_all-import_blobs_example :
    import_blobs (map blob_of (run_all (pos 0) requests start).written) collection
    ≡ some (run_all (pos 0) requests start).collection
run_all-import_blobs_example = run_all-import_blobs (pos 0) requests start refl written-IsStorable

abbrev checksum : Bytes → ℕ
checksum _ = 7

written-small :
    All
      (λ blob. (length blob < 2 ^ 32) × (checksum blob < 2 ^ 32))
      (map blob_of (run_all (pos 0) requests start).written)
unfolding change_discussion_thread_message_required_privilege_for_thread_message
    assign_discussion_thread_message_privilege is_anonymous_user write_authorized when_valid
    when_found is_valid_change is_valid_assignment current_user find_user record_blob
    on_change_discussion_thread_message_required_privilege_for_thread_message
    on_assign_discussion_thread_message_privilege write_value parts_bytes part_bytes
written-small = ((omega arith, omega arith), ((omega arith, omega arith), tt))

run_all-iterate_blobs_in_file_example :
    let file = append checksum (map blob_of (run_all (pos 0) requests start).written) in
    let imported = iterate_blobs_in_file checksum import_one true file collection in
    (imported.success ≡ true) × (imported.events ≡ (run_all (pos 0) requests start).collection)
run_all-iterate_blobs_in_file_example =
    run_all-iterate_blobs_in_file checksum true (pos 0) requests start refl written-IsStorable
      written-small
