-- ===== src/Authorization/DefaultAuthorization/Tests.antt =====
-- Runs of the rules of DefaultAuthorization and of the throttling, on the small forum of the other tests.
use forum.Base.Int.{ℤ, pos, ◌<ℤ◌}
use forum.Base.{
  not, ◌&&◌, ℕ, ◌+◌, List, [], ◌∷◌, ◌++◌, none, some, true, false, ◌≡◌, ◌≢◌, refl, arith, is_some,
  if◌then◌else◌, ltb, get_or, replicate, length, ◌≤◌, ◌⊎◌, ◌↔◌,
}
use forum.Base.All.{Any, All}
use forum.Authorization.Allowed.Checks.{IsWithin}
use forum.Authorization.Privileges.{optional_or_zero}
use forum.Authorization.Entities.{forum_wide_privilege_count, User, is_anonymous_user}
use forum.Authorization.Enums.{UserActionThrottling, ForumWidePrivilege}
use forum.Authorization.Restriction.{Attachment, is_allowed_to_view_message}
use forum.Authorization.Store.{calculate_forum_wide_privilege}
use forum.Authorization.Tests.{alice, store, forum_wide, message}
use forum.Authorization.DefaultThrottling.{
  DefaultThrottling, check_action, throttling_default_values, id_or_ip_address, is_same,
  get_compare_structure,
}
use forum.Authorization.DefaultThrottling.History.{
  Call, after, times_of, check_action-after, check_action_waited,
}
use forum.Authorization.DefaultAuthorization.{
  DefaultAuthorization, Context, ok, not_allowed, throttled, with_forum_wide,
}
use forum.Authorization.DefaultAuthorization.Changes.{
  update_discussion_thread_message_privilege_of_message,
}
use forum.Authorization.DefaultAuthorization.Changes.Limits.{
  Requirement, update, adjusts_with, update-IsInReach, IsInReach,
}
use forum.Authorization.DefaultAuthorization.Assignments.{
  assign_discussion_thread_message_privilege,
}
use forum.Authorization.DefaultAuthorization.Assignments.Limits.{
  Grantable, assign, grants_with, granted_before, IsExceeded, assign-IsExceeded,
}
use forum.Authorization.DefaultAuthorization.Messages.Votes.{Vote}
use forum.Authorization.DefaultAuthorization.Requests.{
  Request, kind_of, Asked, ask, ask_all, is_refused_first, asks_exempt, answer_by_privileges,
  counted_with,
}
use forum.Authorization.DefaultAuthorization.Requests.Answers.{ask-ask_all, ask_waited}
use forum.Authorization.DefaultAuthorization.Users.{change_user_name}
use forum.Authorization.DefaultAuthorization.Users.Targets.{
  Change, change, forum_levels_of, change-IsAbove, change-oneself,
}
use forum.Authorization.DefaultAuthorization.Attachments.{
  can_get_attachment, user_allowed_to_view_message,
}
use forum.Authorization.DefaultAuthorization.Attachments.Readers.{
  LetsHave, can_get_attachment-LetsHave, user_allowed_to_view_message-is_allowed,
}

abbrev rules : DefaultAuthorization
rules = record {
  granted_privilege_store = store;
  forum_wide_privilege_store = forum_wide;
  disable_throttling = false;
}

abbrev now : Context
now = record { current_time = 5000; current_user_ip_address = 9 }

abbrev carol : User
carol = record { id = 4; message_count = 0 }

abbrev idle : DefaultThrottling
idle _ = none

abbrev votes : List Call
votes =
    record { action = UserActionThrottling.vote; at = 10; user_id = 1; address = 9 }
    ∷ record { action = UserActionThrottling.vote; at = 12; user_id = 4; address = 9 }
    ∷ record { action = UserActionThrottling.edit_content; at = 13; user_id = 1; address = 9 }
    ∷ []

abbrev attachment : Attachment
attachment = record { created_by = 2; approved = true; messages = message ∷ [] }

check_action-after_example :
    let (max_allowed, period) = throttling_default_values UserActionThrottling.vote in
    let times = times_of (id_or_ip_address 1 9) UserActionThrottling.vote votes in
    (check_action (after (λ _. none) votes) UserActionThrottling.vote 3700 1 9).0
    ≡ ltb 3700 (get_or (replicate max_allowed 0 ++ times) (length times) 0 + period)
check_action-after_example = check_action-after votes UserActionThrottling.vote 3700 1 9

long_ago : (throttling_default_values UserActionThrottling.vote).1 ≤ 3700
unfolding throttling_default_values
long_ago = omega arith

each_long_ago :
    All
      (λ time. time + (throttling_default_values UserActionThrottling.vote).1 ≤ 3700)
      (times_of (id_or_ip_address 1 9) UserActionThrottling.vote votes)
unfolding throttling_default_values id_or_ip_address is_same get_compare_structure
each_long_ago = (omega arith, tt)

check_action_waited_example :
    (check_action (after (λ _. none) votes) UserActionThrottling.vote 3700 1 9).0 ≡ false
check_action_waited_example =
    check_action_waited votes UserActionThrottling.vote 3700 1 9 long_ago each_long_ago

-- Alice votes twice, and Carol once; then Alice votes again. Nobody reaches the level to be exempt.
abbrev strict : DefaultAuthorization
strict = record rules {
  forum_wide_privilege_store = record forum_wide {
    forum_wide_privileges = replicate forum_wide_privilege_count (some (pos 100));
  };
}

abbrev voted : User → ℕ → Asked
voted user at = record {
  authorization = strict;
  context = record { current_time = at; current_user_ip_address = 9 };
  user = user;
  request = Request.voting Vote.up message;
}

abbrev asked_before : List Asked
asked_before = voted alice 10 ∷ voted carol 12 ∷ voted alice 20 ∷ []

ask-ask_all_example :
    let q = voted alice 3700 in
    let (max_allowed, period) = throttling_default_values (kind_of q.request) in
    let times = counted_with q asked_before in
    (ask q (ask_all (λ _. none) asked_before)).0 ≡ (
      if is_refused_first q
      then not_allowed
      else if not (asks_exempt q)
          && ltb q.context.current_time
              (get_or (replicate max_allowed 0 ++ times) (length times) 0 + period)
      then throttled
      else answer_by_privileges q)
ask-ask_all_example = ask-ask_all asked_before (voted alice 3700)

counted_test : counted_with (voted alice 3700) asked_before ≡ 10 ∷ 20 ∷ []
unfolding id_or_ip_address is_same get_compare_structure with_forum_wide is_anonymous_user
counted_test = refl

votes_long_ago :
    All
      (λ time. time + (throttling_default_values UserActionThrottling.vote).1 ≤ 3700)
      (counted_with (voted alice 3700) asked_before)
unfolding throttling_default_values
votes_long_ago = rw counted_test (omega arith, (omega arith, tt))

ask_waited_example : (ask (voted alice 3700) (ask_all (λ _. none) asked_before)).0 ≡ (
    if is_refused_first (voted alice 3700)
    then not_allowed
    else answer_by_privileges (voted alice 3700))
ask_waited_example = ask_waited asked_before (voted alice 3700) long_ago votes_long_ago

-- Alice, who has a level of 90 on the message, may require 60 where 50 were required.
update_test :
    (update rules now alice
      (Requirement.message_of_message message)
      (some (pos 50))
      (pos 60)
      idle).0
    ≡ ok
unfolding update_discussion_thread_message_privilege_of_message is_anonymous_user
update_test = refl

update-IsInReach_example :
    (value : ℤ) × (adjusts_with rules now alice (Requirement.message_of_message message)
      ≡ some value)
    × IsInReach rules now alice (some (pos 50)) (pos 60) value
update-IsInReach_example =
    update-IsInReach rules now alice (Requirement.message_of_message message) (some (pos 50))
      (pos 60) idle update_test

assign_test :
    (assign (pos 0) rules now alice carol (Grantable.message message) (pos 60) idle).0 ≡ ok
unfolding assign_discussion_thread_message_privilege is_anonymous_user
assign_test = refl

assign-IsExceeded_example :
    (◌≢◌ {A = ℕ} 1 4)
    × ((value : ℤ) × (grants_with (pos 0) rules now alice carol (Grantable.message message)
          ≡ some value)
        × IsExceeded
            (pos 0)
            rules
            now
            alice
            carol
            (granted_before (pos 0) rules now alice carol (Grantable.message message))
            (pos 60)
            value)
assign-IsExceeded_example =
    assign-IsExceeded (pos 0) rules now alice carol (Grantable.message message) (pos 60) idle
      assign_test

change_test : (change rules now alice carol Change.name idle).0 ≡ ok
unfolding change_user_name is_anonymous_user
change_test = refl

change-IsAbove_example :
    (value : ℤ) × (with_forum_wide rules now alice ForumWidePrivilege.change_any_user_name
      ≡ some value)
    × (optional_or_zero (forum_levels_of rules now alice carol carol).positive <ℤ value)
change-IsAbove_example = change-IsAbove rules now alice carol Change.name idle refl change_test

user_allowed_to_view_message-is_allowed_example :
    user_allowed_to_view_message rules now alice message
    ≡ is_allowed_to_view_message forum_wide store (some alice) (pos 5000) message
user_allowed_to_view_message-is_allowed_example =
    user_allowed_to_view_message-is_allowed rules now alice message

can_get_attachment-LetsHave_example : (can_get_attachment rules now alice attachment ≡ ok) ↔ (
    (◌≡◌ {A = ℕ} 1 2)
    ⊎ ((is_some (with_forum_wide rules now alice ForumWidePrivilege.get_all_attachments) ≡ true)
        ⊎ ((is_some (with_forum_wide rules now alice ForumWidePrivilege.get_attachments_of_user)
              ≡ true)
            ⊎ Any (LetsHave rules now alice attachment) (message ∷ []))))
can_get_attachment-LetsHave_example = can_get_attachment-LetsHave rules now alice attachment

-- Alice's only level for the whole forum is the positive one that everybody has: 10, and 5 for her messages.
alice-IsWithin : IsWithin (forum_levels_of rules now alice alice alice)
unfolding is_anonymous_user optional_or_zero calculate_forum_wide_privilege
alice-IsWithin = (omega arith, omega arith, omega arith, omega arith)

change-oneself_example :
    ((change rules now alice alice Change.deletion idle).0 ≢ ok)
    × ((change rules now alice alice Change.quota idle).0 ≢ ok)
change-oneself_example = change-oneself rules now alice idle alice-IsWithin
