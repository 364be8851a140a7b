-- ===== src/Authorization/DefaultAuthorization/Messages/Votes.antt =====
-- The three rules for votes. DefaultAuthorization.cpp.
use forum.Base.{Bool, ◌||◌, if◌then◌else◌, some, ◌==◌, ◌≡◌, refl, inl, inr, Bool-cases}
use forum.Authorization.Privileges.{PrivilegeValueType}
use forum.Authorization.Enums.{DiscussionThreadMessagePrivilege, UserActionThrottling}
use forum.Authorization.Entities.{User, DiscussionThreadMessage, is_anonymous_user}
use forum.Authorization.DefaultThrottling.{DefaultThrottling}
use forum.Authorization.DefaultAuthorization.{
  DefaultAuthorization, Context, not_allowed, Action, ◌>>◌, answer, return_if, return_if_throttled,
  to_status, with_message,
}
use forum.Authorization.DefaultAuthorization.Throttled.{rule_after}
use forum.Authorization.DefaultAuthorization.Messages.{
  up_vote_discussion_thread_message, down_vote_discussion_thread_message,
  reset_vote_discussion_thread_message,
}

-- The three things that can be done with a vote.
pub data Vote : Type 0 where
  up down reset : Vote

-- The author of a message, and who is not logged in, may not vote for it.
abbrev pub is_refused : User → DiscussionThreadMessage → Bool
is_refused user message = user.id == message.created_by || is_anonymous_user (some user)

module _ (a : DefaultAuthorization) (c : Context) (user : User)
    (message : DiscussionThreadMessage) where
  abbrev pub vote_on : Vote → Action
  vote_on up = up_vote_discussion_thread_message a c user message
  vote_on down = down_vote_discussion_thread_message a c user message
  vote_on reset = reset_vote_discussion_thread_message a c user message

  abbrev pub votes_with : Vote → PrivilegeValueType
  votes_with up = with_message a c user message DiscussionThreadMessagePrivilege.up_vote
  votes_with down = with_message a c user message DiscussionThreadMessagePrivilege.down_vote
  votes_with reset = with_message a c user message DiscussionThreadMessagePrivilege.reset_vote

  abbrev guarded : PrivilegeValueType → Action
  guarded value =
      return_if (user.id == message.created_by) not_allowed
      >> (return_if (is_anonymous_user (some user)) not_allowed
          >> (return_if_throttled a c user UserActionThrottling.vote >> answer (to_status value)))

  vote_on-guarded : (v : Vote) → vote_on v ≡ guarded (votes_with v)
  unfolding up_vote_discussion_thread_message down_vote_discussion_thread_message
      reset_vote_discussion_thread_message
  vote_on-guarded up = refl
  vote_on-guarded down = refl
  vote_on-guarded reset = refl

  pub vote_on-is_refused :
      (v : Vote) (t : DefaultThrottling)
      → vote_on v t ≡ (
          if is_refused user message
          then (not_allowed, t)
          else rule_after a c user UserActionThrottling.vote (answer (to_status (votes_with v))) t)
  vote_on-is_refused v t = elim (Bool-cases (user.id == message.created_by)) [
    | inl e ↦ rw (vote_on-guarded v, e) refl
    | inr e ↦ elim (Bool-cases (is_anonymous_user (some user))) [
      | inl k ↦ rw (vote_on-guarded v, k, e) refl
      | inr k ↦ rw (vote_on-guarded v, k, e) refl
    ]
  ]
