-- ===== src/Authorization/DefaultAuthorization/Requests.antt =====
-- Sequences of requests under the rules that throttle: the three for votes, the twelve that change a
-- requirement and the eight that change or delete a user. DefaultAuthorization.cpp, DefaultThrottling.cpp.
pub mod Answers
use forum.Base.Int.{ℤ}
use forum.Base.{
  ℕ, List, [], ◌∷◌, none, some, Bool, false, ◌||◌, ◌==◌, if◌then◌else◌, ◌≡◌, refl, ap, Option,
}
use forum.Authorization.Privileges.{PrivilegeValueType}
use forum.Authorization.Enums.{ForumWidePrivilege, UserActionThrottling}
use forum.Authorization.Entities.{User, DiscussionThreadMessage}
use forum.Authorization.DefaultThrottling.{DefaultThrottling, id_or_ip_address}
use forum.Authorization.DefaultThrottling.History.{Call, times_of}
use forum.Authorization.DefaultAuthorization.{
  DefaultAuthorization, Context, AuthorizationStatus, not_allowed, Action, answer, to_status,
  with_forum_wide, allowed_on_user,
}
use forum.Authorization.DefaultAuthorization.Throttled.{is_exempt, rule_after}
use forum.Authorization.DefaultAuthorization.Messages.Votes.{
  Vote, vote_on, votes_with, is_refused, vote_on-is_refused,
}
use forum.Authorization.DefaultAuthorization.Changes.{updated}
use forum.Authorization.DefaultAuthorization.Changes.Limits.{
  Requirement, update, adjusts_with, update-guarded,
}
use forum.Authorization.DefaultAuthorization.Users.{
  change_user_name, change_user_info, change_user_title, change_user_signature,
  change_user_attachment_quota, change_user_logo, delete_user_logo, delete_user,
}
use forum.Authorization.DefaultAuthorization.Users.Targets.{
  Change, name, info, title, signature, logo, no_logo, quota, deletion, change, any_privilege,
}

pub data Request : Type 0 where
  voting : Vote → DiscussionThreadMessage → Request
  updating : Requirement → PrivilegeValueType → ℤ → Request
  changing : Change → User → Request

-- The privilege for the own name, or the like. Nobody has one of his own for the other two.
abbrev own_privilege : Change → Option ForumWidePrivilege
own_privilege name = some ForumWidePrivilege.change_own_user_name
own_privilege info = some ForumWidePrivilege.change_own_user_info
own_privilege title = some ForumWidePrivilege.change_own_user_title
own_privilege signature = some ForumWidePrivilege.change_own_user_signature
own_privilege logo = some ForumWidePrivilege.change_own_user_logo
own_privilege no_logo = some ForumWidePrivilege.delete_own_user_logo
own_privilege quota = none
own_privilege deletion = none

-- The kind of action that a request counts as.
abbrev pub kind_of : Request → UserActionThrottling
kind_of (voting v message) = UserActionThrottling.vote
kind_of (updating r old_value new_value) = UserActionThrottling.edit_privileges
kind_of (changing k target) = UserActionThrottling.edit_content

module _ (a : DefaultAuthorization) (c : Context) (user : User) where
  -- The rule that decides on the request.
  abbrev pub rule_for : Request → Action
  rule_for (voting v message) = vote_on a c user message v
  rule_for (updating r old_value new_value) = update a c user r old_value new_value
  rule_for (changing k target) = change a c user target k

  -- Refused whatever the privileges, and before anything is counted.
  abbrev pub refused_first : Request → Bool
  refused_first (voting v message) = is_refused user message
  refused_first _ = false

  -- What the privileges alone say.
  abbrev pub by_privileges : Request → AuthorizationStatus
  by_privileges (voting v message) = to_status (votes_with a c user message v)
  by_privileges (updating r old_value new_value) =
      updated (adjusts_with a c user r) old_value new_value
  by_privileges (changing k target) =
      let by_any = allowed_on_user a c user (any_privilege a c user target k) target in
      elim (own_privilege k) [
        | none ↦ by_any
        | some own ↦
            if user.id == target.id then to_status (with_forum_wide a c user own) else by_any
      ]

  change-rule_after :
      (k : Change) (target : User) (t : DefaultThrottling)
      → change a c user target k t
        ≡ rule_after a c user UserActionThrottling.edit_content
            (answer (by_privileges (changing k target)))
            t
  unfolding change_user_name change_user_info change_user_title change_user_signature
      change_user_attachment_quota change_user_logo delete_user_logo delete_user
  change-rule_after name target t = refl
  change-rule_after info target t = refl
  change-rule_after title target t = refl
  change-rule_after signature target t = refl
  change-rule_after logo target t = refl
  change-rule_after no_logo target t = refl
  change-rule_after quota target t = refl
  change-rule_after deletion target t = refl

  pub rule_for-rule_after :
      (r : Request) (t : DefaultThrottling)
      → rule_for r t ≡ (
          if refused_first r
          then (not_allowed, t)
          else rule_after a c user (kind_of r) (answer (by_privileges r)) t)
  rule_for-rule_after (voting v message) t = vote_on-is_refused a c user message v t
  rule_for-rule_after (updating r old_value new_value) t =
      ap (λ rule. rule t) (update-guarded a c user r old_value new_value)
  rule_for-rule_after (changing k target) t = change-rule_after k target t

-- A request, with the state of privileges, the time, the address and the user that it meets.
pub record Asked : Type 0 where
  pub authorization : DefaultAuthorization
  pub context : Context
  pub user : User
  pub request : Request

abbrev pub ask : Asked → Action
ask q = rule_for q.authorization q.context q.user q.request

abbrev pub is_refused_first : Asked → Bool
is_refused_first q = refused_first q.authorization q.context q.user q.request

abbrev pub asks_exempt : Asked → Bool
asks_exempt q = is_exempt q.authorization q.context q.user

abbrev pub answer_by_privileges : Asked → AuthorizationStatus
answer_by_privileges q = by_privileges q.authorization q.context q.user q.request

-- The throttling after requests, whatever was answered to them.
abbrev pub ask_all : DefaultThrottling → List Asked → DefaultThrottling
ask_all t [] = t
ask_all t (q ∷ asked) = ask_all (ask q t).1 asked

-- What is counted: the requests of who is not exempt, but for those that are refused first.
abbrev pub counted : List Asked → List Call
counted [] = []
counted (q ∷ asked) =
    let rest = counted asked in
    if is_refused_first q || asks_exempt q
    then rest
    else record {
      action = kind_of q.request;
      at = q.context.current_time;
      user_id = q.user.id;
      address = q.context.current_user_ip_address;
    }
      ∷ rest

-- The times of the counted requests of the same kind by the same user, or from the same address where
-- the visitor is not logged in.
abbrev pub counted_with : Asked → List Asked → List ℕ
counted_with q earlier =
    times_of (id_or_ip_address q.user.id q.context.current_user_ip_address) (kind_of q.request)
      (counted earlier)
