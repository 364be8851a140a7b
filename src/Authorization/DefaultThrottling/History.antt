-- ===== src/Authorization/DefaultThrottling/History.antt =====
-- Each user's actions of each kind are counted on their own. DefaultThrottling.cpp.
use forum.Base.{
  ℕ, zero, suc, ◌+◌, ◌<◌, ◌≤◌, ◌^◌, List, [], ◌∷◌, ◌++◌, none, some, Bool, true, false, ◌&&◌, ltb,
  if◌then◌else◌, get_or, length, replicate, ◌≡◌, refl, ap, ◌∙◌, arith, inl, inr, Bool-cases,
}
use forum.Base.All.{All, All-append}
use forum.Authorization.Enums.{
  UserActionThrottling, new_content, edit_content, edit_privileges, vote, subscribe,
}
use forum.Authorization.Throttling.{ThrottlingCheck, is_allowed}
use forum.Authorization.Throttling.Queue.{actions, is_allowed-actions}
use forum.Authorization.DefaultThrottling.{
  IdOrIpAddress, id_or_ip_address, get_compare_structure, is_same, throttling_default_values,
  user_throttling_checks, same_action, DefaultThrottling, find_or_emplace, check_action,
}

-- A call of check.
pub record Call : Type 0 where
  pub action : UserActionThrottling
  pub at : ℕ
  pub user_id : ℕ
  pub address : ℕ

abbrev pub after : DefaultThrottling → List Call → DefaultThrottling
after entries [] = entries
after entries (call ∷ calls) =
    after (check_action entries call.action call.at call.user_id call.address).1 calls

-- The call counts for this action of this user or address.
abbrev pub counts_for : IdOrIpAddress → UserActionThrottling → Call → Bool
counts_for who action call =
    is_same (id_or_ip_address call.user_id call.address) who && same_action call.action action

-- The times of the calls that count.
abbrev pub times_of : IdOrIpAddress → UserActionThrottling → List Call → List ℕ
times_of who action [] = []
times_of who action (call ∷ calls) =
    let rest = times_of who action calls in
    if counts_for who action call then call.at ∷ rest else rest

is_same-eq :
    (u v a b : ℕ)
    → is_same (id_or_ip_address u a) (id_or_ip_address v b) ≡ true
    → id_or_ip_address u a ≡ id_or_ip_address v b
unfolding is_same id_or_ip_address get_compare_structure
is_same-eq u v a b h = ground arith

same_action-eq : (a b : UserActionThrottling) → same_action a b ≡ true → a ≡ b
same_action-eq new_content new_content h = refl
same_action-eq edit_content edit_content h = refl
same_action-eq edit_privileges edit_privileges h = refl
same_action-eq vote vote h = refl
same_action-eq subscribe subscribe h = refl
same_action-eq _ _ h = ground arith

found-eq :
    (d e : DefaultThrottling) (who : IdOrIpAddress) (action : UserActionThrottling)
    → d who ≡ e who
    → find_or_emplace d who action ≡ find_or_emplace e who action
unfolding find_or_emplace
found-eq d e who action h = rw (h, find_or_emplace) refl

emplaced :
    (entries : DefaultThrottling) (current who : IdOrIpAddress)
    (checks : UserActionThrottling → ThrottlingCheck) (action : UserActionThrottling)
    → find_or_emplace
        (λ other. if is_same current other then some checks else entries other)
        who
        action
      ≡ (if is_same current who then checks action else find_or_emplace entries who action)
unfolding find_or_emplace
emplaced entries current who checks action =
    let updated : DefaultThrottling =
      λ other. if is_same current other then some checks else entries other in
    elim (Bool-cases (is_same current who)) [
      | inl s ↦ found-eq updated (λ _. some checks) who action (rw s refl) ∙ rw s refl
      | inr s ↦ found-eq updated entries who action (rw s refl) ∙ rw s refl
    ]

module _ (entries : DefaultThrottling) (call : Call) where
  abbrev current : IdOrIpAddress
  current = id_or_ip_address call.user_id call.address

  abbrev checks_after : UserActionThrottling → ThrottlingCheck
  checks_after kind =
      if same_action call.action kind
      then (is_allowed (find_or_emplace entries current call.action) call.at).1
      else find_or_emplace entries current kind

  entries_after :
      (check_action entries call.action call.at call.user_id call.address).1
      ≡ (λ other. if is_same current other then some checks_after else entries other)
  unfolding check_action
  entries_after = refl

  -- What a call leaves for a user or address and an action: a step of its own check, or what was there.
  find_or_emplace-check_action :
      (user_id address : ℕ) (action : UserActionThrottling)
      → let who = id_or_ip_address user_id address in
        find_or_emplace
          (check_action entries call.action call.at call.user_id call.address).1
          who
          action
        ≡ (if counts_for who action call
            then (is_allowed (find_or_emplace entries who action) call.at).1
            else find_or_emplace entries who action)
  find_or_emplace-check_action user_id address action =
      let who = id_or_ip_address user_id address in
      ap (λ e. find_or_emplace e who action) entries_after
      ∙ emplaced entries current who checks_after action
      ∙ elim (Bool-cases (is_same current who)) [
        | inl s ↦
            let e : current ≡ who = is_same-eq call.user_id user_id call.address address s in
            elim (Bool-cases (same_action call.action action)) [
              | inl k ↦
                  rw (s, k)
                    (ap (λ w. (is_allowed (find_or_emplace entries w call.action) call.at).1) e
                      ∙ ap (λ x. (is_allowed (find_or_emplace entries who x) call.at).1)
                          (same_action-eq _ _ k))
              | inr k ↦ rw (s, k) (ap (λ w. find_or_emplace entries w action) e)
            ]
        | inr s ↦ rw s refl
      ]

find_or_emplace-after :
    (entries : DefaultThrottling) (calls : List Call) (user_id address : ℕ)
    (action : UserActionThrottling)
    → find_or_emplace (after entries calls) (id_or_ip_address user_id address) action
      ≡ actions
          (find_or_emplace entries (id_or_ip_address user_id address) action)
          (times_of (id_or_ip_address user_id address) action calls)
find_or_emplace-after entries [] user_id address action = refl
find_or_emplace-after entries (call ∷ calls) user_id address action =
    let who = id_or_ip_address user_id address in
    let times = times_of who action calls in
    let next = (check_action entries call.action call.at call.user_id call.address).1 in
    find_or_emplace-after next calls user_id address action
    ∙ ap (λ x. actions x times) (find_or_emplace-check_action entries call user_id address action)
    ∙ elim (Bool-cases (counts_for who action call)) [ inl s ↦ rw s refl | inr s ↦ rw s refl ]

allowed-positive : (action : UserActionThrottling) → 0 < (throttling_default_values action).0
unfolding throttling_default_values
allowed-positive new_content = omega arith
allowed-positive edit_content = omega arith
allowed-positive edit_privileges = omega arith
allowed-positive vote = omega arith
allowed-positive subscribe = omega arith

allowed-small : (action : UserActionThrottling) → (throttling_default_values action).0 < 2 ^ 16
unfolding throttling_default_values
allowed-small new_content = omega arith
allowed-small edit_content = omega arith
allowed-small edit_privileges = omega arith
allowed-small vote = omega arith
allowed-small subscribe = omega arith

-- After any calls of check for any users, addresses and actions, on a throttling that starts empty, the
-- next one answers true exactly when the call for the same action of the same user, or of the same
-- address where the visitor is not logged in, that lies as many calls back as the action allows was
-- less than the action's period ago; a call that there was not counts as one at time 0.
pub check_action-after :
    (calls : List Call) (action : UserActionThrottling) (at user_id address : ℕ)
    → let (max_allowed, period) = throttling_default_values action in
      let times = times_of (id_or_ip_address user_id address) action calls in
      (check_action (after (λ _. none) calls) action at user_id address).0
      ≡ ltb at (get_or (replicate max_allowed 0 ++ times) (length times) 0 + period)
unfolding check_action
check_action-after calls action at user_id address =
    let (max_allowed, period) = throttling_default_values action in
    let times = times_of (id_or_ip_address user_id address) action calls in
    ap (λ x. (is_allowed x at).0)
      (find_or_emplace-after (λ _. none) calls user_id address action
        ∙ unfold find_or_emplace user_throttling_checks in refl)
    ∙ is_allowed-actions max_allowed period times at (allowed-positive action)
        (allowed-small action)

get_or-All : (P : ℕ → Type 0) (xs : List ℕ) (i : ℕ) → P 0 → All P xs → P (get_or xs i 0)
get_or-All P [] i z h = z
get_or-All P (x ∷ xs) zero z h = h.0
get_or-All P (x ∷ xs) (suc i) z h = get_or-All P xs i z h.1

replicate-All : (P : ℕ → Type 0) (n : ℕ) → P 0 → All P (replicate n 0)
replicate-All P zero z = tt
replicate-All P (suc n) z = (z, replicate-All P n z)

-- A user who waits gets through: at a time that is at least the action's period, and at least the period
-- after each earlier call for the same action of the same user or address, check answers false, whatever
-- others did and however many calls there were.
pub check_action_waited :
    (calls : List Call) (action : UserActionThrottling) (at user_id address : ℕ)
    → (throttling_default_values action).1 ≤ at
    → All
        (λ time. time + (throttling_default_values action).1 ≤ at)
        (times_of (id_or_ip_address user_id address) action calls)
    → (check_action (after (λ _. none) calls) action at user_id address).0 ≡ false
check_action_waited calls action at user_id address start waited =
    let (max_allowed, period) = throttling_default_values action in
    let times = times_of (id_or_ip_address user_id address) action calls in
    let P : ℕ → Type 0 = λ time. time + period ≤ at in
    let early : get_or (replicate max_allowed 0 ++ times) (length times) 0 + period ≤ at =
      get_or-All P (replicate max_allowed 0 ++ times) (length times) (omega (arith, start)) (
        All-append P (replicate max_allowed 0) times
          (replicate-All P max_allowed (omega (arith, start))) waited) in
    check_action-after calls action at user_id address ∙ ground arith
