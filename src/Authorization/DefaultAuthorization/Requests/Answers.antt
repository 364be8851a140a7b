-- ===== src/Authorization/DefaultAuthorization/Requests/Answers.antt =====
-- What is answered to a request after a sequence of others. DefaultAuthorization.cpp,
-- DefaultThrottling.cpp.
use forum.Base.{
  List, [], ◌∷◌, ◌++◌, none, Bool, not, ◌&&◌, ltb, if◌then◌else◌, get_or, length, replicate, ◌+◌,
  ◌≤◌, ◌≡◌, refl, ap, ◌∙◌, inl, inr, Bool-cases,
}
use forum.Base.All.{All}
use forum.Authorization.DefaultThrottling.{
  DefaultThrottling, check_action, throttling_default_values,
}
use forum.Authorization.DefaultThrottling.History.{after, check_action-after, check_action_waited}
use forum.Authorization.DefaultAuthorization.{AuthorizationStatus, not_allowed, throttled, answer}
use forum.Authorization.DefaultAuthorization.Throttled.{rule_after-check_action}
use forum.Authorization.DefaultAuthorization.Requests.{
  kind_of, rule_for-rule_after, Asked, ask, is_refused_first, asks_exempt, answer_by_privileges,
  ask_all, counted, counted_with,
}

abbrev checked : Asked → DefaultThrottling → Bool × DefaultThrottling
checked q t =
    check_action t (kind_of q.request) q.context.current_time q.user.id
      q.context.current_user_ip_address

module _ (q : Asked) (t : DefaultThrottling) where
  ask-check_action : ask q t ≡ (
      if is_refused_first q
      then (not_allowed, t)
      else if asks_exempt q
      then (answer_by_privileges q, t)
      else (let (refused, t') = checked q t in
          if refused then (throttled, t') else (answer_by_privileges q, t')))
  ask-check_action =
      rule_for-rule_after q.authorization q.context q.user q.request t
      ∙ ap
          (λ (r : AuthorizationStatus × DefaultThrottling).
            if is_refused_first q then (not_allowed, t) else r)
          (rule_after-check_action q.authorization q.context q.user (kind_of q.request)
            (answer (answer_by_privileges q)) t)

ask_all-counted :
    (t : DefaultThrottling) (asked : List Asked) → ask_all t asked ≡ after t (counted asked)
ask_all-counted t [] = refl
ask_all-counted t (q ∷ asked) =
    let made = checked q t in
    ap (λ (r : AuthorizationStatus × DefaultThrottling). ask_all r.1 asked) (ask-check_action q t)
    ∙ elim (Bool-cases (is_refused_first q)) [
      | inl e ↦ rw e (ask_all-counted t asked)
      | inr e ↦ elim (Bool-cases (asks_exempt q)) [
        | inl x ↦ rw (e, x) (ask_all-counted t asked)
        | inr x ↦ elim (Bool-cases made.0) [
          | inl m ↦ rw (e, x, m) (ask_all-counted made.1 asked)
          | inr m ↦ rw (e, x, m) (ask_all-counted made.1 asked)
        ]
      ]
    ]

-- The answer, when check says `refused`.
abbrev answered : Asked → Bool → AuthorizationStatus
answered q refused =
    if is_refused_first q
    then not_allowed
    else if not (asks_exempt q) && refused
    then throttled
    else answer_by_privileges q

ask-answered :
    (earlier : List Asked) (q : Asked)
    → (ask q (ask_all (λ _. none) earlier)).0
      ≡ answered q (checked q (after (λ _. none) (counted earlier))).0
ask-answered earlier q =
    let t = after (λ _. none) (counted earlier) in
    ap (λ s. (ask q s).0) (ask_all-counted (λ _. none) earlier)
    ∙ ap (λ (r : AuthorizationStatus × DefaultThrottling). r.0) (ask-check_action q t)
    ∙ elim (Bool-cases (is_refused_first q)) [
      | inl e ↦ rw e refl
      | inr e ↦ elim (Bool-cases (asks_exempt q)) [
        | inl x ↦ rw (e, x) refl
        | inr x ↦ elim (Bool-cases (checked q t).0) [
          | inl m ↦ rw (e, x, m) refl
          | inr m ↦ rw (e, x, m) refl
        ]
      ]
    ]

-- After any sequence of requests for votes, for changes of requirements and for changes of users, of any
-- users at any times and with any privileges, on a throttling that starts empty, the next such request is
-- answered like this. A vote for an own message, or of who is not logged in, is not allowed. Otherwise, who
-- is not exempt from throttling is throttled exactly when the counted request of the same kind, by the
-- same user or else from the same address, that lies as many counted requests back as the kind allows was
-- less than the kind's period ago; one that there was not counts as made at time 0. Counted are, throttled
-- or not, the requests of who was not exempt and not refused first. In all other cases the privileges
-- alone decide.
pub ask-ask_all :
    (earlier : List Asked) (q : Asked)
    → let (max_allowed, period) = throttling_default_values (kind_of q.request) in
      let times = counted_with q earlier in
      (ask q (ask_all (λ _. none) earlier)).0 ≡ (
        if is_refused_first q
        then not_allowed
        else if not (asks_exempt q)
            && ltb q.context.current_time
                (get_or (replicate max_allowed 0 ++ times) (length times) 0 + period)
        then throttled
        else answer_by_privileges q)
ask-ask_all earlier q =
    ask-answered earlier q
    ∙ ap (answered q) (
        check_action-after (counted earlier) (kind_of q.request) q.context.current_time q.user.id
          q.context.current_user_ip_address)

-- Who waits is answered by the privileges alone, whatever was asked before, by anybody: so it is with a
-- request made at a time that is at least its kind's period, and at least the period after each earlier
-- counted request of the same kind by the same user, or else from the same address. The exception is
-- again a vote for an own message, or of who is not logged in, which is not allowed.
pub ask_waited :
    (earlier : List Asked) (q : Asked)
    → (throttling_default_values (kind_of q.request)).1 ≤ q.context.current_time
    → All
        (λ time. time + (throttling_default_values (kind_of q.request)).1 ≤ q.context.current_time)
        (counted_with q earlier)
    → (ask q (ask_all (λ _. none) earlier)).0
      ≡ (if is_refused_first q then not_allowed else answer_by_privileges q)
ask_waited earlier q start waited =
    ask-answered earlier q
    ∙ ap (answered q) (
        check_action_waited (counted earlier) (kind_of q.request) q.context.current_time q.user.id
          q.context.current_user_ip_address start waited)
    ∙ elim (Bool-cases (asks_exempt q)) [ inl x ↦ rw x refl | inr x ↦ rw x refl ]
