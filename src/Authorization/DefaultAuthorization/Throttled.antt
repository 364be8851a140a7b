-- ===== src/Authorization/DefaultAuthorization/Throttled.antt =====
-- What the statement that refuses throttled users does to a rule. DefaultAuthorization.cpp.
use forum.Base.{
  ap, ◌||◌, Bool, true, false, not, ◌&&◌, is_some, ◌≡◌, refl, some, none, ◌∙◌, arith, if◌then◌else◌,
}
use forum.Authorization.Enums.{UserActionThrottling, ForumWidePrivilege}
use forum.Authorization.Entities.{User}
use forum.Authorization.DefaultThrottling.{DefaultThrottling, check_action}
use forum.Authorization.DefaultAuthorization.{
  DefaultAuthorization, Context, AuthorizationStatus, ok, throttled, Action, ◌>>◌, with_forum_wide,
  is_throttled, return_if_throttled,
}

module _ (a : DefaultAuthorization) (c : Context) (user : User) where
  -- The privilege not to be throttled, or a configuration without throttling.
  abbrev pub is_exempt : Bool
  is_exempt =
      a.disable_throttling || is_some (with_forum_wide a c user ForumWidePrivilege.no_throttling)

module _ (a : DefaultAuthorization) (c : Context) (user : User)
    (action : UserActionThrottling) where
  abbrev pub rule_after : Action → Action
  rule_after rest = return_if_throttled a c user action >> rest

  -- A rule that first refuses throttled users says that they are, or is its remainder.
  pub rule_after-cases :
      (rest : Action) (t : DefaultThrottling)
      → let (refused, t') = is_throttled a c user action t in
        rule_after rest t ≡ (if refused then (throttled, t') else rest t')
  rule_after-cases rest t = opened t ∙ go (is_throttled a c user action t)
    where
      from : Bool × DefaultThrottling → AuthorizationStatus × DefaultThrottling
      from (refused, t') = ((λ _. (if refused then some throttled else none, t')) >> rest) t'

      opened : (t : DefaultThrottling) → rule_after rest t ≡ from (is_throttled a c user action t)
      opened t = unfold return_if_throttled in refl

      go : (r : Bool × DefaultThrottling) → from r ≡ (if r.0 then (throttled, r.1) else rest r.1)
      go (true, t') = refl
      go (false, t') = refl

  -- A rule that passes has a remainder that passes.
  pub rule_after_ok :
      (rest : Action) (t : DefaultThrottling)
      → (rule_after rest t).0 ≡ ok
      → (rest (is_throttled a c user action t).1).0 ≡ ok
  rule_after_ok rest t h = go (is_throttled a c user action t) (rw (rule_after-cases rest t) at h)
    where
      go :
          (r : Bool × DefaultThrottling)
          → (if r.0 then (throttled, r.1) else rest r.1).0 ≡ ok
          → (rest r.1).0 ≡ ok
      go (true, t') k = ground arith
      go (false, t') k = k

  is_throttled_opened :
      (t : DefaultThrottling)
      → is_throttled a c user action t ≡ (
          if not a.disable_throttling
            && not (is_some (with_forum_wide a c user ForumWidePrivilege.no_throttling))
          then check_action t action c.current_time user.id c.current_user_ip_address
          else (false, t))
  unfolding is_throttled
  is_throttled_opened t = refl

  -- The rule by whether the user is exempt, and by what check says if not.
  pub rule_after-check_action :
      (rest : Action) (t : DefaultThrottling)
      → let (refused, t') =
          check_action t action c.current_time user.id c.current_user_ip_address in
        rule_after rest t
        ≡ (if is_exempt a c user then rest t else if refused then (throttled, t') else rest t')
  rule_after-check_action rest t =
      rule_after-cases rest t
      ∙ ap taken (is_throttled_opened t)
      ∙ go a.disable_throttling
          (is_some (with_forum_wide a c user ForumWidePrivilege.no_throttling))
          (check_action t action c.current_time user.id c.current_user_ip_address)
    where
      taken : Bool × DefaultThrottling → AuthorizationStatus × DefaultThrottling
      taken r = if r.0 then (throttled, r.1) else rest r.1

      go :
          (d n : Bool) (r : Bool × DefaultThrottling)
          → taken (if not d && not n then r else (false, t)) ≡ (if d || n then rest t else taken r)
      go true n r = refl
      go false true r = refl
      go false false r = refl
