-- ===== src/Authorization/DefaultThrottling.antt =====
-- src/LibForumData/DefaultThrottling.h, private/DefaultThrottling.cpp and IdOrIpAddress.h: the throttling
-- of each user, or of each address where the visitor is not logged in.
pub mod History
use forum.Base.{ℕ, Option, none, some, Bool, ◌&&◌, ◌==◌, if◌then◌else◌}
use forum.Authorization.Enums.{
  UserActionThrottling, new_content, edit_content, edit_privileges, vote, subscribe,
}
use forum.Authorization.Throttling.{ThrottlingCheck, throttling_check, is_allowed}

-- The variant of an id and an address, each a number, 0 for the empty one.
pub data IdOrIpAddress : Type 0 where
  id : ℕ → IdOrIpAddress
  ip : ℕ → IdOrIpAddress

unfoldable pub id_or_ip_address : ℕ → ℕ → IdOrIpAddress
id_or_ip_address user_id address = if user_id == 0 then ip address else id user_id

unfoldable pub get_compare_structure : IdOrIpAddress → ℕ × ℕ
get_compare_structure (id user_id) = (user_id, 0)
get_compare_structure (ip address) = (0, address)

-- operator==.
unfoldable pub is_same : IdOrIpAddress → IdOrIpAddress → Bool
unfolding get_compare_structure
is_same a b =
    let (id_a, ip_a) = get_compare_structure a in
    let (id_b, ip_b) = get_compare_structure b in id_a == id_b && ip_a == ip_b

-- ThrottlingDefaultValues: the number of actions, and the seconds.
unfoldable pub throttling_default_values : UserActionThrottling → ℕ × ℕ
throttling_default_values new_content = (10, 600)
throttling_default_values edit_content = (10, 300)
throttling_default_values edit_privileges = (10, 10)
throttling_default_values vote = (10, 3600)
throttling_default_values subscribe = (10, 600)

-- The array `values`, which the enumeration indexes.
abbrev pub UserThrottlingChecks : Type 0
UserThrottlingChecks = UserActionThrottling → ThrottlingCheck

unfoldable pub user_throttling_checks : UserThrottlingChecks
unfolding throttling_default_values throttling_check
user_throttling_checks action =
    let (max_allowed, period) = throttling_default_values action in
    throttling_check max_allowed period

abbrev pub same_action : UserActionThrottling → UserActionThrottling → Bool
same_action new_content new_content = Bool.true
same_action edit_content edit_content = Bool.true
same_action edit_privileges edit_privileges = Bool.true
same_action vote vote = Bool.true
same_action subscribe subscribe = Bool.true
same_action _ _ = Bool.false

-- `entries_`: for each id or address that was seen, its checks.
abbrev pub DefaultThrottling : Type 0
DefaultThrottling = IdOrIpAddress → Option UserThrottlingChecks

-- `it->second`, after the emplace of an entry that is missing.
unfoldable pub find_or_emplace : DefaultThrottling → IdOrIpAddress → UserThrottlingChecks
unfolding user_throttling_checks
find_or_emplace entries current = elim (entries current) [
  | none ↦ user_throttling_checks
  | some checks ↦ checks
]

-- DefaultThrottling::check: the answer, and the entries after it.
unfoldable pub check_action :
    DefaultThrottling → UserActionThrottling → ℕ → ℕ → ℕ → Bool × DefaultThrottling
unfolding id_or_ip_address is_same find_or_emplace is_allowed
check_action entries action at user_id address =
    let current = id_or_ip_address user_id address in
    let checks = find_or_emplace entries current in
    let (answer, updated) = is_allowed (checks action) at in
    (
      answer,
      λ other.
          if is_same current other
          then some (λ kind. if same_action action kind then updated else checks kind)
          else entries other,
    )
