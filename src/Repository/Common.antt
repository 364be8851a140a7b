-- ===== src/Repository/Common.antt =====
-- What the functions of src/LibForumData/private/MemoryRepositoryAuthorization.cpp share: the status that
-- they return, the current user (MemoryRepositoryCommon.cpp), their state, and the two steps that all of
-- them take under the lock.
use forum.Base.{
  not, ltb, ℕ, ◌==◌, List, [], ◌∷◌, ◌++◌, Option, none, some, Bool, ◌&&◌, if◌then◌else◌,
}
use forum.Base.Int.{ℤ, pos, negsuc, leb_ℤ}
use forum.Authorization.Entities.{User}
use forum.Authorization.DefaultThrottling.{DefaultThrottling}
use forum.Authorization.DefaultAuthorization.{
  AuthorizationStatus, DefaultAuthorization, Context, Action, ok, not_allowed, throttled,
}
use forum.Persistence.Events.{Event}
use forum.Repository.Collection.{EntityCollection, find_user}

-- The members of StatusCode that the functions return.
pub data StatusCode : Type 0 where
  success invalid_parameters not_found unauthorized too_many : StatusCode

-- StatusWriter::operator= of an AuthorizationStatus.
abbrev pub to_status_code : AuthorizationStatus → StatusCode
to_status_code ok = success
to_status_code not_allowed = unauthorized
to_status_code throttled = too_many

-- An event that was written: when, by whom and from which address.
pub record Written : Type 0 where
  pub at : ℕ
  pub performed_by : ℕ
  pub ip_address : ℕ
  pub event : Event

pub record Repository : Type 0 where
  pub collection : EntityCollection
  pub throttling : DefaultThrottling
  pub disable_throttling : Bool
  pub written : List Written

-- What the Context holds during a request.
pub record Request : Type 0 where
  pub context : Context
  pub current_user_id : ℕ

-- getCurrentUser: the anonymous user where there is no user with the id.
unfoldable pub current_user : Request → EntityCollection → User
unfolding find_user
current_user q c = elim (find_user c q.current_user_id) [
  | none ↦ record { id = 0; message_count = 0 }
  | some user ↦ user
]

-- The rules look into the stores of the collection.
abbrev pub rules : Repository → DefaultAuthorization
rules r = record {
  granted_privilege_store = r.collection.granted_privileges;
  forum_wide_privilege_store = r.collection.forum_wide;
  disable_throttling = r.disable_throttling;
}

unfoldable pub is_valid_privilege_value : ℤ → Bool
is_valid_privilege_value value = leb_ℤ (negsuc 31999) value && leb_ℤ value (pos 32000)

unfoldable pub is_valid_privilege_duration : ℤ → Bool
is_valid_privilege_duration duration = leb_ℤ (pos 0) duration

-- A function on the collection, without a check of the current user.
abbrev pub Inner : Type 0
Inner = EntityCollection → StatusCode × EntityCollection

abbrev pub to_written : Request → EntityCollection → Event → Written
to_written q c event = record {
  at = q.context.current_time;
  performed_by = (current_user q c).id;
  ip_address = q.context.current_user_ip_address;
  event = event;
}

-- `if ( ! (status = ...)) return; writeEvents()...; status = ...(collection, ...);`, after the rule.
unfoldable pub write_if :
    Request
    → Event
    → Inner
    → AuthorizationStatus × DefaultThrottling
    → Repository
    → StatusCode × Repository
unfolding current_user
write_if q event inner (ok, throttling) r =
    let (status, collection) = inner r.collection in
    (
      status,
      record r {
        collection = collection;
        throttling = throttling;
        written = r.written ++ (to_written q r.collection event ∷ []);
      },
    )
write_if q event inner (status, throttling) r =
    (to_status_code status, record r { throttling = throttling })

unfoldable pub write_authorized :
    Request → Action → Event → Inner → Repository → StatusCode × Repository
unfolding write_if
write_authorized q rule event inner r = write_if q event inner (rule r.throttling) r

-- The checks of the parameters, the search in the index, and what follows where both succeed.
unfoldable pub when_valid :
    Bool → (Repository → StatusCode × Repository) → Repository → StatusCode × Repository
when_valid valid next r = if valid then next r else (invalid_parameters, r)

unfoldable pub when_found :
    {A : Type 0}
    → Option A
    → (A → Repository → StatusCode × Repository)
    → Repository
    → StatusCode × Repository
when_found none next r = (not_found, r)
when_found (some entity) next r = next entity r

-- isValidPrivilege
abbrev pub is_valid_privilege : ℕ → ℕ → Bool
is_valid_privilege privilege count = ltb privilege count

-- `! id || ! isValidPrivilege(privilege) || ! isValidPrivilegeValue(value)`, negated
unfoldable pub is_valid_change : ℕ → ℕ → ℕ → ℤ → Bool
unfolding is_valid_privilege_value
is_valid_change id privilege count value =
    not (id == 0) && is_valid_privilege privilege count && is_valid_privilege_value value

-- `isAnonymousUserId(userId) || ! isValidPrivilegeValue(value) || ! isValidPrivilegeDuration(duration)`,
-- negated
unfoldable pub is_valid_assignment : ℕ → ℤ → ℤ → Bool
unfolding is_valid_privilege_value is_valid_privilege_duration
is_valid_assignment user_id value duration =
    not (user_id == 0) && is_valid_privilege_value value && is_valid_privilege_duration duration

-- ForumWideDefaultPrivilegeDuration::COUNT
abbrev pub default_duration_count : ℕ
default_duration_count = 2
