-- ===== src/Authorization/Privileges.antt =====
-- src/LibForumData/AuthorizationPrivileges.h: privilege values, their minimum and maximum, and the
-- stores of required privileges that entities derive from.
pub mod Levels
pub mod Arrays
use forum.Base.Int.{ℤ, pos, negsuc, ◌+ℤ◌, min_ℤ, max_ℤ}
use forum.Base.{
  ℕ, ◌+◌, ◌-◌, ◌^◌, ◌%◌, ◌/◌, List, Option, none, some, ltb, ◌==◌, if◌then◌else◌, get_or, set,
  replicate,
}

-- PrivilegeValueType: boost::optional<int16_t>.
abbrev pub PrivilegeValueType : Type 0
PrivilegeValueType = Option ℤ

-- The conversion of an int to PrivilegeValueIntType, an int16_t: two's complement.
unfoldable pub to_int16 : ℤ → ℤ
to_int16 (pos n) = let r = n % 2 ^ 16 in if ltb r (2 ^ 15) then pos r else negsuc (2 ^ 16 - 1 - r)
to_int16 (negsuc n) =
    let r = n % 2 ^ 16 in if ltb r (2 ^ 15) then negsuc r else pos (2 ^ 16 - 1 - r)

unfoldable pub optional_or_zero : PrivilegeValueType → ℤ
optional_or_zero none = pos 0
optional_or_zero (some v) = v

unfoldable pub minimum_privilege_value :
    PrivilegeValueType → PrivilegeValueType → PrivilegeValueType
minimum_privilege_value none second = second
minimum_privilege_value (some a) none = some a
minimum_privilege_value (some a) (some b) = some (min_ℤ a b)

unfoldable pub maximum_privilege_value :
    PrivilegeValueType → PrivilegeValueType → PrivilegeValueType
maximum_privilege_value none second = second
maximum_privilege_value (some a) none = some a
maximum_privilege_value (some a) (some b) = some (max_ℤ a b)

-- The overloads whose second argument is a plain value.
unfoldable pub minimum_with : PrivilegeValueType → ℤ → PrivilegeValueType
minimum_with none second = some second
minimum_with (some a) second = some (min_ℤ a second)

unfoldable pub maximum_with : PrivilegeValueType → ℤ → PrivilegeValueType
maximum_with none second = some second
maximum_with (some a) second = some (max_ℤ a second)

-- std::numeric_limits<int_fast64_t>::max() / 2
abbrev pub max_half : ℕ
max_half = (2 ^ 63 - 1) / 2

-- `start` is not negative and below `max_half`, as the code asserts.
unfoldable pub calculate_privilege_expires : ℕ → ℤ → ℤ
calculate_privilege_expires start (negsuc d) = pos start +ℤ negsuc d
calculate_privilege_expires start (pos d) =
    if d == 0 then pos 0 else if ltb d max_half then pos (start + d) else pos (start + (d - start))

-- A store of required privileges: an array of optional values indexed by an enumeration with
-- `count` members.
abbrev pub PrivilegeArray : Type 0
PrivilegeArray = List PrivilegeValueType

unfoldable pub set_privilege : ℕ → PrivilegeArray → ℕ → ℤ → PrivilegeArray
set_privilege count values privilege value =
    if ltb privilege count then set values privilege (some value) else values

unfoldable pub get_privilege : ℕ → PrivilegeArray → ℕ → PrivilegeValueType
get_privilege count values privilege =
    if ltb privilege count then get_or values privilege none else none

-- The store for messages allocates its array on the first write.
unfoldable pub set_lazy_privilege : ℕ → Option PrivilegeArray → ℕ → ℤ → Option PrivilegeArray
unfolding set_privilege
set_lazy_privilege count none privilege value =
    if ltb privilege count then some (set (replicate count none) privilege (some value)) else none
set_lazy_privilege count (some values) privilege value =
    some (set_privilege count values privilege value)

unfoldable pub get_lazy_privilege : ℕ → Option PrivilegeArray → ℕ → PrivilegeValueType
unfolding get_privilege
get_lazy_privilege count none privilege = none
get_lazy_privilege count (some values) privilege = get_privilege count values privilege
