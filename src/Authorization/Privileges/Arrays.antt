-- ===== src/Authorization/Privileges/Arrays.antt =====
-- Required privileges are read as they were set, from either kind of store. AuthorizationPrivileges.h.
use forum.Base.Int.{ℤ}
use forum.Base.{
  ℕ, zero, suc, Option, none, some, ◌&&◌, ltb, ◌==◌, if◌then◌else◌, length, get_or, replicate, ◌≡◌,
  refl, arith, length-set, length-replicate, get_or-set_self, get_or-set_ne,
}
use forum.Authorization.Privileges.{
  PrivilegeArray, PrivilegeValueType, set_privilege, get_privilege, set_lazy_privilege,
  get_lazy_privilege,
}

-- The array, where there is one, has a place for each privilege.
abbrev pub IsSized : ℕ → Option PrivilegeArray → Type 0
IsSized count none = Unit
IsSized count (some values) = length values ≡ count

get_or-replicate : (n i : ℕ) (d : PrivilegeValueType) → get_or (replicate n d) i d ≡ d
get_or-replicate zero i d = refl
get_or-replicate (suc n) zero d = refl
get_or-replicate (suc n) (suc i) d = get_or-replicate n i d

get_privilege-set :
    (count : ℕ) (values : PrivilegeArray) (privilege other : ℕ) (value : ℤ)
    → length values ≡ count
    → get_privilege count (set_privilege count values privilege value) other ≡ (
        if privilege == other && ltb privilege count
        then some value
        else get_privilege count values other)
unfolding set_privilege get_privilege
get_privilege-set count values privilege other value h = ground (
  arith,
  get_or-set_self values privilege (some value) none,
  get_or-set_ne values privilege other (some value) none,
)

set_privilege-IsSized :
    (count : ℕ) (values : PrivilegeArray) (privilege : ℕ) (value : ℤ)
    → length values ≡ count
    → length (set_privilege count values privilege value) ≡ count
unfolding set_privilege
set_privilege-IsSized count values privilege value h =
    ground (arith, length-set values privilege (some value))

-- After a required privilege is set in the store that allocates its array on the first write, reading
-- gives the value for that privilege, if the enumeration has it, and for every other one what it was
-- before; and the array keeps a place for each privilege.
pub get_lazy_privilege-set_lazy :
    (count : ℕ) (stored : Option PrivilegeArray) (privilege other : ℕ) (value : ℤ)
    → IsSized count stored
    → (get_lazy_privilege count (set_lazy_privilege count stored privilege value) other ≡ (
        if privilege == other && ltb privilege count
        then some value
        else get_lazy_privilege count stored other))
      × IsSized count (set_lazy_privilege count stored privilege value)
unfolding set_lazy_privilege get_lazy_privilege get_privilege
get_lazy_privilege-set_lazy count (some values) privilege other value h = (
  get_privilege-set count values privilege other value h,
  set_privilege-IsSized count values privilege value h,
)
get_lazy_privilege-set_lazy count none privilege other value h =
    let empty : PrivilegeArray = replicate count none in
    ground (
      arith,
      length-replicate {A = PrivilegeValueType} count none,
      get_or-replicate count other none,
      get_or-set_self empty privilege (some value) none,
      get_or-set_ne empty privilege other (some value) none,
      length-set empty privilege (some value),
    )
