-- ===== src/Authorization/Privileges/Levels.antt =====
-- The laws of minimum and maximum on optional privilege values.
use forum.Base.Int.{ℤ, min_ℤ, max_ℤ}
use forum.Base.{none, some, ◌≡◌, refl, ap, arith}
use forum.Authorization.Privileges.{
  PrivilegeValueType, minimum_privilege_value, maximum_privilege_value, minimum_with, maximum_with,
}

max_ℤ_assoc : (a b c : ℤ) → max_ℤ (max_ℤ a b) c ≡ max_ℤ a (max_ℤ b c)
max_ℤ_assoc a b c = ground arith

min_ℤ_assoc : (a b c : ℤ) → min_ℤ (min_ℤ a b) c ≡ min_ℤ a (min_ℤ b c)
min_ℤ_assoc a b c = ground arith

max_ℤ_comm : (a b : ℤ) → max_ℤ a b ≡ max_ℤ b a
max_ℤ_comm a b = ground arith

min_ℤ_comm : (a b : ℤ) → min_ℤ a b ≡ min_ℤ b a
min_ℤ_comm a b = ground arith

pub maximum_privilege_value_assoc :
    (a b c : PrivilegeValueType)
    → maximum_privilege_value (maximum_privilege_value a b) c
      ≡ maximum_privilege_value a (maximum_privilege_value b c)
unfolding maximum_privilege_value
maximum_privilege_value_assoc none b c = refl
maximum_privilege_value_assoc (some a) none c = refl
maximum_privilege_value_assoc (some a) (some b) none = refl
maximum_privilege_value_assoc (some a) (some b) (some c) = ap some (max_ℤ_assoc a b c)

pub minimum_privilege_value_assoc :
    (a b c : PrivilegeValueType)
    → minimum_privilege_value (minimum_privilege_value a b) c
      ≡ minimum_privilege_value a (minimum_privilege_value b c)
unfolding minimum_privilege_value
minimum_privilege_value_assoc none b c = refl
minimum_privilege_value_assoc (some a) none c = refl
minimum_privilege_value_assoc (some a) (some b) none = refl
minimum_privilege_value_assoc (some a) (some b) (some c) = ap some (min_ℤ_assoc a b c)

pub maximum_privilege_value_comm :
    (a b : PrivilegeValueType) → maximum_privilege_value a b ≡ maximum_privilege_value b a
unfolding maximum_privilege_value
maximum_privilege_value_comm none none = refl
maximum_privilege_value_comm none (some b) = refl
maximum_privilege_value_comm (some a) none = refl
maximum_privilege_value_comm (some a) (some b) = ap some (max_ℤ_comm a b)

pub minimum_privilege_value_comm :
    (a b : PrivilegeValueType) → minimum_privilege_value a b ≡ minimum_privilege_value b a
unfolding minimum_privilege_value
minimum_privilege_value_comm none none = refl
minimum_privilege_value_comm none (some b) = refl
minimum_privilege_value_comm (some a) none = refl
minimum_privilege_value_comm (some a) (some b) = ap some (min_ℤ_comm a b)

pub maximum_privilege_value-none : (a : PrivilegeValueType) → maximum_privilege_value a none ≡ a
unfolding maximum_privilege_value
maximum_privilege_value-none none = refl
maximum_privilege_value-none (some a) = refl

pub minimum_privilege_value-none : (a : PrivilegeValueType) → minimum_privilege_value a none ≡ a
unfolding minimum_privilege_value
minimum_privilege_value-none none = refl
minimum_privilege_value-none (some a) = refl

-- The overloads agree with the general ones.
pub maximum_with_lem :
    (a : PrivilegeValueType) (v : ℤ) → maximum_with a v ≡ maximum_privilege_value a (some v)
unfolding maximum_with maximum_privilege_value
maximum_with_lem none v = refl
maximum_with_lem (some a) v = refl

pub minimum_with_lem :
    (a : PrivilegeValueType) (v : ℤ) → minimum_with a v ≡ minimum_privilege_value a (some v)
unfolding minimum_with minimum_privilege_value
minimum_with_lem none v = refl
minimum_with_lem (some a) v = refl
