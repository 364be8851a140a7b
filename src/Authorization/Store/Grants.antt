-- ===== src/Authorization/Store/Grants.antt =====
-- Which entries a calculation takes into account, and what granting and revoking change.
-- AuthorizationGrantedPrivilegeStore.cpp.
use forum.Base.Int.{ℤ, pos, negsuc, ltb_ℤ, ◌≤ℤ◌, ◌<ℤ◌, max_ℤ}
use forum.Base.All.{All}
use forum.Base.{
  ℕ, List, [], ◌∷◌, none, some, Bool, true, false, not, ◌&&◌, ◌≡◌, ◌≢◌, refl, sym, ap, ◌∙◌, ◌⊎◌,
  inl, inr, arith, if◌then◌else◌, Bool-cases,
}
use forum.Authorization.Privileges.{maximum_with}
use forum.Authorization.Entities.{User, is_anonymous_user}
use forum.Authorization.Store.{
  PrivilegeEntry, GrantedPrivilegeStore, Levels, no_levels, has_key, is_expired, apply_entry,
  apply_entries, equal_range, erase, grant, default_positive_value, calculate_privilege,
}

equal_range-erase_self :
    (user_id entity_id : ℕ) (c : List PrivilegeEntry)
    → equal_range user_id entity_id (erase user_id entity_id c) ≡ []
unfolding equal_range erase
equal_range-erase_self user_id entity_id [] = refl
equal_range-erase_self user_id entity_id (entry ∷ rest) =
    ground (arith, equal_range-erase_self user_id entity_id rest)

equal_range-erase_ne :
    (user_id entity_id : ℕ) (c : List PrivilegeEntry) (u e : ℕ)
    → (u ≢ user_id) ⊎ (e ≢ entity_id)
    → equal_range u e (erase user_id entity_id c) ≡ equal_range u e c
unfolding equal_range erase
equal_range-erase_ne user_id entity_id [] u e h = refl
equal_range-erase_ne user_id entity_id (entry ∷ rest) u e h =
    ground (arith, equal_range-erase_ne user_id entity_id rest u e h)

equal_range-grant_ne :
    (c : List PrivilegeEntry) (user_id entity_id : ℕ) (value now expires_at : ℤ) (u e : ℕ)
    → (u ≢ user_id) ⊎ (e ≢ entity_id)
    → equal_range u e (grant c user_id entity_id value now expires_at) ≡ equal_range u e c
unfolding equal_range grant
equal_range-grant_ne c user_id entity_id (pos v) now expires_at u e h =
    ground (arith, equal_range-erase_ne user_id entity_id c u e h)
equal_range-grant_ne c user_id entity_id (negsuc v) now expires_at u e h = ground arith

module _ (s : GrantedPrivilegeStore) (user : User) where
  calculate_privilege-equal_range :
      (c d : List PrivilegeEntry) (entity_id : ℕ) (now : ℤ) (l : Levels)
      → equal_range user.id entity_id c ≡ equal_range user.id entity_id d
      → calculate_privilege s c (some user) entity_id now l
        ≡ calculate_privilege s d (some user) entity_id now l
  unfolding calculate_privilege
  calculate_privilege-equal_range c d entity_id now l e = rw e

  -- Granting or revoking a privilege of one user on one entity changes no calculation for another
  -- user or on another entity; and after a revocation, which is a grant of 0, the user has on the
  -- entity what a store with no entry gives.
  pub calculate_privilege-grant :
      (c : List PrivilegeEntry) (user_id entity_id : ℕ) (value granted_at expires_at now : ℤ)
      (e : ℕ) (l : Levels)
      → ((user.id ≢ user_id) ⊎ (e ≢ entity_id)
          → calculate_privilege s
              (grant c user_id entity_id value granted_at expires_at)
              (some user)
              e
              now
              l
            ≡ calculate_privilege s c (some user) e now l)
        × (calculate_privilege s
              (grant c user.id e (pos 0) granted_at expires_at)
              (some user)
              e
              now
              l
            ≡ calculate_privilege s [] (some user) e now l)
  unfolding grant
  calculate_privilege-grant c user_id entity_id value granted_at expires_at now e l = (
    λ h.
        calculate_privilege-equal_range _ c e now l
          (equal_range-grant_ne c user_id entity_id value granted_at expires_at user.id e h),
    calculate_privilege-equal_range _ [] e now l
        (equal_range-erase_self user.id e c ∙ unfold equal_range in refl),
  )

-- The entry is the user's, on the entity, and has not expired.
abbrev pub IsActive : ℕ → ℕ → ℤ → PrivilegeEntry → Type 0
IsActive user_id entity_id now entry =
    (entry.user_id ≡ user_id) × (entry.entity_id ≡ entity_id) × (is_expired now entry ≡ false)

-- `p` is one of the values that the entries with `P` have.
abbrev pub Attained : (PrivilegeEntry → Type 0) → ℤ → List PrivilegeEntry → Type 0
Attained P p [] = ⊥
Attained P p (entry ∷ rest) = (P entry × (entry.privilege_value ≡ p)) ⊎ Attained P p rest

module _ (user_id entity_id : ℕ) (now : ℤ) where
  abbrev pub IsPositive : PrivilegeEntry → Type 0
  IsPositive entry = IsActive user_id entity_id now entry × (pos 0 <ℤ entry.privilege_value)

  -- `p` is the highest of `d` and of the values of the positive active entries.
  pub record IsHighest (c : List PrivilegeEntry) (d p : ℤ) : Type 0 where
    pub floor : d ≤ℤ p
    pub bound : All (λ entry. IsPositive entry → entry.privilege_value ≤ℤ p) c
    pub attained : (p ≡ d) ⊎ Attained IsPositive p c

  abbrev counts : PrivilegeEntry → Bool
  counts entry =
      has_key user_id entity_id entry
      && not (is_expired now entry)
      && ltb_ℤ (pos 0) entry.privilege_value

  counts-IsPositive : (entry : PrivilegeEntry) → counts entry ≡ true → IsPositive entry
  counts-IsPositive entry h = ground arith

  IsPositive-counts : (entry : PrivilegeEntry) → counts entry ≡ false → IsPositive entry → ⊥
  IsPositive-counts entry h k = ground arith

  IsHighest-use :
      (entry : PrivilegeEntry) (c : List PrivilegeEntry) (d p : ℤ)
      → IsPositive entry
      → IsHighest c (max_ℤ d entry.privilege_value) p
      → IsHighest (entry ∷ c) d p
  IsHighest-use entry c d p k h = record {
    floor = ground (arith, h.floor);
    bound = (λ _. ground (arith, h.floor), h.bound);
    attained = elim h.attained [
      | inl e ↦ elim (Bool-cases (ltb_ℤ d entry.privilege_value)) [
        | inl b ↦ inr (inl (k, rw b at (sym e)))
        | inr b ↦ inl (rw b at e)
      ]
      | inr a ↦ inr (inr a)
    ];
  }

  IsHighest-skip :
      (entry : PrivilegeEntry) (c : List PrivilegeEntry) (d p : ℤ)
      → (IsPositive entry → ⊥)
      → IsHighest c d p
      → IsHighest (entry ∷ c) d p
  IsHighest-skip entry c d p k h = record {
    floor = h.floor;
    bound = (λ i. absurd (k i), h.bound);
    attained = elim h.attained [ inl e ↦ inl e | inr a ↦ inr (inr a) ];
  }

  abbrev run : List PrivilegeEntry → Levels → Levels
  run c l = apply_entries now (equal_range user_id entity_id c) l

  run_use :
      (entry : PrivilegeEntry) (c : List PrivilegeEntry) (l : Levels) (d : ℤ)
      → l.positive ≡ some d
      → counts entry ≡ true
      → run (entry ∷ c) l ≡ run c (record l { positive = some (max_ℤ d entry.privilege_value) })
  unfolding apply_entries apply_entry equal_range maximum_with
  run_use entry c l d e h = ground arith

  run_skip :
      (entry : PrivilegeEntry) (c : List PrivilegeEntry) (l : Levels)
      → counts entry ≡ false
      → (m : Levels) × (m.positive ≡ l.positive) × (run (entry ∷ c) l ≡ run c m)
  unfolding apply_entries apply_entry equal_range
  run_skip entry c l h = (
    if has_key user_id entity_id entry then apply_entry now entry l else l,
    ground arith,
    ground arith,
  )

  highest :
      (c : List PrivilegeEntry) (l : Levels) (d : ℤ)
      → l.positive ≡ some d
      → (p : ℤ) × ((run c l).positive ≡ some p) × IsHighest c d p
  unfolding apply_entries equal_range
  highest [] l d e = (d, e, record { floor = omega arith; bound = tt; attained = inl refl })
  highest (entry ∷ c) l d e = elim (Bool-cases (counts entry)) [
    | inl t ↦
        let (p, q, h) =
          highest c (record l { positive = some (max_ℤ d entry.privilege_value) }) _ refl in
        (
          p,
          ap (λ x. x.positive) (run_use entry c l d e t) ∙ q,
          IsHighest-use entry c d p (counts-IsPositive entry t) h,
        )
    | inr f ↦
        let (m, same, r) = run_skip entry c l f in
        let (p, q, h) = highest c m d (same ∙ e) in
        (p, ap (λ x. x.positive) r ∙ q, IsHighest-skip entry c d p (IsPositive-counts entry f) h)
  ]

-- For a user who is logged in, the positive level on an entity is the highest of the user's default
-- value and the values of the user's positive, unexpired entries on the entity: no such value is
-- above it, and it is one of them.
pub calculate_privilege-IsHighest :
    (s : GrantedPrivilegeStore) (c : List PrivilegeEntry) (user : User) (entity_id : ℕ) (now : ℤ)
    → is_anonymous_user (some user) ≡ false
    → (p : ℤ) × ((calculate_privilege s c (some user) entity_id now no_levels).positive ≡ some p)
      × IsHighest user.id entity_id now c (default_positive_value s user) p
unfolding calculate_privilege maximum_with
calculate_privilege-IsHighest s c user entity_id now h =
    let (p, q, k) =
      highest user.id entity_id now c
        (record { positive = some (default_positive_value s user); negative = none })
        (default_positive_value s user) refl in
    (p, rw h q, k)
