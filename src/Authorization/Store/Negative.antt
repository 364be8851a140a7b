-- ===== src/Authorization/Store/Negative.antt =====
-- The negative level. AuthorizationGrantedPrivilegeStore.cpp, calculatePrivilege.
use forum.Base.Int.{ℤ, pos, ltb_ℤ, ◌≤ℤ◌, min_ℤ}
use forum.Base.All.{All}
use mathlib.Core.Path.{subst}
use forum.Base.{
  ℕ, List, [], ◌∷◌, Option, none, some, Bool, true, false, not, ◌&&◌, ◌≡◌, refl, sym, ap, ◌∙◌, ◌⊎◌,
  inl, inr, arith, if◌then◌else◌, Bool-cases,
}
use forum.Authorization.Privileges.{minimum_with}
use forum.Authorization.Entities.{User, is_anonymous_user}
use forum.Authorization.Store.{
  PrivilegeEntry, GrantedPrivilegeStore, Levels, no_levels, has_key, is_expired, apply_entry,
  apply_entries, equal_range, calculate_privilege,
}
use forum.Authorization.Store.Grants.{IsActive, Attained}

module _ (user_id entity_id : ℕ) (now : ℤ) where
  abbrev pub IsNegative : PrivilegeEntry → Type 0
  IsNegative entry = IsActive user_id entity_id now entry × (entry.privilege_value ≤ℤ pos 0)

  -- No value of a negative active entry is below `n`.
  abbrev pub IsBelow : List PrivilegeEntry → ℤ → Type 0
  IsBelow c n = All (λ entry. IsNegative entry → n ≤ℤ entry.privilege_value) c

  abbrev counts : PrivilegeEntry → Bool
  counts entry =
      has_key user_id entity_id entry
      && not (is_expired now entry)
      && not (ltb_ℤ (pos 0) entry.privilege_value)

  counts-IsNegative : (entry : PrivilegeEntry) → counts entry ≡ true → IsNegative entry
  counts-IsNegative entry h = ground arith

  IsNegative-counts : (entry : PrivilegeEntry) → counts entry ≡ false → IsNegative entry → ⊥
  IsNegative-counts entry h k = ground arith

  abbrev run : List PrivilegeEntry → Levels → Levels
  run c l = apply_entries now (equal_range user_id entity_id c) l

  run_use :
      (entry : PrivilegeEntry) (c : List PrivilegeEntry) (l : Levels)
      → counts entry ≡ true
      → run (entry ∷ c) l
        ≡ run c (record l { negative = minimum_with l.negative entry.privilege_value })
  unfolding apply_entries apply_entry equal_range
  run_use entry c l h = ground arith

  run_skip :
      (entry : PrivilegeEntry) (c : List PrivilegeEntry) (l : Levels)
      → counts entry ≡ false
      → (m : Levels) × (m.negative ≡ l.negative) × (run (entry ∷ c) l ≡ run c m)
  unfolding apply_entries apply_entry equal_range
  run_skip entry c l h = (
    if has_key user_id entity_id entry then apply_entry now entry l else l,
    ground arith,
    ground arith,
  )

  -- From the level `d` on.
  abbrev Lowest : List PrivilegeEntry → ℤ → ℤ → Type 0
  Lowest c d n = (n ≤ℤ d) × IsBelow c n × ((n ≡ d) ⊎ Attained IsNegative n c)

  Lowest-use :
      (entry : PrivilegeEntry) (c : List PrivilegeEntry) (d n : ℤ)
      → IsNegative entry
      → Lowest c (min_ℤ d entry.privilege_value) n
      → Lowest (entry ∷ c) d n
  Lowest-use entry c d n k (low, below, at) = (
    ground (arith, low),
    (λ _. ground (arith, low), below),
    elim at [
      | inl e ↦ elim (Bool-cases (ltb_ℤ entry.privilege_value d)) [
        | inl b ↦ inr (inl (k, rw b at (sym e)))
        | inr b ↦ inl (rw b at e)
      ]
      | inr a ↦ inr (inr a)
    ],
  )

  lowest :
      (c : List PrivilegeEntry) (l : Levels) (d : ℤ)
      → l.negative ≡ some d
      → (n : ℤ) × ((run c l).negative ≡ some n) × Lowest c d n
  unfolding apply_entries equal_range minimum_with
  lowest [] l d e = (d, e, (omega arith, tt, inl refl))
  lowest (entry ∷ c) l d e = elim (Bool-cases (counts entry)) [
    | inl t ↦
        let used : Levels = record l { negative = minimum_with l.negative entry.privilege_value } in
        let (n, q, h) =
          lowest c used (min_ℤ d entry.privilege_value)
            (ap (λ x. minimum_with x entry.privilege_value) e) in
        (
          n,
          ap (λ x. x.negative) (run_use entry c l t) ∙ q,
          Lowest-use entry c d n (counts-IsNegative entry t) h,
        )
    | inr f ↦
        let (m, same, r) = run_skip entry c l f in
        let (n, q, (low, below, at)) = lowest c m d (same ∙ e) in
        (
          n,
          ap (λ x. x.negative) r ∙ q,
          (
            low,
            (λ i. absurd (IsNegative-counts entry f i), below),
            elim at [ inl a ↦ inl a | inr a ↦ inr (inr a) ],
          ),
        )
  ]

  -- What the negative level is: absent without a negative active entry, else the lowest value.
  abbrev pub IsLowest : List PrivilegeEntry → Option ℤ → Type 0
  IsLowest c none = All (λ entry. IsNegative entry → ⊥) c
  IsLowest c (some n) = IsBelow c n × Attained IsNegative n c

  IsLowest-from_none :
      (c : List PrivilegeEntry) (l : Levels) → l.negative ≡ none → IsLowest c (run c l).negative
  unfolding apply_entries equal_range minimum_with
  IsLowest-from_none [] l e = rw e tt
  IsLowest-from_none (entry ∷ c) l e = elim (Bool-cases (counts entry)) [
    | inl t ↦
        let v = entry.privilege_value in
        let (n, q, (low, below, at)) =
          lowest c (record l { negative = minimum_with l.negative v }) v
            (ap (λ x. minimum_with x v) e) in
        subst (IsLowest (entry ∷ c)) (sym (ap (λ x. x.negative) (run_use entry c l t) ∙ q)) (
          (λ _. low, below),
          elim at [ inl a ↦ inl (counts-IsNegative entry t, sym a) | inr a ↦ inr a ],
        )
    | inr f ↦
        let (m, same, r) = run_skip entry c l f in
        subst (IsLowest (entry ∷ c)) (sym (ap (λ x. x.negative) r))
          (skip (run c m).negative f (IsLowest-from_none c m (same ∙ e)))
  ]
    where
      skip : (o : Option ℤ) → counts entry ≡ false → IsLowest c o → IsLowest (entry ∷ c) o
      skip none f h = (λ i. IsNegative-counts entry f i, h)
      skip (some n) f h = ((λ i. absurd (IsNegative-counts entry f i), h.0), inr h.1)

-- For a user who is logged in, the negative level on an entity is absent exactly when the user has no
-- unexpired entry on it with a value of at most 0; otherwise it is the lowest of their values.
pub calculate_privilege-IsLowest :
    (s : GrantedPrivilegeStore) (c : List PrivilegeEntry) (user : User) (entity_id : ℕ) (now : ℤ)
    → is_anonymous_user (some user) ≡ false
    → IsLowest user.id entity_id now c
        (calculate_privilege s c (some user) entity_id now no_levels).negative
unfolding calculate_privilege
calculate_privilege-IsLowest s c user entity_id now h =
    rw h (IsLowest-from_none user.id entity_id now c _ refl)
