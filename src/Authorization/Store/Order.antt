-- ===== src/Authorization/Store/Order.antt =====
-- The entries stand in hashed indices, whose order is not specified: no calculation depends on it.
-- AuthorizationGrantedPrivilegeStore.cpp.
use mathlib.Core.List.{Perm, Permᴰ}
use mathlib.Core.Logic.{∥∥₁_elim}
use forum.Base.Int.{ℤ}
use forum.Base.{
  ℕ, List, ◌∷◌, Option, none, some, ◌≡◌, refl, sym, ap, ◌∙◌, inl, inr, arith, if◌then◌else◌,
  Bool-cases,
}
use forum.Authorization.Entities.{User, is_anonymous_user}
use forum.Authorization.Store.Calculation.{
  join, join_assoc, join_comm, Contributes, apply_entry-Contributes,
}
use forum.Authorization.Store.{
  PrivilegeEntry, GrantedPrivilegeStore, Levels, no_levels, has_key, apply_entry, apply_entries,
  equal_range, calculate_privilege,
}

Levels-set : IsSet Levels
Levels-set = hlevel

Contributes-swap :
    (f g : Levels → Levels) → Contributes f → Contributes g → (l : Levels) → g (f l) ≡ f (g l)
Contributes-swap f g hf hg l =
    hg (f l)
    ∙ ap (λ x. join x (g no_levels)) (hf l)
    ∙ join_assoc l (f no_levels) (g no_levels)
    ∙ ap (join l) (join_comm (f no_levels) (g no_levels))
    ∙ sym (join_assoc l (g no_levels) (f no_levels))
    ∙ ap (λ x. join x (f no_levels)) (sym (hg l))
    ∙ sym (hf (g l))

module _ (user_id entity_id : ℕ) (now : ℤ) where
  -- One entry of the collection: it is applied if it has the key.
  abbrev visit : PrivilegeEntry → Levels → Levels
  visit entry l = if has_key user_id entity_id entry then apply_entry now entry l else l

  abbrev run : List PrivilegeEntry → Levels → Levels
  run c l = apply_entries now (equal_range user_id entity_id c) l

  run-cons :
      (entry : PrivilegeEntry) (c : List PrivilegeEntry) (l : Levels)
      → run (entry ∷ c) l ≡ run c (visit entry l)
  unfolding apply_entries equal_range
  run-cons entry c l = ground arith

  visit_swap : (a b : PrivilegeEntry) (l : Levels) → visit b (visit a l) ≡ visit a (visit b l)
  visit_swap a b l = ground (
    arith,
    Contributes-swap (apply_entry now a) (apply_entry now b) (apply_entry-Contributes now a)
        (apply_entry-Contributes now b) l,
  )

  run-perm : {c d : List PrivilegeEntry} → Permᴰ c d → (l : Levels) → run c l ≡ run d l
  run-perm Permᴰ.nil l = refl
  run-perm (Permᴰ.cons {a} {b} {l₁} {l₂} e p) l =
      run-cons a l₁ l
      ∙ run-perm p (visit a l)
      ∙ ap (λ x. run l₂ (visit x l)) e
      ∙ sym (run-cons b l₂ l)
  run-perm (Permᴰ.swap {a} {b} {a'} {b'} {l = c} e k) l =
      run-cons a (b ∷ c) l
      ∙ run-cons b c (visit a l)
      ∙ ap (run c)
          (visit_swap a b l ∙ ap (λ x. visit a (visit x l)) k ∙ ap (λ x. visit x (visit a' l)) e)
      ∙ sym (run-cons b' c (visit a' l))
      ∙ sym (run-cons a' (b' ∷ c) l)
  run-perm (Permᴰ.trans p q) l = run-perm p l ∙ run-perm q l

-- Two collections with the same entries in another order give the same levels, whatever the user,
-- the entity, the time and the levels found before.
pub calculate_privilege-perm :
    (s : GrantedPrivilegeStore) (c d : List PrivilegeEntry) (user : Option User) (entity_id : ℕ)
    (now : ℤ) (l : Levels)
    → Perm c d
    → calculate_privilege s c user entity_id now l ≡ calculate_privilege s d user entity_id now l
unfolding calculate_privilege
calculate_privilege-perm s c d none entity_id now l p = refl
calculate_privilege-perm s c d (some user) entity_id now l p = ∥∥₁_elim p (Levels-set _ _) λ q.
    elim (Bool-cases (is_anonymous_user (some user))) [
      | inl e ↦ rw e
      | inr e ↦ rw e (run-perm user.id entity_id now q _)
    ]
