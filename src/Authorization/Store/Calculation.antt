-- ===== src/Authorization/Store/Calculation.antt =====
-- What a calculation adds to the two levels depends on the store alone, not on what was there: it is
-- joined to it. AuthorizationGrantedPrivilegeStore.cpp.
use forum.Base.Int.{ℤ, pos, ltb_ℤ}
use forum.Base.{ℕ, List, [], ◌∷◌, Option, none, some, ◌≡◌, sym, ap, ◌∙◌, inl, inr, Bool-cases}
use forum.Authorization.Privileges.Levels.{
  maximum_privilege_value_assoc, minimum_privilege_value_assoc, maximum_privilege_value_comm,
  minimum_privilege_value_comm, maximum_privilege_value-none, minimum_privilege_value-none,
  maximum_with_lem, minimum_with_lem,
}
use forum.Authorization.Privileges.{
  maximum_privilege_value, minimum_privilege_value, maximum_with, minimum_with,
}
use forum.Authorization.Entities.{User, DiscussionTag, DiscussionThread, is_anonymous_user}
use forum.Authorization.Store.{
  PrivilegeEntry, GrantedPrivilegeStore, Levels, no_levels, is_expired, apply_entry, apply_entries,
  equal_range, default_positive_value, calculate_privilege, calculate_thread_privilege,
  calculate_tag_privilege, calculate_forum_wide_privilege, calculate_tags,
  calculate_messages_of_thread,
}

-- The levels of two sources together.
unfoldable pub join : Levels → Levels → Levels
unfolding maximum_privilege_value minimum_privilege_value
join l m = record {
  positive = maximum_privilege_value l.positive m.positive;
  negative = minimum_privilege_value l.negative m.negative;
}

Levels-eq : (l m : Levels) → l.positive ≡ m.positive → l.negative ≡ m.negative → l ≡ m
Levels-eq l m p n = λ i. record { positive = p i; negative = n i }

pub join_assoc : (a b c : Levels) → join (join a b) c ≡ join a (join b c)
unfolding join
join_assoc a b c =
    Levels-eq _ _ (maximum_privilege_value_assoc a.positive b.positive c.positive)
      (minimum_privilege_value_assoc a.negative b.negative c.negative)

pub join_comm : (a b : Levels) → join a b ≡ join b a
unfolding join
join_comm a b =
    Levels-eq _ _ (maximum_privilege_value_comm a.positive b.positive)
      (minimum_privilege_value_comm a.negative b.negative)

pub join-no_levels : (a : Levels) → join a no_levels ≡ a
unfolding join
join-no_levels a =
    Levels-eq _ _ (maximum_privilege_value-none a.positive)
      (minimum_privilege_value-none a.negative)

-- `f` joins a fixed contribution to the levels that it is given.
abbrev pub Contributes : (Levels → Levels) → Type 0
Contributes f = (l : Levels) → f l ≡ join l (f no_levels)

pub Contributes-compose :
    (f g : Levels → Levels) → Contributes f → Contributes g → Contributes (λ l. g (f l))
Contributes-compose f g hf hg l =
    hg (f l)
    ∙ ap (λ x. join x (g no_levels)) (hf l)
    ∙ join_assoc l (f no_levels) (g no_levels)
    ∙ ap (join l) (sym (hg (f no_levels)))

pub Contributes-id : Contributes (λ l. l)
Contributes-id l = sym (join-no_levels l)

pub maximum_with-Contributes :
    (v : ℤ) → Contributes (λ l. record l { positive = maximum_with l.positive v })
unfolding join maximum_with maximum_privilege_value minimum_privilege_value
maximum_with-Contributes v l =
    Levels-eq _ _ (maximum_with_lem l.positive v) (sym (minimum_privilege_value-none l.negative))

pub minimum_with-Contributes :
    (v : ℤ) → Contributes (λ l. record l { negative = minimum_with l.negative v })
unfolding join minimum_with
minimum_with-Contributes v l =
    Levels-eq _ _ (sym (maximum_privilege_value-none l.positive)) (minimum_with_lem l.negative v)

pub apply_entry-Contributes :
    (now : ℤ) (entry : PrivilegeEntry) → Contributes (apply_entry now entry)
unfolding apply_entry
apply_entry-Contributes now entry l = elim (Bool-cases (is_expired now entry)) [
  | inl e ↦ rw e (Contributes-id l)
  | inr e ↦ rw e (elim (Bool-cases (ltb_ℤ (pos 0) entry.privilege_value)) [
    | inl p ↦ rw p (maximum_with-Contributes entry.privilege_value l)
    | inr p ↦ rw p (minimum_with-Contributes entry.privilege_value l)
  ])
]

pub apply_entries-Contributes :
    (now : ℤ) (entries : List PrivilegeEntry) → Contributes (apply_entries now entries)
unfolding apply_entries
apply_entries-Contributes now [] = Contributes-id
apply_entries-Contributes now (entry ∷ rest) =
    Contributes-compose (apply_entry now entry) (apply_entries now rest)
      (apply_entry-Contributes now entry) (apply_entries-Contributes now rest)

module _ (s : GrantedPrivilegeStore) where
  pub calculate_privilege-Contributes :
      (collection : List PrivilegeEntry) (user : Option User) (entity_id : ℕ) (now : ℤ)
      → Contributes (calculate_privilege s collection user entity_id now)
  unfolding calculate_privilege
  calculate_privilege-Contributes collection none entity_id now l =
      maximum_with-Contributes (pos 0) l
  calculate_privilege-Contributes collection (some user) entity_id now l =
      elim (Bool-cases (is_anonymous_user (some user))) [
        | inl e ↦ rw e (maximum_with-Contributes (pos 0) l)
        | inr e ↦ rw e (
            Contributes-compose _ (apply_entries now (equal_range user.id entity_id collection))
              (maximum_with-Contributes (default_positive_value s user))
              (apply_entries-Contributes now (equal_range user.id entity_id collection)) l)
      ]

  module _ (user : Option User) (now : ℤ) where
    pub calculate_tags-Contributes :
        (tags : List DiscussionTag) → Contributes (calculate_tags s user tags now)
    unfolding calculate_tags calculate_tag_privilege
    calculate_tags-Contributes [] = Contributes-id
    calculate_tags-Contributes (tag ∷ tags) =
        Contributes-compose (calculate_privilege s s.tag_specific user tag.id now)
          (calculate_tags s user tags now)
          (calculate_privilege-Contributes s.tag_specific user tag.id now)
          (calculate_tags-Contributes tags)

    pub calculate_messages_of_thread-Contributes :
        (thread : DiscussionThread) → Contributes (calculate_messages_of_thread s user thread now)
    unfolding calculate_messages_of_thread calculate_thread_privilege calculate_forum_wide_privilege
    calculate_messages_of_thread-Contributes thread =
        Contributes-compose _ _
          (Contributes-compose _ _
            (calculate_privilege-Contributes s.thread_specific user thread.id now)
            (calculate_tags-Contributes thread.tags))
          (calculate_privilege-Contributes s.forum_wide_specific user 0 now)
