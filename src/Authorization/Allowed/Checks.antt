-- ===== src/Authorization/Allowed/Checks.antt =====
-- What a check answers. AuthorizationGrantedPrivilegeStore.cpp, getEffectivePrivilegeValue and
-- isAllowed.
use forum.Base.Int.{ℤ, pos, negsuc, ◌+ℤ◌, ◌≤ℤ◌, leb_ℤ, +ℤ_parts}
use forum.Base.{
  ℕ, ◌^◌, ◌-◌, List, [], ◌∷◌, Option, none, some, true, is_some, ◌≡◌, ◌↔◌, refl, ap, ◌∙◌, arith,
  if◌then◌else◌,
}
use forum.Authorization.Privileges.{PrivilegeValueType, to_int16, optional_or_zero, maximum_with}
use forum.Authorization.Entities.{
  User, ForumWidePrivilegeStore, DiscussionTag, DiscussionThreadMessage, is_anonymous_user,
  message_privilege, thread_privilege, DiscussionThread,
}
use forum.Authorization.Store.{
  GrantedPrivilegeStore, PrivilegeEntry, Levels, no_levels, calculate_privilege,
  calculate_message_privilege, calculate_thread_privilege, calculate_tag_privilege, calculate_tags,
  calculate_forum_wide_privilege, calculate_messages_of_thread,
}
use forum.Authorization.Allowed.{
  is_allowed_thread, effective_privilege_value, check, is_allowed_message,
}

-- The range of an int16_t.
abbrev pub IsInt16 : ℤ → Type 0
IsInt16 v = (negsuc (2 ^ 15 - 1) ≤ℤ v) × (v ≤ℤ pos (2 ^ 15 - 1))

to_int16-IsInt16 : (v : ℤ) → IsInt16 (to_int16 v)
unfolding to_int16
to_int16-IsInt16 (pos n) = ground arith
to_int16-IsInt16 (negsuc n) = ground arith

to_int16_id : (v : ℤ) → IsInt16 v → to_int16 v ≡ v
unfolding to_int16
to_int16_id (pos n) h = ground arith
to_int16_id (negsuc n) h = ground arith

-- MinPrivilegeValue and MaxPrivilegeValue bound what is granted.
abbrev pub min_privilege_value : ℤ
min_privilege_value = negsuc 31999

abbrev pub max_privilege_value : ℤ
max_privilege_value = pos 32000

-- A level that grants within the limits give: the positive one is at least 0, the negative one at
-- most 0.
abbrev pub IsWithin : Levels → Type 0
IsWithin l =
    (pos 0 ≤ℤ optional_or_zero l.positive)
    × (optional_or_zero l.positive ≤ℤ max_privilege_value)
    × (min_privilege_value ≤ℤ optional_or_zero l.negative)
    × (optional_or_zero l.negative ≤ℤ pos 0)

within_sum :
    (p n : ℤ)
    → pos 0 ≤ℤ p
    → p ≤ℤ max_privilege_value
    → min_privilege_value ≤ℤ n
    → n ≤ℤ pos 0
    → IsInt16 (p +ℤ n)
within_sum p n a b c d = omega (arith, +ℤ_parts p n)

-- With levels within the limits the sum does not wrap, so a check passes exactly when the sum of the
-- two levels reaches the required value, and then answers with that sum.
pub check-IsWithin :
    (l : Levels) (required : PrivilegeValueType)
    → IsWithin l
    → ((is_some (check l required) ≡ true)
        ↔ (optional_or_zero required ≤ℤ optional_or_zero l.positive +ℤ optional_or_zero l.negative))
      × ((v : ℤ)
          → check l required ≡ some v
          → v ≡ optional_or_zero l.positive +ℤ optional_or_zero l.negative)
unfolding check effective_privilege_value
check-IsWithin l required (a, b, c, d) =
    rw
      (to_int16_id _
        (within_sum (optional_or_zero l.positive) (optional_or_zero l.negative) a b c d))
      ((λ h. ground arith, λ h. ground arith), λ v h. ground arith)

abbrev anonymous : Levels
anonymous = record { positive = some (pos 0); negative = none }

module _ (s : GrantedPrivilegeStore) (user : Option User) (now : ℤ)
    (h : is_anonymous_user user ≡ true) where
  calculate_privilege_anonymous :
      (c : List PrivilegeEntry) (entity_id : ℕ) (l : Levels)
      → calculate_privilege s c user entity_id now l
        ≡ record l { positive = maximum_with l.positive (pos 0) }
  unfolding calculate_privilege
  calculate_privilege_anonymous c entity_id l = go user h
    where
      go :
          (u : Option User)
          → is_anonymous_user u ≡ true
          → calculate_privilege s c u entity_id now l
            ≡ record l { positive = maximum_with l.positive (pos 0) }
      go none e = refl
      go (some u) e = rw e

  calculate_tags-anonymous :
      (tags : List DiscussionTag) → calculate_tags s user tags now anonymous ≡ anonymous
  unfolding calculate_tags calculate_tag_privilege maximum_with
  calculate_tags-anonymous [] = refl
  calculate_tags-anonymous (tag ∷ tags) =
      ap (calculate_tags s user tags now)
        (calculate_privilege_anonymous s.tag_specific tag.id anonymous)
      ∙ calculate_tags-anonymous tags

  anonymous_levels :
      (message : DiscussionThreadMessage)
      → calculate_messages_of_thread s user message.parent_thread now
          (calculate_message_privilege s user message now no_levels)
        ≡ anonymous
  unfolding calculate_messages_of_thread calculate_thread_privilege calculate_message_privilege
      calculate_forum_wide_privilege maximum_with
  anonymous_levels message =
      let thread = message.parent_thread in
      let tags = λ (l : Levels). calculate_tags s user thread.tags now l in
      let forum = λ (l : Levels). calculate_privilege s s.forum_wide_specific user 0 now l in
      let on_thread =
        λ (l : Levels). calculate_privilege s s.thread_specific user thread.id now l in
      ap (λ l. forum (tags (on_thread l)))
        (calculate_privilege_anonymous s.message_specific message.id no_levels)
      ∙ ap (λ l. forum (tags l))
          (calculate_privilege_anonymous s.thread_specific thread.id anonymous)
      ∙ ap forum (calculate_tags-anonymous thread.tags)
      ∙ calculate_privilege_anonymous s.forum_wide_specific 0 anonymous

  -- A visitor who is not logged in has level 0 on every message, whatever was granted to whom: the
  -- check passes, with 0, exactly when no more than 0 is required.
  pub is_allowed_message_anonymous :
      (forum_wide : ForumWidePrivilegeStore) (message : DiscussionThreadMessage) (privilege : ℕ)
      → is_allowed_message forum_wide s user message privilege now ≡ (
          if leb_ℤ (optional_or_zero (message_privilege forum_wide message privilege)) (pos 0)
          then some (pos 0)
          else none)
  unfolding is_allowed_message check effective_privilege_value
  is_allowed_message_anonymous forum_wide message privilege = rw (anonymous_levels message) refl

  thread_levels :
      (thread : DiscussionThread)
      → calculate_forum_wide_privilege s user now (
          calculate_tags s user thread.tags now
            (calculate_thread_privilege s user thread now no_levels))
        ≡ anonymous
  unfolding calculate_thread_privilege calculate_forum_wide_privilege maximum_with
  thread_levels thread =
      let forum = λ (l : Levels). calculate_privilege s s.forum_wide_specific user 0 now l in
      ap (λ l. forum (calculate_tags s user thread.tags now l))
        (calculate_privilege_anonymous s.thread_specific thread.id no_levels)
      ∙ ap forum (calculate_tags-anonymous thread.tags)
      ∙ calculate_privilege_anonymous s.forum_wide_specific 0 anonymous

  pub is_allowed_thread_anonymous :
      (forum_wide : ForumWidePrivilegeStore) (thread : DiscussionThread) (privilege : ℕ)
      → is_allowed_thread forum_wide s user thread privilege now ≡ (
          if leb_ℤ (optional_or_zero (thread_privilege forum_wide thread privilege)) (pos 0)
          then some (pos 0)
          else none)
  unfolding is_allowed_thread check effective_privilege_value
  is_allowed_thread_anonymous forum_wide thread privilege = rw (thread_levels thread) refl
