-- ===== src/Authorization/Throttling/Queue.antt =====
-- The ring is a queue of the latest times. ThrottlingCheck.h.
use forum.Base.{
  ℕ, zero, suc, ◌+◌, ◌-◌, ◌^◌, ◌%◌, ◌<◌, List, [], ◌∷◌, ◌++◌, append_assoc, append-nil, true, leb,
  ltb, if◌then◌else◌, get_or, set, take, drop, replicate, length, length-set, length-replicate, ◌≡◌,
  refl, sym, ap, ◌∙◌, arith, Bool-cases, inl, inr,
}
use forum.Authorization.Throttling.{ThrottlingCheck, throttling_check, wrap, is_allowed}

-- The times from the oldest to the newest.
abbrev pub window : ThrottlingCheck → List ℕ
window t = drop t.current_index t.entries ++ take t.current_index t.entries

pub record IsValid (t : ThrottlingCheck) : Type 0 where
  pub small : t.max_allowed < 2 ^ 16
  pub size : length t.entries ≡ t.max_allowed
  pub inside : t.current_index < t.max_allowed

drop-get_or : (xs : List ℕ) (i : ℕ) → i < length xs → drop i xs ≡ get_or xs i 0 ∷ drop (suc i) xs
drop-get_or [] i h = absurd (omega arith)
drop-get_or (x ∷ xs) zero h = refl
drop-get_or (x ∷ xs) (suc i) h = drop-get_or xs i (omega arith)

drop-set : (xs : List ℕ) (i v : ℕ) → drop (suc i) (set xs i v) ≡ drop (suc i) xs
drop-set [] i v = refl
drop-set (x ∷ xs) zero v = refl
drop-set (x ∷ xs) (suc i) v = drop-set xs i v

take-set :
    (xs : List ℕ) (i v : ℕ) → i < length xs → take (suc i) (set xs i v) ≡ take i xs ++ (v ∷ [])
take-set [] i v h = absurd (omega arith)
take-set (x ∷ xs) zero v h = refl
take-set (x ∷ xs) (suc i) v h = ap (◌∷◌ x) (take-set xs i v (omega arith))

-- Writing at the front of the queue and moving on takes the oldest time out and puts the new one in.
rotated :
    (entries : List ℕ) (i at : ℕ)
    → i < length entries
    → drop (suc i) (set entries i at) ++ take (suc i) (set entries i at)
      ≡ drop 1 (drop i entries ++ take i entries) ++ (at ∷ [])
rotated entries i at h =
    ap (λ l. l ++ take (suc i) (set entries i at)) (drop-set entries i at)
    ∙ ap (λ l. drop (suc i) entries ++ l) (take-set entries i at h)
    ∙ sym (append_assoc (drop (suc i) entries) (take i entries) (at ∷ []))
    ∙ ap (λ l. drop 1 (l ++ take i entries) ++ (at ∷ [])) (sym (drop-get_or entries i h))

head_of_window :
    (entries : List ℕ) (i : ℕ)
    → i < length entries
    → get_or (drop i entries ++ take i entries) 0 0 ≡ get_or entries i 0
head_of_window entries i h = ap (λ l. get_or (l ++ take i entries) 0 0) (drop-get_or entries i h)

drop-length : (n : ℕ) (xs : List ℕ) → length xs ≡ n → drop n xs ≡ []
drop-length zero [] h = refl
drop-length zero (x ∷ xs) h = absurd (omega arith)
drop-length (suc n) [] h = refl
drop-length (suc n) (x ∷ xs) h = drop-length n xs (omega arith)

take-length : (n : ℕ) (xs : List ℕ) → length xs ≡ n → take n xs ≡ xs
take-length zero [] h = refl
take-length zero (x ∷ xs) h = absurd (omega arith)
take-length (suc n) [] h = refl
take-length (suc n) (x ∷ xs) h = ap (◌∷◌ x) (take-length n xs (omega arith))

wrap_zero : (fuel max_allowed : ℕ) → 0 < max_allowed → wrap fuel max_allowed 0 ≡ 0
unfolding wrap
wrap_zero zero max_allowed h = refl
wrap_zero (suc fuel) max_allowed h = ground arith

wrap-suc :
    (max_allowed index : ℕ)
    → index < max_allowed
    → wrap (suc index) max_allowed (suc index)
      ≡ (if leb max_allowed (suc index) then 0 else suc index)
unfolding wrap
wrap-suc max_allowed index h =
    let left : leb max_allowed (suc index) ≡ true → suc index - max_allowed ≡ 0 =
      λ e. ground arith in
    elim (Bool-cases (leb max_allowed (suc index))) [
      | inl t ↦
          rw t (ap (wrap index max_allowed) (left t) ∙ wrap_zero index max_allowed (omega arith))
      | inr f ↦ rw f refl
    ]

wrap_next :
    (max_allowed index : ℕ)
    → max_allowed < 2 ^ 16
    → index < max_allowed
    → wrap ((index + 1) % 2 ^ 16) max_allowed ((index + 1) % 2 ^ 16)
      ≡ (if leb max_allowed (suc index) then 0 else suc index)
wrap_next max_allowed index a b =
    let next : (index + 1) % 2 ^ 16 ≡ suc index = omega arith in
    ap (λ n. wrap n max_allowed n) next ∙ wrap-suc max_allowed index b

-- The queue of a state with these entries and this index.
abbrev queue : List ℕ → ℕ → List ℕ
queue entries i = drop i entries ++ take i entries

queue-moved :
    (entries : List ℕ) (max_allowed i : ℕ)
    → length entries ≡ max_allowed
    → i < max_allowed
    → queue entries (if leb max_allowed (suc i) then 0 else suc i) ≡ queue entries (suc i)
queue-moved entries max_allowed i h k = elim (Bool-cases (leb max_allowed (suc i))) [
  | inl t ↦ rw t (
      append-nil entries
      ∙ sym (take-length (suc i) entries (ground arith))
      ∙ ap (λ l. l ++ take (suc i) entries) (sym (drop-length (suc i) entries (ground arith))))
  | inr f ↦ rw f refl
]

module _ (t : ThrottlingCheck) (at : ℕ) (v : IsValid t) where
  index_after :
      (is_allowed t at).1.current_index
      ≡ (if leb t.max_allowed (suc t.current_index) then 0 else suc t.current_index)
  unfolding is_allowed
  index_after = wrap_next t.max_allowed t.current_index v.small v.inside

  max_after : (is_allowed t at).1.max_allowed ≡ t.max_allowed
  unfolding is_allowed
  max_after = refl

  period_after : (is_allowed t at).1.period ≡ t.period
  unfolding is_allowed
  period_after = refl

  entries_after : (is_allowed t at).1.entries ≡ set t.entries t.current_index at
  unfolding is_allowed
  entries_after = refl

  is_allowed-IsValid : IsValid (is_allowed t at).1
  is_allowed-IsValid = record {
    small = unfold is_allowed in v.small;
    size = unfold is_allowed in (length-set t.entries t.current_index at ∙ v.size);
    inside = ground (arith, index_after, max_after, v.inside);
  }

  window-is_allowed : window (is_allowed t at).1 ≡ drop 1 (window t) ++ (at ∷ [])
  window-is_allowed =
      let entries = set t.entries t.current_index at in
      ap (queue (is_allowed t at).1.entries) index_after
      ∙ ap
          (λ l.
            queue l (if leb t.max_allowed (suc t.current_index) then 0 else suc t.current_index))
          entries_after
      ∙ queue-moved entries t.max_allowed t.current_index
          (length-set t.entries t.current_index at ∙ v.size) v.inside
      ∙ rotated t.entries t.current_index at (omega (arith, v.size, v.inside))

  answer : (is_allowed t at).0 ≡ ltb at (get_or (window t) 0 0 + t.period)
  unfolding is_allowed
  answer =
      ap (λ n. ltb at (n + t.period))
        (sym (head_of_window t.entries t.current_index (omega (arith, v.size, v.inside))))

-- The actions one after the other.
abbrev pub actions : ThrottlingCheck → List ℕ → ThrottlingCheck
actions t [] = t
actions t (at ∷ times) = actions (is_allowed t at).1 times

slide :
    (n at : ℕ) (times l : List ℕ) (x : ℕ) (xs : List ℕ)
    → l ≡ x ∷ xs
    → drop n ((drop 1 l ++ (at ∷ [])) ++ times) ≡ drop (suc n) (l ++ (at ∷ times))
slide n at times l x xs e = rw e (ap (drop n) (append_assoc xs (at ∷ []) times))

get_or-drop : (n : ℕ) (xs : List ℕ) → get_or (drop n xs) 0 0 ≡ get_or xs n 0
get_or-drop zero xs = refl
get_or-drop (suc n) [] = refl
get_or-drop (suc n) (x ∷ xs) = get_or-drop n xs

-- The window slides along the history of times.
window-actions :
    (t : ThrottlingCheck) (times : List ℕ)
    → IsValid t
    → IsValid (actions t times)
      × (window (actions t times) ≡ drop (length times) (window t ++ times))
      × ((actions t times).period ≡ t.period)
window-actions t [] v = (v, sym (append-nil (window t)), refl)
window-actions t (at ∷ times) v =
    let (w, e, f) = window-actions (is_allowed t at).1 times (is_allowed-IsValid t at v) in
    (
      w,
      e
          ∙ ap (λ l. drop (length times) (l ++ times)) (window-is_allowed t at v)
          ∙ slide (length times) at times (window t) _ _ (
              ap (λ l. l ++ take t.current_index t.entries)
                (drop-get_or t.entries t.current_index (omega (arith, v.size, v.inside)))),
      f ∙ period_after t at v,
    )

throttling_check-IsValid :
    (max_allowed period : ℕ)
    → 0 < max_allowed
    → max_allowed < 2 ^ 16
    → IsValid (throttling_check max_allowed period)
unfolding throttling_check
throttling_check-IsValid max_allowed period h k = record {
  small = k;
  size = ground (arith, length-replicate {A = ℕ} max_allowed 0);
  inside = h;
}

throttling_check-window :
    (max_allowed period : ℕ)
    → 0 < max_allowed
    → window (throttling_check max_allowed period) ≡ replicate max_allowed 0
unfolding throttling_check
throttling_check-window max_allowed period h =
    append-nil (replicate (if ltb max_allowed 1 then 1 else max_allowed) 0)
    ∙ ap (λ n. replicate n 0) (ground arith)

-- With a maximum from 1 to 65535, isAllowed answers true exactly when the action that lies that many
-- actions back happened less than the period ago; an action that there was not counts as one at time 0.
pub is_allowed-actions :
    (max_allowed period : ℕ) (times : List ℕ) (at : ℕ)
    → 0 < max_allowed
    → max_allowed < 2 ^ 16
    → (is_allowed (actions (throttling_check max_allowed period) times) at).0
      ≡ ltb at (get_or (replicate max_allowed 0 ++ times) (length times) 0 + period)
is_allowed-actions max_allowed period times at h k =
    let t = throttling_check max_allowed period in
    let (w, e, f) = window-actions t times (throttling_check-IsValid max_allowed period h k) in
    answer (actions t times) at w
    ∙ ap (λ n. ltb at (n + (actions t times).period))
        (ap (λ l. get_or l 0 0) e
          ∙ get_or-drop (length times) (window t ++ times)
          ∙ ap (λ l. get_or (l ++ times) (length times) 0)
              (throttling_check-window max_allowed period h))
    ∙ ap (λ n. ltb at (get_or (replicate max_allowed 0 ++ times) (length times) 0 + n))
        (f ∙ unfold throttling_check in refl)
