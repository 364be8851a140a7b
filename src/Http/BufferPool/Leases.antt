-- ===== src/Http/BufferPool/Leases.antt =====
-- Who holds which buffer. FixedSizeBufferPool.h.
use forum.Base.{
  ℕ, zero, suc, ◌+◌, ◌-◌, ◌≤◌, ◌<◌, List, [], ◌∷◌, none, some, ltb, ◌==◌, if◌then◌else◌, get_or,
  set, drop, length, length-set, ◌≡◌, refl, sym, ap, ◌∙◌, arith,
}
use mathlib.Core.Path.{subst}
use forum.Http.BufferPool.{
  FixedSizeBufferPool, indexes_from, buffer_pool, lease_buffer, return_buffer,
}

-- How often an index stands in a list, and the list without its first occurrence.
abbrev pub occurrences : ℕ → List ℕ → ℕ
occurrences x [] = 0
occurrences x (y ∷ ys) = if x == y then suc (occurrences x ys) else occurrences x ys

abbrev pub remove : ℕ → List ℕ → List ℕ
remove x [] = []
remove x (y ∷ ys) = if x == y then ys else y ∷ remove x ys

-- The pool after some row of leases and returns, and the indexes that are leased. Only what is leased
-- is returned.
pub data Reachable : FixedSizeBufferPool → List ℕ → Type 0 where
  start : (max_buffer_count : ℕ) → Reachable (buffer_pool max_buffer_count) []
  lease :
      (p : FixedSizeBufferPool) (leased : List ℕ) (index : ℕ)
      → Reachable p leased
      → (lease_buffer p).0 ≡ some index
      → Reachable (lease_buffer p).1 (index ∷ leased)
  give_back :
      (p : FixedSizeBufferPool) (leased : List ℕ) (index : ℕ)
      → Reachable p leased
      → 0 < occurrences index leased
      → Reachable (return_buffer p (some index)) (remove index leased)

abbrev free : FixedSizeBufferPool → List ℕ
free p = drop p.number_of_used_buffers p.available_indexes

-- Every index of the pool is either leased once or free once, and no other index is either.
pub record IsValid (p : FixedSizeBufferPool) (leased : List ℕ) : Type 0 where
  pub once :
      (x : ℕ)
      → occurrences x leased + occurrences x (free p) ≡ (if ltb x p.max_buffer_count then 1 else 0)
  pub used : length leased ≡ p.number_of_used_buffers
  pub size : length p.available_indexes ≡ p.max_buffer_count
  pub room : p.number_of_used_buffers ≤ p.max_buffer_count

drop-get_or : (xs : List ℕ) (i : ℕ) → i < length xs → drop i xs ≡ get_or xs i 0 ∷ drop (suc i) xs
drop-get_or [] i h = absurd (omega arith)
drop-get_or (x ∷ xs) zero h = refl
drop-get_or (x ∷ xs) (suc i) h = drop-get_or xs i (omega arith)

drop-set : (xs : List ℕ) (i v : ℕ) → i < length xs → drop i (set xs i v) ≡ v ∷ drop (suc i) xs
drop-set [] i v h = absurd (omega arith)
drop-set (x ∷ xs) zero v h = refl
drop-set (x ∷ xs) (suc i) v h = drop-set xs i v (omega arith)

occurrences-indexes_from :
    (x first n : ℕ)
    → occurrences x (indexes_from first n)
      ≡ (if ltb x first then 0 else if ltb x (first + n) then 1 else 0)
unfolding indexes_from
occurrences-indexes_from x first zero = ground arith
occurrences-indexes_from x first (suc n) = ground (arith, occurrences-indexes_from x (suc first) n)

length-indexes_from : (first n : ℕ) → length (indexes_from first n) ≡ n
unfolding indexes_from
length-indexes_from first zero = refl
length-indexes_from first (suc n) = ap suc (length-indexes_from (suc first) n)

occurrences-remove :
    (x y : ℕ) (ys : List ℕ)
    → 0 < occurrences y ys
    → occurrences x (remove y ys) ≡ occurrences x ys - (if x == y then 1 else 0)
occurrences-remove x y [] h = absurd (omega arith)
occurrences-remove x y (z ∷ zs) h = ground (arith, occurrences-remove x y zs)

length-remove : (y : ℕ) (ys : List ℕ) → 0 < occurrences y ys → length (remove y ys) + 1 ≡ length ys
length-remove y [] h = absurd (omega arith)
length-remove y (z ∷ zs) h = ground (arith, length-remove y zs)

lease_result :
    (p : FixedSizeBufferPool) (index : ℕ)
    → (lease_buffer p).0 ≡ some index
    → (p.number_of_used_buffers < p.max_buffer_count)
      × (get_or p.available_indexes p.number_of_used_buffers 0 ≡ index)
      × ((lease_buffer p).1 ≡ record p { number_of_used_buffers = p.number_of_used_buffers + 1 })
unfolding lease_buffer
lease_result p index e = (ground arith, ground arith, ground arith)

lease-IsValid :
    (p : FixedSizeBufferPool) (leased : List ℕ)
    → IsValid p leased
    → p.number_of_used_buffers < p.max_buffer_count
    → IsValid
        (record p { number_of_used_buffers = p.number_of_used_buffers + 1 })
        (get_or p.available_indexes p.number_of_used_buffers 0 ∷ leased)
lease-IsValid p leased v h =
    let used = p.number_of_used_buffers in
    let next : suc used ≡ used + 1 = omega arith in
    let first =
      drop-get_or p.available_indexes used (omega (arith, v.size))
      ∙ ap (λ n. get_or p.available_indexes used 0 ∷ drop n p.available_indexes) next in
    record {
      once = λ x. ground (arith, v.once x, ap (occurrences x) first);
      used = omega (arith, v.used);
      size = v.size;
      room = omega (arith, h);
    }

leased_below :
    (p : FixedSizeBufferPool) (leased : List ℕ) (index : ℕ)
    → IsValid p leased
    → 0 < occurrences index leased
    → index < p.max_buffer_count
leased_below p leased index v h = ground (arith, v.once index)

give_back-IsValid :
    (p : FixedSizeBufferPool) (leased : List ℕ) (index : ℕ)
    → IsValid p leased
    → 0 < occurrences index leased
    → IsValid
        (record p {
          number_of_used_buffers = p.number_of_used_buffers - 1;
          available_indexes = set p.available_indexes (p.number_of_used_buffers - 1) index;
        })
        (remove index leased)
give_back-IsValid p leased index v h =
    let used = p.number_of_used_buffers in
    let some_used : 0 < used = omega (arith, v.used, length-remove index leased h) in
    let back : suc (used - 1) ≡ used = omega arith in
    let enough = v.room in
    let first =
      drop-set p.available_indexes (used - 1) index (omega (arith, v.size))
      ∙ ap (λ n. index ∷ drop n p.available_indexes) back in
    record {
      once = λ x. ground (
        arith,
        v.once x,
        ap (occurrences x) first,
        occurrences-remove x index leased h,
        v.once index,
      );
      used = omega (arith, v.used, length-remove index leased h);
      size = length-set p.available_indexes (used - 1) index ∙ v.size;
      room = omega (arith, v.room);
    }

return_result :
    (p : FixedSizeBufferPool) (index : ℕ)
    → index < p.max_buffer_count
    → return_buffer p (some index) ≡ record p {
      number_of_used_buffers = p.number_of_used_buffers - 1;
      available_indexes = set p.available_indexes (p.number_of_used_buffers - 1) index;
    }
unfolding return_buffer
return_result p index h = ground arith

-- What the next lease gives is free.
held_by_none :
    (p : FixedSizeBufferPool) (leased : List ℕ)
    → IsValid p leased
    → p.number_of_used_buffers < p.max_buffer_count
    → (index : ℕ) → get_or p.available_indexes p.number_of_used_buffers 0 ≡ index
    → (index < p.max_buffer_count) × (occurrences index leased ≡ 0)
held_by_none p leased v h index e =
    let first = drop-get_or p.available_indexes p.number_of_used_buffers (omega (arith, v.size)) in
    (
      ground (arith, v.once index, ap (occurrences index) first),
      ground (arith, v.once index, ap (occurrences index) first),
    )

Reachable-IsValid :
    {p : FixedSizeBufferPool} {leased : List ℕ} → Reachable p leased → IsValid p leased
Reachable-IsValid (start n) =
    unfold buffer_pool in
    record {
      once = λ x. ground (arith, occurrences-indexes_from x 0 n);
      used = refl;
      size = length-indexes_from 0 n;
      room = omega arith;
    }
Reachable-IsValid (lease p leased index r e) =
    let (room, which, after) = lease_result p index e in
    subst (λ q. IsValid q (index ∷ leased)) (sym after)
      (subst
        (λ i.
          IsValid (record p { number_of_used_buffers = p.number_of_used_buffers + 1 }) (i ∷ leased))
        which (lease-IsValid p leased (Reachable-IsValid r) room))
Reachable-IsValid (give_back p leased index r h) =
    let v = Reachable-IsValid r in
    subst (λ q. IsValid q (remove index leased))
      (sym (return_result p index (leased_below p leased index v h)))
      (give_back-IsValid p leased index v h)

-- After any row of leases and of returns of what was leased, a buffer that is leased is one of the
-- pool's and is held by nobody else; and a lease fails only when as many buffers are leased as the
-- pool has.
pub lease_buffer-exclusive :
    (p : FixedSizeBufferPool) (leased : List ℕ)
    → Reachable p leased
    → ((index : ℕ)
        → (lease_buffer p).0 ≡ some index
        → (index < p.max_buffer_count) × (occurrences index leased ≡ 0))
      × ((lease_buffer p).0 ≡ none → p.max_buffer_count ≤ length leased)
unfolding lease_buffer
lease_buffer-exclusive p leased r = (
  λ index e.
      let (room, which, after) = lease_result p index e in
      held_by_none p leased (Reachable-IsValid r) room index which,
  λ e. ground (arith, (Reachable-IsValid r).used),
)
