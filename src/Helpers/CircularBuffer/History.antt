-- ===== src/Helpers/CircularBuffer/History.antt =====
-- The buffer is a window on the history of pushes. CircularBuffer.h.
use mathlib.Core.List.{reverse, reverse-append}
use native.Mathlib.Nat.{mod-eq_of_lt}
use forum.Base.Int.{ℤ, pos, negsuc}
use forum.Base.{
  ℕ, zero, suc, ◌+◌, ◌-◌, ◌%◌, ◌<◌, List, [], ◌∷◌, ◌++◌, ◌≡◌, refl, sym, ap, ◌∙◌, arith, get_or,
  drop, length, length-replicate, append_assoc, append-nil,
}
use forum.Helpers.CircularBuffer.{
  CircularBuffer, empty, push_at, push_back, start, count, visit, to_list, visit_back, to_list_back,
}
use forum.Helpers.CircularBuffer.Window.{Shape, Window, push_at-Window, drop-get_or, drop-length}

module _ {ℓ} {T : Type ℓ} where
  module _ (capacity : ℕ) (d : T) where
    visit_lem :
        (first : ℕ) (items history : List T) (off : ℕ) (n i : ℕ)
        → ((j : ℕ)
            → j < i + n
            → get_or items ((j + first) % capacity) d ≡ get_or history (off + j) d)
        → off + i + n ≡ length history
        → visit capacity first i d items n ≡ drop (off + i) history
    unfolding visit
    visit_lem first items history off zero i same e =
        sym (drop-length history (off + i) (omega arith))
    visit_lem first items history off (suc n) i same e =
        let rest =
          visit_lem first items history off n (suc i) (λ j h. same j (omega arith)) (omega arith) in
        let next : off + suc i ≡ suc (off + i) = omega arith in
        (λ k. same i (omega arith) k ∷ (rest ∙ ap (λ m. drop m history) next) k)
        ∙ sym (drop-get_or history (off + i) d (omega arith))

    Shape-to_list :
        (index : ℤ) (items history : List T)
        → Shape capacity d index items history
        → visit capacity (start capacity index) 0 d items (count capacity index)
          ≡ drop (length history - capacity) history
    unfolding start count
    Shape-to_list (pos n) items history (room, len, same) =
        let all : ◌≡◌ {A = ℕ} (0 + 0) (length history - capacity) = omega arith in
        visit_lem 0 items history 0 n 0
          (λ j h.
            ap (λ m. get_or items m d)
              (ap (λ m. m % capacity) (omega arith) ∙ mod-eq_of_lt (below j (omega arith)))
            ∙ same j (omega arith)
            ∙ ap (λ m. get_or history m d) (omega arith))
          (omega arith)
        ∙ ap (λ m. drop m history) all
      where
        below : (j : ℕ) → j < n → j < capacity
        below j h = omega arith
    Shape-to_list (negsuc k) items history (room, long, same) =
        let off = length history - capacity in
        let there : off + 0 ≡ off = omega arith in
        visit_lem (capacity - suc k) items history off capacity 0 (λ j h. same j (omega arith))
          (omega arith)
        ∙ ap (λ m. drop m history) there

    unfoldable pub pushes : CircularBuffer T → List T → CircularBuffer T
    pushes b [] = b
    pushes b (v ∷ values) = pushes (push_back capacity b v) values

    pushes-Window :
        (b : CircularBuffer T) (history values : List T)
        → Window capacity d b history
        → Window capacity d (pushes b values) (history ++ values)
    unfolding pushes push_back
    pushes-Window b history [] w = rw append-nil w
    pushes-Window b history (v ∷ values) w = rw (append_assoc history (v ∷ []) values) at (
        pushes-Window (push_at capacity b.index b.items v) (history ++ (v ∷ [])) values
          (push_at-Window capacity d b.index b.items history v w.size w.shape))

    empty-Window : 0 < capacity → Window capacity d (empty capacity d) []
    unfolding empty
    empty-Window h = record {
      size = length-replicate capacity d;
      shape = (h, refl, λ i k. absurd (omega arith));
    }

    visit-snoc :
        (first : ℕ) (items : List T) (n i : ℕ)
        → visit capacity first i d items (suc n)
          ≡ visit capacity first i d items n ++ (get_or items ((i + n + first) % capacity) d ∷ [])
    unfolding visit
    visit-snoc first items zero i =
        ap (λ m. get_or items ((m + first) % capacity) d ∷ []) (omega arith)
    visit-snoc first items (suc n) i =
        let next : suc i + n ≡ i + suc n = omega arith in
        ap (◌∷◌ (get_or items ((i + first) % capacity) d)) (
          visit-snoc first items n (suc i)
          ∙ ap
              (λ m.
                visit capacity first (suc i) d items n
                ++ (get_or items ((m + first) % capacity) d ∷ []))
              next)

    visit_back-reverse :
        (first : ℕ) (items : List T) (n : ℕ)
        → visit_back capacity first d items n ≡ reverse (visit capacity first 0 d items n)
    unfolding visit_back
    visit_back-reverse first items zero = unfold visit in refl
    visit_back-reverse first items (suc n) =
        let x = get_or items ((n + first) % capacity) d in
        ap (◌∷◌ x) (visit_back-reverse first items n)
        ∙ sym (reverse-append (visit capacity first 0 d items n) (x ∷ []))
        ∙ ap reverse (
            sym (
              visit-snoc first items n 0
              ∙ ap
                  (λ m.
                    visit capacity first 0 d items n
                    ++ (get_or items ((m + first) % capacity) d ∷ []))
                  (omega arith)))

-- After any row of pushes on an empty buffer, the iteration visits the latest `capacity` of the
-- values pushed, oldest first, or all of them where there are fewer; the reverse iteration visits the
-- same values in the opposite order.
pub to_list-pushes {ℓ} :
    {T : Type ℓ} (capacity : ℕ) (d : T) (values : List T)
    → 0 < capacity
    → (to_list capacity d (pushes capacity d (empty capacity d) values)
        ≡ drop (length values - capacity) values)
      × (to_list_back capacity d (pushes capacity d (empty capacity d) values)
          ≡ reverse (to_list capacity d (pushes capacity d (empty capacity d) values)))
unfolding to_list to_list_back
to_list-pushes capacity d values h =
    let b = pushes capacity d (empty capacity d) values in
    let w = pushes-Window capacity d (empty capacity d) [] values (empty-Window capacity d h) in
    (
      Shape-to_list capacity d b.index b.items values w.shape,
      visit_back-reverse capacity d (start capacity b.index) b.items (count capacity b.index),
    )
