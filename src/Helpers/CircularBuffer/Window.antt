-- ===== src/Helpers/CircularBuffer/Window.antt =====
-- What the items hold after each push. CircularBuffer.h.
use native.Mathlib.Decide.{dec_lt}
use native.Mathlib.Nat.{mod-eq_of_lt, mod-eq-sub-mod}
use forum.Base.Int.{ℤ, pos, negsuc}
use forum.Base.{
  ℕ, zero, suc, ◌+◌, ◌-◌, ◌%◌, ◌≤◌, ◌<◌, List, [], ◌∷◌, ◌++◌, ◌≡◌, ◌≢◌, refl, sym, ap, ◌∙◌, inl,
  inr, arith, ◌==◌, ltb, if◌then◌else◌, get_or, set, drop, length, length-append, length-set,
  get_or-set_self, get_or-set_ne, Bool-cases,
}
use forum.Helpers.CircularBuffer.{CircularBuffer, push_at}

wrap : (i s c : ℕ) → i < c → s < c → (i + s) % c ≡ (if ltb (i + s) c then i + s else i + s - c)
wrap i s c h k = elim (dec_lt (i + s) c) [
  | yes p ↦ ground (arith, mod-eq_of_lt p)
  | no p ↦
      let over : c ≤ i + s = omega arith in
      let rest : i + s - c < c = omega arith in
      ground (arith, mod-eq-sub-mod over, mod-eq_of_lt rest)
]

-- The position one on, seen from a start moved on by one, is the same.
next :
    (i s s' c : ℕ)
    → s < c
    → s' ≡ (if ltb (s + 1) c then s + 1 else 0)
    → suc i < c
    → ((i + s') % c ≡ (suc i + s) % c) × (s ≢ (i + s') % c)
next i s s' c h e k =
    (ground (arith, wrap i s' c, wrap (suc i) s c), λ x. ground (arith, wrap i s' c))

-- The last position, seen from there, is the start.
last : (s s' c : ℕ) → s < c → s' ≡ (if ltb (s + 1) c then s + 1 else 0) → (c - 1 + s') % c ≡ s
last s s' c h e = ground (arith, wrap (c - 1) s' c)

module _ {ℓ} {T : Type ℓ} where
  get_or-append_left :
      (xs ys : List T) (i : ℕ) (d : T) → i < length xs → get_or (xs ++ ys) i d ≡ get_or xs i d
  get_or-append_left [] ys i d h = elim h [ ]
  get_or-append_left (x ∷ xs) ys zero d h = refl
  get_or-append_left (x ∷ xs) ys (suc i) d h = get_or-append_left xs ys i d (omega arith)

  get_or-append_last : (xs : List T) (v d : T) → get_or (xs ++ (v ∷ [])) (length xs) d ≡ v
  get_or-append_last [] v d = refl
  get_or-append_last (x ∷ xs) v d = get_or-append_last xs v d

  pub drop-get_or :
      (xs : List T) (n : ℕ) (d : T) → n < length xs → drop n xs ≡ get_or xs n d ∷ drop (suc n) xs
  drop-get_or [] n d h = elim h [ ]
  drop-get_or (x ∷ xs) zero d h = refl
  drop-get_or (x ∷ xs) (suc n) d h = drop-get_or xs n d (omega arith)

  pub drop-length : (xs : List T) (n : ℕ) → length xs ≤ n → drop n xs ≡ []
  drop-length [] zero h = refl
  drop-length [] (suc n) h = refl
  drop-length (x ∷ xs) zero h = absurd (omega arith)
  drop-length (x ∷ xs) (suc n) h = drop-length xs n (omega arith)

  module _ (capacity : ℕ) (d : T) where
    -- The items at the positions that the index tells are the latest of the history.
    abbrev pub Shape : ℤ → List T → List T → Type ℓ
    Shape (pos n) items history =
        (n < capacity)
        × (length history ≡ n)
        × ((i : ℕ) → i < n → get_or items i d ≡ get_or history i d)
    Shape (negsuc k) items history =
        (k < capacity)
        × (capacity ≤ length history)
        × ((i : ℕ)
            → i < capacity
            → get_or items ((i + (capacity - suc k)) % capacity) d
              ≡ get_or history (length history - capacity + i) d)

    pub record Window (b : CircularBuffer T) (history : List T) : Type ℓ where
      pub size : length b.items ≡ capacity
      pub shape : Shape b.index b.items history

    -- Writing at the place of the oldest value, with the start moved on by one.
    rotate :
        (items history : List T) (s s' : ℕ) (v : T)
        → length items ≡ capacity
        → s < capacity
        → s' ≡ (if ltb (s + 1) capacity then s + 1 else 0)
        → capacity ≤ length history
        → ((i : ℕ)
            → i < capacity
            → get_or items ((i + s) % capacity) d
              ≡ get_or history (length history - capacity + i) d)
        → (i : ℕ) → i < capacity
        → get_or (set items s v) ((i + s') % capacity) d
          ≡ get_or (history ++ (v ∷ [])) (length (history ++ (v ∷ [])) - capacity + i) d
    rotate items history s s' v size hs hs' long same i hi = elim (dec_lt (suc i) capacity) [
      | yes p ↦
          let (moved, other) = next i s s' capacity hs hs' p in
          let n = length history - capacity + suc i in
          let at : length (history ++ (v ∷ [])) - capacity + i ≡ n =
            omega (arith, length-append history (v ∷ [])) in
          get_or-set_ne items s ((i + s') % capacity) v d other
          ∙ ap (λ m. get_or items m d) moved
          ∙ same (suc i) p
          ∙ sym (get_or-append_left history (v ∷ []) n d (omega arith))
          ∙ ap (λ m. get_or (history ++ (v ∷ [])) m d) (sym at)
      | no p ↦
          let here : i ≡ capacity - 1 = omega arith in
          let at : length (history ++ (v ∷ [])) - capacity + i ≡ length history =
            omega (arith, length-append history (v ∷ [])) in
          ap (λ m. get_or (set items s v) ((m + s') % capacity) d) here
          ∙ ap (λ m. get_or (set items s v) m d) (last s s' capacity hs hs')
          ∙ get_or-set_self items s v d (omega arith)
          ∙ sym (get_or-append_last history v d)
          ∙ ap (λ m. get_or (history ++ (v ∷ [])) m d) (sym at)
    ]

    -- Writing while there is room.
    extend :
        (items history : List T) (n : ℕ) (v : T)
        → length items ≡ capacity
        → n < capacity
        → length history ≡ n
        → ((i : ℕ) → i < n → get_or items i d ≡ get_or history i d)
        → (i : ℕ) → i < suc n
        → get_or (set items n v) i d ≡ get_or (history ++ (v ∷ [])) i d
    extend items history n v size room len same i hi = elim (dec_lt i n) [
      | yes p ↦
          get_or-set_ne items n i v d (λ e. omega arith)
          ∙ same i p
          ∙ sym (get_or-append_left history (v ∷ []) i d (omega arith))
      | no p ↦
          let here : i ≡ n = omega arith in
          ap (λ m. get_or (set items n v) m d) here
          ∙ get_or-set_self items n v d (omega arith)
          ∙ sym (get_or-append_last history v d)
          ∙ ap (λ m. get_or (history ++ (v ∷ [])) m d) (len ∙ sym here)
    ]

    pub push_at-Window :
        (index : ℤ) (items history : List T) (v : T)
        → length items ≡ capacity
        → Shape index items history
        → Window (push_at capacity index items v) (history ++ (v ∷ []))
    unfolding push_at
    push_at-Window (pos n) items history v size (room, len, same) =
        elim (Bool-cases (capacity == n + 1)) [
          | inl full ↦ rw full (record {
            size = length-set items n v ∙ size;
            shape = (
              ground arith,
              ground (arith, length-append history (v ∷ [])),
              λ i hi.
                  let first : (i + (capacity - suc n)) % capacity ≡ i =
                    ap (λ m. m % capacity) (ground arith) ∙ mod-eq_of_lt hi in
                  let at : length (history ++ (v ∷ [])) - capacity + i ≡ i =
                    ground (arith, length-append history (v ∷ [])) in
                  ap (λ m. get_or (set items n v) m d) first
                  ∙ extend items history n v size room len same i (ground arith)
                  ∙ ap (λ m. get_or (history ++ (v ∷ [])) m d) (sym at),
            );
          })
          | inr more ↦ rw more (record {
            size = length-set items n v ∙ size;
            shape = (
              ground arith,
              omega (arith, length-append history (v ∷ [])),
              λ i hi. extend items history n v size room len same i (omega arith),
            );
          })
        ]
    push_at-Window (negsuc zero) items history v size (room, long, same) = record {
      size = length-set items (capacity - 1) v ∙ size;
      shape = (
        omega arith,
        omega (arith, length-append history (v ∷ [])),
        rotate items history (capacity - 1) (capacity - suc (capacity - 1)) v size (omega arith)
            (ground arith) long same,
      );
    }
    push_at-Window (negsuc (suc k)) items history v size (room, long, same) = record {
      size = length-set items (capacity - suc (suc k)) v ∙ size;
      shape = (
        omega arith,
        omega (arith, length-append history (v ∷ [])),
        rotate items history (capacity - suc (suc k)) (capacity - suc k) v size (omega arith)
            (ground arith) long same,
      );
    }
