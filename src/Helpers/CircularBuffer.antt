-- ===== src/Helpers/CircularBuffer.antt =====
-- src/LibForumHelpers/CircularBuffer.h: the last `capacity` values pushed. While the buffer fills up
-- its index is the number of values; then it is negative, and index + capacity is where the oldest
-- value stands. The static assertion keeps capacity within the index's type.
pub mod Window
pub mod History
use forum.Base.Int.{ℤ, pos, negsuc}
use forum.Base.{
  ℕ, zero, suc, ◌+◌, ◌-◌, ◌%◌, List, [], ◌∷◌, Bool, ◌==◌, if◌then◌else◌, get_or, set, replicate,
}

pub record CircularBuffer {ℓ} (T : Type ℓ) : Type ℓ where
  pub items : List T
  pub index : ℤ

-- cbegin and cend: where the iteration starts, and how many values it visits.
unfoldable pub start : ℕ → ℤ → ℕ
start capacity (pos n) = 0
start capacity (negsuc k) = capacity - suc k

unfoldable pub count : ℕ → ℤ → ℕ
count capacity (pos n) = n
count capacity (negsuc k) = capacity

module _ {ℓ} {T : Type ℓ} (capacity : ℕ) where
  unfoldable pub empty : T → CircularBuffer T
  empty value = record { items = replicate capacity value; index = pos 0 }

  unfoldable pub push_at : ℤ → List T → T → CircularBuffer T
  push_at (pos n) items value = record {
    items = set items n value;
    index = if capacity == n + 1 then negsuc n else pos (n + 1);
  }
  push_at (negsuc zero) items value = record {
    items = set items (capacity - 1) value;
    index = negsuc (capacity - 1);
  }
  push_at (negsuc (suc k)) items value = record {
    items = set items (capacity - suc (suc k)) value;
    index = negsuc k;
  }

  unfoldable pub push_back : CircularBuffer T → T → CircularBuffer T
  unfolding push_at
  push_back b value = push_at b.index b.items value

  -- The values from the `i`th on, `n` of them.
  unfoldable pub visit : ℕ → ℕ → T → List T → ℕ → List T
  visit first i default items zero = []
  visit first i default items (suc n) =
      get_or items ((i + first) % capacity) default ∷ visit first (suc i) default items n

  -- The values that begin() to end() visit. `default` stands for a read out of bounds.
  unfoldable pub to_list : T → CircularBuffer T → List T
  unfolding start count visit
  to_list default b = visit (start capacity b.index) 0 default b.items (count capacity b.index)

  -- crbegin to crend: the value in front of position `n`, then those before it.
  unfoldable pub visit_back : ℕ → T → List T → ℕ → List T
  visit_back first default items zero = []
  visit_back first default items (suc n) =
      get_or items ((n + first) % capacity) default ∷ visit_back first default items n

  unfoldable pub to_list_back : T → CircularBuffer T → List T
  unfolding start count visit_back
  to_list_back default b =
      visit_back (start capacity b.index) default b.items (count capacity b.index)
