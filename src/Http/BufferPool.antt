-- ===== src/Http/BufferPool.antt =====
-- src/LibHttp/FixedSizeBufferPool.h: a pool of buffers, named by their indexes. Each operation runs
-- under the pool's lock.
pub mod Leases
use forum.Base.{
  ℕ, zero, suc, ◌+◌, ◌-◌, List, [], ◌∷◌, Option, none, some, leb, if◌then◌else◌, get_or, set,
}

pub record FixedSizeBufferPool : Type 0 where
  pub max_buffer_count : ℕ
  pub number_of_used_buffers : ℕ
  pub available_indexes : List ℕ

-- `n` indexes from `first` on.
unfoldable pub indexes_from : ℕ → ℕ → List ℕ
indexes_from first zero = []
indexes_from first (suc n) = first ∷ indexes_from (suc first) n

unfoldable pub buffer_pool : ℕ → FixedSizeBufferPool
unfolding indexes_from
buffer_pool max_buffer_count = record {
  max_buffer_count = max_buffer_count;
  number_of_used_buffers = 0;
  available_indexes = indexes_from 0 max_buffer_count;
}

unfoldable pub lease_buffer : FixedSizeBufferPool → Option ℕ × FixedSizeBufferPool
lease_buffer p = if leb p.max_buffer_count p.number_of_used_buffers then (none, p) else (
  some (get_or p.available_indexes p.number_of_used_buffers 0),
  record p { number_of_used_buffers = p.number_of_used_buffers + 1 },
)

-- No buffer, or one of another pool, is ignored. The number of used buffers is not 0, as the code
-- asserts.
unfoldable pub return_buffer : FixedSizeBufferPool → Option ℕ → FixedSizeBufferPool
return_buffer p none = p
return_buffer p (some index) =
    let used = p.number_of_used_buffers - 1 in
    if leb p.max_buffer_count index then p else record p {
      number_of_used_buffers = used;
      available_indexes = set p.available_indexes used index;
    }
