-- ===== src/Authorization/Throttling.antt =====
-- src/LibForumData/ThrottlingCheck.h: the times of the latest actions of a user, in a ring.
pub mod Queue
use forum.Base.{
  ℕ, zero, suc, ◌+◌, ◌-◌, ◌^◌, ◌%◌, List, [], ◌∷◌, Bool, leb, ltb, if◌then◌else◌, get_or, set,
  replicate,
}

-- Times and the period are not negative.
pub record ThrottlingCheck : Type 0 where
  pub max_allowed : ℕ
  pub period : ℕ
  pub entries : List ℕ
  pub current_index : ℕ

-- The constructor raises only its parameter to 1, not the member.
unfoldable pub throttling_check : ℕ → ℕ → ThrottlingCheck
throttling_check max_allowed period = record {
  max_allowed = max_allowed;
  period = period;
  entries = replicate (if ltb max_allowed 1 then 1 else max_allowed) 0;
  current_index = 0;
}

-- `while (currentIndex_ >= maxAllowed_) currentIndex_ -= maxAllowed_;`, with fuel. The index is enough
-- where `max_allowed` is not 0; where it is 0 the loop has no end.
unfoldable pub wrap : ℕ → ℕ → ℕ → ℕ
wrap zero max_allowed index = index
wrap (suc fuel) max_allowed index =
    let rest = wrap fuel max_allowed (index - max_allowed) in
    if leb max_allowed index then rest else index

unfoldable pub is_allowed : ThrottlingCheck → ℕ → Bool × ThrottlingCheck
unfolding wrap
is_allowed t at =
    let oldest_entry = get_or t.entries t.current_index 0 in
    let next = (t.current_index + 1) % 2 ^ 16 in
    (
      ltb at (oldest_entry + t.period),
      record t {
        entries = set t.entries t.current_index at;
        current_index = wrap next t.max_allowed next;
      },
    )
