-- ===== src/Persistence/Blobs/Numbers.antt =====
-- Integers of fixed width come back as they were written.
use Prim.Native.Nat.{ℕ}
use native.Mathlib.Nat.{pow-suc}
use mathlib.Core.Path.{subst}
use forum.Base.{zero, suc, ◌*◌, ◌/◌, ◌^◌, ◌<◌, ◌++◌, ◌≡◌, refl, ap, arith, length, Bytes}
use forum.Persistence.Blobs.{write_value, read_value}

pub length-write_value : (n value : ℕ) → length (write_value n value) ≡ n
unfolding write_value
length-write_value zero value = refl
length-write_value (suc n) value = ap suc (length-write_value n (value / 256))

div_below : (value q : ℕ) → value < q * 256 → value / 256 < q
div_below value q h = omega arith

-- An integer that fits into `n` bytes is read back, whatever follows it.
pub read_value-write_value :
    (n value : ℕ) (rest : Bytes)
    → value < 256 ^ n
    → read_value n (write_value n value ++ rest) ≡ value
unfolding read_value write_value
read_value-write_value zero value rest h = omega arith
read_value-write_value (suc n) value rest h =
    let smaller = div_below value (256 ^ n) (subst (λ x. value < x) (pow-suc 256 n) h) in
    omega (arith, read_value-write_value n (value / 256) rest smaller)
