-- ===== src/Common/Bits.antt =====
-- Bit masks on small numbers as arithmetic, each a table checked by evaluation.
use Prim.Native.Nat.{compare, Ordering, ℕ, zero, suc, ◌*◌, ◌/◌, ◌%◌, ◌^◌, ◌<◌}
use mathlib.Core.Path.{◌≡◌}
use mathlib.Core.Bool.{false, Bool, true}
use native.Mathlib.Omega.{arith}

abbrev pub shl : ℕ → ℕ → ℕ
shl x k = x * 2 ^ k

abbrev pub shr : ℕ → ℕ → ℕ
shr x k = x / 2 ^ k

-- `x & (2 ^ k - 1)`, and a cast to an unsigned type of `k` bits.
abbrev pub low_bits : ℕ → ℕ → ℕ
low_bits x k = x % 2 ^ k

-- Two functions agree below a bound, checked value by value.
unfoldable pub agree : (ℕ → ℕ) → (ℕ → ℕ) → ℕ → Bool
agree f g zero = true
agree f g (suc k) = elim (compare (f k) (g k)) [ Ordering.eq ↦ agree f g k | _ ↦ false ]

-- A table that was checked gives the equation at every value below its bound.
pub by_table : (f g : ℕ → ℕ) (bound : ℕ) → agree f g bound ≡ true → (v : ℕ) → v < bound → f v ≡ g v
unfolding agree
by_table f g zero checked v h = absurd (omega arith)
by_table f g (suc k) checked v h = ground (arith, by_table f g k (ground arith) v)

-- `(x & (1 << k)) != 0`
abbrev pub bit_set : ℕ → ℕ → Bool
bit_set x k = elim (compare (x / 2 ^ k % 2) 1) [ Ordering.eq ↦ true | _ ↦ false ]
