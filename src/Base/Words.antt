-- ===== src/Base/Words.antt =====
-- Wrapping arithmetic on `u64`.
use Prim.Native.Nat.{ℕ, ◌+◌, ◌-◌, ◌%◌, ◌^◌, ◌<◌}
use mathlib.Core.Path.{◌≡◌}
use native.Mathlib.Omega.{arith}

-- `a.wrapping_add(b)`
abbrev pub wrapping_add : ℕ → ℕ → ℕ
wrapping_add a b = (a + b) % 2 ^ 64

-- `a.wrapping_sub(b)`
abbrev pub wrapping_sub : ℕ → ℕ → ℕ
wrapping_sub a b = (a + 2 ^ 64 - b) % 2 ^ 64

-- Two counters that have wrapped stay as far apart as the counts.
pub wrapping_sub_counts : (r n : ℕ) → n < 2 ^ 64 → wrapping_sub ((r + n) % 2 ^ 64) (r % 2 ^ 64) ≡ n
wrapping_sub_counts r n h = omega arith

pub wrapping_add_count : (r n : ℕ) → wrapping_add (r % 2 ^ 64) n ≡ (r + n) % 2 ^ 64
wrapping_add_count r n = omega arith
