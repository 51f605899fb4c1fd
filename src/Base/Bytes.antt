-- ===== src/Base/Bytes.antt =====
-- Little-endian integers in byte strings: Rust's `to_le_bytes` and `from_le_bytes`.
use scg.Base.Lists.{length, All}
use Prim.Native.Nat.{ℕ, zero, suc, ◌+◌, ◌*◌, ◌/◌, ◌%◌, ◌<◌}
use mathlib.Core.Path.{◌≡◌, refl}
use mathlib.Core.List.{List, [], ◌∷◌}
use mathlib.Core.Logic.{◌↔◌}
use mathlib.Core.Bool.{Bool, true, false, ◌&&◌}
use scg.Base.Tests.{◌==◌}
use native.Mathlib.Omega.{arith}

abbrev pub Bytes : Type 0
Bytes = List ℕ

abbrev pub IsBytes : Bytes → Type 0
IsBytes = All (λ b. b < 256)

-- The `k` low bytes of `n`, the lowest first.
abbrev pub to_le_bytes : ℕ → ℕ → Bytes
to_le_bytes zero n = []
to_le_bytes (suc k) n = n % 256 ∷ to_le_bytes k (n / 256)

abbrev pub from_le_bytes : Bytes → ℕ
from_le_bytes [] = 0
from_le_bytes (b ∷ bs) = b + 256 * from_le_bytes bs

-- How many values `k` bytes have.
abbrev pub byte_span : ℕ → ℕ
byte_span zero = 1
byte_span (suc k) = 256 * byte_span k

pub length-to_le_bytes : (k n : ℕ) → length (to_le_bytes k n) ≡ k
length-to_le_bytes zero n = refl
length-to_le_bytes (suc k) n = omega (arith, length-to_le_bytes k (n / 256))

pub to_le_bytes-IsBytes : (k n : ℕ) → IsBytes (to_le_bytes k n)
to_le_bytes-IsBytes zero n = tt
to_le_bytes-IsBytes (suc k) n = (omega arith, to_le_bytes-IsBytes k (n / 256))

pub from_le_bytes-to_le_bytes : (k n : ℕ) → n < byte_span k → from_le_bytes (to_le_bytes k n) ≡ n
from_le_bytes-to_le_bytes zero n h = omega arith
from_le_bytes-to_le_bytes (suc k) n h =
    omega (arith, from_le_bytes-to_le_bytes k (n / 256) (omega arith))

pub to_le_bytes-from_le_bytes :
    (k : ℕ) (bs : Bytes) → length bs ≡ k → IsBytes bs → to_le_bytes k (from_le_bytes bs) ≡ bs
to_le_bytes-from_le_bytes zero [] e h = refl
to_le_bytes-from_le_bytes zero (b ∷ bs) e h = absurd (omega arith)
to_le_bytes-from_le_bytes (suc k) [] e h = absurd (omega arith)
to_le_bytes-from_le_bytes (suc k) (b ∷ bs) e h =
    ground (arith, to_le_bytes-from_le_bytes k bs (omega arith) h.1)

pub from_le_bytes-lt :
    (k : ℕ) (bs : Bytes) → length bs ≡ k → IsBytes bs → from_le_bytes bs < byte_span k
from_le_bytes-lt zero [] e h = omega arith
from_le_bytes-lt zero (b ∷ bs) e h = absurd (omega arith)
from_le_bytes-lt (suc k) [] e h = absurd (omega arith)
from_le_bytes-lt (suc k) (b ∷ bs) e h = omega (arith, from_le_bytes-lt k bs (omega arith) h.1)

-- `==` on byte slices.
abbrev pub eq_bytes : Bytes → Bytes → Bool
eq_bytes [] [] = true
eq_bytes (x ∷ xs) (y ∷ ys) = x == y && eq_bytes xs ys
eq_bytes _ _ = false

pub eq_bytes_iff : (xs ys : Bytes) → (eq_bytes xs ys ≡ true) ↔ (xs ≡ ys)
eq_bytes_iff (x ∷ xs) (y ∷ ys) = ground (arith, eq_bytes_iff xs ys)
eq_bytes_iff _ _ = ground arith
