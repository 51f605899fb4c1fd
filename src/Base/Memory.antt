-- ===== src/Base/Memory.antt =====
-- A mapped region of bytes, as a function of the offset, and the copies that the code makes.
use mathlib.Core.List.{[], ◌∷◌, ◌++◌}
use Prim.Native.Nat.{min, ℕ, zero, suc, ◌+◌, ◌≤◌, ◌<◌}
use scg.Base.Tests.{◌==◌, if◌then◌else◌}
use scg.Base.Lists.{length, take, drop}
use scg.Base.Bytes.{Bytes}
use mathlib.Core.Path.{◌≡◌, refl, ap, ap₂, ◌∙◌, sym, fun_ext}
use mathlib.Core.Logic.{◌⊎◌, inl, inr}
use native.Mathlib.Omega.{arith}
use native.Mathlib.Decide.{dec_lt}

abbrev pub Memory : Type 0
Memory = ℕ → ℕ

-- One cell set, the others kept.
abbrev pub update : Memory → ℕ → ℕ → Memory
update m a v = λ x. if x == a then v else m x

-- `copy_nonoverlapping(src, m + at, src.len())`
unfoldable pub write : Memory → ℕ → Bytes → Memory
write m at [] = m
write m at (b ∷ bs) = write (update m at b) (at + 1) bs

-- `copy_nonoverlapping(m + at, dst, n)`: what `dst` receives.
unfoldable pub read : Memory → ℕ → ℕ → Bytes
read m at zero = []
read m at (suc n) = m at ∷ read m (at + 1) n

pub length-read : (m : Memory) (at n : ℕ) → length (read m at n) ≡ n
unfolding read
length-read m at zero = refl
length-read m at (suc n) = ap suc (length-read m (at + 1) n)

-- A write changes no cell outside its range.
pub write_outside :
    (bs : Bytes) (m : Memory) (at x : ℕ) → (x < at) ⊎ (at + length bs ≤ x) → write m at bs x ≡ m x
unfolding write
write_outside [] m at x h = refl
write_outside (b ∷ bs) m at x h = ground (arith, write_outside bs (update m at b) (at + 1) x)

pub read_congr :
    (n : ℕ) (m m' : Memory) (at : ℕ)
    → ((x : ℕ) → at ≤ x → x < at + n → m x ≡ m' x)
    → read m at n ≡ read m' at n
unfolding read
read_congr zero m m' at h = refl
read_congr (suc n) m m' at h =
    ap₂ ◌∷◌ (h at (omega arith) (omega arith))
      (read_congr n m m' (at + 1) (λ x p q. h x (omega arith) (omega arith)))

-- Reading beside a write.
pub read-write_outside :
    (bs : Bytes) (m : Memory) (at x n : ℕ)
    → (x + n ≤ at) ⊎ (at + length bs ≤ x)
    → read (write m at bs) x n ≡ read m x n
read-write_outside bs m at x n h =
    read_congr n (write m at bs) m x (λ y p q. write_outside bs m at y (apart y p q))
  where
    apart : (y : ℕ) → x ≤ y → y < x + n → (y < at) ⊎ (at + length bs ≤ y)
    apart y p q = grind arith

-- Reading back what was written.
pub read-write_self : (bs : Bytes) (m : Memory) (at : ℕ) → read (write m at bs) at (length bs) ≡ bs
unfolding read write
read-write_self [] m at = refl
read-write_self (b ∷ bs) m at =
    ap₂ ◌∷◌ (write_outside bs (update m at b) (at + 1) at (inl (omega arith)) ∙ ground arith)
      (read-write_self bs (update m at b) (at + 1))

pub read-append : (m : Memory) (k at n : ℕ) → read m at (k + n) ≡ read m at k ++ read m (at + k) n
unfolding read
read-append m zero at n = ap₂ (read m) (omega arith) (omega arith)
read-append m (suc k) at n =
    ap (read m at) {y = suc (k + n)} (omega arith)
    ∙ ap (◌∷◌ (m at)) (
        read-append m k (at + 1) n
        ∙ ap (λ (x : ℕ). read m (at + 1) k ++ read m x n) {y = at + suc k} (omega arith))

-- A shorter read is the front of a longer one.
pub read-min : (m : Memory) (n k at : ℕ) → read m at (min n k) ≡ take k (read m at n)
unfolding read
read-min m zero zero at = refl
read-min m zero (suc k) at = ap (read m at) {y = 0} (omega arith)
read-min m (suc n) zero at = ap (read m at) {y = 0} (omega arith)
read-min m (suc n) (suc k) at =
    ap (read m at) {y = suc (min n k)} (omega arith) ∙ ap (◌∷◌ (m at)) (read-min m n k (at + 1))

-- Inside its range a write does not depend on what was there.
pub write_inside :
    (bs : Bytes) (m m' : Memory) (at x : ℕ)
    → at ≤ x
    → x < at + length bs
    → write m at bs x ≡ write m' at bs x
unfolding write
write_inside [] m m' at x lo hi = absurd (omega arith)
write_inside (b ∷ bs) m m' at x lo hi = elim (dec_lt at x) [
  | yes lt ↦ write_inside bs (update m at b) (update m' at b) (at + 1) x (omega arith) (omega arith)
  | no ge ↦ ground (
    arith,
    write_outside bs (update m at b) (at + 1) x (inl (omega arith)),
    write_outside bs (update m' at b) (at + 1) x (inl (omega arith)),
  )
]

-- Two writes side by side commute.
pub write_swap :
    (m : Memory) (at : ℕ) (front back : Bytes)
    → write (write m (at + length front) back) at front
      ≡ write (write m at front) (at + length front) back
write_swap m at front back = fun_ext pointwise
  where
    pointwise :
        (x : ℕ)
        → write (write m (at + length front) back) at front x
          ≡ write (write m at front) (at + length front) back x
    pointwise x = elim (dec_lt x at) [
      | yes lt ↦ ground (
        arith,
        write_outside front (write m (at + length front) back) at x (inl lt),
        write_outside back m (at + length front) x (inl (omega arith)),
        write_outside back (write m at front) (at + length front) x (inl (omega arith)),
        write_outside front m at x (inl lt),
      )
      | no ge ↦ elim (dec_lt x (at + length front)) [
        | yes lt ↦
            write_inside front (write m (at + length front) back) m at x (omega arith) lt
            ∙ sym (write_outside back (write m at front) (at + length front) x (inl lt))
        | no above ↦
            write_outside front (write m (at + length front) back) at x (inr (omega arith))
            ∙ behind (dec_lt x (at + length front + length back)) (omega arith)
      ]
    ]
      where
        behind :
            Dec (x < at + length front + length back)
            → at + length front ≤ x
            → write m (at + length front) back x
              ≡ write (write m at front) (at + length front) back x
        behind (yes lt) lo = write_inside back m (write m at front) (at + length front) x lo lt
        behind (no ge) lo =
            write_outside back m (at + length front) x (inr (omega arith))
            ∙ sym (
                write_outside back (write m at front) (at + length front) x (inr (omega arith))
                ∙ write_outside front m at x (inr lo))

-- The back of a read is a read further on.
pub drop-read : (m : Memory) (k n at : ℕ) → drop k (read m at (k + n)) ≡ read m (at + k) n
unfolding read
drop-read m zero n at = ap₂ (read m) (omega arith) (omega arith)
drop-read m (suc k) n at =
    ap (λ (x : ℕ). drop (suc k) (read m at x)) {y = suc (k + n)} (omega arith)
    ∙ drop-read m k n (at + 1)
    ∙ ap (λ (x : ℕ). read m x n) {y = at + suc k} (omega arith)
