-- ===== src/Base/Bits.antt =====
-- The laws of `&`, `|` and `^` on numbers that the code relies on.
use Prim.Native.Nat.{
  ℕ, zero, suc, ◌+◌, ◌-◌, ◌*◌, ◌/◌, ◌%◌, ◌≤◌, ◌<◌, min, max, bit_and, bit_or, bit_xor, digits,
  differ, bit_and-bitwise, bit_or-bitwise, bit_xor-bitwise,
}
use mathlib.Core.Path.{◌≡◌, refl, sym, ap, ◌∙◌}
use native.Mathlib.Nat.{div-eq_of_lt-le, div-add-mod, mod-lt, mod-eq_of_lt}
use native.Mathlib.Omega.{arith}
use native.Mathlib.Decide.{dec_lt}
use mathlib.Core.Logic.{◌≢◌}

-- 2ᵏ, by doubling.
abbrev pub pow2 : ℕ → ℕ
pow2 zero = 1
pow2 (suc k) = 2 * pow2 k

pub pow2_pos : (k : ℕ) → 0 < pow2 k
pow2_pos zero = omega arith
pow2_pos (suc k) = omega (arith, pow2_pos k)

pub mod_unique : (q r m : ℕ) → r < m → (q * m + r) % m ≡ r
mod_unique q r m h = omega (
  arith,
  div-eq_of_lt-le {k = q} m {m = q * m + r} (omega arith) (omega arith),
  ap (λ (t : ℕ). m * t) (div-eq_of_lt-le {k = q} m {m = q * m + r} (omega arith) (omega arith)),
  div-add-mod (q * m + r) m,
)

-- A remainder by a multiple of the modulus changes nothing.
pub mod-mod_of_multiple : (x m k : ℕ) → 0 < k → m % k ≡ 0 → x % m % k ≡ x % k
mod-mod_of_multiple x m k pos divides = sym (
    ap (λ (y : ℕ). y % k) whole
    ∙ mod_unique (x / m * (m / k) + x % m / k) (x % m % k) k (mod-lt (x % m) pos))
  where
    parts : k * (m / k) ≡ m
    parts = omega (arith, div-add-mod m k)

    whole : x ≡ (x / m * (m / k) + x % m / k) * k + x % m % k
    whole = omega (arith, div-add-mod x m, div-add-mod (x % m) k, ap (λ (t : ℕ). x / m * t) parts)

mod-double : (a p : ℕ) → 0 < p → a % (2 * p) ≡ a / 2 % p * 2 + a % 2
mod-double a p h =
    ap (λ (t : ℕ). t % (2 * p)) whole
    ∙ mod_unique (a / 2 / p) (a / 2 % p * 2 + a % 2) (2 * p) (omega arith)
  where
    whole : a ≡ a / 2 / p * (2 * p) + (a / 2 % p * 2 + a % 2)
    whole = omega (arith, div-add-mod (a / 2) p)

masked : (n k a : ℕ) → a ≤ n → digits (λ b. zero) min n a (pow2 k - 1) ≡ a % pow2 k
masked zero k zero h = omega (arith, pow2_pos k)
masked zero k (suc a) h = absurd (omega arith)
masked (suc n) k zero h = omega (arith, pow2_pos k)
masked (suc n) zero (suc a) h = omega (arith, masked n zero (suc a / 2) (omega arith))
masked (suc n) (suc k) (suc a) h = rw half (
    omega (
      arith,
      pow2_pos k,
      masked n k (suc a / 2) (omega arith),
      mod-double (suc a) (pow2 k) (pow2_pos k),
    ))
  where
    half : (2 * pow2 k - 1) / 2 ≡ pow2 k - 1
    half = omega (arith, pow2_pos k)

-- `x & (2ᵏ - 1)` is the remainder by 2ᵏ.
pub bit_and_mask : (k x : ℕ) → bit_and x (pow2 k - 1) ≡ x % pow2 k
bit_and_mask k x = bit_and-bitwise x (pow2 k - 1) ∙ masked x k x (omega arith)

or_zero : (n a b : ℕ) → a ≤ n → digits (λ b. b) max n a b ≡ 0 → (a ≡ 0) × (b ≡ 0)
or_zero zero zero b h e = (refl, e)
or_zero zero (suc a) b h e = absurd (omega arith)
or_zero (suc n) zero b h e = (refl, e)
or_zero (suc n) (suc a) b h e =
    absurd (omega (arith, or_zero n (suc a / 2) (b / 2) (omega arith) (omega arith)))

pub bit_or-eq-zero : (a b : ℕ) → bit_or a b ≡ 0 → (a ≡ 0) × (b ≡ 0)
bit_or-eq-zero a b e = or_zero a a b (omega arith) (sym (bit_or-bitwise a b) ∙ e)

differ-eq-zero : (x y : ℕ) → differ x y ≡ 0 → x ≡ y
differ-eq-zero zero y e = sym e
differ-eq-zero (suc x) zero e = e
differ-eq-zero (suc x) (suc y) e = ap suc (differ-eq-zero x y e)

differ_self : (x : ℕ) → differ x x ≡ 0
differ_self zero = refl
differ_self (suc x) = differ_self x

xor_zero : (n a b : ℕ) → a ≤ n → digits (λ b. b) differ n a b ≡ 0 → a ≡ b
xor_zero zero zero b h e = sym e
xor_zero zero (suc a) b h e = absurd (omega arith)
xor_zero (suc n) zero b h e = sym e
xor_zero (suc n) (suc a) b h e = omega (
  arith,
  xor_zero n (suc a / 2) (b / 2) (omega arith) (omega arith),
  differ-eq-zero (suc a % 2) (b % 2) (omega arith),
)

xor_self : (n a : ℕ) → a ≤ n → digits (λ b. b) differ n a a ≡ 0
xor_self zero zero h = refl
xor_self zero (suc a) h = absurd (omega arith)
xor_self (suc n) zero h = refl
xor_self (suc n) (suc a) h =
    omega (arith, xor_self n (suc a / 2) (omega arith), differ_self (suc a % 2))

pub bit_xor-eq-zero : (a b : ℕ) → bit_xor a b ≡ 0 → a ≡ b
bit_xor-eq-zero a b e = xor_zero a a b (omega arith) (sym (bit_xor-bitwise a b) ∙ e)

pub bit_xor_self : (a : ℕ) → bit_xor a a ≡ 0
bit_xor_self a = bit_xor-bitwise a a ∙ xor_self a a (omega arith)

pow2_split : (d k : ℕ) → pow2 (d + k) ≡ pow2 d * pow2 k
pow2_split zero k = ap pow2 {y = k} (omega arith) ∙ omega arith
pow2_split (suc d) k = ap pow2 {y = suc (d + k)} (omega arith) ∙ omega (arith, pow2_split d k)

-- A smaller power of two divides a larger one.
pub pow2_divides : (k n : ℕ) → k ≤ n → pow2 n % pow2 k ≡ 0
pow2_divides k n h =
    ap (λ (x : ℕ). x % pow2 k)
      (ap pow2 {y = n - k + k} (omega arith) ∙ pow2_split (n - k) k ∙ omega arith)
    ∙ mod_unique (pow2 (n - k)) 0 (pow2 k) (pow2_pos k)

lap_lt : (m a b : ℕ) → a < b → a * m + m ≤ b * m
lap_lt m a b h = grind arith

-- Two numbers less than a modulus apart have different remainders.
pub mod-ne_of_near : (m p q : ℕ) → p < q → q < p + m → p % m ≢ q % m
mod-ne_of_near m p q lt near e = elim (dec_lt (p / m) (q / m)) [
  | yes h ↦ omega (arith, div-add-mod p m, div-add-mod q m, lap_lt m (p / m) (q / m) h)
  | no h ↦ elim (dec_lt (q / m) (p / m)) [
    | yes g ↦ omega (arith, div-add-mod p m, div-add-mod q m, lap_lt m (q / m) (p / m) g)
    | no g ↦ omega (arith, div-add-mod p m, div-add-mod q m, ap (λ (t : ℕ). m * t) (same h g))
  ]
]
  where
    same : ¬ (p / m < q / m) → ¬ (q / m < p / m) → p / m ≡ q / m
    same h g = omega arith

pub pow2_mono : (k n : ℕ) → k ≤ n → pow2 k ≤ pow2 n
pow2_mono zero n h = pow2_pos n
pow2_mono (suc k) zero h = absurd (omega arith)
pow2_mono (suc k) (suc n) h = omega (arith, pow2_mono k n (omega arith))

-- `x & (2ʷ⁺ˢ - 2ˢ)` clears the low s bits.
keep_high :
    (n w s a : ℕ)
    → a ≤ n
    → a < pow2 (w + s)
    → digits (λ b. zero) min n a (pow2 (w + s) - pow2 s) ≡ a - a % pow2 s
keep_high n w zero a h lt = omega (
  arith,
  ap (λ (k : ℕ). digits (λ b. zero) min n a (pow2 k - 1)) {x = w + zero} {y = w} (omega arith),
  masked n w a h,
  ap pow2 {x = w + zero} {y = w} (omega arith),
  mod-eq_of_lt {n = a} {m = pow2 w} (omega (arith, ap pow2 {x = w + zero} {y = w} (omega arith))),
)
keep_high zero w (suc s) zero h lt = omega arith
keep_high zero w (suc s) (suc a) h lt = absurd (omega arith)
keep_high (suc n) w (suc s) zero h lt = omega arith
keep_high (suc n) w (suc s) (suc a) h lt = rw half (
    omega (
      arith,
      pow2_pos s,
      wider,
      keep_high n w s (suc a / 2) (omega arith) (omega (arith, wider)),
      mod-double (suc a) (pow2 s) (pow2_pos s),
    ))
  where
    wider : pow2 (w + suc s) ≡ 2 * pow2 (w + s)
    wider = ap pow2 {y = suc (w + s)} (omega arith)

    half : (pow2 (w + suc s) - 2 * pow2 s) / 2 ≡ pow2 (w + s) - pow2 s
    half = omega (arith, wider)

-- `x & (2ʷ⁺ˢ - 2ˢ)` clears the low s bits of a number of w + s bits.
pub bit_and_high :
    (w s x : ℕ) → x < pow2 (w + s) → bit_and x (pow2 (w + s) - pow2 s) ≡ x - x % pow2 s
bit_and_high w s x h = bit_and-bitwise x (pow2 (w + s) - pow2 s) ∙ keep_high x w s x (omega arith) h
