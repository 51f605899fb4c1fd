-- ===== src/Ipc/Ring/Window.antt =====
-- crates/scg-ipc/src/shm.rs: the bytes at absolute positions of a ring, and the two wrapping copies.
use scg.Base.{
  subst, append_injective, ℕ, zero, suc, ◌+◌, ◌-◌, ◌*◌, ◌/◌, ◌%◌, ◌≤◌, ◌<◌, ◌≡◌, refl, sym, ap, ap₂,
  ◌∙◌, ◌⊎◌, inl, inr, [], ◌∷◌, ◌++◌, arith, length, take, drop, min, length-append, length-take,
  length-drop, take-append-drop, append-nil, take_all, dec_lt, dec_le,
}
use scg.Base.Bytes.{Bytes}
use scg.Base.Bits.{mod_unique}
use scg.Base.Memory.{
  Memory, write, read, write_outside, read-write_outside, read-write_self, read_congr,
}
use scg.Ipc.Ring.{write_wrapping, read_wrapping}
use native.Mathlib.Nat.{div-add-mod, mod-lt, mod-add-mod, mod-eq_of_lt}

module _ (cap : ℕ) where
  -- The `n` bytes from position `p` on.
  abbrev pub window : Memory → ℕ → ℕ → Bytes
  window m p zero = []
  window m p (suc n) = m (p % cap) ∷ window m (p + 1) n

  pub length-window : (m : Memory) (p n : ℕ) → length (window m p n) ≡ n
  length-window m p zero = refl
  length-window m p (suc n) = ap suc (length-window m (p + 1) n)

  pub window-append :
      (m : Memory) (k p n : ℕ) → window m p (k + n) ≡ window m p k ++ window m (p + k) n
  window-append m zero p n = ap₂ (window m) (omega arith) (omega arith)
  window-append m (suc k) p n =
      ap (window m p) {y = suc (k + n)} (omega arith)
      ∙ ap (◌∷◌ (m (p % cap))) (
          window-append m k (p + 1) n
          ∙ ap (λ (x : ℕ). window m (p + 1) k ++ window m x n) {y = p + suc k} (omega arith))

  -- A window that is known as a whole is known in its parts.
  pub window_split :
      (m : Memory) (p : ℕ) (front back : Bytes)
      → window m p (length (front ++ back)) ≡ front ++ back
      → (window m p (length front) ≡ front) × (window m (p + length front) (length back) ≡ back)
  window_split m p front back e =
      append_injective (window m p (length front)) (window m (p + length front) (length back)) front
        back (length-window m p (length front))
        (sym (window-append m (length front) p (length back))
          ∙ ap (window m p) (sym (length-append front back))
          ∙ e)

  pub window_congr :
      (m m' : Memory) (n p : ℕ)
      → ((x : ℕ) → p ≤ x → x < p + n → m (x % cap) ≡ m' (x % cap))
      → window m p n ≡ window m' p n
  window_congr m m' zero p h = refl
  window_congr m m' (suc n) p h =
      ap₂ ◌∷◌ (h p (omega arith) (omega arith))
        (window_congr m m' n (p + 1) (λ x a b. h x (omega arith) (omega arith)))

  -- On one lap the window is a plain read.
  window-read :
      (m : Memory) (c n p off : ℕ) → p ≡ c * cap + off → off + n ≤ cap → window m p n ≡ read m off n
  unfolding read
  window-read m c zero p off e h = refl
  window-read m c (suc n) p off e h =
      ap₂ ◌∷◌ (ap m (ap (λ (x : ℕ). x % cap) e ∙ mod_unique c off cap (omega arith)))
        (window-read m c n (p + 1) (off + 1) (omega arith) (omega arith))

  lap : (p : ℕ) → p ≡ p / cap * cap + p % cap
  lap p = omega (arith, div-add-mod p cap)

  -- The window that goes round the end is read in two pieces.
  window-wrap :
      (m : Memory) (p n : ℕ)
      → 0 < cap
      → n ≤ cap
      → cap - p % cap < n
      → window m p n ≡ read m (p % cap) (cap - p % cap) ++ read m 0 (n - (cap - p % cap))
  window-wrap m p n pos fits wraps =
      ap (window m p) {y = (cap - p % cap) + (n - (cap - p % cap))} (omega arith)
      ∙ window-append m (cap - p % cap) p (n - (cap - p % cap))
      ∙ ap₂ ◌++◌
          (window-read m (p / cap) (cap - p % cap) p (p % cap) (lap p)
            (omega (arith, mod-lt p pos)))
          (window-read m (p / cap + 1) (n - (cap - p % cap)) (p + (cap - p % cap)) 0
            (omega (arith, lap p, mod-lt p pos)) (omega arith))

  -- `read_wrapping` at the offset of `p` reads the window from `p`, and ends at the offset behind it.
  pub read_wrapping-window :
      (m : Memory) (p n : ℕ)
      → 0 < cap
      → n ≤ cap
      → read_wrapping cap m (p % cap) n ≡ (window m p n, (p + n) % cap)
  unfolding read_wrapping
  read_wrapping-window m p zero pos fits = ap (λ (x : ℕ). ([], x % cap)) (omega arith)
  read_wrapping-window m p (suc k) pos fits = elim (dec_lt (cap - p % cap) (suc k)) [
    | yes wraps ↦ ground (arith, window-wrap m p (suc k) pos fits wraps, mod-add-mod p cap (suc k))
    | no flat ↦ ground (
      arith,
      window-read m (p / cap) (suc k) p (p % cap) (lap p) (omega (arith, mod-lt p pos)),
      append-nil (read m (p % cap) (suc k)),
      mod-add-mod p cap (suc k),
    )
  ]

  -- The copy in one piece, and in two.
  write_flat :
      (m : Memory) (off : ℕ) (src : Bytes)
      → length src ≤ cap - off
      → (write_wrapping cap m off src).0 ≡ write m off src
  unfolding write_wrapping write
  write_flat m off [] h = refl
  write_flat m off (b ∷ bs) h = ground (arith, take_all (suc (length bs)) (b ∷ bs))

  write_split :
      (m : Memory) (off : ℕ) (src : Bytes)
      → cap - off < length src
      → (write_wrapping cap m off src).0
        ≡ write (write m off (take (cap - off) src)) 0 (drop (cap - off) src)
  unfolding write_wrapping
  write_split m off src h = ground arith

  write_end :
      (m : Memory) (off : ℕ) (src : Bytes)
      → off < cap
      → (write_wrapping cap m off src).1 ≡ (off + length src) % cap
  unfolding write_wrapping
  write_end m off src h = ground (arith, mod-eq_of_lt h)

  lap_lt : (a b : ℕ) → a < b → a * cap + cap ≤ b * cap
  lap_lt a b h = grind arith

  lap_le : (a b : ℕ) → a ≤ b → a * cap ≤ b * cap
  lap_le a b h = grind arith

  -- A cell of an earlier position, less than a lap back, lies outside both pieces.
  apart_flat :
      (c d off y n : ℕ)
      → d * cap + y < c * cap + off
      → c * cap + off + n ≤ d * cap + y + cap
      → (y < off) ⊎ (off + n ≤ y)
  apart_flat c d off y n before room = elim (dec_lt y off) [
    | yes h ↦ inl h
    | no h ↦ inr (elim (dec_lt d c) [
      | yes lt ↦ omega (arith, lap_lt d c lt)
      | no ge ↦ absurd (omega (arith, lap_le c d (omega arith)))
    ])
  ]

  apart_wrapped :
      (c d off y n : ℕ)
      → y < cap
      → off ≤ cap
      → d * cap + y < c * cap + off
      → c * cap + off + n ≤ d * cap + y + cap
      → n - (cap - off) ≤ y
  apart_wrapped c d off y n small h before room = elim (dec_le d c) [
    | yes le ↦ omega (arith, lap_le d c le)
    | no gt ↦ absurd (omega (arith, lap_lt c d (omega arith)))
  ]

  -- A wrapping copy writes no cell but those of the positions from `p` on.
  pub write_wrapping_outside :
      (m : Memory) (p x : ℕ) (src : Bytes)
      → 0 < cap
      → length src ≤ cap
      → x < p
      → p + length src ≤ x + cap
      → (write_wrapping cap m (p % cap) src).0 (x % cap) ≡ m (x % cap)
  write_wrapping_outside m p x src pos fits before room =
      elim (dec_lt (cap - p % cap) (length src)) [
        | yes split ↦
            ap (λ (f : Memory). f (x % cap)) (write_split m (p % cap) src split)
            ∙ write_outside (drop (cap - p % cap) src)
                (write m (p % cap) (take (cap - p % cap) src)) 0 (x % cap)
                (inr (
                  omega (
                    arith,
                    length-drop (cap - p % cap) src,
                    apart_wrapped (p / cap) (x / cap) (p % cap) (x % cap) (length src)
                        (mod-lt x pos) (omega (arith, mod-lt p pos)) (omega (arith, lap p, lap x))
                        (omega (arith, lap p, lap x)),
                  )))
            ∙ write_outside (take (cap - p % cap) src) m (p % cap) (x % cap) (
                apart_flat (p / cap) (x / cap) (p % cap) (x % cap)
                  (length (take (cap - p % cap) src)) (omega (arith, lap p, lap x))
                  (omega (arith, lap p, lap x, length-take (cap - p % cap) src)))
        | no flat ↦
            ap (λ (f : Memory). f (x % cap)) (write_flat m (p % cap) src (omega arith))
            ∙ write_outside src m (p % cap) (x % cap) (
                apart_flat (p / cap) (x / cap) (p % cap) (x % cap) (length src)
                  (omega (arith, lap p, lap x)) (omega (arith, lap p, lap x)))
      ]

  -- What was copied at the offset of `p` is the window from `p`.
  pub window-write_wrapping :
      (m : Memory) (p : ℕ) (src : Bytes)
      → 0 < cap
      → length src ≤ cap
      → window (write_wrapping cap m (p % cap) src).0 p (length src) ≡ src
  window-write_wrapping m p src pos fits = elim (dec_lt (cap - p % cap) (length src)) [
    | yes split ↦
        ap (λ (f : Memory). window f p (length src)) (write_split m (p % cap) src split)
        ∙ window-wrap
            (write (write m (p % cap) (take (cap - p % cap) src)) 0 (drop (cap - p % cap) src)) p
            (length src) pos fits split
        ∙ ap₂ ◌++◌ (front split) (back split)
        ∙ take-append-drop (cap - p % cap) src
    | no flat ↦
        ap (λ (f : Memory). window f p (length src)) (write_flat m (p % cap) src (omega arith))
        ∙ window-read (write m (p % cap) src) (p / cap) (length src) p (p % cap) (lap p)
            (omega (arith, mod-lt p pos))
        ∙ read-write_self src m (p % cap)
  ]
    where
      first : ℕ
      first = cap - p % cap

      m' : Memory
      m' = write m (p % cap) (take first src)

      front :
          first < length src → read (write m' 0 (drop first src)) (p % cap) first ≡ take first src
      front split =
          read-write_outside (drop first src) m' 0 (p % cap) first
            (inr (omega (arith, length-drop first src, mod-lt p pos)))
          ∙ ap (read m' (p % cap)) {y = length (take first src)}
              (omega (arith, length-take first src))
          ∙ read-write_self (take first src) m (p % cap)

      back :
          first < length src
          → read (write m' 0 (drop first src)) 0 (length src - first) ≡ drop first src
      back split =
          ap (read (write m' 0 (drop first src)) 0) {y = length (drop first src)}
            (omega (arith, length-drop first src))
          ∙ read-write_self (drop first src) m' 0

  -- The copy ends at the offset behind what was written.
  pub write_wrapping_end :
      (m : Memory) (p : ℕ) (src : Bytes)
      → 0 < cap
      → (write_wrapping cap m (p % cap) src).1 ≡ (p + length src) % cap
  write_wrapping_end m p src pos =
      write_end m (p % cap) src (mod-lt p pos) ∙ mod-add-mod p cap (length src)

  -- No cell behind the capacity is written, wherever in the ring the copy starts.
  pub write_wrapping_beyond :
      (m : Memory) (off x : ℕ) (src : Bytes)
      → off < cap
      → length src ≤ cap
      → cap ≤ x
      → (write_wrapping cap m off src).0 x ≡ m x
  write_wrapping_beyond m off x src inside fits beyond = elim (dec_lt (cap - off) (length src)) [
    | yes split ↦
        ap (λ (f : Memory). f x) (write_split m off src split)
        ∙ write_outside (drop (cap - off) src) (write m off (take (cap - off) src)) 0 x
            (inr (omega (arith, length-drop (cap - off) src)))
        ∙ write_outside (take (cap - off) src) m off x
            (inr (omega (arith, length-take (cap - off) src)))
    | no flat ↦
        ap (λ (f : Memory). f x) (write_flat m off src (omega arith))
        ∙ write_outside src m off x (inr (omega arith))
  ]

  -- What is read depends on the cells before the capacity alone.
  pub read_wrapping_within :
      (m m' : Memory) (off n : ℕ)
      → off < cap
      → n ≤ cap
      → ((x : ℕ) → x < cap → m x ≡ m' x)
      → read_wrapping cap m off n ≡ read_wrapping cap m' off n
  unfolding read_wrapping
  read_wrapping_within m m' off n inside fits same = ground (
    arith,
    read_congr (min n (cap - off)) m m' off (λ x a b. same x (omega arith)),
    read_congr (n - min n (cap - off)) m m' 0 (λ x a b. same x (omega arith)),
  )

  pub write_wrapping_end_lt :
      (m : Memory) (p : ℕ) (src : Bytes) → 0 < cap → (write_wrapping cap m (p % cap) src).1 < cap
  write_wrapping_end_lt m p src pos =
      subst (λ (x : ℕ). x < cap) (sym (write_wrapping_end m p src pos))
        (mod-lt (p + length src) pos)
