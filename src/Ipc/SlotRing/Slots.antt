-- ===== src/Ipc/SlotRing/Slots.antt =====
-- crates/scg-ipc/src/shm_slot.rs: the published slots of a ring, one after another.
use scg.Base.{
  subst, ℕ, ◌+◌, ◌*◌, ◌%◌, ◌^◌, ◌≤◌, ◌<◌, ◌≡◌, ◌≢◌, ◌∙◌, ◌⊎◌, inl, inr, List, [], ◌∷◌, ◌++◌, arith,
  length, dec_lt,
}
use scg.Base.Memory.{Memory, update, write, read, read-write_outside}
use scg.Ipc.Frame.{Frame}
use scg.Ipc.Frame.Codec.{wire}

-- Segments of different slots do not overlap.
pub segments_apart :
    (seg i j n k : ℕ)
    → i ≢ j
    → n ≤ seg
    → k ≤ seg
    → (i * seg + n ≤ j * seg) ⊎ (j * seg + k ≤ i * seg)
segments_apart seg i j n k ne hn hk = elim (dec_lt i j) [
  | yes lt ↦ inl (grind arith)
  | no ge ↦ inr (grind arith)
]

module _ (cap seg : ℕ) where
  -- The slot of position `p` is published, and holds the frame.
  pub record Published (seq : ℕ → ℕ) (m : Memory) (p : ℕ) (f : Frame) : Type 0 where
    pub ready : seq (p % cap) ≡ (p + 1) % 2 ^ 64
    pub bytes : read m (p % cap * seg) (8 + length f.1) ≡ wire f
    pub small : 8 + length f.1 ≤ seg

  -- The frames of `q` are published from position `p` on.
  abbrev pub AllPublished : (ℕ → ℕ) → Memory → ℕ → List Frame → Type 0
  AllPublished seq m p [] = Unit
  AllPublished seq m p (f ∷ q) = Published seq m p f × AllPublished seq m (p + 1) q

  -- What another ring must share with this one at a position to hold the same there.
  abbrev pub SameSlot : (ℕ → ℕ) → Memory → (ℕ → ℕ) → Memory → ℕ → Type 0
  SameSlot seq m seq' m' p =
      (seq' (p % cap) ≡ seq (p % cap))
      × ((n : ℕ) → n ≤ seg → read m' (p % cap * seg) n ≡ read m (p % cap * seg) n)

  pub AllPublished-congr :
      (q : List Frame) (seq : ℕ → ℕ) (m : Memory) (seq' : ℕ → ℕ) (m' : Memory) (p : ℕ)
      → ((x : ℕ) → p ≤ x → x < p + length q → SameSlot seq m seq' m' x)
      → AllPublished seq m p q
      → AllPublished seq' m' p q
  AllPublished-congr [] seq m seq' m' p same h = tt
  AllPublished-congr (f ∷ q) seq m seq' m' p same h = (
    record {
      ready = (same p (omega arith) (omega arith)).0 ∙ h.0.ready;
      bytes = (same p (omega arith) (omega arith)).1 (8 + length f.1) h.0.small ∙ h.0.bytes;
      small = h.0.small;
    },
    AllPublished-congr q seq m seq' m' (p + 1) (λ x a b. same x (omega arith) (omega arith)) h.1,
  )

  pub AllPublished-concat :
      (q : List Frame) (seq : ℕ → ℕ) (m : Memory) (p : ℕ) (f : Frame)
      → AllPublished seq m p q
      → Published seq m (p + length q) f
      → AllPublished seq m p (q ++ f ∷ [])
  AllPublished-concat [] seq m p f h last =
      (subst (λ (x : ℕ). Published seq m x f) {y = p} (omega arith) last, tt)
  AllPublished-concat (g ∷ q) seq m p f h last = (
    h.0,
    AllPublished-concat q seq m (p + 1) f h.1
        (subst (λ (x : ℕ). Published seq m x f) {y = p + 1 + length q} (omega arith) last),
  )

  -- A write to the slot of another position, within a lap, keeps the slot.
  pub SameSlot-update :
      (seq : ℕ → ℕ) (m : Memory) (p w v : ℕ) (bs : List ℕ) (off : ℕ)
      → p % cap ≢ w % cap
      → w % cap * seg ≤ off
      → off + length bs ≤ w % cap * seg + seg
      → SameSlot seq m (update seq (w % cap) v) (write m off bs) p
  SameSlot-update seq m p w v bs off ne lo hi = (
    ground arith,
    λ n h.
        read-write_outside bs m off (p % cap * seg) n
          (beside n h (segments_apart seg (p % cap) (w % cap) n seg ne h (omega arith))),
  )
    where
      beside :
          (n : ℕ)
          → n ≤ seg
          → (p % cap * seg + n ≤ w % cap * seg) ⊎ (w % cap * seg + seg ≤ p % cap * seg)
          → (p % cap * seg + n ≤ off) ⊎ (off + length bs ≤ p % cap * seg)
      beside n h (inl a) = inl (omega arith)
      beside n h (inr b) = inr (omega arith)
