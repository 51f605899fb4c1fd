-- ===== src/Ipc/SlotRing/Hostile.antt =====
-- crates/scg-ipc/src/shm_slot.rs: `try_push` where the peer has written anything into the shared words.
use native.Mathlib.Nat.{mod-lt}
use Prim.Native.Nat.{bit_and}
use scg.Base.{ℕ, ◌+◌, ◌-◌, ◌*◌, ◌%◌, ◌^◌, ◌≤◌, ◌<◌, ◌≡◌, ◌≢◌, ◌↔◌, ◌⊎◌, ◌∙◌, arith, length, err}
use scg.Base.Bits.{pow2, pow2_pos, pow2_mono, bit_and_mask}
use scg.Base.Bytes.{Bytes}
use scg.Base.Memory.{write, write_outside}
use scg.Ipc.Frame.{encode_header}
use scg.Ipc.Frame.Codec.{length-encode_header}
use scg.Ipc.ShmError.{ring_corrupt}
use scg.Ipc.SlotRing.{SlotRing, try_push}

module _ (k seg : ℕ) where
  index_lt : (pos : ℕ) → bit_and pos (pow2 k - 1) < pow2 k
  index_lt pos = rw (bit_and_mask k pos) (mod-lt pos (pow2_pos k))

  -- Whatever the shared words hold, a push writes no byte outside the segment that its position
  -- selects, and that segment lies in the data region, if a segment has at least 8 bytes.
  pub try_push_own_segment :
      (s : SlotRing) (tid : ℕ) (payload : Bytes) (x : ℕ)
      → 8 ≤ seg
      → (x < s.write_pos % pow2 k * seg) ⊎ (s.write_pos % pow2 k * seg + seg ≤ x)
      → ((try_push (pow2 k) seg s tid payload).1.data' x ≡ s.data' x)
        × (s.write_pos % pow2 k * seg + seg ≤ pow2 k * seg)
  unfolding try_push
  try_push_own_segment s tid payload x floor apart =
      (ground (arith, bit_and_mask k s.write_pos, kept), inside (mod-lt s.write_pos (pow2_pos k)))
    where
      base : ℕ
      base = s.write_pos % pow2 k * seg

      inside : s.write_pos % pow2 k < pow2 k → s.write_pos % pow2 k * seg + seg ≤ pow2 k * seg
      inside h = grind arith

      header : Bytes
      header = encode_header (length payload % 2 ^ 32) tid

      kept :
          length payload ≤ seg - 8
          → write (write s.data' base header) (base + 8) payload x ≡ s.data' x
      kept h =
          write_outside payload (write s.data' base header) (base + 8) x (ground arith)
          ∙ write_outside header s.data' base x
              (ground (arith, length-encode_header (length payload % 2 ^ 32) tid))

  -- Exactly when a push reports a broken ring: the payload fits, and the sequence word is neither
  -- the position nor what a full ring has there, both words being `u64` and the capacity 2ᵏ with k
  -- from 1 to 63.
  pub try_push_corrupt_iff :
      (s : SlotRing) (tid : ℕ) (payload : Bytes)
      → 1 ≤ k
      → k < 64
      → s.write_pos < 2 ^ 64
      → s.seq (s.write_pos % pow2 k) < 2 ^ 64
      → ((try_push (pow2 k) seg s tid payload).0 ≡ err ring_corrupt) ↔ (
          (length payload ≤ seg - 8)
          × (s.seq (s.write_pos % pow2 k) ≢ s.write_pos)
          × (s.seq (s.write_pos % pow2 k) ≢ (s.write_pos + 1 + 2 ^ 64 - pow2 k) % 2 ^ 64))
  unfolding try_push
  try_push_corrupt_iff s tid payload pos small w q = (
    ground (arith, bit_and_mask k s.write_pos, pow2_mono 1 k pos, pow2_mono k 63 (omega arith)),
    ground (arith, bit_and_mask k s.write_pos, pow2_mono 1 k pos, pow2_mono k 63 (omega arith)),
  )
