-- ===== src/Ipc/SlotRing/InPlace.antt =====
-- crates/scg-ipc/src/shm_slot.rs: the in-place calls `reserve`, `payload_mut`, `commit`, `peek_frame` and
-- `advance` against `try_push` and `try_pop_into`.
use scg.Ipc.Frame.{frame_header_len, decode_header, Frame, encode_header}
use scg.Base.Memory.{read, write, write_swap, drop-read}
use scg.Base.{
  min, sym, ◌^◌, ◌%◌, ◌*◌, ℕ, ◌+◌, ◌-◌, ◌≤◌, ◌≡◌, arith, length, drop, ok, err, some, none,
}
use scg.Ipc.SlotRing.{
  max_payload, bit_and, SlotRing, try_push, reserve, commit, payload_mut, full, peek_frame, advance,
  try_pop_into, next_ready,
}
use scg.Base.Bits.{pow2}
use scg.Base.Bytes.{Bytes}
use scg.Ipc.Frame.Codec.{length-encode_header}
use mathlib.Core.Option

module _ (k seg : ℕ) where
  -- For a payload that the slot can carry, the three calls leave the same ring and give the same answer.
  pub reserve-commit :
      (s : SlotRing) (tid : ℕ) (payload : Bytes)
      → length payload ≤ seg - 8
      → elim (reserve (pow2 k) seg s) [
        | err e ↦ (err e, s)
        | ok none ↦ (ok full, s)
        | ok (some slot) ↦
            commit (pow2 k) seg (payload_mut (pow2 k) seg s slot payload) slot tid (length payload)
      ]
        ≡ try_push (pow2 k) seg s tid payload
  unfolding try_push reserve commit payload_mut
  reserve-commit s tid payload fits =
      ground (arith, write_at 8 (sym (length-encode_header (length payload % 2 ^ 32) tid)))
    where
      base : ℕ
      base = bit_and s.write_pos (pow2 k - 1) * seg

      header : Bytes
      header = encode_header (length payload % 2 ^ 32) tid

      write_at :
          (n : ℕ)
          → n ≡ length header
          → write (write s.data' (base + n) payload) base header
            ≡ write (write s.data' base header) (base + n) payload
      write_at n e = rw e (write_swap s.data' base header payload)

  -- A peek shows the header and the payload of the frame that a pop takes, and moves nothing.
  pub peek_frame-advance :
      (s : SlotRing)
      → (Option.map (drop 8) (peek_frame (pow2 k) seg s)
          ≡ Option.map (λ (f : Frame). f.1) (try_pop_into (pow2 k) seg s).0)
        × (advance (pow2 k) seg s ≡ (try_pop_into (pow2 k) seg s).1)
  unfolding peek_frame advance try_pop_into next_ready max_payload
  peek_frame-advance s = (
    ground (
      arith,
      drop-read s.data' 8
          (min
            (decode_header
              (read s.data' (bit_and s.read_pos (pow2 k - 1) * seg) frame_header_len)).0
            (seg - 8))
          (bit_and s.read_pos (pow2 k - 1) * seg),
    ),
    ground arith,
  )
