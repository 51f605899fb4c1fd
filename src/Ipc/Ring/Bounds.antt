-- ===== src/Ipc/Ring/Bounds.antt =====
-- crates/scg-ipc/src/shm.rs: the ring's calls where the peer has written anything into the shared indices
-- and the region.
use scg.Base.{
  ap, ◌∙◌, sym, inr, inl, ◌^◌, Option-cases, dec_le, ◌%◌, ℕ, ◌+◌, ◌≤◌, ◌<◌, ◌≡◌, arith, err, some,
  length, ◌↔◌,
}
use scg.Ipc.Ring.Window.{write_wrapping_end_lt, write_wrapping_beyond, read_wrapping_within}
use scg.Base.Bytes.{Bytes}
use scg.Base.Memory.{Memory}
use scg.Base.Words.{wrapping_sub}
use scg.Ipc.Frame.{encode_header}
use scg.Ipc.Frame.Codec.{length-encode_header}
use scg.Ipc.ShmError.{frame_too_large, ring_corrupt}
use scg.Ipc.Ring.{Ring, try_push, try_pop_into, next_frame, write_wrapping, read_wrapping}
use native.Mathlib.Nat.{mod-lt}

-- Whatever the indices hold, a push writes no byte behind the capacity.
pub try_push_within :
    (cap : ℕ) (r : Ring) (tid : ℕ) (payload : Bytes) (x : ℕ)
    → cap ≤ x
    → (try_push cap r tid payload).1.data' x ≡ r.data' x
unfolding try_push
try_push_within cap r tid payload x beyond = ground (arith, first, second)
  where
    hdr : Bytes
    hdr = encode_header (length payload % 2 ^ 32) tid

    m : Memory
    m = (write_wrapping cap r.data' (r.write_idx % cap) hdr).0

    off : ℕ
    off = (write_wrapping cap r.data' (r.write_idx % cap) hdr).1

    first : 8 + length payload ≤ cap → m x ≡ r.data' x
    first h =
        write_wrapping_beyond cap r.data' (r.write_idx % cap) x hdr
          (mod-lt r.write_idx (omega arith))
          (omega (arith, length-encode_header (length payload % 2 ^ 32) tid)) beyond

    second : 8 + length payload ≤ cap → (write_wrapping cap m off payload).0 x ≡ m x
    second h =
        write_wrapping_beyond cap m off x payload
          (write_wrapping_end_lt cap r.data' r.write_idx hdr (omega arith)) (omega arith) beyond

-- The frame that a pop takes lies in the ring, whatever its header says.
next_frame_inside :
    (cap : ℕ) (r : Ring) {at off len tid : ℕ}
    → 0 < cap
    → next_frame cap r ≡ some (at, off, len, tid)
    → (off < cap) × (8 + len ≤ cap)
unfolding next_frame read_wrapping
next_frame_inside cap r pos e = ground (arith, mod-lt (r.read_idx % cap + 8) pos)

-- The prologue reads the header from inside the ring.
next_frame_within :
    (cap : ℕ) (r : Ring) (m : Memory)
    → 0 < cap
    → ((x : ℕ) → x < cap → r.data' x ≡ m x)
    → next_frame cap r ≡ next_frame cap (record r { data' = m })
unfolding next_frame
next_frame_within cap r m pos same = elim (dec_le 8 cap) [
  | yes h ↦ ground (
    arith,
    read_wrapping_within cap r.data' m (r.read_idx % cap) 8 (mod-lt r.read_idx pos) h same,
  )
  | no h ↦ ground arith
]

-- Whatever the indices hold, what a pop returns depends on no byte behind the capacity, if the
-- capacity is positive.
pub try_pop_into_within :
    (cap : ℕ) (r : Ring) (m : Memory)
    → 0 < cap
    → ((x : ℕ) → x < cap → r.data' x ≡ m x)
    → (try_pop_into cap r).0 ≡ (try_pop_into cap (record r { data' = m })).0
unfolding try_pop_into
try_pop_into_within cap r m pos same = elim (Option-cases (next_frame cap r)) [
  | inl e ↦ rw (e, sym (next_frame_within cap r m pos same) ∙ e, try_pop_into)
  | inr ((at, off, len, tid), e) ↦
      rw (e, sym (next_frame_within cap r m pos same) ∙ e, try_pop_into)
        (ap (λ (t : Bytes × ℕ). some (tid, t.0))
          (read_wrapping_within cap r.data' m off len (next_frame_inside cap r pos e).0
            (omega (arith, next_frame_inside cap r pos e)) same))
]

-- A push is refused as too large exactly when the frame can never fit, and as corrupt exactly when it
-- could fit and the indices are more than a lap apart; then the ring is left as it was.
pub try_push_refusals :
    (cap : ℕ) (r : Ring) (tid : ℕ) (payload : Bytes)
    → (((try_push cap r tid payload).0 ≡ err frame_too_large) ↔ (cap < 8 + length payload))
      × (((try_push cap r tid payload).0 ≡ err ring_corrupt)
          ↔ ((8 + length payload ≤ cap) × (cap < wrapping_sub r.write_idx r.read_idx)))
unfolding try_push
try_push_refusals cap r tid payload =
    ((λ h. ground arith, λ h. ground arith), (λ h. (ground arith, ground arith), λ h. ground arith))
