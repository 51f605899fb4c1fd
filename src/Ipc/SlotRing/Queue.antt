-- ===== src/Ipc/SlotRing/Queue.antt =====
-- crates/scg-ipc/src/shm_slot.rs: sequences of calls on a slot ring, against a bounded queue of frames.
use scg.Ipc.SlotRing.{
  max_payload, SlotRing, PushOutcome, full, pushed, init_ring_control, try_push, try_pop_into,
  try_pop_into_slice, is_empty,
}
use scg.Base.{
  ℕ, ◌-◌, ◌^◌, ◌<◌, ◌≤◌, ◌≡◌, refl, ap, ap₂, Bool, Option, none, some, List, [], ◌∷◌, ◌++◌, arith,
  ltb, ◌==◌, if◌then◌else◌, Result, ok, err, length, take, All, Bool-cases, inl, inr, ltb→lt,
  ltb→le,
}
use scg.Base.Memory.{Memory}
use scg.Base.Bits.{pow2}
use scg.Ipc.Frame.{Frame}
use scg.Ipc.ShmError.{ShmError, frame_too_large}
use scg.Ipc.SlotRing.Refine.{
  Holds, FitsSlot, is_nil, init-Holds, try_push_free, try_push_all_taken, try_pop_into_oldest,
  try_pop_into_slice_oldest, try_pop_into_drained, try_pop_into_slice_drained, is_empty-Holds,
}

-- A call: a push of a frame, a pop into a buffer that grows, one into a slice of so many bytes, or the
-- question whether the ring is empty.
pub data Call : Type 0 where
  push : Frame → Call
  pop : Call
  pop_slice : ℕ → Call
  ask_empty : Call

pub data Answer : Type 0 where
  push_result : Result PushOutcome ShmError → Answer
  popped : Option Frame → Answer
  emptiness : Bool → Answer

-- What the header can carry.
abbrev pub CallFits : Call → Type 0
CallFits (push f) = (f.0 < 2 ^ 32) × (length f.1 < 2 ^ 32)
CallFits _ = Unit

-- What the oldest frame gives to a slice of `out` bytes.
abbrev pub cut_frame : ℕ → Frame → Frame
cut_frame out (tid, payload) = (tid, take out payload)

module _ (capacity seg : ℕ) where
  unfoldable pub slot_call : Call → SlotRing → Answer × SlotRing
  slot_call (push f) r = let (a, s) = try_push capacity seg r f.0 f.1 in (push_result a, s)
  slot_call pop r = let (a, s) = try_pop_into capacity seg r in (popped a, s)
  slot_call (pop_slice out) r = let (a, s) = try_pop_into_slice capacity seg r out in (popped a, s)
  slot_call ask_empty r = (emptiness (is_empty capacity seg r), r)

  unfoldable pub slot_calls : List Call → SlotRing → List Answer
  unfolding slot_call
  slot_calls [] r = []
  slot_calls (c ∷ cs) r = let (a, s) = slot_call c r in a ∷ slot_calls cs s

  -- The same calls on a queue of at most `capacity` frames.
  unfoldable pub queue_call : Call → List Frame → Answer × List Frame
  queue_call (push f) q =
      if ltb (seg - 8) (length f.1)
      then (push_result (err frame_too_large), q)
      else if length q == capacity
      then (push_result (ok full), q)
      else (push_result (ok (pushed (is_nil q))), q ++ f ∷ [])
  queue_call pop [] = (popped none, [])
  queue_call pop (f ∷ q) = (popped (some f), q)
  queue_call (pop_slice out) [] = (popped none, [])
  queue_call (pop_slice out) (f ∷ q) = (popped (some (cut_frame out f)), q)
  queue_call ask_empty q = (emptiness (is_nil q), q)

  unfoldable pub queue_calls : List Call → List Frame → List Answer
  unfolding queue_call
  queue_calls [] q = []
  queue_calls (c ∷ cs) q = let (a, s) = queue_call c q in a ∷ queue_calls cs s

  push_too_large :
      (r : SlotRing) (f : Frame)
      → seg - 8 < length f.1
      → try_push capacity seg r f.0 f.1 ≡ (err frame_too_large, r)
  unfolding try_push max_payload
  push_too_large r f h = ground arith

module _ (k seg : ℕ) where
  -- One call keeps ring and queue together, and both answer the same.
  abbrev Agrees : Call → SlotRing → List Frame → Type 0
  Agrees c r q =
      ((slot_call (pow2 k) seg c r).0 ≡ (queue_call (pow2 k) seg c q).0)
      × Holds k seg (slot_call (pow2 k) seg c r).1 (queue_call (pow2 k) seg c q).1

  push-Agrees :
      (f : Frame) (r : SlotRing) (q : List Frame)
      → 8 ≤ seg
      → CallFits (push f)
      → Holds k seg r q
      → Agrees (push f) r q
  unfolding slot_call queue_call
  push-Agrees f r q wide fits h = elim (Bool-cases (ltb (seg - 8) (length f.1))) [
    | inl large ↦
        rw (queue_call, large, push_too_large (pow2 k) seg r f (ltb→lt _ _ large)) (refl, h)
    | inr small ↦
        let slot : FitsSlot seg f = record {
          tid_u32 = fits.0;
          len_u32 = fits.1;
          small = omega (arith, ltb→le _ _ small);
        } in
        elim (Bool-cases (length q == pow2 k)) [
          | inl all ↦
              rw (queue_call, small, all, try_push_all_taken k seg h f slot (ground (arith, all)))
                (refl, h)
          | inr free ↦
              let (a, b) = try_push_free k seg h f slot (ground (arith, free, h.room)) in
              rw (queue_call, small, free) (ap push_result a, b)
        ]
  ]

  call-Agrees :
      (c : Call) (r : SlotRing) (q : List Frame)
      → 8 ≤ seg
      → CallFits c
      → Holds k seg r q
      → Agrees c r q
  unfolding slot_call queue_call
  call-Agrees (push f) r q wide fits h = push-Agrees f r q wide fits h
  call-Agrees pop r [] wide fits h = rw ((try_pop_into_drained k seg h).0) (refl, h)
  call-Agrees pop r (f ∷ q) wide fits h =
      let (a, b) = try_pop_into_oldest k seg h in (ap popped a, b)
  call-Agrees (pop_slice out) r [] wide fits h =
      rw (try_pop_into_slice_drained k seg h out) (refl, h)
  call-Agrees (pop_slice out) r (f ∷ q) wide fits h =
      let (a, b) = try_pop_into_slice_oldest k seg h out in (ap popped a, b)
  call-Agrees ask_empty r q wide fits h = (ap emptiness (is_empty-Holds k seg h), h)

  calls-agree :
      (cs : List Call) (r : SlotRing) (q : List Frame)
      → 8 ≤ seg
      → All CallFits cs
      → Holds k seg r q
      → slot_calls (pow2 k) seg cs r ≡ queue_calls (pow2 k) seg cs q
  unfolding slot_calls queue_calls
  calls-agree [] r q wide fits h = refl
  calls-agree (c ∷ cs) r q wide (fit, fits) h =
      let (a, b) = call-Agrees c r q wide fit h in
      ap₂ ◌∷◌ a
        (calls-agree cs (slot_call (pow2 k) seg c r).1 (queue_call (pow2 k) seg c q).1 wide fits b)

  -- Every sequence of pushes, pops of both kinds and questions whether it is empty, on a fresh slot ring
  -- of 2 to the k slots, k from 1 to 63, gets the answers that a queue of at most that many frames gives,
  -- the refusals and the empty answers included, though the positions wrap at 2 ^ 64. A slot has at
  -- least 8 bytes, and the ids and the lengths of the frames fit 32 bits.
  pub slot_calls-eq-queue_calls :
      (cs : List Call) (m : Memory)
      → 1 ≤ k
      → k < 64
      → 8 ≤ seg
      → All CallFits cs
      → slot_calls (pow2 k) seg cs (init_ring_control m) ≡ queue_calls (pow2 k) seg cs []
  slot_calls-eq-queue_calls cs m pos small wide fits =
      calls-agree cs (init_ring_control m) [] wide fits (init-Holds k seg m pos small)
