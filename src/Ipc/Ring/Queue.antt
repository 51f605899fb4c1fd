-- ===== src/Ipc/Ring/Queue.antt =====
-- crates/scg-ipc/src/shm.rs: sequences of calls on a byte ring, against a bounded queue of frames.
use scg.Base.{
  sym, subst, ap, inr, ℕ, ◌+◌, ◌%◌, ◌^◌, ◌<◌, ◌≡◌, refl, ap₂, Bool, true, false, Option, none, some,
  List, [], ◌∷◌, ◌++◌, arith, ltb, if◌then◌else◌, Result, ok, err, length, take, All, Bool-cases,
  inl, ltb→lt, ltb→le,
}
use scg.Ipc.Ring.{Memory, Ring, try_push, try_pop_into, try_pop_into_slice}
use scg.Ipc.Frame.{Frame}
use scg.Ipc.Frame.Codec.{wire_all, length-wire}
use scg.Ipc.ShmError.{ShmError, frame_too_large}
use scg.Ipc.Ring.Refine.{
  Holds, IsFrame, try_push_room, try_push_full, try_pop_into-cons, try_pop_into_slice-cons,
  try_pop_into-nil, try_pop_into_slice-nil,
}

-- A call: a push of a frame, a pop into a buffer that grows, or one into a slice of so many bytes.
pub data Call : Type 0 where
  push : Frame → Call
  pop : Call
  pop_slice : ℕ → Call

pub data Answer : Type 0 where
  push_result : Result Bool ShmError → Answer
  popped : Option Frame → Answer

abbrev pub CallFits : Call → Type 0
CallFits (push f) = IsFrame f
CallFits pop = Unit
CallFits (pop_slice out) = Unit

-- What the oldest frame gives to a slice of `out` bytes.
abbrev pub cut_frame : ℕ → Frame → Frame
cut_frame out (tid, payload) = (tid, take out payload)

module _ (cap : ℕ) where
  unfoldable pub ring_call : Call → Ring → Answer × Ring
  ring_call (push f) r = let (a, s) = try_push cap r f.0 f.1 in (push_result a, s)
  ring_call pop r = let (a, s) = try_pop_into cap r in (popped a, s)
  ring_call (pop_slice out) r = let (a, s) = try_pop_into_slice cap r out in (popped a, s)

  unfoldable pub ring_calls : List Call → Ring → List Answer
  unfolding ring_call
  ring_calls [] r = []
  ring_calls (c ∷ cs) r = let (a, s) = ring_call c r in a ∷ ring_calls cs s

  -- The same calls on a queue whose frames, headers included, take at most `cap` bytes.
  unfoldable pub queue_call : Call → List Frame → Answer × List Frame
  queue_call (push f) q =
      if ltb cap (8 + length f.1)
      then (push_result (err frame_too_large), q)
      else if ltb cap (length (wire_all q) + (8 + length f.1))
      then (push_result (ok false), q)
      else (push_result (ok true), q ++ f ∷ [])
  queue_call pop [] = (popped none, [])
  queue_call pop (f ∷ q) = (popped (some f), q)
  queue_call (pop_slice out) [] = (popped none, [])
  queue_call (pop_slice out) (f ∷ q) = (popped (some (cut_frame out f)), q)

  unfoldable pub queue_calls : List Call → List Frame → List Answer
  unfolding queue_call
  queue_calls [] q = []
  queue_calls (c ∷ cs) q = let (a, s) = queue_call c q in a ∷ queue_calls cs s

  -- One call keeps ring and queue together, and both answer the same.
  abbrev Agrees : Call → Ring → List Frame → Type 0
  Agrees c r q =
      ((ring_call c r).0 ≡ (queue_call c q).0) × Holds cap (ring_call c r).1 (queue_call c q).1

  push_too_large :
      (r : Ring) (f : Frame)
      → cap < 8 + length f.1
      → try_push cap r f.0 f.1 ≡ (err frame_too_large, r)
  unfolding try_push
  push_too_large r f h = ground arith

  push-Agrees :
      (f : Frame) (r : Ring) (q : List Frame)
      → 2 ^ 64 % cap ≡ 0
      → IsFrame f
      → Holds cap r q
      → Agrees (push f) r q
  unfolding ring_call queue_call
  push-Agrees f r q divides frame h = elim (Bool-cases (ltb cap (8 + length f.1))) [
    | inl large ↦ rw (queue_call, large, push_too_large r f (ltb→lt _ _ large)) (refl, h)
    | inr small ↦ elim (Bool-cases (ltb cap (length (wire_all q) + (8 + length f.1)))) [
      | inl full ↦
          rw
            (
              queue_call,
              small,
              full,
              try_push_full cap f h (omega (arith, length-wire f, ltb→le _ _ small))
                  (omega (arith, length-wire f, ltb→lt _ _ full)),
            )
            (refl, h)
      | inr free ↦
          let (a, b) =
            try_push_room cap h f frame (omega (arith, length-wire f, ltb→le _ _ free))
              (inl divides) in
          rw (queue_call, small, free) (ap push_result a, b)
    ]
  ]

  call-Agrees :
      (c : Call) (r : Ring) (q : List Frame)
      → 2 ^ 64 % cap ≡ 0
      → CallFits c
      → Holds cap r q
      → Agrees c r q
  unfolding ring_call queue_call
  call-Agrees (push f) r q divides fits h = push-Agrees f r q divides fits h
  call-Agrees pop r [] divides fits h = rw (try_pop_into-nil cap h) (refl, h)
  call-Agrees pop r (f ∷ q) divides fits h =
      let (a, b) = try_pop_into-cons cap h in (ap popped a, b)
  call-Agrees (pop_slice out) r [] divides fits h = rw (try_pop_into_slice-nil cap out h) (refl, h)
  call-Agrees (pop_slice out) r (f ∷ q) divides fits h =
      let (a, e) = try_pop_into_slice-cons cap out h in
      (ap popped a, subst (λ s. Holds cap s q) (sym e) (try_pop_into-cons cap h).1)

  calls-agree :
      (cs : List Call) (r : Ring) (q : List Frame)
      → 2 ^ 64 % cap ≡ 0
      → All CallFits cs
      → Holds cap r q
      → ring_calls cs r ≡ queue_calls cs q
  unfolding ring_calls queue_calls
  calls-agree [] r q divides fits h = refl
  calls-agree (c ∷ cs) r q divides (fit, fits) h =
      let (a, b) = call-Agrees c r q divides fit h in
      ap₂ ◌∷◌ a (calls-agree cs (ring_call c r).1 (queue_call c q).1 divides fits b)

  -- The zeroed control page.
  abbrev pub zeroed : Memory → Ring
  zeroed m = record { write_idx = 0; read_idx = 0; notify_word = 0; data' = m }

  zeroed-Holds : (m : Memory) → 0 < cap → cap < 2 ^ 64 → Holds cap (zeroed m) []
  zeroed-Holds m pos small = record {
    consumed = 0;
    cap_pos = pos;
    cap_u64 = small;
    frames = tt;
    read_count = refl;
    write_count = refl;
    fits = omega arith;
    steady = inr (omega arith);
    bytes = refl;
  }

  -- Every sequence of pushes and pops, of both kinds, on a fresh byte ring gets the answers that a queue
  -- of at most `cap` bytes gives, the refusals and the empty answers included. The capacity is positive
  -- and divides 2 ^ 64, and the ids and the lengths of the frames fit 32 bits.
  pub ring_calls-eq-queue_calls :
      (cs : List Call) (m : Memory)
      → 0 < cap
      → cap < 2 ^ 64
      → 2 ^ 64 % cap ≡ 0
      → All CallFits cs
      → ring_calls cs (zeroed m) ≡ queue_calls cs []
  ring_calls-eq-queue_calls cs m pos small divides fits =
      calls-agree cs (zeroed m) [] divides fits (zeroed-Holds m pos small)
