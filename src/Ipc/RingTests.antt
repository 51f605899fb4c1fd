-- ===== src/Ipc/RingTests.antt =====
-- The byte ring's theorems at a ring of 64 bytes.
use scg.Base.{List, ltb, if◌then◌else◌, ◌≡◌, refl, [], ◌∷◌, some, none, ok, err, true, false, arith}
use scg.Ipc.Ring.Queue.{
  Call, push, pop, pop_slice, push_result, popped, ring_calls, queue_calls, zeroed,
  ring_calls-eq-queue_calls,
}
use scg.Base.Memory.{Memory}
use scg.Ipc.Frame.{Frame}
use scg.Ipc.ShmError.{frame_too_large}
use scg.Ipc.Ring.{Ring}

-- On a ring of sixteen bytes: a frame, one that does not fit beside it, one that never fits, a pop into
-- a short slice, and a pop of nothing.
abbrev calls : List Call
calls =
    push (3, 104 ∷ 105 ∷ [])
    ∷ push (4, 1 ∷ [])
    ∷ push (5, 1 ∷ 2 ∷ 3 ∷ 4 ∷ 5 ∷ 6 ∷ 7 ∷ 8 ∷ 9 ∷ [])
    ∷ pop_slice 1
    ∷ pop
    ∷ []

ring_calls-eq-queue_calls_example :
    ring_calls 16 calls (zeroed 16 (λ x. 0))
    ≡ push_result (ok true)
      ∷ push_result (ok false)
      ∷ push_result (err frame_too_large)
      ∷ popped (some (3, 104 ∷ []))
      ∷ popped none
      ∷ []
unfolding queue_calls scg.Ipc.Frame.encode_header
ring_calls-eq-queue_calls_example =
    ring_calls-eq-queue_calls 16 calls (λ x. 0) (omega arith) (omega arith) refl
      (
        (omega arith, omega arith),
        ((omega arith, omega arith), ((omega arith, omega arith), (tt, (tt, tt)))),
      )

-- Indices that no honest peer leaves: the reader is ahead of the writer.
abbrev broken : Ring
broken = record { write_idx = 5; read_idx = 900; notify_word = 0; data' = λ x. 255 }

-- The same ring in front of other bytes.
abbrev beyond : Memory
beyond = λ x. if ltb x 64 then 255 else 0
