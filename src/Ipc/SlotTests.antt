-- ===== src/Ipc/SlotTests.antt =====
-- The slot ring's theorems at a ring of two slots of 64 bytes.
use scg.Base.{
  List, false, ◌+◌, ◌-◌, ◌*◌, ◌%◌, ◌^◌, ◌≤◌, ◌≡◌, ◌≢◌, ◌↔◌, inl, [], ◌∷◌, some, none, ok, err, true,
  arith,
}
use scg.Ipc.ShmError.{frame_too_large, ring_corrupt}
use scg.Ipc.SlotRing.Queue.{
  Call, push, pop, pop_slice, ask_empty, push_result, popped, emptiness, slot_calls, queue_calls,
  slot_calls-eq-queue_calls,
}
use scg.Base.Bytes.{Bytes}
use scg.Ipc.SlotRing.{SlotRing, init_ring_control, try_push, full, pushed}
use scg.Ipc.SlotRing.Hostile.{try_push_own_segment, try_push_corrupt_iff}

abbrev fresh : SlotRing
fresh = init_ring_control (λ x. 0)

abbrev hi : Bytes
hi = 104 ∷ 105 ∷ []

abbrev one : SlotRing
one = (try_push 2 64 fresh 3 hi).1

abbrev two : SlotRing
two = (try_push 2 64 one 3 hi).1

-- On a ring of two slots: two frames, one that finds it full, one that never fits, pops until it is
-- empty, and the question whether it is.
abbrev calls : List Call
calls =
    push (3, hi)
    ∷ push (4, hi)
    ∷ push (5, hi)
    ∷ push (6, 1 ∷ 2 ∷ 3 ∷ [])
    ∷ pop_slice 1
    ∷ pop
    ∷ pop
    ∷ ask_empty
    ∷ []

slot_calls-eq-queue_calls_example :
    slot_calls 2 10 calls fresh
    ≡ push_result (ok (pushed true))
      ∷ push_result (ok (pushed false))
      ∷ push_result (ok full)
      ∷ push_result (err frame_too_large)
      ∷ popped (some (3, 104 ∷ []))
      ∷ popped (some (4, hi))
      ∷ popped none
      ∷ emptiness true
      ∷ []
unfolding queue_calls
slot_calls-eq-queue_calls_example =
    slot_calls-eq-queue_calls 1 10 calls (λ x. 0) (omega arith) (omega arith) (omega arith)
      (
        (omega arith, omega arith),
        (
          (omega arith, omega arith),
          ((omega arith, omega arith), ((omega arith, omega arith), (tt, (tt, (tt, (tt, tt)))))),
        ),
      )

-- A peer that has written over the sequence words and the position.
abbrev broken : SlotRing
broken = record { write_pos = 7; read_pos = 3; futex_word = 0; seq = λ i. 99; data' = λ x. 0 }

try_push_own_segment_example :
    ((try_push 2 64 broken 3 hi).1.data' 63 ≡ 0) × (7 % 2 * 64 + 64 ≤ 2 * 64)
try_push_own_segment_example =
    try_push_own_segment 1 64 broken 3 hi 63 (omega arith) (inl (omega arith))

try_push_corrupt_iff_example :
    ((try_push 2 64 broken 3 hi).0 ≡ err ring_corrupt)
    ↔ ((2 ≤ 56) × (broken.seq 1 ≢ 7) × (broken.seq 1 ≢ (7 + 1 + 2 ^ 64 - 2) % 2 ^ 64))
try_push_corrupt_iff_example =
    try_push_corrupt_iff 1 64 broken 3 hi (omega arith) (omega arith) (omega arith) (omega arith)
