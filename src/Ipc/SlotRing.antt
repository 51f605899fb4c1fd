-- ===== src/Ipc/SlotRing.antt =====
-- crates/scg-ipc/src/shm_slot.rs: the fixed-slot ring (Vyukov). The record is what both sides map; a
-- handle's own fields are the capacity and the segment size, arguments here. One call runs as one
-- step. A cast between `u64` and `i64` keeps the bits, so two differences are compared as `u64`.
pub mod Slots
pub mod Refine
pub mod InPlace
pub mod Hostile
pub mod Queue
use Prim.Native.Nat.{bit_and}
use scg.Base.{
  ℕ, ◌+◌, ◌-◌, ◌*◌, ◌%◌, ◌^◌, min, Bool, true, false, not, Option, none, some, List, [], ◌∷◌, ltb,
  ◌==◌, if◌then◌else◌, Result, ok, err, length,
}
use scg.Base.Bytes.{Bytes}
use scg.Base.Memory.{Memory, update, write, read}
use scg.Base.Words.{wrapping_add, wrapping_sub}
use scg.Ipc.Frame.{Frame, frame_header_len, encode_header, decode_header}
use scg.Ipc.ShmError.{ShmError, frame_too_large, ring_corrupt}

-- The words of `SlotRingHeader` that change, the sequence array and the segment array.
pub record SlotRing : Type 0 where
  pub write_pos : ℕ
  pub read_pos : ℕ
  pub futex_word : ℕ
  pub seq : ℕ → ℕ
  pub data' : Memory

pub data PushOutcome : Type 0 where
  full : PushOutcome
  pushed : Bool → PushOutcome

-- `seq[i] = i` for each slot; the array has no entry behind the capacity.
unfoldable pub init_ring_control : Memory → SlotRing
init_ring_control m = record {
  write_pos = 0;
  read_pos = 0;
  futex_word = 0;
  seq = λ i. i;
  data' = m;
}

-- A slot that `reserve` handed out: its index, its position, and where its segment begins.
pub record ReservedSlot : Type 0 where
  pub idx : ℕ
  pub pos : ℕ
  pub seg : ℕ

module _ (capacity segment_size : ℕ) where
  abbrev pub mask : ℕ
  mask = capacity - 1

  unfoldable pub max_payload : ℕ
  max_payload = segment_size - frame_header_len

  -- `1 - self.capacity as i64`, as the bits of the difference
  abbrev pub full_diff : ℕ
  full_diff = (1 + 2 ^ 64 - capacity) % 2 ^ 64

  -- The last step of `try_push` and of `commit`.
  abbrev pub publish : SlotRing → ℕ → ℕ → Memory → SlotRing
  publish s idx pos m = record s {
    data' = m;
    seq = update s.seq idx (wrapping_add pos 1);
    write_pos = wrapping_add pos 1;
  }

  unfoldable pub try_push : SlotRing → ℕ → Bytes → Result PushOutcome ShmError × SlotRing
  unfolding max_payload
  try_push s traffic_id payload =
      let pos = s.write_pos in
      let idx = bit_and pos mask in
      let diff = wrapping_sub (s.seq idx) pos in
      let was_empty = s.read_pos == pos in
      let seg = idx * segment_size in
      let header = encode_header (length payload % 2 ^ 32) traffic_id in
      let m = write (write s.data' seg header) (seg + frame_header_len) payload in
      if ltb max_payload (length payload)
      then (err frame_too_large, s)
      else if diff == 0
      then (ok (pushed was_empty), publish s idx pos m)
      else if diff == full_diff
      then (ok full, s)
      else (err ring_corrupt, s)

  unfoldable pub reserve : SlotRing → Result (Option ReservedSlot) ShmError
  reserve s =
      let pos = s.write_pos in
      let idx = bit_and pos mask in
      let diff = wrapping_sub (s.seq idx) pos in
      if diff == 0
      then ok (some (record { idx = idx; pos = pos; seg = idx * segment_size }))
      else if diff == full_diff
      then ok none
      else err ring_corrupt

  -- The caller writes into the slice that `payload_mut` lends.
  unfoldable pub payload_mut : SlotRing → ReservedSlot → Bytes → SlotRing
  payload_mut s slot bytes = record s { data' = write s.data' (slot.seg + frame_header_len) bytes }

  unfoldable pub commit : SlotRing → ReservedSlot → ℕ → ℕ → Result PushOutcome ShmError × SlotRing
  unfolding max_payload
  commit s slot traffic_id len =
      let was_empty = s.read_pos == slot.pos in
      let header = encode_header (len % 2 ^ 32) traffic_id in
      if ltb max_payload len
      then (err frame_too_large, s)
      else (ok (pushed was_empty), publish s slot.idx slot.pos (write s.data' slot.seg header))

  -- No READY slot at `read_pos`.
  unfoldable pub is_empty : SlotRing → Bool
  is_empty s =
      let pos = s.read_pos in
      let seq' = s.seq (bit_and pos mask) in not (wrapping_sub seq' (wrapping_add pos 1) == 0)

  -- `(read_pos, slot_idx, slot_ptr, payload_len, traffic_id)`
  unfoldable pub next_ready : SlotRing → Option (ℕ × ℕ × ℕ × ℕ × ℕ)
  unfolding max_payload
  next_ready s =
      let pos = s.read_pos in
      let idx = bit_and pos mask in
      let seg = idx * segment_size in
      let (len, traffic_id) = decode_header (read s.data' seg frame_header_len) in
      if not (wrapping_sub (s.seq idx) (wrapping_add pos 1) == 0)
      then none
      else some (pos, idx, seg, min len max_payload, traffic_id)

  unfoldable pub release_slot : SlotRing → ℕ → ℕ → SlotRing
  release_slot s pos idx = record s {
    seq = update s.seq idx (wrapping_add pos capacity);
    read_pos = wrapping_add pos 1;
  }

  -- The payload stands beside the id, as `try_pop` returns them.
  unfoldable pub try_pop_into : SlotRing → Option Frame × SlotRing
  unfolding release_slot
  try_pop_into s = elim (next_ready s) [
    | none ↦ (none, s)
    | some (pos, idx, seg, len, traffic_id) ↦
        (some (traffic_id, read s.data' (seg + frame_header_len) len), release_slot s pos idx)
  ]

  -- `out` is the length of the caller's slice.
  unfoldable pub try_pop_into_slice : SlotRing → ℕ → Option Frame × SlotRing
  unfolding release_slot
  try_pop_into_slice s out = elim (next_ready s) [
    | none ↦ (none, s)
    | some (pos, idx, seg, len, traffic_id) ↦ (
      some (traffic_id, read s.data' (seg + frame_header_len) (min len out)),
      release_slot s pos idx,
    )
  ]

  -- The whole frame as it lies in the slot.
  unfoldable pub peek_frame : SlotRing → Option Bytes
  peek_frame s = elim (next_ready s) [
    | none ↦ none
    | some (pos, idx, seg, len, traffic_id) ↦ some (read s.data' seg (frame_header_len + len))
  ]

  -- A release build does nothing where no slot is READY.
  unfoldable pub advance : SlotRing → SlotRing
  unfolding release_slot
  advance s =
      let pos = s.read_pos in
      let idx = bit_and pos mask in
      if not (wrapping_sub (s.seq idx) (wrapping_add pos 1) == 0) then s else release_slot s pos idx
