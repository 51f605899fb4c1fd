-- ===== src/Ipc/Ring.antt =====
-- crates/scg-ipc/src/shm.rs: one unidirectional byte ring in shared memory. The record is what both
-- sides map; a handle's own field is the capacity `cap`, an argument here. One call runs as one step:
-- the producer writes only `write_idx` and the free cells, the consumer only `read_idx`.
pub mod Window
pub mod Refine
pub mod Bounds
pub mod Queue
use scg.Base.{
  ℕ, ◌+◌, ◌-◌, ◌%◌, ◌^◌, min, Bool, true, false, ◌||◌, Option, none, some, List, [], ◌∷◌, ◌++◌, ltb,
  ◌==◌, if◌then◌else◌, Result, ok, err, length, take, drop,
}
use scg.Base.Bytes.{Bytes}
use scg.Base.Memory.{Memory, write, read}
use scg.Base.Words.{wrapping_add, wrapping_sub}
use scg.Ipc.Frame.{Frame, frame_header_len, encode_header, decode_header}
use scg.Ipc.ShmError.{ShmError, frame_too_large, ring_corrupt}

-- `RingIndices` and the data region.
pub record Ring : Type 0 where
  pub write_idx : ℕ
  pub read_idx : ℕ
  pub notify_word : ℕ
  pub data' : Memory

module _ (cap : ℕ) where
  -- The new memory, and the offset behind what was written.
  unfoldable pub write_wrapping : Memory → ℕ → Bytes → Memory × ℕ
  write_wrapping m off src =
      let n = length src in
      let first = min n (cap - off) in
      let m' = write m off (take first src) in
      if n == 0
      then (m, off)
      else (if ltb first n then write m' 0 (drop first src) else m', (off + n) % cap)

  unfoldable pub try_push : Ring → ℕ → Bytes → Result Bool ShmError × Ring
  try_push r traffic_id payload =
      let total = frame_header_len + length payload in
      let used = wrapping_sub r.write_idx r.read_idx in
      let header = encode_header (length payload % 2 ^ 32) traffic_id in
      let (m, off) = write_wrapping r.data' (r.write_idx % cap) header in
      let (m', _) = write_wrapping m off payload in
      if ltb cap total
      then (err frame_too_large, r)
      else if ltb cap used
      then (err ring_corrupt, r)
      else if ltb (cap - used) total
      then (ok false, r)
      else (ok true, record r { data' = m'; write_idx = wrapping_add r.write_idx total })

  -- What is read, and the offset behind it; `read_wrapping_ptr` reads the same bytes.
  unfoldable pub read_wrapping : Memory → ℕ → ℕ → Bytes × ℕ
  read_wrapping m off n =
      let first = min n (cap - off) in
      if n == 0
      then ([], off)
      else (read m off first ++ (if ltb first n then read m 0 (n - first) else []), (off + n) % cap)

  unfoldable pub is_empty : Ring → Bool
  is_empty r = ltb (wrapping_sub r.write_idx r.read_idx) frame_header_len

  -- `(read_idx, payload_offset, payload_len, traffic_id)`
  unfoldable pub next_frame : Ring → Option (ℕ × ℕ × ℕ × ℕ)
  next_frame r =
      let avail = min (wrapping_sub r.write_idx r.read_idx) cap in
      let (header, next_off) = read_wrapping r.data' (r.read_idx % cap) frame_header_len in
      let (len, traffic_id) = decode_header header in
      if ltb avail frame_header_len
      then none
      else if ltb (cap - frame_header_len) len || ltb avail (frame_header_len + len)
      then none
      else some (r.read_idx, next_off, len, traffic_id)

  unfoldable pub consume_frame : Ring → ℕ → ℕ → Ring
  consume_frame r read_at len = record r {
    read_idx = wrapping_add read_at (frame_header_len + len);
  }

  -- The payload stands beside the id, as `try_pop` returns them.
  unfoldable pub try_pop_into : Ring → Option Frame × Ring
  try_pop_into r = elim (next_frame r) [
    | none ↦ (none, r)
    | some (read_at, next_off, len, traffic_id) ↦
        (some (traffic_id, (read_wrapping r.data' next_off len).0), consume_frame r read_at len)
  ]

  -- `out` is the length of the caller's slice; the bytes copied into it stand beside the id, and
  -- their number is the returned length.
  unfoldable pub try_pop_into_slice : Ring → ℕ → Option Frame × Ring
  try_pop_into_slice r out = elim (next_frame r) [
    | none ↦ (none, r)
    | some (read_at, next_off, len, traffic_id) ↦ (
      some (traffic_id, (read_wrapping r.data' next_off (min len out)).0),
      consume_frame r read_at len,
    )
  ]
