-- ===== src/Ipc/Ring/Refine.antt =====
-- crates/scg-ipc/src/shm.rs: the byte ring against a bounded queue of frames.
use scg.Base.{
  take-append-drop, length-take, ℕ, ◌+◌, ◌%◌, ◌^◌, ◌≤◌, ◌<◌, ◌≡◌, refl, sym, ap, ap₂, ◌∙◌, ◌⊎◌, inl,
  inr, none, some, List, [], ◌∷◌, ◌++◌, append-nil, arith, length, take, drop, min, All, All-append,
  length-append, ok, true, false, subst,
}
use scg.Ipc.Ring.{
  try_pop_into_slice, Memory, Ring, write_wrapping, read_wrapping, try_push, next_frame,
  consume_frame, try_pop_into,
}
use scg.Ipc.Ring.Window.{
  window_split, window, window-append, window_congr, read_wrapping-window, write_wrapping_outside,
  window-write_wrapping, write_wrapping_end,
}
use scg.Base.Words.{wrapping_add, wrapping_sub_counts, wrapping_sub}
use scg.Ipc.Frame.Codec.{
  wire_all-append, wire, wire_all, length-wire, length-encode_header, decode_header-encode_header,
}
use native.Mathlib.Nat.{mod-eq_of_lt}
use scg.Base.Bytes.{Bytes}
use scg.Base.Bits.{mod-mod_of_multiple}
use scg.Ipc.Frame.{Frame, encode_header}

-- An id and a length that the header can carry.
abbrev pub IsFrame : Frame → Type 0
IsFrame f = (f.0 < 2 ^ 32) × (length f.1 < 2 ^ 32)

-- The counters' wrap-around at 2 ^ 64 does not move the offsets: the capacity divides 2 ^ 64, or that
-- many bytes have not yet gone through.
abbrev pub NoSlip : ℕ → ℕ → Type 0
NoSlip cap count = (2 ^ 64 % cap ≡ 0) ⊎ (count < 2 ^ 64)

module _ (cap : ℕ) where
  -- The ring holds the frames of `q`, oldest first, behind `consumed` bytes.
  pub record Holds (r : Ring) (q : List Frame) : Type 0 where
    pub consumed : ℕ
    pub cap_pos : 0 < cap
    pub cap_u64 : cap < 2 ^ 64
    pub frames : All IsFrame q
    pub read_count : r.read_idx ≡ consumed % 2 ^ 64
    pub write_count : r.write_idx ≡ (consumed + length (wire_all q)) % 2 ^ 64
    pub fits : length (wire_all q) ≤ cap
    pub steady : NoSlip cap (consumed + length (wire_all q))
    pub bytes : window cap r.data' consumed (length (wire_all q)) ≡ wire_all q

  offset : {n : ℕ} (x : ℕ) → 0 < cap → NoSlip cap n → x ≤ n → x % 2 ^ 64 % cap ≡ x % cap
  offset x pos (inr small) h =
      ap (λ (y : ℕ). y % cap) (mod-eq_of_lt {n = x} {m = 2 ^ 64} (omega arith))
  offset x pos (inl divides) h = mod-mod_of_multiple x (2 ^ 64) cap pos divides

  module _ {r : Ring} {q : List Frame} (h : Holds r q) where
    used-eq : wrapping_sub r.write_idx r.read_idx ≡ length (wire_all q)
    used-eq =
        ap₂ wrapping_sub h.write_count h.read_count
        ∙ wrapping_sub_counts h.consumed (length (wire_all q)) (omega (arith, h.fits, h.cap_u64))

    read_offset : r.read_idx % cap ≡ h.consumed % cap
    read_offset =
        ap (λ (x : ℕ). x % cap) h.read_count ∙ offset h.consumed h.cap_pos h.steady (omega arith)

    write_offset : r.write_idx % cap ≡ (h.consumed + length (wire_all q)) % cap
    write_offset =
        ap (λ (x : ℕ). x % cap) h.write_count
        ∙ offset (h.consumed + length (wire_all q)) h.cap_pos h.steady (omega arith)

  -- The memory after both copies of a push at an offset.
  abbrev stored : Memory → ℕ → Frame → Memory
  stored m off (tid, payload) =
      let (m', off') = write_wrapping cap m off (encode_header (length payload) tid) in
      (write_wrapping cap m' off' payload).0

  module _ (m : Memory) (p : ℕ) (f : Frame) (pos : 0 < cap) (small : 8 + length f.1 ≤ cap) where
    header : Bytes
    header = encode_header (length f.1) f.0

    m₁ : Memory
    m₁ = (write_wrapping cap m (p % cap) header).0

    stored-eq : stored m (p % cap) f ≡ (write_wrapping cap m₁ ((p + 8) % cap) f.1).0
    unfolding m₁ header
    stored-eq =
        ap
          (λ (off : ℕ).
            (write_wrapping cap (write_wrapping cap m (p % cap) (encode_header (length f.1) f.0)).0
              off f.1).0)
          (write_wrapping_end cap m p (encode_header (length f.1) f.0) pos
            ∙ ap (λ (n : ℕ). (p + n) % cap) (length-encode_header (length f.1) f.0))

    -- Earlier positions keep their bytes.
    stored_outside :
        (x : ℕ)
        → x < p
        → p + (8 + length f.1) ≤ x + cap
        → stored m (p % cap) f (x % cap) ≡ m (x % cap)
    unfolding m₁ header
    stored_outside x before room =
        ap (λ (g : Memory). g (x % cap)) stored-eq
        ∙ write_wrapping_outside cap m₁ (p + 8) x f.1 pos (omega arith) (omega arith) (omega arith)
        ∙ write_wrapping_outside cap m p x header pos
            (omega (arith, length-encode_header (length f.1) f.0)) before
            (omega (arith, length-encode_header (length f.1) f.0))

    -- The new positions hold the frame.
    window-stored : window cap (stored m (p % cap) f) p (8 + length f.1) ≡ wire f
    unfolding m₁ header
    window-stored =
        ap (λ (g : Memory). window cap g p (8 + length f.1)) stored-eq
        ∙ window-append cap (write_wrapping cap m₁ ((p + 8) % cap) f.1).0 8 p (length f.1)
        ∙ ap₂ ◌++◌
            (window_congr cap (write_wrapping cap m₁ ((p + 8) % cap) f.1).0 m₁ 8 p (λ x a b.
                write_wrapping_outside cap m₁ (p + 8) x f.1 pos (omega arith) b (omega arith))
              ∙ ap (window cap m₁ p) (sym (length-encode_header (length f.1) f.0))
              ∙ window-write_wrapping cap m p header pos
                  (omega (arith, length-encode_header (length f.1) f.0)))
            (window-write_wrapping cap m₁ (p + 8) f.1 pos (omega arith))

  try_push-eq :
      {r : Ring} {q : List Frame} (f : Frame)
      → Holds r q
      → IsFrame f
      → length (wire_all q) + length (wire f) ≤ cap
      → try_push cap r f.0 f.1 ≡ (
        ok true,
        record r {
          data' = stored r.data' (r.write_idx % cap) f;
          write_idx = wrapping_add r.write_idx (8 + length f.1);
        },
      )
  unfolding try_push
  try_push-eq {r} {q} (tid, payload) h frame room =
      ground (arith, used-eq h, length-wire (tid, payload), mod-eq_of_lt frame.1)

  -- Room for a frame, and counters whose wrap-around does not move the offsets: the frame is
  -- appended, and the producer is told so.
  pub try_push_room :
      {r : Ring} {q : List Frame} (h : Holds r q) (f : Frame)
      → IsFrame f
      → length (wire_all q) + length (wire f) ≤ cap
      → NoSlip cap (h.consumed + (length (wire_all q) + length (wire f)))
      → ((try_push cap r f.0 f.1).0 ≡ ok true) × Holds (try_push cap r f.0 f.1).1 (q ++ f ∷ [])
  try_push_room {r} {q} h f frame room steady = rw (try_push-eq f h frame room) (
    refl,
    record {
      consumed = h.consumed;
      cap_pos = h.cap_pos;
      cap_u64 = h.cap_u64;
      frames = All-append IsFrame q (f ∷ []) h.frames (frame, tt);
      read_count = h.read_count;
      write_count = omega (arith, longer, length-wire f, h.write_count);
      fits = rw longer room;
      steady = rw longer steady;
      bytes = held;
    },
  )
    where
      all : wire_all (q ++ f ∷ []) ≡ wire_all q ++ wire f
      all = wire_all-append q (f ∷ []) ∙ ap (◌++◌ (wire_all q)) (append-nil (wire f))

      longer : length (wire_all (q ++ f ∷ [])) ≡ length (wire_all q) + length (wire f)
      longer = ap length all ∙ length-append (wire_all q) (wire f)

      p : ℕ
      p = h.consumed + length (wire_all q)

      small : 8 + length f.1 ≤ cap
      small = omega (arith, length-wire f)

      m : Memory
      m = stored r.data' (p % cap) f

      held :
          window cap
            (stored r.data' (r.write_idx % cap) f)
            h.consumed
            (length (wire_all (q ++ f ∷ [])))
          ≡ wire_all (q ++ f ∷ [])
      held =
          ap
            (λ (off : ℕ).
              window cap (stored r.data' off f) h.consumed (length (wire_all (q ++ f ∷ []))))
            (write_offset h)
          ∙ ap (window cap m h.consumed) {y = length (wire_all q) + (8 + length f.1)}
              (omega (arith, longer, length-wire f))
          ∙ window-append cap m (length (wire_all q)) h.consumed (8 + length f.1)
          ∙ ap₂ ◌++◌
              (window_congr cap m r.data' (length (wire_all q)) h.consumed (λ x a b.
                  stored_outside r.data' p f h.cap_pos small x b (omega (arith, length-wire f)))
                ∙ h.bytes)
              (window-stored r.data' p f h.cap_pos small)
          ∙ sym all

  -- A frame that the ring could hold, but not beside the frames that are in it: the producer is told
  -- so, and the ring is left as it was.
  pub try_push_full :
      {r : Ring} {q : List Frame} (f : Frame)
      → Holds r q
      → length (wire f) ≤ cap
      → cap < length (wire_all q) + length (wire f)
      → try_push cap r f.0 f.1 ≡ (ok false, r)
  unfolding try_push
  try_push_full {r} {q} f h small full = ground (arith, used-eq h, length-wire f, h.fits)

  module _ {r : Ring} (f : Frame) (q : List Frame) (h : Holds r (f ∷ q)) where
    -- What lies in front: the header, the payload, and the frames behind.
    parts :
        (window cap r.data' h.consumed 8 ≡ encode_header (length f.1) f.0)
        × (window cap r.data' (h.consumed + 8) (length f.1) ≡ f.1)
        × (window cap r.data' (h.consumed + (8 + length f.1)) (length (wire_all q)) ≡ wire_all q)
    unfolding encode_header
    parts =
        let (front, back) = window_split cap r.data' h.consumed (wire f) (wire_all q) h.bytes in
        let (hdr, payload) =
          window_split cap r.data' h.consumed (encode_header (length f.1) f.0) f.1 front in
        (
          hdr,
          payload,
          ap (λ (n : ℕ). window cap r.data' (h.consumed + n) (length (wire_all q)))
                (sym (length-wire f))
              ∙ back,
        )

    lengths : length (wire_all (f ∷ q)) ≡ 8 + length f.1 + length (wire_all q)
    lengths = omega (arith, length-append (wire f) (wire_all q), length-wire f)

    header_read :
        read_wrapping cap r.data' (r.read_idx % cap) 8
        ≡ (encode_header (length f.1) f.0, (h.consumed + 8) % cap)
    header_read =
        ap (λ (off : ℕ). read_wrapping cap r.data' off 8) (read_offset h)
        ∙ read_wrapping-window cap r.data' h.consumed 8 h.cap_pos (omega (arith, lengths, h.fits))
        ∙ ap (λ (bs : Bytes). (bs, (h.consumed + 8) % cap)) parts.0

    next_frame-eq : next_frame cap r ≡ some (r.read_idx, (h.consumed + 8) % cap, length f.1, f.0)
    unfolding next_frame
    next_frame-eq = ground (
      arith,
      used-eq h,
      header_read,
      decode_header-encode_header (length f.1) f.0 h.frames.0.1 h.frames.0.0,
      lengths,
      h.fits,
    )

    payload_read : (read_wrapping cap r.data' ((h.consumed + 8) % cap) (length f.1)).0 ≡ f.1
    payload_read =
        ap (λ (t : Bytes × ℕ). t.0)
          (read_wrapping-window cap r.data' (h.consumed + 8) (length f.1) h.cap_pos
            (omega (arith, lengths, h.fits)))
        ∙ parts.1

  -- The oldest frame comes out, whole, and the frames behind it stay.
  pub try_pop_into-cons :
      {r : Ring} {f : Frame} {q : List Frame}
      → Holds r (f ∷ q)
      → ((try_pop_into cap r).0 ≡ some f) × Holds (try_pop_into cap r).1 q
  unfolding try_pop_into consume_frame
  try_pop_into-cons {r} {f} {q} h =
      rw (next_frame-eq f q h, try_pop_into)
        (
          ap (λ (bs : Bytes). some (f.0, bs)) (payload_read f q h),
          record {
            consumed = h.consumed + (8 + length f.1);
            cap_pos = h.cap_pos;
            cap_u64 = h.cap_u64;
            frames = h.frames.1;
            read_count = omega (arith, h.read_count);
            write_count = omega (arith, h.write_count, lengths f q h);
            fits = omega (arith, h.fits, lengths f q h);
            steady = subst (NoSlip cap) (omega (arith, lengths f q h)) h.steady;
            bytes = (parts f q h).2;
          },
        )

  -- Into a slice of `out` bytes comes what fits of the oldest frame, and all of it is consumed.
  pub try_pop_into_slice-cons :
      {r : Ring} {f : Frame} {q : List Frame} (out : ℕ)
      → Holds r (f ∷ q)
      → ((try_pop_into_slice cap r out).0 ≡ some (f.0, take out f.1))
        × ((try_pop_into_slice cap r out).1 ≡ (try_pop_into cap r).1)
  unfolding try_pop_into try_pop_into_slice
  try_pop_into_slice-cons {r} {f} {q} out h =
      rw (next_frame-eq f q h, try_pop_into, try_pop_into_slice)
        (ap (λ (bs : Bytes). some (f.0, bs)) cut, refl)
    where
      cut :
          (read_wrapping cap r.data' ((h.consumed + 8) % cap) (min (length f.1) out)).0
          ≡ take out f.1
      cut =
          ap (λ (t : Bytes × ℕ). t.0)
            (read_wrapping-window cap r.data' (h.consumed + 8) (min (length f.1) out) h.cap_pos
              (omega (arith, lengths f q h, h.fits)))
          ∙ ap (window cap r.data' (h.consumed + 8)) {y = length (take out f.1)}
              (omega (arith, length-take out f.1))
          ∙ (window_split cap r.data' (h.consumed + 8) (take out f.1) (drop out f.1) (
              ap (λ (bs : Bytes). window cap r.data' (h.consumed + 8) (length bs))
                (take-append-drop out f.1)
              ∙ (parts f q h).1
              ∙ sym (take-append-drop out f.1))).0

  -- An empty ring gives nothing, and is left as it was.
  pub try_pop_into-nil : {r : Ring} → Holds r [] → try_pop_into cap r ≡ (none, r)
  unfolding try_pop_into next_frame
  try_pop_into-nil {r} h = ground (arith, used-eq h)

  pub try_pop_into_slice-nil :
      {r : Ring} (out : ℕ) → Holds r [] → try_pop_into_slice cap r out ≡ (none, r)
  unfolding try_pop_into_slice next_frame
  try_pop_into_slice-nil {r} out h = ground (arith, used-eq h)
