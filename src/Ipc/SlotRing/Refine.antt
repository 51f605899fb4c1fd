-- ===== src/Ipc/SlotRing/Refine.antt =====
-- crates/scg-ipc/src/shm_slot.rs: the slot ring against a queue of frames. The capacity is 2ᵏ, with k
-- from 1 to 63; the positions run past 2 ^ 64.
use scg.Base.Memory.{
  read-min, length-read, Memory, update, write, read, read-append, read-write_self,
  read-write_outside,
}
use Prim.Native.Nat.{min, bit_and}
use scg.Base.{
  ◌/◌, take, dec_lt, append_injective, All-append, inl, ap₂, All, ℕ, ◌+◌, ◌-◌, ◌*◌, ◌%◌, ◌^◌, ◌≤◌,
  ◌<◌, ◌≡◌, ◌≢◌, refl, sym, ap, ◌∙◌, none, some, List, [], ◌∷◌, ◌++◌, arith, length, length-append,
  ok, true, false, ◌==◌, Bool,
}
use scg.Base.Bits.{
  mod_unique, pow2_mono, pow2, pow2_pos, pow2_divides, bit_and_mask, mod-mod_of_multiple,
  mod-ne_of_near,
}
use native.Mathlib.Nat.{div-add-mod, mod-eq_of_lt}
use scg.Ipc.SlotRing.{
  Bytes, is_empty, try_pop_into_slice, release_slot, SlotRing, full, pushed, try_push, next_ready,
  try_pop_into, init_ring_control,
}
use scg.Base.Words.{wrapping_add}
use scg.Ipc.Frame.{Frame, encode_header}
use scg.Ipc.Frame.Codec.{wire, length-encode_header, decode_header-encode_header}
use scg.Ipc.SlotRing.Slots.{
  AllPublished, AllPublished-congr, AllPublished-concat, SameSlot, SameSlot-update,
}

-- A frame that a slot of `seg` bytes can carry.
pub record FitsSlot (seg : ℕ) (f : Frame) : Type 0 where
  pub tid_u32 : f.0 < 2 ^ 32
  pub len_u32 : length f.1 < 2 ^ 32
  pub small : 8 + length f.1 ≤ seg

abbrev pub is_nil : List Frame → Bool
is_nil [] = true
is_nil (f ∷ q) = false

module _ (k seg : ℕ) where
  abbrev pub cap : ℕ
  cap = pow2 k

  -- The ring holds the frames of `q`, oldest first, after `consumed` others.
  pub record Holds (s : SlotRing) (q : List Frame) : Type 0 where
    pub consumed : ℕ
    pub k_pos : 1 ≤ k
    pub k_u64 : k < 64
    pub read_count : s.read_pos ≡ consumed % 2 ^ 64
    pub write_count : s.write_pos ≡ (consumed + length q) % 2 ^ 64
    pub room : length q ≤ pow2 k
    pub fit : All (FitsSlot seg) q
    pub published : AllPublished (pow2 k) seg s.seq s.data' consumed q
    pub free :
        (p : ℕ) → consumed + length q ≤ p → p < consumed + pow2 k → s.seq (p % pow2 k) ≡ p % 2 ^ 64

  -- The masked position of a counter.
  masked : (x : ℕ) → k < 64 → bit_and (x % 2 ^ 64) (pow2 k - 1) ≡ x % pow2 k
  masked x h =
      bit_and_mask k (x % 2 ^ 64)
      ∙ mod-mod_of_multiple x (2 ^ 64) (pow2 k) (pow2_pos k) (pow2_divides k 64 (omega arith))

  module _ {s : SlotRing} {q : List Frame} (h : Holds s q) where
    cap_range : (2 ≤ pow2 k) × (pow2 k ≤ 2 ^ 63)
    cap_range = (pow2_mono 1 k h.k_pos, pow2_mono k 63 (omega (arith, h.k_u64)))

    write_index : bit_and s.write_pos (pow2 k - 1) ≡ (h.consumed + length q) % pow2 k
    write_index =
        ap (λ (x : ℕ). bit_and x (pow2 k - 1)) h.write_count
        ∙ masked (h.consumed + length q) h.k_u64

    read_index : bit_and s.read_pos (pow2 k - 1) ≡ h.consumed % pow2 k
    read_index = ap (λ (x : ℕ). bit_and x (pow2 k - 1)) h.read_count ∙ masked h.consumed h.k_u64

  -- A fresh ring is empty.
  pub init-Holds : (m : Memory) → 1 ≤ k → k < 64 → Holds (init_ring_control m) []
  unfolding init_ring_control
  init-Holds m pos small = record {
    consumed = 0;
    k_pos = pos;
    k_u64 = small;
    read_count = refl;
    write_count = refl;
    room = omega arith;
    fit = tt;
    published = tt;
    free = λ p a b.
        mod-eq_of_lt {n = p} (omega arith)
        ∙ sym (mod-eq_of_lt {n = p} {m = 2 ^ 64} (omega (arith, pow2_mono k 63 (omega arith))));
  }

  -- The memory after a push at position `p`.
  abbrev stored : Memory → ℕ → Frame → Memory
  stored m p (tid, payload) =
      write (write m (p % pow2 k * seg) (encode_header (length payload) tid)) (p % pow2 k * seg + 8)
        payload

  stored_bytes :
      (m : Memory) (p : ℕ) (f : Frame)
      → read (stored m p f) (p % pow2 k * seg) (8 + length f.1) ≡ wire f
  stored_bytes m p f =
      read-append (stored m p f) 8 (p % pow2 k * seg) (length f.1)
      ∙ ap₂ ◌++◌
          (read-write_outside f.1 m' (p % pow2 k * seg + 8) (p % pow2 k * seg) 8 (inl (omega arith))
            ∙ ap (read m' (p % pow2 k * seg)) (sym (length-encode_header (length f.1) f.0))
            ∙ read-write_self (encode_header (length f.1) f.0) m (p % pow2 k * seg))
          (read-write_self f.1 m' (p % pow2 k * seg + 8))
    where
      m' : Memory
      m' = write m (p % pow2 k * seg) (encode_header (length f.1) f.0)

  stored_beside :
      (seq : ℕ → ℕ) (m : Memory) (p w v : ℕ) (f : Frame)
      → p % pow2 k ≢ w % pow2 k
      → 8 + length f.1 ≤ seg
      → SameSlot (pow2 k) seg seq m (update seq (w % pow2 k) v) (stored m w f) p
  stored_beside seq m p w v f ne small = (
    ground arith,
    λ n h.
        (SameSlot-update (pow2 k) seg seq m' p w v f.1 (w % pow2 k * seg + 8) ne (omega arith)
            (omega arith)).1
          n h
        ∙ (SameSlot-update (pow2 k) seg seq m p w v (encode_header (length f.1) f.0)
              (w % pow2 k * seg) ne (omega arith)
              (omega (arith, length-encode_header (length f.1) f.0))).1
            n h,
  )
    where
      m' : Memory
      m' = write m (w % pow2 k * seg) (encode_header (length f.1) f.0)

  try_push-eq :
      {s : SlotRing} {q : List Frame} (h : Holds s q) (f : Frame)
      → FitsSlot seg f
      → length q < pow2 k
      → try_push (pow2 k) seg s f.0 f.1 ≡ (
        ok (pushed (s.read_pos == s.write_pos)),
        record s {
          data' = stored s.data' (h.consumed + length q) f;
          seq = update s.seq ((h.consumed + length q) % pow2 k) (wrapping_add s.write_pos 1);
          write_pos = wrapping_add s.write_pos 1;
        },
      )
  unfolding try_push
  try_push-eq {s} {q} h f fits room = ground (
    arith,
    write_index h,
    h.free (h.consumed + length q) (omega arith) (omega arith),
    h.write_count,
    mod-eq_of_lt fits.len_u32,
    fits.small,
  )

  was_empty :
      {s : SlotRing} {q : List Frame} (h : Holds s q) → (s.read_pos == s.write_pos) ≡ is_nil q
  was_empty {q = []} h = ground (arith, h.read_count, h.write_count)
  was_empty {s = s} {q = f ∷ q} h = ground (arith, apart)
    where
      apart : s.read_pos ≢ s.write_pos
      apart = omega (arith, h.read_count, h.write_count, h.room, cap_range h)

  -- The ring after a push, with the frame's slot published and the others as they were.
  pushed_slots :
      {s : SlotRing} {q : List Frame} (h : Holds s q) (f : Frame)
      → FitsSlot seg f
      → length q < pow2 k
      → AllPublished
          (pow2 k)
          seg
          (update s.seq ((h.consumed + length q) % pow2 k) (wrapping_add s.write_pos 1))
          (stored s.data' (h.consumed + length q) f)
          h.consumed
          (q ++ f ∷ [])
  pushed_slots {s} {q} h f fits room =
      AllPublished-concat (pow2 k) seg q seq' m' h.consumed f
        (AllPublished-congr (pow2 k) seg q s.seq s.data' seq' m' h.consumed same h.published)
        (record {
          ready = ground (arith, h.write_count);
          bytes = stored_bytes s.data' w f;
          small = fits.small;
        })
    where
      w : ℕ
      w = h.consumed + length q

      seq' : ℕ → ℕ
      seq' = update s.seq (w % pow2 k) (wrapping_add s.write_pos 1)

      m' : Memory
      m' = stored s.data' w f

      same :
          (x : ℕ)
          → h.consumed ≤ x
          → x < h.consumed + length q
          → SameSlot (pow2 k) seg s.seq s.data' seq' m' x
      same x a b =
          stored_beside s.seq s.data' x w (wrapping_add s.write_pos 1) f
            (mod-ne_of_near (pow2 k) x w b (omega arith)) fits.small

  -- While a slot is free, a frame that fits a slot is appended, and the producer learns whether the
  -- ring was empty.
  pub try_push_free :
      {s : SlotRing} {q : List Frame} (h : Holds s q) (f : Frame)
      → FitsSlot seg f
      → length q < pow2 k
      → ((try_push (pow2 k) seg s f.0 f.1).0 ≡ ok (pushed (is_nil q)))
        × Holds (try_push (pow2 k) seg s f.0 f.1).1 (q ++ f ∷ [])
  try_push_free {s} {q} h f fits room = rw (try_push-eq h f fits room) (
    ap (λ (b : Bool). ok (pushed b)) (was_empty h),
    record {
      consumed = h.consumed;
      k_pos = h.k_pos;
      k_u64 = h.k_u64;
      read_count = h.read_count;
      write_count = omega (arith, h.write_count, longer);
      room = rw longer (omega arith);
      fit = All-append (FitsSlot seg) q (f ∷ []) h.fit (fits, tt);
      published = pushed_slots h f fits room;
      free = λ p a b. ground (
        arith,
        longer,
        mod-ne_of_near (pow2 k) (h.consumed + length q) p (omega (arith, longer)) (omega arith),
        h.free p (omega (arith, longer)) b,
      );
    },
  )
    where
      longer : length (q ++ f ∷ []) ≡ length q + 1
      longer = length-append q (f ∷ [])

  lap_index : (x : ℕ) → (x + pow2 k) % pow2 k ≡ x % pow2 k
  lap_index x =
      ap (λ (t : ℕ). t % pow2 k) (omega (arith, div-add-mod x (pow2 k)))
      ∙ mod_unique (x / pow2 k + 1) (x % pow2 k) (pow2 k) (omega (arith, pow2_pos k))

  -- While every slot is taken, a push of a frame that fits a slot writes nothing, and the producer
  -- is told so.
  pub try_push_all_taken :
      {s : SlotRing} {q : List Frame} (h : Holds s q) (f : Frame)
      → FitsSlot seg f
      → length q ≡ pow2 k
      → try_push (pow2 k) seg s f.0 f.1 ≡ (ok full, s)
  unfolding try_push
  try_push_all_taken {q = []} h f fits all = absurd (omega (arith, cap_range h))
  try_push_all_taken {s = s} {q = g ∷ q} h f fits all =
      ground
        (arith, write_index h, same, h.published.0.ready, h.write_count, fits.small, cap_range h)
    where
      same : (h.consumed + length (g ∷ q)) % pow2 k ≡ h.consumed % pow2 k
      same = ap (λ (n : ℕ). (h.consumed + n) % pow2 k) all ∙ lap_index h.consumed

  -- The oldest slot's header and payload.
  oldest :
      {s : SlotRing} {f : Frame} {q : List Frame} (h : Holds s (f ∷ q))
      → (read s.data' (h.consumed % pow2 k * seg) 8 ≡ encode_header (length f.1) f.0)
        × (read s.data' (h.consumed % pow2 k * seg + 8) (length f.1) ≡ f.1)
  oldest {s} {f} {q} h =
      append_injective (read s.data' (h.consumed % pow2 k * seg) 8)
        (read s.data' (h.consumed % pow2 k * seg + 8) (length f.1)) (encode_header (length f.1) f.0)
        f.1
        (omega (
          arith,
          length-read s.data' (h.consumed % pow2 k * seg) 8,
          length-encode_header (length f.1) f.0,
        ))
        (sym (read-append s.data' 8 (h.consumed % pow2 k * seg) (length f.1)) ∙ h.published.0.bytes)

  next_ready-cons :
      {s : SlotRing} {f : Frame} {q : List Frame} (h : Holds s (f ∷ q))
      → next_ready (pow2 k) seg s
        ≡ some (s.read_pos, h.consumed % pow2 k, h.consumed % pow2 k * seg, length f.1, f.0)
  unfolding next_ready
  next_ready-cons {s} {f} {q} h = ground (
    arith,
    read_index h,
    (oldest h).0,
    decode_header-encode_header (length f.1) f.0 h.fit.0.len_u32 h.fit.0.tid_u32,
    h.published.0.ready,
    h.read_count,
    h.fit.0.small,
  )

  next_ready-nil : {s : SlotRing} (h : Holds s []) → next_ready (pow2 k) seg s ≡ none
  unfolding next_ready
  next_ready-nil {s} h = ground (
    arith,
    read_index h,
    h.free h.consumed (omega arith) (omega (arith, cap_range h)),
    h.read_count,
  )

  -- The ring once its oldest slot is released.
  release_slot-Holds :
      {s : SlotRing} {f : Frame} {q : List Frame} (h : Holds s (f ∷ q))
      → Holds (release_slot (pow2 k) seg s s.read_pos (h.consumed % pow2 k)) q
  unfolding release_slot
  release_slot-Holds {s} {f} {q} h = record {
    consumed = h.consumed + 1;
    k_pos = h.k_pos;
    k_u64 = h.k_u64;
    read_count = omega (arith, h.read_count);
    write_count = omega (arith, h.write_count);
    room = omega (arith, h.room);
    fit = h.fit.1;
    published =
        AllPublished-congr (pow2 k) seg q s.seq s.data'
          (update s.seq (h.consumed % pow2 k) (wrapping_add s.read_pos (pow2 k))) s.data'
          (h.consumed + 1)
          (λ x a b. (
            ground
                (arith, mod-ne_of_near (pow2 k) h.consumed x (omega arith) (omega (arith, h.room))),
            λ n small. refl,
          ))
          h.published.1;
    free = λ p a b. elim (dec_lt p (h.consumed + pow2 k)) [
      | yes lt ↦
          ground (
            arith,
            mod-ne_of_near (pow2 k) h.consumed p (omega arith) lt,
            h.free p (omega arith) lt,
          )
      | no ge ↦ next_lap p (omega arith)
    ];
  }
    where
      next_lap :
          (p : ℕ)
          → p ≡ h.consumed + pow2 k
          → update s.seq (h.consumed % pow2 k) (wrapping_add s.read_pos (pow2 k)) (p % pow2 k)
            ≡ p % 2 ^ 64
      next_lap p e = ground (arith, e, lap_index h.consumed, h.read_count)

  -- The oldest frame comes out whole, and its slot is free for the next lap.
  pub try_pop_into_oldest :
      {s : SlotRing} {f : Frame} {q : List Frame} (h : Holds s (f ∷ q))
      → ((try_pop_into (pow2 k) seg s).0 ≡ some f) × Holds (try_pop_into (pow2 k) seg s).1 q
  unfolding try_pop_into
  try_pop_into_oldest {s} {f} {q} h =
      rw (try_pop_into, next_ready-cons h)
        (ap some (ap (λ (b : Bytes). (f.0, b)) (oldest h).1), release_slot-Holds h)

  -- A slice of `out` bytes gets the front of the oldest frame; the frame is consumed either way.
  pub try_pop_into_slice_oldest :
      {s : SlotRing} {f : Frame} {q : List Frame} (h : Holds s (f ∷ q)) (out : ℕ)
      → ((try_pop_into_slice (pow2 k) seg s out).0 ≡ some (f.0, take out f.1))
        × Holds (try_pop_into_slice (pow2 k) seg s out).1 q
  unfolding try_pop_into_slice
  try_pop_into_slice_oldest {s} {f} {q} h out =
      rw (try_pop_into_slice, next_ready-cons h)
        (ap some (ap (λ (b : Bytes). (f.0, b)) cut), release_slot-Holds h)
    where
      cut : read s.data' (h.consumed % pow2 k * seg + 8) (min (length f.1) out) ≡ take out f.1
      cut =
          read-min s.data' (length f.1) out (h.consumed % pow2 k * seg + 8)
          ∙ ap (take out) (oldest h).1

  -- An empty ring has nothing to take and says that it is empty.
  pub try_pop_into_drained :
      {s : SlotRing} (h : Holds s [])
      → (try_pop_into (pow2 k) seg s ≡ (none, s)) × (is_empty (pow2 k) seg s ≡ true)
  unfolding try_pop_into is_empty
  try_pop_into_drained {s} h = (
    rw (try_pop_into, next_ready-nil h) refl,
    ground (
      arith,
      read_index h,
      h.free h.consumed (omega arith) (omega (arith, cap_range h)),
      h.read_count,
    ),
  )

  pub try_pop_into_slice_drained :
      {s : SlotRing} (h : Holds s []) (out : ℕ) → try_pop_into_slice (pow2 k) seg s out ≡ (none, s)
  unfolding try_pop_into_slice
  try_pop_into_slice_drained {s} h out = rw (try_pop_into_slice, next_ready-nil h) refl

  -- The ring says that it is empty exactly where it holds nothing.
  pub is_empty-Holds :
      {s : SlotRing} {q : List Frame} (h : Holds s q) → is_empty (pow2 k) seg s ≡ is_nil q
  unfolding is_empty
  is_empty-Holds {q = []} h = (try_pop_into_drained h).1
  is_empty-Holds {s} {q = f ∷ q} h = ground (arith, read_index h, h.published.0.ready, h.read_count)
