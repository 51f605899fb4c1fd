-- ===== src/Ipc/Frame/Stream.antt =====
-- crates/scg-ipc/src/frame.rs: a stream of frames, cut into pieces as a socket cuts it, and the reader
-- that feeds `FrameDecoder` each piece and drains it.
use scg.Base.{
  All-append_right, subst, append_overlap, dec_lt, append-eq-nil, ℕ, zero, suc, ◌+◌, ◌<◌, ◌≡◌, refl,
  sym, ap, ◌∙◌, Option, none, some, List, [], ◌∷◌, ◌++◌, append_assoc, append-nil, arith, length,
  drop, All, length-append, length-drop, drop-drop, Result, ok, err, ◌>>=◌,
}
use scg.Ipc.Frame.Decoder.{
  next-empty, pending, IsValid, pending-feed, feed-IsValid, max_len-feed, next-whole, next-part,
}
use scg.Base.Bytes.{Bytes}
use scg.Ipc.Frame.{Frame, FrameDecoder, FrameError, feed, new, next_frame}
use scg.Ipc.Frame.Codec.{wire, wire_all, Fits, length-wire}

abbrev Received : Type 0
Received = Result (List Frame × FrameDecoder) FrameError

-- One round of the loop below, on what `next_frame` returned.
abbrev take_out :
    Result (Option Frame) FrameError × FrameDecoder → (FrameDecoder → Received) → Received
take_out (ok none, d) again = ok ([], d)
take_out (ok (some f), d) again = do (fs, last) ← again d; ok (f ∷ fs, last)
take_out (err e, d) again = err e

-- `while let Some(frame) = dec.next_frame()? { frames.push(frame) }` for at most so many rounds.
drain : ℕ → FrameDecoder → Received
drain zero d = ok ([], d)
drain (suc fuel) d = take_out (next_frame d) (drain fuel)

-- Each piece that arrives is fed, and the frames that it completes are taken out. Every frame is at
-- least eight bytes long, so the rounds suffice.
pub receive : FrameDecoder → List Bytes → Received
unfolding drain
receive d [] = ok ([], d)
receive d (piece ∷ pieces) = do
  (fs, d') ← drain (suc (length (feed d piece).buf)) (feed d piece)
  (gs, last) ← receive d' pieces
  ok (fs ++ gs, last)

abbrev pub flatten : List Bytes → Bytes
flatten [] = []
flatten (b ∷ bs) = b ++ flatten bs

-- The held bytes are less than the next frame.
abbrev IsShort : FrameDecoder → List Frame → Type 0
IsShort d [] = Unit
IsShort d (f ∷ fs) = length (pending d) < length (wire f)

-- What has been taken out, when `fs` was to come: some frames of the front, and the rest is still to
-- come.
record Drained (max_len : ℕ) (more : Bytes) (fs : List Frame) (r : Received) : Type 0 where
  got : List Frame
  left : List Frame
  last : FrameDecoder
  result : r ≡ ok (got, last)
  splits : fs ≡ got ++ left
  valid : IsValid last
  same_max : last.max_len ≡ max_len
  rest : pending last ++ more ≡ wire_all left
  short : IsShort last left

-- One more frame in front of what was taken out.
Drained-cons :
    (fuel : ℕ) (d d' : FrameDecoder) (more : Bytes) (f : Frame) (fs : List Frame)
    → next_frame d ≡ (ok (some f), d')
    → Drained d'.max_len more fs (drain fuel d')
    → Drained d'.max_len more (f ∷ fs) (drain (suc fuel) d)
unfolding drain
Drained-cons fuel d d' more f fs e h = record {
  got = f ∷ h.got;
  left = h.left;
  last = h.last;
  result = ap (λ r. take_out r (drain fuel)) e ∙ rw h.result;
  splits = ap (◌∷◌ f) h.splits;
  valid = h.valid;
  same_max = h.same_max;
  rest = h.rest;
  short = h.short;
}

Drained-part :
    (fuel : ℕ) (d : FrameDecoder) (more : Bytes) (fs : List Frame)
    → next_frame d ≡ (ok none, d)
    → IsValid d
    → pending d ++ more ≡ wire_all fs
    → IsShort d fs
    → Drained d.max_len more fs (drain (suc fuel) d)
unfolding drain
Drained-part fuel d more fs e v r short = record {
  got = [];
  left = fs;
  last = d;
  result = ap (λ r. take_out r (drain fuel)) e;
  splits = refl;
  valid = v;
  same_max = refl;
  rest = r;
  short = short;
}

drain-Drained :
    (fuel : ℕ) (d : FrameDecoder) (more : Bytes) (fs : List Frame)
    → IsValid d
    → All (Fits d.max_len) fs
    → pending d ++ more ≡ wire_all fs
    → length (pending d) < fuel
    → Drained d.max_len more fs (drain fuel d)
drain-Drained zero d more fs v fits e h = absurd (omega arith)
drain-Drained (suc fuel) d more [] v fits e h =
    Drained-part fuel d more [] (next-empty d (append-eq-nil (pending d) more e).0) v e tt
drain-Drained (suc fuel) d more (f ∷ fs) v fits e h =
    elim (dec_lt (length (pending d)) (length (wire f))) [
      | yes short ↦
          Drained-part fuel d more (f ∷ fs) (next-part d f more (wire_all fs) v fits.0 e short) v e
            short
      | no enough ↦
          let (p, q) = append_overlap (pending d) more (wire f) (wire_all fs) e (omega arith) in
          let d' = record d { pos = d.pos + (8 + length f.1) } in
          let moved : pending d' ≡ drop (length (wire f)) (pending d) =
            sym (drop-drop d.pos (8 + length f.1) d.buf)
            ∙ ap (λ (n : ℕ). drop n (pending d)) (sym (length-wire f)) in
          Drained-cons fuel d d' more f fs
            (next-whole d f (drop (length (wire f)) (pending d)) v fits.0 p)
            (drain-Drained fuel d' more fs (omega (arith, length-drop d.pos d.buf, length-wire f))
              fits.1 (ap (λ (bs : Bytes). bs ++ more) moved ∙ q)
              (omega
                (arith, length-drop (length (wire f)) (pending d), ap length moved, length-wire f)))
    ]

-- All frames, and nothing left over.
abbrev pub ReceivesAll : List Frame → Received → Type 0
ReceivesAll fs r = (last : FrameDecoder) × (r ≡ ok (fs, last)) × (pending last ≡ [])

fed-Drained :
    (piece : Bytes) (pieces : List Bytes) (d : FrameDecoder) (fs : List Frame)
    → IsValid d
    → All (Fits d.max_len) fs
    → pending d ++ (piece ++ flatten pieces) ≡ wire_all fs
    → Drained d.max_len (flatten pieces) fs (drain (suc (length (feed d piece).buf)) (feed d piece))
fed-Drained piece pieces d fs v fits e =
    subst
      (λ (m : ℕ).
        Drained m (flatten pieces) fs (drain (suc (length (feed d piece).buf)) (feed d piece)))
      (max_len-feed d piece)
      (drain-Drained (suc (length (feed d piece).buf)) (feed d piece) (flatten pieces) fs
        (feed-IsValid d piece v) (rw max_len-feed fits)
        (ap (λ (bs : Bytes). bs ++ flatten pieces) (pending-feed d piece v)
          ∙ append_assoc (pending d) piece (flatten pieces)
          ∙ e)
        (omega (arith, length-drop (feed d piece).pos (feed d piece).buf)))

receive_then :
    (d : FrameDecoder) (piece : Bytes) (pieces : List Bytes) {max_len : ℕ} {fs : List Frame}
    → (D : Drained max_len
        (flatten pieces)
        fs
        (drain (suc (length (feed d piece).buf)) (feed d piece)))
    → ReceivesAll D.left (receive D.last pieces)
    → ReceivesAll fs (receive d (piece ∷ pieces))
unfolding receive
receive_then d piece pieces D (last, r, empty) = (last, rw D.result (rw r (rw (← D.splits))), empty)

-- A decoder that is short of the next frame is fed the rest of the stream.
receive_stream :
    (pieces : List Bytes) (d : FrameDecoder) (fs : List Frame)
    → IsValid d
    → All (Fits d.max_len) fs
    → IsShort d fs
    → pending d ++ flatten pieces ≡ wire_all fs
    → ReceivesAll fs (receive d pieces)
unfolding receive
receive_stream [] d [] v fits short e = (d, refl, (append-eq-nil (pending d) [] e).0)
receive_stream [] d (f ∷ fs) v fits short e = absurd (
    omega
      (arith, ap length (sym (append-nil (pending d)) ∙ e), length-append (wire f) (wire_all fs)))
receive_stream (piece ∷ pieces) d fs v fits short e =
    let D = fed-Drained piece pieces d fs v fits e in
    receive_then d piece pieces D (
      receive_stream pieces D.last D.left D.valid
        (rw D.same_max (
          All-append_right (Fits d.max_len) D.got D.left
            (subst (All (Fits d.max_len)) D.splits fits)))
        D.short D.rest)

-- The frames of a stream arrive, all and in order, with nothing left over, however the stream is cut
-- into pieces, if each frame fits the limit and its length and id fit 32 bits.
pub receive-wire_all :
    (max_len : ℕ) (fs : List Frame) (pieces : List Bytes)
    → All (Fits max_len) fs
    → flatten pieces ≡ wire_all fs
    → ReceivesAll fs (receive (new max_len) pieces)
unfolding new
receive-wire_all max_len fs pieces fits e =
    receive_stream pieces (new max_len) fs (omega arith) fits (start fs) e
  where
    start : (fs : List Frame) → IsShort (new max_len) fs
    start [] = tt
    start (f ∷ fs) = omega (arith, length-wire f)
