-- ===== src/Ipc/Frame/Decoder.antt =====
-- crates/scg-ipc/src/frame.rs: one call of `FrameDecoder` on the bytes that it holds.
use scg.Base.{
  ◌^◌, ℕ, ◌+◌, ◌≤◌, ◌<◌, ◌≡◌, refl, sym, ap, ◌∙◌, none, some, [], ◌++◌, append_assoc, append-nil,
  arith, length, take, drop, length-append, take-append, drop-append, drop-append_of_le,
  take-append_of_le, length-drop, drop-drop, drop_all, ok, err,
}
use scg.Base.Bytes.{Bytes}
use scg.Ipc.Frame.{
  Frame, FrameDecoder, too_large, encode_header, decode_header, feed, next_frame_borrowed,
  next_frame,
}
use scg.Ipc.Frame.Codec.{
  wire, Fits, length-wire, length-encode_header, decode_header-encode_header, take-encode_header,
}

-- The bytes that the decoder holds and has not consumed.
abbrev pub pending : FrameDecoder → Bytes
pending d = drop d.pos d.buf

-- The read position lies in the buffer.
abbrev pub IsValid : FrameDecoder → Type 0
IsValid d = d.pos ≤ length d.buf

pub pending-feed :
    (d : FrameDecoder) (bs : Bytes) → IsValid d → pending (feed d bs) ≡ pending d ++ bs
unfolding feed
pending-feed d bs v =
    ground
      (arith, drop-append_of_le d.buf bs d.pos v, drop_all d.pos d.buf, length-drop d.pos d.buf)

pub feed-IsValid : (d : FrameDecoder) (bs : Bytes) → IsValid d → IsValid (feed d bs)
unfolding feed
feed-IsValid d bs v = ground (arith, length-append d.buf bs)

pub max_len-feed : (d : FrameDecoder) (bs : Bytes) → (feed d bs).max_len ≡ d.max_len
unfolding feed
max_len-feed d bs = ground arith

-- The header of the frame in front, once it is there.
header_of :
    (f : Frame) (held more rest : Bytes) {max_len : ℕ}
    → Fits max_len f
    → held ++ more ≡ wire f ++ rest
    → 8 ≤ length held
    → decode_header (take 8 held) ≡ (length f.1, f.0)
header_of (tid, payload) held more rest fits e enough =
    ap decode_header (
      sym (take-append_of_le held more 8 enough)
      ∙ ap (take 8) (e ∙ append_assoc (encode_header (length payload) tid) payload rest)
      ∙ take-encode_header (length payload) tid (payload ++ rest))
    ∙ decode_header-encode_header (length payload) tid fits.len_u32 fits.tid_u32

-- The payload behind it.
payload_of :
    (f : Frame) (held rest : Bytes) → held ≡ wire f ++ rest → take (length f.1) (drop 8 held) ≡ f.1
payload_of (tid, payload) held rest e =
    ap (λ (bs : Bytes). take (length payload) (drop 8 bs))
      (e ∙ append_assoc (encode_header (length payload) tid) payload rest)
    ∙ ap (take (length payload)) (
        drop-append (encode_header (length payload) tid) (payload ++ rest) 8
          (sym (length-encode_header (length payload) tid)))
    ∙ take-append payload rest (length payload) refl

-- A decoder that holds a whole frame hands it out and moves past it.
pub next-whole :
    (d : FrameDecoder) (f : Frame) (rest : Bytes)
    → IsValid d
    → Fits d.max_len f
    → pending d ≡ wire f ++ rest
    → next_frame d ≡ (ok (some f), record d { pos = d.pos + (8 + length f.1) })
unfolding next_frame next_frame_borrowed
next-whole d f rest v fits e = ground (
  arith,
  header_of f (pending d) [] rest fits (append-nil (pending d) ∙ e) held,
  payload_of f (pending d) rest e,
  drop-drop d.pos 8 d.buf,
  length-drop d.pos d.buf,
  length-wire f,
  length-append (wire f) rest,
  ap length e,
  fits.len_max,
)
  where
    held : 8 ≤ length (pending d)
    held = omega (arith, length-wire f, length-append (wire f) rest, ap length e)

-- A decoder that holds only a part of a frame asks for more and does not move.
pub next-part :
    (d : FrameDecoder) (f : Frame) (more rest : Bytes)
    → IsValid d
    → Fits d.max_len f
    → pending d ++ more ≡ wire f ++ rest
    → length (pending d) < length (wire f)
    → next_frame d ≡ (ok none, d)
unfolding next_frame next_frame_borrowed
next-part d f more rest v fits e short = ground (
  arith,
  header_of f (pending d) more rest fits e,
  length-drop d.pos d.buf,
  length-wire f,
  fits.len_max,
)

pub next-empty : (d : FrameDecoder) → pending d ≡ [] → next_frame d ≡ (ok none, d)
unfolding next_frame next_frame_borrowed
next-empty d e = ground (arith, ap length e, length-drop d.pos d.buf)

-- A header that announces more than the limit is refused, and the decoder does not move.
pub next_frame_too_large :
    (d : FrameDecoder) (len tid : ℕ) (rest : Bytes)
    → IsValid d
    → len < 2 ^ 32
    → tid < 2 ^ 32
    → d.max_len < len
    → pending d ≡ encode_header len tid ++ rest
    → next_frame d ≡ (err (too_large len), d)
unfolding next_frame next_frame_borrowed
next_frame_too_large d len tid rest v hl ht big e = ground (
  arith,
  ap decode_header (ap (take 8) e ∙ take-encode_header len tid rest)
      ∙ decode_header-encode_header len tid hl ht,
  length-drop d.pos d.buf,
  length-append (encode_header len tid) rest,
  length-encode_header len tid,
  ap length e,
)
