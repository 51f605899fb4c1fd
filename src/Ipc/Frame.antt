-- ===== src/Ipc/Frame.antt =====
-- crates/scg-ipc/src/frame.rs: the framed-packet codec and the incremental decoder.
-- `usize` values are lengths of buffers in memory, so they do not wrap.
pub mod Codec
pub mod Decoder
pub mod Stream
use scg.Base.{
  ℕ, ◌+◌, ◌-◌, ◌*◌, ◌%◌, ◌^◌, Option, none, some, List, [], ◌∷◌, ◌++◌, ltb, ◌==◌, if◌then◌else◌,
  Result, ok, err, length, take, drop,
}
use scg.Base.Bytes.{Bytes, to_le_bytes, from_le_bytes}

abbrev pub frame_header_len : ℕ
frame_header_len = 8

abbrev pub default_max_frame_len : ℕ
default_max_frame_len = 16 * 1024 * 1024

-- A frame as the code passes it: `(traffic_id, payload)`.
abbrev pub Frame : Type 0
Frame = ℕ × Bytes

-- The arguments are `u32` values.
unfoldable pub encode_header : ℕ → ℕ → Bytes
encode_header len traffic_id = to_le_bytes 4 len ++ to_le_bytes 4 traffic_id

unfoldable pub decode_header : Bytes → ℕ × ℕ
decode_header hdr = (from_le_bytes (take 4 hdr), from_le_bytes (take 4 (drop 4 hdr)))

-- `data.len() as u32` keeps the low 32 bits.
unfoldable pub encode_into : Bytes → ℕ → Bytes → Bytes
encode_into out traffic_id data' =
    (out ++ encode_header (length data' % 2 ^ 32) traffic_id) ++ data'

pub data FrameError : Type 0 where
  too_large : ℕ → FrameError

pub record FrameDecoder : Type 0 where
  pub buf : Bytes
  pub pos : ℕ
  pub max_len : ℕ

unfoldable pub new : ℕ → FrameDecoder
new max_len = record { buf = []; pos = 0; max_len = max_len }

compact : FrameDecoder → FrameDecoder
compact d =
    if d.pos == length d.buf
    then record d { buf = []; pos = 0 }
    else if ltb (64 * 1024) d.pos
    then record d { buf = drop d.pos d.buf; pos = 0 }
    else d

unfoldable pub feed : FrameDecoder → Bytes → FrameDecoder
unfolding compact
feed d data' = let c = compact d in record c { buf = c.buf ++ data' }

-- `&self.buf[start..start + len]`
abbrev pub slice : Bytes → ℕ → ℕ → Bytes
slice bs start len = take len (drop start bs)

unfoldable pub next_frame_borrowed : FrameDecoder → Result (Option Frame) FrameError × FrameDecoder
next_frame_borrowed d =
    let avail = length d.buf - d.pos in
    let (len, traffic_id) = decode_header (slice d.buf d.pos frame_header_len) in
    let total = frame_header_len + len in
    if ltb avail frame_header_len
    then (ok none, d)
    else if ltb d.max_len len
    then (err (too_large len), d)
    else if ltb avail total
    then (ok none, d)
    else (
      ok (some (traffic_id, slice d.buf (d.pos + frame_header_len) len)),
      record d { pos = d.pos + total },
    )

-- The owned variant copies the payload.
unfoldable pub next_frame : FrameDecoder → Result (Option Frame) FrameError × FrameDecoder
next_frame d = next_frame_borrowed d
