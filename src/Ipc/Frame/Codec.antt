-- ===== src/Ipc/Frame/Codec.antt =====
-- crates/scg-ipc/src/frame.rs: a header and a frame on the wire.
use scg.Base.{
  ◌∙◌, ap, take-append, take, ℕ, ◌+◌, ◌^◌, ◌≤◌, ◌<◌, ◌≡◌, sym, refl, ap₂, List, [], ◌∷◌, ◌++◌,
  append_assoc, arith, length, length-append,
}
use native.Mathlib.Nat.{mod-eq_of_lt}
use scg.Base.Bytes.{Bytes, from_le_bytes-to_le_bytes}
use scg.Ipc.Frame.{Frame, encode_header, decode_header, encode_into}

pub length-encode_header : (len tid : ℕ) → length (encode_header len tid) ≡ 8
unfolding encode_header
length-encode_header len tid = refl

-- The two `u32` fields of a header are read back.
pub decode_header-encode_header :
    (len tid : ℕ) → len < 2 ^ 32 → tid < 2 ^ 32 → decode_header (encode_header len tid) ≡ (len, tid)
unfolding decode_header encode_header
decode_header-encode_header len tid hl ht =
    ap₂ (λ a b. (a, b)) (from_le_bytes-to_le_bytes 4 len hl) (from_le_bytes-to_le_bytes 4 tid ht)

-- The first eight bytes of a stream that begins with a header are that header.
pub take-encode_header :
    (len tid : ℕ) (rest : Bytes) → take 8 (encode_header len tid ++ rest) ≡ encode_header len tid
take-encode_header len tid rest =
    take-append (encode_header len tid) rest 8 (sym (length-encode_header len tid))

-- What `encode_into` appends for one frame.
abbrev pub wire : Frame → Bytes
wire (tid, payload) = encode_header (length payload) tid ++ payload

abbrev pub wire_all : List Frame → Bytes
wire_all [] = []
wire_all (f ∷ fs) = wire f ++ wire_all fs

-- A frame that the wire can carry to a decoder with this limit.
pub record Fits (max_len : ℕ) (f : Frame) : Type 0 where
  pub tid_u32 : f.0 < 2 ^ 32
  pub len_u32 : length f.1 < 2 ^ 32
  pub len_max : length f.1 ≤ max_len

pub length-wire : (f : Frame) → length (wire f) ≡ 8 + length f.1
length-wire (tid, payload) = omega (
  arith,
  length-append (encode_header (length payload) tid) payload,
  length-encode_header (length payload) tid,
)

-- A payload below 4 GiB is appended behind its header, after what `out` holds.
pub encode_into-wire :
    (out : Bytes) (tid : ℕ) (payload : Bytes)
    → length payload < 2 ^ 32
    → encode_into out tid payload ≡ out ++ wire (tid, payload)
unfolding encode_into
encode_into-wire out tid payload h =
    rw (mod-eq_of_lt h) (append_assoc out (encode_header (length payload) tid) payload)

pub wire_all-append : (fs gs : List Frame) → wire_all (fs ++ gs) ≡ wire_all fs ++ wire_all gs
wire_all-append [] gs = refl
wire_all-append (f ∷ fs) gs =
    ap (◌++◌ (wire f)) (wire_all-append fs gs)
    ∙ sym (append_assoc (wire f) (wire_all fs) (wire_all gs))
