-- ===== src/Gateway/UdpFraming/Raw.antt =====
-- gateway/src/security/udp_framing.rs: the raw framing from `frame_into` to `deframe_each`.
use scg.Base.{
  if◌then◌else◌, ◌%◌, ◌^◌, ℕ, zero, suc, ◌+◌, ◌≤◌, ◌<◌, ◌≡◌, refl, sym, ap, ◌∙◌, Bool, true, false,
  List, [], ◌∷◌, ◌++◌, append_assoc, append-nil, Result, arith, length, take, drop, All,
  All-append_right, length-append, length-drop, take-append, append_overlap, append-eq-nil, dec_lt,
  subst,
}
use scg.Base.Bytes.{
  Bytes, to_le_bytes, from_le_bytes, from_le_bytes-to_le_bytes, length-to_le_bytes,
}
use scg.Ipc.Frame.Stream.{flatten}
use scg.Gateway.UdpFraming.{
  UdpFraming, raw, frame_into, deframe_each, raw_datagrams, max_raw_datagram_len,
}

-- One datagram on the wire, and many.
abbrev pub enc : Bytes → Bytes
enc d = to_le_bytes 4 (length d) ++ d

abbrev pub enc_all : List Bytes → Bytes
enc_all [] = []
enc_all (d ∷ ds) = enc d ++ enc_all ds

abbrev pub IsDatagram : Bytes → Type 0
IsDatagram d = length d ≤ max_raw_datagram_len

length-enc : (d : Bytes) → length (enc d) ≡ 4 + length d
length-enc d =
    omega (arith, length-append (to_le_bytes 4 (length d)) d, length-to_le_bytes 4 (length d))

-- The bytes left are less than the next datagram.
abbrev IsShort : Bytes → List Bytes → Type 0
IsShort rem [] = Unit
IsShort rem (d ∷ ds) = length rem < length (enc d)

-- What the loop has taken, when `ds` was to come.
record Taken (more : Bytes) (ds : List Bytes) (r : List Bytes × Bytes × Bool) : Type 0 where
  got : List Bytes
  left : List Bytes
  rem : Bytes
  result : r ≡ (got, rem, false)
  splits : ds ≡ got ++ left
  rest : rem ++ more ≡ enc_all left
  short : IsShort rem left

-- What stands in front: the length, and the datagram behind it.
module _ (rem more d tail : Bytes) (e : rem ++ more ≡ enc d ++ tail) where
  behind_header :
      4 ≤ length rem → (take 4 rem ≡ to_le_bytes 4 (length d)) × (drop 4 rem ++ more ≡ d ++ tail)
  behind_header h =
      let n = length-to_le_bytes 4 (length d) in
      let (p, q) =
        append_overlap rem more (to_le_bytes 4 (length d)) (d ++ tail)
          (e ∙ append_assoc (to_le_bytes 4 (length d)) d tail) (omega (arith, n)) in
      (
        ap (take 4) p
            ∙ take-append (to_le_bytes 4 (length d)) (drop (length (to_le_bytes 4 (length d))) rem)
                4 (sym n),
        ap (λ (k : ℕ). drop k rem ++ more) (sym n) ∙ q,
      )

  header_at : IsDatagram d → 4 ≤ length rem → from_le_bytes (take 4 rem) ≡ length d
  header_at small h =
      ap from_le_bytes (behind_header h).0 ∙ from_le_bytes-to_le_bytes 4 (length d) (omega arith)

  payload_at : 4 + length d ≤ length rem → take (length d) (drop 4 rem) ≡ d
  payload_at h =
      ap (take (length d))
        (append_overlap (drop 4 rem) more d tail (behind_header (omega arith)).1
          (omega (arith, length-drop 4 rem))).0
      ∙ take-append d (drop (length d) (drop 4 rem)) (length d) refl

raw_datagrams-Taken :
    (fuel : ℕ) (rem more : Bytes) (ds : List Bytes)
    → All IsDatagram ds
    → rem ++ more ≡ enc_all ds
    → length rem < fuel
    → Taken more ds (raw_datagrams fuel rem)
unfolding raw_datagrams
raw_datagrams-Taken zero rem more ds small e h = absurd (omega arith)
raw_datagrams-Taken (suc fuel) rem more [] small e h = record {
  got = [];
  left = [];
  rem = rem;
  result = ground (arith, ap length (append-eq-nil rem more e).0);
  splits = refl;
  rest = e;
  short = tt;
}
raw_datagrams-Taken (suc fuel) rem more (d ∷ ds) small e h =
    elim (dec_lt (length rem) (length (enc d))) [
      | yes short ↦ record {
        got = [];
        left = d ∷ ds;
        rem = rem;
        result = elim (dec_lt (length rem) 4) [
          | yes less ↦ ground arith
          | no header ↦ ground (
            arith,
            header_at rem more d (enc_all ds) e small.0 (omega arith),
            length-enc d,
            small.0,
          )
        ];
        splits = refl;
        rest = e;
        short = short;
      }
      | no enough ↦
          let q = (append_overlap rem more (enc d) (enc_all ds) e (omega arith)).1 in
          let next =
            raw_datagrams-Taken fuel (drop (4 + length d) rem) more ds small.1
              (ap (λ (k : ℕ). drop k rem ++ more) (sym (length-enc d)) ∙ q)
              (omega (arith, length-drop (4 + length d) rem, length-enc d)) in
          record {
            got = d ∷ next.got;
            left = next.left;
            rem = next.rem;
            result = ground (
              arith,
              header_at rem more d (enc_all ds) e small.0 (omega (arith, length-enc d)),
              payload_at rem more d (enc_all ds) e (omega (arith, length-enc d)),
              length-enc d,
              small.0,
              next.result,
            );
            splits = ap (◌∷◌ d) next.splits;
            rest = next.rest;
            short = next.short;
          }
    ]

module _ {Writer Reader AleError : Type 0} (ale_pkt_dt ale_pkt_di : ℕ)
    (write_alepkt : Writer → ℕ → Bytes → Bytes × Writer)
    (feed : Reader → Bytes → Result (List (ℕ × Bytes)) AleError × Reader) where
  -- The datagrams of all pieces, while none of them asks for a disconnect, and the framing at the end.
  unfoldable pub deframe_all :
      UdpFraming Writer Reader → List Bytes → List Bytes × Bool × UdpFraming Writer Reader
  deframe_all f [] = ([], false, f)
  deframe_all f (piece ∷ pieces) =
      let (ds, stop, f') = deframe_each ale_pkt_dt ale_pkt_di write_alepkt feed f piece in
      let (es, stop', last) = deframe_all f' pieces in
      if stop then (ds, true, f') else (ds ++ es, stop', last)

  -- What the sender's framing appends for each datagram.
  unfoldable pub frame_all : UdpFraming Writer Reader → List Bytes → Bytes → Bytes
  frame_all f [] out = out
  frame_all f (d ∷ ds) out =
      let (out', f') = frame_into ale_pkt_dt ale_pkt_di write_alepkt feed f d out in
      frame_all f' ds out'

  deframe_stream :
      (pieces : List Bytes) (pending : Bytes) (ds : List Bytes)
      → All IsDatagram ds
      → IsShort pending ds
      → pending ++ flatten pieces ≡ enc_all ds
      → deframe_all (raw pending) pieces ≡ (ds, false, raw [])
  unfolding deframe_all deframe_each
  deframe_stream [] pending [] small short e =
      ap (λ (bs : Bytes). ([], false, raw bs)) (append-eq-nil pending [] e).0
  deframe_stream [] pending (d ∷ ds) small short e =
      absurd (
        omega (arith, ap length (sym (append-nil pending) ∙ e), length-append (enc d) (enc_all ds)))
  deframe_stream (piece ∷ pieces) pending ds small short e =
      let taken =
        raw_datagrams-Taken (suc (length (pending ++ piece))) (pending ++ piece) (flatten pieces) ds
          small (append_assoc pending piece (flatten pieces) ∙ e) (omega arith) in
      let rest =
        deframe_stream pieces taken.rem taken.left
          (All-append_right IsDatagram taken.got taken.left
            (subst (All IsDatagram) taken.splits small))
          taken.short taken.rest in
      rw (taken.result) (rw rest (rw (← taken.splits) refl))

  frame_all-eq :
      (sent : Bytes) (ds : List Bytes) (out : Bytes)
      → All IsDatagram ds
      → frame_all (raw sent) ds out ≡ out ++ enc_all ds
  unfolding frame_all frame_into
  frame_all-eq sent [] out small = sym (append-nil out)
  frame_all-eq sent (d ∷ ds) out small =
      frame_all-eq sent ds ((out ++ to_le_bytes 4 (length d % 2 ^ 32)) ++ d) small.1
      ∙ ap (λ (n : ℕ). ((out ++ to_le_bytes 4 n) ++ d) ++ enc_all ds) {y = length d}
          (omega (arith, small.0))
      ∙ append_assoc (out ++ to_le_bytes 4 (length d)) d (enc_all ds)
      ∙ append_assoc out (to_le_bytes 4 (length d)) (d ++ enc_all ds)
      ∙ ap (◌++◌ out) (sym (append_assoc (to_le_bytes 4 (length d)) d (enc_all ds)))

  -- The raw framing of any datagrams of at most 65535 bytes, cut into pieces in any way, comes out as
  -- the same datagrams in order, with nothing left over and no disconnect.
  pub deframe_all-frame_all :
      (sent : Bytes) (ds : List Bytes) (pieces : List Bytes)
      → All IsDatagram ds
      → flatten pieces ≡ frame_all (raw sent) ds []
      → deframe_all (raw []) pieces ≡ (ds, false, raw [])
  deframe_all-frame_all sent ds pieces small e =
      deframe_stream pieces [] ds small (start ds) (e ∙ frame_all-eq sent ds [] small)
    where
      start : (ds : List Bytes) → IsShort [] ds
      start [] = tt
      start (d ∷ ds) = omega (arith, length-enc d)
