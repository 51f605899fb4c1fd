-- ===== src/Gateway/UdpFraming.antt =====
-- gateway/src/security/udp_framing.rs: datagrams on a TLS stream. The ALE packets are written and read
-- by the crate `ale_pipe`: its writer and reader are parameters, as are its packet types.
pub mod Raw
use scg.Base.{
  ℕ, zero, suc, ◌+◌, ◌%◌, ◌^◌, Bool, true, false, ◌||◌, List, [], ◌∷◌, ◌++◌, Result, ok, err,
  length, take, drop, ltb, ◌==◌, if◌then◌else◌,
}
use scg.Base.Bytes.{Bytes, to_le_bytes, from_le_bytes}

abbrev pub max_raw_datagram_len : ℕ
max_raw_datagram_len = 65535

pub data UdpFraming (Writer Reader : Type 0) : Type 0 where
  ale : Writer → Reader → UdpFraming Writer Reader
  raw : Bytes → UdpFraming Writer Reader

-- The loop of the raw framing on `pending[consumed..]`: the datagrams, what is left behind them, and
-- whether the session should disconnect. Each turn takes 4 bytes or more, so the length is fuel enough.
unfoldable pub raw_datagrams : ℕ → Bytes → List Bytes × Bytes × Bool
raw_datagrams zero rem = ([], rem, false)
raw_datagrams (suc fuel) rem =
    let len = from_le_bytes (take 4 rem) in
    let (datagrams, left, disconnect) = raw_datagrams fuel (drop (4 + len) rem) in
    if ltb (length rem) 4
    then ([], rem, false)
    else if ltb max_raw_datagram_len len
    then ([], rem, true)
    else if ltb (length rem) (4 + len)
    then ([], rem, false)
    else (take len (drop 4 rem) ∷ datagrams, left, disconnect)

-- The payloads of the data packets, and whether a disconnect packet is among them.
unfoldable pub ale_datagrams : ℕ → ℕ → List (ℕ × Bytes) → List Bytes × Bool
ale_datagrams dt di [] = ([], false)
ale_datagrams dt di ((packet_type, user_data) ∷ frames) =
    let (datagrams, disconnect) = ale_datagrams dt di frames in
    if packet_type == dt
    then (user_data ∷ datagrams, disconnect)
    else if packet_type == di
    then (datagrams, true)
    else (datagrams, disconnect)

module _ {Writer Reader AleError : Type 0} (ale_pkt_dt ale_pkt_di : ℕ)
    (write_alepkt : Writer → ℕ → Bytes → Bytes × Writer)
    (feed : Reader → Bytes → Result (List (ℕ × Bytes)) AleError × Reader) where
  unfoldable pub is_ale : UdpFraming Writer Reader → Bool
  is_ale (ale w r) = true
  is_ale (raw pending) = false

  -- `out` and the framing after one outbound datagram.
  unfoldable pub frame_into :
      UdpFraming Writer Reader → Bytes → Bytes → Bytes × UdpFraming Writer Reader
  frame_into (ale w r) payload out =
      let (packet, w') = write_alepkt w ale_pkt_dt payload in (out ++ packet, ale w' r)
  frame_into (raw pending) payload out =
      ((out ++ to_le_bytes 4 (length payload % 2 ^ 32)) ++ payload, raw pending)

  -- The datagrams that the closure gets, in order, and the returned flag. A disconnect keeps the raw
  -- buffer as it is.
  unfoldable pub deframe_each :
      UdpFraming Writer Reader → Bytes → List Bytes × Bool × UdpFraming Writer Reader
  deframe_each (ale w r) data' =
      let (answer, r') = feed r data' in
      elim answer [
        | err e ↦ ([], true, ale w r')
        | ok frames ↦
            let (datagrams, disconnect) = ale_datagrams ale_pkt_dt ale_pkt_di frames in
            (datagrams, disconnect, ale w r')
      ]
  deframe_each (raw pending) data' =
      let all = pending ++ data' in
      let (datagrams, left, disconnect) = raw_datagrams (suc (length all)) all in
      (datagrams, disconnect, raw (if disconnect then all else left))
