-- ===== src/Gateway/Wireguard/LockedOut.antt =====
-- gateway/src/security/wireguard_engine.rs: the relay whose client the policy denies.
use scg.Base.{◌∙◌, true, false, ◌≡◌, refl, Option, some, List, [], ◌∷◌, All, Bool-cases, inl, inr}
use scg.Base.Bytes.{Bytes}
use scg.Gateway.AddressPattern.{SocketAddr}
use scg.Gateway.UdpRelay.{Effect, to_upstream, to_client}
use scg.Gateway.Wireguard.Relay.{
  same_addr, accept_source, WgRelay, WgDatagram, WgRecv, datagram, recv_interrupted,
  recv_would_block, recv_failed, WgReply, received, reply_interrupted, reply_would_block,
  reply_failed, WgTurn, poll_failed, poll_interrupted, poll_ready, gate, forward, drain, replies,
  run_plain_udp_relay,
}

-- The datagrams for the peer gateway, the last first.
unfoldable pub sent_upstream : List Effect → List (SocketAddr × Bytes)
sent_upstream [] = []
sent_upstream (to_upstream client payload ∷ log) = (client, payload) ∷ sent_upstream log
sent_upstream (to_client client payload ∷ log) = sent_upstream log

abbrev pub bound : SocketAddr → List Effect → WgRelay
bound client log = record { last_client = some client; log = log }

replies-bound :
    (client : SocketAddr) (ps : List WgReply) (log : List Effect)
    → (later : List Effect) × (replies ps (bound client log) ≡ bound client later)
      × (sent_upstream later ≡ sent_upstream log)
unfolding replies sent_upstream
replies-bound client [] log = (log, refl, refl)
replies-bound client (received payload ∷ ps) log =
    replies-bound client ps (to_client client payload ∷ log)
replies-bound client (reply_interrupted ∷ ps) log = replies-bound client ps log
replies-bound client (reply_would_block ∷ ps) log = (log, refl, refl)
replies-bound client (reply_failed ∷ ps) log = (log, refl, refl)

module _ {Text : Type 0} (dst : Option SocketAddr) (client : SocketAddr) where
  abbrev DeniedRecv : WgRecv Text → Type 0
  DeniedRecv (datagram d) = same_addr client d.peer ≡ true → gate dst d ≡ false
  DeniedRecv recv_interrupted = Unit
  DeniedRecv recv_would_block = Unit
  DeniedRecv recv_failed = Unit

  forward-bound :
      (d : WgDatagram Text) (log : List Effect)
      → DeniedRecv (datagram d)
      → forward dst d (bound client log) ≡ bound client log
  unfolding forward accept_source
  forward-bound d log denied = elim (Bool-cases (same_addr client d.peer)) [
    | inl same ↦ rw same (rw (denied same) refl)
    | inr other ↦ rw other refl
  ]

  -- The gate denies every datagram from the client.
  abbrev pub IsDenied : List (WgTurn Text) → Type 0
  IsDenied [] = Unit
  IsDenied (poll_failed ∷ turns) = IsDenied turns
  IsDenied (poll_interrupted ∷ turns) = IsDenied turns
  IsDenied (poll_ready rs ps ∷ turns) = All DeniedRecv rs × IsDenied turns

  drain-bound :
      (rs : List (WgRecv Text)) (log : List Effect)
      → All DeniedRecv rs
      → drain dst rs (bound client log) ≡ bound client log
  unfolding drain
  drain-bound [] log h = refl
  drain-bound (datagram d ∷ rs) log h = rw (forward-bound d log h.0) (drain-bound rs log h.1)
  drain-bound (recv_interrupted ∷ rs) log h = drain-bound rs log h.1
  drain-bound (recv_would_block ∷ rs) log h = refl
  drain-bound (recv_failed ∷ rs) log h = refl

  -- A client that is bound, and that the policy denies, locks every other one out: nothing is sent
  -- upstream any more, whoever sends and however often.
  pub run_plain_udp_relay-locked_out :
      (turns : List (WgTurn Text)) (log : List Effect)
      → IsDenied turns
      → (later : List Effect) × (run_plain_udp_relay dst turns (bound client log)
          ≡ bound client later)
        × (sent_upstream later ≡ sent_upstream log)
  unfolding run_plain_udp_relay
  run_plain_udp_relay-locked_out [] log h = (log, refl, refl)
  run_plain_udp_relay-locked_out (poll_failed ∷ turns) log h = (log, refl, refl)
  run_plain_udp_relay-locked_out (poll_interrupted ∷ turns) log h =
      run_plain_udp_relay-locked_out turns log h
  run_plain_udp_relay-locked_out (poll_ready rs ps ∷ turns) log h =
      let answered = replies-bound client ps log in
      let rest = run_plain_udp_relay-locked_out turns answered.0 h.1 in
      (rest.0, rw (drain-bound rs log h.0) (rw answered.1 rest.1), rest.2 ∙ answered.2)
