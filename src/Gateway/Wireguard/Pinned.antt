-- ===== src/Gateway/Wireguard/Pinned.antt =====
-- gateway/src/security/wireguard_engine.rs: the relay serves one client.
use scg.Base.{
  ℕ, Bool, true, false, ◌&&◌, ◌≡◌, refl, sym, ap₂, arith, Option, none, some, List, [], ◌∷◌,
  if◌then◌else◌, All,
}
use scg.Base.Bytes.{Bytes}
use scg.Gateway.AddressPattern.{IpAddr, v4, v6, SocketAddr, same_ip}
use scg.Gateway.UdpRelay.{Effect, to_upstream, to_client}
use scg.Gateway.Wireguard.Relay.{
  same_addr, accept_source, WgRelay, WgDatagram, WgRecv, datagram, recv_interrupted,
  recv_would_block, recv_failed, WgReply, received, reply_interrupted, reply_would_block,
  reply_failed, WgTurn, poll_failed, poll_interrupted, poll_ready, gate, forward, drain, to_last,
  replies, run_plain_udp_relay,
}

-- The client that a datagram is from or to.
abbrev pub client_of : Effect → SocketAddr
client_of (to_upstream client payload) = client
client_of (to_client client payload) = client

abbrev Serves : Option SocketAddr → List Effect → Type 0
Serves none log = log ≡ []
Serves (some client) log = All (λ e. client_of e ≡ client) log

-- Every datagram is from or to the bound client, and there is none before one is bound.
unfoldable pub IsPinned : WgRelay → Type 0
IsPinned s = Serves s.last_client s.log

same_ip-eq : (a b : IpAddr) → same_ip a b ≡ true → a ≡ b
unfolding same_ip
same_ip-eq (v4 a) (v4 b) h = ground (arith, h)
same_ip-eq (v6 a) (v6 b) h = ground (arith, h)
same_ip-eq (v4 a) (v6 b) h = absurd (ground (arith, h))
same_ip-eq (v6 a) (v4 b) h = absurd (ground (arith, h))

abbrev the_addr : IpAddr → ℕ → SocketAddr
the_addr ip port = record { ip = ip; port = port }

same_addr-eq : (a b : SocketAddr) → same_addr a b ≡ true → a ≡ b
unfolding same_addr
same_addr-eq a b h =
    ap₂ (λ ip port. the_addr ip port) (same_ip-eq a.ip b.ip (ground (arith, h))) (ground (arith, h))

handed-IsPinned :
    (b : Bool) (client : SocketAddr) (e : Effect) (log : List Effect)
    → All (λ x. client_of x ≡ client) log
    → (b ≡ true → client_of e ≡ client)
    → IsPinned (
        if b
        then record { last_client = some client; log = e ∷ log }
        else record { last_client = some client; log = log })
unfolding IsPinned
handed-IsPinned true client e log h same = (same refl, h)
handed-IsPinned false client e log h same = h

to_last-IsPinned :
    (payload : Bytes) (client : Option SocketAddr) (log : List Effect)
    → Serves client log
    → IsPinned (to_last client payload (record { last_client = client; log = log }))
unfolding IsPinned
to_last-IsPinned payload none log k = k
to_last-IsPinned payload (some client) log k = (refl, k)

replies-IsPinned : (ps : List WgReply) (s : WgRelay) → IsPinned s → IsPinned (replies ps s)
unfolding replies IsPinned
replies-IsPinned [] s h = h
replies-IsPinned (received payload ∷ ps) s h =
    replies-IsPinned ps (to_last s.last_client payload s)
      (to_last-IsPinned payload s.last_client s.log h)
replies-IsPinned (reply_interrupted ∷ ps) s h = replies-IsPinned ps s h
replies-IsPinned (reply_would_block ∷ ps) s h = h
replies-IsPinned (reply_failed ∷ ps) s h = h

module _ {Text : Type 0} (dst : Option SocketAddr) where
  forward-IsPinned :
      (d : WgDatagram Text) (client : Option SocketAddr) (log : List Effect)
      → Serves client log
      → IsPinned (forward dst d (record { last_client = client; log = log }))
  unfolding forward accept_source
  forward-IsPinned d none log h =
      handed-IsPinned (gate dst d) d.peer (to_upstream d.peer d.payload) log (rw h tt) (λ e. refl)
  forward-IsPinned d (some c) log h =
      handed-IsPinned (same_addr c d.peer && gate dst d) c (to_upstream d.peer d.payload) log h
        (λ e. sym (same_addr-eq c d.peer (ground (arith, e))))

  drain-IsPinned : (rs : List (WgRecv Text)) (s : WgRelay) → IsPinned s → IsPinned (drain dst rs s)
  unfolding drain IsPinned
  drain-IsPinned [] s h = h
  drain-IsPinned (datagram d ∷ rs) s h =
      drain-IsPinned rs (forward dst d s) (forward-IsPinned d s.last_client s.log h)
  drain-IsPinned (recv_interrupted ∷ rs) s h = drain-IsPinned rs s h
  drain-IsPinned (recv_would_block ∷ rs) s h = h
  drain-IsPinned (recv_failed ∷ rs) s h = h

  -- From a relay that has served at most its bound client, every datagram that it hands on is from or
  -- to the bound client, whatever arrives from whomever.
  pub run_plain_udp_relay-IsPinned :
      (turns : List (WgTurn Text)) (s : WgRelay)
      → IsPinned s
      → IsPinned (run_plain_udp_relay dst turns s)
  unfolding run_plain_udp_relay
  run_plain_udp_relay-IsPinned [] s h = h
  run_plain_udp_relay-IsPinned (poll_failed ∷ turns) s h = h
  run_plain_udp_relay-IsPinned (poll_interrupted ∷ turns) s h =
      run_plain_udp_relay-IsPinned turns s h
  run_plain_udp_relay-IsPinned (poll_ready rs ps ∷ turns) s h =
      run_plain_udp_relay-IsPinned turns (replies ps (drain dst rs s))
        (replies-IsPinned ps (drain dst rs s) (drain-IsPinned rs s h))
