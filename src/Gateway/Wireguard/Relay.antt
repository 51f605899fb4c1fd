-- ===== src/Gateway/Wireguard/Relay.antt =====
-- gateway/src/security/wireguard_engine.rs: `run_plain_udp_relay` and `accept_source`. What poll and the
-- sockets answer is a script, and the end of a list of answers stands for one that says to wait.
use scg.Base.{ℕ, Bool, true, ◌&&◌, ◌==◌, Option, none, some, List, [], ◌∷◌, if◌then◌else◌}
use scg.Base.Bytes.{Bytes}
use scg.Gateway.AddressPattern.{SocketAddr, same_ip}
use scg.Gateway.RuleContext.{RuleContext, classify_and_check_policy}
use scg.Gateway.UdpRelay.{Effect, to_upstream, to_client}

unfoldable pub same_addr : SocketAddr → SocketAddr → Bool
unfolding same_ip
same_addr a b = same_ip a.ip b.ip && (a.port == b.port)

-- The answer, and the address that is bound afterwards.
unfoldable pub accept_source : Option SocketAddr → SocketAddr → Bool × Option SocketAddr
unfolding same_addr
accept_source none src = (true, some src)
accept_source (some b) src = (same_addr b src, some b)

pub record WgRelay : Type 0 where
  pub last_client : Option SocketAddr
  pub log : List Effect

pub record WgDatagram (Text : Type 0) : Type 0 where
  pub peer : SocketAddr
  pub payload : Bytes
  pub now : ℕ
  pub context : RuleContext Text

pub data WgRecv (Text : Type 0) : Type 0 where
  datagram : WgDatagram Text → WgRecv Text
  recv_interrupted recv_would_block recv_failed : WgRecv Text

pub data WgReply : Type 0 where
  received : Bytes → WgReply
  reply_interrupted reply_would_block reply_failed : WgReply

-- One poll; a socket that is not ready has no answers.
pub data WgTurn (Text : Type 0) : Type 0 where
  poll_failed poll_interrupted : WgTurn Text
  poll_ready : List (WgRecv Text) → List WgReply → WgTurn Text

abbrev pub handed : Effect → WgRelay → WgRelay
handed e s = record { last_client = s.last_client; log = e ∷ s.log }

abbrev pub bind_source : Option SocketAddr → WgRelay → WgRelay
bind_source client s = record { last_client = client; log = s.log }

abbrev pub to_last : Option SocketAddr → Bytes → WgRelay → WgRelay
to_last none payload s = s
to_last (some client) payload s = handed (to_client client payload) s

unfoldable pub replies : List WgReply → WgRelay → WgRelay
replies [] s = s
replies (received payload ∷ rs) s = replies rs (to_last s.last_client payload s)
replies (reply_interrupted ∷ rs) s = replies rs s
replies (reply_would_block ∷ rs) s = s
replies (reply_failed ∷ rs) s = s

module _ {Text : Type 0} where
  abbrev pub gate : Option SocketAddr → WgDatagram Text → Bool
  gate none d = true
  gate (some dst) d = (classify_and_check_policy d.now d.context d.peer dst).0

  unfoldable pub forward : Option SocketAddr → WgDatagram Text → WgRelay → WgRelay
  unfolding accept_source classify_and_check_policy
  forward policy_dst d s =
      let (accepted, client) = accept_source s.last_client d.peer in
      if accepted && gate policy_dst d
      then handed (to_upstream d.peer d.payload) (bind_source client s)
      else bind_source client s

  unfoldable pub drain : Option SocketAddr → List (WgRecv Text) → WgRelay → WgRelay
  unfolding forward
  drain dst [] s = s
  drain dst (datagram d ∷ rs) s = drain dst rs (forward dst d s)
  drain dst (recv_interrupted ∷ rs) s = drain dst rs s
  drain dst (recv_would_block ∷ rs) s = s
  drain dst (recv_failed ∷ rs) s = s

  -- The list ends with the shutdown.
  unfoldable pub run_plain_udp_relay : Option SocketAddr → List (WgTurn Text) → WgRelay → WgRelay
  unfolding drain replies
  run_plain_udp_relay dst [] s = s
  run_plain_udp_relay dst (poll_failed ∷ turns) s = s
  run_plain_udp_relay dst (poll_interrupted ∷ turns) s = run_plain_udp_relay dst turns s
  run_plain_udp_relay dst (poll_ready rs ps ∷ turns) s =
      run_plain_udp_relay dst turns (replies ps (drain dst rs s))
