-- ===== src/Gateway/UdpRelay.antt =====
-- gateway/src/security/udp_session.rs, gateway/src/security/routing_engine.rs and
-- gateway/src/security/dtls_engine.rs: the loop that relays datagrams with one session for each peer. The
-- two engines run the same loop; what differs is a `RelayEngine`. What the sockets answer is a script.
-- Instants are in nanoseconds, and the counters of the metrics are left out.
pub mod Follows
pub mod Bounded
pub mod Recovers
pub mod Listeners
use scg.Base.{
  ℕ, Bool, true, false, not, ◌&&◌, ◌||◌, ltb, leb, ◌-◌, ◌*◌, Option, none, some, List, [], ◌∷◌,
  if◌then◌else◌, length,
}
use scg.Base.Bytes.{Bytes}
use scg.Base.AssocMap.{get, insert, remove}
use scg.Gateway.AddressPattern.{SocketAddr, SocketAddr-discrete}
use scg.Gateway.RuleContext.{RuleContext, classify_and_check_policy}

abbrev pub second : ℕ
second = 1000000000

abbrev pub default_udp_max_sessions : ℕ
default_udp_max_sessions = 1024

abbrev pub default_udp_idle_ttl_secs : ℕ
default_udp_idle_ttl_secs = 60

unfoldable pub session_admitted : ℕ → ℕ → Bool
session_admitted current max = ltb current max

unfoldable pub stale_peers : List (SocketAddr × ℕ) → ℕ → ℕ → List SocketAddr
stale_peers [] ttl now = []
stale_peers ((peer, last) ∷ m) ttl now =
    let rest = stale_peers m ttl now in if leb ttl (now - last) then peer ∷ rest else rest

pub record Session (Socket : Type 0) : Type 0 where
  pub socket : Socket
  pub last : ℕ

-- A datagram that the socket of a session took, or that was handed to a client.
pub data Effect : Type 0 where
  to_upstream to_client : SocketAddr → Bytes → Effect

pub record UdpRelay (Socket : Type 0) : Type 0 where
  pub sessions : List (SocketAddr × Session Socket)
  pub last_evict : ℕ
  pub log : List Effect

-- What binding, connecting and the handshake of a new session answer.
pub record Opening (Socket : Type 0) : Type 0 where
  pub bound : Option Socket
  pub connected : Bool
  pub handshake : Bool

pub data SendResult : Type 0 where
  sent backpressure send_failed : SendResult

-- A datagram from a client, and what the calls answer that handle it.
pub record Datagram (Socket Text : Type 0) : Type 0 where
  pub peer : SocketAddr
  pub payload : Bytes
  pub now : ℕ
  pub context : RuleContext Text
  pub opening : Opening Socket
  pub result : SendResult

pub data Recv (Socket Text : Type 0) : Type 0 where
  datagram : Datagram Socket Text → Recv Socket Text
  recv_interrupted recv_would_block recv_failed : Recv Socket Text

pub data Reply : Type 0 where
  received : Bytes → ℕ → Reply
  reply_interrupted reply_would_block reply_failed : Reply

pub data Poll : Type 0 where
  poll_failed poll_interrupted poll_timeout poll_ready : Poll

-- A turn of the loop. A socket that is not ready has no receptions or no replies.
pub record Turn (Socket Text : Type 0) : Type 0 where
  pub now : ℕ
  pub poll : Poll
  pub receptions : List (Recv Socket Text)
  pub replies : SocketAddr → List Reply

-- How an engine opens a session, and whether it takes an empty reply for the end of one.
pub record RelayEngine (Socket : Type 0) : Type 0 where
  pub open_session : Opening Socket → Option Socket
  pub empty_closes : Bool

abbrev pub is_empty_bytes : Bytes → Bool
is_empty_bytes [] = true
is_empty_bytes (b ∷ bs) = false

abbrev pub to_remove : SocketAddr → Bool → List SocketAddr → List SocketAddr
to_remove peer true peers = peer ∷ peers
to_remove peer false peers = peers

module _ {Socket : Type 0} where
  unfoldable pub routing_open : Opening Socket → Option Socket
  routing_open o = if o.connected then o.bound else none

  unfoldable pub dtls_open : Opening Socket → Option Socket
  dtls_open o = if o.connected && o.handshake then o.bound else none

  abbrev pub routing_engine : RelayEngine Socket
  routing_engine = record { open_session = routing_open; empty_closes = false }

  abbrev pub dtls_engine : RelayEngine Socket
  dtls_engine = record { open_session = dtls_open; empty_closes = true }

  abbrev pub snapshot : List (SocketAddr × Session Socket) → List (SocketAddr × ℕ)
  snapshot [] = []
  snapshot ((peer, session) ∷ m) = (peer, session.last) ∷ snapshot m

  abbrev pub remove_all :
      List SocketAddr → List (SocketAddr × Session Socket) → List (SocketAddr × Session Socket)
  remove_all [] m = m
  remove_all (peer ∷ peers) m = remove_all peers (remove SocketAddr-discrete peer m)

  unfoldable pub evict_idle_sessions :
      ℕ → ℕ → List (SocketAddr × Session Socket) → List (SocketAddr × Session Socket)
  unfolding stale_peers remove
  evict_idle_sessions ttl now m = remove_all (stale_peers (snapshot m) ttl now) m

  abbrev pub has_session : SocketAddr → UdpRelay Socket → Bool
  has_session peer s = elim (get SocketAddr-discrete peer s.sessions) [
    | none ↦ false
    | some _ ↦ true
  ]

  -- At most once a second.
  unfoldable pub evict_due : ℕ → ℕ → UdpRelay Socket → UdpRelay Socket
  unfolding evict_idle_sessions
  evict_due ttl now s =
      if leb second (now - s.last_evict)
      then record s { sessions = evict_idle_sessions ttl now s.sessions; last_evict = now }
      else s

  abbrev pub sent_on :
      SocketAddr → ℕ → Session Socket → SendResult → UdpRelay Socket → UdpRelay Socket
  sent_on peer now session sent s = record s {
    sessions = insert SocketAddr-discrete peer (record session { last = now }) s.sessions;
  }
  sent_on peer now session backpressure s = s
  sent_on peer now session send_failed s = record s {
    sessions = remove SocketAddr-discrete peer s.sessions;
  }

  abbrev pub touch : SocketAddr → ℕ → UdpRelay Socket → UdpRelay Socket
  touch peer now s = elim (get SocketAddr-discrete peer s.sessions) [
    | none ↦ s
    | some session ↦ record s {
      sessions = insert SocketAddr-discrete peer (record session { last = now }) s.sessions;
    }
  ]

  module _ (engine : RelayEngine Socket) where
    -- The replies of one session, in order, up to the first that ends the reading; true where the session
    -- has to go.
    unfoldable pub drain : SocketAddr → List Reply → UdpRelay Socket → UdpRelay Socket × Bool
    unfolding get insert
    drain peer [] s = (s, false)
    drain peer (received payload now ∷ rs) s =
        let rest =
          drain peer rs (touch peer now (record s { log = to_client peer payload ∷ s.log })) in
        if engine.empty_closes && is_empty_bytes payload then (s, true) else rest
    drain peer (reply_interrupted ∷ rs) s = drain peer rs s
    drain peer (reply_would_block ∷ rs) s = (s, false)
    drain peer (reply_failed ∷ rs) s = (s, true)

    -- The sessions of the snapshot in turn; those that have to go are collected.
    unfoldable pub reverse_all :
        (SocketAddr → List Reply)
        → List (SocketAddr × ℕ)
        → UdpRelay Socket
        → UdpRelay Socket × List SocketAddr
    unfolding drain
    reverse_all replies [] s = (s, [])
    reverse_all replies ((peer, last) ∷ m) s =
        if has_session peer s
        then (let t = drain peer (replies peer) s in
            let u = reverse_all replies m t.0 in (u.0, to_remove peer t.1 u.1))
        else reverse_all replies m s

  module _ {Text : Type 0} where
    -- The log after a send: what the socket did not take is dropped.
    abbrev pub noted : Datagram Socket Text → SendResult → UdpRelay Socket → UdpRelay Socket
    noted d sent s = record s { log = to_upstream d.peer d.payload ∷ s.log }
    noted d backpressure s = s
    noted d send_failed s = s

    abbrev pub sent_in :
        Datagram Socket Text → UdpRelay Socket → Option (Session Socket) → UdpRelay Socket
    sent_in d s none = s
    sent_in d s (some session) = sent_on d.peer d.now session d.result (noted d d.result s)

    abbrev pub send : Datagram Socket Text → UdpRelay Socket → UdpRelay Socket
    send d s = sent_in d s (get SocketAddr-discrete d.peer s.sessions)

    abbrev pub send_opened :
        Datagram Socket Text → UdpRelay Socket → Option (UdpRelay Socket) → UdpRelay Socket
    send_opened d s none = s
    send_opened d s (some t) = send d t

    -- What the gate says of a datagram.
    abbrev pub gate : SocketAddr → Datagram Socket Text → Bool
    gate target d = (classify_and_check_policy d.now d.context d.peer target).0

  module _ {Text : Type 0} (engine : RelayEngine Socket) (max_sessions ttl : ℕ)
      (target : SocketAddr) where
    abbrev pub opened : Datagram Socket Text → UdpRelay Socket → Option (UdpRelay Socket)
    opened d s = elim (get SocketAddr-discrete d.peer s.sessions) [
      | some _ ↦ some s
      | none ↦ elim (engine.open_session d.opening) [
        | none ↦ none
        | some socket ↦ some (record s {
          sessions =
              insert SocketAddr-discrete d.peer (record { socket = socket; last = d.now })
                s.sessions;
        })
      ]
    ]

    -- One datagram of a client: admission, the gate, the session, the send.
    unfoldable pub forward : Datagram Socket Text → UdpRelay Socket → UdpRelay Socket
    unfolding session_admitted get insert remove classify_and_check_policy routing_open dtls_open
    forward d s =
        if not (has_session d.peer s) && not (session_admitted (length s.sessions) max_sessions)
        then s
        else if not (gate target d)
        then s
        else send_opened d s (opened d s)

    unfoldable pub forward_all : List (Recv Socket Text) → UdpRelay Socket → UdpRelay Socket
    unfolding forward
    forward_all [] s = s
    forward_all (datagram d ∷ rs) s = forward_all rs (forward d s)
    forward_all (recv_interrupted ∷ rs) s = forward_all rs s
    forward_all (recv_would_block ∷ rs) s = s
    forward_all (recv_failed ∷ rs) s = s

    unfoldable pub relay_turn : Turn Socket Text → UdpRelay Socket → UdpRelay Socket
    unfolding forward_all reverse_all
    relay_turn turn s =
        let t =
          reverse_all engine turn.replies (snapshot s.sessions) (forward_all turn.receptions s) in
        record t.0 { sessions = remove_all t.1 t.0.sessions }

    -- The loop, until the shutdown flag is set at the end of the turns.
    unfoldable pub run : List (Turn Socket Text) → UdpRelay Socket → UdpRelay Socket
    unfolding evict_due relay_turn
    run [] s = s
    run (turn ∷ turns) s = elim turn.poll [
      | poll_failed ↦ evict_due ttl turn.now s
      | poll_interrupted ↦ run turns (evict_due ttl turn.now s)
      | poll_timeout ↦ run turns (evict_due ttl turn.now s)
      | poll_ready ↦ run turns (relay_turn turn (evict_due ttl turn.now s))
    ]
