-- ===== src/Gateway/UdpRelay/Recovers.antt =====
-- gateway/src/security/routing_engine.rs and gateway/src/security/dtls_engine.rs: the loop comes back from a
-- flood, when the sessions of the flood have become idle.
use scg.Base.{
  ℕ, true, false, not, ◌&&◌, leb, ◌-◌, ◌≤◌, ◌≡◌, ◌∙◌, refl, sym, arith, none, some, List, [], ◌∷◌,
  length, Any, inl, inr, Option-cases, Bool-cases,
}
use scg.Base.AssocMap.{
  get, insert, remove, get-insert_same, get-remove_same, get-remove_other, empty_of_none,
}
use scg.Gateway.AddressPattern.{SocketAddr, SocketAddr-discrete}
use scg.Gateway.UdpRelay.{
  UdpRelay, Session, Effect, to_upstream, Datagram, Recv, RelayEngine, Turn, poll_ready, datagram,
  second, stale_peers, snapshot, session_admitted, remove_all, evict_idle_sessions, evict_due,
  has_session, sent, gate, send, opened, forward, forward_all, relay_turn, run,
}
use scg.Gateway.UdpRelay.Follows.{forward_passed, reverse_all-Follows}
use scg.Gateway.UdpRelay.Bounded.{forward_all-Follows, run-Follows}

module _ {Socket : Type 0} where
  remove_all-none :
      (k : SocketAddr) (peers : List SocketAddr) (m : List (SocketAddr × Session Socket))
      → get SocketAddr-discrete k m ≡ none
      → get SocketAddr-discrete k (remove_all peers m) ≡ none
  remove_all-none k [] m e = e
  remove_all-none k (p ∷ peers) m e =
      remove_all-none k peers (remove SocketAddr-discrete p m) (elim (SocketAddr-discrete k p) [
        | yes same ↦ rw same (get-remove_same SocketAddr-discrete p m)
        | no other ↦ get-remove_other SocketAddr-discrete p k m other ∙ e
      ])

  remove_all-member :
      (k : SocketAddr) (peers : List SocketAddr) (m : List (SocketAddr × Session Socket))
      → Any (λ p. p ≡ k) peers
      → get SocketAddr-discrete k (remove_all peers m) ≡ none
  remove_all-member k [] m a = absurd a
  remove_all-member k (p ∷ peers) m (inl same) =
      remove_all-none k peers (remove SocketAddr-discrete p m)
        (rw same (get-remove_same SocketAddr-discrete k m))
  remove_all-member k (p ∷ peers) m (inr a) =
      remove_all-member k peers (remove SocketAddr-discrete p m) a

  here_lem :
      (ttl now : ℕ) (k p : SocketAddr) (first : Session Socket)
      (m : List (SocketAddr × Session Socket))
      → leb ttl (now - first.last) ≡ true
      → p ≡ k
      → Any (λ q. q ≡ k) (stale_peers (snapshot ((p, first) ∷ m)) ttl now)
  unfolding stale_peers
  here_lem ttl now k p first m stale same = rw stale (inl same)

  there_lem :
      (ttl now : ℕ) (k p : SocketAddr) (first : Session Socket)
      (m : List (SocketAddr × Session Socket))
      → Any (λ q. q ≡ k) (stale_peers (snapshot m) ttl now)
      → Any (λ q. q ≡ k) (stale_peers (snapshot ((p, first) ∷ m)) ttl now)
  unfolding stale_peers
  there_lem ttl now k p first m a = elim (Bool-cases (leb ttl (now - first.last))) [
    | inl stale ↦ rw stale (inr a)
    | inr fresh ↦ rw fresh a
  ]

  stale_peers-member :
      (ttl now : ℕ) (k : SocketAddr) (m : List (SocketAddr × Session Socket))
      (session : Session Socket)
      → get SocketAddr-discrete k m ≡ some session
      → ttl ≤ now - session.last
      → Any (λ p. p ≡ k) (stale_peers (snapshot m) ttl now)
  unfolding get stale_peers
  stale_peers-member ttl now k [] session e idle = absurd (ground (arith, e))
  stale_peers-member ttl now k ((p, first) ∷ m) session e idle = elim (SocketAddr-discrete k p) [
    | yes same ↦ here_lem ttl now k p first m (ground (arith, e, same, idle)) (sym same)
    | no other ↦
        there_lem ttl now k p first m
          (stale_peers-member ttl now k m session (ground (arith, e, other)) idle)
  ]

  -- Where every session is idle, none is left.
  pub evict_idle_sessions-all :
      (ttl now : ℕ) (m : List (SocketAddr × Session Socket))
      → ((k : SocketAddr) (session : Session Socket)
          → get SocketAddr-discrete k m ≡ some session
          → ttl ≤ now - session.last)
      → evict_idle_sessions ttl now m ≡ []
  unfolding evict_idle_sessions
  evict_idle_sessions-all ttl now m idle =
      empty_of_none SocketAddr-discrete (remove_all (stale_peers (snapshot m) ttl now) m) (λ k.
        elim (Option-cases (get SocketAddr-discrete k m)) [
          | inl e ↦ remove_all-none k (stale_peers (snapshot m) ttl now) m e
          | inr (session, e) ↦
              remove_all-member k (stale_peers (snapshot m) ttl now) m
                (stale_peers-member ttl now k m session e (idle k session e))
        ])

  due_lem :
      (ttl now : ℕ) (s : UdpRelay Socket)
      → second ≤ now - s.last_evict
      → leb second (now - s.last_evict) ≡ true
  due_lem ttl now s h = ground arith

  evicted_lem :
      (ttl now : ℕ) (s : UdpRelay Socket)
      → second ≤ now - s.last_evict
      → ((k : SocketAddr) (session : Session Socket)
          → get SocketAddr-discrete k s.sessions ≡ some session
          → ttl ≤ now - session.last)
      → (evict_due ttl now s).sessions ≡ []
  unfolding evict_due
  evicted_lem ttl now s due idle =
      rw (due_lem ttl now s due) (evict_idle_sessions-all ttl now s.sessions idle)

module _ {Socket Text : Type 0} (engine : RelayEngine Socket) (max_sessions ttl : ℕ)
    (target : SocketAddr) where
  module _ (d : Datagram Socket Text) (s : UdpRelay Socket) where
    vacant_lem : s.sessions ≡ [] → get SocketAddr-discrete d.peer s.sessions ≡ none
    unfolding get
    vacant_lem none_there = rw none_there refl

    admitted_lem :
        s.sessions ≡ []
        → 1 ≤ max_sessions
        → (not (has_session d.peer s) && not (session_admitted (length s.sessions) max_sessions))
          ≡ false
    unfolding session_admitted get
    admitted_lem none_there one = rw none_there (ground arith)

    opened_lem :
        (socket : Socket)
        → s.sessions ≡ []
        → engine.open_session d.opening ≡ some socket
        → opened engine max_sessions ttl target d s
          ≡ some (record s {
            sessions =
                insert SocketAddr-discrete d.peer
                  (record { socket = socket; last = d.now })
                  s.sessions;
          })
    opened_lem socket none_there opens = rw (opened, vacant_lem none_there, opens) refl

    -- A first datagram, for which the gate and the sockets are open, goes upstream.
    first_lem :
        (socket : Socket)
        → s.sessions ≡ []
        → 1 ≤ max_sessions
        → gate target d ≡ true
        → engine.open_session d.opening ≡ some socket
        → d.result ≡ sent
        → Any
            (λ e. e ≡ to_upstream d.peer d.payload)
            (forward engine max_sessions ttl target d s).log
    first_lem socket none_there one passed opens taken =
        let session : Session Socket = record { socket = socket; last = d.now } in
        let found = get-insert_same SocketAddr-discrete d.peer session s.sessions in
        rw
          (forward_passed max_sessions (λ p b. true) (λ e. Unit {0}) target engine ttl d s
            (admitted_lem none_there one) passed)
          (rw (opened_lem socket none_there opens) (rw (send, found) (rw taken (inl refl))))

  turn_lem :
      (P : Effect → Type 0) (turn : Turn Socket Text) (d : Datagram Socket Text)
      (rs : List (Recv Socket Text)) (s : UdpRelay Socket)
      → turn.receptions ≡ datagram d ∷ rs
      → Any P (forward engine max_sessions ttl target d s).log
      → Any P (relay_turn engine max_sessions ttl target turn s).log
  unfolding relay_turn forward_all
  turn_lem P turn d rs s first a =
      let t =
        forward_all engine max_sessions ttl target rs
          (forward engine max_sessions ttl target d s) in
      let (_, _, grown) =
        forward_all-Follows engine max_sessions ttl target (λ p b. true) P rs
          (forward engine max_sessions ttl target d s) in
      let (_, _, grown') =
        reverse_all-Follows max_sessions (λ p b. true) P engine turn.replies (snapshot s.sessions)
          t in
      rw first (grown' (grown a))

  -- When a second has passed since the last eviction, and every session, of however many, has been idle for
  -- the whole time to live, the next turn sends the first datagram that it receives upstream, if the limit
  -- is not 0, the gate lets it through, its session can be opened and the session's socket takes it. What
  -- was sent before does not count.
  pub run-recovers :
      (turn : Turn Socket Text) (turns : List (Turn Socket Text)) (d : Datagram Socket Text)
      (rs : List (Recv Socket Text)) (socket : Socket) (s : UdpRelay Socket)
      → turn.poll ≡ poll_ready
      → turn.receptions ≡ datagram d ∷ rs
      → second ≤ turn.now - s.last_evict
      → ((k : SocketAddr) (session : Session Socket)
          → get SocketAddr-discrete k s.sessions ≡ some session
          → ttl ≤ turn.now - session.last)
      → 1 ≤ max_sessions
      → gate target d ≡ true
      → engine.open_session d.opening ≡ some socket
      → d.result ≡ sent
      → Any
          (λ e. e ≡ to_upstream d.peer d.payload)
          (run engine max_sessions ttl target (turn ∷ turns) (record s { log = [] })).log
  unfolding run
  run-recovers turn turns d rs socket s ready first due idle one passed opens taken =
      let fresh = record s { log = [] } in
      let s1 = evict_due ttl turn.now fresh in
      let P : Effect → Type 0 = λ e. e ≡ to_upstream d.peer d.payload in
      let sent_first =
        first_lem d s1 socket (evicted_lem ttl turn.now fresh due idle) one passed opens taken in
      let t = relay_turn engine max_sessions ttl target turn s1 in
      let (_, _, grown) = run-Follows engine max_sessions ttl target (λ p b. true) P turns t in
      rw ready (grown (turn_lem P turn d rs s1 first sent_first))
