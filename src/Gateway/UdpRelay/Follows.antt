-- ===== src/Gateway/UdpRelay/Follows.antt =====
-- gateway/src/security/routing_engine.rs and gateway/src/security/dtls_engine.rs: what every part of a turn
-- keeps of the sessions and adds to the log.
use scg.Gateway.UdpRelay.{
  opened, send_opened, send, noted, UdpRelay, Session, Effect, to_upstream, to_client, Datagram,
  Turn, Recv, Reply, RelayEngine, SendResult, sent, backpressure, send_failed, received,
  reply_interrupted, reply_would_block, reply_failed, datagram, recv_interrupted, recv_would_block,
  recv_failed, session_admitted, remove_all, evict_idle_sessions, evict_due, second, stale_peers,
  snapshot, has_session, sent_on, touch, drain, reverse_all, gate, forward, is_empty_bytes,
}
use scg.Base.{
  ◌⊎◌, ℕ, Bool, true, false, not, ◌&&◌, leb, ◌-◌, ◌+◌, ◌≤◌, ◌<◌, ◌≡◌, refl, arith, some, List, [],
  ◌∷◌, if◌then◌else◌, length, Any, inl, inr, Option-cases, Bool-cases,
}
use scg.Base.Bytes.{Bytes}
use scg.Base.AssocMap.{
  get, insert, remove, length-insert_le, length-insert_present, length-remove_le,
}
use scg.Gateway.AddressPattern.{SocketAddr, SocketAddr-discrete}

abbrev share : (SocketAddr → Bytes → Bool) → Effect → ℕ
share test (to_upstream peer payload) = if test peer payload then 1 else 0
share test (to_client peer payload) = 0

-- How many datagrams of a kind went upstream.
unfoldable pub sends : (SocketAddr → Bytes → Bool) → List Effect → ℕ
sends test [] = 0
sends test (e ∷ log) = share test e + sends test log

module _ {Socket Text : Type 0} (test : SocketAddr → Bytes → Bool) (target : SocketAddr) where
  -- One for a datagram of the kind that the gate lets through.
  abbrev pub allowance : Datagram Socket Text → ℕ
  allowance d = if gate target d && test d.peer d.payload then 1 else 0

  abbrev pub recv_allowance : Recv Socket Text → ℕ
  recv_allowance (datagram d) = allowance d
  recv_allowance recv_interrupted = 0
  recv_allowance recv_would_block = 0
  recv_allowance recv_failed = 0

  abbrev pub receptions_allowance : List (Recv Socket Text) → ℕ
  receptions_allowance [] = 0
  receptions_allowance (r ∷ rs) = recv_allowance r + receptions_allowance rs

  -- How many datagrams of a kind came in that the gate lets through.
  unfoldable pub allowed : List (Turn Socket Text) → ℕ
  allowed [] = 0
  allowed (turn ∷ turns) = receptions_allowance turn.receptions + allowed turns

module _ {Socket : Type 0} (max_sessions : ℕ) (test : SocketAddr → Bytes → Bool)
    (P : Effect → Type 0) where
  -- The number of sessions stays within its limit, at most `n` datagrams of the kind went upstream, and
  -- the log was only added to.
  abbrev pub Follows : ℕ → UdpRelay Socket → UdpRelay Socket → Type 0
  Follows n s t =
      (length s.sessions ≤ max_sessions → length t.sessions ≤ max_sessions)
      × (sends test t.log ≤ sends test s.log + n)
      × (Any P s.log → Any P t.log)

  pub Follows-refl : (s : UdpRelay Socket) → Follows 0 s s
  Follows-refl s = (λ h. h, omega arith, λ a. a)

  pub Follows-trans :
      (m n : ℕ) (s t u : UdpRelay Socket) → Follows m s t → Follows n t u → Follows (m + n) s u
  Follows-trans m n s t u (b, c, a) (b', c', a') =
      (λ h. b' (b h), omega (arith, c, c'), λ h. a' (a h))

  pub Follows-weaken : (m n : ℕ) (s t : UdpRelay Socket) → m ≤ n → Follows m s t → Follows n s t
  Follows-weaken m n s t le (b, c, a) = (b, omega (arith, c, le), a)

  touch-Follows :
      (peer : SocketAddr) (now : ℕ) (s : UdpRelay Socket) → Follows 0 s (touch peer now s)
  touch-Follows peer now s = elim (Option-cases (get SocketAddr-discrete peer s.sessions)) [
    | inl e ↦ rw (touch, e) (Follows-refl s)
    | inr (session, e) ↦
        rw (touch, e)
          (
            λ h. ground (
              arith,
              length-insert_present SocketAddr-discrete peer (record session { last = now })
                  s.sessions e,
              h,
            ),
            omega arith,
            λ a. a,
          )
  ]

  client_lem :
      (peer : SocketAddr) (payload : Bytes) (s : UdpRelay Socket)
      → Follows 0 s (record s { log = to_client peer payload ∷ s.log })
  unfolding sends
  client_lem peer payload s = (λ h. h, omega arith, λ a. inr a)

  pub drain-Follows :
      (engine : RelayEngine Socket) (peer : SocketAddr) (rs : List Reply) (s : UdpRelay Socket)
      → Follows 0 s (drain engine peer rs s).0
  unfolding drain
  drain-Follows engine peer [] s = Follows-refl s
  drain-Follows engine peer (received payload now ∷ rs) s =
      elim (Bool-cases (engine.empty_closes && is_empty_bytes payload)) [
        | inl closes ↦ rw closes (Follows-refl s)
        | inr stays ↦
            let logged = record s { log = to_client peer payload ∷ s.log } in
            rw stays (
              Follows-trans 0 0 s logged (drain engine peer rs (touch peer now logged)).0
                (client_lem peer payload s)
                (Follows-trans 0 0 logged (touch peer now logged)
                  (drain engine peer rs (touch peer now logged)).0 (touch-Follows peer now logged)
                  (drain-Follows engine peer rs (touch peer now logged))))
      ]
  drain-Follows engine peer (reply_interrupted ∷ rs) s = drain-Follows engine peer rs s
  drain-Follows engine peer (reply_would_block ∷ rs) s = Follows-refl s
  drain-Follows engine peer (reply_failed ∷ rs) s = Follows-refl s

  pub reverse_all-Follows :
      (engine : RelayEngine Socket) (replies : SocketAddr → List Reply) (m : List (SocketAddr × ℕ))
      (s : UdpRelay Socket)
      → Follows 0 s (reverse_all engine replies m s).0
  unfolding reverse_all
  reverse_all-Follows engine replies [] s = Follows-refl s
  reverse_all-Follows engine replies ((peer, last) ∷ m) s = elim (Bool-cases (has_session peer s)) [
    | inl there ↦
        let t = (drain engine peer (replies peer) s).0 in
        rw there (
          Follows-trans 0 0 s t (reverse_all engine replies m t).0
            (drain-Follows engine peer (replies peer) s) (reverse_all-Follows engine replies m t))
    | inr gone ↦ rw gone (reverse_all-Follows engine replies m s)
  ]

  pub length-remove_all :
      (peers : List SocketAddr) (m : List (SocketAddr × Session Socket))
      → length (remove_all peers m) ≤ length m
  length-remove_all [] m = omega arith
  length-remove_all (peer ∷ peers) m = omega (
    arith,
    length-remove_all peers (remove SocketAddr-discrete peer m),
    length-remove_le SocketAddr-discrete peer m,
  )

  evicted_lem :
      (ttl now : ℕ) (s : UdpRelay Socket)
      → Follows 0 s
          (record s { sessions = evict_idle_sessions ttl now s.sessions; last_evict = now })
  unfolding evict_idle_sessions
  evicted_lem ttl now s = (
    λ h. omega (arith, length-remove_all (stale_peers (snapshot s.sessions) ttl now) s.sessions, h),
    omega arith,
    λ a. a,
  )

  pub evict_due-Follows : (ttl now : ℕ) (s : UdpRelay Socket) → Follows 0 s (evict_due ttl now s)
  unfolding evict_due
  evict_due-Follows ttl now s = elim (Bool-cases (leb second (now - s.last_evict))) [
    | inl due ↦ rw due (evicted_lem ttl now s)
    | inr not_due ↦ rw not_due (Follows-refl s)
  ]

  pub sent_on-Follows :
      (peer : SocketAddr) (now : ℕ) (session : Session Socket) (result : SendResult)
      (s : UdpRelay Socket)
      → get SocketAddr-discrete peer s.sessions ≡ some session
      → Follows 0 s (sent_on peer now session result s)
  sent_on-Follows peer now session sent s e = (
    λ h. ground (
      arith,
      length-insert_present SocketAddr-discrete peer (record session { last = now }) s.sessions e,
      h,
    ),
    omega arith,
    λ a. a,
  )
  sent_on-Follows peer now session backpressure s e = Follows-refl s
  sent_on-Follows peer now session send_failed s e = (
    λ h. omega (arith, length-remove_le SocketAddr-discrete peer s.sessions, h),
    omega arith,
    λ a. a,
  )

  module _ {Text : Type 0} (target : SocketAddr) where
    idle_lem :
        (d : Datagram Socket Text) (s : UdpRelay Socket) → Follows (allowance test target d) s s
    idle_lem d s = (λ h. h, omega arith, λ a. a)

    sent_lem :
        (d : Datagram Socket Text) (result : SendResult) (session : Session Socket)
        (s : UdpRelay Socket)
        → gate target d ≡ true
        → get SocketAddr-discrete d.peer s.sessions ≡ some session
        → Follows
            (allowance test target d)
            s
            (sent_on d.peer d.now session result (noted d result s))
    unfolding sends
    sent_lem d sent session s passed e =
        let (b, _, _) = sent_on-Follows d.peer d.now session sent s e in
        (b, ground (arith, passed), λ a. inr a)
    sent_lem d backpressure session s passed e = idle_lem d s
    sent_lem d send_failed session s passed e =
        Follows-weaken 0 (allowance test target d) s (sent_on d.peer d.now session send_failed s)
          (omega arith) (sent_on-Follows d.peer d.now session send_failed s e)

    send-Follows :
        (d : Datagram Socket Text) (s : UdpRelay Socket)
        → gate target d ≡ true
        → Follows (allowance test target d) s (send d s)
    send-Follows d s passed = elim (Option-cases (get SocketAddr-discrete d.peer s.sessions)) [
      | inl e ↦ rw (send, e) (idle_lem d s)
      | inr (session, e) ↦ rw (send, e) (sent_lem d d.result session s passed e)
    ]

    admitted_lem :
        (d : Datagram Socket Text) (session : Session Socket) (s : UdpRelay Socket)
        → length s.sessions < max_sessions
        → Follows 0 s (record s { sessions = insert SocketAddr-discrete d.peer session s.sessions })
    admitted_lem d session s room = (
      λ h. omega (arith, length-insert_le SocketAddr-discrete d.peer session s.sessions, room),
      omega arith,
      λ a. a,
    )

    module _ (engine : RelayEngine Socket) (ttl : ℕ) where
      send_opened-Follows :
          (d : Datagram Socket Text) (s : UdpRelay Socket)
          → gate target d ≡ true
          → (has_session d.peer s ≡ true) ⊎ (length s.sessions < max_sessions)
          → Follows
              (allowance test target d)
              s
              (send_opened d s (opened engine max_sessions ttl target d s))
      send_opened-Follows d s passed room =
          elim (Option-cases (get SocketAddr-discrete d.peer s.sessions)) [
            | inr (session, e) ↦ rw (opened, e) (send-Follows d s passed)
            | inl e ↦ elim (Option-cases (engine.open_session d.opening)) [
              | inl f ↦ rw (opened, e, f) (idle_lem d s)
              | inr (socket, f) ↦
                  let session : Session Socket = record { socket = socket; last = d.now } in
                  let t = record s {
                    sessions = insert SocketAddr-discrete d.peer session s.sessions;
                  } in
                  rw (opened, e, f)
                    (let (b, c, a) = admitted_lem d session s (ground (arith, room, e)) in
                      let (b', c', a') = send-Follows d t passed in
                      (λ h. b' (b h), omega (arith, c, c'), λ h. a' (a h)))
            ]
          ]

      -- The three ways of a datagram.
      pub forward_full :
          (d : Datagram Socket Text) (s : UdpRelay Socket)
          → (not (has_session d.peer s) && not (session_admitted (length s.sessions) max_sessions))
            ≡ true
          → forward engine max_sessions ttl target d s ≡ s
      unfolding forward
      forward_full d s full = rw full refl

      pub forward_denied :
          (d : Datagram Socket Text) (s : UdpRelay Socket)
          → gate target d ≡ false
          → forward engine max_sessions ttl target d s ≡ s
      unfolding forward
      forward_denied d s denied = ground (arith, denied)

      pub forward_passed :
          (d : Datagram Socket Text) (s : UdpRelay Socket)
          → (not (has_session d.peer s) && not (session_admitted (length s.sessions) max_sessions))
            ≡ false
          → gate target d ≡ true
          → forward engine max_sessions ttl target d s
            ≡ send_opened d s (opened engine max_sessions ttl target d s)
      unfolding forward
      forward_passed d s admitted passed = rw (admitted, passed) refl

      room_lem :
          (d : Datagram Socket Text) (s : UdpRelay Socket)
          → (not (has_session d.peer s) && not (session_admitted (length s.sessions) max_sessions))
            ≡ false
          → (has_session d.peer s ≡ true) ⊎ (length s.sessions < max_sessions)
      unfolding session_admitted
      room_lem d s admitted = ground (arith, admitted)

      pub forward-Follows :
          (d : Datagram Socket Text) (s : UdpRelay Socket)
          → Follows (allowance test target d) s (forward engine max_sessions ttl target d s)
      forward-Follows d s =
          elim (Bool-cases (
            not (has_session d.peer s)
            && not (session_admitted (length s.sessions) max_sessions))) [
              | inl full ↦ rw (forward_full d s full) (idle_lem d s)
              | inr admitted ↦ elim (Bool-cases (gate target d)) [
                | inr denied ↦ rw (forward_denied d s denied) (idle_lem d s)
                | inl passed ↦
                    rw (forward_passed d s admitted passed)
                      (send_opened-Follows d s passed (room_lem d s admitted))
              ]
            ]
