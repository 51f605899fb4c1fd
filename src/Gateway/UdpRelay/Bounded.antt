-- ===== src/Gateway/UdpRelay/Bounded.antt =====
-- gateway/src/security/routing_engine.rs and gateway/src/security/dtls_engine.rs: the loop bounds its
-- sessions, and sends no more upstream than the gate lets through.
use scg.Base.{ℕ, Bool, ◌+◌, ◌≤◌, arith, List, [], ◌∷◌, length}
use scg.Base.Bytes.{Bytes}
use scg.Gateway.AddressPattern.{SocketAddr}
use scg.Gateway.UdpRelay.{
  UdpRelay, Effect, Recv, RelayEngine, Turn, poll_failed, poll_interrupted, poll_timeout,
  poll_ready, datagram, recv_interrupted, recv_would_block, recv_failed, evict_due, snapshot,
  reverse_all, forward, forward_all, relay_turn, run,
}
use scg.Gateway.UdpRelay.Follows.{
  sends, allowance, receptions_allowance, allowed, Follows, Follows-refl, Follows-weaken,
  Follows-trans, forward-Follows, reverse_all-Follows, evict_due-Follows, length-remove_all,
}

module _ {Socket Text : Type 0} (engine : RelayEngine Socket) (max_sessions ttl : ℕ)
    (target : SocketAddr) where
  module _ (test : SocketAddr → Bytes → Bool) (P : Effect → Type 0) where
    pub forward_all-Follows :
        (rs : List (Recv Socket Text)) (s : UdpRelay Socket)
        → Follows max_sessions test P
            (receptions_allowance test target rs)
            s
            (forward_all engine max_sessions ttl target rs s)
    unfolding forward_all
    forward_all-Follows [] s = Follows-refl max_sessions test P s
    forward_all-Follows (datagram d ∷ rs) s =
        let t = forward engine max_sessions ttl target d s in
        Follows-trans max_sessions test P (allowance test target d)
          (receptions_allowance test target rs) s t
          (forward_all engine max_sessions ttl target rs t)
          (forward-Follows max_sessions test P target engine ttl d s) (forward_all-Follows rs t)
    forward_all-Follows (recv_interrupted ∷ rs) s =
        Follows-weaken max_sessions test P (receptions_allowance test target rs) _ s
          (forward_all engine max_sessions ttl target rs s) (omega arith) (forward_all-Follows rs s)
    forward_all-Follows (recv_would_block ∷ rs) s =
        Follows-weaken max_sessions test P 0 _ s s (omega arith)
          (Follows-refl max_sessions test P s)
    forward_all-Follows (recv_failed ∷ rs) s =
        Follows-weaken max_sessions test P 0 _ s s (omega arith)
          (Follows-refl max_sessions test P s)

    pub relay_turn-Follows :
        (turn : Turn Socket Text) (s : UdpRelay Socket)
        → Follows max_sessions test P
            (receptions_allowance test target turn.receptions)
            s
            (relay_turn engine max_sessions ttl target turn s)
    unfolding relay_turn
    relay_turn-Follows turn s =
        let t = forward_all engine max_sessions ttl target turn.receptions s in
        let u = reverse_all engine turn.replies (snapshot s.sessions) t in
        let (b, c, a) = forward_all-Follows turn.receptions s in
        let (b', c', a') =
          reverse_all-Follows max_sessions test P engine turn.replies (snapshot s.sessions) t in
        (
          λ h. omega (arith, length-remove_all max_sessions test P u.1 u.0.sessions, b' (b h)),
          omega (arith, c, c'),
          λ h. a' (a h),
        )

    pub run-Follows :
        (turns : List (Turn Socket Text)) (s : UdpRelay Socket)
        → Follows max_sessions test P
            (allowed test target turns)
            s
            (run engine max_sessions ttl target turns s)
    unfolding run allowed
    run-Follows [] s = Follows-refl max_sessions test P s
    run-Follows (turn ∷ turns) s =
        let kept = evict_due ttl turn.now s in
        let skipped =
          Follows-trans max_sessions test P 0 (allowed test target turns) s kept
            (run engine max_sessions ttl target turns kept)
            (evict_due-Follows max_sessions test P ttl turn.now s) (run-Follows turns kept) in
        let after = relay_turn engine max_sessions ttl target turn kept in
        let last = run engine max_sessions ttl target turns after in
        let n = receptions_allowance test target turn.receptions + allowed test target turns in
        let whole =
          Follows-trans max_sessions test P 0 n s kept last
            (evict_due-Follows max_sessions test P ttl turn.now s)
            (Follows-trans max_sessions test P (receptions_allowance test target turn.receptions)
              (allowed test target turns) kept after last (relay_turn-Follows turn kept)
              (run-Follows turns after)) in
        elim turn.poll
          as (λ p.
            Follows max_sessions test P
              (receptions_allowance test target turn.receptions + allowed test target turns) s
              (elim p as (λ _. UdpRelay Socket) [
                | poll_failed ↦ evict_due ttl turn.now s
                | poll_interrupted ↦
                    run engine max_sessions ttl target turns (evict_due ttl turn.now s)
                | poll_timeout ↦ run engine max_sessions ttl target turns (evict_due ttl turn.now s)
                | poll_ready ↦
                    run engine max_sessions ttl target turns
                      (relay_turn engine max_sessions ttl target turn (evict_due ttl turn.now s))
              ])) [
                | poll_failed ↦
                    Follows-weaken max_sessions test P 0 _ s kept (omega arith)
                      (evict_due-Follows max_sessions test P ttl turn.now s)
                | poll_interrupted ↦
                    Follows-weaken max_sessions test P (0 + allowed test target turns) _ s
                      (run engine max_sessions ttl target turns kept) (omega arith) skipped
                | poll_timeout ↦
                    Follows-weaken max_sessions test P (0 + allowed test target turns) _ s
                      (run engine max_sessions ttl target turns kept) (omega arith) skipped
                | poll_ready ↦
                    Follows-weaken max_sessions test P (0 + n) n s last (omega arith) whole
              ]

  -- From at most as many sessions as the limit, the loop never has more, and of the datagrams of any kind
  -- it sends at most as many upstream as came in and passed the gate, whatever the sockets answer.
  pub run-bounded :
      (test : SocketAddr → Bytes → Bool) (turns : List (Turn Socket Text)) (s : UdpRelay Socket)
      → length s.sessions ≤ max_sessions
      → (length (run engine max_sessions ttl target turns s).sessions ≤ max_sessions)
        × (sends test (run engine max_sessions ttl target turns s).log
            ≤ sends test s.log + allowed test target turns)
  run-bounded test turns s within =
      let (bounded, counted, grown) = run-Follows test (λ e. Unit {0}) turns s in
      (bounded within, counted)
