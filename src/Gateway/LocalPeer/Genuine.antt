-- ===== src/Gateway/LocalPeer/Genuine.antt =====
-- gateway/src/interfaces/endpoint.rs: a peer with the token is let in.
use scg.Base.{
  ℕ, ◌≡◌, ◌⊎◌, refl, arith, true, ◌==◌, Option, none, some, List, [], ◌∷◌, Any, All, Result, ok,
  err, Bool-cases, inl, inr,
}
use scg.Ipc.Token.{CapabilityToken, IsToken, ct_eq, as_bytes}
use scg.Ipc.Token.Compare.{ct_eq_iff}
use scg.Ipc.Handshake.{Hello, Role, new, encode}
use scg.Ipc.Handshake.HelloAccept.{decode-encode}
use scg.Gateway.LocalPeer.{
  PeerCred, Connection, PeerFault, Admission, check_cred, consume, identify, settle,
  authenticate_peer, serve,
}
use scg.Gateway.LocalPeer.SingleUse.{admitted, uses, one, admitted-one, serve-admitted}
use scg.Gateway.LocalPeer.Admitted.{IsTrusted}

-- A trusted peer that sends the HELLO of a client with the token, on a connection whose calls succeed.
pub record IsGenuine (a : Admission) (tok : CapabilityToken) (c : Connection) : Type 0 where
  pub cred : PeerCred
  pub trusted : IsTrusted a c cred
  pub timeout_set : c.timeout_set ≡ true
  pub role : Role
  pub presents : c.hello ≡ some (encode (new role tok))

same_user : (m n : ℕ) → m ≡ n → (m == n) ≡ true
same_user m n h = ground (arith, h)

genuine-identify :
    (a : Admission) (tok : CapabilityToken) (c : Connection)
    → IsToken tok
    → (g : IsGenuine a tok c) → identify a c ≡ ok (g.cred, new g.role tok)
unfolding identify check_cred
genuine-identify a tok c valid g =
    let owner = same_user g.cred.uid a.owner_uid g.trusted.user_owner in
    rw
      (
        g.trusted.known,
        g.trusted.user_allowed,
        owner,
        g.trusted.process_allowed,
        g.trusted.process_not_gone,
        g.timeout_set,
        g.presents,
        (decode-encode g.role tok valid).0,
      )
      refl

settle-cases :
    (c : Connection) (r : Result (PeerCred × Hello) PeerFault) (tok : CapabilityToken)
    → c.timeout_cleared ≡ true
    → (((settle c r (some tok)).1 ≡ some tok) × (one (settle c r (some tok)).0 ≡ 0))
      ⊎ (((settle c r (some tok)).1 ≡ none) × (one (settle c r (some tok)).0 ≡ 1))
unfolding consume
settle-cases c (err fault) tok clear = inl (refl, refl)
settle-cases c (ok (cred, hello)) tok clear = elim (Bool-cases (ct_eq tok (as_bytes hello.token))) [
  | inl same ↦ inr (rw (same, clear) (refl, refl))
  | inr other ↦ inl (rw other (refl, refl))
]

settle-genuine :
    (c : Connection) (cred : PeerCred) (role : Role) (tok : CapabilityToken)
    → IsToken tok
    → c.timeout_cleared ≡ true
    → settle c (ok (cred, new role tok)) (some tok) ≡ (ok cred, none)
unfolding consume as_bytes new
settle-genuine c cred role tok valid clear = rw ((ct_eq_iff tok tok.bytes valid).1 refl, clear) refl

authenticate_peer-IsGenuine :
    (a : Admission) (tok : CapabilityToken) (c : Connection)
    → IsToken tok
    → c.timeout_cleared ≡ true
    → (g : IsGenuine a tok c) → authenticate_peer a c (some tok) ≡ (ok g.cred, none)
unfolding authenticate_peer
authenticate_peer-IsGenuine a tok c valid clear g =
    rw (genuine-identify a tok c valid g) (settle-genuine c g.cred g.role tok valid clear)

no_uses : (o : Option CapabilityToken) → uses o ≡ 0 → o ≡ none
no_uses none h = refl
no_uses (some tok) h = absurd (omega (arith, h))

serve-none :
    (a : Admission) (cs : List Connection)
    → (admitted (serve a cs none).0 ≡ 0) × ((serve a cs none).1 ≡ none)
serve-none a cs =
    let bound = serve-admitted a cs none in
    (omega (arith, bound), no_uses (serve a cs none).1 (omega (arith, bound)))

module _ (a : Admission) (tok : CapabilityToken) (valid : IsToken tok) where
  -- Where some connection is from a trusted peer that sends the HELLO of a client with the token, and the
  -- read timeouts can be set for it and cleared for all, exactly one connection is admitted, in whatever
  -- order they take the lock, and the token is gone.
  pub serve-IsGenuine :
      (cs : List Connection)
      → All (λ c. c.timeout_cleared ≡ true) cs
      → Any (IsGenuine a tok) cs
      → (admitted (serve a cs (some tok)).0 ≡ 1) × ((serve a cs (some tok)).1 ≡ none)
  unfolding serve authenticate_peer
  serve-IsGenuine [] clear g = absurd g
  serve-IsGenuine (c ∷ cs) clear (inl g) =
      let (zero_more, gone) = serve-none a cs in
      rw (authenticate_peer-IsGenuine a tok c valid clear.0 g)
        (omega (arith, admitted-one (ok g.cred) (serve a cs none).0, zero_more), gone)
  serve-IsGenuine (c ∷ cs) clear (inr g) = elim (settle-cases c (identify a c) tok clear.0) [
    | inl (kept, nobody) ↦
        let (once, gone) = serve-IsGenuine cs clear.1 g in
        let first = (settle c (identify a c) (some tok)).0 in
        rw kept (omega (arith, admitted-one first (serve a cs (some tok)).0, nobody, once), gone)
    | inr (gone, somebody) ↦
        let (zero_more, last) = serve-none a cs in
        let first = (settle c (identify a c) (some tok)).0 in
        rw gone (omega (arith, admitted-one first (serve a cs none).0, somebody, zero_more), last)
  ]
