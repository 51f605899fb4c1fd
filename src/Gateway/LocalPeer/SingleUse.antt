-- ===== src/Gateway/LocalPeer/SingleUse.antt =====
-- gateway/src/interfaces/endpoint.rs: a token admits one peer.
use scg.Gateway.LocalPeer.{
  timeout_not_cleared, PeerCred, Connection, PeerFault, Admission, consume, identify, settle,
  authenticate_peer, serve,
}
use scg.Base.{
  ℕ, suc, ◌≤◌, ◌+◌, ◌≡◌, arith, Bool, true, false, Option, none, some, List, [], ◌∷◌, if◌then◌else◌,
  Result, ok, err, Bool-cases, inl, inr,
}
use scg.Ipc.Token.{CapabilityToken, ct_eq, as_bytes}
use scg.Ipc.Handshake.{Hello}

-- How many peers were admitted.
unfoldable pub admitted : List (Result PeerCred PeerFault) → ℕ
admitted [] = 0
admitted (ok cred ∷ rs) = suc (admitted rs)
admitted (err fault ∷ rs) = admitted rs

abbrev pub uses : Option CapabilityToken → ℕ
uses none = 0
uses (some token) = 1

abbrev pub one : Result PeerCred PeerFault → ℕ
one (ok cred) = 1
one (err fault) = 0

clear_lem : (b : Bool) (cred : PeerCred) → one (if b then ok cred else err timeout_not_cleared) ≤ 1
clear_lem true cred = omega arith
clear_lem false cred = omega arith

pub settle-uses :
    (c : Connection) (r : Result (PeerCred × Hello) PeerFault) (token : Option CapabilityToken)
    → one (settle c r token).0 + uses (settle c r token).1 ≤ uses token
unfolding consume
settle-uses c (err fault) token = omega arith
settle-uses c (ok (cred, hello)) none = omega arith
settle-uses c (ok (cred, hello)) (some tok) = elim (Bool-cases (ct_eq tok (as_bytes hello.token))) [
  | inl same ↦ rw same (omega (arith, clear_lem c.timeout_cleared cred))
  | inr other ↦ rw other (omega arith)
]

pub admitted-one :
    (r : Result PeerCred PeerFault) (rs : List (Result PeerCred PeerFault))
    → admitted (r ∷ rs) ≡ one r + admitted rs
unfolding admitted
admitted-one (ok cred) rs = omega arith
admitted-one (err fault) rs = omega arith

-- Of any number of connections, in whatever order they take the lock, at most as many are admitted as
-- the endpoint had tokens, at first one and none after, less those that are left.
pub serve-admitted :
    (a : Admission) (cs : List Connection) (token : Option CapabilityToken)
    → admitted (serve a cs token).0 + uses (serve a cs token).1 ≤ uses token
unfolding serve authenticate_peer admitted
serve-admitted a [] token = omega arith
serve-admitted a (c ∷ cs) token =
    let first = authenticate_peer a c token in
    let rest = serve a cs first.1 in
    omega (
      arith,
      settle-uses c (identify a c) token,
      serve-admitted a cs first.1,
      admitted-one first.0 rest.0,
    )
