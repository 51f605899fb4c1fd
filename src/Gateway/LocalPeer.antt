-- ===== src/Gateway/LocalPeer.antt =====
-- gateway/src/interfaces/endpoint.rs: who may use a local endpoint. What the kernel says of the peer and
-- what is read from it is an argument; a process number stands for its 32 bits.
pub mod SingleUse
pub mod Admitted
pub mod Genuine
use Prim.Native.String.{String}
use scg.Base.{
  ℕ, Bool, true, false, not, ◌&&◌, ◌||◌, ◌==◌, Option, none, some, List, [], ◌∷◌, if◌then◌else◌,
  Result, ok, err, ◌>>=◌,
}
use scg.Base.Bytes.{Bytes}
use scg.Base.Texts.{any_of, same_text}
use scg.Ipc.Token.{CapabilityToken, ct_eq, as_bytes}
use scg.Ipc.Handshake.{Hello, HelloError, decode}
use scg.Gateway.AddressPattern.{SocketAddr}
use scg.Gateway.Policy.{PolicyManager, TrafficClass, check_allowed, check_allowed_destination}
use scg.Gateway.Config.{TlsMode, tls, ktls}
use scg.Gateway.TlsParams.{TlsFault, TlsSecurityParams, is_ktls_offloadable}
use scg.Gateway.TlsParams.Parse.{JsonView, from_params}

-- The policy that the endpoint shares; a poisoned lock gives none.
pub record EndpointPolicy : Type 0 where
  pub policy : Option PolicyManager
  pub traffic_class : TrafficClass

module _ (parse : String → Option SocketAddr) where
  unfoldable pub allows_destination : EndpointPolicy → String → Bool
  unfolding check_allowed_destination
  allows_destination p target = elim (parse target) [
    | none ↦ false
    | some dst ↦ elim p.policy [
      | none ↦ false
      | some manager ↦ check_allowed_destination manager dst p.traffic_class
    ]
  ]

  abbrev or_peer : Option SocketAddr → SocketAddr → SocketAddr
  or_peer none peer = peer
  or_peer (some dst) peer = dst

  unfoldable pub allows_peer : EndpointPolicy → SocketAddr → String → Bool
  unfolding check_allowed
  allows_peer p peer listen = elim p.policy [
    | none ↦ false
    | some manager ↦ check_allowed manager peer (or_peer (parse listen) peer) p.traffic_class
  ]

pub record PeerCred : Type 0 where
  pub uid : ℕ
  pub pid : ℕ

-- What `pidfd_open` answers: `ESRCH` is `process_gone`.
pub data PidAnswer : Type 0 where
  process_open process_gone pidfd_unsupported : PidAnswer

-- A connection, with what the calls on it answer. The bytes of the HELLO are as many as are asked for.
pub record Connection : Type 0 where
  pub cred : Option PeerCred
  pub pidfd : PidAnswer
  pub timeout_set : Bool
  pub hello : Option Bytes
  pub timeout_cleared : Bool

pub data PeerFault : Type 0 where
  no_credentials uid_not_allowed uid_not_owner pid_not_allowed pid_gone : PeerFault
  timeout_not_set no_hello timeout_not_cleared token_mismatch token_consumed : PeerFault
  bad_hello : HelloError → PeerFault

-- The rule's limits and the endpoint's owner.
pub record Admission : Type 0 where
  pub allowed_uids : List ℕ
  pub allowed_pids : List ℕ
  pub owner_uid : ℕ

abbrev pub contains : List ℕ → ℕ → Bool
contains xs x = any_of (λ y. y == x) xs

abbrev pub no_numbers : List ℕ → Bool
no_numbers [] = true
no_numbers (x ∷ xs) = false

abbrev pub require : Bool → PeerFault → Result (Unit {0}) PeerFault
require true fault = ok tt
require false fault = err fault

abbrev pub is_gone : PidAnswer → Bool
is_gone process_gone = true
is_gone process_open = false
is_gone pidfd_unsupported = false

abbrev pub check_known : Admission → PidAnswer → PeerCred → Result PeerCred PeerFault
check_known a pidfd cred = require (contains a.allowed_uids cred.uid) uid_not_allowed >>= λ _.
    require (cred.uid == a.owner_uid) uid_not_owner >>= λ _.
    require (no_numbers a.allowed_pids || contains a.allowed_pids cred.pid) pid_not_allowed >>= λ _.
    require (no_numbers a.allowed_pids || not (is_gone pidfd)) pid_gone >>= λ _. ok cred

abbrev pub check_read : Admission → PidAnswer → Option PeerCred → Result PeerCred PeerFault
check_read a pidfd none = err no_credentials
check_read a pidfd (some cred) = check_known a pidfd cred

unfoldable pub check_cred : Admission → Connection → Result PeerCred PeerFault
check_cred a c = check_read a c.pidfd c.cred

abbrev pub decoded : Result Hello HelloError → Result Hello PeerFault
decoded (err e) = err (bad_hello e)
decoded (ok hello) = ok hello

abbrev pub read_hello : Option Bytes → Result Hello PeerFault
read_hello none = err no_hello
read_hello (some buf) = decoded (decode buf)

-- A token that matched is consumed.
abbrev pub taken : CapabilityToken → Bool → Result (Unit {0}) PeerFault × Option CapabilityToken
taken tok true = (ok tt, none)
taken tok false = (err token_mismatch, some tok)

-- The block under the lock: the answer, and the token that is left.
unfoldable pub consume :
    Option CapabilityToken → Bytes → Result (Unit {0}) PeerFault × Option CapabilityToken
unfolding ct_eq
consume none presented = (err token_consumed, none)
consume (some tok) presented = taken tok (ct_eq tok presented)

abbrev pub cleared : Connection → PeerCred → Result (Unit {0}) PeerFault → Result PeerCred PeerFault
cleared c cred (err fault) = err fault
cleared c cred (ok u) = if c.timeout_cleared then ok cred else err timeout_not_cleared

-- Everything before the lock.
unfoldable pub identify : Admission → Connection → Result (PeerCred × Hello) PeerFault
unfolding check_cred decode
identify a c = check_cred a c >>= λ cred.
    require c.timeout_set timeout_not_set >>= λ _. read_hello c.hello >>= λ hello. ok (cred, hello)

abbrev pub settle :
    Connection
    → Result (PeerCred × Hello) PeerFault
    → Option CapabilityToken
    → Result PeerCred PeerFault × Option CapabilityToken
settle c (err fault) token = (err fault, token)
settle c (ok (cred, hello)) token = (
  cleared c cred (consume token (as_bytes hello.token)).0,
  (consume token (as_bytes hello.token)).1,
)

unfoldable pub authenticate_peer :
    Admission
    → Connection
    → Option CapabilityToken
    → Result PeerCred PeerFault × Option CapabilityToken
unfolding identify consume as_bytes
authenticate_peer a c token = settle c (identify a c) token

-- Connections in the order in which they take the lock.
unfoldable pub serve :
    Admission
    → List Connection
    → Option CapabilityToken
    → List (Result PeerCred PeerFault) × Option CapabilityToken
unfolding authenticate_peer
serve a [] token = ([], token)
serve a (c ∷ cs) token =
    let (answer, left) = authenticate_peer a c token in
    let (answers, last) = serve a cs left in (answer ∷ answers, last)

abbrev ktls_if : Result TlsSecurityParams TlsFault → TlsMode
ktls_if (err fault) = tls
ktls_if (ok p) = if is_ktls_offloadable p then ktls else tls

-- The transport of the upstream leg.
unfoldable pub upstream_tls_mode :
    {Value : Type 0} → JsonView Value → String → List (String × Value) → Option String → TlsMode
unfolding from_params is_ktls_offloadable
upstream_tls_mode j provider params version =
    if same_text provider "ktls" then ktls_if (from_params j params version) else tls
