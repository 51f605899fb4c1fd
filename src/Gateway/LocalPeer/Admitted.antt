-- ===== src/Gateway/LocalPeer/Admitted.antt =====
-- gateway/src/interfaces/endpoint.rs: who is admitted.
use scg.Gateway.LocalPeer.{
  timeout_not_cleared, PeerCred, Connection, PeerFault, Admission, contains, no_numbers, is_gone,
  require, check_read, uid_not_allowed, uid_not_owner, pid_not_allowed, pid_gone, timeout_not_set,
  check_cred, decoded, read_hello, consume, cleared, taken, identify, settle, authenticate_peer,
}
use scg.Base.{
  subst, ℕ, ◌≡◌, refl, arith, Bool, true, false, not, ◌||◌, ◌==◌, Option, none, some, ◌∷◌, ◌++◌,
  if◌then◌else◌, length, Result, ok, err, bind-elim,
}
use scg.Base.Bytes.{Bytes}
use scg.Ipc.Token.{CapabilityToken, IsToken, ct_eq, as_bytes}
use scg.Ipc.Token.Compare.{ct_eq_iff}
use scg.Ipc.Handshake.{
  Hello, HelloError, Role, role_byte, hello_magic, hello_version, hello_len, decode,
}
use scg.Ipc.Handshake.HelloAccept.{decode-eq-ok}

-- The kernel's word for the peer fits the rule and the owner. Where `pidfd_open` is unsupported, the kernel
-- has not said that the process is gone.
pub record IsTrusted (a : Admission) (c : Connection) (cred : PeerCred) : Type 0 where
  pub known : c.cred ≡ some cred
  pub user_allowed : contains a.allowed_uids cred.uid ≡ true
  pub user_owner : cred.uid ≡ a.owner_uid
  pub process_allowed : (no_numbers a.allowed_pids || contains a.allowed_pids cred.pid) ≡ true
  pub process_not_gone : (no_numbers a.allowed_pids || not (is_gone c.pidfd)) ≡ true

-- The bytes are a HELLO with the token.
abbrev pub Presents : Option Bytes → CapabilityToken → Type 0
Presents none tok = (false ≡ true)
Presents (some buf) tok =
    (role : Role) × (r : ℕ) × (s : ℕ) × (buf
      ≡ hello_magic ++ (hello_version ∷ role_byte role ∷ r ∷ s ∷ tok.bytes))

abbrev pub IsWhole : Option Bytes → Type 0
IsWhole none = Unit
IsWhole (some buf) = length buf ≡ hello_len

require-ok : (b : Bool) (fault : PeerFault) → require b fault ≡ ok tt → b ≡ true
require-ok true fault h = refl
require-ok false fault h = absurd (ground (arith, h))

abbrev the_peer : PeerCred → Result PeerCred PeerFault
the_peer cred = ok cred

the_peer-eq : (x y : PeerCred) → the_peer x ≡ the_peer y → x ≡ y
the_peer-eq x y h = ground (arith, h)

check_read-IsTrusted :
    (a : Admission) (c : Connection) (cred : PeerCred) (o : Option PeerCred)
    → c.cred ≡ o
    → check_read a c.pidfd o ≡ ok cred
    → IsTrusted a c cred
check_read-IsTrusted a c cred none e h = absurd (ground (arith, h))
check_read-IsTrusted a c cred (some k) e h =
    bind-elim (require (contains a.allowed_uids k.uid) uid_not_allowed) _ h (λ _ allowed h1.
      bind-elim (require (k.uid == a.owner_uid) uid_not_owner) _ h1 (λ _ owner h2.
        bind-elim
          (require (no_numbers a.allowed_pids || contains a.allowed_pids k.pid) pid_not_allowed) _
          h2
          (λ _ pid h3.
            bind-elim (require (no_numbers a.allowed_pids || not (is_gone c.pidfd)) pid_gone) _ h3
              (λ _ live h4.
                subst (λ x. IsTrusted a c x) (the_peer-eq k cred h4)
                  (record {
                    known = e;
                    user_allowed =
                        require-ok (contains a.allowed_uids k.uid) uid_not_allowed allowed;
                    user_owner =
                        ground (arith, require-ok (k.uid == a.owner_uid) uid_not_owner owner);
                    process_allowed =
                        require-ok (no_numbers a.allowed_pids || contains a.allowed_pids k.pid)
                          pid_not_allowed pid;
                    process_not_gone =
                        require-ok (no_numbers a.allowed_pids || not (is_gone c.pidfd)) pid_gone
                          live;
                  })))))

decoded-ok : (r : Result Hello HelloError) (hello : Hello) → decoded r ≡ ok hello → r ≡ ok hello
decoded-ok (ok h) hello e = ground (arith, e)
decoded-ok (err f) hello e = absurd (ground (arith, e))

read_hello-Presents :
    (o : Option Bytes) (hello : Hello) (tok : CapabilityToken)
    → IsWhole o
    → read_hello o ≡ ok hello
    → tok.bytes ≡ hello.token.bytes
    → Presents o tok
read_hello-Presents none hello tok whole h same = absurd (ground (arith, h))
read_hello-Presents (some buf) hello tok whole h same =
    let (r, t, shape, version) = decode-eq-ok buf whole (decoded-ok (decode buf) hello h) in
    (hello.role, r, t, rw same shape)

cleared_lem :
    (b : Bool) (k cred : PeerCred)
    → (if b then ok k else err timeout_not_cleared) ≡ the_peer cred
    → k ≡ cred
cleared_lem true k cred h = the_peer-eq k cred h
cleared_lem false k cred h = absurd (ground (arith, h))

match_lem :
    (c : Connection) (k cred : PeerCred) (tok : CapabilityToken) (b : Bool)
    → cleared c k (taken tok b).0 ≡ ok cred
    → (b ≡ true) × (k ≡ cred)
match_lem c k cred tok true h = (refl, cleared_lem c.timeout_cleared k cred h)
match_lem c k cred tok false h = absurd (ground (arith, h))

abbrev the_pair : PeerCred → Hello → Result (PeerCred × Hello) PeerFault
the_pair cred hello = ok (cred, hello)

pair_lem : (x y : PeerCred) (u v : Hello) → the_pair x u ≡ the_pair y v → (x ≡ y) × (u ≡ v)
pair_lem x y u v h = (ground (arith, h), ground (arith, h))

abbrev the_hello : Hello → Result Hello PeerFault
the_hello hello = ok hello

identify_lem :
    (a : Admission) (c : Connection) (k : PeerCred) (hello : Hello)
    → identify a c ≡ ok (k, hello)
    → IsTrusted a c k × (read_hello c.hello ≡ ok hello)
unfolding identify check_cred
identify_lem a c k hello h = bind-elim (check_cred a c) _ h (λ x trusted h1.
    bind-elim (require c.timeout_set timeout_not_set) _ h1 (λ _ set h2.
      bind-elim (read_hello c.hello) _ h2 (λ y read h3.
        let (same_cred, same_hello) = pair_lem x k y hello h3 in
        (
          check_read-IsTrusted a c k c.cred refl
              (subst (λ z. check_cred a c ≡ the_peer z) same_cred trusted),
          subst (λ z. read_hello c.hello ≡ the_hello z) same_hello read,
        ))))

abbrev pub HoldsToken : Option CapabilityToken → Type 0
HoldsToken none = Unit
HoldsToken (some tok) = IsToken tok

settle_lem :
    (a : Admission) (c : Connection) (r : Result (PeerCred × Hello) PeerFault)
    (token : Option CapabilityToken) (cred : PeerCred)
    → identify a c ≡ r
    → IsWhole c.hello
    → HoldsToken token
    → (settle c r token).0 ≡ ok cred
    → IsTrusted a c cred
      × ((tok : CapabilityToken) × (token ≡ some tok) × Presents c.hello tok)
      × ((settle c r token).1 ≡ none)
unfolding consume as_bytes
settle_lem a c (err fault) token cred e whole valid h = absurd (ground (arith, h))
settle_lem a c (ok (k, hello)) none cred e whole valid h = absurd (ground (arith, h))
settle_lem a c (ok (k, hello)) (some tok) cred e whole valid h =
    let (matched, same) = match_lem c k cred tok (ct_eq tok (as_bytes hello.token)) h in
    let (trusted, read) = identify_lem a c k hello e in
    let presented = (ct_eq_iff tok (as_bytes hello.token) valid).0 matched in
    (
      subst (λ x. IsTrusted a c x) same trusted,
      (tok, refl, read_hello-Presents c.hello hello tok whole read presented),
      rw matched refl,
    )

-- A peer is admitted only if the kernel knows it as a user that the rule allows and that owns the
-- endpoint, and, where the rule lists processes, as one of them of which `pidfd_open` does not say that it
-- is gone; and if it sent a HELLO with the endpoint's token, byte for byte. The token is gone afterwards.
pub authenticate_peer-IsTrusted :
    (a : Admission) (c : Connection) (token : Option CapabilityToken) (cred : PeerCred)
    → IsWhole c.hello
    → HoldsToken token
    → (authenticate_peer a c token).0 ≡ ok cred
    → IsTrusted a c cred
      × ((tok : CapabilityToken) × (token ≡ some tok) × Presents c.hello tok)
      × ((authenticate_peer a c token).1 ≡ none)
unfolding authenticate_peer
authenticate_peer-IsTrusted a c token cred whole valid h =
    settle_lem a c (identify a c) token cred refl whole valid h
