-- ===== src/Gateway/TlsParams.antt =====
-- gateway/src/security/tls_engine/params.rs: the parameters of TLS and DTLS that a rule gives. What a
-- JSON value holds is serde_json's answer. Texts are of ASCII characters; `usize` has 64 bits.
pub mod Hex
pub mod Groups
pub mod Parse
pub mod Sound
pub mod Offload
use Prim.Native.String.{String}
use scg.Base.{
  ℕ, zero, suc, Bool, true, false, not, ◌&&◌, ◌||◌, ◌==◌, ltb, leb, ◌+◌, ◌-◌, ◌*◌, Option, none,
  some, List, [], ◌∷◌, if◌then◌else◌, Result, ok, err, ◌>>=◌,
}
use scg.Base.Bytes.{Bytes}
use scg.Base.Texts.{
  same_text, same_list, codes, is_space, trim, trim_start, split_once, rsplit_once, parse_unsigned,
}

pub data VerifyMode : Type 0 where
  verify_none verify_server verify_mutual : VerifyMode

pub data TlsProfile : Type 0 where
  default_profile subset146_pki subset146_psk integrity_only : TlsProfile

pub data TlsFault : Type 0 where
  unknown_profile unknown_verify verify_missing psk_empty psk_odd bad_hex_digit : TlsFault
  bad_resumption bad_max_sessions bad_idle_ttl cert_without_key key_without_cert : TlsFault
  psk_incomplete psk_with_tls13 pki_not_mutual integrity_with_tls13 psk_without_profile : TlsFault
  bad_group no_groups : TlsFault

abbrev pub default_dtls_max_sessions : ℕ
default_dtls_max_sessions = 1024

abbrev pub default_dtls_idle_ttl_secs : ℕ
default_dtls_idle_ttl_secs = 60

pub record TlsSecurityParams : Type 0 where
  pub version : Option String
  pub profile : TlsProfile
  pub verify : VerifyMode
  pub cert_path : Option String
  pub key_path : Option String
  pub ca_path : Option String
  pub server_name : Option String
  pub psk_identity : Option String
  pub psk_key : Option Bytes
  pub cipher_list : Option String
  pub ciphersuites : Option String
  pub groups : Option String
  pub resumption : Bool
  pub max_sessions : ℕ
  pub idle_ttl_secs : ℕ

unfoldable pub parse_profile : String → Result TlsProfile TlsFault
parse_profile s =
    if same_text s "default"
    then ok default_profile
    else if same_text s "subset146-pki" || same_text s "s146-pki" || same_text s "pki"
    then ok subset146_pki
    else if same_text s "subset146-psk" || same_text s "s146-psk" || same_text s "psk"
    then ok subset146_psk
    else if same_text s "integrity-only" || same_text s "integrity" || same_text s "null"
    then ok integrity_only
    else err unknown_profile

unfoldable pub is_tls13 : TlsSecurityParams → Bool
is_tls13 p = elim p.version [ none ↦ false | some v ↦ same_text v "tls1.3" ]

unfoldable pub is_ktls_offloadable : TlsSecurityParams → Bool
is_ktls_offloadable p = elim p.profile [
  | default_profile ↦ true
  | subset146_pki ↦ true
  | subset146_psk ↦ true
  | integrity_only ↦ false
]

abbrev or_else : Option String → Option String → Option String
or_else none t = t
or_else (some s) t = some s

-- What a profile offers for TLS up to 1.2, and for TLS 1.3.
abbrev pub default_list : TlsProfile → Option String
default_list default_profile =
    some
      "ECDHE-ECDSA-AES128-GCM-SHA256:ECDHE-RSA-AES128-GCM-SHA256:ECDHE-ECDSA-AES256-GCM-SHA384:ECDHE-RSA-AES256-GCM-SHA384"
default_list subset146_pki = some "ECDHE-ECDSA-AES256-GCM-SHA384:ECDHE-RSA-AES256-GCM-SHA384"
default_list subset146_psk = some "DHE-PSK-AES256-GCM-SHA384:@SECLEVEL=0"
default_list integrity_only =
    some "ECDHE-ECDSA-NULL-SHA:ECDHE-RSA-NULL-SHA:NULL-SHA256:NULL-SHA:@SECLEVEL=0"

abbrev pub default_suites : TlsProfile → Option String
default_suites default_profile = some "TLS_AES_128_GCM_SHA256:TLS_AES_256_GCM_SHA384"
default_suites subset146_pki = some "TLS_AES_256_GCM_SHA384:TLS_CHACHA20_POLY1305_SHA256"
default_suites subset146_psk = none
default_suites integrity_only = none

unfoldable pub cipher_policy : TlsSecurityParams → Option String × Option String
cipher_policy p = (
  or_else p.cipher_list (default_list p.profile),
  or_else p.ciphersuites (default_suites p.profile),
)

-- The host of `HOST:PORT`; an IPv6 address stands in brackets.
abbrev host_before_port : Bytes → Option (Bytes × Bytes) → Option Bytes
host_before_port addr none = some addr
host_before_port addr (some ([], port)) = some addr
host_before_port addr (some (c ∷ host, port)) = some (c ∷ host)

abbrev bracketed : Bytes → Option (Bytes × Bytes) → Option Bytes
bracketed addr none = host_before_port addr (rsplit_once b':' addr)
bracketed addr (some (host, rest)) = some host

abbrev host_in : Bytes → Option Bytes
host_in [] = none
host_in (c ∷ s) =
    if same_list (λ a b. a == b) (c ∷ s) (codes "auto")
    then none
    else if c == b'['
    then bracketed (c ∷ s) (split_once b']' s)
    else host_before_port (c ∷ s) (rsplit_once b':' (c ∷ s))

unfoldable pub host_of : Bytes → Option Bytes
host_of addr = host_in (trim addr)

unfoldable pub sni_name : TlsSecurityParams → Bytes → Bytes
unfolding host_of
sni_name p upstream_addr = elim p.server_name [
  | some name ↦ codes name
  | none ↦ elim (host_of upstream_addr) [ none ↦ codes "gateway" | some host ↦ host ]
]
