-- ===== src/Gateway/TlsParams/Parse.antt =====
-- gateway/src/security/tls_engine/params.rs: `TlsSecurityParams::from_params` and `validate`.
use scg.Gateway.TlsParams.{
  verify_none, verify_server, verify_mutual, default_profile, subset146_pki, subset146_psk,
  integrity_only, unknown_verify, verify_missing, bad_resumption, bad_max_sessions, bad_idle_ttl,
  cert_without_key, key_without_cert, psk_incomplete, psk_with_tls13, pki_not_mutual,
  integrity_with_tls13, psk_without_profile, TlsFault, TlsProfile, VerifyMode, TlsSecurityParams,
  parse_profile, is_tls13, default_dtls_max_sessions, default_dtls_idle_ttl_secs,
}
use Prim.Native.String.{String}
use scg.Base.{
  ℕ, Bool, true, false, not, ◌&&◌, ◌||◌, ltb, Option, none, some, List, if◌then◌else◌, Result, ok,
  err, ◌>>=◌,
}
use scg.Base.Bytes.{Bytes}
use scg.Base.Texts.{same_text, codes, parse_unsigned}
use scg.Gateway.TlsParams.Hex.{decode_hex}
use scg.Gateway.TlsParams.Groups.{check_groups}
use scg.Gateway.Config.Validate.{get_param}

abbrev pub is_some : {A : Type 0} → Option A → Bool
is_some none = false
is_some (some a) = true

-- `if test { return Err(fault) }`
abbrev pub refuse : Bool → TlsFault → Result (Unit {0}) TlsFault
refuse true fault = err fault
refuse false fault = ok tt

abbrev pub check_identity : Option String → Option String → Result (Unit {0}) TlsFault
check_identity none none = ok tt
check_identity none (some key) = err key_without_cert
check_identity (some cert) none = err cert_without_key
check_identity (some cert) (some key) = ok tt

abbrev pub is_mutual : VerifyMode → Bool
is_mutual verify_mutual = true
is_mutual _ = false

abbrev pub is_psk : TlsProfile → Bool
is_psk subset146_psk = true
is_psk _ = false

abbrev pub check_profile : TlsProfile → TlsSecurityParams → Result (Unit {0}) TlsFault
check_profile default_profile p = ok tt
check_profile subset146_pki p = refuse (not (is_mutual p.verify)) pki_not_mutual
check_profile subset146_psk p =
    refuse (not (is_some p.psk_identity) || not (is_some p.psk_key)) psk_incomplete >>= λ _.
    refuse (is_tls13 p) psk_with_tls13
check_profile integrity_only p = refuse (is_tls13 p) integrity_with_tls13

abbrev pub check_listed : Option String → Result (Unit {0}) TlsFault
check_listed none = ok tt
check_listed (some groups) = check_groups (codes groups)

unfoldable pub validate : TlsSecurityParams → Result (Unit {0}) TlsFault
unfolding check_groups is_tls13
validate p = check_identity p.cert_path p.key_path >>= λ _. check_profile p.profile p >>= λ _.
    refuse (is_some p.psk_key && not (is_psk p.profile)) psk_without_profile >>= λ _.
    check_listed p.groups

-- The answers of a JSON value: its text, its unsigned number and its truth value.
pub record JsonView (Value : Type 0) : Type 0 where
  pub as_str : Value → Option String
  pub as_u64 : Value → Option ℕ
  pub as_bool : Value → Option Bool

-- `s.parse::<bool>()`
abbrev pub parse_bool : Option String → Option Bool
parse_bool none = none
parse_bool (some s) =
    if same_text s "true" then some true else if same_text s "false" then some false else none

abbrev pub parse_u64 : Option String → Option ℕ
parse_u64 none = none
parse_u64 (some s) = parse_unsigned 18446744073709551615 (codes s)

abbrev pub or_parsed : {A : Type 0} → Option A → Option A → Option A
or_parsed none o = o
or_parsed (some a) o = some a

abbrev pub bool_or : Option Bool → Result Bool TlsFault
bool_or none = err bad_resumption
bool_or (some b) = ok b

-- A number that is there and not 0.
abbrev pub positive_or : TlsFault → Option ℕ → Result ℕ TlsFault
positive_or fault none = err fault
positive_or fault (some n) = if ltb 0 n then ok n else err fault

abbrev pub parse_verify : String → Result VerifyMode TlsFault
parse_verify s =
    if same_text s "none"
    then ok verify_none
    else if same_text s "server"
    then ok verify_server
    else if same_text s "mutual" || same_text s "mtls"
    then ok verify_mutual
    else err unknown_verify

-- What a profile implies where the rule does not say how to verify.
abbrev pub implied_verify : TlsProfile → Result VerifyMode TlsFault
implied_verify subset146_pki = ok verify_mutual
implied_verify integrity_only = ok verify_server
implied_verify subset146_psk = err verify_missing
implied_verify default_profile = err verify_missing

abbrev pub profile_or : Option String → Result TlsProfile TlsFault
profile_or none = ok default_profile
profile_or (some s) = parse_profile s

abbrev pub verify_or : TlsProfile → Option String → Result VerifyMode TlsFault
verify_or profile none = implied_verify profile
verify_or profile (some s) = parse_verify s

abbrev pub psk_or : Option String → Result (Option Bytes) TlsFault
psk_or none = ok none
psk_or (some h) = decode_hex (codes h) >>= λ key. ok (some key)

module _ {Value : Type 0} (j : JsonView Value) where
  unfoldable pub get_str : String → List (String × Value) → Option String
  get_str key params = elim (get_param key params) [ none ↦ none | some v ↦ j.as_str v ]

  abbrev pub resumption_or : Option Value → Result Bool TlsFault
  resumption_or none = ok false
  resumption_or (some v) = bool_or (or_parsed (j.as_bool v) (parse_bool (j.as_str v)))

  abbrev pub number_or : TlsFault → ℕ → Option Value → Result ℕ TlsFault
  number_or fault default_value none = ok default_value
  number_or fault default_value (some v) =
      positive_or fault (or_parsed (j.as_u64 v) (parse_u64 (j.as_str v)))

  -- The record at the end of the reading, from what was checked on the way.
  abbrev pub assembled :
      List (String × Value)
      → Option String
      → TlsProfile
      → VerifyMode
      → Option Bytes
      → Bool
      → ℕ
      → ℕ
      → TlsSecurityParams
  assembled params protocol_version profile verify psk_key resumption max_sessions idle_ttl_secs =
      record {
        version = protocol_version;
        profile = profile;
        verify = verify;
        cert_path = get_str "cert_path" params;
        key_path = get_str "key_path" params;
        ca_path = get_str "ca_path" params;
        server_name = get_str "server_name" params;
        psk_identity = get_str "psk_identity" params;
        psk_key = psk_key;
        cipher_list = get_str "cipher_list" params;
        ciphersuites = get_str "ciphersuites" params;
        groups = get_str "groups" params;
        resumption = resumption;
        max_sessions = max_sessions;
        idle_ttl_secs = idle_ttl_secs;
      }

  unfoldable pub from_params :
      List (String × Value) → Option String → Result TlsSecurityParams TlsFault
  unfolding get_str validate parse_profile decode_hex
  from_params params protocol_version = profile_or (get_str "profile" params) >>= λ profile.
      verify_or profile (get_str "verify" params) >>= λ verify.
      psk_or (get_str "psk_hex" params) >>= λ psk_key.
      resumption_or (get_param "resumption" params) >>= λ resumption.
      number_or bad_max_sessions default_dtls_max_sessions (get_param "max_sessions" params)
      >>= λ max_sessions.
          number_or bad_idle_ttl default_dtls_idle_ttl_secs (get_param "idle_ttl_secs" params)
          >>= λ idle_ttl_secs.
              let parsed =
                assembled params protocol_version profile verify psk_key resumption max_sessions
                  idle_ttl_secs in
              validate parsed >>= λ _. ok parsed
