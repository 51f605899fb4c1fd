-- ===== src/Gateway/TlsParams/Sound.antt =====
-- gateway/src/security/tls_engine/params.rs: what the accepted parameters are.
use scg.Gateway.TlsParams.Parse.{
  assembled, parse_u64, or_parsed, resumption_or, positive_or, psk_or, number_or, profile_or,
  verify_or, refuse, check_identity, is_mutual, is_psk, check_profile, check_listed, is_some,
  validate, from_params, get_str, JsonView,
}
use scg.Gateway.TlsParams.{
  bad_idle_ttl, bad_max_sessions, psk_without_profile, verify_none, verify_server, verify_mutual,
  default_profile, subset146_pki, subset146_psk, integrity_only, TlsFault, TlsProfile, VerifyMode,
  TlsSecurityParams, is_tls13, default_dtls_max_sessions, default_dtls_idle_ttl_secs,
}
use Prim.Native.String.{String}
use scg.Base.{
  ℕ, true, false, not, ◌&&◌, ◌≤◌, ◌≡◌, refl, arith, Option, none, some, List, Result, ok, bind-ok,
  bind-elim, subst,
}
use scg.Base.Bytes.{Bytes}
use scg.Base.Texts.{same_text_iff, codes}
use scg.Gateway.TlsParams.Groups.{AreStrong, check_groups-AreStrong}
use scg.Gateway.Config.Validate.{get_param}

-- What a profile asks of the parameters.
abbrev pub FitsProfile : TlsProfile → TlsSecurityParams → Type 0
FitsProfile default_profile p = p.psk_key ≡ none
FitsProfile subset146_pki p = (p.psk_key ≡ none) × (p.verify ≡ verify_mutual)
FitsProfile subset146_psk p =
    (is_some p.psk_identity ≡ true) × ((is_some p.psk_key ≡ true) × (is_tls13 p ≡ false))
FitsProfile integrity_only p = (p.psk_key ≡ none) × (is_tls13 p ≡ false)

abbrev pub AreAllowed : Option String → Type 0
AreAllowed none = Unit
AreAllowed (some groups) = AreStrong (codes groups)

pub record IsSecure (p : TlsSecurityParams) : Type 0 where
  pub identity_paired : is_some p.cert_path ≡ is_some p.key_path
  pub fits_profile : FitsProfile p.profile p
  pub groups_allowed : AreAllowed p.groups

identity_lem : (c k : Option String) → check_identity c k ≡ ok tt → is_some c ≡ is_some k
identity_lem none none h = refl
identity_lem none (some k) h = absurd (ground (arith, h))
identity_lem (some c) none h = absurd (ground (arith, h))
identity_lem (some c) (some k) h = refl

mutual_lem : (v : VerifyMode) → is_mutual v ≡ true → v ≡ verify_mutual
mutual_lem verify_none h = absurd (ground (arith, h))
mutual_lem verify_server h = absurd (ground (arith, h))
mutual_lem verify_mutual h = refl

no_key_lem : (o : Option Bytes) → refuse (is_some o && true) psk_without_profile ≡ ok tt → o ≡ none
no_key_lem none h = refl
no_key_lem (some key) h = absurd (ground (arith, h))

profile_lem :
    (q : TlsProfile) (p : TlsSecurityParams)
    → check_profile q p ≡ ok tt
    → refuse (is_some p.psk_key && not (is_psk q)) psk_without_profile ≡ ok tt
    → FitsProfile q p
profile_lem default_profile p h k = no_key_lem p.psk_key k
profile_lem subset146_pki p h k = (no_key_lem p.psk_key k, mutual_lem p.verify (ground (arith, h)))
profile_lem subset146_psk p h k = ground (arith, h)
profile_lem integrity_only p h k = (no_key_lem p.psk_key k, ground (arith, h))

groups_lem : (o : Option String) → check_listed o ≡ ok tt → AreAllowed o
groups_lem none h = tt
groups_lem (some groups) h = check_groups-AreStrong (codes groups) h

validate-IsSecure : (p : TlsSecurityParams) → validate p ≡ ok tt → IsSecure p
unfolding validate
validate-IsSecure p h =
    let (_, identity, h1) = bind-ok (check_identity p.cert_path p.key_path) _ h in
    let (_, profile, h2) = bind-ok (check_profile p.profile p) _ h1 in
    let (_, key, h3) =
      bind-ok (refuse (is_some p.psk_key && not (is_psk p.profile)) psk_without_profile) _ h2 in
    record {
      identity_paired = identity_lem p.cert_path p.key_path identity;
      fits_profile = profile_lem p.profile p profile (ground (arith, key));
      groups_allowed = groups_lem p.groups (ground (arith, h3));
    }

abbrev the_ok : TlsSecurityParams → Result TlsSecurityParams TlsFault
the_ok p = ok p

ok_injective : {p q : TlsSecurityParams} → the_ok p ≡ the_ok q → p ≡ q
ok_injective h = ground (arith, h)

module _ {Value : Type 0} (j : JsonView Value) where
  number_lem :
      (fault : TlsFault) (d n : ℕ) (o : Option Value) → number_or j fault d o ≡ ok n → 1 ≤ d → 1 ≤ n
  number_lem fault d n none h one = ground (arith, h)
  number_lem fault d n (some v) h one =
      positive_lem (or_parsed (j.as_u64 v) (parse_u64 (j.as_str v))) h
    where
      positive_lem : (o : Option ℕ) → positive_or fault o ≡ ok n → 1 ≤ n
      positive_lem none k = absurd (ground (arith, k))
      positive_lem (some m) k = ground (arith, k)

  -- Verification is off only where the rule says so.
  verify_lem :
      (q : TlsProfile) (o : Option String) (v : VerifyMode)
      → verify_or q o ≡ ok v
      → v ≡ verify_none
      → o ≡ some "none"
  verify_lem default_profile none v h e = absurd (ground (arith, h))
  verify_lem subset146_pki none v h e = absurd (ground (arith, h, e))
  verify_lem subset146_psk none v h e = absurd (ground (arith, h))
  verify_lem integrity_only none v h e = absurd (ground (arith, h, e))
  verify_lem q (some s) v h e = ground (arith, h, e, same_text_iff s "none")

  abbrev Facts : List (String × Value) → TlsSecurityParams → Type 0
  Facts params r =
      IsSecure r
      × (1 ≤ r.max_sessions)
      × (1 ≤ r.idle_ttl_secs)
      × (r.verify ≡ verify_none → get_str j "verify" params ≡ some "none")
      × (profile_or (get_str j "profile" params) ≡ ok r.profile)

  from_params_lem :
      (params : List (String × Value)) (version : Option String) (p : TlsSecurityParams)
      → from_params j params version ≡ ok p
      → Facts params p
  unfolding from_params
  from_params_lem params version p h =
      bind-elim (profile_or (get_str j "profile" params)) _ h (λ profile e1 h1.
        bind-elim (verify_or profile (get_str j "verify" params)) _ h1 (λ verify e2 h2.
          bind-elim (psk_or (get_str j "psk_hex" params)) _ h2 (λ key e3 h3.
            bind-elim (resumption_or j (get_param "resumption" params)) _ h3 (λ resumption e4 h4.
              bind-elim
                (number_or j bad_max_sessions default_dtls_max_sessions
                  (get_param "max_sessions" params))
                _ h4
                (λ sessions e5 h5.
                  bind-elim
                    (number_or j bad_idle_ttl default_dtls_idle_ttl_secs
                      (get_param "idle_ttl_secs" params))
                    _ h5
                    (λ ttl e6 h6.
                      let q =
                        assembled j params version profile verify key resumption sessions ttl in
                      bind-elim (validate q) _ h6 (λ _ valid h7.
                        subst (Facts params) (ok_injective h7) (
                          validate-IsSecure q valid,
                          number_lem bad_max_sessions default_dtls_max_sessions sessions
                              (get_param "max_sessions" params) e5 (omega arith),
                          number_lem bad_idle_ttl default_dtls_idle_ttl_secs ttl
                              (get_param "idle_ttl_secs" params) e6 (omega arith),
                          verify_lem profile (get_str j "verify" params) verify e2,
                          e1,
                        ))))))))

  -- The profile of accepted parameters is the one that the rule names.
  pub from_params_profile :
      (params : List (String × Value)) (version : Option String) (p : TlsSecurityParams)
      → from_params j params version ≡ ok p
      → profile_or (get_str j "profile" params) ≡ ok p.profile
  from_params_profile params version p h =
      let (secure, sessions, ttl, verify, profile) = from_params_lem params version p h in profile

  pub from_params-IsSecure :
      (params : List (String × Value)) (version : Option String) (p : TlsSecurityParams)
      → from_params j params version ≡ ok p
      → IsSecure p
        × (1 ≤ p.max_sessions)
        × (1 ≤ p.idle_ttl_secs)
        × (p.verify ≡ verify_none → get_str j "verify" params ≡ some "none")
  from_params-IsSecure params version p h =
      let (secure, sessions, ttl, verify, profile) = from_params_lem params version p h in
      (secure, sessions, ttl, verify)
