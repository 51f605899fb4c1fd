-- ===== src/Gateway/TlsParams/Offload.antt =====
-- gateway/src/security/tls_engine/params.rs and gateway/src/management/config.rs: kernel TLS and the
-- cipher suites, for parameters that are accepted.
use scg.Gateway.TlsParams.Sound.{from_params_profile, FitsProfile, from_params-IsSecure}
use scg.Gateway.Config.Validate.Rules.{profile_of, is_integrity_only, check_ktls}
use scg.Gateway.TlsParams.{
  default_suites, or_else, default_profile, subset146_pki, subset146_psk, integrity_only,
  TlsProfile, TlsSecurityParams, parse_profile, is_tls13, is_ktls_offloadable, cipher_policy,
}
use Prim.Native.String.{String}
use scg.Base.{
  Bool, true, false, ◌≡◌, refl, arith, Option, none, some, List, ok, Option-cases, inl, inr,
}
use scg.Base.Texts.{same_text_iff}
use scg.Gateway.Config.{RuleConfig}
use scg.Gateway.Config.Rule.{effective_security_provider, resolve_crypto_provider}
use scg.Gateway.Config.Validate.{Parsers, get_param}
use scg.Gateway.TlsParams.Parse.{is_some, from_params, get_str, JsonView, profile_or}

abbrev is_offloadable : TlsProfile → Bool
is_offloadable integrity_only = false
is_offloadable _ = true

suites_or : (o : Option String) (s : String) → is_some (or_else o (some s)) ≡ true
suites_or none s = refl
suites_or (some t) s = refl

suites_lem :
    (q : TlsProfile) (p : TlsSecurityParams)
    → FitsProfile q p
    → is_tls13 p ≡ true
    → is_some (or_else p.ciphersuites (default_suites q)) ≡ true
suites_lem default_profile p fits new = suites_or p.ciphersuites _
suites_lem subset146_pki p fits new = suites_or p.ciphersuites _
suites_lem subset146_psk p fits new = absurd (ground (arith, fits, new))
suites_lem integrity_only p fits new = absurd (ground (arith, fits, new))

offloadable_lem :
    (p : TlsSecurityParams) → is_offloadable p.profile ≡ true → is_ktls_offloadable p ≡ true
unfolding is_ktls_offloadable
offloadable_lem p h = profile_cases p.profile h
  where
    profile_cases :
        (q : TlsProfile)
        → is_offloadable q ≡ true
        → elim q as (λ _. Bool) [
          | default_profile ↦ true
          | subset146_pki ↦ true
          | subset146_psk ↦ true
          | integrity_only ↦ false
        ]
          ≡ true
    profile_cases default_profile k = refl
    profile_cases subset146_pki k = refl
    profile_cases subset146_psk k = refl
    profile_cases integrity_only k = absurd (ground (arith, k))

resolve_lem : (prefer kernel : Bool) → resolve_crypto_provider "ktls" true prefer kernel ≡ "ktls"
unfolding resolve_crypto_provider
resolve_lem prefer kernel = ground (arith, same_text_iff "ktls" "tls")

module _ {Value : Type 0} where
  -- Parameters that are accepted for TLS 1.3 offer cipher suites of TLS 1.3.
  pub from_params-cipher_policy :
      (j : JsonView Value) (params : List (String × Value)) (version : Option String)
      (p : TlsSecurityParams)
      → from_params j params version ≡ ok p
      → is_tls13 p ≡ true
      → is_some (cipher_policy p).1 ≡ true
  unfolding cipher_policy
  from_params-cipher_policy j params version p h new =
      suites_lem p.profile p (from_params-IsSecure j params version p h).0.fits_profile new

  module _ (p : Parsers Value) (as_bool : Value → Option Bool) where
    abbrev pub view : JsonView Value
    view = record { as_str = p.as_str; as_u64 = p.as_u64; as_bool = as_bool }

    profile_lem :
        (o : Option Value) (q : TlsProfile)
        → profile_or (elim o [ none ↦ none | some v ↦ p.as_str v ]) ≡ ok q
        → is_integrity_only p (profile_of p o) ≡ false
        → is_offloadable q ≡ true
    unfolding parse_profile
    profile_lem none q h k = ground (arith, h)
    profile_lem (some v) q h k = elim (Option-cases (p.as_str v)) [
      | inl e ↦ ground (arith, h, k, e)
      | inr (s, e) ↦ ground (arith, h, k, e)
    ]

    integrity_lem :
        (r : RuleConfig Value)
        → check_ktls p r ≡ ok tt
        → effective_security_provider r ≡ "ktls"
        → is_integrity_only p (profile_of p (get_param "profile" r.provider_params)) ≡ false
    unfolding check_ktls
    integrity_lem r checked ktls =
        ground (arith, checked, ktls, same_text_iff (effective_security_provider r) "ktls")

    named_lem :
        (r : RuleConfig Value) (q : TlsSecurityParams)
        → profile_or (get_str view "profile" r.provider_params) ≡ ok q.profile
        → profile_or
            (elim (get_param "profile" r.provider_params) [ none ↦ none | some v ↦ p.as_str v ])
          ≡ ok q.profile
    unfolding get_str
    named_lem r q h = h

    -- A rule for kernel TLS that passes its check, and whose parameters are accepted, stays with kernel
    -- TLS, whatever is preferred and whatever the kernel has.
    pub resolve_crypto_provider-check_ktls :
        (r : RuleConfig Value) (version : Option String) (q : TlsSecurityParams)
        → check_ktls p r ≡ ok tt
        → effective_security_provider r ≡ "ktls"
        → from_params view r.provider_params version ≡ ok q
        → (prefer_ktls kernel_ktls : Bool)
        → resolve_crypto_provider
            (effective_security_provider r)
            (is_ktls_offloadable q)
            prefer_ktls
            kernel_ktls
          ≡ "ktls"
    resolve_crypto_provider-check_ktls r version q checked ktls accepted prefer kernel =
        let named = from_params_profile view r.provider_params version q accepted in
        let unmarked = integrity_lem r checked ktls in
        let offloadable = offloadable_lem q (
          profile_lem (get_param "profile" r.provider_params) q.profile (named_lem r q named)
            unmarked) in
        rw ktls (rw offloadable (resolve_lem prefer kernel))
