-- ===== src/Gateway/Config/Validate/Sound.antt =====
-- gateway/src/management/config.rs: what a configuration is that passes the validation.
use scg.Gateway.Config.Validate.{
  bad_dscp_tag, GatewayConfig, Parsers, Seen, RuleFault, require, is_auto, is_local, provider_is,
}
use scg.Base.{
  ◌⊎◌, Option-cases, ap, inl, inr, ℕ, suc, true, false, ◌||◌, ◌≤◌, ◌≡◌, refl, arith, Option, none,
  some, List, [], ◌∷◌, Result, ok, err, All, Result-cases, Bool-cases,
}
use scg.Gateway.Config.Validate.Rules.{
  dscp_in_range, check_name, check_listen, check_template, check_rule_alone, check_rule, run_all,
  check_intercepted, alone_checks, intercept_checks, check_upstream, check_dtls, check_dscp,
  check_transport, check_intercept,
}
use scg.Gateway.Config.Validate.Whole.{
  check_present, check_pool, check_rules, nothing_seen, validate,
}
use Prim.Native.String.{String}
use scg.Base.Texts.{same_text, same_text_iff, any_of}
use scg.Gateway.Config.{RuleConfig, InterceptConfig, Proto, tproxy, same_mode, same_proto}
use scg.Gateway.Config.Diff.{has_name}
use scg.Gateway.Config.Diff.Buckets.{HasUniqueNames}

-- What holds of the interception of a rule.
abbrev pub IsInterceptable : {Value : Type 0} → RuleConfig Value → Option InterceptConfig → Type 0
IsInterceptable r none = Unit
IsInterceptable r (some ic) =
    (is_local r.listen_proto ≡ false)
    × ((same_mode ic.mode tproxy ≡ false) ⊎ (r.transparent ≡ true))

abbrev pub IsSixBits : Option ℕ → Type 0
IsSixBits none = Unit
IsSixBits (some tag) = tag ≤ 63

-- What holds of a rule alone.
pub record IsSound {Value : Type 0} (r : RuleConfig Value) : Type 0 where
  pub auto_transparent : (is_auto r ≡ false) ⊎ (r.transparent ≡ true)
  pub dtls_over_udp :
      (provider_is "dtls" r ≡ false)
      ⊎ ((same_proto r.listen_proto Proto.udp ≡ true) × (is_auto r ≡ false))
  pub dscp_six_bits : IsSixBits r.dscp_tag
  pub zero_copy_engine :
      (r.zero_copy ≡ false) ⊎ ((provider_is "routing" r || provider_is "ktls" r) ≡ true)
  pub interceptable : IsInterceptable r r.intercept

dscp_range : (o : Option ℕ) → require (dscp_in_range o) bad_dscp_tag ≡ ok tt → IsSixBits o
dscp_range none e = tt
dscp_range (some tag) e = ground arith

run_all-ok :
    (ms : List (Result (Unit {0}) RuleFault)) → run_all ms ≡ ok tt → All (λ m. m ≡ ok tt) ms
run_all-ok [] e = tt
run_all-ok (ok u ∷ ms) e = (refl, run_all-ok ms e)
run_all-ok (err x ∷ ms) e = absurd (ground (arith, e))

module _ {Value : Type 0} where
  upstream_lem :
      (r : RuleConfig Value)
      → check_upstream r ≡ ok tt
      → (is_auto r ≡ false) ⊎ (r.transparent ≡ true)
  unfolding check_upstream
  upstream_lem r e = ground arith

  dtls_lem :
      (r : RuleConfig Value)
      → check_dtls r ≡ ok tt
      → (provider_is "dtls" r ≡ false)
        ⊎ ((same_proto r.listen_proto Proto.udp ≡ true) × (is_auto r ≡ false))
  unfolding check_dtls
  dtls_lem r e = ground arith

  dscp_lem : (r : RuleConfig Value) → check_dscp r ≡ ok tt → IsSixBits r.dscp_tag
  unfolding check_dscp
  dscp_lem r e = dscp_range r.dscp_tag e

  transport_lem :
      (r : RuleConfig Value)
      → check_transport r ≡ ok tt
      → (r.zero_copy ≡ false) ⊎ ((provider_is "routing" r || provider_is "ktls" r) ≡ true)
  unfolding check_transport
  transport_lem r e = ground arith

  module _ (p : Parsers Value) where
    intercept_lem :
        (r : RuleConfig Value) (o : Option InterceptConfig)
        → check_intercepted p r o ≡ ok tt
        → IsInterceptable r o
    unfolding check_intercept
    intercept_lem r none e = tt
    intercept_lem r (some ic) e =
        let (a, (b, c)) = run_all-ok (intercept_checks p r ic) e in
        (ground (arith, a), ground (arith, b))

    alone-IsSound : (r : RuleConfig Value) → check_rule_alone p r ≡ ok tt → IsSound r
    unfolding check_rule_alone
    alone-IsSound r e =
        let (
          upstream,
          (
            dtls,
            (routing, (ktls, (tls, (wireguard, (buffers, (dscp, (transport, (intercept, _)))))))),
          ),
        ) =
          run_all-ok (alone_checks p r) e in
        record {
          auto_transparent = upstream_lem r upstream;
          dtls_over_udp = dtls_lem r dtls;
          dscp_six_bits = dscp_lem r dscp;
          zero_copy_engine = transport_lem r transport;
          interceptable = intercept_lem r r.intercept intercept;
        }

    name_lem :
        (seen next : Seen) (r : RuleConfig Value)
        → check_name seen r ≡ ok next
        → (any_of (λ n. same_text n r.name) seen.names ≡ false) × (next.names ≡ r.name ∷ seen.names)
    unfolding check_name
    name_lem seen next r e = ground arith

    listen_lem :
        (seen next : Seen) (r : RuleConfig Value)
        → check_listen p seen r ≡ ok next
        → next.names ≡ seen.names
    unfolding check_listen check_template
    listen_lem seen next r e = elim (Bool-cases (is_local r.listen_proto)) [
      | inl l ↦ ground arith
      | inr l ↦ elim (Option-cases (p.parse_socket_addr r.listen_addr)) [
        | inl o ↦ ground arith
        | inr (a, o) ↦ ground arith
      ]
    ]

    rule_lem :
        (seen next : Seen) (r : RuleConfig Value)
        → check_rule p seen r ≡ ok next
        → (any_of (λ n. same_text n r.name) seen.names ≡ false)
          × (next.names ≡ r.name ∷ seen.names)
          × IsSound r
    unfolding check_rule
    rule_lem seen next r e = elim (Result-cases (check_name seen r)) [
      | inr (x, f) ↦ absurd (ground (arith, e, f))
      | inl (named, f) ↦ elim (Result-cases (check_listen p named r)) [
        | inr (x, g) ↦ absurd (ground (arith, e, f, g))
        | inl (last, g) ↦ elim (Result-cases (check_rule_alone p r)) [
          | inr (x, k) ↦ absurd (ground (arith, e, f, g, k))
          | inl (u, k) ↦
              let (fresh, names) = name_lem seen named r f in
              (
                fresh,
                ground (arith, e, f, g, k, names, listen_lem named last r g),
                alone-IsSound r k,
              )
        ]
      ]
    ]

    -- No rule has a name that was seen.
    abbrev NoneSeen : List String → List (RuleConfig Value) → Type 0
    NoneSeen names rs =
        (n : String) → any_of (λ m. same_text m n) names ≡ true → has_name n rs ≡ false

    rules_lem :
        (i : ℕ) (seen : Seen) (rs : List (RuleConfig Value))
        → check_rules p i seen rs ≡ ok tt
        → HasUniqueNames rs × All IsSound rs × NoneSeen seen.names rs
    unfolding check_rules
    rules_lem i seen [] e = (tt, tt, λ n h. refl)
    rules_lem i seen (r ∷ rs) e = elim (Result-cases (check_rule p seen r)) [
      | inr (x, f) ↦ absurd (ground (arith, e, f))
      | inl (next, f) ↦
          let (fresh, names, sound) = rule_lem seen next r f in
          let (unique, sounds, none_seen) = rules_lem (suc i) next rs (ground (arith, e, f)) in
          (
            (none_seen r.name (ground (arith, names, same_text_iff r.name r.name)), unique),
            (sound, sounds),
            λ n h. elim (Bool-cases (same_text r.name n)) [
              | inl same ↦ absurd (
                  ground (
                    arith,
                    fresh,
                    h,
                    ap (λ m. any_of (λ k. same_text k m) seen.names)
                        ((same_text_iff r.name n).0 same),
                  ))
              | inr other ↦ ground (arith, other, none_seen n, names, h)
            ],
          )
    ]

    abbrev pub IsPoolSize : Option ℕ → Type 0
    IsPoolSize none = Unit
    IsPoolSize (some n) = (1 ≤ n) × (n ≤ 4096)

    pool_lem : (o : Option ℕ) → check_pool o ≡ ok tt → IsPoolSize o
    pool_lem none e = tt
    pool_lem (some n) e = (ground arith, ground arith)

    -- In a configuration that is accepted, no two rules have the same name, the pool has 1 to 4096
    -- workers where it is set, and every rule is sound: an automatic upstream only with a transparent
    -- rule, DTLS only over UDP and to an explicit upstream, marks of six bits, zero copy only for
    -- routing and kernel TLS, and interception only of network rules, the transparent one only for a
    -- transparent rule.
    pub validate-IsSound :
        (c : GatewayConfig Value)
        → validate p c ≡ ok tt
        → HasUniqueNames c.rules × IsPoolSize c.conn_pool_size × All IsSound c.rules
    unfolding validate
    validate-IsSound c e = elim (Result-cases (check_present p c.rules)) [
      | inr (x, f) ↦ absurd (ground (arith, e, f))
      | inl (u, f) ↦ elim (Result-cases (check_pool c.conn_pool_size)) [
        | inr (x, g) ↦ absurd (ground (arith, e, f, g))
        | inl (v, g) ↦ elim (Result-cases (check_rules p 0 nothing_seen c.rules)) [
          | inr (x, k) ↦ absurd (ground (arith, e, f, g, k))
          | inl (w, k) ↦
              let (unique, sound, _) = rules_lem 0 nothing_seen c.rules k in
              (unique, pool_lem c.conn_pool_size g, sound)
        ]
      ]
    ]
