-- ===== src/Gateway/Config/Validate/Rules.antt =====
-- gateway/src/management/config.rs: the checks of one rule, in the order of the code.
use scg.Gateway.Config.Validate.{
  bad_intercept_protocol, no_match_src, no_match_dst, bad_dports, bad_session_bound,
  bad_wireguard_parameters, duplicate_template, empty_dports, tls_over_udp, auto_not_transparent,
  bad_protocol_version, dtls_auto, duplicate_name, listen_conflict, no_allowed_uids,
  no_buffer_slot_size, routing_auto, spin_wait_without_shm, tproxy_not_transparent, wireguard_auto,
  bad_dscp_tag, bad_listen_addr, bad_tls_parameters, bad_upstream, dtls_not_udp, empty_name,
  intercept_on_local, ktls_integrity_only, no_app_id, no_buffer_slots, routing_upstream_not_udp,
  wireguard_not_udp, zero_copy_unavailable, Parsers, Seen, RuleFault, bad_match_dst, bad_match_src,
  require, ◌>>◌, is_local, same_listen, same_template, text_or_empty, is_auto, provider_is,
  get_param,
}
use Prim.Native.String.{String}
use scg.Base.{
  ℕ, Bool, true, false, not, ◌&&◌, ◌||◌, ◌==◌, ltb, Option, none, some, List, [], ◌∷◌,
  if◌then◌else◌, Result, ok, err, ◌>>=◌,
}
use scg.Base.Texts.{same_text, any_of, codes, trim}
use scg.Gateway.Policy.{TrafficClass}
use scg.Gateway.AddressPattern.{AddressPattern, SocketAddr, any, exact, ip_only, cidr}
use scg.Gateway.Config.{
  RuleConfig, InterceptConfig, Direction, Proto, egress_redirect, tproxy, same_mode, same_direction,
  same_proto,
}
use scg.Gateway.Config.Rule.{effective_security_provider}
use scg.Gateway.Config.Validate.Ports.{validate_port_spec, validate_host_port}

-- Whether a check passed.
abbrev pub passes {ℓ} : {A : Type 0} {E : Type ℓ} → Result A E → Bool
passes (ok a) = true
passes (err e) = false

abbrev no_items : {A : Type 0} → List A → Bool
no_items [] = true
no_items (x ∷ xs) = false

abbrev is_some : {A : Type 0} → Option A → Bool
is_some none = false
is_some (some a) = true

abbrev listen_seen : Seen → Proto → Option SocketAddr → Result Seen RuleFault
listen_seen seen p none = err bad_listen_addr
listen_seen seen p (some a) =
    require (not (any_of (same_listen (p, a)) seen.listens)) listen_conflict
    >> ok (record seen { listens = (p, a) ∷ seen.listens })

abbrev pub dscp_in_range : Option ℕ → Bool
dscp_in_range none = true
dscp_in_range (some dscp) = not (ltb 63 dscp)

-- Checks one after the other, up to the first fault.
abbrev pub run_all : List (Result (Unit {0}) RuleFault) → Result (Unit {0}) RuleFault
run_all [] = ok tt
run_all (m ∷ ms) = m >> run_all ms

module _ {Value : Type 0} where
  unfoldable pub check_name : Seen → RuleConfig Value → Result Seen RuleFault
  check_name seen r =
      require (not (same_text r.name "")) empty_name
      >> (require (not (any_of (λ n. same_text n r.name) seen.names)) duplicate_name
          >> ok (record seen { names = r.name ∷ seen.names }))

  -- A rule for a local interface needs an application, somebody who may use it, and a key of its own.
  unfoldable pub check_template : Seen → RuleConfig Value → Result Seen RuleFault
  check_template seen r =
      let template : String × TrafficClass × Direction × Proto =
        (text_or_empty r.app_id, r.traffic_class, r.direction, r.listen_proto) in
      require (not (same_text (text_or_empty r.app_id) "")) no_app_id
      >> (require (not (no_items r.allowed_uids)) no_allowed_uids
          >> (require (not (any_of (same_template template) seen.templates)) duplicate_template
              >> ok (record seen { templates = template ∷ seen.templates })))

  unfoldable pub check_upstream : RuleConfig Value → Result (Unit {0}) RuleFault
  unfolding validate_host_port
  check_upstream r =
      require (is_auto r || passes (validate_host_port (codes r.upstream_addr))) bad_upstream
      >> require (not (is_auto r) || r.transparent) auto_not_transparent

  unfoldable pub check_dtls : RuleConfig Value → Result (Unit {0}) RuleFault
  unfolding effective_security_provider
  check_dtls r =
      if provider_is "dtls" r
      then (require (same_proto r.listen_proto Proto.udp) dtls_not_udp
          >> require (not (is_auto r)) dtls_auto)
      else ok tt

  unfoldable pub check_buffers : RuleConfig Value → Result (Unit {0}) RuleFault
  check_buffers r =
      require (not (r.buffer_slots == 0)) no_buffer_slots
      >> require (not (r.buffer_slot_size == 0)) no_buffer_slot_size

  unfoldable pub check_dscp : RuleConfig Value → Result (Unit {0}) RuleFault
  check_dscp r = require (dscp_in_range r.dscp_tag) bad_dscp_tag

  unfoldable pub check_transport : RuleConfig Value → Result (Unit {0}) RuleFault
  unfolding effective_security_provider
  check_transport r =
      require (not r.zero_copy || provider_is "routing" r || provider_is "ktls" r)
        zero_copy_unavailable
      >> (require (not (ltb 0 r.spin_wait_us && not (same_proto r.listen_proto Proto.shm)))
            spin_wait_without_shm
          >> require
              (not (
                same_direction r.direction Direction.encrypt
                && (provider_is "tls" r || provider_is "ktls" r)
                && same_proto r.upstream_proto Proto.udp))
              tls_over_udp)

  module _ (p : Parsers Value) where
    unfoldable pub check_listen : Seen → RuleConfig Value → Result Seen RuleFault
    unfolding check_template
    check_listen seen r =
        if is_local r.listen_proto
        then check_template seen r
        else listen_seen seen r.listen_proto (p.parse_socket_addr r.listen_addr)

    -- A bound that is set has to be a positive integer.
    abbrev bound_ok : Option Value → Bool
    bound_ok none = true
    bound_ok (some v) = elim (p.as_u64 v) [ none ↦ false | some n ↦ not (n == 0) ]

    unfoldable pub check_routing : RuleConfig Value → Result (Unit {0}) RuleFault
    unfolding effective_security_provider
    check_routing r =
        if provider_is "routing" r && same_proto r.listen_proto Proto.udp
        then (require (same_proto r.upstream_proto Proto.udp) routing_upstream_not_udp
            >> (require (not (is_auto r)) routing_auto
                >> (require (bound_ok (get_param "max_sessions" r.provider_params))
                      bad_session_bound
                    >> require (bound_ok (get_param "idle_ttl_secs" r.provider_params))
                        bad_session_bound)))
        else ok tt

    abbrev pub profile_of : Option Value → Option String
    profile_of none = none
    profile_of (some v) = p.as_str v

    abbrev pub is_integrity_only : Option String → Bool
    is_integrity_only none = false
    is_integrity_only (some s) =
        same_text s "integrity-only" || same_text s "integrity" || same_text s "null"

    unfoldable pub check_ktls : RuleConfig Value → Result (Unit {0}) RuleFault
    unfolding effective_security_provider
    check_ktls r =
        require
          (not (
            provider_is "ktls" r
            && is_integrity_only (profile_of (get_param "profile" r.provider_params))))
          ktls_integrity_only

    abbrev version_ok : Bool → Bool → Option String → Bool
    version_ok is_tls is_dtls none = true
    version_ok is_tls is_dtls (some v) =
        if is_tls
        then same_text v "tls1.2" || same_text v "tls1.3"
        else (not is_dtls || same_text v "dtls1.0" || same_text v "dtls1.2")

    unfoldable pub check_tls : RuleConfig Value → Result (Unit {0}) RuleFault
    unfolding effective_security_provider
    check_tls r =
        let is_tls = provider_is "tls" r || provider_is "ktls" r in
        require
          (not (is_tls || provider_is "dtls" r)
            || p.tls_params_ok r.provider_params r.protocol_version)
          bad_tls_parameters
        >> require (version_ok is_tls (provider_is "dtls" r) r.protocol_version)
            bad_protocol_version

    unfoldable pub check_wireguard : RuleConfig Value → Result (Unit {0}) RuleFault
    unfolding effective_security_provider
    check_wireguard r =
        if provider_is "wireguard" r
        then (require (same_proto r.listen_proto Proto.udp) wireguard_not_udp
            >> (require (not (is_auto r)) wireguard_auto
                >> require (p.wireguard_params_ok r.provider_params) bad_wireguard_parameters))
        else ok tt

    abbrev is_ip_or_cidr : Option AddressPattern → Bool
    is_ip_or_cidr none = false
    is_ip_or_cidr (some any) = false
    is_ip_or_cidr (some (exact a)) = false
    is_ip_or_cidr (some (ip_only a)) = true
    is_ip_or_cidr (some (cidr a n)) = true

    unfoldable pub validate_ip_or_cidr : String → Bool
    validate_ip_or_cidr s = is_ip_or_cidr (p.parse_pattern s)

    abbrev all_addresses : List String → Bool
    all_addresses xs = not (any_of (λ s. not (validate_ip_or_cidr s)) xs)

    abbrev protocol_ok : Option String → Bool
    protocol_ok none = true
    protocol_ok (some s) = same_text s "tcp" || same_text s "udp"

    abbrev pub intercept_checks :
        RuleConfig Value → InterceptConfig → List (Result (Unit {0}) RuleFault)
    intercept_checks r ic =
        require (not (is_local r.listen_proto)) intercept_on_local
        ∷ require (not (same_mode ic.mode tproxy && not r.transparent)) tproxy_not_transparent
        ∷ require (not (no_items (trim (codes ic.match_dports)))) empty_dports
        ∷ require (passes (validate_port_spec (codes ic.match_dports))) bad_dports
        ∷ require (not (same_mode ic.mode egress_redirect && no_items ic.match_dst)) no_match_dst
        ∷ require (not (same_mode ic.mode tproxy && no_items ic.match_src)) no_match_src
        ∷ require (all_addresses ic.match_dst) bad_match_dst
        ∷ require (all_addresses ic.match_src) bad_match_src
        ∷ require (protocol_ok ic.protocol) bad_intercept_protocol
        ∷ []

    unfoldable pub check_intercept :
        RuleConfig Value → InterceptConfig → Result (Unit {0}) RuleFault
    unfolding validate_port_spec validate_ip_or_cidr
    check_intercept r ic = run_all (intercept_checks r ic)

    abbrev pub check_intercepted :
        RuleConfig Value → Option InterceptConfig → Result (Unit {0}) RuleFault
    check_intercepted r none = ok tt
    check_intercepted r (some ic) = check_intercept r ic

    -- The checks that look at the rule alone.
    abbrev pub alone_checks : RuleConfig Value → List (Result (Unit {0}) RuleFault)
    alone_checks r =
        check_upstream r
        ∷ check_dtls r
        ∷ check_routing r
        ∷ check_ktls r
        ∷ check_tls r
        ∷ check_wireguard r
        ∷ check_buffers r
        ∷ check_dscp r
        ∷ check_transport r
        ∷ check_intercepted r r.intercept
        ∷ []

    unfoldable pub check_rule_alone : RuleConfig Value → Result (Unit {0}) RuleFault
    unfolding check_upstream check_dtls check_routing check_ktls check_tls check_wireguard
        check_buffers check_dscp check_transport check_intercept
    check_rule_alone r = run_all (alone_checks r)

    -- The body of the loop: the keys with the rule's own, or the fault.
    unfoldable pub check_rule : Seen → RuleConfig Value → Result Seen RuleFault
    unfolding check_name check_listen check_rule_alone
    check_rule seen r = check_name seen r >>= λ named.
        check_listen named r >>= λ next. check_rule_alone r >> ok next
