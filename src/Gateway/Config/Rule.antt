-- ===== src/Gateway/Config/Rule.antt =====
-- gateway/src/management/config.rs: what a rule says in effect, the choice of the TLS engine, and the
-- test whether a reload has to restart a rule. The `==` of the provider's parameters is serde_json's.
use Prim.Native.String.{String}
use scg.Base.{
  Bool, true, false, not, ◌&&◌, ◌||◌, none, some, if◌then◌else◌, ◌≡◌, ◌↔◌, ◌==◌, arith, List,
}
use scg.Base.Texts.{same_text, same_text_iff, same_list, same_option}
use scg.Gateway.Config.{RuleConfig, TlsMode, same_direction, same_proto, same_class, same_intercept}

abbrev tls_mode_name : TlsMode → String
tls_mode_name TlsMode.tls = "tls"
tls_mode_name TlsMode.ktls = "ktls"
tls_mode_name TlsMode.dtls = "dtls"

-- `a != b` of texts
abbrev pub other_text : String → String → Bool
other_text s t = not (same_text s t)

-- `a != b` of truth values
abbrev other_bool : Bool → Bool → Bool
other_bool true b = not b
other_bool false b = b

unfoldable pub resolve_crypto_provider : String → Bool → Bool → Bool → String
resolve_crypto_provider configured offloadable prefer_ktls kernel_ktls =
    if same_text configured "ktls" && not offloadable
    then "tls"
    else if same_text configured "tls" && prefer_ktls && offloadable && kernel_ktls
    then "ktls"
    else configured

-- Kernel TLS is chosen exactly for parameters that it can take over, and then where the rule asks for
-- it, or where the rule asks for user-space TLS, kernel TLS is preferred and the kernel has it.
pub resolve_crypto_provider-ktls_iff :
    (configured : String) (offloadable prefer_ktls kernel_ktls : Bool)
    → (resolve_crypto_provider configured offloadable prefer_ktls kernel_ktls ≡ "ktls") ↔ (
        (offloadable ≡ true)
        × (same_text configured "ktls" || same_text configured "tls" && prefer_ktls && kernel_ktls
            ≡ true))
unfolding resolve_crypto_provider
resolve_crypto_provider-ktls_iff c o p k =
    ground (arith, same_text_iff c "ktls", same_text_iff c "tls", same_text_iff "tls" "ktls")

module _ {Value : Type 0} where
  unfoldable pub effective_security_provider : RuleConfig Value → String
  effective_security_provider r =
      if same_text r.security_provider "tls" then tls_mode_name r.tls_mode else r.security_provider

  unfoldable pub effective_app_protocol : RuleConfig Value → String
  effective_app_protocol r = elim r.app_protocol [ none ↦ "ale" | some p ↦ p ]

  unfoldable pub reload_differs :
      (List (String × Value) → List (String × Value) → Bool)
      → RuleConfig Value
      → RuleConfig Value
      → Bool
  unfolding effective_security_provider effective_app_protocol
  reload_differs same_params r other =
      not (same_direction r.direction other.direction)
      || other_text r.listen_addr other.listen_addr
      || not (same_proto r.listen_proto other.listen_proto)
      || other_text r.upstream_addr other.upstream_addr
      || not (same_proto r.upstream_proto other.upstream_proto)
      || other_text (effective_security_provider r) (effective_security_provider other)
      || other_text (effective_app_protocol r) (effective_app_protocol other)
      || not (same_option same_text r.protocol_version other.protocol_version)
      || other_bool r.transparent other.transparent
      || not (same_class r.traffic_class other.traffic_class)
      || not (same_option (λ a b. a == b) r.dscp_tag other.dscp_tag)
      || other_bool r.preserve_inbound_dscp other.preserve_inbound_dscp
      || not (same_params r.provider_params other.provider_params)
      || not (same_list (λ a b. a == b) r.allowed_uids other.allowed_uids)
      || not (same_list (λ a b. a == b) r.allowed_pids other.allowed_pids)
      || not (same_option same_intercept r.intercept other.intercept)
