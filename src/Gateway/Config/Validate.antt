-- ===== src/Gateway/Config/Validate.antt =====
-- gateway/src/management/config.rs: `GatewayConfig::validate`. An error is the rule's index and the
-- fault. The parsers of addresses, of JSON values and of the TLS and WireGuard parameters are
-- parameters.
pub mod Ports
pub mod Rules
pub mod Whole
pub mod Sound
use Prim.Native.String.{String}
use scg.Base.{
  ℕ, suc, Bool, true, false, not, ◌&&◌, ◌||◌, ◌==◌, ltb, leb, Option, none, some, List, [], ◌∷◌,
  if◌then◌else◌, Result, ok, err, ◌>>=◌,
}
use scg.Base.Texts.{same_text, any_of, codes, trim}
use scg.Gateway.AddressPattern.{AddressPattern, SocketAddr, same_ip}
use scg.Gateway.Policy.{TrafficClass, PolicyConfig, WhitelistEntry}
use scg.Gateway.TrafficAnalyzer.{TrafficRuleConfig}
use scg.Gateway.Config.{
  RuleConfig, InterceptConfig, InterceptMode, Direction, Proto, same_mode, same_direction,
  same_proto, same_class,
}
use scg.Gateway.Config.Rule.{effective_security_provider}

-- The part of `GatewayConfig` that validation looks at.
pub record GatewayConfig (Value : Type 0) : Type 0 where
  pub rules : List (RuleConfig Value)
  pub traffic_rules : List (TrafficRuleConfig String)
  pub policy : Option (PolicyConfig String)
  pub conn_pool_size : Option ℕ

pub data RuleFault : Type 0 where
  empty_name duplicate_name no_app_id no_allowed_uids duplicate_template bad_listen_addr : RuleFault
  listen_conflict bad_upstream auto_not_transparent dtls_not_udp dtls_auto : RuleFault
  routing_upstream_not_udp routing_auto bad_session_bound ktls_integrity_only : RuleFault
  bad_tls_parameters bad_protocol_version wireguard_not_udp wireguard_auto : RuleFault
  bad_wireguard_parameters no_buffer_slots no_buffer_slot_size bad_dscp_tag : RuleFault
  zero_copy_unavailable spin_wait_without_shm tls_over_udp intercept_on_local : RuleFault
  tproxy_not_transparent empty_dports bad_dports no_match_dst no_match_src bad_match_dst : RuleFault
  bad_match_src bad_intercept_protocol : RuleFault

pub data ConfigError : Type 0 where
  no_rules no_pool_workers pool_too_large : ConfigError
  rule_fault : ℕ → RuleFault → ConfigError
  bad_traffic_rule bad_whitelist_entry : ℕ → ConfigError

abbrev pub max_conn_pool_size : ℕ
max_conn_pool_size = 4096

-- `if !test { return Err(fault) }`
abbrev pub require : Bool → RuleFault → Result (Unit {0}) RuleFault
require true fault = ok tt
require false fault = err fault

infixl 5 ◌>>◌
abbrev pub ◌>>◌ :
    {A : Type 0} → Result (Unit {0}) RuleFault → Result A RuleFault → Result A RuleFault
m >> k = m >>= λ _. k

abbrev pub is_local : Proto → Bool
is_local p = same_proto p Proto.uds || same_proto p Proto.shm

-- What the surroundings of the validation answer.
pub record Parsers (Value : Type 0) : Type 0 where
  pub parse_socket_addr : String → Option SocketAddr
  pub parse_pattern : String → Option AddressPattern
  pub as_str : Value → Option String
  pub as_u64 : Value → Option ℕ
  pub tls_params_ok : List (String × Value) → Option String → Bool
  pub wireguard_params_ok : List (String × Value) → Bool

-- The keys that were seen in the rules before.
pub record Seen : Type 0 where
  pub names : List String
  pub listens : List (Proto × SocketAddr)
  pub templates : List (String × TrafficClass × Direction × Proto)

abbrev pub same_listen : Proto × SocketAddr → Proto × SocketAddr → Bool
same_listen (p, a) (q, b) = same_proto p q && same_ip a.ip b.ip && a.port == b.port

abbrev pub same_template :
    String × TrafficClass × Direction × Proto → String × TrafficClass × Direction × Proto → Bool
same_template (a, c, d, p) (b, e, f, q) =
    same_text a b && same_class c e && same_direction d f && same_proto p q

abbrev pub text_or_empty : Option String → String
text_or_empty none = ""
text_or_empty (some s) = s

abbrev pub is_auto : {Value : Type 0} → RuleConfig Value → Bool
is_auto r = same_text r.upstream_addr "auto"

abbrev pub provider_is : {Value : Type 0} → String → RuleConfig Value → Bool
provider_is name r = same_text (effective_security_provider r) name

abbrev pub get_param : {Value : Type 0} → String → List (String × Value) → Option Value
get_param k [] = none
get_param k ((j, v) ∷ m) = let rest = get_param k m in if same_text j k then some v else rest
