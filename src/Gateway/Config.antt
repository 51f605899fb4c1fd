-- ===== src/Gateway/Config.antt =====
-- gateway/src/management/config.rs: the configuration's data. `Value` is serde_json's; a number of a
-- signed type stands as its bit pattern.
pub mod Qos
pub mod Perf
pub mod Rule
pub mod Diff
pub mod Validate
use Prim.Native.String.{String}
use scg.Base.{ℕ, Bool, true, false, ◌&&◌, Option, none, some, List, [], ◌∷◌}
use scg.Base.Texts.{same_text, same_list, same_option}
use scg.Gateway.Policy.{TrafficClass, safety, normal}

pub data PerfProfile : Type 0 where
  throughput latency balanced : PerfProfile

pub data InterceptMode : Type 0 where
  ingress_redirect egress_redirect tproxy : InterceptMode

pub data Direction : Type 0 where
  encrypt decrypt : Direction

pub data Proto : Type 0 where
  tcp udp uds shm : Proto

pub data TlsMode : Type 0 where
  tls ktls dtls : TlsMode

-- The derived `==`.
abbrev pub same_mode : InterceptMode → InterceptMode → Bool
same_mode ingress_redirect ingress_redirect = true
same_mode egress_redirect egress_redirect = true
same_mode tproxy tproxy = true
same_mode _ _ = false

abbrev pub same_direction : Direction → Direction → Bool
same_direction encrypt encrypt = true
same_direction decrypt decrypt = true
same_direction _ _ = false

abbrev pub same_proto : Proto → Proto → Bool
same_proto tcp tcp = true
same_proto udp udp = true
same_proto uds uds = true
same_proto shm shm = true
same_proto _ _ = false

abbrev pub same_class : TrafficClass → TrafficClass → Bool
same_class safety safety = true
same_class normal normal = true
same_class _ _ = false

pub record InterceptConfig : Type 0 where
  pub mode : InterceptMode
  pub in_interface : Option String
  pub match_dports : String
  pub match_dst : List String
  pub match_src : List String
  pub protocol : Option String

abbrev pub same_intercept : InterceptConfig → InterceptConfig → Bool
same_intercept a b =
    same_mode a.mode b.mode
    && same_option same_text a.in_interface b.in_interface
    && same_text a.match_dports b.match_dports
    && same_list same_text a.match_dst b.match_dst
    && same_list same_text a.match_src b.match_src
    && same_option same_text a.protocol b.protocol

pub record RuleConfig (Value : Type 0) : Type 0 where
  pub name : String
  pub direction : Direction
  pub listen_addr : String
  pub listen_proto : Proto
  pub upstream_addr : String
  pub upstream_proto : Proto
  pub security_provider : String
  pub app_protocol : Option String
  pub tls_mode : TlsMode
  pub priority : ℕ
  pub transparent : Bool
  pub provider_params : List (String × Value)
  pub traffic_class : TrafficClass
  pub dscp_tag : Option ℕ
  pub preserve_inbound_dscp : Bool
  pub app_id : Option String
  pub buffer_slots : ℕ
  pub buffer_slot_size : ℕ
  pub simulated_delay_ms : ℕ
  pub protocol_version : Option String
  pub allowed_uids : List ℕ
  pub allowed_pids : List ℕ
  pub zero_copy : Bool
  pub spin_wait_us : ℕ
  pub perf_profile : Option PerfProfile
  pub sock_buf_size : Option ℕ
  pub pipe_size : Option ℕ
  pub relay_buf_size : Option ℕ
  pub notsent_lowat : Option ℕ
  pub busy_poll_us : Option ℕ
  pub bdp_adaptive : Bool
  pub bdp_queue_budget_us : Option ℕ
  pub intercept : Option InterceptConfig

-- `rules.iter().filter_map(|r| r.intercept.as_ref().map(|ic| (r, ic)))`
abbrev pub rules_with_intercept :
    {Value : Type 0} → List (RuleConfig Value) → List (RuleConfig Value × InterceptConfig)
rules_with_intercept [] = []
rules_with_intercept (r ∷ rs) =
    let rest = rules_with_intercept rs in
    elim r.intercept [ none ↦ rest | some ic ↦ (r, ic) ∷ rest ]
