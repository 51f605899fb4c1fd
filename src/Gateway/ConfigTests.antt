-- ===== src/Gateway/ConfigTests.antt =====
-- gateway/src/management/config.rs, gateway/src/lib.rs, gateway/src/networking/firewall.rs: runs on
-- small configurations.
use scg.Base.{
  All, if◌then◌else◌, ◌&&◌, not, ◌||◌, ◌<◌, ℕ, Bool, true, false, Option, none, some, List, [], ◌∷◌,
  ◌≡◌, refl, ok, err,
}
use scg.Base.Texts.{codes, same_text, any_of}
use Prim.Native.String.{String}
use scg.Gateway.Policy.{normal}
use scg.Gateway.AddressPattern.{SocketAddr, IpAddr, AddressPattern}
use scg.Gateway.Config.Validate.{GatewayConfig, Parsers, rule_fault, bad_dscp_tag}
use scg.Gateway.Config.Validate.Whole.{validate}
use scg.Gateway.Config.Validate.Ports.{validate_port_spec, IsRange, validate_port_spec-IsRange}
use scg.Gateway.Config.Validate.Sound.{IsSound, IsPoolSize, validate-IsSound}
use scg.Gateway.Config.Qos.{egress_dscp, qos, needs_inbound_dscp, egress_dscp-lt}
use scg.Gateway.Config.Diff.Buckets.{HasUniqueNames}
use scg.Gateway.Config.Diff.{rule_by_name}
use scg.Gateway.Supervisor.{Supervisor, start_rules}
use scg.Gateway.Supervisor.Flags.{running, IsValid}
use scg.Gateway.Supervisor.Startup.{idle_supervisor, start_rules-running}
use scg.Gateway.Firewall.{Host}
use scg.Gateway.Config.{RuleConfig, PerfProfile, InterceptMode, Direction, Proto, TlsMode}

-- A rule as most configurations have it.
abbrev web : RuleConfig ℕ
web = record {
  name = "web";
  direction = Direction.encrypt;
  listen_addr = "0.0.0.0:8080";
  listen_proto = Proto.tcp;
  upstream_addr = "backend:443";
  upstream_proto = Proto.tcp;
  security_provider = "tls";
  app_protocol = none;
  tls_mode = TlsMode.tls;
  priority = 0;
  transparent = false;
  provider_params = [];
  traffic_class = normal;
  dscp_tag = some 200;
  preserve_inbound_dscp = true;
  app_id = none;
  buffer_slots = 256;
  buffer_slot_size = 65536;
  simulated_delay_ms = 0;
  protocol_version = none;
  allowed_uids = [];
  allowed_pids = [];
  zero_copy = false;
  spin_wait_us = 0;
  perf_profile = some PerfProfile.latency;
  sock_buf_size = none;
  pipe_size = none;
  relay_buf_size = none;
  notsent_lowat = some 0;
  busy_poll_us = none;
  bdp_adaptive = true;
  bdp_queue_budget_us = none;
  intercept = some (record {
    mode = InterceptMode.egress_redirect;
    in_interface = none;
    match_dports = "80,443";
    match_dst = "127.0.0.1" ∷ "10.0.0.0/8" ∷ [];
    match_src = [];
    protocol = none;
  });
}

abbrev proxy : RuleConfig ℕ
proxy = record web {
  name = "proxy";
  transparent = true;
  upstream_addr = "auto";
  intercept = some (record {
    mode = InterceptMode.tproxy;
    in_interface = none;
    match_dports = "4465";
    match_dst = [];
    match_src = "192.168.1.0/24" ∷ [];
    protocol = some "tcp";
  });
}

abbrev local_app : RuleConfig ℕ
local_app = record web { name = "local"; listen_proto = Proto.uds; intercept = none }

egress_dscp_of_web : egress_dscp (qos web) none ≡ some 8
unfolding egress_dscp qos
egress_dscp_of_web = refl

egress_dscp-lt_example : 8 < 64
egress_dscp-lt_example = egress_dscp-lt (qos web) none egress_dscp_of_web

no_sample_of_web : needs_inbound_dscp (qos web) ≡ false
unfolding needs_inbound_dscp qos
no_sample_of_web = refl

-- A reload that edits one rule, removes one and adds one.
abbrev old_rules : List (RuleConfig ℕ)
old_rules = web ∷ proxy ∷ []

abbrev new_web : RuleConfig ℕ
new_web = record web { upstream_addr = "other:443" }

abbrev api : RuleConfig ℕ
api = record web { name = "api"; listen_addr = "0.0.0.0:8081" }

abbrev new_rules : List (RuleConfig ℕ)
new_rules = new_web ∷ api ∷ []

abbrev equal_params : List (String × ℕ) → List (String × ℕ) → Bool
equal_params a b = true

started : Supervisor ℕ
started = start_rules old_rules idle_supervisor

start_rules-running_example :
    IsValid (start_rules (web ∷ local_app ∷ []) idle_supervisor)
    × (running "local" (start_rules (web ∷ local_app ∷ []) idle_supervisor) ≡ [])
unfolding rule_by_name
start_rules-running_example = start_rules-running (web ∷ local_app ∷ []) "local" (refl, (refl, tt))

-- A host on which no chain and no policy exists, and where a command fails that jumps to a given target.
abbrev port_8080 : String → Option SocketAddr
port_8080 s = some (record { ip = IpAddr.v4 0; port = 8080 })

abbrev probes : List String → Bool
probes args = any_of (λ a. same_text a "-L" || same_text a "-C") args

abbrev host : String → Host
host failing = record {
  execute = λ log p args. some (record {
    success = not (probes args) && not (any_of (λ a. same_text a failing) args);
    stdout = [];
  });
  to_string = λ n. "8080";
  parse_socket_addr = port_8080;
  euid = 0;
}

-- The rules above in a configuration, with parsers that accept.
abbrev parsers : Parsers ℕ
parsers = record {
  parse_socket_addr = λ s.
      some (record { ip = IpAddr.v4 0; port = if same_text s "0.0.0.0:8080" then 8080 else 8081 });
  parse_pattern = λ s. some (AddressPattern.ip_only (IpAddr.v4 1));
  as_str = λ v. none;
  as_u64 = λ v. some v;
  tls_params_ok = λ ps version. true;
  wireguard_params_ok = λ ps. true;
}

abbrev plain_web : RuleConfig ℕ
plain_web = record web { dscp_tag = some 46 }

abbrev gateway_config : GatewayConfig ℕ
gateway_config = record {
  rules =
      plain_web
      ∷ record proxy { listen_addr = "0.0.0.0:8081"; dscp_tag = none }
      ∷ record local_app { dscp_tag = none; app_id = some "app"; allowed_uids = 1000 ∷ [] }
      ∷ [];
  traffic_rules = [];
  policy = none;
  conn_pool_size = some 4;
}

accepted : validate parsers gateway_config ≡ ok tt
unfolding validate scg.Gateway.AddressPattern.same_ip
accepted = refl

validate-IsSound_example :
    HasUniqueNames gateway_config.rules
    × IsPoolSize parsers (some 4)
    × All IsSound gateway_config.rules
validate-IsSound_example = validate-IsSound parsers gateway_config accepted

-- The mark 200 has more than six bits.
refused :
    validate parsers (record gateway_config { rules = web ∷ [] }) ≡ err (rule_fault 0 bad_dscp_tag)
unfolding validate
refused = refl

ports_accepted : validate_port_spec (codes "80, 4465:4467") ≡ ok tt
unfolding validate_port_spec
ports_accepted = refl

validate_port_spec-IsRange_example :
    IsRange (codes "80") × (IsRange (codes " 4465:4467") × Unit {0})
validate_port_spec-IsRange_example =
    validate_port_spec-IsRange (codes "80, 4465:4467") ports_accepted
