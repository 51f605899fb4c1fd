-- ===== src/Gateway/TlsTests.antt =====
-- gateway/src/security/tls_engine/params.rs: runs on small parameters, where a JSON value is a text.
use Prim.Native.String.{String}
use scg.Base.{◌≡◌, refl, List, [], ◌∷◌, none, some, ok, err, true, false}
use scg.Base.Texts.{codes}
use scg.Gateway.Config.{RuleConfig, Direction, Proto, TlsMode}
use scg.Gateway.Policy.{normal}
use scg.Gateway.Config.Validate.Rules.{check_ktls}
use scg.Gateway.Config.Validate.{Parsers}
use scg.Gateway.Config.Rule.{effective_security_provider}
use scg.Gateway.TlsParams.{
  TlsSecurityParams, verify_missing, is_tls13, host_of, default_profile, verify_server,
}
use scg.Gateway.TlsParams.Hex.{decode_hex}
use scg.Gateway.TlsParams.Parse.{from_params, JsonView}

hex_is_read : decode_hex (codes " 0x0A ff") ≡ ok (10 ∷ 255 ∷ [])
unfolding decode_hex
hex_is_read = refl

host_is_found : host_of (codes "[::1]:443") ≡ some (codes "::1")
unfolding host_of
host_is_found = refl

abbrev texts : JsonView String
texts = record { as_str = λ s. some s; as_u64 = λ s. none; as_bool = λ s. none }

abbrev tls13_params : List (String × String)
tls13_params = ("verify", "server") ∷ ("groups", "X25519, p-384") ∷ ("max_sessions", "16") ∷ []

abbrev tls13 : TlsSecurityParams
tls13 = record {
  version = some "tls1.3";
  profile = default_profile;
  verify = verify_server;
  cert_path = none;
  key_path = none;
  ca_path = none;
  server_name = none;
  psk_identity = none;
  psk_key = none;
  cipher_list = none;
  ciphersuites = none;
  groups = some "X25519, p-384";
  resumption = false;
  max_sessions = 16;
  idle_ttl_secs = 60;
}

-- The rule does not say how the peer is verified.
refused : from_params texts [] none ≡ err verify_missing
unfolding from_params
refused = refl

tls13_is_new : is_tls13 tls13 ≡ true
unfolding is_tls13
tls13_is_new = refl

abbrev ktls_rule : RuleConfig String
ktls_rule = record {
  name = "ktls";
  direction = Direction.encrypt;
  listen_addr = "0.0.0.0:8080";
  listen_proto = Proto.tcp;
  upstream_addr = "backend:443";
  upstream_proto = Proto.tcp;
  security_provider = "ktls";
  app_protocol = none;
  tls_mode = TlsMode.tls;
  priority = 0;
  transparent = false;
  provider_params = tls13_params;
  traffic_class = normal;
  dscp_tag = none;
  preserve_inbound_dscp = false;
  app_id = none;
  buffer_slots = 256;
  buffer_slot_size = 65536;
  simulated_delay_ms = 0;
  protocol_version = some "tls1.3";
  allowed_uids = [];
  allowed_pids = [];
  zero_copy = true;
  spin_wait_us = 0;
  perf_profile = none;
  sock_buf_size = none;
  pipe_size = none;
  relay_buf_size = none;
  notsent_lowat = none;
  busy_poll_us = none;
  bdp_adaptive = false;
  bdp_queue_budget_us = none;
  intercept = none;
}

abbrev text_parsers : Parsers String
text_parsers = record {
  parse_socket_addr = λ s. none;
  parse_pattern = λ s. none;
  as_str = λ s. some s;
  as_u64 = λ s. none;
  tls_params_ok = λ ps version. true;
  wireguard_params_ok = λ ps. true;
}

ktls_checked : check_ktls text_parsers ktls_rule ≡ ok tt
unfolding check_ktls
ktls_checked = refl

ktls_effective : effective_security_provider ktls_rule ≡ "ktls"
unfolding effective_security_provider
ktls_effective = refl
