-- ===== src/Gateway/WireguardTests.antt =====
-- gateway/src/security/wireguard_engine.rs: runs on a small rule, where a JSON value is a text.
use scg.Base.Texts.{same_text, codes, parse_unsigned}
use scg.Gateway.Wireguard.Tidy.{link_left, keys_left}
use scg.Base.{if◌then◌else◌, ℕ, Bool, ◌≡◌, refl, arith, List, [], ◌∷◌, none, some, ok, true, false}
use scg.Gateway.Wireguard.Provision.{
  Answer, run_tool, Machine, provision, write_key, create_key_dir, remove_key_dir, Action,
}
use Prim.Native.String.{String}
use scg.Base.Bytes.{Bytes}
use scg.Gateway.TlsParams.Parse.{JsonView}
use scg.Gateway.Wireguard.{WgProviderConfig}
use scg.Gateway.Wireguard.Base64.{b64_decode, b64_encode, b64_decode-b64_encode}
use scg.Gateway.Wireguard.Params.{wg_from_params}
use scg.Gateway.AddressPattern.{matches, same_ip, to_canonical, SocketAddr, v4, any, ip_only}
use scg.Gateway.Policy.{is_safety, any_entry, is_allow, PolicyManager, normal, deny}
use scg.Gateway.RuleContext.{classify_and_check_policy}
use scg.Gateway.UdpRelay.{Effect, to_client}
use scg.Gateway.Wireguard.Relay.{
  WgRelay, WgDatagram, datagram, received, WgTurn, poll_ready, gate, same_addr, run_plain_udp_relay,
}
use scg.Gateway.Wireguard.Pinned.{IsPinned, run_plain_udp_relay-IsPinned}
use scg.Gateway.Wireguard.LockedOut.{IsDenied, bound, sent_upstream, run_plain_udp_relay-locked_out}
use scg.Gateway.Wireguard.Engine.{
  Surroundings, IsClean, run_wireguard_relay, run_wireguard_relay-IsClean,
}
use scg.Gateway.Wireguard.Usable.{IsUsable, wg_from_params-IsUsable}

b64_decode-b64_encode_example :
    b64_decode (b64_encode (77 ∷ 97 ∷ 255 ∷ 0 ∷ [])) ≡ some (77 ∷ 97 ∷ 255 ∷ 0 ∷ [])
b64_decode-b64_encode_example =
    b64_decode-b64_encode (77 ∷ 97 ∷ 255 ∷ 0 ∷ [])
      (omega arith, (omega arith, (omega arith, (omega arith, tt)))) (omega arith)

text_is_read : b64_decode (codes "TWFu") ≡ some (codes "Man")
unfolding b64_decode
text_is_read = refl

early_pad_is_refused : b64_decode (codes "TW=uTWFu") ≡ none
unfolding b64_decode
early_pad_is_refused = refl

-- Every text without a letter is an address.
abbrev plain : Bytes → Bool
plain address = true

abbrev texts : JsonView String
texts = record {
  as_str = λ s. some s;
  as_u64 = λ s. parse_unsigned 18446744073709551615 (codes s);
  as_bool = λ s. none;
}

abbrev wg_params : List (String × String)
wg_params =
    ("wg_interface", "wg-test0")
    ∷ ("private_key", "QID5p0yqzAGq2gA1nF3w8H6+6N0eX0K3nG3vJ8h0VFg=")
    ∷ ("wg_listen_port", "51820")
    ∷ ("peer_public_key", "yAnz5TF+lXXJte14tji3zlMNq+hd2rYUIgJBgB3fBmk=")
    ∷ ("peer_endpoint", "192.0.2.2:51820")
    ∷ ("tunnel_local_ip", "10.0.0.1/32")
    ∷ ("peer_allowed_ips", "10.0.0.2/32, 10.0.0.3")
    ∷ ("persistent_keepalive", "25")
    ∷ []

abbrev wg_config : WgProviderConfig
wg_config = record {
  wg_interface = "wg-test0";
  private_key = "QID5p0yqzAGq2gA1nF3w8H6+6N0eX0K3nG3vJ8h0VFg=";
  wg_listen_port = 51820;
  peer_public_key = "yAnz5TF+lXXJte14tji3zlMNq+hd2rYUIgJBgB3fBmk=";
  peer_endpoint = "192.0.2.2:51820";
  tunnel_local_ip = "10.0.0.1/32";
  peer_allowed_ips = "10.0.0.2/32, 10.0.0.3";
  preshared_key = none;
  persistent_keepalive = some 25;
  manage_interface = true;
}

wg_accepted : wg_from_params texts plain wg_params ≡ ok wg_config
unfolding wg_from_params
wg_accepted = refl

wg_from_params-IsUsable_example : IsUsable wg_config
wg_from_params-IsUsable_example =
    wg_from_params-IsUsable texts plain wg_params wg_config wg_accepted

abbrev start : Machine
start = record { log = [] }

abbrev no_v6 : String → Bool
no_v6 address = false

abbrev wg_missing : Action → List (Action × Answer) → Answer
wg_missing (run_tool tool argv) log = if same_text tool "wg" then some "no such file" else none
wg_missing create_key_dir log = none
wg_missing remove_key_dir log = none
wg_missing (write_key name value) log = none

abbrev is_file : Action → Bool
is_file (run_tool tool argv) = false
is_file create_key_dir = true
is_file remove_key_dir = true
is_file (write_key name value) = true

abbrev files : List (Action × Answer) → List Action
files [] = []
files ((a, answer) ∷ log) = let rest = files log in if is_file a then a ∷ rest else rest

key_goes_when_wg_fails :
    files (provision no_v6 wg_missing wg_config start).1.log
    ≡ remove_key_dir ∷ write_key "private.key" wg_config.private_key ∷ create_key_dir ∷ []
unfolding provision
key_goes_when_wg_fails = refl

start-IsClean : IsClean start
unfolding IsClean keys_left link_left
start-IsClean = (refl, λ iface. refl)

abbrev host_there : Surroundings
host_there = record { wireguard_available = true; listen_bound = true; upstream_connected = true }

run_wireguard_relay-IsClean_example :
    IsClean (run_wireguard_relay no_v6 wg_missing host_there texts plain wg_params start).1
run_wireguard_relay-IsClean_example =
    run_wireguard_relay-IsClean no_v6 wg_missing host_there texts plain wg_params start
      start-IsClean

abbrev client : ℕ → SocketAddr
client n = record { ip = v4 n; port = 4000 }

abbrev only_second : PolicyManager
only_second = record {
  default_action = deny;
  entries = record { source = ip_only (v4 2); destination = any } ∷ [];
  enforce_policy_on_safety = false;
}

abbrev from_client : ℕ → WgDatagram ℕ
from_client n = record {
  peer = client n;
  payload = n ∷ [];
  now = 0;
  context = record {
    traffic_class = normal;
    traffic_analyzer = none;
    policy_manager = some only_second;
  };
}

abbrev both_send : List (WgTurn ℕ)
both_send =
    poll_ready (datagram (from_client 1) ∷ datagram (from_client 2) ∷ []) (received (7 ∷ []) ∷ [])
    ∷ []

abbrev unbound : WgRelay
unbound = record { last_client = none; log = [] }

denied_client_is_bound :
    run_plain_udp_relay (some (client 9)) both_send unbound
    ≡ bound (client 1) (to_client (client 1) (7 ∷ []) ∷ [])
unfolding run_plain_udp_relay is_safety any_entry matches to_canonical is_allow
denied_client_is_bound = refl

unbound-IsPinned : IsPinned unbound
unfolding IsPinned
unbound-IsPinned = refl

run_plain_udp_relay-IsPinned_example :
    IsPinned (run_plain_udp_relay (some (client 9)) both_send unbound)
run_plain_udp_relay-IsPinned_example =
    run_plain_udp_relay-IsPinned (some (client 9)) both_send unbound unbound-IsPinned

first_denied : gate (some (client 9)) (from_client 1) ≡ false
unfolding classify_and_check_policy is_safety any_entry matches same_ip to_canonical is_allow
first_denied = refl

second_other : same_addr (client 1) (client 2) ≡ false
unfolding same_addr
second_other = refl

both_send-IsDenied : IsDenied (some (client 9)) (client 1) both_send
both_send-IsDenied =
    (((λ same. first_denied), ((λ same. absurd (ground (arith, same, second_other))), tt)), tt)

run_plain_udp_relay-locked_out_example :
    (later : List Effect) × (run_plain_udp_relay (some (client 9)) both_send (bound (client 1) [])
      ≡ bound (client 1) later)
    × (sent_upstream later ≡ sent_upstream [])
run_plain_udp_relay-locked_out_example =
    run_plain_udp_relay-locked_out (some (client 9)) (client 1) both_send [] both_send-IsDenied
