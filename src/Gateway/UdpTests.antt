-- ===== src/Gateway/UdpTests.antt =====
-- gateway/src/security/routing_engine.rs, gateway/src/processing/mod.rs: runs of the datagram relay with two
-- sessions at most.
use scg.Base.{
  ℕ_discrete, ◌-◌, ℕ, ◌+◌, ◌*◌, ◌≤◌, ◌≡◌, refl, arith, List, [], ◌∷◌, Option, none, some, true,
  false, length, Any, ok,
}
use scg.Base.AssocMap.{get}
use scg.Gateway.AddressPattern.{
  SocketAddr, IpAddr, SocketAddr-discrete, IpAddr-discrete, AddressPattern,
}
use Prim.Native.String.{String}
use scg.Gateway.TrafficCache.{new as cache_new}
use scg.Gateway.TrafficAnalyzer.{TrafficAnalyzer, first_match}
use scg.Gateway.TrafficAnalyzer.Classify.{Coherent}
use scg.Gateway.RuleContext.{policy_allows, RuleContext, classify_and_check_policy}
use scg.Gateway.RuleContext.Gate.{rule_class, classify_and_check_policy-first_match}
use scg.Gateway.TlsParams.{TlsSecurityParams}
use scg.Gateway.TlsParams.Parse.{JsonView, from_params}
use scg.Gateway.UdpRelay.Listeners.{
  Listener, run_dtls_encrypt_relay, run_dtls_encrypt_relay-bounded,
}
use scg.Gateway.Policy.{normal, safety, deny, PolicyManager}
use scg.Gateway.UdpRelay.{
  UdpRelay, Session, to_upstream, Datagram, datagram, received, Turn, poll_ready, sent, second,
  routing_engine, routing_open, gate, run,
}
use scg.Gateway.UdpRelay.Follows.{sends, allowed}
use scg.Gateway.UdpRelay.Bounded.{run-bounded}
use scg.Gateway.UdpRelay.Recovers.{run-recovers}

abbrev host : ℕ → SocketAddr
host n = record { ip = IpAddr.v4 n; port = 5000 }

abbrev server : SocketAddr
server = host 9

abbrev open_gate : RuleContext ℕ
open_gate = record { traffic_class = normal; traffic_analyzer = none; policy_manager = none }

abbrev from_host : ℕ → ℕ → Datagram ℕ ℕ
from_host n now = record {
  peer = host n;
  payload = n ∷ [];
  now = now;
  context = open_gate;
  opening = record { bound = some n; connected = true; handshake = true };
  result = sent;
}

abbrev idle : UdpRelay ℕ
idle = record { sessions = []; last_evict = 0; log = [] }

-- Three peers, and a reply to the second that is not there yet when the replies are read.
abbrev flood : Turn ℕ ℕ
flood = record {
  now = 0;
  poll = poll_ready;
  receptions = datagram (from_host 1 0) ∷ datagram (from_host 2 0) ∷ datagram (from_host 3 0) ∷ [];
  replies = λ peer. received (7 ∷ []) 1 ∷ [];
}

abbrev later : Turn ℕ ℕ
later = record {
  now = 61 * second;
  poll = poll_ready;
  receptions = datagram (from_host 3 (61 * second)) ∷ [];
  replies = λ peer. [];
}

abbrev relay : List (Turn ℕ ℕ) → UdpRelay ℕ → UdpRelay ℕ
relay turns s = run routing_engine 2 (60 * second) server turns s

abbrev flooded : UdpRelay ℕ
flooded = record {
  sessions =
      (host 1, record { socket = 1; last = 0 }) ∷ (host 2, record { socket = 2; last = 0 }) ∷ [];
  last_evict = 0;
  log = to_upstream (host 2) (2 ∷ []) ∷ to_upstream (host 1) (1 ∷ []) ∷ [];
}

-- The third peer finds no room.
flood_runs : relay (flood ∷ []) idle ≡ flooded
unfolding run SocketAddr-discrete IpAddr-discrete ℕ_discrete
flood_runs = refl

run-bounded_example :
    (length (relay (flood ∷ later ∷ []) idle).sessions ≤ 2)
    × (sends (λ p b. true) (relay (flood ∷ later ∷ []) idle).log
        ≤ sends (λ p b. true) [] + allowed (λ p b. true) server (flood ∷ later ∷ []))
run-bounded_example =
    run-bounded routing_engine 2 (60 * second) server (λ p b. true) (flood ∷ later ∷ []) idle
      (omega arith)

gate_open : gate server (from_host 3 (61 * second)) ≡ true
unfolding classify_and_check_policy
gate_open = refl

opens :
    (routing_engine {Socket = ℕ}).open_session
      (record { bound = some 3; connected = true; handshake = true })
    ≡ some 3
unfolding routing_open
opens = refl

flooded_idle :
    (k : SocketAddr) (session : Session ℕ)
    → get SocketAddr-discrete k flooded.sessions ≡ some session
    → 60 * second ≤ 61 * second - session.last
unfolding get
flooded_idle k session e = ground (arith, e)

run-recovers_example :
    Any
      (λ e. e ≡ to_upstream (host 3) (3 ∷ []))
      (relay (later ∷ []) (record flooded { log = [] })).log
run-recovers_example =
    run-recovers routing_engine 2 (60 * second) server later [] (from_host 3 (61 * second)) [] 3
      flooded refl refl (omega arith) flooded_idle (omega arith) gate_open opens refl

abbrev listener : Listener String
listener = record {
  upstream_addr = "server:5000";
  provider_params = ("verify", "server") ∷ ("max_sessions", "2") ∷ [];
  protocol_version = some "dtls1.2";
}

abbrev texts : JsonView String
texts = record { as_str = λ s. some s; as_u64 = λ s. none; as_bool = λ s. none }

abbrev resolve : String → Option SocketAddr
resolve s = some server

abbrev dtls_run : Option (UdpRelay ℕ)
dtls_run = run_dtls_encrypt_relay texts resolve (λ p. true) listener 0 (flood ∷ [])

dtls_runs : dtls_run ≡ some flooded
unfolding run_dtls_encrypt_relay SocketAddr-discrete IpAddr-discrete ℕ_discrete
dtls_runs = refl

run_dtls_encrypt_relay-bounded_example :
    (p : TlsSecurityParams) × (from_params texts listener.provider_params listener.protocol_version
      ≡ ok p)
    × (1 ≤ p.max_sessions)
    × (length flooded.sessions ≤ p.max_sessions)
run_dtls_encrypt_relay-bounded_example =
    run_dtls_encrypt_relay-bounded texts resolve (λ p. true) listener 0 (flood ∷ []) flooded
      dtls_runs

-- An analyzer whose only rule makes the traffic of one host safety traffic.
abbrev analyzer : TrafficAnalyzer ℕ
analyzer = record {
  cache = cache_new 4 300;
  compiled_rules =
      record {
        source = AddressPattern.ip_only (IpAddr.v4 1);
        destination = AddressPattern.any;
        app_id = 5;
        traffic_class = safety;
      }
      ∷ [];
  next_id = 1;
}

analyzer-Coherent : Coherent analyzer
unfolding cache_new get
analyzer-Coherent key e h = absurd (ground (arith, h))

abbrev closed_policy : PolicyManager
closed_policy = record { default_action = deny; entries = []; enforce_policy_on_safety = false }

abbrev gated : RuleContext ℕ
gated = record {
  traffic_class = normal;
  traffic_analyzer = some analyzer;
  policy_manager = some closed_policy;
}

classify_and_check_policy-first_match_example :
    ((classify_and_check_policy 0 gated (host 1) server).0
      ≡ policy_allows
          (some closed_policy)
          (host 1)
          server
          (rule_class normal (first_match analyzer.compiled_rules (host 1) server)))
    × ((b : TrafficAnalyzer ℕ) × ((classify_and_check_policy 0 gated
            (host 1)
            server).1.traffic_analyzer
          ≡ some b)
        × Coherent b)
classify_and_check_policy-first_match_example =
    classify_and_check_policy-first_match 0 gated analyzer (host 1) server refl analyzer-Coherent
