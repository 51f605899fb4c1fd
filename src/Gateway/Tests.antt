-- ===== src/Gateway/Tests.antt =====
-- The gateway's theorems at concrete inputs. The texts of the configuration are numbers here, and the
-- address parser reads 0 as "any" and 1 as 10.0.0.0/8.
use scg.Base.{
  ◌++◌, ◌==◌, ℕ, ◌+◌, ◌-◌, ◌*◌, ◌/◌, ◌^◌, ◌<◌, ◌≡◌, ◌↔◌, ◌⊎◌, refl, List, [], ◌∷◌, Option, some,
  none, true, false, ◌&&◌, Any, arith, if◌then◌else◌,
}
use scg.Base.AssocMap.{get as map_get}
use scg.Gateway.AddressPattern.{
  IpAddr, v4, v6, SocketAddr, AddressPattern, any, cidr, matches, cidr_contains,
}
use scg.Gateway.AddressPattern.Prefix.{cidr_contains_v4}
use scg.Gateway.Policy.{
  new as policy_new, allow, deny, safety, normal, PolicyManager, check_allowed,
}
use scg.Gateway.Policy.Allowed.{check_allowed_iff}
use scg.Gateway.TrafficCache.{new as cache_new, TrafficCache, get, insert}
use scg.Gateway.TrafficCache.Bounded.{IsValid, insert-IsValid, new-IsValid}
use scg.Gateway.TrafficAnalyzer.{
  new as analyzer_new, ClassificationResult, CompiledTrafficRule, TrafficAnalyzer,
  TrafficRuleConfig, cache_key, first_match, classify,
}
use scg.Gateway.Lifecycle.{LifecycleTurn, Received, config_changed, timeout, LifecycleOrchestrator}
use scg.Gateway.TrafficAnalyzer.Classify.{
  Coherent, verdict, rule_verdict, classify-first_match, new-Coherent,
}
use mathlib.Core.Option

-- 10.0.0.0 and 10.1.2.3
abbrev ten : ℕ
ten = 10 * 2 ^ 24

abbrev inside : ℕ
inside = ten + 2 ^ 16 + 2 * 2 ^ 8 + 3

cidr_contains_v4_example :
    ((cidr_contains (v4 ten) 8 (v4 inside) ≡ true) ↔ (ten / 2 ^ 24 ≡ inside / 2 ^ 24))
    × (cidr_contains (v4 ten) 8 (v6 inside) ≡ false)
cidr_contains_v4_example = cidr_contains_v4 ten 8 inside (omega arith) (omega arith) (omega arith)

abbrev client : SocketAddr
client = record { ip = v4 inside; port = 5000 }

abbrev server : SocketAddr
server = record { ip = v4 1; port = 443 }

abbrev strict : PolicyManager
strict = record {
  default_action = deny;
  entries = record { source = cidr (v4 ten) 8; destination = any } ∷ [];
  enforce_policy_on_safety = true;
}

check_allowed_iff_example : (check_allowed strict client server normal ≡ true) ↔ (
    ((normal ≡ safety) × (strict.enforce_policy_on_safety ≡ false))
    ⊎ (strict.default_action ≡ allow)
    ⊎ Any (λ e. (matches e.source client && matches e.destination server) ≡ true) strict.entries)
check_allowed_iff_example = check_allowed_iff strict client server normal

abbrev parse : ℕ → Option AddressPattern
parse text = if text == 0 then some any else if text == 1 then some (cidr (v4 ten) 8) else none

-- A cache of one entry that lives for five minutes.
abbrev small : TrafficCache ℕ
small = cache_new 1 300

insert-IsValid_example : IsValid (insert 7 small (cache_key client server) 1 42 safety)
insert-IsValid_example =
    insert-IsValid 7 small (cache_key client server) 1 42 safety (new-IsValid 1 300)

abbrev one : TrafficCache ℕ
one = insert 7 small (cache_key client server) 1 42 safety

abbrev rules : List (TrafficRuleConfig ℕ)
rules = record { source = 1; destination = 0; app_id = 42; traffic_class = safety } ∷ []

abbrev analyzer : TrafficAnalyzer ℕ
analyzer = analyzer_new parse rules small

classify-first_match_example :
    (Option.map verdict (classify 7 analyzer client server).0
      ≡ Option.map rule_verdict (first_match analyzer.compiled_rules client server))
    × Coherent (classify 7 analyzer client server).1
unfolding cache_new
classify-first_match_example =
    classify-first_match 7 analyzer client server (new-Coherent parse rules small refl)

classified_first :
    (classify 7 analyzer client server).0
    ≡ some (record { traffic_id = 1; app_id = 42; traffic_class = safety })
unfolding classify get cache_new analyzer_new map_get first_match
    scg.Gateway.TrafficAnalyzer.compile_rules scg.Gateway.TrafficAnalyzer.compile_rule matches
    cidr_contains scg.Gateway.AddressPattern.to_canonical scg.Gateway.AddressPattern.prefix_mask
classified_first = refl

not_cached : get 7 analyzer.cache (cache_key client server) ≡ none
unfolding get cache_new analyzer_new map_get
not_cached = refl

lives : 9 - 7 < analyzer.cache.ttl
unfolding cache_new analyzer_new
lives = omega arith

-- A turn in which nothing else happens to the cache.
abbrev alone : Received ℕ → LifecycleTurn ℕ
alone event = record { shutdown = false; others = λ c. c; event = event }

-- Two turns that time out, and between them one that brings a configuration without a policy.
abbrev waits : List (LifecycleTurn ℕ)
waits = alone timeout ∷ []

abbrev three_turns : List (LifecycleTurn ℕ)
three_turns = waits ++ alone (config_changed none) ∷ waits

abbrev orchestrator : LifecycleOrchestrator ℕ
orchestrator = record { cache = one; policy = strict }
