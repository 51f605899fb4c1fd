-- ===== src/Gateway/TrafficAnalyzer.antt =====
-- gateway/src/processing/traffic_analyzer.rs: the classification of a flow by cache and rules. The
-- address texts of the rules are read by a parameter, as in the policy.
pub mod Classify
use mathlib.Core.Option
use scg.Base.{
  ℕ, ◌+◌, ◌%◌, ◌^◌, Bool, true, false, ◌&&◌, Option, none, some, List, [], ◌∷◌, if◌then◌else◌,
}
use scg.Base.Words.{wrapping_add}
use scg.Gateway.AddressPattern.{AddressPattern, SocketAddr, matches}
use scg.Gateway.Policy.{TrafficClass}
use scg.Gateway.TrafficCache.{CacheKey, CacheEntry, TrafficCache, get, insert}

pub record ClassificationResult (Text : Type 0) : Type 0 where
  pub traffic_id : ℕ
  pub app_id : Text
  pub traffic_class : TrafficClass

pub record CompiledTrafficRule (Text : Type 0) : Type 0 where
  pub source : AddressPattern
  pub destination : AddressPattern
  pub app_id : Text
  pub traffic_class : TrafficClass

pub record TrafficRuleConfig (Text : Type 0) : Type 0 where
  pub source : Text
  pub destination : Text
  pub app_id : Text
  pub traffic_class : TrafficClass

pub record TrafficAnalyzer (Text : Type 0) : Type 0 where
  pub cache : TrafficCache Text
  pub compiled_rules : List (CompiledTrafficRule Text)
  pub next_id : ℕ

abbrev pub cache_key : SocketAddr → SocketAddr → CacheKey
cache_key src dst = record { src = src; dst = dst }

module _ {Text : Type 0} where
  unfoldable pub compile_rule :
      (Text → Option AddressPattern) → TrafficRuleConfig Text → Option (CompiledTrafficRule Text)
  compile_rule parse r = elim (parse r.source) [
    | none ↦ none
    | some source ↦
        Option.map
          (λ (d : AddressPattern). record {
            source = source;
            destination = d;
            app_id = r.app_id;
            traffic_class = r.traffic_class;
          })
          (parse r.destination)
  ]

  unfoldable pub compile_rules :
      (Text → Option AddressPattern)
      → List (TrafficRuleConfig Text)
      → List (CompiledTrafficRule Text)
  compile_rules parse [] = []
  compile_rules parse (r ∷ rs) =
      let rest = compile_rules parse rs in
      elim (compile_rule parse r) [ none ↦ rest | some c ↦ c ∷ rest ]

  unfoldable pub new :
      (Text → Option AddressPattern)
      → List (TrafficRuleConfig Text)
      → TrafficCache Text
      → TrafficAnalyzer Text
  new parse rules cache = record {
    cache = cache;
    compiled_rules = compile_rules parse rules;
    next_id = 1;
  }

  -- The loop over the rules: the first that matches both ends.
  unfoldable pub first_match :
      List (CompiledTrafficRule Text) → SocketAddr → SocketAddr → Option (CompiledTrafficRule Text)
  first_match [] src dst = none
  first_match (r ∷ rs) src dst =
      let rest = first_match rs src dst in
      if matches r.source src && matches r.destination dst then some r else rest

  unfoldable pub classify :
      ℕ
      → TrafficAnalyzer Text
      → SocketAddr
      → SocketAddr
      → Option (ClassificationResult Text) × TrafficAnalyzer Text
  classify now a src dst =
      let key = cache_key src dst in
      elim (get now a.cache key) [
        | some entry ↦ (
          some (record {
            traffic_id = entry.traffic_id;
            app_id = entry.app_id;
            traffic_class = entry.traffic_class;
          }),
          a,
        )
        | none ↦ elim (first_match a.compiled_rules src dst) [
          | none ↦ (none, a)
          | some rule ↦ (
            some (record {
              traffic_id = a.next_id;
              app_id = rule.app_id;
              traffic_class = rule.traffic_class;
            }),
            record a {
              cache = insert now a.cache key a.next_id rule.app_id rule.traffic_class;
              next_id = wrapping_add a.next_id 1;
            },
          )
        ]
      ]
