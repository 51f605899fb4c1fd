-- ===== src/Gateway/TrafficAnalyzer/Classify.antt =====
-- gateway/src/processing/traffic_analyzer.rs: `classify`, against the first matching rule.
use mathlib.Core.Option
use scg.Base.{
  ℕ, ◌-◌, ◌<◌, ◌≡◌, ◌⊎◌, inl, inr, refl, ap, Option-cases, Option, none, some, List, [], arith,
}
use scg.Base.AssocMap.{get as map_get}
use scg.Gateway.AddressPattern.{SocketAddr, AddressPattern}
use scg.Gateway.Policy.{TrafficClass}
use scg.Gateway.TrafficCache.{CacheKey, CacheKey-discrete, CacheEntry, TrafficCache, get}
use scg.Gateway.TrafficCache.Lookup.{get-insert, insert-entries}
use scg.Gateway.TrafficAnalyzer.{
  cache_key, ClassificationResult, CompiledTrafficRule, TrafficAnalyzer, first_match, classify, new,
  TrafficRuleConfig,
}

module _ {Text : Type 0} where
  -- Every entry of the cache says what the first matching rule says.
  abbrev pub Coherent : TrafficAnalyzer Text → Type 0
  Coherent a =
      (key : CacheKey) (e : CacheEntry Text)
      → map_get CacheKey-discrete key a.cache.map ≡ some e
      → (r : CompiledTrafficRule Text) × (first_match a.compiled_rules key.src key.dst ≡ some r)
        × (e.app_id ≡ r.app_id)
        × (e.traffic_class ≡ r.traffic_class)

  -- What a flow is classified as, without its id.
  abbrev pub verdict : ClassificationResult Text → Text × TrafficClass
  verdict r = (r.app_id, r.traffic_class)

  abbrev pub rule_verdict : CompiledTrafficRule Text → Text × TrafficClass
  rule_verdict r = (r.app_id, r.traffic_class)

  get-entry :
      (now : ℕ) (c : TrafficCache Text) (key : CacheKey) {e : CacheEntry Text}
      → get now c key ≡ some e
      → map_get CacheKey-discrete key c.map ≡ some e
  unfolding get
  get-entry now c key {e} h = ground (arith, h)

  -- From a coherent cache, whatever the clock reads: the application and the class of a flow are
  -- those of its first matching rule, there is none where no rule matches, and the cache stays
  -- coherent.
  pub classify-first_match :
      (now : ℕ) (a : TrafficAnalyzer Text) (src dst : SocketAddr)
      → Coherent a
      → (Option.map verdict (classify now a src dst).0
          ≡ Option.map rule_verdict (first_match a.compiled_rules src dst))
        × Coherent (classify now a src dst).1
  unfolding classify
  classify-first_match now a src dst h = elim (Option-cases (get now a.cache (cache_key src dst))) [
    | inr (e, hit) ↦
        let (r, matched, app, class) =
          h (cache_key src dst) e (get-entry now a.cache (cache_key src dst) hit) in
        rw (classify, hit) (rw matched (ground (arith, app, class)), h)
    | inl miss ↦ elim (Option-cases (first_match a.compiled_rules src dst)) [
      | inl unmatched ↦ rw (classify, miss, unmatched) (refl, h)
      | inr (r, matched) ↦
          rw (classify, miss, matched)
            (
              refl,
              λ key e found. filed key r matched e (
                  insert-entries now a.cache (cache_key src dst) key a.next_id r.app_id
                    r.traffic_class found),
            )
    ]
  ]
    where
      filed :
          (key : CacheKey) (r : CompiledTrafficRule Text)
          → first_match a.compiled_rules src dst ≡ some r
          → (e : CacheEntry Text)
          → ((key ≡ cache_key src dst)
              × (e.app_id ≡ r.app_id)
              × (e.traffic_class ≡ r.traffic_class))
            ⊎ (map_get CacheKey-discrete key a.cache.map ≡ some e)
          → (r : CompiledTrafficRule Text) × (first_match a.compiled_rules key.src key.dst ≡ some r)
            × (e.app_id ≡ r.app_id)
            × (e.traffic_class ≡ r.traffic_class)
      filed key r matched e (inl (same, app, class)) = (r, rw same matched, app, class)
      filed key r matched e (inr before) = h key e before

  -- Until its time to live is over, a flow that was classified anew keeps its id: a second
  -- classification gives the same answer and changes nothing.
  pub classify-again :
      (now later : ℕ) (a : TrafficAnalyzer Text) (src dst : SocketAddr)
      {r : ClassificationResult Text}
      → get now a.cache (cache_key src dst) ≡ none
      → (classify now a src dst).0 ≡ some r
      → later - now < a.cache.ttl
      → classify later (classify now a src dst).1 src dst ≡ (some r, (classify now a src dst).1)
  unfolding classify
  classify-again now later a src dst {r} miss first fresh =
      elim (Option-cases (first_match a.compiled_rules src dst)) [
        | inl unmatched ↦ absurd (ground (arith, miss, unmatched, first))
        | inr (rule, matched) ↦ ground (
          arith,
          miss,
          matched,
          first,
          get-insert now later a.cache (cache_key src dst) a.next_id rule.app_id rule.traffic_class,
        )
      ]

  -- An analyzer starts coherent where its cache is empty.
  pub new-Coherent :
      (parse : Text → Option AddressPattern) (rules : List (TrafficRuleConfig Text))
      (cache : TrafficCache Text)
      → cache.map ≡ []
      → Coherent (new parse rules cache)
  unfolding new map_get
  new-Coherent parse rules cache empty key e found =
      absurd (ground (arith, ap (map_get CacheKey-discrete key) empty, found))
