-- ===== src/Gateway/RuleContext/Gate.antt =====
-- gateway/src/processing/mod.rs: the gate against the rules, without the cache.
use mathlib.Core.Option
use scg.Base.{ℕ, ◌≡◌, refl, ap, arith, Option, none, some}
use scg.Gateway.AddressPattern.{SocketAddr}
use scg.Gateway.Policy.{TrafficClass}
use scg.Gateway.TrafficAnalyzer.{
  TrafficAnalyzer, ClassificationResult, CompiledTrafficRule, classify, first_match,
}
use scg.Gateway.TrafficAnalyzer.Classify.{Coherent, verdict, rule_verdict, classify-first_match}
use scg.Gateway.RuleContext.{
  RuleContext, class_or, policy_allows, classify_flow, classify_and_check_policy,
}

module _ {Text : Type 0} where
  -- The class of the first rule that matches a flow, or else the class of the listener's own rule.
  abbrev pub rule_class : TrafficClass → Option (CompiledTrafficRule Text) → TrafficClass
  rule_class class none = class
  rule_class class (some rule) = rule.traffic_class

  class_lem :
      (class : TrafficClass) (o : Option (ClassificationResult Text))
      (r : Option (CompiledTrafficRule Text))
      → Option.map verdict o ≡ Option.map rule_verdict r
      → class_or class o ≡ rule_class class r
  class_lem class none none e = refl
  class_lem class none (some r) e = absurd (ground (arith, e))
  class_lem class (some o) none e = absurd (ground (arith, e))
  class_lem class (some o) (some r) e = ground (arith, e)

  -- From a coherent cache, the gate decides as if there were no cache: by the policy, for the class of
  -- the first rule that matches the flow or else that of the listener's own rule; and the cache stays
  -- coherent.
  pub classify_and_check_policy-first_match :
      (now : ℕ) (ctx : RuleContext Text) (a : TrafficAnalyzer Text) (src dst : SocketAddr)
      → ctx.traffic_analyzer ≡ some a
      → Coherent a
      → ((classify_and_check_policy now ctx src dst).0
          ≡ policy_allows ctx.policy_manager src dst
              (rule_class ctx.traffic_class (first_match a.compiled_rules src dst)))
        × ((b : TrafficAnalyzer Text) × ((classify_and_check_policy now ctx src
                dst).1.traffic_analyzer
              ≡ some b)
            × Coherent b)
  unfolding classify_and_check_policy classify_flow
  classify_and_check_policy-first_match now ctx a src dst analyzer coherent =
      let (same, kept) = classify-first_match now a src dst coherent in
      rw analyzer (
        ap (policy_allows ctx.policy_manager src dst) (
            class_lem ctx.traffic_class (classify now a src dst).0
              (first_match a.compiled_rules src dst) same),
        ((classify now a src dst).1, refl, kept),
      )
