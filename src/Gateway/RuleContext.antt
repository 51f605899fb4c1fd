-- ===== src/Gateway/RuleContext.antt =====
-- gateway/src/processing/mod.rs: the gate of `RuleContext` in front of every relay. The analyzer and the
-- policy are shared with the other rules; the gate gets them as it finds them.
pub mod Gate
use Prim.Native.String.{String}
use scg.Base.{ℕ, Bool, true, false, Option, none, some, if◌then◌else◌}
use scg.Gateway.AddressPattern.{SocketAddr}
use scg.Gateway.Policy.{TrafficClass, PolicyManager, check_allowed}
use scg.Gateway.TrafficAnalyzer.{TrafficAnalyzer, ClassificationResult, classify}

-- The part of `RuleContext` that the gate looks at.
pub record RuleContext (Text : Type 0) : Type 0 where
  pub traffic_class : TrafficClass
  pub traffic_analyzer : Option (TrafficAnalyzer Text)
  pub policy_manager : Option PolicyManager

abbrev pub policy_allows : Option PolicyManager → SocketAddr → SocketAddr → TrafficClass → Bool
policy_allows none src dst class = true
policy_allows (some pm) src dst class = check_allowed pm src dst class

module _ {Text : Type 0} where
  abbrev pub class_or : TrafficClass → Option (ClassificationResult Text) → TrafficClass
  class_or rule_class none = rule_class
  class_or rule_class (some result) = result.traffic_class

  -- The class of a flow, and the analyzer with its cache as the classification leaves it.
  unfoldable pub classify_flow :
      ℕ → RuleContext Text → SocketAddr → SocketAddr → TrafficClass × Option (TrafficAnalyzer Text)
  unfolding classify
  classify_flow now ctx src dst = elim ctx.traffic_analyzer [
    | none ↦ (ctx.traffic_class, none)
    | some a ↦
        (class_or ctx.traffic_class (classify now a src dst).0, some (classify now a src dst).1)
  ]

  unfoldable pub classify_and_check_policy :
      ℕ → RuleContext Text → SocketAddr → SocketAddr → Bool × RuleContext Text
  unfolding classify_flow check_allowed
  classify_and_check_policy now ctx src dst =
      let (class, analyzer) = classify_flow now ctx src dst in
      (policy_allows ctx.policy_manager src dst class, record ctx { traffic_analyzer = analyzer })

  -- For a destination that is still a text: what is no address fails closed.
  unfoldable pub classify_and_check_policy_target :
      (String → Option SocketAddr)
      → ℕ
      → RuleContext Text
      → SocketAddr
      → String
      → Bool × RuleContext Text
  unfolding classify_and_check_policy
  classify_and_check_policy_target parse now ctx src target = elim (parse target) [
    | none ↦ (false, ctx)
    | some dst ↦ classify_and_check_policy now ctx src dst
  ]
