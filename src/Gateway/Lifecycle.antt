-- ===== src/Gateway/Lifecycle.antt =====
-- gateway/src/processing/lifecycle.rs: the orchestrator's loop. What the shutdown flag and the channel
-- answer in each turn is a script, and so is what the analyzers of the running relays do meanwhile to the
-- cache, which they share; the log lines are left out.
pub mod Reload
use scg.Base.{Bool, true, false, Option, List, [], ◌∷◌, if◌then◌else◌}
use scg.Gateway.AddressPattern.{AddressPattern}
use scg.Gateway.Policy.{PolicyConfig, PolicyManager, reload}
use scg.Gateway.TrafficCache.{TrafficCache, clear}

-- `LifecycleEvent::ConfigChanged` carries a new policy; the diff is only logged. The channel may also
-- time out or be closed.
pub data Received (Text : Type 0) : Type 0 where
  config_changed : Option (PolicyConfig Text) → Received Text
  timeout disconnected : Received Text

-- The cache and the policy behind the orchestrator's `Arc`s.
pub record LifecycleOrchestrator (Text : Type 0) : Type 0 where
  pub cache : TrafficCache Text
  pub policy : PolicyManager

-- A turn: the flag, what other threads do to the cache up to the event, and the event.
pub record LifecycleTurn (Text : Type 0) : Type 0 where
  pub shutdown : Bool
  pub others : TrafficCache Text → TrafficCache Text
  pub event : Received Text

module _ {Text : Type 0} (parse : Text → Option AddressPattern) where
  unfoldable pub on_config_changed :
      LifecycleOrchestrator Text → Option (PolicyConfig Text) → LifecycleOrchestrator Text
  on_config_changed o new_policy = record o {
    cache = clear o.cache;
    policy = reload parse o.policy new_policy;
  }

  abbrev pub meanwhile :
      (TrafficCache Text → TrafficCache Text)
      → LifecycleOrchestrator Text
      → LifecycleOrchestrator Text
  meanwhile others o = record o { cache = others o.cache }

  -- Each turn reads the flag, and then the channel.
  unfoldable pub run :
      List (LifecycleTurn Text) → LifecycleOrchestrator Text → LifecycleOrchestrator Text
  unfolding on_config_changed
  run [] o = o
  run (turn ∷ script) o = elim turn.shutdown [
    | true ↦ o
    | false ↦ elim turn.event [
      | disconnected ↦ meanwhile turn.others o
      | timeout ↦ run script (meanwhile turn.others o)
      | config_changed new_policy ↦
          run script (on_config_changed (meanwhile turn.others o) new_policy)
    ]
  ]
