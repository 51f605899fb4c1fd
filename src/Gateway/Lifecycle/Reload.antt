-- ===== src/Gateway/Lifecycle/Reload.antt =====
-- gateway/src/processing/lifecycle.rs: the configuration in force at the end of `run`.
use scg.Base.{false, Option, List, [], ◌∷◌, ◌≡◌, ◌≢◌}
use scg.Gateway.AddressPattern.{AddressPattern}
use scg.Gateway.TrafficCache.{TrafficCache}
use scg.Gateway.Lifecycle.{timeout, disconnected, LifecycleTurn}

-- What other threads do to the cache in these turns.
abbrev pub others_of :
    {Text : Type 0} → List (LifecycleTurn Text) → TrafficCache Text → TrafficCache Text
others_of [] c = c
others_of (turn ∷ turns) c = others_of turns (turn.others c)

module _ {Text : Type 0} (parse : Text → Option AddressPattern) where
  -- A turn that the loop goes on after, and one that waits in vain.
  abbrev pub IsLive : LifecycleTurn Text → Type 0
  IsLive t = (t.shutdown ≡ false) × (t.event ≢ disconnected)

  abbrev pub IsQuiet : LifecycleTurn Text → Type 0
  IsQuiet t = (t.shutdown ≡ false) × (t.event ≡ timeout)
