-- ===== src/Gateway/Supervisor/Reloaded.antt =====
-- gateway/src/lib.rs: what runs after the watcher's callback has applied a diff.
use scg.Base.{Bool, none, some, List, [], ◌∷◌, if◌then◌else◌}
use Prim.Native.String.{String}
use scg.Gateway.Config.{RuleConfig}
use scg.Gateway.Config.Rule.{reload_differs}
use scg.Gateway.Config.Diff.{rule_by_name}
use scg.Gateway.Supervisor.{Supervisor}

module _ {Value : Type 0} where
  module _ (same_params : List (String × Value) → List (String × Value) → Bool) where
    -- Nothing, where the new configuration does not have the name; the new rule, where it is new or differs
    -- in a way that needs a restart; and else what ran before.
    abbrev pub applied :
        List (RuleConfig Value)
        → List (RuleConfig Value)
        → String
        → List (RuleConfig Value)
        → List (RuleConfig Value)
    applied old new k before = elim (rule_by_name k new) [
      | none ↦ []
      | some r ↦ elim (rule_by_name k old) [
        | none ↦ r ∷ []
        | some o ↦ if reload_differs same_params o r then r ∷ [] else before
      ]
    ]
