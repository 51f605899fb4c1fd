-- ===== src/Gateway/Config/Diff.antt =====
-- gateway/src/management/config.rs: `GatewayConfig::diff`, what a reload starts, stops, restarts and
-- leaves running. The rules of the old configuration go into a map by name, the last one of a name
-- winning.
pub mod Buckets
use Prim.Native.String.{String, compare}
use text.Mathlib.Text.{is_le}
use scg.Base.{
  ℕ, Bool, true, false, not, ◌&&◌, ◌||◌, Option, none, some, List, [], ◌∷◌, if◌then◌else◌, ◌≡◌,
  refl, arith, map,
}
use scg.Base.Texts.{same_text, same_list, any_of}
use scg.Gateway.Config.{RuleConfig, InterceptConfig, Proto, same_proto, same_intercept}
use scg.Gateway.Config.Rule.{reload_differs}

pub record ConfigDiff (Value : Type 0) : Type 0 where
  pub added : List (RuleConfig Value)
  pub removed : List String
  pub changed : List (RuleConfig Value)
  pub unchanged : List String
  pub intercept_changed : Bool

-- One entry of the projection.
pub record Interception : Type 0 where
  pub name : String
  pub listen_addr : String
  pub listen_proto : Proto
  pub intercept : InterceptConfig

abbrev same_interception : Interception → Interception → Bool
same_interception a b =
    same_text a.name b.name
    && same_text a.listen_addr b.listen_addr
    && same_proto a.listen_proto b.listen_proto
    && same_intercept a.intercept b.intercept

-- `v.sort_by(|a, b| a.0.cmp(&b.0))`, which keeps the order of entries with the same name.
abbrev insert_sorted : Interception → List Interception → List Interception
insert_sorted x [] = x ∷ []
insert_sorted x (y ∷ ys) =
    let rest = insert_sorted x ys in if is_le (compare x.name y.name) then x ∷ y ∷ ys else y ∷ rest

module _ {Value : Type 0} where
  -- `old_by_name.get(name)`: the last rule of that name.
  unfoldable pub rule_by_name : String → List (RuleConfig Value) → Option (RuleConfig Value)
  rule_by_name name [] = none
  rule_by_name name (r ∷ rs) = elim (rule_by_name name rs) [
    | some q ↦ some q
    | none ↦ if same_text r.name name then some r else none
  ]

  abbrev pub has_name : String → List (RuleConfig Value) → Bool
  has_name name rs = any_of (λ r. same_text r.name name) rs

  -- The rules of the old configuration whose names the new one does not have.
  unfoldable pub removed_names : List (RuleConfig Value) → List (RuleConfig Value) → List String
  removed_names new [] = []
  removed_names new (r ∷ rs) =
      let rest = removed_names new rs in if has_name r.name new then rest else r.name ∷ rest

  -- The buckets of the new rules, in order.
  unfoldable pub added_rules :
      List (RuleConfig Value) → List (RuleConfig Value) → List (RuleConfig Value)
  added_rules old [] = []
  added_rules old (r ∷ rs) =
      let rest = added_rules old rs in
      elim (rule_by_name r.name old) [ none ↦ r ∷ rest | some o ↦ rest ]

  module _ (same_params : List (String × Value) → List (String × Value) → Bool) where
    unfoldable pub changed_rules :
        List (RuleConfig Value) → List (RuleConfig Value) → List (RuleConfig Value)
    changed_rules old [] = []
    changed_rules old (r ∷ rs) =
        let rest = changed_rules old rs in
        elim (rule_by_name r.name old) [
          | none ↦ rest
          | some o ↦ if reload_differs same_params o r then r ∷ rest else rest
        ]

    unfoldable pub unchanged_names : List (RuleConfig Value) → List (RuleConfig Value) → List String
    unchanged_names old [] = []
    unchanged_names old (r ∷ rs) =
        let rest = unchanged_names old rs in
        elim (rule_by_name r.name old) [
          | none ↦ rest
          | some o ↦ if reload_differs same_params o r then rest else r.name ∷ rest
        ]

  unfoldable pub intercept_projection : List (RuleConfig Value) → List Interception
  intercept_projection [] = []
  intercept_projection (r ∷ rs) =
      let rest = intercept_projection rs in
      elim r.intercept [
        | none ↦ rest
        | some ic ↦
            insert_sorted
              (record {
                name = r.name;
                listen_addr = r.listen_addr;
                listen_proto = r.listen_proto;
                intercept = ic;
              })
              rest
      ]

  unfoldable pub diff :
      (List (String × Value) → List (String × Value) → Bool)
      → List (RuleConfig Value)
      → List (RuleConfig Value)
      → ConfigDiff Value
  unfolding added_rules removed_names changed_rules unchanged_names intercept_projection
  diff same_params old new = record {
    added = added_rules old new;
    removed = removed_names new old;
    changed = changed_rules same_params old new;
    unchanged = unchanged_names same_params old new;
    intercept_changed =
        not (same_list same_interception (intercept_projection old) (intercept_projection new));
  }
