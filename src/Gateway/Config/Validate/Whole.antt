-- ===== src/Gateway/Config/Validate/Whole.antt =====
-- gateway/src/management/config.rs: `GatewayConfig::validate` over all rules, and the address patterns of
-- the traffic rules and of the policy.
use scg.Gateway.Config.Validate.{
  pool_too_large, bad_traffic_rule, bad_whitelist_entry, no_pool_workers, no_rules, rule_fault,
  GatewayConfig, Parsers, Seen, RuleFault, ConfigError, max_conn_pool_size,
}
use Prim.Native.String.{String}
use scg.Base.{
  ℕ, suc, Bool, true, false, ◌==◌, ltb, Option, none, some, List, [], ◌∷◌, if◌then◌else◌, Result,
  ok, err,
}
use scg.Gateway.AddressPattern.{AddressPattern}
use scg.Gateway.Policy.{PolicyConfig, WhitelistEntry}
use scg.Gateway.TrafficAnalyzer.{TrafficRuleConfig}
use scg.Gateway.Config.{RuleConfig}
use scg.Gateway.Config.Validate.Rules.{check_rule}

-- The first step's error, or what the second step answers.
infixl 5 ◌then◌
abbrev pub ◌then◌ :
    Result (Unit {0}) ConfigError → Result (Unit {0}) ConfigError → Result (Unit {0}) ConfigError
ok u then k = k
err e then k = err e

abbrev pub check_pool : Option ℕ → Result (Unit {0}) ConfigError
check_pool none = ok tt
check_pool (some size) =
    if size == 0
    then err no_pool_workers
    else if ltb max_conn_pool_size size
    then err pool_too_large
    else ok tt

abbrev both_parse : Option AddressPattern → Option AddressPattern → Bool
both_parse none d = false
both_parse (some s) none = false
both_parse (some s) (some d) = true

abbrev pub nothing_seen : Seen
nothing_seen = record { names = []; listens = []; templates = [] }

module _ {Value : Type 0} (p : Parsers Value) where
  -- What follows on the check of a rule: its fault, or the rest of the loop.
  abbrev after_rule :
      ℕ
      → Result Seen RuleFault
      → (Seen → Result (Unit {0}) ConfigError)
      → Result (Unit {0}) ConfigError
  after_rule i (ok seen) rest = rest seen
  after_rule i (err fault) rest = err (rule_fault i fault)

  unfoldable pub check_rules : ℕ → Seen → List (RuleConfig Value) → Result (Unit {0}) ConfigError
  unfolding check_rule
  check_rules i seen [] = ok tt
  check_rules i seen (r ∷ rs) =
      after_rule i (check_rule p seen r) (λ next. check_rules (suc i) next rs)

  unfoldable pub check_traffic_rules :
      ℕ → List (TrafficRuleConfig String) → Result (Unit {0}) ConfigError
  check_traffic_rules i [] = ok tt
  check_traffic_rules i (t ∷ ts) =
      let rest = check_traffic_rules (suc i) ts in
      if both_parse (p.parse_pattern t.source) (p.parse_pattern t.destination)
      then rest
      else err (bad_traffic_rule i)

  unfoldable pub check_whitelist : ℕ → List (WhitelistEntry String) → Result (Unit {0}) ConfigError
  check_whitelist i [] = ok tt
  check_whitelist i (e ∷ es) =
      let rest = check_whitelist (suc i) es in
      if both_parse (p.parse_pattern e.source) (p.parse_pattern e.destination)
      then rest
      else err (bad_whitelist_entry i)

  abbrev check_policy : Option (PolicyConfig String) → Result (Unit {0}) ConfigError
  check_policy none = ok tt
  check_policy (some policy) = check_whitelist 0 policy.whitelist

  abbrev pub check_present : List (RuleConfig Value) → Result (Unit {0}) ConfigError
  check_present [] = err no_rules
  check_present (r ∷ rs) = ok tt

  unfoldable pub validate : GatewayConfig Value → Result (Unit {0}) ConfigError
  unfolding check_rules check_traffic_rules check_whitelist
  validate c =
      check_present c.rules
      then (check_pool c.conn_pool_size
          then (check_rules 0 nothing_seen c.rules
              then (check_traffic_rules 0 c.traffic_rules then check_policy c.policy)))
