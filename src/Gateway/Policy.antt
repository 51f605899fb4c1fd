-- ===== src/Gateway/Policy.antt =====
-- gateway/src/processing/policy.rs: the whitelist in front of the gateway. The rules of the
-- configuration are text, which `AddressPattern::parse` reads with the standard library's address
-- parsers; what it answers is a parameter.
pub mod Allowed
use mathlib.Core.Option
use scg.Base.{ℕ, Bool, true, false, not, ◌&&◌, Option, none, some, List, [], ◌∷◌, if◌then◌else◌}
use scg.Gateway.AddressPattern.{AddressPattern, SocketAddr, matches}

pub data PolicyAction : Type 0 where
  allow deny : PolicyAction

pub data TrafficClass : Type 0 where
  safety normal : TrafficClass

-- `== PolicyAction::Allow` and `== TrafficClass::Safety`
unfoldable pub is_allow : PolicyAction → Bool
is_allow allow = true
is_allow deny = false

unfoldable pub is_safety : TrafficClass → Bool
is_safety safety = true
is_safety normal = false

pub record CompiledWhitelistEntry : Type 0 where
  pub source : AddressPattern
  pub destination : AddressPattern

pub record PolicyManager : Type 0 where
  pub default_action : PolicyAction
  pub entries : List CompiledWhitelistEntry
  pub enforce_policy_on_safety : Bool

-- A `WhitelistEntry` and the `PolicyConfig`, over the type `Text` of the configuration's strings.
pub record WhitelistEntry (Text : Type 0) : Type 0 where
  pub source : Text
  pub destination : Text

pub record PolicyConfig (Text : Type 0) : Type 0 where
  pub default_action : PolicyAction
  pub whitelist : List (WhitelistEntry Text)
  pub enforce_policy_on_safety : Bool

module _ {Text : Type 0} (parse : Text → Option AddressPattern) where
  -- The body of the `filter_map`.
  unfoldable pub compile_entry : WhitelistEntry Text → Option CompiledWhitelistEntry
  compile_entry e = elim (parse e.source) [
    | none ↦ none
    | some source ↦
        Option.map (λ (d : AddressPattern). record { source = source; destination = d })
          (parse e.destination)
  ]

  unfoldable pub compile_entries : List (WhitelistEntry Text) → List CompiledWhitelistEntry
  compile_entries [] = []
  compile_entries (e ∷ es) =
      let rest = compile_entries es in elim (compile_entry e) [ none ↦ rest | some c ↦ c ∷ rest ]

  unfoldable pub new : Option (PolicyConfig Text) → PolicyManager
  new (some cfg) = record {
    default_action = cfg.default_action;
    entries = compile_entries cfg.whitelist;
    enforce_policy_on_safety = cfg.enforce_policy_on_safety;
  }
  new none = record { default_action = deny; entries = []; enforce_policy_on_safety = false }

  unfoldable pub reload : PolicyManager → Option (PolicyConfig Text) → PolicyManager
  unfolding new
  reload p config =
      let next = new config in
      record p {
        default_action = next.default_action;
        entries = next.entries;
        enforce_policy_on_safety = next.enforce_policy_on_safety;
      }

-- The loop over the entries.
unfoldable pub any_entry : (CompiledWhitelistEntry → Bool) → List CompiledWhitelistEntry → Bool
any_entry test [] = false
any_entry test (e ∷ es) = let rest = any_entry test es in if test e then true else rest

abbrev pub no_entries : List CompiledWhitelistEntry → Bool
no_entries [] = true
no_entries (e ∷ es) = false

unfoldable pub check_allowed : PolicyManager → SocketAddr → SocketAddr → TrafficClass → Bool
check_allowed p src dst traffic_class =
    if is_safety traffic_class && not p.enforce_policy_on_safety
    then true
    else if no_entries p.entries
    then is_allow p.default_action
    else if any_entry (λ e. matches e.source src && matches e.destination dst) p.entries
    then true
    else is_allow p.default_action

unfoldable pub check_allowed_destination : PolicyManager → SocketAddr → TrafficClass → Bool
check_allowed_destination p dst traffic_class =
    if is_safety traffic_class && not p.enforce_policy_on_safety
    then true
    else if no_entries p.entries
    then is_allow p.default_action
    else if any_entry (λ e. matches e.destination dst) p.entries
    then true
    else is_allow p.default_action
