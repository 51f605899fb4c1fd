-- ===== src/Gateway/Supervisor.antt =====
-- gateway/src/processing/mod.rs and gateway/src/lib.rs: the threads of the rules and their shutdown
-- flags, at startup and on a reload. A flag is named by the order in which it was made; a thread that
-- has seen its flag is stopped. What a thread does with its rule is the security providers' part.
pub mod Flags
pub mod Startup
pub mod Reloaded
use Prim.Native.String.{String}
use scg.Base.{
  ℕ, suc, Bool, true, false, ◌||◌, Option, none, some, List, [], ◌∷◌, if◌then◌else◌, ◌==◌,
}
use scg.Base.Texts.{same_text}
use scg.Gateway.Config.{RuleConfig, Proto, same_proto}
use scg.Gateway.Config.Diff.{ConfigDiff}

pub record Thread (Value : Type 0) : Type 0 where
  pub rule : RuleConfig Value
  pub flag : ℕ
  pub stopped : Bool

-- The map from rule names to flags and the threads, the newest first.
pub record Supervisor (Value : Type 0) : Type 0 where
  pub rule_shutdowns : List (String × ℕ)
  pub threads : List (Thread Value)
  pub next_flag : ℕ

-- `rule_shutdowns.get(name)`, and `insert`, which puts the newest entry in front.
unfoldable pub flag_of : String → List (String × ℕ) → Option ℕ
flag_of name [] = none
flag_of name ((n, f) ∷ m) = let rest = flag_of name m in if same_text n name then some f else rest

module _ {Value : Type 0} where
  -- `flag.store(true)`, as the threads see it.
  unfoldable pub raise : ℕ → List (Thread Value) → List (Thread Value)
  raise f [] = []
  raise f (t ∷ ts) = (record t { stopped = t.stopped || t.flag == f }) ∷ raise f ts

  unfoldable pub stop_rule : String → Supervisor Value → Supervisor Value
  unfolding flag_of raise
  stop_rule name s = elim (flag_of name s.rule_shutdowns) [
    | none ↦ s
    | some f ↦ record s { threads = raise f s.threads }
  ]

  unfoldable pub start_single_rule : RuleConfig Value → Supervisor Value → Supervisor Value
  start_single_rule r s = record {
    rule_shutdowns = (r.name, s.next_flag) ∷ s.rule_shutdowns;
    threads = (record { rule = r; flag = s.next_flag; stopped = false }) ∷ s.threads;
    next_flag = suc s.next_flag;
  }

  -- The rules for local interfaces, which startup leaves to the interface manager.
  abbrev pub is_local : RuleConfig Value → Bool
  is_local r = same_proto r.listen_proto Proto.uds || same_proto r.listen_proto Proto.shm

  unfoldable pub start_rules : List (RuleConfig Value) → Supervisor Value → Supervisor Value
  unfolding start_single_rule
  start_rules [] s = s
  start_rules (r ∷ rs) s = start_rules rs (if is_local r then s else start_single_rule r s)

  unfoldable pub stop_removed : List String → Supervisor Value → Supervisor Value
  unfolding stop_rule
  stop_removed [] s = s
  stop_removed (n ∷ ns) s = stop_removed ns (stop_rule n s)

  unfoldable pub start_added : List (RuleConfig Value) → Supervisor Value → Supervisor Value
  unfolding start_single_rule
  start_added [] s = s
  start_added (r ∷ rs) s = start_added rs (start_single_rule r s)

  unfoldable pub restart_changed : List (RuleConfig Value) → Supervisor Value → Supervisor Value
  unfolding stop_rule start_single_rule
  restart_changed [] s = s
  restart_changed (r ∷ rs) s = restart_changed rs (start_single_rule r (stop_rule r.name s))

  -- The watcher's callback, as far as it concerns the rules' threads.
  unfoldable pub on_reload : ConfigDiff Value → Supervisor Value → Supervisor Value
  unfolding stop_removed start_added restart_changed
  on_reload d s = restart_changed d.changed (start_added d.added (stop_removed d.removed s))
