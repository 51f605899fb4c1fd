-- ===== src/Gateway/Firewall/Routing.antt =====
-- gateway/src/networking/firewall.rs: the routing policy of transparent interception.
use Prim.Native.String.{String}
use scg.Base.{Bool, false, ◌&&◌, ◌||◌, not, Option, none, some, List, [], ◌∷◌, ok, err}
use scg.Base.Bytes.{Bytes, eq_bytes}
use scg.Base.Texts.{codes, any_of, lines, split_whitespace, contains_text}
use scg.Gateway.Firewall.{
  Host, Output, FirewallError, Firewall, ◌>>=◌, ◌>>◌, pure, fail, attempt, when, tproxy_mark,
  tproxy_table,
}
use scg.Gateway.Firewall.Commands.{execute, run_cmd, silent}

-- `toks.windows(2).any(|w| w[0] == first && test(w[1]))`
abbrev followed_by : Bytes → (Bytes → Bool) → List Bytes → Bool
followed_by first test [] = false
followed_by first test (a ∷ []) = false
followed_by first test (a ∷ b ∷ rest) =
    eq_bytes a first && test b || followed_by first test (b ∷ rest)

-- A line that has both the mark, in one of its two spellings, and the table.
unfoldable pub is_our_rule : Bytes → Bool
is_our_rule line =
    let toks = split_whitespace line in
    followed_by (codes "fwmark") (λ w. eq_bytes w (codes tproxy_mark) || eq_bytes w (codes "0x1"))
      toks
    && followed_by (codes "lookup") (λ w. eq_bytes w (codes tproxy_table)) toks

unfoldable pub routing_policy_needed : Bytes → Bytes → Bool × Bool
unfolding is_our_rule
routing_policy_needed rule_show route_show = (
  not (any_of is_our_rule (lines rule_show)),
  not (contains_text route_show (codes "local default")),
)

abbrev pub rule_args : String → List String
rule_args verb = "rule" ∷ verb ∷ "fwmark" ∷ tproxy_mark ∷ "lookup" ∷ tproxy_table ∷ []

abbrev pub route_args : String → List String
route_args verb = "route" ∷ verb ∷ "local" ∷ "default" ∷ "dev" ∷ "lo" ∷ "table" ∷ tproxy_table ∷ []

-- A command whose output is wanted: whether it succeeds does not matter, only that it starts.
abbrev pub stdout_or_error : String → Option Output → Firewall Bytes
stdout_or_error program none = fail (FirewallError.cannot_execute program)
stdout_or_error program (some o) = pure o.stdout

module _ (h : Host) where
  unfoldable pub remove_routing_rule : Firewall (Unit {0})
  remove_routing_rule = silent h "ip" (rule_args "del")

  unfoldable pub remove_routing_route : Firewall (Unit {0})
  remove_routing_route = silent h "ip" (route_args "del")

  -- A route that cannot be added takes back the rule that was added just before.
  abbrev pub add_route : Bool → Firewall (Unit {0})
  add_route need_rule = attempt (run_cmd h "ip" (route_args "add")) >>= λ r. elim r [
    | ok u ↦ pure tt
    | err e ↦ when need_rule remove_routing_rule >> fail e
  ]

  unfoldable pub ensure_routing_policy : Firewall (Bool × Bool)
  unfolding execute run_cmd routing_policy_needed remove_routing_rule
  ensure_routing_policy = do
    rules ← execute h "ip" ("rule" ∷ "show" ∷ [])
    rule_show ← stdout_or_error "ip" rules
    routes ← execute h "ip" ("route" ∷ "show" ∷ "table" ∷ tproxy_table ∷ [])
    route_show ← stdout_or_error "ip" routes
    let need_rule = (routing_policy_needed rule_show route_show).0
    let need_route = (routing_policy_needed rule_show route_show).1
    when need_rule (run_cmd h "ip" (rule_args "add"))
    when need_route (add_route need_rule)
    pure (need_rule, need_route)
