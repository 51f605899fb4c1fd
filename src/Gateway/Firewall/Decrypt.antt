-- ===== src/Gateway/Firewall/Decrypt.antt =====
-- gateway/src/networking/firewall.rs: the chain of the transparent rules.
use Prim.Native.String.{String}
use scg.Base.{Bool, true, List, [], ◌∷◌, ◌++◌}
use scg.Gateway.Config.{RuleConfig, InterceptConfig, tproxy, same_mode}
use scg.Gateway.Firewall.{Host, Firewall, ◌>>=◌, ◌>>◌, for_each, when, set_manager, chain_decrypt}
use scg.Gateway.Firewall.Commands.{
  run_iptables, create_or_flush_chain, ensure_jump, listen_port, intercept_proto, dport_args,
}
use scg.Gateway.Firewall.Routing.{ensure_routing_policy}

-- The command that lets connections pass that are transparent already.
abbrev pub socket_return : List String
socket_return =
    "-t" ∷ "mangle" ∷ "-A" ∷ chain_decrypt ∷ "-m" ∷ "socket" ∷ "--transparent" ∷ "-j" ∷ "RETURN"
    ∷ []

abbrev pub own_port_args : String → String → List String
own_port_args proto port =
    "-t" ∷ "mangle" ∷ "-A" ∷ chain_decrypt ∷ "-p" ∷ proto ∷ "--dport" ∷ port ∷ "-j" ∷ "RETURN" ∷ []

-- `format!("{TPROXY_MARK}/{TPROXY_MARK}")` is the constant "1/1".
abbrev pub tproxy_args : String → String → InterceptConfig → String → List String
tproxy_args src proto ic port =
    "-t"
    ∷ "mangle"
    ∷ "-A"
    ∷ chain_decrypt
    ∷ "-s"
    ∷ src
    ∷ "-p"
    ∷ proto
    ∷ (dport_args ic.match_dports
        ++ ("-j" ∷ "TPROXY" ∷ "--on-port" ∷ port ∷ "--tproxy-mark" ∷ "1/1" ∷ []))

-- The two flags of the routing policy.
abbrev pub own_routing : Bool × Bool → Firewall (Unit {0})
own_routing (rule_added, route_added) =
    set_manager (λ m. record m { owns_routing_rule = rule_added; owns_routing_route = route_added })

module _ (h : Host) {Value : Type 0} where
  -- The body of the loop that excludes the gateway's own ports.
  unfoldable pub exclude_own_port : RuleConfig Value × InterceptConfig → Firewall (Unit {0})
  unfolding listen_port intercept_proto run_iptables
  exclude_own_port (r, ic) = when (same_mode ic.mode tproxy) (
      listen_port h r >>= λ port.
      run_iptables h (own_port_args (intercept_proto r ic) (h.to_string port)))

  -- The body of the loop over the transparent rules.
  unfoldable pub tproxy_rule : RuleConfig Value × InterceptConfig → Firewall (Unit {0})
  unfolding listen_port intercept_proto run_iptables dport_args
  tproxy_rule (r, ic) = when (same_mode ic.mode tproxy) (
      listen_port h r >>= λ port.
      for_each ic.match_src
        (λ src. run_iptables h (tproxy_args src (intercept_proto r ic) ic (h.to_string port))))

  unfoldable pub ensure_decrypt_chain :
      List (RuleConfig Value × InterceptConfig) → Firewall (Unit {0})
  unfolding ensure_routing_policy create_or_flush_chain ensure_jump run_iptables exclude_own_port
      tproxy_rule
  ensure_decrypt_chain rules = do
    ensure_routing_policy h >>= own_routing
    create_or_flush_chain h "iptables" "mangle" chain_decrypt
        >> set_manager (λ m. record m { owns_decrypt_chain = true })
    ensure_jump h "iptables" "mangle" "PREROUTING" chain_decrypt
    run_iptables h socket_return
    for_each rules exclude_own_port
    for_each rules tproxy_rule
