-- ===== src/Gateway/Firewall/DecryptKeeps.antt =====
-- gateway/src/networking/firewall.rs: the steps of the transparent chain keep what the manager tracks.
use Prim.Native.String.{String}
use scg.Base.{ℕ, true, false, List, Result, ok, err, refl}
use scg.Gateway.Config.{RuleConfig, InterceptConfig, tproxy, same_mode}
use scg.Gateway.Firewall.{
  Host, State, FirewallError, Firewall, ◌>>=◌, ◌>>◌, for_each, set_manager, chain_decrypt,
}
use scg.Gateway.Firewall.Commands.{
  run_cmd, run_iptables, create_or_flush_chain, ensure_jump, listen_port, intercept_proto,
  dport_args,
}
use scg.Gateway.Firewall.Routing.{ensure_routing_policy}
use scg.Gateway.Firewall.Decrypt.{
  own_routing, socket_return, own_port_args, tproxy_args, exclude_own_port, tproxy_rule,
  ensure_decrypt_chain,
}
use scg.Gateway.Firewall.Tracking.{inert_everywhere-IsInert}
use scg.Gateway.Firewall.Keeps.{
  IsTracked, Keeps, bind-Keeps, when-Keeps, for_each-Keeps, run_cmd-Keeps, ensure_jump-Keeps,
  listen_port-Keeps,
}
use scg.Gateway.Firewall.Takes.{take_decrypt-Keeps}
use scg.Gateway.Firewall.RoutingKeeps.{take_routing-IsTracked}

bind-IsTracked :
    {A : Type 0} (r : State × Result A FirewallError) (k : Firewall (Unit {0}))
    → IsTracked false r.0
    → Keeps false k
    → IsTracked false
        (elim r.1 as (λ _. State × Result (Unit {0}) FirewallError) [
          | ok a ↦ k r.0
          | err e ↦ (r.0, err e)
        ]).0
bind-IsTracked (s, ok a) k t kk = kk s t
bind-IsTracked (s, err e) k t kk = t

module _ (h : Host) {Value : Type 0} where
  exclude-Keeps : (r : RuleConfig Value × InterceptConfig) → Keeps false (exclude_own_port h r)
  unfolding exclude_own_port run_iptables
  exclude-Keeps (r, ic) =
      let rest = λ (port : ℕ).
        run_cmd h "iptables" (own_port_args (intercept_proto r ic) (h.to_string port)) in
      when-Keeps false (same_mode ic.mode tproxy) (listen_port h r >>= rest) (
        bind-Keeps false (listen_port h r) rest (listen_port-Keeps false h r)
          (λ port. run_cmd-Keeps false h "iptables" _ (inert_everywhere-IsInert _ _ refl)))

  tproxy-Keeps : (r : RuleConfig Value × InterceptConfig) → Keeps false (tproxy_rule h r)
  unfolding tproxy_rule run_iptables dport_args
  tproxy-Keeps (r, ic) =
      let one = λ (port : ℕ) (src : String).
        run_cmd h "iptables" (tproxy_args src (intercept_proto r ic) ic (h.to_string port)) in
      let rest = λ (port : ℕ). for_each ic.match_src (one port) in
      when-Keeps false (same_mode ic.mode tproxy) (listen_port h r >>= rest) (
        bind-Keeps false (listen_port h r) rest (listen_port-Keeps false h r) (λ port.
          for_each-Keeps false ic.match_src (one port)
            (λ src. run_cmd-Keeps false h "iptables" _ (inert_everywhere-IsInert _ _ refl))))

  -- Everything after the routing policy.
  abbrev chain_part : List (RuleConfig Value × InterceptConfig) → Firewall (Unit {0})
  chain_part rules =
      (create_or_flush_chain h "iptables" "mangle" chain_decrypt
        >> set_manager (λ m. record m { owns_decrypt_chain = true }))
      >> (ensure_jump h "iptables" "mangle" "PREROUTING" chain_decrypt
          >> (run_iptables h socket_return
              >> (for_each rules (exclude_own_port h) >> for_each rules (tproxy_rule h))))

  chain_part-Keeps :
      (rules : List (RuleConfig Value × InterceptConfig)) → Keeps false (chain_part rules)
  unfolding run_iptables
  chain_part-Keeps rules =
      let take =
        create_or_flush_chain h "iptables" "mangle" chain_decrypt
        >> set_manager (λ m. record m { owns_decrypt_chain = true }) in
      let jump = ensure_jump h "iptables" "mangle" "PREROUTING" chain_decrypt in
      let guard = run_cmd h "iptables" socket_return in
      let exclude = for_each rules (exclude_own_port h) in
      let mark = for_each rules (tproxy_rule h) in
      bind-Keeps false take (λ _. jump >> (guard >> (exclude >> mark))) (take_decrypt-Keeps false h)
        (λ _.
          bind-Keeps false jump (λ _. guard >> (exclude >> mark))
            (ensure_jump-Keeps false h "iptables" "mangle" "PREROUTING" chain_decrypt
              (inert_everywhere-IsInert _ _ refl) (inert_everywhere-IsInert _ _ refl))
            (λ _.
              bind-Keeps false guard (λ _. exclude >> mark)
                (run_cmd-Keeps false h "iptables" _ (inert_everywhere-IsInert _ _ refl))
                (λ _.
                  bind-Keeps false exclude (λ _. mark)
                    (for_each-Keeps false rules (exclude_own_port h) exclude-Keeps)
                    (λ _. for_each-Keeps false rules (tproxy_rule h) tproxy-Keeps))))

  -- The chain starts from a manager that owns nothing of the routing policy.
  pub ensure_decrypt_chain-IsTracked :
      (rules : List (RuleConfig Value × InterceptConfig)) (s : State)
      → IsTracked true s
      → IsTracked false (ensure_decrypt_chain h rules s).0
  unfolding ensure_decrypt_chain
  ensure_decrypt_chain-IsTracked rules s t =
      bind-IsTracked ((ensure_routing_policy h >>= own_routing) s) (chain_part rules)
        (take_routing-IsTracked h s t) (chain_part-Keeps rules)
