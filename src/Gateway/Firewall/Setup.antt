-- ===== src/Gateway/Firewall/Setup.antt =====
-- gateway/src/networking/firewall.rs: `setup` and `teardown`.
use scg.Base.{false, ◌||◌, List, [], ◌∷◌, Result, ok, err}
use scg.Gateway.Config.{
  RuleConfig, InterceptConfig, ingress_redirect, egress_redirect, tproxy, rules_with_intercept,
}
use scg.Gateway.Firewall.{
  Host, State, FirewallManager, FirewallError, Firewall, ◌>>=◌, ◌>>◌, pure, fail, attempt, when,
  get_manager, chain_encrypt, chain_decrypt,
}
use scg.Gateway.Firewall.Commands.{remove_chain}
use scg.Gateway.Firewall.Encrypt.{any_mode, ensure_encrypt_chain}
use scg.Gateway.Firewall.Decrypt.{ensure_decrypt_chain}
use scg.Gateway.Firewall.Routing.{remove_routing_rule, remove_routing_route}

-- The manager that owns nothing.
abbrev pub fresh_manager : FirewallManager
fresh_manager = record {
  owns_encrypt_chain = false;
  owns_encrypt_chain_v6 = false;
  owns_decrypt_chain = false;
  owns_routing_rule = false;
  owns_routing_route = false;
}

module _ (h : Host) where
  unfoldable pub teardown : Firewall (Unit {0})
  unfolding remove_chain remove_routing_rule remove_routing_route
  teardown = do
    m ← get_manager
    when m.owns_encrypt_chain (remove_chain h "iptables" "nat" chain_encrypt)
    when m.owns_encrypt_chain_v6 (remove_chain h "ip6tables" "nat" chain_encrypt)
    when m.owns_decrypt_chain (remove_chain h "iptables" "mangle" chain_decrypt)
    when m.owns_routing_rule (remove_routing_rule h)
    when m.owns_routing_route (remove_routing_route h)

  -- One step of the setup: where it fails, everything is torn down and the error is passed on.
  abbrev pub or_teardown : Firewall (Unit {0}) → Firewall (Unit {0})
  or_teardown step = attempt step >>= λ r. elim r [ ok u ↦ pure tt | err e ↦ teardown >> fail e ]

  abbrev pub setup_chains :
      {Value : Type 0} → List (RuleConfig Value × InterceptConfig) → Firewall (Unit {0})
  setup_chains rules = do
    when (any_mode ingress_redirect rules || any_mode egress_redirect rules)
        (or_teardown (ensure_encrypt_chain h rules))
    when (any_mode tproxy rules) (or_teardown (ensure_decrypt_chain h rules))

  -- The commands that a setup runs, and the manager it leaves or the error.
  unfoldable pub setup_rules :
      {Value : Type 0}
      → List (RuleConfig Value × InterceptConfig)
      → State × Result (Unit {0}) FirewallError
  unfolding teardown ensure_encrypt_chain ensure_decrypt_chain
  setup_rules [] = (record { log = []; manager = fresh_manager }, ok tt)
  setup_rules (r ∷ rs) = setup_chains (r ∷ rs) (record { log = []; manager = fresh_manager })

  unfoldable pub setup :
      {Value : Type 0} → List (RuleConfig Value) → State × Result (Unit {0}) FirewallError
  unfolding setup_rules
  setup rules = setup_rules (rules_with_intercept rules)
