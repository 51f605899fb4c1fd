-- ===== src/Gateway/Firewall/EncryptKeeps.antt =====
-- gateway/src/networking/firewall.rs: the steps of the redirect chain keep what the manager tracks.
use scg.Gateway.Firewall.Takes.{take_encrypt-Keeps}
use scg.Gateway.Firewall.Keeps.{
  ensure_jump-Keeps, if-Keeps, Keeps, bind-Keeps, when-Keeps, for_each-Keeps, status-Keeps,
  run_cmd-Keeps, listen_port-Keeps,
}
use scg.Gateway.Firewall.Tracking.{inert_everywhere-IsInert, Resource, owns, Track, IsInert}
use Prim.Native.String.{String}
use scg.Base.{ℕ, Bool, true, ◌&&◌, List, [], ◌∷◌, if◌then◌else◌, Result, ok, err, refl}
use scg.Base.Texts.{same_text}
use scg.Gateway.Config.{
  RuleConfig, InterceptConfig, InterceptMode, ingress_redirect, egress_redirect, tproxy, same_mode,
}
use scg.Gateway.Firewall.{
  Entry, Host, FirewallManager, FirewallError, ◌>>=◌, ◌>>◌, pure, for_each, attempt, when,
  get_manager, set_manager, chain_encrypt,
}
use scg.Gateway.Firewall.Commands.{
  status, run_cmd, run_iptables, create_or_flush_chain, ensure_jump, listen_port, intercept_proto,
  dport_args,
}
use scg.Gateway.Firewall.Encrypt.{
  owner_return, egress_args, any_mode, needs_v6_mirror, setup_v6_egress_return, own_v6,
  encrypt_jumps, egress_dst, redirect_mode, redirect_rule, ensure_encrypt_chain,
}

ip6tables-IsInert : (args : List String) → IsInert "ip6tables" args
ip6tables-IsInert args = inert_everywhere-IsInert "ip6tables" args refl

v6_flag-Track :
    (x : Resource) (m : FirewallManager) (log : List Entry)
    → Track x (owns x m) log
    → Track x (owns x (record m { owns_encrypt_chain_v6 = true })) log
v6_flag-Track Resource.encrypt_chain m log t = t
v6_flag-Track Resource.decrypt_chain m log t = t
v6_flag-Track Resource.routing_rule m log t = t
v6_flag-Track Resource.routing_route m log t = t

module _ (early : Bool) (h : Host) where
  v6_chain-Keeps : Keeps early (create_or_flush_chain h "ip6tables" "nat" chain_encrypt)
  unfolding create_or_flush_chain
  v6_chain-Keeps =
      let look = "-t" ∷ "nat" ∷ "-L" ∷ chain_encrypt ∷ "-n" ∷ [] in
      let flush = run_cmd h "ip6tables" ("-t" ∷ "nat" ∷ "-F" ∷ chain_encrypt ∷ []) in
      let create = run_cmd h "ip6tables" ("-t" ∷ "nat" ∷ "-N" ∷ chain_encrypt ∷ []) in
      bind-Keeps early (status h "ip6tables" look) (λ exists. if exists then flush else create)
        (status-Keeps early h "ip6tables" look (ip6tables-IsInert look))
        (λ exists.
          if-Keeps early exists flush create
            (run_cmd-Keeps early h "ip6tables" _ (ip6tables-IsInert _))
            (run_cmd-Keeps early h "ip6tables" _ (ip6tables-IsInert _)))

  v6-Keeps : Keeps early (setup_v6_egress_return h)
  unfolding setup_v6_egress_return
  v6-Keeps =
      let jump = ensure_jump h "ip6tables" "nat" "OUTPUT" chain_encrypt in
      let pass = run_cmd h "ip6tables" (owner_return (h.to_string h.euid)) in
      bind-Keeps early (create_or_flush_chain h "ip6tables" "nat" chain_encrypt) (λ _. jump >> pass)
        v6_chain-Keeps
        (λ _.
          bind-Keeps early jump (λ _. pass)
            (ensure_jump-Keeps early h "ip6tables" "nat" "OUTPUT" chain_encrypt
              (ip6tables-IsInert _) (ip6tables-IsInert _))
            (λ _. run_cmd-Keeps early h "ip6tables" _ (ip6tables-IsInert _)))

  own_v6-Keeps : (r : Result (Unit {0}) FirewallError) → Keeps early (own_v6 h r)
  own_v6-Keeps (ok u) s t = (λ x. v6_flag-Track x s.manager s.log (t.0 x), t.1, t.2)
  own_v6-Keeps (err e) s t = t

  encrypt_jumps-Keeps :
      {Value : Type 0} (rules : List (RuleConfig Value × InterceptConfig))
      → Keeps early (encrypt_jumps h rules)
  unfolding encrypt_jumps run_iptables
  encrypt_jumps-Keeps rules =
      let ingress = ensure_jump h "iptables" "nat" "PREROUTING" chain_encrypt in
      let egress = ensure_jump h "iptables" "nat" "OUTPUT" chain_encrypt in
      let pass = run_cmd h "iptables" (owner_return (h.to_string h.euid)) in
      let mirror = attempt (setup_v6_egress_return h) >>= own_v6 h in
      let v6 = when (needs_v6_mirror rules) mirror in
      bind-Keeps early (when (any_mode ingress_redirect rules) ingress)
        (λ _. when (any_mode egress_redirect rules) (egress >> (pass >> v6)))
        (when-Keeps early (any_mode ingress_redirect rules) ingress (
          ensure_jump-Keeps early h "iptables" "nat" "PREROUTING" chain_encrypt
            (inert_everywhere-IsInert _ _ refl) (inert_everywhere-IsInert _ _ refl)))
        (λ _. when-Keeps early (any_mode egress_redirect rules) (egress >> (pass >> v6)) (
          bind-Keeps early egress (λ _. pass >> v6)
            (ensure_jump-Keeps early h "iptables" "nat" "OUTPUT" chain_encrypt
              (inert_everywhere-IsInert _ _ refl) (inert_everywhere-IsInert _ _ refl))
            (λ _.
              bind-Keeps early pass (λ _. v6)
                (run_cmd-Keeps early h "iptables" _ (inert_everywhere-IsInert _ _ refl))
                (λ _. when-Keeps early (needs_v6_mirror rules) mirror (
                  bind-Keeps early (attempt (setup_v6_egress_return h)) (own_v6 h)
                    (λ s t. v6-Keeps s t) own_v6-Keeps)))))

  egress_dst-Keeps :
      (proto : String) (ic : InterceptConfig) (port dst : String)
      → Keeps early (egress_dst h proto ic port dst)
  unfolding egress_dst run_iptables dport_args
  egress_dst-Keeps proto ic port dst =
      let redirect = run_cmd h "iptables" (egress_args dst proto ic port) in
      let mirror = run_cmd h "ip6tables" (egress_args "::1" proto ic port) in
      let rest = λ (m : FirewallManager).
        when (same_text dst "127.0.0.1" && m.owns_encrypt_chain_v6) (attempt mirror >> pure tt) in
      bind-Keeps early redirect (λ _. get_manager >>= rest)
        (run_cmd-Keeps early h "iptables" _ (inert_everywhere-IsInert _ _ refl))
        (λ _.
          bind-Keeps early get_manager rest (λ s t. t)
            (λ m.
              when-Keeps early (same_text dst "127.0.0.1" && m.owns_encrypt_chain_v6)
                (attempt mirror >> pure tt)
                (bind-Keeps early (attempt mirror) (λ _. pure tt)
                  (λ s t. run_cmd-Keeps early h "ip6tables" _ (ip6tables-IsInert _) s t)
                  (λ _ s t. t))))

  redirect_mode-Keeps :
      (mode : InterceptMode) (ic : InterceptConfig) (proto port : String)
      → Keeps early (redirect_mode h mode ic proto port)
  unfolding run_iptables
  redirect_mode-Keeps ingress_redirect ic proto port =
      run_cmd-Keeps early h "iptables" _ (inert_everywhere-IsInert _ _ refl)
  redirect_mode-Keeps egress_redirect ic proto port =
      for_each-Keeps early ic.match_dst (egress_dst h proto ic port)
        (egress_dst-Keeps proto ic port)
  redirect_mode-Keeps tproxy ic proto port = λ s t. t

  redirect_rule-Keeps :
      {Value : Type 0} (r : RuleConfig Value × InterceptConfig) → Keeps early (redirect_rule h r)
  unfolding redirect_rule
  redirect_rule-Keeps (r, ic) =
      let rest =
        λ (port : ℕ). redirect_mode h ic.mode ic (intercept_proto r ic) (h.to_string port) in
      if-Keeps early (same_mode ic.mode tproxy) (pure tt) (listen_port h r >>= rest) (λ s t. t)
        (bind-Keeps early (listen_port h r) rest (listen_port-Keeps early h r)
          (λ port. redirect_mode-Keeps ic.mode ic (intercept_proto r ic) (h.to_string port)))

  pub ensure_encrypt_chain-Keeps :
      {Value : Type 0} (rules : List (RuleConfig Value × InterceptConfig))
      → Keeps early (ensure_encrypt_chain h rules)
  unfolding ensure_encrypt_chain
  ensure_encrypt_chain-Keeps rules =
      let take =
        create_or_flush_chain h "iptables" "nat" chain_encrypt
        >> set_manager (λ m. record m { owns_encrypt_chain = true }) in
      bind-Keeps early take (λ _. encrypt_jumps h rules >> for_each rules (redirect_rule h))
        (take_encrypt-Keeps early h)
        (λ _.
          bind-Keeps early (encrypt_jumps h rules) (λ _. for_each rules (redirect_rule h))
            (encrypt_jumps-Keeps rules)
            (λ _. for_each-Keeps early rules (redirect_rule h) redirect_rule-Keeps))
