-- ===== src/Gateway/Firewall/Encrypt.antt =====
-- gateway/src/networking/firewall.rs: the chain of the redirect rules.
use scg.Gateway.Firewall.{
  FirewallError, Host, Firewall, ◌>>=◌, ◌>>◌, pure, for_each, attempt, when, set_manager,
  get_manager, chain_encrypt,
}
use Prim.Native.String.{String}
use scg.Base.{
  Bool, true, ◌&&◌, Option, none, some, List, [], ◌∷◌, ◌++◌, if◌then◌else◌, Result, ok, err,
}
use scg.Base.Texts.{same_text, any_of}
use scg.Gateway.Config.{
  RuleConfig, InterceptConfig, InterceptMode, ingress_redirect, egress_redirect, tproxy, same_mode,
}
use scg.Gateway.Firewall.Commands.{
  run_cmd, run_iptables, create_or_flush_chain, ensure_jump, listen_port, intercept_proto,
  dport_args,
}

-- The command that lets the gateway's own traffic pass.
abbrev pub owner_return : String → List String
owner_return uid =
    "-t" ∷ "nat" ∷ "-A" ∷ chain_encrypt ∷ "-m" ∷ "owner" ∷ "--uid-owner" ∷ uid ∷ "-j" ∷ "RETURN"
    ∷ []

-- `-i` with the interface, where one is named.
abbrev pub interface_args : Option String → List String
interface_args none = []
interface_args (some iface) = "-i" ∷ iface ∷ []

abbrev pub redirect_args : String → List String
redirect_args port = "-j" ∷ "REDIRECT" ∷ "--to-port" ∷ port ∷ []

abbrev pub ingress_args : String → InterceptConfig → String → List String
ingress_args proto ic port =
    "-t"
    ∷ "nat"
    ∷ "-A"
    ∷ chain_encrypt
    ∷ "-p"
    ∷ proto
    ∷ (interface_args ic.in_interface ++ (dport_args ic.match_dports ++ redirect_args port))

abbrev pub egress_args : String → String → InterceptConfig → String → List String
egress_args dst proto ic port =
    "-t"
    ∷ "nat"
    ∷ "-A"
    ∷ chain_encrypt
    ∷ "-d"
    ∷ dst
    ∷ "-p"
    ∷ proto
    ∷ (dport_args ic.match_dports ++ redirect_args port)

abbrev pub is_mode : {Value : Type 0} → InterceptMode → RuleConfig Value × InterceptConfig → Bool
is_mode mode (r, ic) = same_mode ic.mode mode

abbrev pub any_mode :
    {Value : Type 0} → InterceptMode → List (RuleConfig Value × InterceptConfig) → Bool
any_mode mode rules = any_of (is_mode mode) rules

abbrev redirects_loopback : {Value : Type 0} → RuleConfig Value × InterceptConfig → Bool
redirects_loopback (r, ic) =
    same_mode ic.mode egress_redirect && any_of (λ d. same_text d "127.0.0.1") ic.match_dst

abbrev pub needs_v6_mirror : {Value : Type 0} → List (RuleConfig Value × InterceptConfig) → Bool
needs_v6_mirror rules = any_of redirects_loopback rules

module _ (h : Host) where
  unfoldable pub setup_v6_egress_return : Firewall (Unit {0})
  unfolding create_or_flush_chain ensure_jump run_cmd
  setup_v6_egress_return = do
    create_or_flush_chain h "ip6tables" "nat" chain_encrypt
    ensure_jump h "ip6tables" "nat" "OUTPUT" chain_encrypt
    run_cmd h "ip6tables" (owner_return (h.to_string h.euid))

  -- The mirror is there only where its setup went through.
  abbrev pub own_v6 : Result (Unit {0}) FirewallError → Firewall (Unit {0})
  own_v6 (ok u) = set_manager (λ m. record m { owns_encrypt_chain_v6 = true })
  own_v6 (err e) = pure tt

  -- The jumps, and the rule that lets the gateway's own traffic pass.
  unfoldable pub encrypt_jumps :
      {Value : Type 0} → List (RuleConfig Value × InterceptConfig) → Firewall (Unit {0})
  unfolding ensure_jump run_iptables setup_v6_egress_return
  encrypt_jumps rules = do
    when (any_mode ingress_redirect rules)
        (ensure_jump h "iptables" "nat" "PREROUTING" chain_encrypt)
    when (any_mode egress_redirect rules) (do
      ensure_jump h "iptables" "nat" "OUTPUT" chain_encrypt
      run_iptables h (owner_return (h.to_string h.euid))
      when (needs_v6_mirror rules) (attempt setup_v6_egress_return >>= own_v6))

  -- One destination of an egress rule, and its mirror.
  unfoldable pub egress_dst : String → InterceptConfig → String → String → Firewall (Unit {0})
  unfolding run_iptables run_cmd dport_args
  egress_dst proto ic port dst = do
    run_iptables h (egress_args dst proto ic port)
    m ← get_manager
    when (same_text dst "127.0.0.1" && m.owns_encrypt_chain_v6)
        (attempt (run_cmd h "ip6tables" (egress_args "::1" proto ic port)) >> pure tt)

  abbrev pub redirect_mode : InterceptMode → InterceptConfig → String → String → Firewall (Unit {0})
  redirect_mode ingress_redirect ic proto port = run_iptables h (ingress_args proto ic port)
  redirect_mode egress_redirect ic proto port = for_each ic.match_dst (egress_dst proto ic port)
  redirect_mode tproxy ic proto port = pure tt

  unfoldable pub redirect_rule :
      {Value : Type 0} → RuleConfig Value × InterceptConfig → Firewall (Unit {0})
  unfolding listen_port intercept_proto egress_dst run_iptables
  redirect_rule (r, ic) =
      if same_mode ic.mode tproxy
      then pure tt
      else (listen_port h r >>= λ port.
          redirect_mode ic.mode ic (intercept_proto r ic) (h.to_string port))

  unfoldable pub ensure_encrypt_chain :
      {Value : Type 0} → List (RuleConfig Value × InterceptConfig) → Firewall (Unit {0})
  unfolding create_or_flush_chain encrypt_jumps redirect_rule
  ensure_encrypt_chain rules = do
    create_or_flush_chain h "iptables" "nat" chain_encrypt
        >> set_manager (λ m. record m { owns_encrypt_chain = true })
    encrypt_jumps rules
    for_each rules redirect_rule
