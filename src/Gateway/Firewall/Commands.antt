-- ===== src/Gateway/Firewall/Commands.antt =====
-- gateway/src/networking/firewall.rs: running one command, and the helpers for chains and jumps.
use scg.Gateway.Firewall.{
  SocketAddr, Output, Host, FirewallError, Firewall, ◌>>=◌, ◌>>◌, pure, fail, for_each,
}
use Prim.Native.String.{String}
use scg.Base.{ℕ, Bool, false, ◌||◌, Option, none, some, List, [], ◌∷◌, if◌then◌else◌, ok}
use scg.Base.Texts.{contains_code, codes}
use scg.Gateway.Config.{RuleConfig, InterceptConfig, Proto}

-- Whether a command was started and succeeded.
abbrev pub succeeded : Option Output → Bool
succeeded none = false
succeeded (some o) = o.success

abbrev pub check_output : String → List String → Option Output → Firewall (Unit {0})
check_output program args none = fail (FirewallError.cannot_execute program)
check_output program args (some o) =
    if o.success then pure tt else fail (FirewallError.command_failed program args)

abbrev pub port_or_error : String → Option SocketAddr → Firewall ℕ
port_or_error name none = fail (FirewallError.bad_listen_addr name)
port_or_error name (some a) = pure a.port

module _ (h : Host) where
  -- `Command::new(program).args(args)`, run to its end.
  unfoldable pub execute : String → List String → Firewall (Option Output)
  execute program args s =
      let output = h.execute s.log program args in
      (
        record s {
          log = (record { program = program; args = args; success = succeeded output }) ∷ s.log;
        },
        ok output,
      )

  -- `.status()` where only success is looked at.
  unfoldable pub status : String → List String → Firewall Bool
  unfolding execute
  status program args = execute program args >>= λ output. pure (succeeded output)

  unfoldable pub run_cmd : String → List String → Firewall (Unit {0})
  unfolding execute
  run_cmd program args = execute program args >>= check_output program args

  unfoldable pub run_iptables : List String → Firewall (Unit {0})
  unfolding run_cmd
  run_iptables args = run_cmd "iptables" args

  unfoldable pub create_or_flush_chain : String → String → String → Firewall (Unit {0})
  unfolding status run_cmd
  create_or_flush_chain binary table chain = do
    exists ← status binary ("-t" ∷ table ∷ "-L" ∷ chain ∷ "-n" ∷ [])
    (if exists
        then run_cmd binary ("-t" ∷ table ∷ "-F" ∷ chain ∷ [])
        else run_cmd binary ("-t" ∷ table ∷ "-N" ∷ chain ∷ []))

  unfoldable pub ensure_jump : String → String → String → String → Firewall (Unit {0})
  unfolding status run_cmd
  ensure_jump binary table parent chain = do
    present ← status binary ("-t" ∷ table ∷ "-C" ∷ parent ∷ "-j" ∷ chain ∷ [])
    (if present then pure tt else run_cmd binary ("-t" ∷ table ∷ "-A" ∷ parent ∷ "-j" ∷ chain ∷ []))

  -- A status that is not looked at.
  abbrev pub silent : String → List String → Firewall (Unit {0})
  silent program args = status program args >> pure tt

  unfoldable pub remove_chain : String → String → String → Firewall (Unit {0})
  unfolding status
  remove_chain binary table chain = do
    for_each ("PREROUTING" ∷ "OUTPUT" ∷ "INPUT" ∷ "FORWARD" ∷ "POSTROUTING" ∷ [])
        (λ parent. silent binary ("-t" ∷ table ∷ "-D" ∷ parent ∷ "-j" ∷ chain ∷ []))
    silent binary ("-t" ∷ table ∷ "-F" ∷ chain ∷ [])
    silent binary ("-t" ∷ table ∷ "-X" ∷ chain ∷ [])

  unfoldable pub listen_port : {Value : Type 0} → RuleConfig Value → Firewall ℕ
  listen_port r = port_or_error r.name (h.parse_socket_addr r.listen_addr)

abbrev proto_name : Proto → String
proto_name Proto.tcp = "tcp"
proto_name Proto.udp = "udp"
proto_name Proto.uds = "tcp"
proto_name Proto.shm = "tcp"

unfoldable pub intercept_proto : {Value : Type 0} → RuleConfig Value → InterceptConfig → String
intercept_proto r ic = elim ic.protocol [ some p ↦ p | none ↦ proto_name r.listen_proto ]

-- The arguments that select the destination ports: a list or a range needs the multiport match.
unfoldable pub dport_args : String → List String
dport_args dports =
    if contains_code b',' (codes dports) || contains_code b':' (codes dports)
    then "-m" ∷ "multiport" ∷ "--dports" ∷ dports ∷ []
    else "--dport" ∷ dports ∷ []
