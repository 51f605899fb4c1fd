-- ===== src/Gateway/Wireguard/Provision.antt =====
-- gateway/src/security/wireguard_engine/admin.rs: `provision` and `teardown`. What the host answers to a call is any
-- function of the call and the calls before it, the contents of the key files included. A file of the key directory stands by its name in place of its path.
use scg.Base.{Result, err, ok, ℕ, Bool, Option, none, some, List, [], ◌∷◌, ◌++◌, if◌then◌else◌}
use Prim.Native.String.{String}
use scg.Gateway.Wireguard.{WgProviderConfig}

-- A word of a command line.
pub data Word : Type 0 where
  text : String → Word
  key_file : String → Word
  decimal : ℕ → Word

pub data Action : Type 0 where
  run_tool : String → List Word → Action
  create_key_dir remove_key_dir : Action
  write_key : String → String → Action

-- What a call answers: nothing where it succeeds, and else the text of its error, which for a tool is
-- what it wrote.
abbrev pub Answer : Type 0
Answer = Option String

-- The calls so far with their answers, the last first.
pub record Machine : Type 0 where
  pub log : List (Action × Answer)

-- The error texts: that of a tool names the tool and its arguments.
pub data ToolFault : Type 0 where
  tool_failed : String → List Word → String → ToolFault
  key_dir_failed key_file_failed : String → ToolFault

abbrev pub Outcome : Type 0
Outcome = Result (Unit {0}) ToolFault × Machine

abbrev pub fault_of : Action → String → ToolFault
fault_of (run_tool tool argv) e = tool_failed tool argv e
fault_of create_key_dir e = key_dir_failed e
fault_of remove_key_dir e = key_dir_failed e
fault_of (write_key name value) e = key_file_failed e

-- What follows a call that succeeded; else its error goes to the end.
abbrev pub proceed : Answer → Action → Outcome → Machine → Outcome
proceed none a rest m = rest
proceed (some e) a rest m = (err (fault_of a e), m)

abbrev pub resume : Result (Unit {0}) ToolFault → Outcome → Outcome → Outcome
resume (ok u) rest r = rest
resume (err fault) rest r = r

abbrev pub ip_link_add_argv : String → List Word
ip_link_add_argv iface =
    text "link" ∷ text "add" ∷ text "dev" ∷ text iface ∷ text "type" ∷ text "wireguard" ∷ []

abbrev pub ip_link_del_argv : String → List Word
ip_link_del_argv iface = text "link" ∷ text "del" ∷ text "dev" ∷ text iface ∷ []

abbrev pub ip_link_up_argv : String → List Word
ip_link_up_argv iface = text "link" ∷ text "set" ∷ text iface ∷ text "up" ∷ []

abbrev psk_words : Option String → List Word
psk_words none = []
psk_words (some psk) = text "preshared-key" ∷ key_file "psk.key" ∷ []

abbrev keepalive_words : Option ℕ → List Word
keepalive_words none = []
keepalive_words (some n) = text "persistent-keepalive" ∷ decimal n ∷ []

unfoldable pub wg_set_argv : WgProviderConfig → List Word
wg_set_argv cfg =
    text "set"
      ∷ text cfg.wg_interface
      ∷ text "private-key"
      ∷ key_file "private.key"
      ∷ text "listen-port"
      ∷ decimal cfg.wg_listen_port
      ∷ text "peer"
      ∷ text cfg.peer_public_key
      ∷ psk_words cfg.preshared_key
    ++ text "endpoint"
      ∷ text cfg.peer_endpoint
      ∷ text "allowed-ips"
      ∷ text cfg.peer_allowed_ips
      ∷ keepalive_words cfg.persistent_keepalive

module _ (is_v6 : String → Bool) (host : Action → List (Action × Answer) → Answer) where
  -- `is_v6` says whether the text before the slash is an IPv6 address.
  abbrev pub ip_addr_add_argv : WgProviderConfig → List Word
  ip_addr_add_argv cfg =
      text (if is_v6 cfg.tunnel_local_ip then "-6" else "-4")
      ∷ text "address"
      ∷ text "add"
      ∷ text cfg.tunnel_local_ip
      ∷ text "dev"
      ∷ text cfg.wg_interface
      ∷ []

  abbrev pub act : Action → Machine → Machine
  act a m = record { log = (a, host a m.log) ∷ m.log }

  abbrev pub and_then : Action → (Machine → Outcome) → Machine → Outcome
  and_then a next m = proceed (host a m.log) a (next (act a m)) (act a m)

  -- The key directory goes when it is dropped, whatever came before.
  abbrev pub dropping : Outcome → Outcome
  dropping r = (r.0, act remove_key_dir r.1)

  abbrev pub write_psk : Option String → (Machine → Outcome) → Machine → Outcome
  write_psk none next m = next m
  write_psk (some psk) next m = and_then (write_key "psk.key" psk) next m

  abbrev pub done : Machine → Outcome
  done m = (ok tt, m)

  abbrev pub set_wg : WgProviderConfig → Machine → Outcome
  set_wg cfg m = and_then (run_tool "wg" (wg_set_argv cfg)) done m

  abbrev pub set_up : WgProviderConfig → Machine → Outcome
  set_up cfg m = and_then (run_tool "ip" (ip_link_up_argv cfg.wg_interface)) done m

  abbrev pub set_address : WgProviderConfig → Machine → Outcome
  set_address cfg m = and_then (run_tool "ip" (ip_addr_add_argv cfg)) (set_up cfg) m

  -- From the first key file to the command that reads them.
  unfoldable pub set_keys : WgProviderConfig → Machine → Outcome
  set_keys cfg m =
      and_then (write_key "private.key" cfg.private_key) (write_psk cfg.preshared_key (set_wg cfg))
        m

  abbrev pub if_so : (Machine → Outcome) → Outcome → Outcome
  if_so next r = resume r.0 (next r.1) r

  unfoldable pub configure : WgProviderConfig → Machine → Outcome
  unfolding set_keys
  configure cfg m =
      and_then create_key_dir (λ m1. if_so (set_address cfg) (dropping (set_keys cfg m1))) m

  -- The cleaning up after a failure.
  abbrev pub or_delete : String → Outcome → Outcome
  or_delete iface (ok u, m) = (ok u, m)
  or_delete iface (err fault, m) = (err fault, act (run_tool "ip" (ip_link_del_argv iface)) m)

  unfoldable pub provision : WgProviderConfig → Machine → Outcome
  unfolding configure
  provision cfg m =
      and_then (run_tool "ip" (ip_link_add_argv cfg.wg_interface))
        (λ m1. or_delete cfg.wg_interface (configure cfg m1))
        (act (run_tool "ip" (ip_link_del_argv cfg.wg_interface)) m)

  unfoldable pub teardown : String → Machine → Outcome
  teardown iface m = and_then (run_tool "ip" (ip_link_del_argv iface)) done m
