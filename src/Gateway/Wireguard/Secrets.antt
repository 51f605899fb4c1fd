-- ===== src/Gateway/Wireguard/Secrets.antt =====
-- gateway/src/security/wireguard_engine/admin.rs: what of `provision` depends on the keys.
use scg.Base.{Result, err, Bool, ◌≡◌, Option, none, some, List, [], ◌∷◌}
use Prim.Native.String.{String}
use scg.Gateway.Wireguard.{WgProviderConfig}
use scg.Gateway.Wireguard.Provision.{
  Action, run_tool, create_key_dir, remove_key_dir, write_key, Answer, Outcome, ToolFault, Machine,
}

abbrev pub mask : Action → Action
mask (run_tool tool argv) = run_tool tool argv
mask create_key_dir = create_key_dir
mask remove_key_dir = remove_key_dir
mask (write_key name value) = write_key name "***"

-- The calls with their answers, and no content of a key file.
unfoldable pub masked : List (Action × Answer) → List (Action × Answer)
masked [] = []
masked ((a, answer) ∷ log) = (mask a, answer) ∷ masked log

abbrev replace : String → Option String → Option String
replace psk none = none
replace psk (some old) = some psk

-- The same configuration with other keys.
abbrev pub with_secrets : String → String → WgProviderConfig → WgProviderConfig
with_secrets key psk cfg = record {
  wg_interface = cfg.wg_interface;
  private_key = key;
  wg_listen_port = cfg.wg_listen_port;
  peer_public_key = cfg.peer_public_key;
  peer_endpoint = cfg.peer_endpoint;
  tunnel_local_ip = cfg.tunnel_local_ip;
  peer_allowed_ips = cfg.peer_allowed_ips;
  preshared_key = replace psk cfg.preshared_key;
  persistent_keepalive = cfg.persistent_keepalive;
  manage_interface = cfg.manage_interface;
}

-- The host answers two calls alike that differ only in what the key files hold.
abbrev pub IsBlind : (Action → List (Action × Answer) → Answer) → Type 0
IsBlind host =
    (a b : Action) (log log' : List (Action × Answer))
    → mask a ≡ mask b
    → masked log ≡ masked log'
    → host a log ≡ host b log'

unfoldable AreAlike : Machine → Machine → Type 0
AreAlike m n = masked m.log ≡ masked n.log

-- Two runs with the same result, the text of an error included, and the same calls.
unfoldable pub AreSame : Outcome → Outcome → Type 0
AreSame r s = (r.0 ≡ s.0) × (masked r.1.log ≡ masked s.1.log)

abbrev the_error : ToolFault → Result (Unit {0}) ToolFault
the_error fault = err fault

module _ (is_v6 : String → Bool) (host : Action → List (Action × Answer) → Answer)
    (blind : IsBlind host) where
  module _ (key psk : String) (cfg : WgProviderConfig) where
    abbrev other_cfg : WgProviderConfig
    other_cfg = with_secrets key psk cfg
