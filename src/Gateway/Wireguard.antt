-- ===== src/Gateway/Wireguard.antt =====
-- gateway/src/security/wireguard_engine.rs: the parameters of a WireGuard rule.
pub mod Base64
pub mod Params
pub mod Usable
pub mod Provision
pub mod Tidy
pub mod Secrets
pub mod Relay
pub mod Pinned
pub mod LockedOut
pub mod Engine
use Prim.Native.String.{String}
use scg.Base.{ℕ, Bool, Option}

-- A `Secret` is the text that it holds.
pub record WgProviderConfig : Type 0 where
  pub wg_interface : String
  pub private_key : String
  pub wg_listen_port : ℕ
  pub peer_public_key : String
  pub peer_endpoint : String
  pub tunnel_local_ip : String
  pub peer_allowed_ips : String
  pub preshared_key : Option String
  pub persistent_keepalive : Option ℕ
  pub manage_interface : Bool
