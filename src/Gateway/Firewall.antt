-- ===== src/Gateway/Firewall.antt =====
-- gateway/src/networking/firewall.rs: the manager of the interception rules. A command's result is the
-- host's; it may depend on all commands before it, which the log keeps, the newest first. Error texts
-- stand as what they are about.
pub mod Commands
pub mod Encrypt
pub mod Decrypt
pub mod Routing
pub mod Setup
pub mod Tracking
pub mod Keeps
pub mod EncryptKeeps
pub mod Takes
pub mod RoutingKeeps
pub mod DecryptKeeps
pub mod Undone
use Prim.Native.String.{String}
use scg.Base.{
  ℕ, Bool, true, false, ◌&&◌, ◌||◌, Option, none, some, List, [], ◌∷◌, if◌then◌else◌, Result, ok,
  err,
}
use scg.Base.Bytes.{Bytes}
use scg.Gateway.AddressPattern.{SocketAddr}

-- A command that was run, and whether it was started and succeeded.
pub record Entry : Type 0 where
  pub program : String
  pub args : List String
  pub success : Bool

pub record Output : Type 0 where
  pub success : Bool
  pub stdout : Bytes

-- What the code asks of its surroundings: a command's output, or nothing where it cannot be started;
-- `to_string` of a number, `parse::<SocketAddr>()` and `geteuid`.
pub record Host : Type 0 where
  pub execute : List Entry → String → List String → Option Output
  pub to_string : ℕ → String
  pub parse_socket_addr : String → Option SocketAddr
  pub euid : ℕ

pub record FirewallManager : Type 0 where
  pub owns_encrypt_chain : Bool
  pub owns_encrypt_chain_v6 : Bool
  pub owns_decrypt_chain : Bool
  pub owns_routing_rule : Bool
  pub owns_routing_route : Bool

pub data FirewallError : Type 0 where
  cannot_execute : String → FirewallError
  command_failed : String → List String → FirewallError
  bad_listen_addr : String → FirewallError

-- The manager and the commands run so far.
pub record State : Type 0 where
  pub log : List Entry
  pub manager : FirewallManager

abbrev pub Firewall : Type 0 → Type 0
Firewall A = State → State × Result A FirewallError

infixl 5 ◌>>=◌ ◌>>◌
abbrev pub ◌>>=◌ : {A B : Type 0} → Firewall A → (A → Firewall B) → Firewall B
◌>>=◌ m f s = let (t, r) = m s in elim r [ ok a ↦ f a t | err e ↦ (t, err e) ]

abbrev pub ◌>>◌ : {A B : Type 0} → Firewall A → Firewall B → Firewall B
m >> k = m >>= λ _. k

abbrev pub pure : {A : Type 0} → A → Firewall A
pure a s = (s, ok a)

abbrev pub fail : {A : Type 0} → FirewallError → Firewall A
fail e s = (s, err e)

-- `let _ = …`, `if let Err(e) = …`: the error is handled here.
abbrev pub attempt : {A : Type 0} → Firewall A → Firewall (Result A FirewallError)
attempt m s = let (t, r) = m s in (t, ok r)

abbrev pub for_each : {A : Type 0} → List A → (A → Firewall (Unit {0})) → Firewall (Unit {0})
for_each [] f = pure tt
for_each (x ∷ xs) f = f x >> for_each xs f

abbrev pub when : Bool → Firewall (Unit {0}) → Firewall (Unit {0})
when b m = if b then m else pure tt

-- `self.owns_… = …`
abbrev pub set_manager : (FirewallManager → FirewallManager) → Firewall (Unit {0})
set_manager f s = (record s { manager = f s.manager }, ok tt)

abbrev pub get_manager : Firewall FirewallManager
get_manager s = (s, ok s.manager)

abbrev pub chain_encrypt : String
chain_encrypt = "SCG_ENCRYPT"

abbrev pub chain_decrypt : String
chain_decrypt = "SCG_DECRYPT"

abbrev pub tproxy_mark : String
tproxy_mark = "1"

abbrev pub tproxy_table : String
tproxy_table = "100"
