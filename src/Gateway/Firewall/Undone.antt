-- ===== src/Gateway/Firewall/Undone.antt =====
-- gateway/src/networking/firewall.rs: what is left behind by a setup that fails, and by a teardown.
use scg.Base.{Bool, false, List, [], ◌∷◌, Result, ok, err, ◌≡◌}
use scg.Gateway.Firewall.Setup.{teardown}
use scg.Gateway.Firewall.Tracking.{Resource, Track}
use scg.Gateway.Firewall.Routing.{remove_routing_rule, remove_routing_route}
use Prim.Native.String.{String}
use scg.Gateway.Firewall.{
  Entry, Host, State, FirewallManager, FirewallError, Firewall, ◌>>◌, pure, fail, when,
  chain_encrypt, chain_decrypt,
}
use scg.Gateway.Firewall.Commands.{remove_chain}
use scg.Gateway.Firewall.Keeps.{IsTracked}

-- A step that cannot fail leads from one condition on the log to another.
abbrev Leads : (List Entry → Type 0) → Firewall (Unit {0}) → (List Entry → Type 0) → Type 0
Leads P m Q = (s : State) → P s.log → ((m s).1 ≡ ok tt) × Q (m s).0.log

module _ (h : Host) where
  -- A chain that is removed is given back by its owner; its other commands may only empty it.
  module _ (x : Resource) (binary table chain : String) where
    abbrev unlink : String → List String
    unlink parent = "-t" ∷ table ∷ "-D" ∷ parent ∷ "-j" ∷ chain ∷ []

  abbrev drop_encrypt : Firewall (Unit {0})
  drop_encrypt = remove_chain h "iptables" "nat" chain_encrypt

  abbrev drop_v6 : Firewall (Unit {0})
  drop_v6 = remove_chain h "ip6tables" "nat" chain_encrypt

  abbrev drop_decrypt : Firewall (Unit {0})
  drop_decrypt = remove_chain h "iptables" "mangle" chain_decrypt

  -- The five steps of a teardown, with the conditions between them.
  abbrev steps : FirewallManager → Firewall (Unit {0})
  steps m =
      when m.owns_encrypt_chain drop_encrypt
      >> (when m.owns_encrypt_chain_v6 drop_v6
          >> (when m.owns_decrypt_chain drop_decrypt
              >> (when m.owns_routing_rule (remove_routing_rule h)
                  >> when m.owns_routing_route (remove_routing_route h))))

  -- Where a step succeeds, everything is tracked; where it fails, everything is given back.
  abbrev Settled : Bool → State × Result (Unit {0}) FirewallError → Type 0
  Settled early (s, ok u) = IsTracked early s
  Settled early (s, err e) = (x : Resource) → Track x false s.log

  abbrev settle : Result (Unit {0}) FirewallError → Firewall (Unit {0})
  settle (ok u) = pure tt
  settle (err e) = teardown h >> fail e
