-- ===== src/Gateway/Firewall/Tracking.antt =====
-- gateway/src/networking/firewall.rs: which commands take hold of something of the host and which give
-- it back, and how single commands and their composition affect that.
use scg.Base.{
  inr, inl, Bool-cases, Bool, true, false, ◌&&◌, ◌||◌, not, List, [], ◌∷◌, if◌then◌else◌, ◌≡◌, refl,
  arith,
}
use Prim.Native.String.{String}
use scg.Base.Texts.{same_text, same_list}
use scg.Gateway.Firewall.{Entry, FirewallManager, chain_encrypt, chain_decrypt}
use scg.Gateway.Firewall.Routing.{rule_args, route_args}

-- What the gateway takes hold of in IPv4: its two chains, and the two parts of the routing policy.
pub data Resource : Type 0 where
  encrypt_chain decrypt_chain routing_rule routing_route : Resource

abbrev pub is_command : String → List String → String → List String → Bool
is_command program args p av = same_text p program && same_list same_text av args

abbrev chain_command : String → String → String → String → List String → Bool
chain_command table flag chain p av = is_command "iptables" ("-t" ∷ table ∷ flag ∷ chain ∷ []) p av

-- The commands that create or empty a chain, or add to the routing policy.
abbrev pub takes : Resource → String → List String → Bool
takes Resource.encrypt_chain p av =
    chain_command "nat" "-N" chain_encrypt p av || chain_command "nat" "-F" chain_encrypt p av
takes Resource.decrypt_chain p av =
    chain_command "mangle" "-N" chain_decrypt p av || chain_command "mangle" "-F" chain_decrypt p av
takes Resource.routing_rule p av = is_command "ip" (rule_args "add") p av
takes Resource.routing_route p av = is_command "ip" (route_args "add") p av

-- The commands that delete a chain or take from the routing policy.
abbrev pub gives_back : Resource → String → List String → Bool
gives_back Resource.encrypt_chain p av = chain_command "nat" "-X" chain_encrypt p av
gives_back Resource.decrypt_chain p av = chain_command "mangle" "-X" chain_decrypt p av
gives_back Resource.routing_rule p av = is_command "ip" (rule_args "del") p av
gives_back Resource.routing_route p av = is_command "ip" (route_args "del") p av

abbrev pub owns : Resource → FirewallManager → Bool
owns Resource.encrypt_chain m = m.owns_encrypt_chain
owns Resource.decrypt_chain m = m.owns_decrypt_chain
owns Resource.routing_rule m = m.owns_routing_rule
owns Resource.routing_route m = m.owns_routing_route

-- A resource was taken with success, and no command has given it back since.
unfoldable pub held : Resource → List Entry → Bool
held x [] = false
held x (e ∷ log) =
    let before = held x log in
    if gives_back x e.program e.args then false else takes x e.program e.args && e.success || before

-- A command has taken the resource with success.
unfoldable pub was_taken : Resource → List Entry → Bool
was_taken x [] = false
was_taken x (e ∷ log) = takes x e.program e.args && e.success || was_taken x log

-- No command gives the resource back that was not taken before.
unfoldable pub only_own : Resource → List Entry → Bool
unfolding was_taken
only_own x [] = true
only_own x (e ∷ log) = (not (gives_back x e.program e.args) || was_taken x log) && only_own x log

abbrev pub Track : Resource → Bool → List Entry → Type 0
Track x owned log =
    (held x log ≡ true → owned ≡ true)
    × (owned ≡ true → was_taken x log ≡ true)
    × (only_own x log ≡ true)

abbrev pub inert : Resource → String → List String → Bool
inert x p av = not (takes x p av) && not (gives_back x p av)

abbrev pub IsInert : String → List String → Type 0
IsInert p av = (x : Resource) → inert x p av ≡ true

-- Where a command's first words decide, this computes to true.
abbrev inert_everywhere : String → List String → Bool
inert_everywhere p av =
    inert Resource.encrypt_chain p av
    && inert Resource.decrypt_chain p av
    && inert Resource.routing_rule p av
    && inert Resource.routing_route p av

pub inert_everywhere-IsInert :
    (p : String) (av : List String) → inert_everywhere p av ≡ true → IsInert p av
inert_everywhere-IsInert p av h Resource.encrypt_chain = ground arith
inert_everywhere-IsInert p av h Resource.decrypt_chain = ground arith
inert_everywhere-IsInert p av h Resource.routing_rule = ground arith
inert_everywhere-IsInert p av h Resource.routing_route = ground arith

-- One entry more on the log.
pub Track-inert :
    (x : Resource) (owned : Bool) (e : Entry) (log : List Entry)
    → inert x e.program e.args ≡ true
    → Track x owned log
    → Track x owned (e ∷ log)
unfolding held was_taken only_own
Track-inert x owned e log i (h, t, g) =
    (λ p. ground (arith, h), λ o. ground (arith, t o), ground arith)

-- A resource that is given back by its owner is no longer held.
pub Track-gives_back :
    (x : Resource) (e : Entry) (log : List Entry)
    → gives_back x e.program e.args ≡ true
    → was_taken x log ≡ true
    → only_own x log ≡ true
    → Track x false (e ∷ log)
unfolding held was_taken only_own
Track-gives_back x e log b t g = (λ p. ground arith, λ o. ground arith, ground arith)

-- A resource may be taken again while it is owned.
pub Track-takes_again :
    (x : Resource) (e : Entry) (log : List Entry)
    → gives_back x e.program e.args ≡ false
    → Track x true log
    → Track x true (e ∷ log)
unfolding held was_taken only_own
Track-takes_again x e log b (h, t, g) = (λ p. refl, λ o. ground (arith, t refl), ground arith)

-- A resource that is taken is owned where the command succeeded, and else as before.
pub Track-takes :
    (x : Resource) (owned : Bool) (e : Entry) (log : List Entry)
    → takes x e.program e.args ≡ true
    → gives_back x e.program e.args ≡ false
    → Track x owned log
    → Track x (if e.success then true else owned) (e ∷ log)
unfolding held was_taken only_own
Track-takes x owned e log k b (h, t, g) = elim (Bool-cases e.success) [
  | inl s ↦ (λ p. ground arith, λ o. ground arith, ground arith)
  | inr s ↦ (λ p. ground (arith, h), λ o. ground (arith, t), ground arith)
]
