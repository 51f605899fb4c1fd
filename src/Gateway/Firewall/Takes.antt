-- ===== src/Gateway/Firewall/Takes.antt =====
-- gateway/src/networking/firewall.rs: the steps that take a chain and then note it in the manager.
use scg.Gateway.Firewall.Tracking.{
  gives_back, Resource, takes, owns, Track, IsInert, inert_everywhere-IsInert, Track-inert,
  Track-takes,
}
use scg.Base.{
  inr, sym, inl, subst, Bool, true, false, List, [], ◌∷◌, if◌then◌else◌, ◌≡◌, refl, arith,
  Option-cases, Bool-cases,
}
use Prim.Native.String.{String}
use scg.Gateway.Firewall.{
  Entry, Host, State, FirewallManager, ◌>>◌, set_manager, chain_encrypt, chain_decrypt,
}
use scg.Gateway.Firewall.Commands.{execute, status, run_cmd, create_or_flush_chain, succeeded}
use scg.Gateway.Firewall.Keeps.{IsTracked, Keeps, execute-Keeps}

-- The manager's flags after a command that takes something, by whether it succeeded.
abbrev noted : (FirewallManager → FirewallManager) → Bool → FirewallManager → FirewallManager
noted f b m = if b then f m else m

abbrev entry : String → List String → Bool → Entry
entry p args b = record { program = p; args = args; success = b }

-- A command and its note keep every resource tracked.
abbrev IsNoted : String → List String → (FirewallManager → FirewallManager) → Type 0
IsNoted p args f =
    (x : Resource) (m : FirewallManager) (log : List Entry) (b : Bool)
    → Track x (owns x m) log
    → Track x (owns x (noted f b m)) (entry p args b ∷ log)

either_state :
    (early b : Bool) (s t : State)
    → IsTracked early s
    → IsTracked early t
    → IsTracked early (if b then s else t)
either_state early true s t p q = p
either_state early false s t p q = q

module _ (early : Bool) (h : Host) (f : FirewallManager → FirewallManager) where
  -- The note leaves the flags of the routing policy.
  abbrev LeavesRouting : Type 0
  LeavesRouting =
      (m : FirewallManager)
      → ((f m).owns_routing_rule ≡ m.owns_routing_rule)
        × ((f m).owns_routing_route ≡ m.owns_routing_route)

  run_then_note-state :
      (p : String) (args : List String) (s : State)
      → ((run_cmd h p args >> set_manager f) s).0 ≡ record {
        log = entry p args (succeeded (h.execute s.log p args)) ∷ s.log;
        manager = noted f (succeeded (h.execute s.log p args)) s.manager;
      }
  unfolding run_cmd execute
  run_then_note-state p args s = elim (Option-cases (h.execute s.log p args)) [
    | inl e ↦ ground arith
    | inr (o, e) ↦ ground arith
  ]

  run_then_note :
      (p : String) (args : List String)
      → IsNoted p args f
      → LeavesRouting
      → Keeps early (run_cmd h p args >> set_manager f)
  run_then_note p args n l s t =
      let b = succeeded (h.execute s.log p args) in
      subst (IsTracked early) (sym (run_then_note-state p args s)) (
        (
          λ x. n x s.manager s.log b (t.0 x),
          λ e. elim (Bool-cases b) [
            | inl d ↦ ground (arith, (l s.manager).0, t.1 e)
            | inr d ↦ ground (arith, t.1 e)
          ],
          λ e. elim (Bool-cases b) [
            | inl d ↦ ground (arith, (l s.manager).1, t.2 e)
            | inr d ↦ ground (arith, t.2 e)
          ],
        ))

  -- The state in which the chain is emptied or created.
  abbrev looked : String → String → State → State
  looked table chain s = (execute h "iptables" ("-t" ∷ table ∷ "-L" ∷ chain ∷ "-n" ∷ []) s).0

  create_or_flush-state :
      (table chain : String) (s : State)
      → ((create_or_flush_chain h "iptables" table chain >> set_manager f) s).0 ≡ (
          if succeeded (h.execute s.log "iptables" ("-t" ∷ table ∷ "-L" ∷ chain ∷ "-n" ∷ []))
          then ((run_cmd h "iptables" ("-t" ∷ table ∷ "-F" ∷ chain ∷ []) >> set_manager f)
              (looked table chain s)).0
          else ((run_cmd h "iptables" ("-t" ∷ table ∷ "-N" ∷ chain ∷ []) >> set_manager f)
              (looked table chain s)).0)
  unfolding create_or_flush_chain status execute
  create_or_flush-state table chain s =
      elim (Bool-cases
        (succeeded (h.execute s.log "iptables" ("-t" ∷ table ∷ "-L" ∷ chain ∷ "-n" ∷ [])))) [
          | inl e ↦ ground arith
          | inr e ↦ ground arith
        ]

  take_chain :
      (table chain : String)
      → IsInert "iptables" ("-t" ∷ table ∷ "-L" ∷ chain ∷ "-n" ∷ [])
      → IsNoted "iptables" ("-t" ∷ table ∷ "-F" ∷ chain ∷ []) f
      → IsNoted "iptables" ("-t" ∷ table ∷ "-N" ∷ chain ∷ []) f
      → LeavesRouting
      → Keeps early (create_or_flush_chain h "iptables" table chain >> set_manager f)
  unfolding execute
  take_chain table chain i a b l s t =
      let next = looked table chain s in
      let kept = execute-Keeps early h "iptables" _ i s t in
      subst (IsTracked early) (sym (create_or_flush-state table chain s)) (
        either_state early (succeeded (h.execute s.log "iptables" _)) _ _
          (run_then_note "iptables" _ a l next kept) (run_then_note "iptables" _ b l next kept))

encrypt_flag-IsNoted :
    (flag : String)
    → takes Resource.encrypt_chain "iptables" ("-t" ∷ "nat" ∷ flag ∷ chain_encrypt ∷ []) ≡ true
    → gives_back Resource.encrypt_chain "iptables" ("-t" ∷ "nat" ∷ flag ∷ chain_encrypt ∷ [])
      ≡ false
    → IsNoted "iptables"
        ("-t" ∷ "nat" ∷ flag ∷ chain_encrypt ∷ [])
        (λ m. record m { owns_encrypt_chain = true })
encrypt_flag-IsNoted flag k g Resource.encrypt_chain m log true t =
    Track-takes Resource.encrypt_chain m.owns_encrypt_chain _ log k g t
encrypt_flag-IsNoted flag k g Resource.decrypt_chain m log true t =
    Track-inert Resource.decrypt_chain m.owns_decrypt_chain _ log refl t
encrypt_flag-IsNoted flag k g Resource.routing_rule m log true t =
    Track-inert Resource.routing_rule m.owns_routing_rule _ log refl t
encrypt_flag-IsNoted flag k g Resource.routing_route m log true t =
    Track-inert Resource.routing_route m.owns_routing_route _ log refl t
encrypt_flag-IsNoted flag k g Resource.encrypt_chain m log false t =
    Track-takes Resource.encrypt_chain m.owns_encrypt_chain _ log k g t
encrypt_flag-IsNoted flag k g Resource.decrypt_chain m log false t =
    Track-inert Resource.decrypt_chain m.owns_decrypt_chain _ log refl t
encrypt_flag-IsNoted flag k g Resource.routing_rule m log false t =
    Track-inert Resource.routing_rule m.owns_routing_rule _ log refl t
encrypt_flag-IsNoted flag k g Resource.routing_route m log false t =
    Track-inert Resource.routing_route m.owns_routing_route _ log refl t

decrypt_flag-IsNoted :
    (flag : String)
    → takes Resource.decrypt_chain "iptables" ("-t" ∷ "mangle" ∷ flag ∷ chain_decrypt ∷ []) ≡ true
    → gives_back Resource.decrypt_chain "iptables" ("-t" ∷ "mangle" ∷ flag ∷ chain_decrypt ∷ [])
      ≡ false
    → IsNoted "iptables"
        ("-t" ∷ "mangle" ∷ flag ∷ chain_decrypt ∷ [])
        (λ m. record m { owns_decrypt_chain = true })
decrypt_flag-IsNoted flag k g Resource.decrypt_chain m log true t =
    Track-takes Resource.decrypt_chain m.owns_decrypt_chain _ log k g t
decrypt_flag-IsNoted flag k g Resource.encrypt_chain m log true t =
    Track-inert Resource.encrypt_chain m.owns_encrypt_chain _ log refl t
decrypt_flag-IsNoted flag k g Resource.routing_rule m log true t =
    Track-inert Resource.routing_rule m.owns_routing_rule _ log refl t
decrypt_flag-IsNoted flag k g Resource.routing_route m log true t =
    Track-inert Resource.routing_route m.owns_routing_route _ log refl t
decrypt_flag-IsNoted flag k g Resource.decrypt_chain m log false t =
    Track-takes Resource.decrypt_chain m.owns_decrypt_chain _ log k g t
decrypt_flag-IsNoted flag k g Resource.encrypt_chain m log false t =
    Track-inert Resource.encrypt_chain m.owns_encrypt_chain _ log refl t
decrypt_flag-IsNoted flag k g Resource.routing_rule m log false t =
    Track-inert Resource.routing_rule m.owns_routing_rule _ log refl t
decrypt_flag-IsNoted flag k g Resource.routing_route m log false t =
    Track-inert Resource.routing_route m.owns_routing_route _ log refl t

module _ (early : Bool) (h : Host) where
  pub take_encrypt-Keeps : Keeps early (
      create_or_flush_chain h "iptables" "nat" chain_encrypt
      >> set_manager (λ m. record m { owns_encrypt_chain = true }))
  take_encrypt-Keeps =
      take_chain early h _ "nat" chain_encrypt (inert_everywhere-IsInert _ _ refl)
        (encrypt_flag-IsNoted "-F" refl refl) (encrypt_flag-IsNoted "-N" refl refl)
        (λ m. (refl, refl))

  pub take_decrypt-Keeps : Keeps early (
      create_or_flush_chain h "iptables" "mangle" chain_decrypt
      >> set_manager (λ m. record m { owns_decrypt_chain = true }))
  take_decrypt-Keeps =
      take_chain early h _ "mangle" chain_decrypt (inert_everywhere-IsInert _ _ refl)
        (decrypt_flag-IsNoted "-F" refl refl) (decrypt_flag-IsNoted "-N" refl refl)
        (λ m. (refl, refl))
