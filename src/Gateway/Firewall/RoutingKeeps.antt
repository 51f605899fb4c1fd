-- ===== src/Gateway/Firewall/RoutingKeeps.antt =====
-- gateway/src/networking/firewall.rs: what of the routing policy is held while it is set up, on every
-- way through the code.
use scg.Gateway.Firewall.{
  tproxy_table, Output, Host, State, FirewallManager, FirewallError, Firewall, ◌>>=◌, ◌>>◌, pure,
  fail, when,
}
use scg.Base.{
  inr, inl, subst, Bool, true, false, Option, none, some, List, [], ◌∷◌, Result, ok, err, ◌≡◌, refl,
  arith, Bool-cases,
}
use Prim.Native.String.{String}
use scg.Base.Bytes.{Bytes}
use scg.Gateway.Firewall.Commands.{execute, status, run_cmd, check_output, succeeded}
use scg.Gateway.Firewall.Routing.{
  rule_args, route_args, routing_policy_needed, stdout_or_error, add_route, remove_routing_rule,
  ensure_routing_policy,
}
use scg.Gateway.Firewall.Decrypt.{own_routing}
use scg.Gateway.Firewall.Tracking.{
  Resource, owns, Track, IsInert, inert_everywhere-IsInert, Track-inert, Track-takes,
  Track-gives_back,
}
use scg.Gateway.Firewall.Keeps.{IsTracked}

-- What holds after a step: where it fails, nothing of the policy is held.
abbrev Outcome : {A : Type 0} → (A → State → Type 0) → State × Result A FirewallError → Type 0
Outcome Q (s, ok a) = Q a s
Outcome Q (s, err e) = IsTracked false s

-- The manager as it will be once the two parts of the policy are noted.
abbrev with_routing : Bool → Bool → FirewallManager → FirewallManager
with_routing rule route m = record m { owns_routing_rule = rule; owns_routing_route = route }

-- Everything is tracked by that manager, and the manager itself owns nothing of the policy.
abbrev IsHeld : Bool → Bool → State → Type 0
IsHeld rule route s =
    ((x : Resource) → Track x (owns x (with_routing rule route s.manager)) s.log)
    × (s.manager.owns_routing_rule ≡ false)
    × (s.manager.owns_routing_route ≡ false)

abbrev logged : String → List String → Bool → State → State
logged p args b s = record s { log = (record { program = p; args = args; success = b }) ∷ s.log }

bind-Outcome :
    {A B : Type 0} (Q : A → State → Type 0) (R : B → State → Type 0)
    (r : State × Result A FirewallError) (f : A → Firewall B)
    → Outcome Q r
    → ((a : A) (s : State) → Q a s → Outcome R (f a s))
    → Outcome R (elim r.1 [ ok a ↦ f a r.0 | err e ↦ (r.0, err e) ])
bind-Outcome Q R (s, ok a) f q k = k a s q
bind-Outcome Q R (s, err e) f q k = q

-- The condition on the state alone.
abbrev Leaving : (State → Type 0) → Unit {0} → State → Type 0
Leaving Q u s = Q s

-- The same with a condition of its own for the failure.
abbrev Ended :
    (State → Type 0) → (State → Type 0) → State × Result (Unit {0}) FirewallError → Type 0
Ended Q E (s, ok u) = Q s
Ended Q E (s, err e) = E s

check_output-Ended :
    (Q E : State → Type 0) (p : String) (args : List String) (o : Option Output) (s : State)
    → Q (logged p args true s)
    → E (logged p args false s)
    → Ended Q E (check_output p args o (logged p args (succeeded o) s))
check_output-Ended Q E p args none s q e = e
check_output-Ended Q E p args (some o) s q e = elim (Bool-cases o.success) [
  | inl d ↦ rw (d) q
  | inr d ↦ rw (d) e
]

Outcome-Ended :
    (Q : State → Type 0) (r : State × Result (Unit {0}) FirewallError)
    → Ended Q (IsTracked false) r
    → Outcome (Leaving Q) r
Outcome-Ended Q (s, ok u) h = h
Outcome-Ended Q (s, err e) h = h

when-Outcome :
    (Q : Bool → State → Type 0) (b : Bool) (m : Firewall (Unit {0})) (s : State)
    → Q false s
    → Outcome (Leaving (Q true)) (m s)
    → Outcome (Leaving (Q b)) (when b m s)
when-Outcome Q true m s n o = o
when-Outcome Q false m s n o = n

module _ (h : Host) where
  run_cmd-Ended :
      (Q E : State → Type 0) (p : String) (args : List String) (s : State)
      → Q (logged p args true s)
      → E (logged p args false s)
      → Ended Q E (run_cmd h p args s)
  unfolding run_cmd execute
  run_cmd-Ended Q E p args s q e = check_output-Ended Q E p args (h.execute s.log p args) s q e

  -- A failure leaves the manager as it was, with nothing of the policy held.
  IsHeld-none : (s : State) → IsHeld false false s → IsTracked false s
  IsHeld-none s (t, r, u) = (go, λ e. r, λ e. u)
    where
      go : (x : Resource) → Track x (owns x s.manager) s.log
      go Resource.encrypt_chain = t Resource.encrypt_chain
      go Resource.decrypt_chain = t Resource.decrypt_chain
      go Resource.routing_rule = rw (r) (t Resource.routing_rule)
      go Resource.routing_route = rw (u) (t Resource.routing_route)

  IsHeld-start : (s : State) → IsTracked true s → IsHeld false false s
  IsHeld-start s (t, r, u) = (go, r refl, u refl)
    where
      go : (x : Resource) → Track x (owns x (with_routing false false s.manager)) s.log
      go Resource.encrypt_chain = t Resource.encrypt_chain
      go Resource.decrypt_chain = t Resource.decrypt_chain
      go Resource.routing_rule =
          subst (λ o. Track Resource.routing_rule o s.log) (r refl) (t Resource.routing_rule)
      go Resource.routing_route =
          subst (λ o. Track Resource.routing_route o s.log) (u refl) (t Resource.routing_route)

  IsHeld-inert :
      (rule route : Bool) (p : String) (args : List String) (b : Bool) (s : State)
      → IsInert p args
      → IsHeld rule route s
      → IsHeld rule route (logged p args b s)
  IsHeld-inert rule route p args b s i (t, r, u) =
      (λ x. Track-inert x (owns x (with_routing rule route s.manager)) _ s.log (i x) (t x), r, u)

  IsHeld-rule_add :
      (b route : Bool) (s : State)
      → IsHeld false route s
      → IsHeld b route (logged "ip" (rule_args "add") b s)
  IsHeld-rule_add b route s (t, r, u) = (go b, r, u)
    where
      go :
          (c : Bool) (x : Resource)
          → Track x
              (owns x (with_routing c route s.manager))
              (record { program = "ip"; args = rule_args "add"; success = c } ∷ s.log)
      go true Resource.routing_rule =
          Track-takes Resource.routing_rule false _ s.log refl refl (t Resource.routing_rule)
      go false Resource.routing_rule =
          Track-takes Resource.routing_rule false _ s.log refl refl (t Resource.routing_rule)
      go c Resource.encrypt_chain =
          Track-inert Resource.encrypt_chain _ _ s.log refl (t Resource.encrypt_chain)
      go c Resource.decrypt_chain =
          Track-inert Resource.decrypt_chain _ _ s.log refl (t Resource.decrypt_chain)
      go c Resource.routing_route =
          Track-inert Resource.routing_route _ _ s.log refl (t Resource.routing_route)

  IsHeld-route_add :
      (rule b : Bool) (s : State)
      → IsHeld rule false s
      → IsHeld rule b (logged "ip" (route_args "add") b s)
  IsHeld-route_add rule b s (t, r, u) = (go b, r, u)
    where
      go :
          (c : Bool) (x : Resource)
          → Track x
              (owns x (with_routing rule c s.manager))
              (record { program = "ip"; args = route_args "add"; success = c } ∷ s.log)
      go true Resource.routing_route =
          Track-takes Resource.routing_route false _ s.log refl refl (t Resource.routing_route)
      go false Resource.routing_route =
          Track-takes Resource.routing_route false _ s.log refl refl (t Resource.routing_route)
      go c Resource.encrypt_chain =
          Track-inert Resource.encrypt_chain _ _ s.log refl (t Resource.encrypt_chain)
      go c Resource.decrypt_chain =
          Track-inert Resource.decrypt_chain _ _ s.log refl (t Resource.decrypt_chain)
      go c Resource.routing_rule =
          Track-inert Resource.routing_rule _ _ s.log refl (t Resource.routing_rule)

  -- The rule that is taken back when the route fails.
  IsHeld-rule_del :
      (b route : Bool) (s : State)
      → IsHeld true route s
      → IsHeld false route (logged "ip" (rule_args "del") b s)
  IsHeld-rule_del b route s (t, r, u) = (go, r, u)
    where
      go :
          (x : Resource)
          → Track x
              (owns x (with_routing false route s.manager))
              (record { program = "ip"; args = rule_args "del"; success = b } ∷ s.log)
      go Resource.routing_rule =
          Track-gives_back Resource.routing_rule _ s.log refl ((t Resource.routing_rule).1 refl)
            (t Resource.routing_rule).2
      go Resource.encrypt_chain =
          Track-inert Resource.encrypt_chain _ _ s.log refl (t Resource.encrypt_chain)
      go Resource.decrypt_chain =
          Track-inert Resource.decrypt_chain _ _ s.log refl (t Resource.decrypt_chain)
      go Resource.routing_route =
          Track-inert Resource.routing_route _ _ s.log refl (t Resource.routing_route)

  add_rule-Outcome :
      (need : Bool) (s : State)
      → IsHeld false false s
      → Outcome (Leaving (IsHeld need false)) (when need (run_cmd h "ip" (rule_args "add")) s)
  add_rule-Outcome need s t =
      when-Outcome (λ b. IsHeld b false) need (run_cmd h "ip" (rule_args "add")) s t
        (Outcome-Ended (IsHeld true false) _ (
          run_cmd-Ended (IsHeld true false) (IsTracked false) "ip" (rule_args "add") s
            (IsHeld-rule_add true false s t) (IsHeld-none _ (IsHeld-rule_add false false s t))))

  take_back-IsTracked :
      (need : Bool) (s : State)
      → IsHeld need false s
      → IsTracked false (when need (remove_routing_rule h) s).0
  unfolding remove_routing_rule status execute
  take_back-IsTracked true s t = IsHeld-none _ (IsHeld-rule_del _ false s t)
  take_back-IsTracked false s t = IsHeld-none s t

  -- What follows on the attempt to add the route.
  after_route :
      (need : Bool) (r : State × Result (Unit {0}) FirewallError)
      → Ended (IsHeld need true) (IsHeld need false) r
      → Outcome (Leaving (IsHeld need true)) (
          (elim r.1 as (λ _. Firewall (Unit {0})) [
            | ok u ↦ pure tt
            | err e ↦ when need (remove_routing_rule h) >> fail e
          ])
            r.0)
  unfolding remove_routing_rule status
  after_route need (s, ok u) t = t
  after_route true (s, err e) t = take_back-IsTracked true s t
  after_route false (s, err e) t = take_back-IsTracked false s t

  add_route-Outcome :
      (need : Bool) (s : State)
      → IsHeld need false s
      → Outcome (Leaving (IsHeld need true)) (add_route h need s)
  add_route-Outcome need s t = after_route need (run_cmd h "ip" (route_args "add") s) (
      run_cmd-Ended (IsHeld need true) (IsHeld need false) "ip" (route_args "add") s
        (IsHeld-route_add need true s t) (IsHeld-route_add need false s t))

  stdout-Outcome :
      (o : Option Output) (s : State)
      → IsHeld false false s
      → Outcome (λ (b : Bytes) (t : State). IsHeld false false t) (stdout_or_error "ip" o s)
  stdout-Outcome none s t = IsHeld-none s t
  stdout-Outcome (some o) s t = t

  -- The rest of `ensure_routing_policy`, once both listings are read.
  abbrev add_policy : Bool → Bool → Firewall (Bool × Bool)
  add_policy need_rule need_route =
      when need_rule (run_cmd h "ip" (rule_args "add"))
      >> (when need_route (add_route h need_rule) >> pure (need_rule, need_route))

  add_policy-Outcome :
      (need_rule need_route : Bool) (s : State)
      → IsHeld false false s
      → Outcome
          (λ (p : Bool × Bool) (t : State). IsHeld p.0 p.1 t)
          (add_policy need_rule need_route s)
  add_policy-Outcome a b s t =
      bind-Outcome (Leaving (IsHeld a false)) (λ (p : Bool × Bool) (v : State). IsHeld p.0 p.1 v)
        (when a (run_cmd h "ip" (rule_args "add")) s) (λ _. when b (add_route h a) >> pure (a, b))
        (add_rule-Outcome a s t)
        (λ _ v q.
          bind-Outcome (Leaving (IsHeld a b)) (λ (p : Bool × Bool) (v : State). IsHeld p.0 p.1 v)
            (when b (add_route h a) v) (λ _. pure (a, b))
            (when-Outcome (λ c. IsHeld a c) b (add_route h a) v q (add_route-Outcome a v q))
            (λ _ w z. z))

  ensure_routing_policy-Outcome :
      (s : State)
      → IsTracked true s
      → Outcome (λ (p : Bool × Bool) (t : State). IsHeld p.0 p.1 t) (ensure_routing_policy h s)
  unfolding ensure_routing_policy execute
  ensure_routing_policy-Outcome s t =
      let rules = "rule" ∷ "show" ∷ [] in
      let routes = "route" ∷ "show" ∷ "table" ∷ tproxy_table ∷ [] in
      let o1 = h.execute s.log "ip" rules in
      let s1 = logged "ip" rules (succeeded o1) s in
      let t1 =
        IsHeld-inert false false "ip" rules (succeeded o1) s (inert_everywhere-IsInert _ _ refl)
          (IsHeld-start s t) in
      bind-Outcome (λ (b : Bytes) (v : State). IsHeld false false v)
        (λ (p : Bool × Bool) (v : State). IsHeld p.0 p.1 v) (stdout_or_error "ip" o1 s1)
        (λ rule_show. execute h "ip" routes >>= λ listed.
          stdout_or_error "ip" listed >>= λ route_show.
          add_policy (routing_policy_needed rule_show route_show).0
            (routing_policy_needed rule_show route_show).1)
        (stdout-Outcome o1 s1 t1)
        (λ rule_show v q.
          let o2 = h.execute v.log "ip" routes in
          let v1 = logged "ip" routes (succeeded o2) v in
          bind-Outcome (λ (b : Bytes) (w : State). IsHeld false false w)
            (λ (p : Bool × Bool) (w : State). IsHeld p.0 p.1 w) (stdout_or_error "ip" o2 v1)
            (λ route_show.
              add_policy (routing_policy_needed rule_show route_show).0
                (routing_policy_needed rule_show route_show).1)
            (stdout-Outcome o2 v1 (
              IsHeld-inert false false "ip" routes (succeeded o2) v
                (inert_everywhere-IsInert _ _ refl) q))
            (λ route_show w z. add_policy-Outcome _ _ w z))

  -- Once the two parts are noted, everything is tracked.
  noted_IsTracked :
      (r : State × Result (Bool × Bool) FirewallError)
      → Outcome (λ (p : Bool × Bool) (t : State). IsHeld p.0 p.1 t) r
      → IsTracked false
          (elim r.1 as (λ _. State × Result (Unit {0}) FirewallError) [
            | ok a ↦ own_routing a r.0
            | err e ↦ (r.0, err e)
          ]).0
  noted_IsTracked (s, ok (a, b)) (t, r, u) =
      (t, λ e. absurd (ground arith), λ e. absurd (ground arith))
  noted_IsTracked (s, err e) t = t

  pub take_routing-IsTracked :
      (s : State)
      → IsTracked true s
      → IsTracked false ((ensure_routing_policy h >>= own_routing) s).0
  take_routing-IsTracked s t =
      noted_IsTracked (ensure_routing_policy h s) (ensure_routing_policy-Outcome s t)
