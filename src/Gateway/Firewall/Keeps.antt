-- ===== src/Gateway/Firewall/Keeps.antt =====
-- gateway/src/networking/firewall.rs: what the composition of steps keeps, whatever the host answers.
use scg.Gateway.Firewall.Commands.{
  ensure_jump, execute, status, run_cmd, check_output, listen_port, succeeded, silent,
}
use scg.Base.{
  inr, inl, Bool, true, false, Option, none, some, List, [], ◌∷◌, if◌then◌else◌, Result, ok, err,
  ◌≡◌, Option-cases, Bool-cases,
}
use Prim.Native.String.{String}
use scg.Gateway.Config.{RuleConfig}
use scg.Gateway.Firewall.{Output, Host, State, FirewallError, Firewall, ◌>>=◌, pure, for_each, when}
use scg.Gateway.Firewall.Tracking.{Resource, owns, Track, IsInert, Track-inert}

-- Every resource is tracked by the manager's flags; where `early` is true, the routing policy has not
-- been touched.
abbrev pub IsTracked : Bool → State → Type 0
IsTracked early s =
    ((x : Resource) → Track x (owns x s.manager) s.log)
    × (early ≡ true → s.manager.owns_routing_rule ≡ false)
    × (early ≡ true → s.manager.owns_routing_route ≡ false)

-- The step keeps that, whether it fails or not.
abbrev pub Keeps : Bool → {A : Type 0} → Firewall A → Type 0
Keeps early m = (s : State) → IsTracked early s → IsTracked early (m s).0

module _ (early : Bool) where
  pub bind-Keeps :
      {A B : Type 0} (m : Firewall A) (f : A → Firewall B)
      → Keeps early m
      → ((a : A) → Keeps early (f a))
      → Keeps early (m >>= f)
  bind-Keeps {A} {B} m f km kf s h = go (m s).1
    where
      go :
          (r : Result A FirewallError)
          → IsTracked early
              (elim r as (λ _. State × Result B FirewallError) [
                | ok a ↦ f a (m s).0
                | err e ↦ ((m s).0, err e)
              ]).0
      go (ok a) = kf a (m s).0 (km s h)
      go (err e) = km s h

  pub when-Keeps : (b : Bool) (m : Firewall (Unit {0})) → Keeps early m → Keeps early (when b m)
  when-Keeps true m k = k
  when-Keeps false m k = λ s h. h

  pub if-Keeps :
      {A : Type 0} (b : Bool) (m n : Firewall A)
      → Keeps early m
      → Keeps early n
      → Keeps early (if b then m else n)
  if-Keeps true m n k l = k
  if-Keeps false m n k l = l

  pub for_each-Keeps :
      {A : Type 0} (xs : List A) (f : A → Firewall (Unit {0}))
      → ((a : A) → Keeps early (f a))
      → Keeps early (for_each xs f)
  for_each-Keeps [] f k = λ s h. h
  for_each-Keeps (x ∷ xs) f k =
      bind-Keeps (f x) (λ _. for_each xs f) (k x) (λ _. for_each-Keeps xs f k)

  module _ (h : Host) (p : String) (args : List String) (i : IsInert p args) where
    pub execute-Keeps : Keeps early (execute h p args)
    unfolding execute
    execute-Keeps s t = (λ x. Track-inert x (owns x s.manager) _ s.log (i x) (t.0 x), t.1, t.2)

    pub status-Keeps : Keeps early (status h p args)
    unfolding status
    status-Keeps =
        bind-Keeps (execute h p args) (λ o. pure (succeeded o)) execute-Keeps (λ o s t. t)

    check_output-Keeps : (o : Option Output) → Keeps early (check_output p args o)
    check_output-Keeps none s t = t
    check_output-Keeps (some o) s t = elim (Bool-cases o.success) [
      | inl e ↦ rw (e) t
      | inr e ↦ rw (e) t
    ]

    pub run_cmd-Keeps : Keeps early (run_cmd h p args)
    unfolding run_cmd
    run_cmd-Keeps =
        bind-Keeps (execute h p args) (check_output p args) execute-Keeps check_output-Keeps

    pub silent-Keeps : Keeps early (silent h p args)
    silent-Keeps = bind-Keeps (status h p args) (λ o. pure tt) status-Keeps (λ o s t. t)

  pub listen_port-Keeps :
      {Value : Type 0} (h : Host) (r : RuleConfig Value) → Keeps early (listen_port h r)
  unfolding listen_port
  listen_port-Keeps h r s t = elim (Option-cases (h.parse_socket_addr r.listen_addr)) [
    | inl e ↦ rw (e) t
    | inr (a, e) ↦ rw (e) t
  ]

  module _ (h : Host) (binary table parent chain : String) where
    pub ensure_jump-Keeps :
        IsInert binary ("-t" ∷ table ∷ "-C" ∷ parent ∷ "-j" ∷ chain ∷ [])
        → IsInert binary ("-t" ∷ table ∷ "-A" ∷ parent ∷ "-j" ∷ chain ∷ [])
        → Keeps early (ensure_jump h binary table parent chain)
    unfolding ensure_jump
    ensure_jump-Keeps c a =
        let check = "-t" ∷ table ∷ "-C" ∷ parent ∷ "-j" ∷ chain ∷ [] in
        let add = run_cmd h binary ("-t" ∷ table ∷ "-A" ∷ parent ∷ "-j" ∷ chain ∷ []) in
        bind-Keeps (status h binary check) (λ present. if present then pure tt else add)
          (status-Keeps h binary check c)
          (λ present. if-Keeps present (pure tt) add (λ s t. t) (run_cmd-Keeps h binary _ a))
