-- ===== src/Gateway/Policy/Allowed.antt =====
-- gateway/src/processing/policy.rs: the two checks of `PolicyManager`, and `reload` without a policy.
use scg.Gateway.Policy.{
  PolicyAction, is_safety, is_allow, no_entries, allow, deny, TrafficClass, safety, normal,
  CompiledWhitelistEntry, PolicyManager, check_allowed, check_allowed_destination, any_entry, new,
  reload,
}
use scg.Base.{
  if◌then◌else◌, Bool-cases, not, ◌&&◌, Bool, true, false, Option, none, List, [], ◌∷◌, Any, ◌≡◌,
  ◌↔◌, ◌⊎◌, inl, inr, refl, arith,
}
use scg.Gateway.AddressPattern.{AddressPattern, SocketAddr, matches}

-- The loop finds an entry exactly when there is one.
any_entry_iff :
    (test : CompiledWhitelistEntry → Bool) (es : List CompiledWhitelistEntry)
    → (any_entry test es ≡ true) ↔ Any (λ e. test e ≡ true) es
unfolding any_entry
any_entry_iff test [] = (λ h. ground arith, λ h. absurd h)
any_entry_iff test (e ∷ es) =
    (found (any_entry_iff test es).0 (Bool-cases (test e)), passes (any_entry_iff test es).1)
  where
    found :
        (any_entry test es ≡ true → Any (λ e. test e ≡ true) es)
        → (test e ≡ true) ⊎ (test e ≡ false)
        → any_entry test (e ∷ es) ≡ true
        → Any (λ e. test e ≡ true) (e ∷ es)
    found ih (inl hit) h = inl hit
    found ih (inr miss) h = inr (ih (ground arith))

    passes :
        (Any (λ e. test e ≡ true) es → any_entry test es ≡ true)
        → Any (λ e. test e ≡ true) (e ∷ es)
        → any_entry test (e ∷ es) ≡ true
    passes ih (inl hit) = ground arith
    passes ih (inr later) = ground (arith, ih later)

-- The decision on a flow that the policy binds.
bound_iff :
    (test : CompiledWhitelistEntry → Bool) (d : PolicyAction) (es : List CompiledWhitelistEntry)
    → ((if no_entries es then is_allow d else if any_entry test es then true else is_allow d)
        ≡ true)
      ↔ ((d ≡ allow) ⊎ Any (λ e. test e ≡ true) es)
unfolding is_allow
bound_iff test allow [] = (λ h. inl refl, λ h. refl)
bound_iff test allow (e ∷ es) = (λ h. inl refl, λ h. ground arith)
bound_iff test deny [] =
    (λ h. ground arith, λ h. elim h [ inl a ↦ ground arith | inr b ↦ absurd b ])
bound_iff test deny (e ∷ es) = (
  λ h. inr ((any_entry_iff test (e ∷ es)).0 (ground arith)),
  λ h. elim h [ inl a ↦ ground arith | inr b ↦ ground (arith, (any_entry_iff test (e ∷ es)).1 b) ],
)

-- The decision, whatever the entries are tested for.
decision_iff :
    (test : CompiledWhitelistEntry → Bool) (c : TrafficClass) (enforce : Bool) (d : PolicyAction)
    (es : List CompiledWhitelistEntry)
    → ((if (is_safety c && not enforce)
          then true
          else if no_entries es
          then is_allow d
          else if any_entry test es
          then true
          else is_allow d)
        ≡ true)
      ↔ (((c ≡ safety) × (enforce ≡ false)) ⊎ (d ≡ allow) ⊎ Any (λ e. test e ≡ true) es)
unfolding is_safety is_allow
decision_iff test safety false d es = (λ h. inl (refl, refl), λ h. refl)
decision_iff test safety true d es = (
  λ h. inr ((bound_iff test d es).0 h),
  λ h. elim h [ inl a ↦ absurd (ground arith) | inr b ↦ (bound_iff test d es).1 b ],
)
decision_iff test normal enforce d es = (
  λ h. inr ((bound_iff test d es).0 h),
  λ h. elim h [ inl a ↦ absurd (ground arith) | inr b ↦ (bound_iff test d es).1 b ],
)

-- A flow is let through exactly when it is safety traffic that the policy does not bind, or the
-- default is to allow, or an entry matches both its ends.
pub check_allowed_iff :
    (p : PolicyManager) (src dst : SocketAddr) (c : TrafficClass)
    → (check_allowed p src dst c ≡ true) ↔ (
        ((c ≡ safety) × (p.enforce_policy_on_safety ≡ false))
        ⊎ (p.default_action ≡ allow)
        ⊎ Any (λ e. (matches e.source src && matches e.destination dst) ≡ true) p.entries)
unfolding check_allowed
check_allowed_iff p src dst c =
    decision_iff (λ e. matches e.source src && matches e.destination dst) c
      p.enforce_policy_on_safety p.default_action p.entries

-- The check without a source: an entry counts when it matches the destination.
pub check_allowed_destination_iff :
    (p : PolicyManager) (dst : SocketAddr) (c : TrafficClass)
    → (check_allowed_destination p dst c ≡ true) ↔ (
        ((c ≡ safety) × (p.enforce_policy_on_safety ≡ false))
        ⊎ (p.default_action ≡ allow)
        ⊎ Any (λ e. matches e.destination dst ≡ true) p.entries)
unfolding check_allowed_destination
check_allowed_destination_iff p dst c =
    decision_iff (λ e. matches e.destination dst) c p.enforce_policy_on_safety p.default_action
      p.entries

-- After a reload to a configuration without a policy, exactly the safety traffic passes.
pub reload-none-check_allowed :
    {Text : Type 0} (parse : Text → Option AddressPattern) (p : PolicyManager)
    (src dst : SocketAddr) (c : TrafficClass)
    → (check_allowed (reload parse p none) src dst c ≡ true) ↔ (c ≡ safety)
unfolding check_allowed reload new is_safety is_allow
reload-none-check_allowed parse p src dst safety = (λ h. refl, λ h. refl)
reload-none-check_allowed parse p src dst normal = (λ h. ground arith, λ h. ground arith)
