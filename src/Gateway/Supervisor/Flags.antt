-- ===== src/Gateway/Supervisor/Flags.antt =====
-- gateway/src/processing/mod.rs: what runs under a name when a rule is stopped or started.
use scg.Base.{
  ◌∙◌, sym, ap, Bool-cases, inr, inl, ℕ, suc, false, none, some, List, [], ◌∷◌, if◌then◌else◌, ◌≡◌,
  ◌<◌, ◌≢◌, refl, arith, All, Option-cases,
}
use Prim.Native.String.{String}
use scg.Base.Texts.{same_text, same_text_iff}
use scg.Gateway.Config.{RuleConfig}
use scg.Gateway.Supervisor.{Thread, Supervisor, flag_of, raise, stop_rule, start_single_rule}

module _ {Value : Type 0} where
  -- The rules that threads which are not stopped run under a name.
  unfoldable pub running_of : String → List (Thread Value) → List (RuleConfig Value)
  running_of n [] = []
  running_of n (t ∷ ts) =
      let rest = running_of n ts in
      if same_text t.rule.name n then (if t.stopped then rest else t.rule ∷ rest) else rest

  abbrev pub running : String → Supervisor Value → List (RuleConfig Value)
  running n s = running_of n s.threads

  -- A thread that is not stopped has the flag of its rule's name, and no other name has that flag.
  abbrev pub IsFlagged : List (String × ℕ) → ℕ → Thread Value → Type 0
  IsFlagged m next t =
      (t.flag < next)
      × (t.stopped ≡ false → flag_of t.rule.name m ≡ some t.flag)
      × ((n : String) → flag_of n m ≡ some t.flag → n ≡ t.rule.name)

  abbrev pub IsValid : Supervisor Value → Type 0
  IsValid s =
      All (IsFlagged s.rule_shutdowns s.next_flag) s.threads
      × ((n : String) (f : ℕ) → flag_of n s.rule_shutdowns ≡ some f → f < s.next_flag)

  raise-running :
      (n : String) (f : ℕ) (m : List (String × ℕ)) (next : ℕ) (ts : List (Thread Value))
      → flag_of n m ≡ some f
      → All (IsFlagged m next) ts
      → running_of n (raise f ts) ≡ []
  unfolding running_of raise
  raise-running n f m next [] e h = refl
  raise-running n f m next (t ∷ ts) e (h, hs) =
      ground (arith, raise-running n f m next ts e hs, same_text_iff t.rule.name n, h.1)

  raise-running_other :
      (n k : String) (f : ℕ) (m : List (String × ℕ)) (next : ℕ) (ts : List (Thread Value))
      → flag_of n m ≡ some f
      → k ≢ n
      → All (IsFlagged m next) ts
      → running_of k (raise f ts) ≡ running_of k ts
  unfolding running_of raise
  raise-running_other n k f m next [] e ne h = refl
  raise-running_other n k f m next (t ∷ ts) e ne (h, hs) =
      ground
        (arith, raise-running_other n k f m next ts e ne hs, same_text_iff t.rule.name k, h.2 n)

  no_flag-running :
      (n : String) (m : List (String × ℕ)) (next : ℕ) (ts : List (Thread Value))
      → flag_of n m ≡ none
      → All (IsFlagged m next) ts
      → running_of n ts ≡ []
  unfolding running_of
  no_flag-running n m next [] e h = refl
  no_flag-running n m next (t ∷ ts) e (h, hs) =
      ground (arith, no_flag-running n m next ts e hs, same_text_iff t.rule.name n, h.1)

  raise-IsFlagged :
      (f : ℕ) (m : List (String × ℕ)) (next : ℕ) (ts : List (Thread Value))
      → All (IsFlagged m next) ts
      → All (IsFlagged m next) (raise f ts)
  unfolding raise
  raise-IsFlagged f m next [] h = tt
  raise-IsFlagged f m next (t ∷ ts) (h, hs) =
      ((h.0, λ e. ground (arith, h.1), h.2), raise-IsFlagged f m next ts hs)

  stop_rule-running_same :
      (n : String) (s : Supervisor Value) → IsValid s → running n (stop_rule n s) ≡ []
  unfolding stop_rule
  stop_rule-running_same n s h = elim (Option-cases (flag_of n s.rule_shutdowns)) [
    | inl e ↦ rw (stop_rule, e) (no_flag-running n s.rule_shutdowns s.next_flag s.threads e h.0)
    | inr (f, e) ↦
        rw (stop_rule, e) (raise-running n f s.rule_shutdowns s.next_flag s.threads e h.0)
  ]

  stop_rule-running_other :
      (n k : String) (s : Supervisor Value)
      → IsValid s
      → k ≢ n
      → running k (stop_rule n s) ≡ running k s
  unfolding stop_rule
  stop_rule-running_other n k s h ne = elim (Option-cases (flag_of n s.rule_shutdowns)) [
    | inl e ↦ rw (stop_rule, e) refl
    | inr (f, e) ↦
        rw (stop_rule, e)
          (raise-running_other n k f s.rule_shutdowns s.next_flag s.threads e ne h.0)
  ]

  pub stop_rule-running :
      (n k : String) (s : Supervisor Value)
      → IsValid s
      → running k (stop_rule n s) ≡ (if same_text n k then [] else running k s)
  stop_rule-running n k s v = elim (Bool-cases (same_text n k)) [
    | inl f ↦ rw (f) (
        ap (λ m. running m (stop_rule n s)) (sym ((same_text_iff n k).0 f))
        ∙ stop_rule-running_same n s v)
    | inr f ↦ rw (f) (stop_rule-running_other n k s v (λ p. ground (arith, same_text_iff n k)))
  ]

  pub stop_rule-IsValid : (n : String) (s : Supervisor Value) → IsValid s → IsValid (stop_rule n s)
  unfolding stop_rule
  stop_rule-IsValid n s h = elim (Option-cases (flag_of n s.rule_shutdowns)) [
    | inl e ↦ rw (stop_rule, e) h
    | inr (f, e) ↦
        rw (stop_rule, e) ((raise-IsFlagged f s.rule_shutdowns s.next_flag s.threads h.0, h.1))
  ]

  pub start_single_rule-running :
      (k : String) (r : RuleConfig Value) (s : Supervisor Value)
      → running k (start_single_rule r s)
        ≡ (if same_text r.name k then r ∷ running k s else running k s)
  unfolding start_single_rule running_of
  start_single_rule-running k r s = refl

  -- A rule is started only under a name that nothing runs under.
  IsFlagged-start :
      (r : RuleConfig Value) (m : List (String × ℕ)) (next : ℕ) (ts : List (Thread Value))
      → running_of r.name ts ≡ []
      → All (IsFlagged m next) ts
      → All (IsFlagged ((r.name, next) ∷ m) (suc next)) ts
  unfolding running_of flag_of
  IsFlagged-start r m next [] e h = tt
  IsFlagged-start r m next (t ∷ ts) e (h, hs) = (
    (
      ground (arith, h.0),
      λ live.
          ground
            (arith, h.1 live, same_text_iff r.name t.rule.name, same_text_iff t.rule.name r.name),
      λ n g. ground (arith, h.0, h.2 n, same_text_iff r.name n),
    ),
    IsFlagged-start r m next ts (ground (arith)) hs,
  )

  pub start_single_rule-IsValid :
      (r : RuleConfig Value) (s : Supervisor Value)
      → IsValid s
      → running r.name s ≡ []
      → IsValid (start_single_rule r s)
  unfolding start_single_rule flag_of
  start_single_rule-IsValid r s h e = (
    (
      (
        omega arith,
        λ live. ground (arith, same_text_iff r.name r.name),
        λ n g. ground (arith, h.1 n s.next_flag, same_text_iff r.name n),
      ),
      IsFlagged-start r s.rule_shutdowns s.next_flag s.threads e h.0,
    ),
    λ n f g. ground (arith, h.1 n f, same_text_iff r.name n),
  )
