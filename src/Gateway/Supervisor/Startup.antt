-- ===== src/Gateway/Supervisor/Startup.antt =====
-- gateway/src/processing/mod.rs: what runs after `start_rules`.
use scg.Base.{
  ap, inr, inl, true, false, none, some, List, [], ◌∷◌, if◌then◌else◌, ◌≡◌, refl, arith, Bool-cases,
}
use Prim.Native.String.{String}
use scg.Base.Texts.{same_text, same_text_iff}
use scg.Gateway.Config.{RuleConfig}
use scg.Gateway.Config.Diff.{rule_by_name, has_name}
use scg.Gateway.Config.Diff.Buckets.{HasUniqueNames, rule_by_name-none}
use scg.Gateway.Supervisor.{Supervisor, flag_of, is_local, start_single_rule, start_rules}
use scg.Gateway.Supervisor.Flags.{
  running, running_of, IsValid, start_single_rule-running, start_single_rule-IsValid,
}

module _ {Value : Type 0} where
  -- The supervisor before any rule is started.
  abbrev pub idle_supervisor : Supervisor Value
  idle_supervisor = record { rule_shutdowns = []; threads = []; next_flag = 0 }

  still_free :
      (r : RuleConfig Value) (rs : List (RuleConfig Value)) (s : Supervisor Value)
      → has_name r.name rs ≡ false
      → ((n : String) → has_name n (r ∷ rs) ≡ true → running n s ≡ [])
      → (n : String) → has_name n rs ≡ true
      → running n (if is_local r then s else start_single_rule r s) ≡ []
  still_free r rs s u free n h = elim (Bool-cases (same_text r.name n)) [
    | inl f ↦ absurd (ground (arith, ap (λ m. has_name m rs) ((same_text_iff r.name n).0 f)))
    | inr f ↦ ground (arith, start_single_rule-running n r s, free n)
  ]

  started_IsValid :
      (r : RuleConfig Value) (s : Supervisor Value)
      → IsValid s
      → running r.name s ≡ []
      → IsValid (if is_local r then s else start_single_rule r s)
  started_IsValid r s v quiet = elim (Bool-cases (is_local r)) [
    | inl e ↦ rw (e) v
    | inr e ↦ rw (e) (start_single_rule-IsValid r s v quiet)
  ]

  start_rules-lem :
      (k : String) (rs : List (RuleConfig Value)) (s : Supervisor Value)
      → IsValid s
      → HasUniqueNames rs
      → ((n : String) → has_name n rs ≡ true → running n s ≡ [])
      → IsValid (start_rules rs s)
        × (running k (start_rules rs s) ≡ elim (rule_by_name k rs) [
          | none ↦ running k s
          | some r ↦ if is_local r then [] else r ∷ []
        ])
  unfolding start_rules rule_by_name
  start_rules-lem k [] s v u free = (v, refl)
  start_rules-lem k (r ∷ rs) s v (u, us) free =
      let quiet = free r.name (ground (arith, same_text_iff r.name r.name)) in
      let next : Supervisor Value = (if is_local r then s else start_single_rule r s) in
      let (w, e) =
        start_rules-lem k rs next (started_IsValid r s v quiet) us (still_free r rs s u free) in
      (
        w,
        elim (Bool-cases (same_text r.name k)) [
          | inl f ↦ ground (
            arith,
            e,
            start_single_rule-running k r s,
            free k,
            rule_by_name-none r.name rs u,
            ap (λ m. rule_by_name m rs) ((same_text_iff r.name k).0 f),
          )
          | inr f ↦ ground (arith, e, start_single_rule-running k r s)
        ],
      )

  -- After startup, each rule of a configuration with unique names runs once under its name, except the
  -- rules for local interfaces; under another name nothing runs. The flags are as a reload needs them.
  pub start_rules-running :
      (rs : List (RuleConfig Value)) (k : String)
      → HasUniqueNames rs
      → IsValid (start_rules rs idle_supervisor)
        × (running k (start_rules rs idle_supervisor)
            ≡ elim (rule_by_name k rs) [ none ↦ [] | some r ↦ if is_local r then [] else r ∷ [] ])
  unfolding running_of flag_of
  start_rules-running rs k u =
      start_rules-lem k rs idle_supervisor (tt, λ n f e. absurd (ground arith)) u (λ n e. refl)
