-- ===== src/Gateway/Config/Diff/Buckets.antt =====
-- gateway/src/management/config.rs: which rule the buckets of a diff hold under a name.
use scg.Base.{
  ap, inr, inl, Bool, true, false, not, ◌&&◌, none, some, List, [], ◌∷◌, if◌then◌else◌, ◌≡◌, refl,
  arith, Option-cases, Bool-cases,
}
use Prim.Native.String.{String}
use scg.Base.Texts.{same_text, same_text_iff, any_of}
use scg.Gateway.Config.{RuleConfig}
use scg.Gateway.Config.Rule.{reload_differs}
use scg.Gateway.Config.Diff.{rule_by_name, has_name, removed_names, added_rules, changed_rules}

module _ {Value : Type 0} where
  -- No two rules have the same name.
  abbrev pub HasUniqueNames : List (RuleConfig Value) → Type 0
  HasUniqueNames [] = Unit
  HasUniqueNames (r ∷ rs) = (has_name r.name rs ≡ false) × HasUniqueNames rs

  pub rule_by_name-none :
      (n : String) (rs : List (RuleConfig Value)) → has_name n rs ≡ false → rule_by_name n rs ≡ none
  unfolding rule_by_name
  rule_by_name-none n [] h = refl
  rule_by_name-none n (r ∷ rs) h = ground (arith, rule_by_name-none n rs)

  pub has_name-rule_by_name :
      (n : String) (rs : List (RuleConfig Value))
      → has_name n rs ≡ true
      → (r : RuleConfig Value) × (rule_by_name n rs ≡ some r) × (r.name ≡ n)
  unfolding rule_by_name
  has_name-rule_by_name n [] h = absurd (ground arith)
  has_name-rule_by_name n (r ∷ rs) h = elim (Bool-cases (has_name n rs)) [
    | inl e ↦ let (q, f, g) = has_name-rule_by_name n rs e in (q, ground arith, g)
    | inr e ↦ (r, ground (arith, rule_by_name-none n rs e), ground (arith, same_text_iff r.name n))
  ]

  pub has_name-eq-false :
      (n : String) (rs : List (RuleConfig Value)) → rule_by_name n rs ≡ none → has_name n rs ≡ false
  unfolding rule_by_name
  has_name-eq-false n [] h = refl
  has_name-eq-false n (r ∷ rs) h = ground (arith, has_name-eq-false n rs)

  pub has_name-eq-true :
      (n : String) (rs : List (RuleConfig Value)) {r : RuleConfig Value}
      → rule_by_name n rs ≡ some r
      → has_name n rs ≡ true
  unfolding rule_by_name
  has_name-eq-true n [] h = absurd (ground arith)
  has_name-eq-true n (q ∷ rs) {r} h = ground (arith, has_name-eq-true n rs {r = r})

  pub rule_by_name-name :
      (n : String) (rs : List (RuleConfig Value)) {r : RuleConfig Value}
      → rule_by_name n rs ≡ some r
      → r.name ≡ n
  unfolding rule_by_name
  rule_by_name-name n [] e = ground arith
  rule_by_name-name n (q ∷ rs) {r} e =
      ground (arith, rule_by_name-name n rs {r = r}, same_text_iff q.name n)

  pub removed_names-has :
      (n : String) (new old : List (RuleConfig Value))
      → any_of (λ m. same_text m n) (removed_names new old) ≡ has_name n old && not (has_name n new)
  unfolding removed_names
  removed_names-has n new [] = refl
  removed_names-has n new (r ∷ rs) = elim (Bool-cases (same_text r.name n)) [
    | inl f ↦
        ground (
          arith,
          removed_names-has n new rs,
          ap (λ m. has_name m new) ((same_text_iff r.name n).0 f),
        )
    | inr f ↦ ground (arith, removed_names-has n new rs)
  ]

  -- A rule is added under a name that the old configuration does not have.
  pub added_rules-by_name :
      (n : String) (old new : List (RuleConfig Value))
      → rule_by_name n (added_rules old new)
        ≡ elim (rule_by_name n old) [ none ↦ rule_by_name n new | some o ↦ none ]
  unfolding added_rules rule_by_name
  added_rules-by_name n old [] = ground arith
  added_rules-by_name n old (r ∷ rs) = elim (Bool-cases (same_text r.name n)) [
    | inl f ↦ ground (
      arith,
      added_rules-by_name n old rs,
      ap (λ m. rule_by_name m old) ((same_text_iff r.name n).0 f),
    )
    | inr f ↦ ground (arith, added_rules-by_name n old rs)
  ]

  has_name-added_rules :
      (n : String) (old new : List (RuleConfig Value))
      → has_name n new ≡ false
      → has_name n (added_rules old new) ≡ false
  unfolding added_rules
  has_name-added_rules n old [] h = refl
  has_name-added_rules n old (r ∷ rs) h = ground (arith, has_name-added_rules n old rs)

  pub added_rules-HasUniqueNames :
      (old new : List (RuleConfig Value))
      → HasUniqueNames new
      → HasUniqueNames (added_rules old new)
  unfolding added_rules
  added_rules-HasUniqueNames old [] h = tt
  added_rules-HasUniqueNames old (r ∷ rs) (h, hs) = elim (Option-cases (rule_by_name r.name old)) [
    | inl e ↦
        rw (added_rules, e)
          ((has_name-added_rules r.name old rs h, added_rules-HasUniqueNames old rs hs))
    | inr (o, e) ↦ rw (added_rules, e) (added_rules-HasUniqueNames old rs hs)
  ]

  module _ (same_params : List (String × Value) → List (String × Value) → Bool) where
    -- What the changed rules hold under a name: the new rule, where it differs from the old one.
    pub changed_rules-by_name :
        (n : String) (old new : List (RuleConfig Value))
        → HasUniqueNames new
        → rule_by_name n (changed_rules same_params old new) ≡ elim (rule_by_name n new) [
          | none ↦ none
          | some r ↦ elim (rule_by_name n old) [
            | none ↦ none
            | some o ↦ if reload_differs same_params o r then some r else none
          ]
        ]
    unfolding changed_rules rule_by_name
    changed_rules-by_name n old [] h = refl
    changed_rules-by_name n old (r ∷ rs) (h, hs) = elim (Bool-cases (same_text r.name n)) [
      | inl f ↦ ground (
        arith,
        changed_rules-by_name n old rs hs,
        rule_by_name-none r.name rs h,
        ap (λ m. rule_by_name m rs) ((same_text_iff r.name n).0 f),
        ap (λ m. rule_by_name m old) ((same_text_iff r.name n).0 f),
      )
      | inr f ↦ ground (arith, changed_rules-by_name n old rs hs)
    ]
