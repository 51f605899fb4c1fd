-- ===== src/Gateway/Endpoints/Identifiers.antt =====
-- gateway/src/interfaces/manager.rs: `InterfaceManager::alloc_id`, with fuel for its loop.
use scg.Base.{
  ◌∙◌, inr, inl, ℕ, zero, suc, ltb, ◌+◌, ◌-◌, ◌≤◌, ◌<◌, ◌≡◌, ◌≢◌, refl, sym, arith, Option, none,
  some, List, [], ◌∷◌, if◌then◌else◌, length, Option-cases, ℕ_discrete,
}
use scg.Base.AssocMap.{length-remove_le, get, remove, get-remove_other}
use scg.Gateway.Endpoints.{LiveState}

-- `id.checked_add(1).unwrap_or(1).max(1)` on 32 bits.
unfoldable pub next : ℕ → ℕ
next id = if ltb (suc id) 4294967296 then suc id else 1

-- The identifier after a number of steps.
unfoldable pub steps : ℕ → ℕ → ℕ
unfolding next
steps zero id = id
steps (suc n) id = steps n (next id)

steps-eq :
    (n id : ℕ)
    → 1 ≤ id
    → id < 4294967296
    → n < 4294967295
    → steps n id ≡ (if ltb (n + id) 4294967296 then n + id else (n + id) - 4294967295)
unfolding steps next
steps-eq zero id low high few = ground arith
steps-eq (suc n) id low high few = ground (arith, steps-eq n (suc id), steps-eq n 1)

module _ {V : Type 0} where
  -- The first identifier that is free, within a number of steps.
  unfoldable pub free_id : ℕ → ℕ → List (ℕ × V) → Option ℕ
  unfolding next get
  free_id zero id m = elim (get ℕ_discrete id m) [ none ↦ some id | some ep ↦ none ]
  free_id (suc fuel) id m =
      let rest = free_id fuel (next id) m in
      elim (get ℕ_discrete id m) [ none ↦ some id | some ep ↦ rest ]

  length-remove_lt :
      (k : ℕ) (v : V) (m : List (ℕ × V))
      → get ℕ_discrete k m ≡ some v
      → length (remove ℕ_discrete k m) < length m
  unfolding get remove
  length-remove_lt k v [] h = absurd (ground (arith, h))
  length-remove_lt k v ((j, w) ∷ m) h =
      ground (arith, length-remove_lt k v m, length-remove_le ℕ_discrete k m)

  -- What the search visits does not depend on an identifier that it does not reach.
  free_id-remove :
      (fuel id x : ℕ) (m : List (ℕ × V)) (j : ℕ)
      → ((i : ℕ) → i ≤ fuel → steps i id ≢ x)
      → free_id fuel id (remove ℕ_discrete x m) ≡ some j
      → (free_id fuel id m ≡ some j) × (j ≢ x)
  unfolding free_id steps get
  free_id-remove zero id x m j apart e =
      ground (arith, e, apart 0 (omega arith), get-remove_other ℕ_discrete x id m)
  free_id-remove (suc fuel) id x m j apart e = ground (
    arith,
    e,
    apart 0 (omega arith),
    get-remove_other ℕ_discrete x id m,
    free_id-remove fuel (next id) x m j (λ i le. apart (suc i) (omega arith)),
  )

  -- Within as many steps as there are entries, the search finds an identifier that is free.
  free_id-found :
      (fuel id : ℕ) (m : List (ℕ × V))
      → 1 ≤ id
      → id < 4294967296
      → fuel < 4294967294
      → length m ≤ fuel
      → (j : ℕ) × (free_id fuel id m ≡ some j)
        × (get ℕ_discrete j m ≡ none)
        × (1 ≤ j)
        × (j < 4294967296)
  unfolding free_id steps next get
  free_id-found zero id [] low high few short = (id, refl, refl, low, high)
  free_id-found zero id (e ∷ m) low high few short = absurd (omega arith)
  free_id-found (suc fuel) id m low high few short = elim (Option-cases (get ℕ_discrete id m)) [
    | inl vacant ↦ (id, ground (arith, vacant), vacant, low, high)
    | inr (v, taken) ↦
        let (j, found, vacant, low', high') =
          free_id-found fuel (next id) (remove ℕ_discrete id m) (ground arith) (ground arith)
            (omega arith) (ground (arith, length-remove_lt id v m taken)) in
        let (same, apart) =
          free_id-remove fuel (next id) id m j
            (λ i le back. absurd (ground (arith, back, steps-eq (suc i) id low high))) found in
        (
          j,
          ground (arith, taken, same),
          sym (get-remove_other ℕ_discrete id j m apart) ∙ vacant,
          low',
          high',
        )
  ]

module _ {Key : Type 0} where
  abbrev allocated : LiveState Key → Option ℕ → Option (ℕ × LiveState Key)
  allocated s none = none
  allocated s (some id) = some (id, record s { next_id = next id })

  -- The loop gets as many steps as there are endpoints; none stands for a loop that needs more.
  unfoldable pub alloc_id : LiveState Key → Option (ℕ × LiveState Key)
  unfolding free_id next
  alloc_id s = allocated s (free_id (length s.by_id) s.next_id s.by_id)

  -- With fewer than 2^32 - 2 live endpoints and a counter from 1 to 2^32 - 1, the loop ends within as many
  -- steps as there are endpoints; the identifier is from 1 to 2^32 - 1 and not in use, and the counter
  -- stays in its range.
  pub alloc_id-found :
      (s : LiveState Key)
      → 1 ≤ s.next_id
      → s.next_id < 4294967296
      → length s.by_id < 4294967294
      → (id : ℕ) × (s' : LiveState Key) × (alloc_id s ≡ some (id, s'))
        × (get ℕ_discrete id s.by_id ≡ none)
        × (1 ≤ id)
        × (id < 4294967296)
        × (1 ≤ s'.next_id)
        × (s'.next_id < 4294967296)
  unfolding alloc_id next
  alloc_id-found s low high few =
      let (id, found, vacant, low', high') =
        free_id-found (length s.by_id) s.next_id s.by_id low high few (omega arith) in
      (
        id,
        record s { next_id = next id },
        ground (arith, found),
        vacant,
        low',
        high',
        ground arith,
        ground arith,
      )
