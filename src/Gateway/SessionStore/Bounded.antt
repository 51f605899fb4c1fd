-- ===== src/Gateway/SessionStore/Bounded.antt =====
-- gateway/src/security/tls_engine/session_cache.rs: the bound of `SessionStore`, and its map against its
-- queue.
use scg.Base.{
  subst, ◌≤◌, ◌≡◌, ◌≢◌, ◌⊎◌, inl, inr, refl, sym, ap, ◌∙◌, Option-cases, none, some, List, [], ◌∷◌,
  ◌++◌, Any, Any-append_left, Any-append_last, arith, length, length-append, dec_le,
}
use scg.Base.AssocMap.{
  get as map_get, insert as map_insert, remove, get-insert_same, get-insert_other, get-remove_same,
  get-remove_other,
}
use scg.Gateway.SessionStore.{SessionStore, max_cached_sessions, trim, insert, get}

module _ {Key : Type 0} where
  -- No key stands twice.
  abbrev pub Distinct : List Key → Type 0
  Distinct [] = Unit
  Distinct (k ∷ ks) = (¬ Any (λ j. j ≡ k) ks) × Distinct ks

  Any-append :
      (k key : Key) (xs : List Key)
      → Any (λ j. j ≡ k) (xs ++ key ∷ [])
      → Any (λ j. j ≡ k) xs ⊎ (key ≡ k)
  Any-append k key [] (inl h) = inr h
  Any-append k key [] (inr h) = absurd h
  Any-append k key (x ∷ xs) (inl h) = inl (inl h)
  Any-append k key (x ∷ xs) (inr h) = elim (Any-append k key xs h) [
    | inl a ↦ inl (inr a)
    | inr b ↦ inr b
  ]

  Distinct-append :
      (xs : List Key) (key : Key)
      → Distinct xs
      → ¬ Any (λ j. j ≡ key) xs
      → Distinct (xs ++ key ∷ [])
  Distinct-append [] key d h = ((λ f. f), tt)
  Distinct-append (x ∷ xs) key d h = (
    λ f. elim (Any-append x key xs f) [ inl a ↦ d.0 a | inr e ↦ h (inl (sym e)) ],
    Distinct-append xs key d.1 (λ a. h (inr a)),
  )

module _ {Key Der : Type 0} (eq : Discrete Key) where
  trim_short :
      (m : List (Key × Der)) (order : List Key)
      → length order ≤ max_cached_sessions
      → trim eq m order ≡ (m, order)
  unfolding trim
  trim_short m [] h = refl
  trim_short m (k ∷ order) h = ground arith

  -- At most the oldest key goes.
  trim_cases :
      (m : List (Key × Der)) (order : List Key) (key : Key)
      → length order ≤ max_cached_sessions
      → ((trim eq m (order ++ key ∷ []) ≡ (m, order ++ key ∷ []))
          × (length (order ++ key ∷ []) ≤ max_cached_sessions))
        ⊎ ((old : Key) × (rest : List Key) × (order ≡ old ∷ rest)
            × (trim eq m (order ++ key ∷ []) ≡ (remove eq old m, rest ++ key ∷ [])))
  unfolding trim
  trim_cases m [] key h = inl (refl, omega arith)
  trim_cases m (old ∷ rest) key h =
      elim (dec_le (length ((old ∷ rest) ++ key ∷ [])) max_cached_sessions) [
        | yes fits ↦ inl (trim_short m ((old ∷ rest) ++ key ∷ []) fits, fits)
        | no over ↦ inr (
          old,
          rest,
          refl,
          ground (
            arith,
            trim_short (remove eq old m) (rest ++ key ∷ [])
                (omega (arith, length-append rest (key ∷ []))),
          ),
        )
      ]

  -- The queue lists the keys of the map, each once.
  pub record InStep (m : List (Key × Der)) (order : List Key) : Type 0 where
    pub queued : (k : Key) (v : Der) → map_get eq k m ≡ some v → Any (λ j. j ≡ k) order
    pub stored : (k : Key) → Any (λ j. j ≡ k) order → map_get eq k m ≢ none
    pub distinct : Distinct order

  -- In step, and within the bound.
  abbrev pub IsValid : SessionStore Key Der → Type 0
  IsValid s = InStep s.map s.order × (length s.order ≤ max_cached_sessions)

  -- The session of a key that is there is replaced.
  replace-InStep :
      (m : List (Key × Der)) (order : List Key) (key : Key) (der old : Der)
      → map_get eq key m ≡ some old
      → InStep m order
      → InStep (map_insert eq key der m) order
  replace-InStep m order key der old found h = record {
    queued = λ k v e. elim (eq k key) [
      | yes same ↦ rw same (h.queued key old found)
      | no other ↦ h.queued k v (sym (get-insert_other eq key k der m other) ∙ e)
    ];
    stored = λ k a e. elim (eq k key) [
      | yes same ↦ ground (arith, same, e, get-insert_same eq key der m)
      | no other ↦ h.stored k a (sym (get-insert_other eq key k der m other) ∙ e)
    ];
    distinct = h.distinct;
  }

  -- A new key goes to the end of the queue.
  append-InStep :
      (m : List (Key × Der)) (order : List Key) (key : Key) (der : Der)
      → map_get eq key m ≡ none
      → InStep m order
      → InStep (map_insert eq key der m) (order ++ key ∷ [])
  append-InStep m order key der absent h = record {
    queued = λ k v e. elim (eq k key) [
      | yes same ↦ Any-append_last (λ j. j ≡ k) order key (sym same)
      | no other ↦
          Any-append_left (λ j. j ≡ k) order (key ∷ [])
            (h.queued k v (sym (get-insert_other eq key k der m other) ∙ e))
    ];
    stored = λ k a e. elim (eq k key) [
      | yes same ↦ ground (arith, same, e, get-insert_same eq key der m)
      | no other ↦ elim (Any-append k key order a) [
        | inl b ↦ h.stored k b (sym (get-insert_other eq key k der m other) ∙ e)
        | inr c ↦ other (sym c)
      ]
    ];
    distinct = Distinct-append order key h.distinct (λ a. h.stored key a absent);
  }

  -- The oldest key leaves both.
  evict-InStep :
      (m : List (Key × Der)) (old : Key) (rest : List Key)
      → InStep m (old ∷ rest)
      → InStep (remove eq old m) rest
  evict-InStep m old rest h = record {
    queued = λ k v e. elim (eq k old) [
      | yes same ↦ absurd (ground (arith, same, e, get-remove_same eq old m))
      | no other ↦ elim (h.queued k v (sym (get-remove_other eq old k m other) ∙ e)) [
        | inl b ↦ absurd (other (sym b))
        | inr c ↦ c
      ]
    ];
    stored = λ k a e. elim (eq k old) [
      | yes same ↦ h.distinct.0 (subst (λ x. Any (λ j. j ≡ x) rest) same a)
      | no other ↦ h.stored k (inr a) (sym (get-remove_other eq old k m other) ∙ e)
    ];
    distinct = h.distinct.1;
  }

  -- A store in which the queue lists the stored keys, each once and at most 256, stays such a store
  -- under an insertion, and then holds the session that was inserted.
  pub store_insert-IsValid :
      (s : SessionStore Key Der) (key : Key) (der : Der)
      → IsValid s
      → IsValid (insert eq s key der) × (get eq (insert eq s key der) key ≡ some der)
  unfolding insert get
  store_insert-IsValid s key der (h, bound) = elim (Option-cases (map_get eq key s.map)) [
    | inr (old, found) ↦
        rw (insert, found)
          (
            (replace-InStep s.map s.order key der old found h, bound),
            get-insert_same eq key der s.map,
          )
    | inl absent ↦ elim (trim_cases (map_insert eq key der s.map) s.order key bound) [
      | inl (kept, fits) ↦
          rw (insert, absent, kept)
            ((append-InStep s.map s.order key der absent h, fits), get-insert_same eq key der s.map)
      | inr (old, rest, splits, gone) ↦
          rw (insert, absent, gone)
            (
              (
                evict-InStep (map_insert eq key der s.map) old (rest ++ key ∷ []) (
                    subst (λ o. InStep (map_insert eq key der s.map) (o ++ key ∷ [])) splits
                      (append-InStep s.map s.order key der absent h)),
                omega (arith, ap length splits, length-append rest (key ∷ []), bound),
              ),
              get-remove_other eq old key (map_insert eq key der s.map) (λ same.
                    h.stored key (subst (λ o. Any (λ j. j ≡ key) o) (sym splits) (inl (sym same)))
                      absent)
                  ∙ get-insert_same eq key der s.map,
            )
    ]
  ]
