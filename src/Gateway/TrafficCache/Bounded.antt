-- ===== src/Gateway/TrafficCache/Bounded.antt =====
-- gateway/src/processing/cache.rs: the capacity of `TrafficCache`, and its map against its queue.
use scg.Base.{
  Any-append_left, Any-append_last, ℕ, ◌≤◌, ◌<◌, ◌≡◌, ◌≢◌, ◌⊎◌, inl, inr, sym, ap, ◌∙◌, false,
  Bool-cases, Option-cases, none, some, List, [], ◌∷◌, Any, arith, length, leb, if◌then◌else◌,
}
use scg.Base.AssocMap.{
  get as map_get, insert as map_insert, remove, get-insert_same, get-insert_other, get-remove_same,
  get-remove_other, length-insert_le, length-insert_present, empty_of_none,
}
use scg.Gateway.Policy.{TrafficClass}
use scg.Gateway.TrafficCache.{
  CacheKey, CacheKey-discrete, CacheEntry, TrafficCache, is_live, evict, make_room, insert, new,
  clear,
}

abbrev stamp : CacheKey → ℕ → CacheKey × ℕ
stamp k t = (k, t)

module _ {Text : Type 0} where
  -- Every entry of the map stands in the queue, with the time it was inserted at.
  abbrev pub Queued : List (CacheKey × CacheEntry Text) → List (CacheKey × ℕ) → Type 0
  Queued m order =
      (k : CacheKey) (e : CacheEntry Text)
      → map_get CacheKey-discrete k m ≡ some e
      → Any (λ q. q ≡ (k, e.inserted_at)) order

  -- A capacity of 0 still holds the entry that was inserted last.
  pub record IsValid (c : TrafficCache Text) : Type 0 where
    pub queued : Queued c.map c.order
    pub bounded : (length c.map ≤ c.max_entries) ⊎ (length c.map ≤ 1)

  Queued-nil : (m : List (CacheKey × CacheEntry Text)) → Queued m [] → m ≡ []
  Queued-nil m h = empty_of_none CacheKey-discrete m missing
    where
      missing : (k : CacheKey) → map_get CacheKey-discrete k m ≡ none
      missing k = elim (Option-cases (map_get CacheKey-discrete k m)) [
        | inl e ↦ e
        | inr (e, found) ↦ absurd (h k e found)
      ]

  -- Taking the queue's front keeps the rest of the queue in step with what is left of the map.
  Queued-pop :
      (m : List (CacheKey × CacheEntry Text)) (k : CacheKey) (t : ℕ) (order : List (CacheKey × ℕ))
      → Queued m ((k, t) ∷ order)
      → Queued
          (if is_live (map_get CacheKey-discrete k m) t then remove CacheKey-discrete k m else m)
          order
  Queued-pop m k t order h = elim (Bool-cases (is_live (map_get CacheKey-discrete k m) t)) [
    | inl live ↦ rw live (λ j e found. elim (CacheKey-discrete j k) [
      | yes same ↦ absurd (ground (arith, same, found, get-remove_same CacheKey-discrete k m))
      | no other ↦
          behind j e (λ q. other (sym (ap (λ (x : CacheKey × ℕ). x.0) q)))
            (h j e (sym (get-remove_other CacheKey-discrete k j m other) ∙ found))
    ])
    | inr dead ↦ rw dead (λ j e found. behind j e (stale j e found dead) (h j e found))
  ]
    where
      behind :
          (j : CacheKey) (e : CacheEntry Text)
          → stamp k t ≢ stamp j e.inserted_at
          → Any (λ q. q ≡ (j, e.inserted_at)) ((k, t) ∷ order)
          → Any (λ q. q ≡ (j, e.inserted_at)) order
      behind j e ne (inl a) = absurd (ne a)
      behind j e ne (inr b) = b

      stale :
          (j : CacheKey) (e : CacheEntry Text)
          → map_get CacheKey-discrete j m ≡ some e
          → is_live (map_get CacheKey-discrete k m) t ≡ false
          → stamp k t ≢ stamp j e.inserted_at
      stale j e found dead q =
          ground
            (arith, found, dead, ap (λ (x : CacheKey × ℕ). x.0) q, ap (λ (x : CacheKey × ℕ). x.1) q)

  -- In step, and below the capacity unless there is nothing left.
  abbrev Evicted : ℕ → List (CacheKey × CacheEntry Text) × List (CacheKey × ℕ) → Type 0
  Evicted n r = Queued r.0 r.1 × ((length r.0 < n) ⊎ (r.0 ≡ []))

  evict-Evicted :
      (n : ℕ) (m : List (CacheKey × CacheEntry Text)) (order : List (CacheKey × ℕ))
      → Queued m order
      → Evicted n (evict n m order)
  unfolding evict
  evict-Evicted n m [] h = (h, inr (Queued-nil m h))
  evict-Evicted n m ((k, t) ∷ order) h =
      let rest =
        evict-Evicted n
          (if is_live (map_get CacheKey-discrete k m) t then remove CacheKey-discrete k m else m)
          order (Queued-pop m k t order h) in
      elim (Bool-cases (leb n (length m))) [
        | inl full ↦ rw full rest
        | inr below ↦ rw below (h, inl (ground arith))
      ]

  -- Room is made: in step, and with the new key the map is within its capacity.
  make_room-bounded :
      (c : TrafficCache Text) (key : CacheKey) (e : CacheEntry Text)
      → IsValid c
      → Queued (make_room c key).0 (make_room c key).1
        × ((length (map_insert CacheKey-discrete key e (make_room c key).0) ≤ c.max_entries)
            ⊎ (length (map_insert CacheKey-discrete key e (make_room c key).0) ≤ 1))
  unfolding make_room
  make_room-bounded c key e h = elim (Option-cases (map_get CacheKey-discrete key c.map)) [
    | inl absent ↦
        rw (make_room, absent)
          (
            (evict-Evicted c.max_entries c.map c.order h.queued).0,
            elim (evict-Evicted c.max_entries c.map c.order h.queued).1 [
              | inl room ↦ inl (
                  omega (
                    arith,
                    room,
                    length-insert_le CacheKey-discrete key e (evict c.max_entries c.map c.order).0,
                  ))
              | inr empty ↦ inr (rw empty (length-insert_le CacheKey-discrete key e []))
            ],
          )
    | inr (old, found) ↦
        rw (make_room, found)
          (h.queued, rw (length-insert_present CacheKey-discrete key e c.map found) h.bounded)
  ]

  -- An insertion into a valid cache keeps it within its capacity and every entry in the queue.
  pub insert-IsValid :
      (now : ℕ) (c : TrafficCache Text) (key : CacheKey) (traffic_id : ℕ) (app_id : Text)
      (traffic_class : TrafficClass)
      → IsValid c
      → IsValid (insert now c key traffic_id app_id traffic_class)
  unfolding insert
  insert-IsValid now c key traffic_id app_id traffic_class h =
      let (queued, bounded) = make_room-bounded c key fresh h in
      record {
        queued = λ k e found. elim (CacheKey-discrete k key) [
          | yes same ↦
              Any-append_last (λ q. q ≡ stamp k e.inserted_at) (make_room c key).1 (key, now)
                (ground (
                  arith,
                  same,
                  found,
                  get-insert_same CacheKey-discrete key fresh (make_room c key).0,
                ))
          | no other ↦
              Any-append_left (λ q. q ≡ stamp k e.inserted_at) (make_room c key).1 ((key, now) ∷ [])
                (queued k e (
                  sym (get-insert_other CacheKey-discrete key k fresh (make_room c key).0 other)
                  ∙ found))
        ];
        bounded = bounded;
      }
    where
      fresh : CacheEntry Text
      fresh = record {
        traffic_id = traffic_id;
        app_id = app_id;
        traffic_class = traffic_class;
        inserted_at = now;
      }

  -- A new cache is within its capacity, and so is one that was cleared.
  pub new-IsValid : (max_entries ttl_secs : ℕ) → IsValid (new {Text = Text} max_entries ttl_secs)
  unfolding new map_get
  new-IsValid max_entries ttl_secs = record {
    queued = λ k e found. absurd (ground (arith, found));
    bounded = inr (omega arith);
  }

  pub clear-IsValid : (c : TrafficCache Text) → IsValid (clear c)
  unfolding clear map_get
  clear-IsValid c = record {
    queued = λ k e found. absurd (ground (arith, found));
    bounded = inr (omega arith);
  }
