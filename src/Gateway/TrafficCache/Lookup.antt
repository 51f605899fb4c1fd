-- ===== src/Gateway/TrafficCache/Lookup.antt =====
-- gateway/src/processing/cache.rs: `get` after `insert`.
use scg.Base.{
  ℕ, ◌-◌, ◌≡◌, ◌≢◌, ◌⊎◌, inl, inr, refl, sym, ◌∙◌, Option-cases, none, some, List, [], ◌∷◌, arith,
  ltb, if◌then◌else◌,
}
use scg.Base.AssocMap.{
  get as map_get, insert as map_insert, remove, get-insert_same, get-insert_other, get-remove_same,
  get-remove_other,
}
use scg.Gateway.Policy.{TrafficClass}
use scg.Gateway.TrafficCache.{
  CacheKey, CacheKey-discrete, CacheEntry, TrafficCache, evict, make_room, insert, get,
}

module _ {Text : Type 0} where
  -- A lookup in what is left of a map finds what the map had, or nothing.
  abbrev Kept :
      CacheKey → List (CacheKey × CacheEntry Text) → List (CacheKey × CacheEntry Text) → Type 0
  Kept j m' m =
      (map_get CacheKey-discrete j m' ≡ map_get CacheKey-discrete j m)
      ⊎ (map_get CacheKey-discrete j m' ≡ none)

  remove-Kept :
      (k j : CacheKey) (m : List (CacheKey × CacheEntry Text))
      → Kept j (remove CacheKey-discrete k m) m
  remove-Kept k j m = elim (CacheKey-discrete j k) [
    | yes same ↦ inr (rw same (get-remove_same CacheKey-discrete k m))
    | no other ↦ inl (get-remove_other CacheKey-discrete k j m other)
  ]

  evict-Kept :
      (n : ℕ) (j : CacheKey) (m : List (CacheKey × CacheEntry Text)) (order : List (CacheKey × ℕ))
      → Kept j (evict n m order).0 m
  unfolding evict
  evict-Kept n j m [] = inl refl
  evict-Kept n j m ((k, t) ∷ order) =
      let gone = evict-Kept n j (remove CacheKey-discrete k m) order in
      let same = evict-Kept n j m order in ground (arith, gone, same, remove-Kept k j m)

  make_room-Kept : (c : TrafficCache Text) (key j : CacheKey) → Kept j (make_room c key).0 c.map
  unfolding make_room
  make_room-Kept c key j = elim (Option-cases (map_get CacheKey-discrete key c.map)) [
    | inl absent ↦ rw (make_room, absent) (evict-Kept c.max_entries j c.map c.order)
    | inr (old, found) ↦ rw (make_room, found) (inl refl)
  ]

  -- What was inserted is found until its time to live is over, and then no longer.
  pub get-insert :
      (now later : ℕ) (c : TrafficCache Text) (key : CacheKey) (traffic_id : ℕ) (app_id : Text)
      (traffic_class : TrafficClass)
      → get later (insert now c key traffic_id app_id traffic_class) key ≡ (
          if ltb (later - now) c.ttl
          then some (record {
            traffic_id = traffic_id;
            app_id = app_id;
            traffic_class = traffic_class;
            inserted_at = now;
          })
          else none)
  unfolding get insert
  get-insert now later c key traffic_id app_id traffic_class =
      rw
        (
          get,
          get-insert_same CacheKey-discrete key
              (record {
                traffic_id = traffic_id;
                app_id = app_id;
                traffic_class = traffic_class;
                inserted_at = now;
              })
              (make_room c key).0,
        )
        refl

  -- An insertion never changes what a lookup of another key finds: it finds the same, or the entry was
  -- evicted and it finds nothing.
  pub get-insert_beside :
      (now later : ℕ) (c : TrafficCache Text) (key j : CacheKey) (traffic_id : ℕ) (app_id : Text)
      (traffic_class : TrafficClass)
      → j ≢ key
      → (get later (insert now c key traffic_id app_id traffic_class) j ≡ get later c j)
        ⊎ (get later (insert now c key traffic_id app_id traffic_class) j ≡ none)
  unfolding get insert
  get-insert_beside now later c key j traffic_id app_id traffic_class other =
      elim (make_room-Kept c key j) [
        | inl same ↦ inl (rw (get, beside, same) refl)
        | inr gone ↦ inr (rw (get, beside, gone) refl)
      ]
    where
      fresh : CacheEntry Text
      fresh = record {
        traffic_id = traffic_id;
        app_id = app_id;
        traffic_class = traffic_class;
        inserted_at = now;
      }

      beside :
          map_get CacheKey-discrete j (map_insert CacheKey-discrete key fresh (make_room c key).0)
          ≡ map_get CacheKey-discrete j (make_room c key).0
      beside = get-insert_other CacheKey-discrete key j fresh (make_room c key).0 other

  -- Every entry after an insertion is the inserted one or was there before.
  pub insert-entries :
      (now : ℕ) (c : TrafficCache Text) (key j : CacheKey) (traffic_id : ℕ) (app_id : Text)
      (traffic_class : TrafficClass) {e : CacheEntry Text}
      → map_get CacheKey-discrete j (insert now c key traffic_id app_id traffic_class).map ≡ some e
      → ((j ≡ key) × (e.app_id ≡ app_id) × (e.traffic_class ≡ traffic_class))
        ⊎ (map_get CacheKey-discrete j c.map ≡ some e)
  unfolding insert
  insert-entries now c key j traffic_id app_id traffic_class {e} found =
      elim (CacheKey-discrete j key) [
        | yes same ↦
            ground
              (arith, same, found, get-insert_same CacheKey-discrete key fresh (make_room c key).0)
        | no other ↦ elim (make_room-Kept c key j) [
          | inl kept ↦ inr (
              sym kept
              ∙ sym (get-insert_other CacheKey-discrete key j fresh (make_room c key).0 other)
              ∙ found)
          | inr gone ↦ absurd (
              ground (
                arith,
                gone,
                get-insert_other CacheKey-discrete key j fresh (make_room c key).0 other,
                found,
              ))
        ]
      ]
    where
      fresh : CacheEntry Text
      fresh = record {
        traffic_id = traffic_id;
        app_id = app_id;
        traffic_class = traffic_class;
        inserted_at = now;
      }
