-- ===== src/Gateway/TrafficCache.antt =====
-- gateway/src/processing/cache.rs: the bounded cache of classifications. A run of one call is one step,
-- as under its lock; `now` is the monotonic clock's reading, in nanoseconds.
pub mod Bounded
pub mod Lookup
use scg.Base.{
  ℕ, ◌+◌, ◌-◌, ◌*◌, ◌^◌, Bool, true, false, Option, none, some, List, [], ◌∷◌, ◌++◌, ◌≡◌,
  if◌then◌else◌, ltb, leb, ◌==◌, length, ℕ_discrete,
}
use scg.Base.AssocMap.{get as map_get, insert as map_insert, remove}
use scg.Gateway.AddressPattern.{SocketAddr, SocketAddr-discrete}
use scg.Gateway.Policy.{TrafficClass}

pub record CacheKey : Type 0 where
  pub src : SocketAddr
  pub dst : SocketAddr

pub CacheKey-discrete : Discrete CacheKey
CacheKey-discrete = hlevel SocketAddr-discrete

-- `app_id` is text that the cache only carries: its type is a parameter.
pub record CacheEntry (Text : Type 0) : Type 0 where
  pub traffic_id : ℕ
  pub app_id : Text
  pub traffic_class : TrafficClass
  pub inserted_at : ℕ

-- `CacheInner`, with the two fields of `TrafficCache` that never change.
pub record TrafficCache (Text : Type 0) : Type 0 where
  pub map : List (CacheKey × CacheEntry Text)
  pub order : List (CacheKey × ℕ)
  pub max_entries : ℕ
  pub ttl : ℕ

module _ {Text : Type 0} where
  unfoldable pub new : ℕ → ℕ → TrafficCache Text
  new max_entries ttl_secs = record {
    map = [];
    order = [];
    max_entries = max_entries;
    ttl = ttl_secs * 10 ^ 9;
  }

  -- `elapsed` saturates at 0.
  unfoldable pub get : ℕ → TrafficCache Text → CacheKey → Option (CacheEntry Text)
  get now c key = elim (map_get CacheKey-discrete key c.map) [
    | none ↦ none
    | some entry ↦ if ltb (now - entry.inserted_at) c.ttl then some entry else none
  ]

  -- `inner.map.get(&k).map(|e| e.inserted_at) == Some(queued_at)`
  abbrev pub is_live : Option (CacheEntry Text) → ℕ → Bool
  is_live none queued_at = false
  is_live (some e) queued_at = e.inserted_at == queued_at

  -- The `while` loop: it takes from the front of the queue until the map is below the capacity.
  unfoldable pub evict :
      ℕ
      → List (CacheKey × CacheEntry Text)
      → List (CacheKey × ℕ)
      → List (CacheKey × CacheEntry Text) × List (CacheKey × ℕ)
  evict max_entries m [] = (m, [])
  evict max_entries m ((k, queued_at) ∷ order) =
      let kept =
        if is_live (map_get CacheKey-discrete k m) queued_at
        then remove CacheKey-discrete k m
        else m in
      let rest = evict max_entries kept order in
      if leb max_entries (length m) then rest else (m, (k, queued_at) ∷ order)

  -- Eviction happens for a key that is not in the map.
  unfoldable pub make_room :
      TrafficCache Text → CacheKey → List (CacheKey × CacheEntry Text) × List (CacheKey × ℕ)
  make_room c key = elim (map_get CacheKey-discrete key c.map) [
    | none ↦ evict c.max_entries c.map c.order
    | some e ↦ (c.map, c.order)
  ]

  unfoldable pub insert :
      ℕ → TrafficCache Text → CacheKey → ℕ → Text → TrafficClass → TrafficCache Text
  insert now c key traffic_id app_id traffic_class =
      let (m, order) = make_room c key in
      record c {
        map =
            map_insert CacheKey-discrete key
              (record {
                traffic_id = traffic_id;
                app_id = app_id;
                traffic_class = traffic_class;
                inserted_at = now;
              })
              m;
        order = order ++ (key, now) ∷ [];
      }

  unfoldable pub clear : TrafficCache Text → TrafficCache Text
  clear c = record c { map = []; order = [] }
