-- ===== src/Gateway/SessionStore.antt =====
-- gateway/src/security/tls_engine/session_cache.rs: the bounded store of TLS sessions. Keys and
-- sessions are opaque: their types are parameters, a key with its equality.
pub mod Bounded
use scg.Base.{ℕ, Option, none, some, List, [], ◌∷◌, ◌++◌, length, ltb, if◌then◌else◌}
use scg.Base.AssocMap.{get as map_get, insert as map_insert, remove}

abbrev pub max_cached_sessions : ℕ
max_cached_sessions = 256

pub record SessionStore (Key Der : Type 0) : Type 0 where
  pub map : List (Key × Der)
  pub order : List Key

module _ {Key Der : Type 0} (eq : Discrete Key) where
  -- The `while` loop over the queue.
  unfoldable pub trim : List (Key × Der) → List Key → List (Key × Der) × List Key
  trim m [] = (m, [])
  trim m (evicted ∷ order) =
      let rest = trim (remove eq evicted m) order in
      if ltb max_cached_sessions (length (evicted ∷ order)) then rest else (m, evicted ∷ order)

  unfoldable pub insert : SessionStore Key Der → Key → Der → SessionStore Key Der
  insert s key der = elim (map_get eq key s.map) [
    | some old ↦ record s { map = map_insert eq key der s.map }
    | none ↦
        let (m, order) = trim (map_insert eq key der s.map) (s.order ++ key ∷ []) in
        record { map = m; order = order }
  ]

  unfoldable pub get : SessionStore Key Der → Key → Option Der
  get s key = map_get eq key s.map
