-- ===== src/Gateway/Endpoints.antt =====
-- gateway/src/interfaces/manager.rs: the registry of live endpoints of `InterfaceManager`. An owner key
-- is a text in the code; here it is of any type with a decidable equality. `stopped` lists the
-- endpoints whose shutdown flag was set, in the order of the stores.
pub mod Quota
pub mod Identifiers
use scg.Base.{
  ◌^◌, ℕ_discrete, ◌%◌, ℕ, Bool, true, false, not, ◌&&◌, ◌||◌, ◌==◌, ltb, leb, ◌+◌, Option, none,
  some, List, [], ◌∷◌, if◌then◌else◌, Result, ok, err,
}
use scg.Base.AssocMap.{get, insert, remove}

pub record LiveEndpoint (Key : Type 0) : Type 0 where
  pub owner_uid : ℕ
  pub owner_key : Key

pub record LiveState (Key : Type 0) : Type 0 where
  pub next_id : ℕ
  pub by_id : List (ℕ × LiveEndpoint Key)
  pub by_owner : List (Key × ℕ)
  pub stopped : List (LiveEndpoint Key)

pub data Status : Type 0 where
  resource_exhausted not_found permission_denied : Status

-- How many of the endpoints belong to a user: `values().filter(...).count()`.
unfoldable pub owned : {Key : Type 0} → ℕ → List (ℕ × LiveEndpoint Key) → ℕ
owned uid [] = 0
owned uid ((id, ep) ∷ m) = (if ep.owner_uid == uid then 1 else 0) + owned uid m

module _ {Key : Type 0} (eq : Discrete Key) where
  abbrev detached : LiveState Key → ℕ → Option (LiveEndpoint Key) → LiveState Key
  detached s id none = s
  detached s id (some ep) = record s {
    by_id = remove ℕ_discrete id s.by_id;
    stopped = ep ∷ s.stopped;
  }

  unfoldable pub detach_endpoint : ℕ → LiveState Key → LiveState Key
  unfolding get remove
  detach_endpoint id s = detached s id (get ℕ_discrete id s.by_id)

  abbrev has_owner : Option ℕ → Bool
  has_owner none = false
  has_owner (some id) = true

  abbrev pub detach_replaced : Option ℕ → LiveState Key → LiveState Key
  detach_replaced none s = s
  detach_replaced (some old_id) s = detach_endpoint old_id s

  -- What happens under the lock: the state, and the old identifier of the key, or the refusal.
  unfoldable pub register_locked :
      ℕ → ℕ → Key → LiveEndpoint Key → LiveState Key → LiveState Key × Result (Option ℕ) Status
  unfolding owned get insert
  register_locked max_endpoints_per_uid id owner_key ep s =
      if ltb 0 max_endpoints_per_uid
        && not (has_owner (get eq owner_key s.by_owner))
        && leb max_endpoints_per_uid (owned ep.owner_uid s.by_id % 2 ^ 32)
      then (record s { stopped = ep ∷ s.stopped }, err resource_exhausted)
      else (
        record s {
          by_owner = insert eq owner_key id s.by_owner;
          by_id = insert ℕ_discrete id ep s.by_id;
        },
        ok (get eq owner_key s.by_owner),
      )

  -- `others` is what other threads do between the release of the lock and the detachment.
  abbrev pub finish :
      (LiveState Key → LiveState Key)
      → LiveState Key × Result (Option ℕ) Status
      → LiveState Key × Result (Unit {0}) Status
  finish others (s, err status) = (s, err status)
  finish others (s, ok replaced) = (detach_replaced replaced (others s), ok tt)

  unfoldable pub register_or_replace :
      (LiveState Key → LiveState Key)
      → ℕ
      → ℕ
      → Key
      → LiveEndpoint Key
      → LiveState Key
      → LiveState Key × Result (Unit {0}) Status
  unfolding register_locked detach_endpoint
  register_or_replace others max_endpoints_per_uid id owner_key ep s =
      finish others (register_locked max_endpoints_per_uid id owner_key ep s)

  abbrev close_found :
      ℕ → ℕ → LiveState Key → Option (LiveEndpoint Key) → LiveState Key × Result (Unit {0}) Status
  close_found caller id s none = (s, err not_found)
  close_found caller id s (some ep) =
      if not (ep.owner_uid == caller) then (s, err permission_denied) else (
        record s {
          by_id = remove ℕ_discrete id s.by_id;
          by_owner = remove eq ep.owner_key s.by_owner;
          stopped = ep ∷ s.stopped;
        },
        ok tt,
      )

  unfoldable pub close : ℕ → ℕ → LiveState Key → LiveState Key × Result (Unit {0}) Status
  unfolding get remove
  close caller id s = close_found caller id s (get ℕ_discrete id s.by_id)
