-- ===== src/Gateway/EndpointTests.antt =====
-- gateway/src/interfaces/manager.rs: runs on a small registry.
use scg.Base.{
  ℕ, ◌/◌, ◌≤◌, ◌<◌, ◌≡◌, refl, arith, List, [], ◌∷◌, Option, none, some, ok, err, ℕ_discrete, ◌≢◌,
}
use scg.Base.AssocMap.{get}
use scg.Gateway.Endpoints.{
  LiveEndpoint, LiveState, register_or_replace, close, resource_exhausted, permission_denied,
}
use scg.Gateway.Endpoints.Identifiers.{alloc_id, alloc_id-found}
use scg.Gateway.Endpoints.Quota.{IsValid, empty-IsValid, register_or_replace-IsValid, close-IsValid}

-- The key 71 is the second one of the user 7.
abbrev uid_of : ℕ → ℕ
uid_of key = key / 10

abbrev idle : LiveState ℕ
idle = record { next_id = 1; by_id = []; by_owner = []; stopped = [] }

abbrev endpoint : ℕ → LiveEndpoint ℕ
endpoint key = record { owner_uid = uid_of key; owner_key = key }

abbrev one_endpoint : LiveState ℕ
one_endpoint = record {
  next_id = 1;
  by_id = (1, endpoint 71) ∷ [];
  by_owner = (71, 1) ∷ [];
  stopped = [];
}

one_endpoint-IsValid : IsValid ℕ_discrete uid_of 1 one_endpoint
unfolding register_or_replace ℕ_discrete scg.Base.AssocMap.get
one_endpoint-IsValid =
    (register_or_replace-IsValid ℕ_discrete uid_of 1 1 (endpoint 71) idle
      (empty-IsValid ℕ_discrete uid_of 1) refl (omega arith) (omega arith) refl).0

second_refused :
    (register_or_replace ℕ_discrete (λ t. t) 1 2 72 (endpoint 72) one_endpoint).1
    ≡ err resource_exhausted
unfolding register_or_replace ℕ_discrete
second_refused = refl

foreign_refused : (close ℕ_discrete 8 1 one_endpoint).1 ≡ err permission_denied
unfolding close ℕ_discrete
foreign_refused = refl

close-IsValid_example :
    IsValid ℕ_discrete uid_of 1 (close ℕ_discrete 7 1 one_endpoint).0
    × ((i : ℕ) (e : LiveEndpoint ℕ)
        → get ℕ_discrete i one_endpoint.by_id ≡ some e
        → e.owner_uid ≢ 7
        → get ℕ_discrete i (close ℕ_discrete 7 1 one_endpoint).0.by_id ≡ some e)
close-IsValid_example = close-IsValid ℕ_discrete uid_of 1 7 1 one_endpoint one_endpoint-IsValid

-- The counter stands at its last value, which is in use, and goes on at 1.
abbrev at_the_end : LiveState ℕ
at_the_end = record {
  next_id = 4294967295;
  by_id = (4294967295, endpoint 71) ∷ (1, endpoint 80) ∷ [];
  by_owner = (71, 4294967295) ∷ (80, 1) ∷ [];
  stopped = [];
}

wraps_around : alloc_id at_the_end ≡ some (2, record at_the_end { next_id = 3 })
unfolding alloc_id ℕ_discrete
wraps_around = refl

alloc_id-found_example :
    (id : ℕ) × (s : LiveState ℕ) × (alloc_id at_the_end ≡ some (id, s))
    × (get ℕ_discrete id at_the_end.by_id ≡ none)
    × (1 ≤ id)
    × (id < 4294967296)
    × (1 ≤ s.next_id)
    × (s.next_id < 4294967296)
alloc_id-found_example = alloc_id-found at_the_end (omega arith) (omega arith) (omega arith)
