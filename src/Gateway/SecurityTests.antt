-- ===== src/Gateway/SecurityTests.antt =====
-- The theorems on the pool, the session store and the raw framing at concrete inputs.
use scg.Base.{
  ℕ, ◌+◌, ◌-◌, ◌%◌, ◌^◌, ◌≤◌, ◌<◌, ◌≡◌, ◌≢◌, refl, List, [], ◌∷◌, ◌++◌, Option, some, none, Bool,
  true, false, All, Result, ok, err, arith, length, ℕ_discrete,
}
use scg.Base.Bytes.{Bytes}
use scg.Gateway.Policy.{safety}
use scg.Gateway.ConnPool.{PoolLimits, Call, Answers, submitted, run}
use scg.Gateway.ConnPool.Overflow.{holders, run-holders}
use scg.Gateway.SessionStore.{SessionStore, insert, get}
use scg.Gateway.SessionStore.Bounded.{IsValid, store_insert-IsValid}
use scg.Gateway.UdpFraming.{UdpFraming, raw}
use scg.Gateway.UdpFraming.Raw.{deframe_all, frame_all, deframe_all-frame_all}

-- A pool of one overflow thread, and a schedule in which two calls read the count before either claims.
abbrev pool : PoolLimits
pool = record { workers = 2; max_overflow = 1; class = safety }

abbrev busy : Answers
busy = record { idle_count = 0; connected = true; spurious = false; spawned = true }

abbrev schedule : List (ℕ × Answers)
schedule = (0, busy) ∷ (1, busy) ∷ (0, busy) ∷ (1, busy) ∷ (0, busy) ∷ (1, busy) ∷ (1, busy) ∷ []

abbrev calls : List Call
calls = submitted ∷ submitted ∷ []

run-holders_example :
    ((run pool schedule 0 calls).0 ≡ holders (run pool schedule 0 calls).1)
    × ((run pool schedule 0 calls).0 ≤ 1)
run-holders_example = run-holders pool schedule 0 calls refl (omega arith) (omega arith)

abbrev no_sessions : SessionStore ℕ Bytes
no_sessions = record { map = []; order = [] }

no_sessions-IsValid : IsValid ℕ_discrete no_sessions
unfolding scg.Base.AssocMap.get
no_sessions-IsValid = (
  record { queued = λ k v e. absurd (ground (arith, e)); stored = λ k a. absurd a; distinct = tt },
  omega arith,
)

store_insert-IsValid_example :
    IsValid ℕ_discrete (insert ℕ_discrete no_sessions 5 (1 ∷ 2 ∷ []))
    × (get ℕ_discrete (insert ℕ_discrete no_sessions 5 (1 ∷ 2 ∷ [])) 5 ≡ some (1 ∷ 2 ∷ []))
store_insert-IsValid_example =
    store_insert-IsValid ℕ_discrete no_sessions 5 (1 ∷ 2 ∷ []) no_sessions-IsValid

-- An ALE writer and reader that do nothing.
abbrev write_alepkt : ℕ → ℕ → Bytes → Bytes × ℕ
write_alepkt w t payload = ([], w)

abbrev feed : ℕ → Bytes → Result (List (ℕ × Bytes)) ℕ × ℕ
feed r data' = (ok [], r)

-- The datagrams [7, 8] and [], cut inside the first length and inside the payload.
abbrev pieces : List Bytes
pieces = (2 ∷ 0 ∷ []) ∷ (0 ∷ 0 ∷ 7 ∷ []) ∷ (8 ∷ 0 ∷ 0 ∷ 0 ∷ 0 ∷ []) ∷ []

deframe_all-frame_all_example :
    deframe_all 1 2 write_alepkt feed (raw []) pieces ≡ ((7 ∷ 8 ∷ []) ∷ [] ∷ [], false, raw [])
unfolding frame_all scg.Gateway.UdpFraming.frame_into
deframe_all-frame_all_example =
    deframe_all-frame_all 1 2 write_alepkt feed [] ((7 ∷ 8 ∷ []) ∷ [] ∷ []) pieces
      (omega arith, (omega arith, tt)) refl
