-- ===== src/Gateway/ConnPool/Overflow.antt =====
-- gateway/src/security/conn_pool.rs: the overflow count and the jobs of `execute`, under any schedule.
use scg.Base.{ℕ, zero, suc, ◌+◌, ◌^◌, ◌≤◌, ◌<◌, ◌≡◌, ◌≢◌, true, List, [], ◌∷◌, All, arith}
use scg.Gateway.ConnPool.{
  PoolLimits, Call, submitted, loading, looping, reserved, running, queued, dropped, finished,
  Answers, execute_step, step_at, run, queue_job,
}

-- The calls that hold an overflow slot.
abbrev pub holds : Call → ℕ
holds reserved = 1
holds running = 1
holds _ = 0

abbrev pub holders : List Call → ℕ
holders [] = 0
holders (c ∷ cs) = holds c + holders cs

-- One step moves the count as it moves the slots; `k` are the slots of the other calls.
execute_step-holds :
    (pool : PoolLimits) (env : Answers) (k count : ℕ) (c : Call)
    → count ≡ holds c + k
    → count ≤ pool.max_overflow
    → pool.max_overflow < 2 ^ 64
    → ((execute_step pool env count c).1 ≡ holds (execute_step pool env count c).0 + k)
      × ((execute_step pool env count c).1 ≤ pool.max_overflow)
unfolding execute_step queue_job
execute_step-holds pool env k count submitted e h m = ground arith
execute_step-holds pool env k count loading e h m = ground arith
execute_step-holds pool env k count (looping cur) e h m = ground arith
execute_step-holds pool env k count reserved e h m = ground arith
execute_step-holds pool env k count running e h m = ground arith
execute_step-holds pool env k count queued e h m = ground arith
execute_step-holds pool env k count dropped e h m = ground arith
execute_step-holds pool env k count finished e h m = ground arith

step_at-holders :
    (pool : PoolLimits) (i : ℕ) (env : Answers) (k count : ℕ) (cs : List Call)
    → count ≡ holders cs + k
    → count ≤ pool.max_overflow
    → pool.max_overflow < 2 ^ 64
    → ((step_at pool i env count cs).0 ≡ holders (step_at pool i env count cs).1 + k)
      × ((step_at pool i env count cs).0 ≤ pool.max_overflow)
unfolding step_at
step_at-holders pool i env k count [] e h m = (e, h)
step_at-holders pool zero env k count (c ∷ cs) e h m =
    ground (arith, execute_step-holds pool env (holders cs + k) count c (omega arith) h m)
step_at-holders pool (suc i) env k count (c ∷ cs) e h m =
    ground (arith, step_at-holders pool i env (holds c + k) count cs (omega arith) h m)

-- Under every schedule of any number of calls, the overflow count is the number of calls that hold a
-- slot, and never above the limit, if it starts so and the limit is below 2 ^ 64.
pub run-holders :
    (pool : PoolLimits) (schedule : List (ℕ × Answers)) (count : ℕ) (calls : List Call)
    → count ≡ holders calls
    → count ≤ pool.max_overflow
    → pool.max_overflow < 2 ^ 64
    → ((run pool schedule count calls).0 ≡ holders (run pool schedule count calls).1)
      × ((run pool schedule count calls).0 ≤ pool.max_overflow)
unfolding run
run-holders pool [] count calls e h m = (e, h)
run-holders pool ((i, env) ∷ schedule) count calls e h m =
    let (e', h') = step_at-holders pool i env 0 count calls (omega arith) h m in
    run-holders pool schedule (step_at pool i env count calls).0 (step_at pool i env count calls).1
      (omega (arith, e')) h' m

-- The answers with the channel connected.
abbrev pub IsConnected : ℕ × Answers → Type 0
IsConnected (i, env) = env.connected ≡ true

execute_step-dropped :
    (pool : PoolLimits) (env : Answers) (count : ℕ) (c : Call)
    → env.connected ≡ true
    → c ≢ dropped
    → (execute_step pool env count c).0 ≢ dropped
unfolding execute_step queue_job
execute_step-dropped pool env count submitted con h = ground arith
execute_step-dropped pool env count loading con h = ground arith
execute_step-dropped pool env count (looping cur) con h = ground arith
execute_step-dropped pool env count reserved con h = ground arith
execute_step-dropped pool env count running con h = ground arith
execute_step-dropped pool env count queued con h = h
execute_step-dropped pool env count dropped con h = h
execute_step-dropped pool env count finished con h = h

step_at-dropped :
    (pool : PoolLimits) (i : ℕ) (env : Answers) (count : ℕ) (cs : List Call)
    → env.connected ≡ true
    → All (λ c. c ≢ dropped) cs
    → All (λ c. c ≢ dropped) (step_at pool i env count cs).1
unfolding step_at
step_at-dropped pool i env count [] con h = h
step_at-dropped pool zero env count (c ∷ cs) con h =
    (execute_step-dropped pool env count c con h.0, h.1)
step_at-dropped pool (suc i) env count (c ∷ cs) con h =
    (h.0, step_at-dropped pool i env count cs con h.1)

-- While the channel is connected no job is given up.
pub run-dropped :
    (pool : PoolLimits) (schedule : List (ℕ × Answers)) (count : ℕ) (calls : List Call)
    → All IsConnected schedule
    → All (λ c. c ≢ dropped) calls
    → All (λ c. c ≢ dropped) (run pool schedule count calls).1
unfolding run
run-dropped pool [] count calls con h = h
run-dropped pool ((i, env) ∷ schedule) count calls con h =
    run-dropped pool schedule (step_at pool i env count calls).0 (step_at pool i env count calls).1
      con.1 (step_at-dropped pool i env count calls con.0 h)
