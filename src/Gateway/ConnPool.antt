-- ===== src/Gateway/ConnPool.antt =====
-- gateway/src/security/conn_pool.rs: `ConnectionPool::execute` under many callers. A call's atomic
-- operations are single steps, and a schedule interleaves the steps of all calls. What the other parts
-- answer in a step (idle workers, the channel, the thread builder, a weak exchange) is an argument.
pub mod Overflow
use scg.Base.{
  ℕ, zero, suc, ◌+◌, ◌-◌, ◌%◌, ◌^◌, max, Bool, true, false, not, ◌&&◌, List, [], ◌∷◌, ltb, leb,
  ◌==◌, if◌then◌else◌,
}
use scg.Gateway.Policy.{TrafficClass, safety, normal}

abbrev pub safety_min_workers : ℕ
safety_min_workers = 2

abbrev pub default_max_overflow : ℕ
default_max_overflow = 64

-- The fields of the pool that never change: how many workers, and how many overflow threads.
pub record PoolLimits : Type 0 where
  pub workers : ℕ
  pub max_overflow : ℕ
  pub class : TrafficClass

unfoldable pub new_for_class_with_overflow : ℕ → TrafficClass → ℕ → PoolLimits
new_for_class_with_overflow size safety max_overflow = record {
  workers = max size safety_min_workers;
  max_overflow = max_overflow;
  class = safety;
}
new_for_class_with_overflow size normal max_overflow = record {
  workers = size;
  max_overflow = max_overflow;
  class = normal;
}

unfoldable pub new_for_class : ℕ → TrafficClass → PoolLimits
unfolding new_for_class_with_overflow
new_for_class size safety = new_for_class_with_overflow size safety default_max_overflow
new_for_class size normal = new_for_class_with_overflow size normal 0

-- Where a job is: in front of the idle check, in front of the load, in the loop with the count that
-- was read, past the exchange, in an overflow thread, in the channel, given up, or run.
pub data Call : Type 0 where
  submitted loading : Call
  looping : ℕ → Call
  reserved running queued dropped finished : Call

-- What the others answer in one step.
pub record Answers : Type 0 where
  pub idle_count : ℕ
  pub connected : Bool
  pub spurious : Bool
  pub spawned : Bool

unfoldable pub queue_job : Answers → Call
queue_job env = if env.connected then queued else dropped

-- `fetch_sub(1)` on `usize`
abbrev pub fetch_sub : ℕ → ℕ
fetch_sub count = (count + 2 ^ 64 - 1) % 2 ^ 64

-- The next atomic operation of a call, and the overflow count behind it.
unfoldable pub execute_step : PoolLimits → Answers → ℕ → Call → Call × ℕ
execute_step pool env count submitted =
    if ltb 0 env.idle_count
    then (queue_job env, count)
    else elim pool.class [ normal ↦ (queue_job env, count) | safety ↦ (loading, count) ]
execute_step pool env count loading = (looping count, count)
execute_step pool env count (looping cur) =
    if leb pool.max_overflow cur
    then (queue_job env, count)
    else if (count == cur) && not env.spurious
    then (reserved, count + 1)
    else (looping count, count)
execute_step pool env count reserved =
    if env.spawned then (running, count) else (queue_job env, fetch_sub count)
execute_step pool env count running = (finished, fetch_sub count)
execute_step pool env count call = (call, count)

-- One call of the list takes its step.
unfoldable pub step_at : PoolLimits → ℕ → Answers → ℕ → List Call → ℕ × List Call
unfolding execute_step
step_at pool i env count [] = (count, [])
step_at pool zero env count (c ∷ cs) =
    let (c', count') = execute_step pool env count c in (count', c' ∷ cs)
step_at pool (suc i) env count (c ∷ cs) =
    let (count', cs') = step_at pool i env count cs in (count', c ∷ cs')

unfoldable pub run : PoolLimits → List (ℕ × Answers) → ℕ → List Call → ℕ × List Call
run pool [] count calls = (count, calls)
run pool ((i, env) ∷ schedule) count calls =
    let (count', calls') = step_at pool i env count calls in run pool schedule count' calls'
