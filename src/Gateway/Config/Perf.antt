-- ===== src/Gateway/Config/Perf.antt =====
-- gateway/src/management/config.rs: the relay knobs of a performance profile with a rule's overrides.
use scg.Base.{
  ℕ, Bool, true, false, not, ◌&&◌, Option, none, some, if◌then◌else◌, ◌≡◌, ◌≤◌, ◌*◌, ◌==◌, ltb, min,
  arith,
}
use scg.Gateway.Config.{RuleConfig, PerfProfile}

abbrev pub latency_spin_wait_us : ℕ
latency_spin_wait_us = 50

abbrev pub latency_busy_poll_us : ℕ
latency_busy_poll_us = 50

abbrev pub throughput_pipe_size : ℕ
throughput_pipe_size = 16 * 1024 * 1024

abbrev pub balanced_pipe_size : ℕ
balanced_pipe_size = 8 * 1024 * 1024

abbrev pub latency_pipe_size : ℕ
latency_pipe_size = 256 * 1024

abbrev pub throughput_relay_buf : ℕ
throughput_relay_buf = 4 * 1024 * 1024

abbrev pub balanced_relay_buf : ℕ
balanced_relay_buf = 2 * 1024 * 1024

abbrev pub latency_relay_buf : ℕ
latency_relay_buf = 256 * 1024

abbrev pub balanced_sock_buf_cap : ℕ
balanced_sock_buf_cap = 8 * 1024 * 1024

abbrev pub latency_sock_buf_cap : ℕ
latency_sock_buf_cap = 256 * 1024

abbrev pub balanced_notsent_lowat : ℕ
balanced_notsent_lowat = 2 * 1024 * 1024

abbrev pub latency_notsent_lowat : ℕ
latency_notsent_lowat = 16 * 1024

abbrev pub default_bdp_queue_budget_us : ℕ
default_bdp_queue_budget_us = 1000

pub record PerfKnobs : Type 0 where
  pub enable_cork : Bool
  pub spin_wait_us : ℕ
  pub sock_buf_size : ℕ
  pub pipe_size : ℕ
  pub relay_buf_size : ℕ
  pub notsent_lowat : Option ℕ
  pub busy_poll_us : ℕ
  pub bdp_adaptive : Bool
  pub bdp_queue_budget_us : ℕ

-- `== PerfProfile::Latency`
abbrev pub is_latency : PerfProfile → Bool
is_latency PerfProfile.latency = true
is_latency PerfProfile.throughput = false
is_latency PerfProfile.balanced = false

-- The sizes of a profile, on a machine of 64 bits.
record Sizes : Type 0 where
  pipe_size : ℕ
  relay_buf_size : ℕ
  sock_cap : ℕ
  notsent_lowat : Option ℕ
  busy_poll_us : ℕ

unfoldable profile_sizes : PerfProfile → Sizes
profile_sizes PerfProfile.throughput = record {
  pipe_size = throughput_pipe_size;
  relay_buf_size = throughput_relay_buf;
  sock_cap = 18446744073709551615;
  notsent_lowat = none;
  busy_poll_us = 0;
}
profile_sizes PerfProfile.balanced = record {
  pipe_size = balanced_pipe_size;
  relay_buf_size = balanced_relay_buf;
  sock_cap = balanced_sock_buf_cap;
  notsent_lowat = some balanced_notsent_lowat;
  busy_poll_us = 0;
}
profile_sizes PerfProfile.latency = record {
  pipe_size = latency_pipe_size;
  relay_buf_size = latency_relay_buf;
  sock_cap = latency_sock_buf_cap;
  notsent_lowat = some latency_notsent_lowat;
  busy_poll_us = latency_busy_poll_us;
}

unfoldable pub resolve : PerfProfile → ℕ → ℕ → ℕ → PerfKnobs
unfolding profile_sizes
resolve profile simulated_delay_ms spin_wait_us sock_buf_size =
    let sizes = profile_sizes profile in
    record {
      enable_cork = simulated_delay_ms == 0 && not (is_latency profile);
      spin_wait_us =
          (if ltb 0 spin_wait_us
            then spin_wait_us
            else if is_latency profile
            then latency_spin_wait_us
            else 0);
      sock_buf_size = min sock_buf_size sizes.sock_cap;
      pipe_size = sizes.pipe_size;
      relay_buf_size = sizes.relay_buf_size;
      notsent_lowat = sizes.notsent_lowat;
      busy_poll_us = sizes.busy_poll_us;
      bdp_adaptive = false;
      bdp_queue_budget_us = default_bdp_queue_budget_us;
    }

-- `if let Some(value) = …`
abbrev pub override_with {ℓ} : {A : Type ℓ} → Option A → A → A
override_with none old = old
override_with (some value) old = value

-- `(value != 0).then_some(value)`
abbrev some_nonzero : ℕ → Option ℕ
some_nonzero value = if value == 0 then none else some value

abbrev override_lowat : Option ℕ → Option ℕ → Option ℕ
override_lowat none old = old
override_lowat (some value) old = some_nonzero value

unfoldable pub with_rule_overrides :
    PerfKnobs → Option ℕ → Option ℕ → Option ℕ → Option ℕ → Option ℕ → Bool → Option ℕ → PerfKnobs
with_rule_overrides k sock pipe relay lowat poll adaptive budget = record k {
  sock_buf_size = override_with sock k.sock_buf_size;
  pipe_size = override_with pipe k.pipe_size;
  relay_buf_size = override_with relay k.relay_buf_size;
  notsent_lowat = override_lowat lowat k.notsent_lowat;
  busy_poll_us = override_with poll k.busy_poll_us;
  bdp_adaptive = adaptive;
  bdp_queue_budget_us = override_with budget k.bdp_queue_budget_us;
}

module _ {Value : Type 0} where
  unfoldable pub perf_knobs : RuleConfig Value → PerfProfile → ℕ → PerfKnobs
  unfolding resolve with_rule_overrides
  perf_knobs r global sock_buf_size =
      let profile = override_with r.perf_profile global in
      with_rule_overrides (resolve profile r.simulated_delay_ms r.spin_wait_us sock_buf_size)
        r.sock_buf_size r.pipe_size r.relay_buf_size r.notsent_lowat r.busy_poll_us
        (r.bdp_adaptive && is_latency profile) r.bdp_queue_budget_us

  -- What the latency profile promises to a rule without overrides of the sizes: writes are not held
  -- back, the ring is polled, and every buffer is at most 256 KiB, the socket's also at most the
  -- configured size.
  pub perf_knobs_latency :
      (r : RuleConfig Value) (global : PerfProfile) (sock_buf_size : ℕ)
      → override_with r.perf_profile global ≡ PerfProfile.latency
      → r.sock_buf_size ≡ none
      → r.pipe_size ≡ none
      → r.relay_buf_size ≡ none
      → let k = perf_knobs r global sock_buf_size in
        (k.enable_cork ≡ false)
        × (1 ≤ k.spin_wait_us)
        × (k.sock_buf_size ≤ 262144)
        × (k.sock_buf_size ≤ sock_buf_size)
        × (k.pipe_size ≤ 262144)
        × (k.relay_buf_size ≤ 262144)
  unfolding perf_knobs resolve profile_sizes with_rule_overrides
  perf_knobs_latency r global n h a b c = ground arith
