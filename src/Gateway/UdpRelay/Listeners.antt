-- ===== src/Gateway/UdpRelay/Listeners.antt =====
-- gateway/src/security/routing_engine.rs, `run_udp_routing_listener`, and
-- gateway/src/security/dtls_engine.rs, `run_dtls_encrypt_relay`, behind the binding of the listener's socket:
-- the guards before the loop, and its limits. None stands for a listener that does not relay.
use Prim.Native.String.{String}
use scg.Base.{
  ℕ, Bool, true, ltb, ◌*◌, ◌≤◌, ◌≡◌, refl, arith, Option, none, some, List, [], if◌then◌else◌,
  Result, ok, err, length, Option-cases, Bool-cases, subst, inl, inr,
}
use scg.Base.Texts.{same_text, trim, codes}
use scg.Gateway.TlsParams.Groups.{lowercase, same_bytes}
use scg.Gateway.AddressPattern.{SocketAddr}
use scg.Gateway.Config.Validate.{get_param}
use scg.Gateway.TlsParams.{TlsSecurityParams}
use scg.Gateway.TlsParams.Parse.{JsonView, from_params}
use scg.Gateway.TlsParams.Sound.{from_params-IsSecure}
use scg.Gateway.UdpRelay.{
  UdpRelay, Turn, second, routing_engine, dtls_engine, run, default_udp_max_sessions,
  default_udp_idle_ttl_secs,
}
use scg.Gateway.UdpRelay.Bounded.{run-bounded}

-- The part of the rule that the listener reads.
pub record Listener (Value : Type 0) : Type 0 where
  pub upstream_addr : String
  pub provider_params : List (String × Value)
  pub protocol_version : Option String

unfoldable pub is_auto_upstream : String → Bool
is_auto_upstream upstream = same_bytes (lowercase (trim (codes upstream))) (codes "auto")

-- A number that is there and not 0, or the default.
abbrev positive_or : ℕ → Option ℕ → ℕ
positive_or d none = d
positive_or d (some n) = if ltb 0 n then n else d

abbrev pub started : {Socket : Type 0} → ℕ → UdpRelay Socket
started now = record { sessions = []; last_evict = now; log = [] }

module _ {Value : Type 0} (j : JsonView Value) where
  abbrev number : ℕ → Option Value → ℕ
  number d none = d
  number d (some v) = positive_or d (j.as_u64 v)

  unfoldable pub routing_limits : Listener Value → ℕ × ℕ
  routing_limits l = (
    number default_udp_max_sessions (get_param "max_sessions" l.provider_params),
    number default_udp_idle_ttl_secs (get_param "idle_ttl_secs" l.provider_params),
  )

module _ {Value Socket Text : Type 0} (j : JsonView Value)
    (resolve : String → Option SocketAddr) where
  unfoldable pub run_udp_routing_listener :
      Listener Value → ℕ → List (Turn Socket Text) → Option (UdpRelay Socket)
  unfolding is_auto_upstream routing_limits run
  run_udp_routing_listener l now turns =
      if is_auto_upstream l.upstream_addr then none else elim (resolve l.upstream_addr) [
        | none ↦ none
        | some target ↦
            let (max_sessions, ttl) = routing_limits j l in
            some (run routing_engine max_sessions (ttl * second) target turns (started now))
      ]

  abbrev dtls_loop : SocketAddr → ℕ → List (Turn Socket Text) → TlsSecurityParams → UdpRelay Socket
  dtls_loop target now turns p =
      run dtls_engine p.max_sessions (p.idle_ttl_secs * second) target turns (started now)

  -- `connects` says whether OpenSSL builds a connector for the parameters.
  abbrev connected :
      (TlsSecurityParams → Bool)
      → SocketAddr
      → ℕ
      → List (Turn Socket Text)
      → {E : Type 0} → Result TlsSecurityParams E
      → Option (UdpRelay Socket)
  connected connects target now turns (err e) = none
  connected connects target now turns (ok p) =
      if connects p then some (dtls_loop target now turns p) else none

  unfoldable pub run_dtls_encrypt_relay :
      (TlsSecurityParams → Bool)
      → Listener Value
      → ℕ
      → List (Turn Socket Text)
      → Option (UdpRelay Socket)
  unfolding from_params run
  run_dtls_encrypt_relay connects l now turns =
      if same_text l.upstream_addr "auto" then none else elim (resolve l.upstream_addr) [
        | none ↦ none
        | some target ↦
            connected connects target now turns (from_params j l.provider_params l.protocol_version)
      ]

  loop_lem :
      (target : SocketAddr) (now : ℕ) (turns : List (Turn Socket Text)) (p : TlsSecurityParams)
      (s : UdpRelay Socket)
      → dtls_loop target now turns p ≡ s
      → length s.sessions ≤ p.max_sessions
  loop_lem target now turns p s same =
      subst (λ (t : UdpRelay Socket). length t.sessions ≤ p.max_sessions) same
        (run-bounded dtls_engine p.max_sessions (p.idle_ttl_secs * second) target (λ q b. true)
          turns (started now) (omega arith)).0

  connected_lem :
      (connects : TlsSecurityParams → Bool) (target : SocketAddr) (now : ℕ)
      (turns : List (Turn Socket Text)) {E : Type 0} (r : Result TlsSecurityParams E)
      (s : UdpRelay Socket)
      → connected connects target now turns r ≡ some s
      → (p : TlsSecurityParams) × (r ≡ ok p) × (length s.sessions ≤ p.max_sessions)
  connected_lem connects target now turns (err e) s h = absurd (ground (arith, h))
  connected_lem connects target now turns (ok p) s h = elim (Bool-cases (connects p)) [
    | inl yes_it_does ↦ (p, refl, loop_lem target now turns p s (ground (arith, h, yes_it_does)))
    | inr no_it_does_not ↦ absurd (ground (arith, h, no_it_does_not))
  ]

  -- A DTLS relay that runs has parameters that were accepted, whose limit is at least 1, and never more
  -- sessions than that limit.
  pub run_dtls_encrypt_relay-bounded :
      (connects : TlsSecurityParams → Bool) (l : Listener Value) (now : ℕ)
      (turns : List (Turn Socket Text)) (s : UdpRelay Socket)
      → run_dtls_encrypt_relay connects l now turns ≡ some s
      → (p : TlsSecurityParams) × (from_params j l.provider_params l.protocol_version ≡ ok p)
        × (1 ≤ p.max_sessions)
        × (length s.sessions ≤ p.max_sessions)
  unfolding run_dtls_encrypt_relay
  run_dtls_encrypt_relay-bounded connects l now turns s h =
      elim (Bool-cases (same_text l.upstream_addr "auto")) [
        | inl auto ↦ absurd (ground (arith, h, auto))
        | inr fixed ↦ elim (Option-cases (resolve l.upstream_addr)) [
          | inl e ↦ absurd (ground (arith, h, fixed, e))
          | inr (target, e) ↦
              let (p, accepted, bounded) =
                connected_lem connects target now turns
                  (from_params j l.provider_params l.protocol_version) s
                  (ground (arith, h, fixed, e)) in
              (
                p,
                accepted,
                (from_params-IsSecure j l.provider_params l.protocol_version p accepted).1,
                bounded,
              )
        ]
      ]
