-- ===== src/Gateway/Wireguard/Engine.antt =====
-- gateway/src/security/wireguard_engine.rs: `run_wireguard_relay` around the relay. Whether the relay's
-- sockets are bound and connected, and whether the kernel and the tools are there, is an argument.
use scg.Gateway.Wireguard.Provision.{
  Action, Answer, Outcome, ToolFault, done, run_tool, Machine, ip_link_del_argv, provision,
  teardown,
}
use scg.Gateway.Wireguard.Tidy.{
  and_then-keep, if-keep, keys_left, link_left, IsTidy, provision-IsTidy,
}
use Prim.Native.String.{String}
use scg.Base.{arith, Bool, false, not, ◌≡◌, List, if◌then◌else◌, Result, ok, err}
use scg.Base.Bytes.{Bytes}
use scg.Gateway.TlsParams.Parse.{JsonView}
use scg.Gateway.Wireguard.{WgProviderConfig}
use scg.Gateway.Wireguard.Params.{WgFault, wg_from_params}

pub data EngineFault : Type 0 where
  bad_params : WgFault → EngineFault
  provisioning_failed : ToolFault → EngineFault
  unavailable listen_failed connect_failed : EngineFault

-- What the host has, and what the relay's sockets answer.
pub record Surroundings : Type 0 where
  pub wireguard_available : Bool
  pub listen_bound : Bool
  pub upstream_connected : Bool

-- The result of the relay, which ends well with the shutdown.
abbrev pub relay_result : Surroundings → Result (Unit {0}) EngineFault
relay_result e =
    if not e.listen_bound
    then err listen_failed
    else if not e.upstream_connected
    then err connect_failed
    else ok tt

-- No key, and no interface of any name, is left over.
unfoldable pub IsClean : Machine → Type 0
IsClean m = (keys_left m.log ≡ false) × ((iface : String) → link_left iface m.log ≡ false)

module _ (is_v6 : String → Bool) (host : Action → List (Action × Answer) → Answer)
    (e : Surroundings) where
  -- After the relay: the outcome of the teardown is only logged.
  abbrev pub after_provision : String → Outcome → Result (Unit {0}) EngineFault × Machine
  after_provision iface (err fault, m) = (err (provisioning_failed fault), m)
  after_provision iface (ok u, m) = (relay_result e, (teardown is_v6 host iface m).1)

  unfoldable pub run_configured :
      WgProviderConfig → Machine → Result (Unit {0}) EngineFault × Machine
  unfolding provision teardown
  run_configured cfg m =
      if cfg.manage_interface
      then if not e.wireguard_available
        then (err unavailable, m)
        else after_provision cfg.wg_interface (provision is_v6 host cfg m)
      else (relay_result e, m)

  abbrev pub checked :
      Result WgProviderConfig WgFault → Machine → Result (Unit {0}) EngineFault × Machine
  checked (err fault) m = (err (bad_params fault), m)
  checked (ok cfg) m = run_configured cfg m

  unfoldable pub run_wireguard_relay :
      {Value : Type 0}
      → JsonView Value
      → (Bytes → Bool)
      → List (String × Value)
      → Machine
      → Result (Unit {0}) EngineFault × Machine
  unfolding run_configured wg_from_params
  run_wireguard_relay j is_ip params m = checked (wg_from_params j is_ip params) m

  after_provision-IsClean :
      (iface : String) (r : Outcome)
      → ((k : String) → IsTidy iface k r)
      → IsClean (after_provision iface r).1
  unfolding IsClean IsTidy keys_left link_left teardown
  after_provision-IsClean iface (err fault, m) h = ((h iface).1, λ k. (h k).0)
  after_provision-IsClean iface (ok u, m) h =
      and_then-keep is_v6 host IsClean (run_tool "ip" (ip_link_del_argv iface)) (done is_v6 host) m
        ((h iface).1, λ k. ground (arith, (h k).0)) (λ clean. clean)

  checked-IsClean :
      (c : Result WgProviderConfig WgFault) (m : Machine) → IsClean m → IsClean (checked c m).1
  unfolding run_configured IsClean
  checked-IsClean (err fault) m h = h
  checked-IsClean (ok cfg) m h =
      if-keep IsClean cfg.manage_interface
        (if not e.wireguard_available
          then (err unavailable, m)
          else after_provision cfg.wg_interface (provision is_v6 host cfg m))
        (relay_result e, m)
        (if-keep IsClean (not e.wireguard_available) (err unavailable, m)
          (after_provision cfg.wg_interface (provision is_v6 host cfg m)) h
          (after_provision-IsClean cfg.wg_interface (provision is_v6 host cfg m)
            (λ k. provision-IsTidy is_v6 host k cfg m h.0 (h.1 k))))
        h

  -- If no key and no interface is left over before, none is afterwards, whatever the parameters, the
  -- result, and the answers to the calls: each written key's directory was removed since, and each added
  -- interface deleted by its name, or that was tried.
  pub run_wireguard_relay-IsClean :
      {Value : Type 0} (j : JsonView Value) (is_ip : Bytes → Bool) (params : List (String × Value))
      (m : Machine)
      → IsClean m
      → IsClean (run_wireguard_relay j is_ip params m).1
  unfolding run_wireguard_relay
  run_wireguard_relay-IsClean j is_ip params m h =
      checked-IsClean (wg_from_params j is_ip params) m h
