-- ===== src/Gateway/Wireguard/Tidy.antt =====
-- gateway/src/security/wireguard_engine/admin.rs: what `provision` leaves behind.
use scg.Base.{
  ◌∙◌, Bool, true, false, ◌&&◌, ◌≡◌, refl, arith, Option, none, some, List, [], ◌∷◌, if◌then◌else◌,
  Result, ok, err,
}
use Prim.Native.String.{String}
use scg.Base.Texts.{same_text}
use scg.Gateway.Wireguard.{WgProviderConfig}
use scg.Gateway.Wireguard.Provision.{
  Word, text, Action, run_tool, create_key_dir, remove_key_dir, write_key, Answer, Outcome,
  ToolFault, proceed, resume, Machine, ip_link_add_argv, ip_link_del_argv, ip_link_up_argv,
  ip_addr_add_argv, wg_set_argv, act, and_then, dropping, write_psk, done, set_wg, set_up,
  set_address, set_keys, if_so, configure, or_delete, provision,
}

-- A key was written, or half written, and its directory not removed since.
unfoldable pub keys_left : List (Action × Answer) → Bool
keys_left [] = false
keys_left ((run_tool tool argv, answer) ∷ log) = keys_left log
keys_left ((create_key_dir, answer) ∷ log) = keys_left log
keys_left ((remove_key_dir, answer) ∷ log) = false
keys_left ((write_key name value, answer) ∷ log) = true

-- The command is `ip link VERB dev IFACE ...`.
abbrev is_link : String → String → String → List Word → Bool
is_link verb iface tool (text noun ∷ text word ∷ text dev ∷ text name ∷ rest) =
    same_text tool "ip"
    && same_text word verb
    && same_text noun "link"
    && same_text dev "dev"
    && same_text name iface
is_link verb iface tool _ = false

abbrev succeeded : Answer → Bool
succeeded none = true
succeeded (some e) = false

-- The interface of that name was added, and no deletion of it was tried since.
unfoldable pub link_left : String → List (Action × Answer) → Bool
link_left iface [] = false
link_left iface ((run_tool tool argv, answer) ∷ log) =
    let before = link_left iface log in
    if is_link "del" iface tool argv
    then false
    else if is_link "add" iface tool argv
    then (if succeeded answer then true else before)
    else before
link_left iface ((create_key_dir, answer) ∷ log) = link_left iface log
link_left iface ((remove_key_dir, answer) ∷ log) = link_left iface log
link_left iface ((write_key name value, answer) ∷ log) = link_left iface log

pub if-keep :
    {A : Type 0} (P : Machine → Type 0) (b : Bool) (x y : A × Machine)
    → P x.1
    → P y.1
    → P (if b then x else y).1
if-keep P true x y h k = h
if-keep P false x y h k = k

proceed-keep :
    (P : Machine → Type 0) (o : Answer) (a : Action) (rest : Outcome) (m : Machine)
    → P rest.1
    → P m
    → P (proceed o a rest m).1
proceed-keep P none a rest m h k = h
proceed-keep P (some e) a rest m h k = k

resume-keep :
    (P : Machine → Type 0) (c : Result (Unit {0}) ToolFault) (rest r : Outcome)
    → P rest.1
    → P r.1
    → P (resume c rest r).1
resume-keep P (ok u) rest r h k = h
resume-keep P (err fault) rest r h k = k

-- The rest keeps every interface as it is, and leaves no key.
unfoldable IsKept : String → Machine → Machine → Type 0
IsKept k m m1 = (link_left k m1.log ≡ link_left k m.log) × (keys_left m1.log ≡ false)

abbrev is_success : Result (Unit {0}) ToolFault → Bool
is_success (ok u) = true
is_success (err fault) = false

-- The interface stands after a success alone, no other one does, and no key is left.
unfoldable pub IsTidy : String → String → Outcome → Type 0
IsTidy iface k r =
    (link_left k r.1.log ≡ (is_success r.0 && same_text iface k)) × (keys_left r.1.log ≡ false)

module _ (is_v6 : String → Bool) (host : Action → List (Action × Answer) → Answer) where
  pub and_then-keep :
      (P : Machine → Type 0) (a : Action) (next : Machine → Outcome) (m : Machine)
      → P (act is_v6 host a m)
      → (P (act is_v6 host a m) → P (next (act is_v6 host a m)).1)
      → P (and_then is_v6 host a next m).1
  and_then-keep P a next m here later =
      proceed-keep P (host a m.log) a (next (act is_v6 host a m)) (act is_v6 host a m) (later here)
        here

  write_psk-keep :
      (P : Machine → Type 0) (o : Option String) (next : Machine → Outcome) (m : Machine)
      → ((psk : String) (m1 : Machine) → P m1 → P (act is_v6 host (write_key "psk.key" psk) m1))
      → ((m1 : Machine) → P m1 → P (next m1).1)
      → P m
      → P (write_psk is_v6 host o next m).1
  write_psk-keep P none next m write later here = later m here
  write_psk-keep P (some psk) next m write later here =
      and_then-keep P (write_key "psk.key" psk) next m (write psk m here)
        (λ there. later (act is_v6 host (write_key "psk.key" psk) m) there)

  module _ (k : String) where
    set_keys-link_left :
        (cfg : WgProviderConfig) (m : Machine)
        → link_left k (set_keys is_v6 host cfg m).1.log ≡ link_left k m.log
    unfolding set_keys link_left wg_set_argv
    set_keys-link_left cfg m =
        let P = λ (m1 : Machine). link_left k m1.log ≡ link_left k m.log in
        and_then-keep P (write_key "private.key" cfg.private_key)
          (write_psk is_v6 host cfg.preshared_key (set_wg is_v6 host cfg)) m refl
          (λ here.
            write_psk-keep P cfg.preshared_key (set_wg is_v6 host cfg)
              (act is_v6 host (write_key "private.key" cfg.private_key) m) (λ psk m1 h. h)
              (λ m1 h.
                and_then-keep P (run_tool "wg" (wg_set_argv cfg)) (done is_v6 host) m1 h (λ l. l))
              here)

    addresses-IsKept :
        (cfg : WgProviderConfig) (m m1 : Machine)
        → IsKept k m m1
        → IsKept k m (set_address is_v6 host cfg m1).1
    unfolding IsKept link_left keys_left
    addresses-IsKept cfg m m1 h =
        let address = run_tool "ip" (ip_addr_add_argv is_v6 host cfg) in
        and_then-keep (IsKept k m) address (set_up is_v6 host cfg) m1 h (λ l.
          and_then-keep (IsKept k m) (run_tool "ip" (ip_link_up_argv cfg.wg_interface))
            (done is_v6 host) (act is_v6 host address m1) l (λ l'. l'))

    configure-IsKept :
        (cfg : WgProviderConfig) (m : Machine)
        → keys_left m.log ≡ false
        → IsKept k m (configure is_v6 host cfg m).1
    unfolding configure IsKept link_left keys_left
    configure-IsKept cfg m clean =
        and_then-keep (IsKept k m) create_key_dir
          (λ m1.
            if_so is_v6 host (set_address is_v6 host cfg)
              (dropping is_v6 host (set_keys is_v6 host cfg m1)))
          m (refl, clean)
          (λ here.
            let dropped =
              dropping is_v6 host (set_keys is_v6 host cfg (act is_v6 host create_key_dir m)) in
            let kept : IsKept k m dropped.1 =
              (set_keys-link_left cfg (act is_v6 host create_key_dir m), refl) in
            resume-keep (IsKept k m) dropped.0 (set_address is_v6 host cfg dropped.1) dropped
              (addresses-IsKept cfg m dropped.1 kept) kept)

    or_delete-IsTidy :
        (iface : String) (m : Machine) (r : Outcome)
        → link_left k m.log ≡ same_text iface k
        → IsKept k m r.1
        → IsTidy iface k (or_delete is_v6 host iface r)
    unfolding IsTidy IsKept link_left keys_left
    or_delete-IsTidy iface m (ok u, m1) stands kept = (kept.0 ∙ stands, kept.1)
    or_delete-IsTidy iface m (err fault, m1) stands kept = (ground (arith, kept.0 ∙ stands), kept.1)

    abbrev added : String → Answer → Machine → Machine
    added iface answer m = record { log = (run_tool "ip" (ip_link_add_argv iface), answer) ∷ m.log }

    added-IsTidy :
        (cfg : WgProviderConfig) (m : Machine) (answer : Answer)
        → link_left k m.log ≡ false
        → keys_left m.log ≡ false
        → IsTidy cfg.wg_interface k (
            proceed answer
              (run_tool "ip" (ip_link_add_argv cfg.wg_interface))
              (or_delete is_v6 host cfg.wg_interface
                (configure is_v6 host cfg (added cfg.wg_interface answer m)))
              (added cfg.wg_interface answer m))
    unfolding IsTidy link_left keys_left
    added-IsTidy cfg m none gone clean =
        let m1 = added cfg.wg_interface none m in
        or_delete-IsTidy cfg.wg_interface m1 (configure is_v6 host cfg m1) (ground (arith, gone))
          (configure-IsKept cfg m1 clean)
    added-IsTidy cfg m (some e) gone clean = (ground (arith, gone), clean)

    deleted_lem :
        (iface : String) (m : Machine)
        → link_left k m.log ≡ false
        → link_left k (act is_v6 host (run_tool "ip" (ip_link_del_argv iface)) m).log ≡ false
    unfolding link_left
    deleted_lem iface m gone = ground (arith, gone)

    -- If no key is left over before, and no interface of a name, then none of that name is after, unless
    -- the call succeeds and the name is the configured one; and no key is, whatever each call answers. A key
    -- is left over when it was written, wholly or not, and the removal of its directory was not tried since.
    pub provision-IsTidy :
        (cfg : WgProviderConfig) (m : Machine)
        → keys_left m.log ≡ false
        → link_left k m.log ≡ false
        → IsTidy cfg.wg_interface k (provision is_v6 host cfg m)
    unfolding provision keys_left
    provision-IsTidy cfg m clean gone =
        let deleted = act is_v6 host (run_tool "ip" (ip_link_del_argv cfg.wg_interface)) m in
        added-IsTidy cfg deleted
          (host (run_tool "ip" (ip_link_add_argv cfg.wg_interface)) deleted.log)
          (deleted_lem cfg.wg_interface m gone) clean
