-- ===== src/Gateway/Wireguard/Usable.antt =====
-- gateway/src/security/wireguard_engine.rs: what the accepted parameters are.
use Prim.Native.String.{String}
use scg.Base.{
  ℕ, Bool, true, false, not, ◌&&◌, ◌==◌, leb, ◌≤◌, ◌≡◌, refl, arith, Option, none, some, List, [],
  ◌∷◌, length, All, Result, ok, ◌>>=◌, bind-elim, Bool-cases, inl, inr, subst,
}
use scg.Base.Bytes.{Bytes}
use scg.Base.Texts.{codes, same_text}
use scg.Gateway.Config.Validate.{get_param}
use scg.Gateway.TlsParams.Parse.{JsonView}
use scg.Gateway.Wireguard.{WgProviderConfig}
use scg.Gateway.Wireguard.Base64.{b64_decode}
use scg.Gateway.Wireguard.Params.{
  WgFault, key_size, bad_interface_length, bad_interface_character, out_of_range, ensure,
  check_size, validate_key32, validate_iface, validate_endpoint, validate_cidr_list, is_name_byte,
  all_name_bytes, ifname_max, number_or, u16_or, key_or, not_zero, text_of, number_of, optional_u16,
  req_str, opt_u16, wg_from_params,
}

-- The digits of 32 bytes.
abbrev pub IsKey : String → Type 0
IsKey value = (bytes : Bytes) × (b64_decode (codes value) ≡ some bytes) × (length bytes ≡ 32)

abbrev pub IsOptionalKey : Option String → Type 0
IsOptionalKey none = Unit
IsOptionalKey (some value) = IsKey value

abbrev pub IsInterval : Option ℕ → Type 0
IsInterval none = Unit
IsInterval (some n) = (1 ≤ n) × (n ≤ 65535)

pub record IsUsable (cfg : WgProviderConfig) : Type 0 where
  pub interface_short :
      (1 ≤ length (codes cfg.wg_interface)) × (length (codes cfg.wg_interface) ≤ 15)
  pub interface_plain : All (λ b. is_name_byte b ≡ true) (codes cfg.wg_interface)
  pub own_key : IsKey cfg.private_key
  pub peer_key : IsKey cfg.peer_public_key
  pub shared_key : IsOptionalKey cfg.preshared_key
  pub listen_port : (1 ≤ cfg.wg_listen_port) × (cfg.wg_listen_port ≤ 65535)
  pub keepalive : IsInterval cfg.persistent_keepalive

ensure-ok : (b : Bool) (fault : WgFault) → ensure b fault ≡ ok tt → b ≡ true
ensure-ok true fault h = refl
ensure-ok false fault h = absurd (ground (arith, h))

size_lem :
    (field : String) (o : Option Bytes)
    → check_size field o ≡ ok tt
    → (bytes : Bytes) × (o ≡ some bytes) × (length bytes ≡ 32)
size_lem field none h = absurd (ground (arith, h))
size_lem field (some bytes) h =
    (bytes, refl, ground (arith, ensure-ok (length bytes == 32) (key_size field) h))

validate_key32-IsKey : (field value : String) → validate_key32 field value ≡ ok tt → IsKey value
unfolding validate_key32
validate_key32-IsKey field value h = size_lem field (b64_decode (codes value)) h

name_lem : (s : Bytes) → all_name_bytes s ≡ true → All (λ b. is_name_byte b ≡ true) s
name_lem [] h = tt
name_lem (b ∷ s) h = elim (Bool-cases (is_name_byte b)) [
  | inl plain ↦ (plain, name_lem s (ground (arith, h, plain)))
  | inr strange ↦ absurd (ground (arith, h, strange))
]

iface_lem :
    (name : String)
    → validate_iface name ≡ ok tt
    → ((1 ≤ length (codes name)) × (length (codes name) ≤ 15))
      × All (λ b. is_name_byte b ≡ true) (codes name)
unfolding validate_iface
iface_lem name h =
    bind-elim
      (ensure (leb 1 (length (codes name)) && leb (length (codes name)) ifname_max)
        bad_interface_length)
      _ h
      (λ _ short plain.
        let test =
          ensure-ok (leb 1 (length (codes name)) && leb (length (codes name)) ifname_max)
            bad_interface_length short in
        (
          (ground (arith, test), ground (arith, test)),
          name_lem (codes name)
              (ensure-ok (all_name_bytes (codes name)) bad_interface_character plain),
        ))

psk_lem : (o p : Option String) → key_or o ≡ ok p → IsOptionalKey p
psk_lem none none h = tt
psk_lem none (some p) h = absurd (ground (arith, h))
psk_lem (some value) none h = tt
psk_lem (some value) (some p) h = elim (Bool-cases (same_text value "")) [
  | inl empty ↦ absurd (ground (arith, h, empty))
  | inr full ↦ full_lem value p (ground (arith, h, full))
]
  where
    full_lem :
        (v q : String)
        → (validate_key32 "preshared_key" v >>= λ _. ok (some v)) ≡ ok (some q)
        → IsKey q
    full_lem v q k = bind-elim (validate_key32 "preshared_key" v) _ k (λ _ valid same.
        subst IsKey (ground (arith, same)) (validate_key32-IsKey "preshared_key" v valid))

u16_lem : (field : String) (o n : Option ℕ) → u16_or field o ≡ ok n → IsInterval (not_zero n)
u16_lem field none n h = absurd (ground (arith, h))
u16_lem field (some k) none h = tt
u16_lem field (some k) (some n) h = elim (Bool-cases (n == 0)) [
  | inl zero_there ↦ rw zero_there tt
  | inr set ↦ rw set (ground (arith, h, set), ground (arith, h))
]

positive_lem : (n : ℕ) → not (n == 0) ≡ true → 1 ≤ n
positive_lem n h = ground arith

small_lem : (n : ℕ) → leb n 65535 ≡ true → n ≤ 65535
small_lem n h = ground arith

abbrev the_config : WgProviderConfig → Result WgProviderConfig WgFault
the_config c = ok c

config_injective : (c d : WgProviderConfig) → (the_config c) ≡ the_config d → c ≡ d
config_injective c d h = ground (arith, h)

module _ {Value : Type 0} (j : JsonView Value) (is_ip : Bytes → Bool) where
  keepalive_lem :
      (field : String) (o : Option Value) (n : Option ℕ)
      → optional_u16 j is_ip field o ≡ ok n
      → IsInterval (not_zero n)
  keepalive_lem field none none h = tt
  keepalive_lem field none (some n) h = absurd (ground (arith, h))
  keepalive_lem field (some v) n h = u16_lem field (j.as_u64 v) n h

  -- Parameters that are accepted give an interface name of 1 to 15 letters, digits, dashes and
  -- underscores, keys of 32 bytes, the shared one included where there is one, a port from 1 to 65535,
  -- and an interval from 1 to 65535 where there is one.
  pub wg_from_params-IsUsable :
      (params : List (String × Value)) (cfg : WgProviderConfig)
      → wg_from_params j is_ip params ≡ ok cfg
      → IsUsable cfg
  unfolding wg_from_params opt_u16
  wg_from_params-IsUsable params cfg h0 =
      bind-elim (req_str j is_ip params "wg_interface") _ h0 (λ iface e1 h1.
        bind-elim (validate_iface iface) _ h1 (λ _ e2 h2.
          bind-elim (req_str j is_ip params "private_key") _ h2 (λ key e3 h3.
            bind-elim (validate_key32 "private_key" key) _ h3 (λ _ e4 h4.
              bind-elim
                (number_or "wg_listen_port" (number_of j is_ip (get_param "wg_listen_port" params)))
                _ h4
                (λ port e5 h5.
                  bind-elim (ensure (leb port 65535) (out_of_range "wg_listen_port")) _ h5
                    (λ _ e6 h6.
                      bind-elim (ensure (not (port == 0)) (out_of_range "wg_listen_port")) _ h6
                        (λ _ e7 h7.
                          bind-elim (req_str j is_ip params "peer_public_key") _ h7 (λ peer e8 h8.
                            bind-elim (validate_key32 "peer_public_key" peer) _ h8 (λ _ e9 h9.
                              bind-elim (req_str j is_ip params "peer_endpoint") _ h9
                                (λ endpoint e10 h10.
                                  bind-elim (validate_endpoint "peer_endpoint" endpoint) _ h10
                                    (λ _ e11 h11.
                                      bind-elim (req_str j is_ip params "tunnel_local_ip") _ h11
                                        (λ local_ip e12 h12.
                                          bind-elim
                                            (validate_cidr_list is_ip "tunnel_local_ip" local_ip) _
                                            h12
                                            (λ _ e13 h13.
                                              bind-elim (req_str j is_ip params "peer_allowed_ips")
                                                _ h13
                                                (λ ips e14 h14.
                                                  bind-elim
                                                    (validate_cidr_list is_ip "peer_allowed_ips"
                                                      ips)
                                                    _ h14
                                                    (λ _ e15 h15.
                                                      bind-elim
                                                        (key_or (
                                                          text_of j is_ip
                                                            (get_param "preshared_key" params)))
                                                        _ h15
                                                        (λ psk e16 h16.
                                                          bind-elim
                                                            (opt_u16 j is_ip params
                                                            "persistent_keepalive")
                                                            _ h16
                                                            (λ keepalive e17 h17.
                                                            subst IsUsable
                                                            (config_injective _ cfg h17)
                                                            (record {
                                                            interface_short =
                                                            (iface_lem iface e2).0;
                                                            interface_plain =
                                                            (iface_lem iface e2).1;
                                                            own_key =
                                                            validate_key32-IsKey "private_key" key
                                                            e4;
                                                            peer_key =
                                                            validate_key32-IsKey "peer_public_key"
                                                            peer e9;
                                                            shared_key =
                                                            psk_lem
                                                            (text_of j is_ip
                                                            (get_param "preshared_key" params))
                                                            psk e16;
                                                            listen_port = (
                                                            positive_lem port (
                                                            ensure-ok (not (port == 0))
                                                            (out_of_range "wg_listen_port") e7),
                                                            small_lem port (
                                                            ensure-ok (leb port 65535)
                                                            (out_of_range "wg_listen_port") e6),
                                                            );
                                                            keepalive =
                                                            keepalive_lem "persistent_keepalive"
                                                            (get_param "persistent_keepalive"
                                                            params)
                                                            keepalive e17;
                                                            }))))))))))))))))))
