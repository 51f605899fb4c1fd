-- ===== src/Gateway/Wireguard/Params.antt =====
-- gateway/src/security/wireguard_engine.rs: `WgProviderConfig::from_params`. What a JSON value holds, and
-- which texts are addresses, is answered by serde_json and the standard library.
use Prim.Native.String.{String}
use scg.Base.{
  ℕ, Bool, true, false, not, ◌&&◌, ◌||◌, ◌==◌, leb, Option, none, some, List, [], ◌∷◌,
  if◌then◌else◌, length, Result, ok, err, ◌>>=◌,
}
use scg.Base.Bytes.{Bytes}
use scg.Base.Texts.{
  codes, same_text, is_digit, trim, split, split_once, rsplit_once, parse_unsigned,
}
use scg.Gateway.Config.Validate.{get_param}
use scg.Gateway.TlsParams.Parse.{JsonView, is_some}
use scg.Gateway.Wireguard.{WgProviderConfig}
use scg.Gateway.Wireguard.Base64.{b64_decode}

-- The faults, with the name of the field.
pub data WgFault : Type 0 where
  required key_size bad_base64 no_port empty_host bad_port empty_list bad_entry : String → WgFault
  not_integer out_of_range : String → WgFault
  bad_interface_length bad_interface_character : WgFault

abbrev pub ifname_max : ℕ
ifname_max = 15

-- `if !test { return Err(fault) }`
abbrev pub ensure : Bool → WgFault → Result (Unit {0}) WgFault
ensure true fault = ok tt
ensure false fault = err fault

abbrev pub check_size : String → Option Bytes → Result (Unit {0}) WgFault
check_size field none = err (bad_base64 field)
check_size field (some bytes) = ensure (length bytes == 32) (key_size field)

unfoldable pub validate_key32 : String → String → Result (Unit {0}) WgFault
unfolding b64_decode
validate_key32 field value = check_size field (b64_decode (codes value))

abbrev pub is_name_byte : ℕ → Bool
is_name_byte b =
    is_digit b || leb b'A' b && leb b b'Z' || leb b'a' b && leb b b'z' || b == b'_' || b == b'-'

abbrev pub all_name_bytes : Bytes → Bool
all_name_bytes [] = true
all_name_bytes (b ∷ s) = is_name_byte b && all_name_bytes s

-- Lengths are in code points; a text that is not ASCII is refused by the second test, if not by the first.
unfoldable pub validate_iface : String → Result (Unit {0}) WgFault
validate_iface name =
    ensure (leb 1 (length (codes name)) && leb (length (codes name)) ifname_max)
      bad_interface_length
    >>= λ _. ensure (all_name_bytes (codes name)) bad_interface_character

abbrev check_port : String → Bytes → Bytes → Result (Unit {0}) WgFault
check_port field [] port = err (empty_host field)
check_port field (c ∷ host) port = ensure (is_some (parse_unsigned 65535 port)) (bad_port field)

unfoldable pub validate_endpoint : String → String → Result (Unit {0}) WgFault
validate_endpoint field value = elim (rsplit_once b':' (codes value)) [
  | none ↦ err (no_port field)
  | some (host, port) ↦ check_port field host port
]

abbrev is_empty_text : Bytes → Bool
is_empty_text [] = true
is_empty_text (c ∷ s) = false

module _ (is_ip : Bytes → Bool) where
  abbrev pub is_ip_or_prefix : Bytes → Bool
  is_ip_or_prefix entry = elim (split_once b'/' entry) [
    | some (ip, prefix) ↦ is_ip ip && is_some (parse_unsigned 255 prefix)
    | none ↦ is_ip entry
  ]

  abbrev check_entries : String → List Bytes → Result (Unit {0}) WgFault
  check_entries field [] = ok tt
  check_entries field (entry ∷ entries) =
      let rest = check_entries field entries in
      if is_ip_or_prefix (trim entry) then rest else err (bad_entry field)

  unfoldable pub validate_cidr_list : String → String → Result (Unit {0}) WgFault
  validate_cidr_list field value =
      ensure (not (is_empty_text (trim (codes value)))) (empty_list field) >>= λ _.
      check_entries field (split b',' (codes value))

abbrev nonempty_or : String → Option String → Result String WgFault
nonempty_or field none = err (required field)
nonempty_or field (some s) = if same_text s "" then err (required field) else ok s

abbrev pub number_or : String → Option ℕ → Result ℕ WgFault
number_or field none = err (required field)
number_or field (some n) = ok n

abbrev pub u16_or : String → Option ℕ → Result (Option ℕ) WgFault
u16_or field none = err (not_integer field)
u16_or field (some n) = if leb n 65535 then ok (some n) else err (out_of_range field)

abbrev pub key_or : Option String → Result (Option String) WgFault
key_or none = ok none
key_or (some psk) =
    if same_text psk ""
    then ok none
    else (validate_key32 "preshared_key" psk >>= λ _. ok (some psk))

-- `filter(|&n| n != 0)`
abbrev pub not_zero : Option ℕ → Option ℕ
not_zero none = none
not_zero (some n) = if n == 0 then none else some n

abbrev pub bool_or : Bool → Option Bool → Bool
bool_or d none = d
bool_or d (some b) = b

module _ {Value : Type 0} (j : JsonView Value) (is_ip : Bytes → Bool) where
  abbrev pub text_of : Option Value → Option String
  text_of none = none
  text_of (some v) = j.as_str v

  abbrev pub number_of : Option Value → Option ℕ
  number_of none = none
  number_of (some v) = j.as_u64 v

  abbrev pub bool_of : Option Value → Option Bool
  bool_of none = none
  bool_of (some v) = j.as_bool v

  unfoldable pub req_str : List (String × Value) → String → Result String WgFault
  req_str params field = nonempty_or field (text_of (get_param field params))

  abbrev pub optional_u16 : String → Option Value → Result (Option ℕ) WgFault
  optional_u16 field none = ok none
  optional_u16 field (some v) = u16_or field (j.as_u64 v)

  unfoldable pub opt_u16 : List (String × Value) → String → Result (Option ℕ) WgFault
  opt_u16 params field = optional_u16 field (get_param field params)

  unfoldable pub wg_from_params : List (String × Value) → Result WgProviderConfig WgFault
  unfolding req_str opt_u16 validate_key32 validate_iface validate_endpoint validate_cidr_list
  wg_from_params params = req_str params "wg_interface" >>= λ iface. validate_iface iface >>= λ _.
      req_str params "private_key" >>= λ key. validate_key32 "private_key" key >>= λ _.
      number_or "wg_listen_port" (number_of (get_param "wg_listen_port" params)) >>= λ port.
      ensure (leb port 65535) (out_of_range "wg_listen_port") >>= λ _.
      ensure (not (port == 0)) (out_of_range "wg_listen_port") >>= λ _.
      req_str params "peer_public_key" >>= λ peer. validate_key32 "peer_public_key" peer >>= λ _.
      req_str params "peer_endpoint" >>= λ endpoint.
      validate_endpoint "peer_endpoint" endpoint >>= λ _.
      req_str params "tunnel_local_ip" >>= λ local_ip.
      validate_cidr_list is_ip "tunnel_local_ip" local_ip >>= λ _.
      req_str params "peer_allowed_ips" >>= λ ips.
      validate_cidr_list is_ip "peer_allowed_ips" ips >>= λ _.
      key_or (text_of (get_param "preshared_key" params)) >>= λ psk.
      opt_u16 params "persistent_keepalive" >>= λ keepalive. ok (record {
        wg_interface = iface;
        private_key = key;
        wg_listen_port = port;
        peer_public_key = peer;
        peer_endpoint = endpoint;
        tunnel_local_ip = local_ip;
        peer_allowed_ips = ips;
        preshared_key = psk;
        persistent_keepalive = not_zero keepalive;
        manage_interface = bool_or true (bool_of (get_param "manage_interface" params));
      })
