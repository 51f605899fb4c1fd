-- ===== src/Ipc/Handshake.antt =====
-- crates/scg-ipc/src/handshake.rs: the HELLO that a client sends first, and the offer of shared memory
-- that answers it. The fixed-size arrays are lists of that length.
pub mod HelloAccept
pub mod OfferRoundTrip
use scg.Base.{
  ℕ, List, [], ◌∷◌, ◌++◌, Option, none, some, Bool, not, ◌==◌, if◌then◌else◌, Result, ok, err,
  ◌>>=◌, take, drop, get_or,
}
use scg.Base.Bytes.{Bytes, to_le_bytes, from_le_bytes, eq_bytes}
use scg.Ipc.Token.{CapabilityToken, from_bytes, as_bytes, token_len}

-- ASCII "SCGH"
abbrev pub hello_magic : Bytes
hello_magic = b'S' ∷ b'C' ∷ b'G' ∷ b'H' ∷ []

abbrev pub hello_version : ℕ
hello_version = 1

abbrev pub hello_len : ℕ
hello_len = 40

pub data Role : Type 0 where
  producer consumer : Role

-- `self.role as u8`
unfoldable pub role_byte : Role → ℕ
role_byte producer = 1
role_byte consumer = 2

unfoldable pub from_u8 : ℕ → Option Role
from_u8 v = if v == 1 then some producer else if v == 2 then some consumer else none

pub record Hello : Type 0 where
  pub version : ℕ
  pub role : Role
  pub token : CapabilityToken

pub data HelloError : Type 0 where
  bad_magic : HelloError
  unsupported_version : ℕ → HelloError
  bad_role : ℕ → HelloError

unfoldable pub new : Role → CapabilityToken → Hello
new role token = record { version = hello_version; role = role; token = token }

unfoldable pub encode : Hello → Bytes
unfolding role_byte as_bytes
encode h = hello_magic ++ (h.version ∷ role_byte h.role ∷ 0 ∷ 0 ∷ as_bytes h.token)

abbrev ok_or {ℓ κ} : {A : Type ℓ} {E : Type κ} → Option A → E → Result A E
ok_or none e = err e
ok_or (some a) e = ok a

unfoldable pub decode : Bytes → Result Hello HelloError
unfolding from_u8 from_bytes
decode buf =
    let version = get_or buf 4 0 in
    let fields : Result Hello HelloError = (do
      role ← ok_or (from_u8 (get_or buf 5 0)) (bad_role (get_or buf 5 0))
      ok (record {
        version = version;
        role = role;
        token = from_bytes (take token_len (drop 8 buf));
      })) in
    if not (eq_bytes (take 4 buf) hello_magic)
    then err bad_magic
    else if not (version == hello_version)
    then err (unsupported_version version)
    else fields

-- ASCII "SCGO"
abbrev pub shm_offer_magic : Bytes
shm_offer_magic = b'S' ∷ b'C' ∷ b'G' ∷ b'O' ∷ []

abbrev pub shm_offer_len : ℕ
shm_offer_len = 32

pub record ShmOffer : Type 0 where
  pub version : ℕ
  pub notify : ℕ
  pub n_fds : ℕ
  pub ring_kind : ℕ
  pub cap_c2g : ℕ
  pub cap_g2c : ℕ
  pub capacity : ℕ
  pub segment_size : ℕ

unfoldable pub encode_offer : ShmOffer → Bytes
encode_offer o =
    shm_offer_magic
    ++ (o.version
        ∷ o.notify
        ∷ o.n_fds
        ∷ o.ring_kind
        ∷ (to_le_bytes 8 o.cap_c2g
            ++ (to_le_bytes 8 o.cap_g2c
                ++ (to_le_bytes 4 o.capacity ++ to_le_bytes 4 o.segment_size))))

unfoldable pub decode_offer : Bytes → Result ShmOffer HelloError
decode_offer buf =
    let version = get_or buf 4 0 in
    if not (eq_bytes (take 4 buf) shm_offer_magic)
    then err bad_magic
    else if not (version == hello_version)
    then err (unsupported_version version)
    else ok (record {
      version = version;
      notify = get_or buf 5 0;
      n_fds = get_or buf 6 0;
      ring_kind = get_or buf 7 0;
      cap_c2g = from_le_bytes (take 8 (drop 8 buf));
      cap_g2c = from_le_bytes (take 8 (drop 16 buf));
      capacity = from_le_bytes (take 4 (drop 24 buf));
      segment_size = from_le_bytes (take 4 (drop 28 buf));
    })
