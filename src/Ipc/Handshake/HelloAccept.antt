-- ===== src/Ipc/Handshake/HelloAccept.antt =====
-- crates/scg-ipc/src/handshake.rs: the encoding of `Hello`, and what `decode` accepts.
use scg.Ipc.Handshake.{
  Role, producer, consumer, Hello, hello_magic, hello_version, hello_len, role_byte, new, encode,
  decode,
}
use scg.Base.{ℕ, [], ◌∷◌, ◌++◌, ◌≡◌, arith, ok, length, take_all}
use scg.Base.Bytes.{Bytes, eq_bytes_iff}
use scg.Ipc.Token.{CapabilityToken, IsToken, token_len}

-- What a client builds with `Hello::new` and sends is what the gateway decodes, and it is 40 bytes
-- long.
pub decode-encode :
    (role : Role) (t : CapabilityToken)
    → IsToken t
    → (decode (encode (new role t)) ≡ ok (new role t)) × (length (encode (new role t)) ≡ hello_len)
unfolding decode encode new
decode-encode producer t v = (rw (take_all token_len t.bytes (omega arith)), omega arith)
decode-encode consumer t v = (rw (take_all token_len t.bytes (omega arith)), omega arith)

-- Whatever is accepted has the magic, version 1, a known role and the presented token; only the two
-- reserved bytes are free.
pub decode-eq-ok :
    (buf : Bytes) {h : Hello}
    → length buf ≡ hello_len
    → decode buf ≡ ok h
    → (r s : ℕ) × (buf ≡ hello_magic ++ (hello_version ∷ role_byte h.role ∷ r ∷ s ∷ h.token.bytes))
      × (h.version ≡ hello_version)
unfolding decode role_byte
decode-eq-ok (a ∷ b ∷ c ∷ d ∷ v ∷ role ∷ r ∷ s ∷ token) {h} l e = (
  r,
  s,
  ground (
    arith,
    take_all token_len token (omega arith),
    eq_bytes_iff (a ∷ b ∷ c ∷ d ∷ []) hello_magic,
  ),
  ground arith,
)
decode-eq-ok _ l e = absurd (omega arith)
