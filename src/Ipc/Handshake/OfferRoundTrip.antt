-- ===== src/Ipc/Handshake/OfferRoundTrip.antt =====
-- crates/scg-ipc/src/handshake.rs: the encoding of `ShmOffer`.
use scg.Base.{
  ◌≤◌, ◌+◌, ◌^◌, ◌<◌, ℕ, [], ◌∷◌, ◌++◌, ◌≡◌, refl, sym, ap, ap₂, ◌∙◌, arith, ok, length, take, drop,
  All-take, All-drop, length-take, length-drop, take-drop-append, take_all,
}
use scg.Base.Bytes.{
  from_le_bytes, to_le_bytes, Bytes, IsBytes, eq_bytes_iff, from_le_bytes-to_le_bytes,
  to_le_bytes-from_le_bytes,
}
use scg.Ipc.Handshake.{
  ShmOffer, hello_version, shm_offer_magic, shm_offer_len, encode_offer, decode_offer,
}

-- The ranges of the fields' machine types.
pub record InRange (o : ShmOffer) : Type 0 where
  pub cap_c2g_u64 : o.cap_c2g < 2 ^ 64
  pub cap_g2c_u64 : o.cap_g2c < 2 ^ 64
  pub capacity_u32 : o.capacity < 2 ^ 32
  pub segment_size_u32 : o.segment_size < 2 ^ 32

-- Every offer of the current version is read back as it was sent, in 32 bytes.
pub decode_offer-encode_offer :
    (o : ShmOffer)
    → InRange o
    → o.version ≡ hello_version
    → (decode_offer (encode_offer o) ≡ ok o) × (length (encode_offer o) ≡ shm_offer_len)
unfolding decode_offer encode_offer
decode_offer-encode_offer o h v = (
  ground (
    arith,
    from_le_bytes-to_le_bytes 8 o.cap_c2g h.cap_c2g_u64,
    from_le_bytes-to_le_bytes 8 o.cap_g2c h.cap_g2c_u64,
    from_le_bytes-to_le_bytes 4 o.capacity h.capacity_u32,
    from_le_bytes-to_le_bytes 4 o.segment_size h.segment_size_u32,
  ),
  omega arith,
)

-- The four integers behind the first eight bytes, written again.
integers :
    (rest : Bytes)
    → length rest ≡ 24
    → IsBytes rest
    → to_le_bytes 8 (from_le_bytes (take 8 rest))
        ++ (to_le_bytes 8 (from_le_bytes (take 8 (drop 8 rest)))
            ++ (to_le_bytes 4 (from_le_bytes (take 4 (drop 16 rest)))
                ++ to_le_bytes 4 (from_le_bytes (take 4 (drop 20 rest)))))
      ≡ rest
integers rest l bs =
    ap₂ ◌++◌ (field 8 0 (omega arith)) (
      ap₂ ◌++◌ (field 8 8 (omega arith)) (
        ap₂ ◌++◌ (field 4 16 (omega arith)) (
          field 4 20 (omega arith) ∙ take_all 4 (drop 20 rest) (omega (arith, length-drop 20 rest)))
        ∙ take-drop-append 16 4 20 rest refl)
      ∙ take-drop-append 8 8 16 rest refl)
    ∙ take-drop-append 0 8 8 rest refl
  where
    field :
        (k at : ℕ)
        → at + k ≤ 24
        → to_le_bytes k (from_le_bytes (take k (drop at rest))) ≡ take k (drop at rest)
    field k at h =
        to_le_bytes-from_le_bytes k (take k (drop at rest))
          (omega (arith, length-take k (drop at rest), length-drop at rest))
          (All-take (λ b. b < 256) k (drop at rest) (All-drop (λ b. b < 256) at rest bs))

-- What was read from an accepted message.
decoded :
    (a b c d v n f k : ℕ) (rest : Bytes) {o : ShmOffer}
    → decode_offer (a ∷ b ∷ c ∷ d ∷ v ∷ n ∷ f ∷ k ∷ rest) ≡ ok o
    → (a ∷ b ∷ c ∷ d ∷ [] ≡ shm_offer_magic)
      × (v ≡ hello_version)
      × (o ≡ record {
        version = v;
        notify = n;
        n_fds = f;
        ring_kind = k;
        cap_c2g = from_le_bytes (take 8 rest);
        cap_g2c = from_le_bytes (take 8 (drop 8 rest));
        capacity = from_le_bytes (take 4 (drop 16 rest));
        segment_size = from_le_bytes (take 4 (drop 20 rest));
      })
unfolding decode_offer
decoded a b c d v n f k rest e = ground (arith, eq_bytes_iff (a ∷ b ∷ c ∷ d ∷ []) shm_offer_magic)

-- A 32-byte message that is accepted is of the current version, and is the encoding of what it was
-- read as.
pub encode_offer-decode_offer :
    (buf : Bytes) {o : ShmOffer}
    → length buf ≡ shm_offer_len
    → IsBytes buf
    → decode_offer buf ≡ ok o
    → (encode_offer o ≡ buf) × (o.version ≡ hello_version)
unfolding encode_offer
encode_offer-decode_offer (a ∷ b ∷ c ∷ d ∷ v ∷ n ∷ f ∷ k ∷ rest) l bs e =
    let (magic, version, fields) = decoded a b c d v n f k rest e in
    (
      rw fields (
          ap₂ ◌++◌ (sym magic) (
            ap (λ (r : Bytes). v ∷ n ∷ f ∷ k ∷ r)
              (integers rest (omega arith) bs.1.1.1.1.1.1.1.1))),
      rw fields version,
    )
encode_offer-decode_offer _ l bs e = absurd (omega arith)
