-- ===== src/Gateway/TlsParams/Hex.antt =====
-- gateway/src/security/tls_engine/params.rs: `decode_hex`.
use scg.Base.{
  length, ℕ, Bool, true, false, ◌&&◌, ◌==◌, ltb, leb, ◌+◌, ◌-◌, ◌*◌, ◌/◌, ◌%◌, ◌<◌, ◌≤◌, ◌≡◌, refl,
  arith, [], ◌∷◌, if◌then◌else◌, Result, ok, err, ◌>>=◌, All,
}
use scg.Base.Bytes.{Bytes}
use scg.Base.Texts.{is_space, trim, trim_start, trim_end}
use scg.Gateway.TlsParams.{TlsFault, psk_empty, psk_odd, bad_hex_digit}

-- The bytes are below 256 and the digits below 16, so that `(hi << 4) | lo` is the sum.
unfoldable pub hex_val : ℕ → Result ℕ TlsFault
hex_val b =
    if leb b'0' b && leb b b'9'
    then ok (b - b'0')
    else if leb b'a' b && leb b b'f'
    then ok (b - b'a' + 10)
    else if leb b'A' b && leb b b'F'
    then ok (b - b'A' + 10)
    else err bad_hex_digit

-- `trim_start_matches("0x")` takes the prefix away as often as it stands there.
abbrev strip_0x : Bytes → Bytes
strip_0x [] = []
strip_0x (c ∷ []) = c ∷ []
strip_0x (c ∷ d ∷ s) = let rest = strip_0x s in if c == b'0' && d == b'x' then rest else c ∷ d ∷ s

abbrev without_spaces : Bytes → Bytes
without_spaces [] = []
without_spaces (c ∷ s) = let rest = without_spaces s in if is_space c then rest else c ∷ rest

abbrev is_multiple_of_two : Bytes → Bool
is_multiple_of_two [] = true
is_multiple_of_two (c ∷ []) = false
is_multiple_of_two (c ∷ d ∷ s) = is_multiple_of_two s

abbrev decode_pairs : Bytes → Result Bytes TlsFault
decode_pairs [] = ok []
decode_pairs (c ∷ []) = err psk_odd
decode_pairs (c ∷ d ∷ s) =
    hex_val c >>= λ hi. hex_val d >>= λ lo. decode_pairs s >>= λ out. ok ((16 * hi + lo) ∷ out)

abbrev decode_cleaned : Bytes → Result Bytes TlsFault
decode_cleaned [] = err psk_empty
decode_cleaned (c ∷ s) = if is_multiple_of_two (c ∷ s) then decode_pairs (c ∷ s) else err psk_odd

unfoldable pub decode_hex : Bytes → Result Bytes TlsFault
unfolding hex_val
decode_hex s = decode_cleaned (without_spaces (strip_0x (trim s)))

-- The lower-case digits of bytes, two for each.
abbrev digit : ℕ → ℕ
digit n = if ltb n 10 then n + b'0' else n + 87

abbrev pub encode_hex : Bytes → Bytes
encode_hex [] = []
encode_hex (b ∷ bs) = digit (b / 16) ∷ digit (b % 16) ∷ encode_hex bs

digit-space : (n : ℕ) → n < 16 → is_space (digit n) ≡ false
digit-space n h = ground arith

hex_val-digit : (n : ℕ) → n < 16 → hex_val (digit n) ≡ ok n
unfolding hex_val
hex_val-digit n h = ground arith

abbrev NoSpaces : Bytes → Type 0
NoSpaces = All (λ c. is_space c ≡ false)

encode_hex-NoSpaces : (bs : Bytes) → All (λ b. b < 256) bs → NoSpaces (encode_hex bs)
encode_hex-NoSpaces [] h = tt
encode_hex-NoSpaces (b ∷ bs) h = (
  digit-space (b / 16) (omega arith),
  (digit-space (b % 16) (omega arith), encode_hex-NoSpaces bs h.1),
)

trim_start-NoSpaces : (s : Bytes) → NoSpaces s → trim_start s ≡ s
trim_start-NoSpaces [] h = refl
trim_start-NoSpaces (c ∷ s) h = ground (arith, h.0)

trim_end-NoSpaces : (s : Bytes) → NoSpaces s → trim_end s ≡ s
trim_end-NoSpaces [] h = refl
trim_end-NoSpaces (c ∷ []) h = ground (arith, h.0)
trim_end-NoSpaces (c ∷ d ∷ s) h = rw (trim_end-NoSpaces (d ∷ s) h.1) refl

without_spaces-NoSpaces : (s : Bytes) → NoSpaces s → without_spaces s ≡ s
without_spaces-NoSpaces [] h = refl
without_spaces-NoSpaces (c ∷ s) h = ground (arith, h.0, without_spaces-NoSpaces s h.1)

strip_0x-encode_hex :
    (bs : Bytes) → All (λ b. b < 256) bs → strip_0x (encode_hex bs) ≡ encode_hex bs
strip_0x-encode_hex [] h = refl
strip_0x-encode_hex (b ∷ bs) h = ground arith

is_multiple_of_two-encode_hex : (bs : Bytes) → is_multiple_of_two (encode_hex bs) ≡ true
is_multiple_of_two-encode_hex [] = refl
is_multiple_of_two-encode_hex (b ∷ bs) = is_multiple_of_two-encode_hex bs

decode_pairs-encode_hex :
    (bs : Bytes) → All (λ b. b < 256) bs → decode_pairs (encode_hex bs) ≡ ok bs
unfolding hex_val
decode_pairs-encode_hex [] h = refl
decode_pairs-encode_hex (b ∷ bs) h = ground (
  arith,
  hex_val-digit (b / 16) (omega arith),
  hex_val-digit (b % 16) (omega arith),
  decode_pairs-encode_hex bs h.1,
)

cleaned-encode_hex :
    (bs : Bytes)
    → All (λ b. b < 256) bs
    → without_spaces (strip_0x (trim (encode_hex bs))) ≡ encode_hex bs
cleaned-encode_hex bs h =
    let plain = encode_hex-NoSpaces bs h in
    rw (trim_start-NoSpaces (encode_hex bs) plain) (
      rw (trim_end-NoSpaces (encode_hex bs) plain)
        (rw (strip_0x-encode_hex bs h) (without_spaces-NoSpaces (encode_hex bs) plain)))

decode_cleaned-encode_hex :
    (bs : Bytes) → All (λ b. b < 256) bs → 1 ≤ length bs → decode_cleaned (encode_hex bs) ≡ ok bs
decode_cleaned-encode_hex [] h long = absurd (omega arith)
decode_cleaned-encode_hex (b ∷ bs) h long =
    ground (arith, is_multiple_of_two-encode_hex bs, decode_pairs-encode_hex (b ∷ bs) h)

-- At least one byte, written in hexadecimal digits, is read back.
pub decode_hex-encode_hex :
    (bs : Bytes) → All (λ b. b < 256) bs → 1 ≤ length bs → decode_hex (encode_hex bs) ≡ ok bs
unfolding decode_hex
decode_hex-encode_hex bs h long = rw (cleaned-encode_hex bs h) (decode_cleaned-encode_hex bs h long)
