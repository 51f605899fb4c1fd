-- ===== src/Gateway/Wireguard/Base64.antt =====
-- gateway/src/security/wireguard_engine.rs: `b64_decode`. The bytes of a text are its code points: it fails
-- on all others.
use scg.Base.{
  ℕ, suc, Bool, true, false, not, ◌&&◌, ◌||◌, ◌==◌, ltb, leb, ◌+◌, ◌-◌, ◌*◌, ◌/◌, ◌%◌, ◌<◌, ◌≤◌,
  ◌≡◌, refl, ap, arith, Option, none, some, [], ◌∷◌, if◌then◌else◌, length, All,
}
use scg.Base.Bytes.{Bytes}

unfoldable pub b64_val : ℕ → Option ℕ
b64_val c =
    if leb b'A' c && leb c b'Z'
    then some (c - b'A')
    else if leb b'a' c && leb c b'z'
    then some (c - b'a' + 26)
    else if leb b'0' c && leb c b'9'
    then some (c - b'0' + 52)
    else if c == b'+'
    then some 62
    else if c == b'/'
    then some 63
    else none

-- What was read of a quad: the value so far, and how many pads.
abbrev Quad : Type 0
Quad = ℕ × ℕ

abbrev add_value : ℕ → Option ℕ → Option Quad
add_value acc none = none
add_value acc (some v) = some (64 * acc + v, 0)

-- The values are below 64, so that `acc |= v` behind the shift is the sum.
abbrev pub add_byte : ℕ → Option Quad → Option Quad
add_byte c none = none
add_byte c (some (acc, pad)) =
    if c == b'='
    then some (64 * acc, suc pad)
    else if ltb 0 pad
    then none
    else add_value acc (b64_val c)

abbrev no_bytes : Bytes → Bool
no_bytes [] = true
no_bytes (c ∷ s) = false

abbrev pub push_bytes : ℕ → ℕ → Bytes → Bytes
push_bytes acc pad rest =
    acc / 65536 % 256
    ∷ (if ltb pad 2 then acc / 256 % 256 ∷ (if ltb pad 1 then acc % 256 ∷ rest else rest) else rest)

abbrev pub pad_allowed : ℕ → Bool → Bool
pad_allowed pad is_last = not (ltb 0 pad && (not is_last || ltb 2 pad))

abbrev pub finish_quad : Option Quad → Bool → Option Bytes → Option Bytes
finish_quad none is_last rest = none
finish_quad (some (acc, pad)) is_last none = none
finish_quad (some (acc, pad)) is_last (some rest) =
    if pad_allowed pad is_last then some (push_bytes acc pad rest) else none

-- The quads in turn; a quad that is not whole does not come up.
unfoldable pub decode_quads : Bytes → Option Bytes
unfolding b64_val
decode_quads [] = some []
decode_quads (a ∷ []) = none
decode_quads (a ∷ b ∷ []) = none
decode_quads (a ∷ b ∷ c ∷ []) = none
decode_quads (a ∷ b ∷ c ∷ d ∷ s) =
    finish_quad (add_byte d (add_byte c (add_byte b (add_byte a (some (0, 0)))))) (no_bytes s)
      (decode_quads s)

unfoldable pub b64_decode : Bytes → Option Bytes
unfolding decode_quads
b64_decode s = if no_bytes s || not (length s % 4 == 0) then none else decode_quads s

-- The digits of RFC 4648.
abbrev digit : ℕ → ℕ
digit n =
    if ltb n 26
    then n + b'A'
    else if ltb n 52
    then n + 71
    else if ltb n 62
    then n - 4
    else if n == 62
    then b'+'
    else b'/'

abbrev pub b64_encode : Bytes → Bytes
b64_encode [] = []
b64_encode (a ∷ []) = digit (a / 4) ∷ digit (a % 4 * 16) ∷ b'=' ∷ b'=' ∷ []
b64_encode (a ∷ b ∷ []) =
    digit (a / 4) ∷ digit (a % 4 * 16 + b / 16) ∷ digit (b % 16 * 4) ∷ b'=' ∷ []
b64_encode (a ∷ b ∷ c ∷ s) =
    digit (a / 4)
    ∷ digit (a % 4 * 16 + b / 16)
    ∷ digit (b % 16 * 4 + c / 64)
    ∷ digit (c % 64)
    ∷ b64_encode s

b64_val-digit : (n : ℕ) → n < 64 → b64_val (digit n) ≡ some n
unfolding b64_val
b64_val-digit n h = ground arith

digit-pad : (n : ℕ) → n < 64 → (digit n == b'=') ≡ false
digit-pad n h = ground arith

add_byte-digit : (n acc : ℕ) → n < 64 → add_byte (digit n) (some (acc, 0)) ≡ some (64 * acc + n, 0)
add_byte-digit n acc h = rw (digit-pad n h) (rw (b64_val-digit n h) refl)

length-b64_encode : (s : Bytes) → length (b64_encode s) % 4 ≡ 0
length-b64_encode [] = refl
length-b64_encode (a ∷ []) = refl
length-b64_encode (a ∷ b ∷ []) = refl
length-b64_encode (a ∷ b ∷ c ∷ s) = omega (arith, length-b64_encode s)

-- Four digits, three before a pad, and two before two.
quad4_lem :
    (m n o p : ℕ)
    → m < 64
    → n < 64
    → o < 64
    → p < 64
    → add_byte
        (digit p)
        (add_byte (digit o) (add_byte (digit n) (add_byte (digit m) (some (0, 0)))))
      ≡ some (262144 * m + 4096 * n + 64 * o + p, 0)
quad4_lem m n o p hm hn ho hp = rw (add_byte-digit m 0 hm) (
    rw (add_byte-digit n (64 * 0 + m) hn) (
      rw (add_byte-digit o (64 * (64 * 0 + m) + n) ho)
        (rw (add_byte-digit p (64 * (64 * (64 * 0 + m) + n) + o) hp) (ground arith))))

quad3_lem :
    (m n o : ℕ)
    → m < 64
    → n < 64
    → o < 64
    → add_byte b'=' (add_byte (digit o) (add_byte (digit n) (add_byte (digit m) (some (0, 0)))))
      ≡ some (262144 * m + 4096 * n + 64 * o, 1)
quad3_lem m n o hm hn ho = rw (add_byte-digit m 0 hm) (
    rw (add_byte-digit n (64 * 0 + m) hn)
      (rw (add_byte-digit o (64 * (64 * 0 + m) + n) ho) (ground arith)))

quad2_lem :
    (m n : ℕ)
    → m < 64
    → n < 64
    → add_byte b'=' (add_byte b'=' (add_byte (digit n) (add_byte (digit m) (some (0, 0)))))
      ≡ some (262144 * m + 4096 * n, 2)
quad2_lem m n hm hn =
    rw (add_byte-digit m 0 hm) (rw (add_byte-digit n (64 * 0 + m) hn) (ground arith))

push3_lem :
    (a b c : ℕ) (rest : Bytes)
    → a < 256
    → b < 256
    → c < 256
    → push_bytes
        (262144 * (a / 4) + 4096 * (a % 4 * 16 + b / 16) + 64 * (b % 16 * 4 + c / 64) + c % 64)
        0
        rest
      ≡ a ∷ b ∷ c ∷ rest
push3_lem a b c rest ha hb hc =
    let v = 262144 * (a / 4) + 4096 * (a % 4 * 16 + b / 16) + 64 * (b % 16 * 4 + c / 64) + c % 64 in
    let whole : v ≡ 65536 * a + 256 * b + c = omega arith in
    let x : v / 65536 % 256 ≡ a = omega (arith, whole) in
    let y : v / 256 % 256 ≡ b = omega (arith, whole) in
    let z : v % 256 ≡ c = omega (arith, whole) in rw x (rw y (rw z refl))

push2_lem :
    (a b : ℕ) (rest : Bytes)
    → a < 256
    → b < 256
    → push_bytes (262144 * (a / 4) + 4096 * (a % 4 * 16 + b / 16) + 64 * (b % 16 * 4)) 1 rest
      ≡ a ∷ b ∷ rest
push2_lem a b rest ha hb =
    let v = 262144 * (a / 4) + 4096 * (a % 4 * 16 + b / 16) + 64 * (b % 16 * 4) in
    let whole : v ≡ 65536 * a + 256 * b = omega arith in
    let x : v / 65536 % 256 ≡ a = omega (arith, whole) in
    let y : v / 256 % 256 ≡ b = omega (arith, whole) in rw x (rw y refl)

push1_lem :
    (a : ℕ) (rest : Bytes)
    → a < 256
    → push_bytes (262144 * (a / 4) + 4096 * (a % 4 * 16)) 2 rest ≡ a ∷ rest
push1_lem a rest ha =
    let v = 262144 * (a / 4) + 4096 * (a % 4 * 16) in
    let whole : v ≡ 65536 * a = omega arith in
    let x : v / 65536 % 256 ≡ a = omega (arith, whole) in rw x refl

decode_quads-b64_encode : (s : Bytes) → All (λ b. b < 256) s → decode_quads (b64_encode s) ≡ some s
unfolding decode_quads
decode_quads-b64_encode [] h = refl
decode_quads-b64_encode (a ∷ []) h =
    rw (quad2_lem (a / 4) (a % 4 * 16) (omega (arith, h.0)) (omega arith))
      (ap (λ t. some t) (push1_lem a [] h.0))
decode_quads-b64_encode (a ∷ b ∷ []) h =
    rw
      (quad3_lem (a / 4) (a % 4 * 16 + b / 16) (b % 16 * 4) (omega (arith, h.0))
        (omega (arith, h.1)) (omega arith))
      (ap (λ t. some t) (push2_lem a b [] h.0 h.1.0))
decode_quads-b64_encode (a ∷ b ∷ c ∷ s) h =
    rw
      (quad4_lem (a / 4) (a % 4 * 16 + b / 16) (b % 16 * 4 + c / 64) (c % 64) (omega (arith, h.0))
        (omega (arith, h.1)) (omega (arith, h.1)) (omega arith))
      (rw (decode_quads-b64_encode s h.1.1.1)
        (ap (λ t. some t) (push3_lem a b c s h.0 h.1.0 h.1.1.0)))

not_empty_lem : (s : Bytes) → 1 ≤ length s → no_bytes (b64_encode s) ≡ false
not_empty_lem [] long = absurd (omega arith)
not_empty_lem (a ∷ []) long = refl
not_empty_lem (a ∷ b ∷ []) long = refl
not_empty_lem (a ∷ b ∷ c ∷ s) long = refl

-- At least one byte, written in the digits of RFC 4648 with its pads, is read back.
pub b64_decode-b64_encode :
    (s : Bytes) → All (λ b. b < 256) s → 1 ≤ length s → b64_decode (b64_encode s) ≡ some s
unfolding b64_decode
b64_decode-b64_encode s h long =
    rw (not_empty_lem s long) (rw (length-b64_encode s) (decode_quads-b64_encode s h))
