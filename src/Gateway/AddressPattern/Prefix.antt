-- ===== src/Gateway/AddressPattern/Prefix.antt =====
-- gateway/src/management/config.rs: `cidr_contains`, against the leading bits of the addresses.
use scg.Base.Bits.{mod_unique, pow2_mono, pow2, pow2_pos, bit_and_high}
use Prim.Native.Nat.{suc, bit_and}
use native.Mathlib.Nat.{div-add-mod, div-eq_of_lt, mul-div_cancel_left}
use scg.Base.{
  ℕ, zero, suc, ◌+◌, ◌-◌, ◌*◌, ◌/◌, ◌%◌, ◌^◌, ◌≤◌, ◌<◌, ◌≡◌, ◌↔◌, ◌∙◌, refl, sym, ap, true, false,
  arith,
}
use scg.Gateway.AddressPattern.{v4, v6, prefix_mask, same_prefix, cidr_contains}

-- The power that a shift by s is.
pow_pow2 : (s : ℕ) → 2 ^ s ≡ pow2 s
pow_pow2 zero = refl
pow_pow2 (suc s) = omega (arith, pow_pow2 s)

swap : (p q : ℕ) → 0 < q → q ≤ p → (p - 1) * q ≡ (q - 1) * p + (p - q)
swap zero q pos le = absurd (omega arith)
swap (suc p) zero pos le = absurd (omega arith)
swap (suc p) (suc q) pos le = grind arith

-- For prefix lengths from 1 to the width, the mask has that many leading ones.
prefix_mask-eq :
    (bits len : ℕ)
    → 1 ≤ len
    → len ≤ bits
    → bits < 2 ^ 32
    → prefix_mask bits len ≡ pow2 (len + (bits - len)) - pow2 (bits - len)
unfolding prefix_mask
prefix_mask-eq bits len pos small width =
    ground (arith, shift, pow_pow2 bits, pow_pow2 (bits - len), whole, shifted)
  where
    shift : (bits + 2 ^ 32 - len) % 2 ^ 32 ≡ bits - len
    shift = omega arith

    whole : pow2 (len + (bits - len)) ≡ pow2 bits
    whole = ap pow2 (omega arith)

    wide : pow2 (bits - len) ≤ pow2 bits
    wide = pow2_mono (bits - len) bits (omega arith)

    shifted : (pow2 bits - 1) * pow2 (bits - len) % pow2 bits ≡ pow2 bits - pow2 (bits - len)
    shifted =
        ap (λ (t : ℕ). t % pow2 bits)
          {y = (pow2 (bits - len) - 1) * pow2 bits + (pow2 bits - pow2 (bits - len))}
          (swap (pow2 bits) (pow2 (bits - len)) (pow2_pos (bits - len)) wide)
        ∙ mod_unique (pow2 (bits - len) - 1) (pow2 bits - pow2 (bits - len)) (pow2 bits)
            (omega (arith, pow2_pos (bits - len), pow2_pos bits))

-- What is left without the remainders determines the quotient.
quotient : (q x y : ℕ) → 0 < q → x - x % q ≡ y - y % q → x / q ≡ y / q
quotient q x y pos e =
    sym (mul-div_cancel_left (x / q) pos)
    ∙ ap (λ (t : ℕ). t / q) (omega (arith, e, div-add-mod x q, div-add-mod y q))
    ∙ mul-div_cancel_left (y / q) pos

-- Equal after the mask is equal in the leading bits.
same_prefix_iff :
    (bits len net a : ℕ)
    → len ≤ bits
    → bits < 2 ^ 32
    → net < pow2 bits
    → a < pow2 bits
    → (same_prefix bits len net a ≡ true) ↔ (net / pow2 (bits - len) ≡ a / pow2 (bits - len))
same_prefix_iff bits zero net a small width hn ha =
    (λ h. nought net hn ∙ sym (nought a ha), λ h. refl)
  where
    nought : (x : ℕ) → x < pow2 bits → x / pow2 (bits - 0) ≡ 0
    nought x h = div-eq_of_lt (omega (arith, ap pow2 {x = bits - 0} {y = bits} (omega arith)))
same_prefix_iff bits (suc len) net a small width hn ha =
    rw (prefix_mask-eq bits (suc len) (omega arith) small width) (
      λ h. quotient (pow2 s) net a (pow2_pos s) (ground (arith, cleared net hn, cleared a ha)),
      λ h. ground (
        arith,
        cleared net hn,
        cleared a ha,
        div-add-mod net (pow2 s),
        div-add-mod a (pow2 s),
        ap (λ (t : ℕ). pow2 s * t) h,
      ),
    )
  where
    s : ℕ
    s = bits - suc len

    cleared : (x : ℕ) → x < pow2 bits → bit_and x (pow2 (suc len + s) - pow2 s) ≡ x - x % pow2 s
    cleared x h =
        bit_and_high (suc len) s x
          (omega (arith, ap pow2 {x = suc len + s} {y = bits} (omega arith)))

-- A CIDR pattern over IPv4, its prefix length at most 32, matches the IPv4 addresses that agree with
-- the network in that many leading bits, and no IPv6 address.
pub cidr_contains_v4 :
    (net len a : ℕ)
    → len ≤ 32
    → net < 2 ^ 32
    → a < 2 ^ 32
    → ((cidr_contains (v4 net) len (v4 a) ≡ true) ↔ (net / 2 ^ (32 - len) ≡ a / 2 ^ (32 - len)))
      × (cidr_contains (v4 net) len (v6 a) ≡ false)
unfolding cidr_contains
cidr_contains_v4 net len a small hn ha =
    (rw (pow_pow2 (32 - len)) (same_prefix_iff 32 len net a small (omega arith) hn ha), refl)

-- The same over IPv6, its prefix length at most 128.
pub cidr_contains_v6 :
    (net len a : ℕ)
    → len ≤ 128
    → net < 2 ^ 128
    → a < 2 ^ 128
    → ((cidr_contains (v6 net) len (v6 a) ≡ true) ↔ (net / 2 ^ (128 - len) ≡ a / 2 ^ (128 - len)))
      × (cidr_contains (v6 net) len (v4 a) ≡ false)
unfolding cidr_contains
cidr_contains_v6 net len a small hn ha =
    (rw (pow_pow2 (128 - len)) (same_prefix_iff 128 len net a small (omega arith) hn ha), refl)
