-- ===== src/Ipc/Token/Compare.antt =====
-- crates/scg-ipc/src/token.rs: `ct_eq`, against equality of the bytes.
use scg.Base.{ℕ, [], ◌∷◌, true, arith, refl, ap₂, ◌≡◌, ◌↔◌, length}
use scg.Base.Bytes.{Bytes}
use scg.Base.Bits.{bit_or-eq-zero, bit_xor-eq-zero, bit_xor_self}
use scg.Ipc.Token.{CapabilityToken, IsToken, differences, ct_eq}
use Prim.Native.Nat.{bit_or, bit_xor}

-- No difference is forgotten.
differences-eq-zero :
    (diff : ℕ) (xs ys : Bytes)
    → length xs ≡ length ys
    → differences diff xs ys ≡ 0
    → (diff ≡ 0) × (xs ≡ ys)
unfolding differences
differences-eq-zero diff [] [] l e = (e, refl)
differences-eq-zero diff [] (y ∷ ys) l e = absurd (omega arith)
differences-eq-zero diff (x ∷ xs) [] l e = absurd (omega arith)
differences-eq-zero diff (x ∷ xs) (y ∷ ys) l e =
    let (d, same) = differences-eq-zero (bit_or diff (bit_xor x y)) xs ys (omega arith) e in
    let (z, x_y) = bit_or-eq-zero diff (bit_xor x y) d in
    (z, ap₂ ◌∷◌ (bit_xor-eq-zero x y x_y) same)

differences_self : (xs : Bytes) → differences 0 xs xs ≡ 0
unfolding differences
differences_self [] = refl
differences_self (x ∷ xs) = rw bit_xor_self (differences_self xs)

-- `ct_eq` accepts a candidate exactly when it is the token, byte for byte; in particular it refuses
-- every slice of another length.
pub ct_eq_iff :
    (t : CapabilityToken) (candidate : Bytes)
    → IsToken t
    → (ct_eq t candidate ≡ true) ↔ (t.bytes ≡ candidate)
unfolding ct_eq
ct_eq_iff t candidate v = (
  λ h. ground (arith, differences-eq-zero 0 t.bytes candidate),
  λ e. rw (← e) ground (arith, differences_self t.bytes),
)
