-- ===== src/Ipc/Token.antt =====
-- crates/scg-ipc/src/token.rs: single-use capability tokens. How long the comparison takes is not
-- modelled; what it answers is.
pub mod Compare
use scg.Base.{
  ◌≡◌, ℕ, zero, suc, Bool, false, List, [], ◌∷◌, Option, none, some, ◌==◌, if◌then◌else◌, not,
  length,
}
use scg.Base.Bytes.{Bytes}
use Prim.Native.Nat.{bit_or, bit_xor}

abbrev pub token_len : ℕ
token_len = 32

pub record CapabilityToken : Type 0 where
  pub bytes : Bytes

-- The type `[u8; TOKEN_LEN]` of the bytes.
abbrev pub IsToken : CapabilityToken → Type 0
IsToken t = length t.bytes ≡ token_len

-- `os::fill_random` is a system call: its answer is an argument.
pub random : Option Bytes → Option CapabilityToken
random none = none
random (some bytes) = some (record { bytes = bytes })

unfoldable pub from_bytes : Bytes → CapabilityToken
from_bytes bytes = record { bytes = bytes }

unfoldable pub as_bytes : CapabilityToken → Bytes
as_bytes t = t.bytes

-- `for (&actual, &expected) in self.0.iter().zip(candidate.iter()) { diff |= actual ^ expected; }`
pub differences : ℕ → Bytes → Bytes → ℕ
differences diff (actual ∷ as') (expected ∷ es) =
    differences (bit_or diff (bit_xor actual expected)) as' es
differences diff _ _ = diff

unfoldable pub ct_eq : CapabilityToken → Bytes → Bool
unfolding differences
ct_eq t candidate =
    if not (length candidate == token_len) then false else (differences 0 t.bytes candidate == 0)

-- `Drop` overwrites the whole array.
zeros : ℕ → Bytes
zeros zero = []
zeros (suc n) = 0 ∷ zeros n

pub zeroize_token_bytes : Bytes → Bytes
unfolding zeros
zeroize_token_bytes bytes = zeros token_len
