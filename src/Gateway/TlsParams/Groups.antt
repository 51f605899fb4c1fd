-- ===== src/Gateway/TlsParams/Groups.antt =====
-- gateway/src/security/tls_engine/params.rs: the list of key-exchange groups and `is_allowed_group`.
use scg.Base.{
  ==_iff, Bool-cases, inl, inr, length, ◌≤◌, ◌↔◌, bind-ok, ℕ, Bool, true, ◌&&◌, ◌||◌, ◌==◌, leb,
  ◌+◌, ◌≡◌, arith, List, [], ◌∷◌, if◌then◌else◌, Result, ok, err, ◌>>=◌, All, Any,
}
use scg.Base.Bytes.{Bytes}
use scg.Base.Texts.{same_list, any_of, codes, trim, add_to_first, nonempty, same_list_iff}
use scg.Gateway.TlsParams.{TlsFault, bad_group, no_groups}

abbrev to_ascii_lowercase : ℕ → ℕ
to_ascii_lowercase c = if leb b'A' c && leb c b'Z' then c + 32 else c

abbrev pub lowercase : Bytes → Bytes
lowercase [] = []
lowercase (c ∷ s) = to_ascii_lowercase c ∷ lowercase s

abbrev pub same_bytes : Bytes → Bytes → Bool
same_bytes = same_list (λ a b. a == b)

abbrev pub allowed_groups : List Bytes
allowed_groups =
    codes "x25519"
    ∷ codes "x448"
    ∷ codes "p-256"
    ∷ codes "prime256v1"
    ∷ codes "secp256r1"
    ∷ codes "p-384"
    ∷ codes "secp384r1"
    ∷ []

unfoldable pub is_allowed_group : Bytes → Bool
is_allowed_group token = any_of (same_bytes (lowercase token)) allowed_groups

-- `groups.split([':', ','])`
abbrev split_groups : Bytes → List Bytes
split_groups [] = [] ∷ []
split_groups (d ∷ s) =
    let rest = split_groups s in if d == b':' || d == b',' then [] ∷ rest else add_to_first d rest

abbrev pub trimmed : List Bytes → List Bytes
trimmed [] = []
trimmed (p ∷ ps) = trim p ∷ trimmed ps

-- The tokens of a list of groups.
unfoldable pub group_tokens : Bytes → List Bytes
group_tokens groups = nonempty (trimmed (split_groups groups))

abbrev pub check_tokens : List Bytes → Result (Unit {0}) TlsFault
check_tokens [] = ok tt
check_tokens (token ∷ tokens) =
    let rest = check_tokens tokens in if is_allowed_group token then rest else err bad_group

abbrev pub check_some : List Bytes → Result (Unit {0}) TlsFault
check_some [] = err no_groups
check_some (token ∷ tokens) = ok tt

unfoldable pub check_groups : Bytes → Result (Unit {0}) TlsFault
unfolding is_allowed_group group_tokens
check_groups groups = check_tokens (group_tokens groups) >>= λ _. check_some (group_tokens groups)

-- A token is, but for the case of its letters, the name of an allowed group.
abbrev pub IsStrong : Bytes → Type 0
IsStrong token = Any (λ g. lowercase token ≡ g) allowed_groups

same_bytes_iff : (s t : Bytes) → (same_bytes s t ≡ true) ↔ (s ≡ t)
same_bytes_iff s t = same_list_iff (λ a b. a == b) ==_iff s t

any_of-Any : (s : Bytes) (gs : List Bytes) → any_of (same_bytes s) gs ≡ true → Any (λ g. s ≡ g) gs
any_of-Any s [] h = absurd (ground (arith, h))
any_of-Any s (g ∷ gs) h = elim (Bool-cases (same_bytes s g)) [
  | inl same ↦ inl ((same_bytes_iff s g).0 same)
  | inr other ↦ inr (any_of-Any s gs (ground (arith, h, other)))
]

is_allowed_group-IsStrong : (t : Bytes) → is_allowed_group t ≡ true → IsStrong t
unfolding is_allowed_group
is_allowed_group-IsStrong t allowed = any_of-Any (lowercase t) allowed_groups allowed

check_tokens-IsStrong : (ts : List Bytes) → check_tokens ts ≡ ok tt → All IsStrong ts
check_tokens-IsStrong [] h = tt
check_tokens-IsStrong (t ∷ ts) h = elim (Bool-cases (is_allowed_group t)) [
  | inl allowed ↦
      (is_allowed_group-IsStrong t allowed, check_tokens-IsStrong ts (ground (arith, h, allowed)))
  | inr refused ↦ absurd (ground (arith, h, refused))
]

check_some-ok : (ts : List Bytes) → check_some ts ≡ ok tt → 1 ≤ length ts
check_some-ok [] h = absurd (ground (arith, h))
check_some-ok (t ∷ ts) h = omega arith

-- What an accepted list of groups consists of.
abbrev pub AreStrong : Bytes → Type 0
AreStrong groups = All IsStrong (group_tokens groups) × (1 ≤ length (group_tokens groups))

pub check_groups-AreStrong : (groups : Bytes) → check_groups groups ≡ ok tt → AreStrong groups
unfolding check_groups
check_groups-AreStrong groups h =
    let (u, first, second) =
      bind-ok (check_tokens (group_tokens groups)) (λ _. check_some (group_tokens groups)) h in
    (check_tokens-IsStrong (group_tokens groups) first, check_some-ok (group_tokens groups) second)
