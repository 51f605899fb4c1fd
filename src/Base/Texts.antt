-- ===== src/Base/Texts.antt =====
-- Rust's strings: `==` on whole texts, and what `str` answers of the characters, which stand as their
-- code points. White space is that of ASCII.
use Prim.Native.Char.{code}
use Prim.Native.String.{String}
use text.Mathlib.TextEquality.{eq_iff}
use text.Mathlib.TextPositions.{eq_refl}
use Prim.Native.Nat.{ℕ, ◌+◌, ◌-◌, ◌*◌, ◌≤◌}
use mathlib.Core.Path.{◌≡◌}
use mathlib.Core.Logic.{◌↔◌}
use mathlib.Core.Bool.{Bool, true, false, ◌&&◌, ◌||◌}
use mathlib.Core.Option.{Option, none, some}
use mathlib.Core.List.{List, [], ◌∷◌}
use native.Mathlib.Omega.{arith}
use scg.Base.Tests.{◌==◌, leb, if◌then◌else◌}
use scg.Base.Bytes.{Bytes}
use text.Mathlib.Text

abbrev pub same_text : String → String → Bool
same_text s t = Text.◌==◌ s t

pub same_text_iff : (s t : String) → (same_text s t ≡ true) ↔ (s ≡ t)
same_text_iff s t = eq_iff s t

pub same_text_refl : (s : String) → same_text s s ≡ true
same_text_refl s = eq_refl s

-- `==` of slices and of options, over the `==` of what they hold.
abbrev pub same_list {ℓ} : {A : Type ℓ} → (A → A → Bool) → List A → List A → Bool
same_list same [] [] = true
same_list same [] (y ∷ ys) = false
same_list same (x ∷ xs) [] = false
same_list same (x ∷ xs) (y ∷ ys) = same x y && same_list same xs ys

abbrev pub same_option {ℓ} : {A : Type ℓ} → (A → A → Bool) → Option A → Option A → Bool
same_option same none none = true
same_option same none (some y) = false
same_option same (some x) none = false
same_option same (some x) (some y) = same x y

pub same_list_iff {ℓ} :
    {A : Type ℓ} (same : A → A → Bool)
    → ((x y : A) → (same x y ≡ true) ↔ (x ≡ y))
    → (xs ys : List A) → (same_list same xs ys ≡ true) ↔ (xs ≡ ys)
same_list_iff same h [] [] = ground arith
same_list_iff same h [] (y ∷ ys) = ground arith
same_list_iff same h (x ∷ xs) [] = ground arith
same_list_iff same h (x ∷ xs) (y ∷ ys) = ground (arith, h x y, same_list_iff same h xs ys)

pub same_option_iff {ℓ} :
    {A : Type ℓ} (same : A → A → Bool)
    → ((x y : A) → (same x y ≡ true) ↔ (x ≡ y))
    → (o p : Option A) → (same_option same o p ≡ true) ↔ (o ≡ p)
same_option_iff same h none none = ground arith
same_option_iff same h none (some y) = ground arith
same_option_iff same h (some x) none = ground arith
same_option_iff same h (some x) (some y) = ground (arith, h x y)

-- `slice.iter().any(test)`, and `contains` of a slice.
abbrev pub any_of {ℓ} : {A : Type ℓ} → (A → Bool) → List A → Bool
any_of test [] = false
any_of test (x ∷ xs) = test x || any_of test xs

-- The code points of a text.
abbrev pub codes : String → Bytes
codes String.[] = []
codes (String.◌∷◌ c s) = code c ∷ codes s

abbrev pub is_space : ℕ → Bool
is_space c = leb 9 c && leb c 13 || c == 32

abbrev pub is_digit : ℕ → Bool
is_digit c = leb b'0' c && leb c b'9'

-- `s.contains(c)`
abbrev pub contains_code : ℕ → Bytes → Bool
contains_code c s = any_of (λ d. d == c) s

-- `s.trim_start()`, and `trim_end()` by the text's reverse.
abbrev pub trim_start : Bytes → Bytes
trim_start [] = []
trim_start (c ∷ s) = let rest = trim_start s in if is_space c then rest else c ∷ s

abbrev pub trim_end : Bytes → Bytes
trim_end [] = []
trim_end (c ∷ s) = elim (trim_end s) [ [] ↦ if is_space c then [] else c ∷ [] | d ∷ t ↦ c ∷ d ∷ t ]

abbrev pub trim : Bytes → Bytes
trim s = trim_end (trim_start s)

-- `s.split_once(c)`: what stands before the first `c`, and what after it.
abbrev pub split_once : ℕ → Bytes → Option (Bytes × Bytes)
split_once c [] = none
split_once c (d ∷ s) =
    let rest = split_once c s in
    if d == c
    then some ([], s)
    else elim rest [ none ↦ none | some (before, after) ↦ some (d ∷ before, after) ]

-- `s.rsplit_once(c)`: the same at the last `c`.
abbrev pub rsplit_once : ℕ → Bytes → Option (Bytes × Bytes)
rsplit_once c [] = none
rsplit_once c (d ∷ s) = elim (rsplit_once c s) [
  | some (before, after) ↦ some (d ∷ before, after)
  | none ↦ if d == c then some ([], s) else none
]

-- `s.split(c)`: the pieces between the separators, one more than there are separators.
abbrev pub add_to_first : ℕ → List Bytes → List Bytes
add_to_first d [] = (d ∷ []) ∷ []
add_to_first d (p ∷ ps) = (d ∷ p) ∷ ps

abbrev pub split : ℕ → Bytes → List Bytes
split c [] = [] ∷ []
split c (d ∷ s) = let rest = split c s in if d == c then [] ∷ rest else add_to_first d rest

-- `s.starts_with(p)`, and `contains` of a text in a text.
abbrev pub starts_with : Bytes → Bytes → Bool
starts_with s [] = true
starts_with [] (c ∷ p) = false
starts_with (d ∷ s) (c ∷ p) = d == c && starts_with s p

abbrev pub contains_text : Bytes → Bytes → Bool
contains_text [] p = starts_with [] p
contains_text (d ∷ s) p = starts_with (d ∷ s) p || contains_text s p

-- `s.lines()`. An empty last piece, which Rust leaves out, and a carriage return before the line feed
-- make no difference to the words of a line.
abbrev pub lines : Bytes → List Bytes
lines s = split 10 s

-- `s.split_whitespace()`: the pieces between white space that are not empty.
abbrev pub nonempty : List Bytes → List Bytes
nonempty [] = []
nonempty ([] ∷ ps) = nonempty ps
nonempty ((c ∷ p) ∷ ps) = (c ∷ p) ∷ nonempty ps

abbrev pub spaces_split : Bytes → List Bytes
spaces_split [] = [] ∷ []
spaces_split (d ∷ s) =
    let rest = spaces_split s in if is_space d then [] ∷ rest else add_to_first d rest

abbrev pub split_whitespace : Bytes → List Bytes
split_whitespace s = nonempty (spaces_split s)

-- The digits of an unsigned number, behind the value of those already read; a value beyond `limit`
-- is refused, as `checked_mul` and `checked_add` refuse it.
abbrev pub digits_from : ℕ → ℕ → Bytes → Option ℕ
digits_from limit n [] = some n
digits_from limit n (c ∷ s) =
    let next = 10 * n + (c - 48) in
    let rest = digits_from limit next s in if is_digit c && leb next limit then rest else none

-- `s.parse::<uN>()` where the largest value of the type is `limit`; one plus sign may stand in front.
abbrev pub parse_unsigned : ℕ → Bytes → Option ℕ
parse_unsigned limit [] = none
parse_unsigned limit (c ∷ []) = if c == b'+' then none else digits_from limit 0 (c ∷ [])
parse_unsigned limit (c ∷ d ∷ t) =
    if c == b'+' then digits_from limit 0 (d ∷ t) else digits_from limit 0 (c ∷ d ∷ t)

pub digits_from_le :
    (limit n : ℕ) (s : Bytes) {m : ℕ} → n ≤ limit → digits_from limit n s ≡ some m → m ≤ limit
digits_from_le limit n [] h e = ground arith
digits_from_le limit n (c ∷ s) {m} h e =
    ground (arith, digits_from_le limit (10 * n + (c - 48)) s {m = m})

pub parse_unsigned-le :
    (limit : ℕ) (s : Bytes) {m : ℕ} → parse_unsigned limit s ≡ some m → m ≤ limit
parse_unsigned-le limit [] e = ground arith
parse_unsigned-le limit (c ∷ []) {m} e = ground (arith, digits_from_le limit 0 (c ∷ []) {m = m})
parse_unsigned-le limit (c ∷ d ∷ t) {m} e =
    ground
      (arith, digits_from_le limit 0 (c ∷ d ∷ t) {m = m}, digits_from_le limit 0 (d ∷ t) {m = m})
