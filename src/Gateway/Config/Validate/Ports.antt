-- ===== src/Gateway/Config/Validate/Ports.antt =====
-- gateway/src/management/config.rs: the specifications of ports and of an upstream endpoint.
use scg.Base.{
  inr, inl, Result-cases, ℕ, Bool, true, false, ◌||◌, ◌==◌, ltb, ◌≤◌, ◌≡◌, Option, none, some, List,
  [], ◌∷◌, if◌then◌else◌, Result, ok, err, ◌>>=◌, All, refl, arith,
}
use scg.Base.Bytes.{Bytes}
use scg.Base.Texts.{trim, split, split_once, rsplit_once, parse_unsigned, parse_unsigned-le}

pub data PortFault : Type 0 where
  empty_segment invalid_port port_zero inverted_range : PortFault

abbrev pub parse_u16 : Bytes → Option ℕ
parse_u16 s = parse_unsigned 65535 s

abbrev check_range : Option ℕ → Option ℕ → Result (Unit {0}) PortFault
check_range none hi = err invalid_port
check_range (some lo) none = err invalid_port
check_range (some lo) (some hi) =
    if lo == 0 || hi == 0 then err port_zero else if ltb hi lo then err inverted_range else ok tt

abbrev check_port : Option ℕ → Result (Unit {0}) PortFault
check_port none = err invalid_port
check_port (some port) = if port == 0 then err port_zero else ok tt

abbrev check_nonempty : Bytes → Result (Unit {0}) PortFault
check_nonempty [] = err empty_segment
check_nonempty (c ∷ s) = elim (split_once b':' (c ∷ s)) [
  | none ↦ check_port (parse_u16 (c ∷ s))
  | some (lo, hi) ↦ check_range (parse_u16 (trim lo)) (parse_u16 (trim hi))
]

unfoldable pub check_segment : Bytes → Result (Unit {0}) PortFault
check_segment part = check_nonempty (trim part)

unfoldable pub check_segments : List Bytes → Result (Unit {0}) PortFault
unfolding check_segment
check_segments [] = ok tt
check_segments (p ∷ ps) = check_segment p >>= λ _. check_segments ps

unfoldable pub validate_port_spec : Bytes → Result (Unit {0}) PortFault
unfolding check_segments
validate_port_spec spec = check_segments (split b',' spec)

-- The ports that a segment stands for, from the lowest to the highest.
abbrev single : Option ℕ → Option (ℕ × ℕ)
single none = none
single (some p) = some (p, p)

abbrev both : Option ℕ → Option ℕ → Option (ℕ × ℕ)
both none hi = none
both (some lo) none = none
both (some lo) (some hi) = some (lo, hi)

abbrev pub segment_range : Bytes → Option (ℕ × ℕ)
segment_range part = elim (split_once b':' part) [
  | none ↦ single (parse_u16 part)
  | some (lo, hi) ↦ both (parse_u16 (trim lo)) (parse_u16 (trim hi))
]

-- A segment, less the white space around it, stands for a range of ports that is not empty.
abbrev pub IsRange : Bytes → Type 0
IsRange part =
    (lo : ℕ) × (hi : ℕ) × (segment_range (trim part) ≡ some (lo, hi))
    × (1 ≤ lo)
    × (lo ≤ hi)
    × (hi ≤ 65535)

check_port-range :
    (o : Option ℕ)
    → ((n : ℕ) → o ≡ some n → n ≤ 65535)
    → check_port o ≡ ok tt
    → (lo : ℕ) × (hi : ℕ) × (single o ≡ some (lo, hi)) × (1 ≤ lo) × (lo ≤ hi) × (hi ≤ 65535)
check_port-range none le e = absurd (ground arith)
check_port-range (some p) le e = (p, p, refl, ground arith, omega arith, le p refl)

check_range-range :
    (a b : Option ℕ)
    → ((n : ℕ) → b ≡ some n → n ≤ 65535)
    → check_range a b ≡ ok tt
    → (lo : ℕ) × (hi : ℕ) × (both a b ≡ some (lo, hi)) × (1 ≤ lo) × (lo ≤ hi) × (hi ≤ 65535)
check_range-range none b le e = absurd (ground arith)
check_range-range (some lo) none le e = absurd (ground arith)
check_range-range (some lo) (some hi) le e = (lo, hi, refl, ground arith, ground arith, le hi refl)

check_nonempty-range :
    (t : Bytes)
    → check_nonempty t ≡ ok tt
    → (lo : ℕ) × (hi : ℕ) × (segment_range t ≡ some (lo, hi)) × (1 ≤ lo) × (lo ≤ hi) × (hi ≤ 65535)
check_nonempty-range [] e = absurd (ground arith)
check_nonempty-range (c ∷ s) e = go (split_once b':' (c ∷ s)) e
  where
    go :
        (o : Option (Bytes × Bytes))
        → elim o as (λ _. Result (Unit {0}) PortFault) [
          | none ↦ check_port (parse_u16 (c ∷ s))
          | some (lo, hi) ↦ check_range (parse_u16 (trim lo)) (parse_u16 (trim hi))
        ]
          ≡ ok tt
        → (lo : ℕ) × (hi : ℕ) × (elim o as (λ _. Option (ℕ × ℕ)) [
          | none ↦ single (parse_u16 (c ∷ s))
          | some (l, h) ↦ both (parse_u16 (trim l)) (parse_u16 (trim h))
        ]
            ≡ some (lo, hi))
          × (1 ≤ lo)
          × (lo ≤ hi)
          × (hi ≤ 65535)
    go none f = check_port-range (parse_u16 (c ∷ s)) (λ n g. parse_unsigned-le 65535 (c ∷ s) g) f
    go (some (lo, hi)) f =
        check_range-range (parse_u16 (trim lo)) (parse_u16 (trim hi))
          (λ n g. parse_unsigned-le 65535 (trim hi) g) f

check_segments-IsRange : (ps : List Bytes) → check_segments ps ≡ ok tt → All IsRange ps
unfolding check_segments check_segment
check_segments-IsRange [] e = tt
check_segments-IsRange (p ∷ ps) e = elim (Result-cases (check_segment p)) [
  | inl (tt, f) ↦ (check_nonempty-range (trim p) f, check_segments-IsRange ps (ground (arith, f)))
  | inr (x, f) ↦ absurd (ground (arith, f))
]

-- In a port specification that is accepted, every segment between the commas is a port or a range of
-- ports from 1 to 65535, the lowest not above the highest.
pub validate_port_spec-IsRange :
    (spec : Bytes) → validate_port_spec spec ≡ ok tt → All IsRange (split b',' spec)
unfolding validate_port_spec
validate_port_spec-IsRange spec e = check_segments-IsRange (split b',' spec) e

-- `host.strip_prefix('[').and_then(|h| h.strip_suffix(']')).unwrap_or(host)`
abbrev strip_suffix : ℕ → Bytes → Option Bytes
strip_suffix c [] = none
strip_suffix c (d ∷ []) = if d == c then some [] else none
strip_suffix c (d ∷ e ∷ s) = elim (strip_suffix c (e ∷ s)) [ none ↦ none | some t ↦ some (d ∷ t) ]

abbrev or_whole : Bytes → Option Bytes → Bytes
or_whole host none = host
or_whole host (some h) = h

abbrev strip_brackets : Bytes → Bytes
strip_brackets [] = []
strip_brackets (c ∷ s) = if c == b'[' then or_whole (c ∷ s) (strip_suffix b']' s) else c ∷ s

pub data EndpointFault : Type 0 where
  no_separator empty_host bad_port zero_port : EndpointFault

abbrev check_endpoint_port : Option ℕ → Result (Unit {0}) EndpointFault
check_endpoint_port none = err bad_port
check_endpoint_port (some port) = if port == 0 then err zero_port else ok tt

abbrev is_empty_text : Bytes → Bool
is_empty_text [] = true
is_empty_text (c ∷ s) = false

unfoldable pub validate_host_port : Bytes → Result (Unit {0}) EndpointFault
validate_host_port s = elim (rsplit_once b':' s) [
  | none ↦ err no_separator
  | some (host, port) ↦
      if is_empty_text (strip_brackets host)
      then err empty_host
      else check_endpoint_port (parse_u16 port)
]
