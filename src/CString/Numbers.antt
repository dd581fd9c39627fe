-- ===== src/CString/Numbers.antt =====
-- Reading numbers: strtoll(3) to base 10, and compat/strtonum.c.
use mathlib.Core.Path.{subst}
use ezstream.Prelude.{
  ℕ, ◌+◌, ◌-◌, ◌*◌, ◌^◌, ◌≡◌, inl, inr, Bool, true, false, ◌&&◌, ◌||◌, Option, none, some, [], ◌∷◌,
  arith, leb, ◌==◌, if◌then◌else◌, Bool-cases, Option-cases, ℤ, pos, negsuc, neg, ltbℤ, LeZ,
}
use ezstream.CString.{Bytes, str_eq}

abbrev pub llong_max : ℕ
llong_max = 2 ^ 63 - 1

abbrev pub is_space : ℕ → Bool
is_space c = c == b' ' || leb b'\t' c && leb c b'\r'

abbrev pub is_digit : ℕ → Bool
is_digit c = leb b'0' c && leb c b'9'

unfoldable pub skip_spaces : Bytes → Bytes
skip_spaces [] = []
skip_spaces (c ∷ s) = if is_space c then skip_spaces s else c ∷ s

-- The number that the digits in front make up, behind those read before, and the rest.
unfoldable pub read_digits : ℕ → Bytes → ℕ × Bytes
read_digits n [] = (n, [])
read_digits n (c ∷ s) = if is_digit c then read_digits (10 * n + (c - b'0')) s else (n, c ∷ s)

-- What `strtoll` leaves: the number, whether `errno` is ERANGE, and where it stopped.
pub record Parsed : Type 0 where
  pub ll : ℤ
  pub erange : Bool
  pub ep : Bytes

unfoldable pub saturate : Bool → ℕ × Bytes → Parsed
saturate negative (n, ep) =
    if negative
    then (if leb n (llong_max + 1)
        then record { ll = neg n; erange = false; ep = ep }
        else record { ll = negsuc llong_max; erange = true; ep = ep })
    else if leb n llong_max
    then record { ll = pos n; erange = false; ep = ep }
    else record { ll = pos llong_max; erange = true; ep = ep }

-- `none` if there is no number: then `strtoll` sets `ep` to the start of the text.
unfoldable pub read_unsigned : Bool → Bytes → Option Parsed
unfolding read_digits saturate
read_unsigned negative [] = none
read_unsigned negative (c ∷ s) =
    if is_digit c then some (saturate negative (read_digits 0 (c ∷ s))) else none

unfoldable pub read_signed : Bytes → Option Parsed
unfolding read_unsigned
read_signed [] = none
read_signed (c ∷ s) =
    if c == b'-'
    then read_unsigned true s
    else if c == b'+'
    then read_unsigned false s
    else read_unsigned false (c ∷ s)

unfoldable pub strtoll : Bytes → Option Parsed
unfolding skip_spaces read_signed
strtoll numstr = read_signed (skip_spaces numstr)

pub data NumError : Type 0 where
  invalid : NumError
  too_small : NumError
  too_large : NumError

-- Whether `ll == LLONG_MIN`, `ll == LLONG_MAX`.
abbrev is_llong_min : ℤ → Bool
is_llong_min (pos n) = false
is_llong_min (negsuc n) = n == llong_max

abbrev is_llong_max : ℤ → Bool
is_llong_max (pos n) = n == llong_max
is_llong_max (negsuc n) = false

unfoldable pub in_limits : ℤ → ℤ → Parsed → Option NumError × ℤ
in_limits minval maxval p =
    if str_eq p.ep []
    then (if is_llong_min p.ll && p.erange || ltbℤ p.ll minval
        then (some too_small, pos 0)
        else if is_llong_max p.ll && p.erange || ltbℤ maxval p.ll
        then (some too_large, pos 0)
        else (none, p.ll))
    else (some invalid, pos 0)

-- `strtonum`: the error, if there is one, and the number, which is 0 with an error.
unfoldable pub strtonum : Bytes → ℤ → ℤ → Option NumError × ℤ
unfolding strtoll in_limits str_eq
strtonum numstr minval maxval =
    if ltbℤ maxval minval
    then (some invalid, pos 0)
    else elim (strtoll numstr) [ none ↦ (some invalid, pos 0) | some p ↦ in_limits minval maxval p ]

not_ltb→Le : (a b : ℤ) → ltbℤ a b ≡ false → LeZ b a
not_ltb→Le (pos a) (pos b) h = ground arith
not_ltb→Le (pos a) (negsuc b) h = tt
not_ltb→Le (negsuc a) (pos b) h = cc
not_ltb→Le (negsuc a) (negsuc b) h = ground arith

in_limits_lem :
    (minval maxval v : ℤ) (p : Parsed)
    → in_limits minval maxval p ≡ (none, v)
    → (p.ll ≡ v) × (ltbℤ p.ll minval ≡ false) × (ltbℤ maxval p.ll ≡ false)
unfolding in_limits
in_limits_lem minval maxval v p h = ground arith

-- A number that is accepted lies within the limits.
pub strtonum-bounds :
    (numstr : Bytes) (minval maxval v : ℤ)
    → strtonum numstr minval maxval ≡ (none, v)
    → LeZ minval v × LeZ v maxval
unfolding strtonum
strtonum-bounds numstr minval maxval v h = elim (Bool-cases (ltbℤ maxval minval)) [
  | inl e ↦ absurd (ground (arith, e))
  | inr e ↦ elim (Option-cases (strtoll numstr)) [
    | inl f ↦ absurd (ground (arith, e, f))
    | inr (p, f) ↦
        let (same, low, high) = in_limits_lem minval maxval v p (ground (arith, e, f)) in
        subst (λ z. LeZ minval z × LeZ z maxval) same
          (not_ltb→Le p.ll minval low, not_ltb→Le maxval p.ll high)
  ]
]
