-- ===== src/CString/Digits.antt =====
-- `strtonum` on a text of digits.
use ezstream.Prelude.{
  ℕ, suc, ◌+◌, ◌-◌, ◌*◌, ◌^◌, ◌≤◌, ◌≡◌, ap, false, none, some, [], ◌∷◌, arith, ltb, if◌then◌else◌,
  length, All, pos,
}
use ezstream.CString.{Bytes}
use ezstream.CString.Numbers.{
  llong_max, skip_spaces, read_digits, saturate, read_unsigned, read_signed, strtoll, in_limits,
  strtonum, too_small, too_large,
}

abbrev pub IsDigits : Bytes → Type 0
IsDigits = All (λ c. (b'0' ≤ c) × (c ≤ b'9'))

-- The number that digits stand for.
unfoldable pub value : Bytes → ℕ
value [] = 0
value (c ∷ s) = (c - b'0') * 10 ^ length s + value s

distribute : (n d p v : ℕ) → (10 * n + d) * p + v ≡ n * (10 * p) + (d * p + v)
distribute n d p v = grind arith

horner : (n d k : ℕ) (v : ℕ) → (10 * n + d) * 10 ^ k + v ≡ n * 10 ^ suc k + (d * 10 ^ k + v)
horner n d k v =
    let power : 10 ^ suc k ≡ 10 * 10 ^ k = omega arith in rw power (distribute n d (10 ^ k) v)

read_digits_all :
    (n : ℕ) (s : Bytes) → IsDigits s → read_digits n s ≡ (n * 10 ^ length s + value s, [])
unfolding read_digits value
read_digits_all n [] h = ap (λ m. (m, [])) (omega arith)
read_digits_all n (c ∷ s) (hc, h) =
    ground
      (arith, read_digits_all (10 * n + (c - b'0')) s h, horner n (c - b'0') (length s) (value s))

skip_spaces_digit : (c : ℕ) (s : Bytes) → b'0' ≤ c → c ≤ b'9' → skip_spaces (c ∷ s) ≡ c ∷ s
unfolding skip_spaces
skip_spaces_digit c s low high = ground arith

strtoll_digits :
    (c : ℕ) (s : Bytes)
    → IsDigits (c ∷ s)
    → strtoll (c ∷ s) ≡ some (saturate false (value (c ∷ s), []))
unfolding strtoll read_signed read_unsigned
strtoll_digits c s h =
    ground (arith, skip_spaces_digit c s h.0.0 h.0.1, read_digits_all 0 (c ∷ s) h)

-- A text of digits is accepted exactly if the number lies within the limits, even where it does
-- not fit a `long long`.
pub strtonum_digits :
    (c : ℕ) (s : Bytes) (minval maxval : ℕ)
    → IsDigits (c ∷ s)
    → minval ≤ maxval
    → maxval ≤ llong_max
    → strtonum (c ∷ s) (pos minval) (pos maxval) ≡ (
        if ltb (value (c ∷ s)) minval
        then (some too_small, pos 0)
        else if ltb maxval (value (c ∷ s))
        then (some too_large, pos 0)
        else (none, pos (value (c ∷ s))))
unfolding strtonum in_limits saturate
strtonum_digits c s minval maxval h ordered fits = rw (strtoll_digits c s h) (ground arith)
