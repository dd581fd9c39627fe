-- ===== src/CString/Decimal.antt =====
-- printf(3) on an `unsigned int`, which has at most ten digits.
use mathlib.Core.Path.{subst}
use ezstream.Prelude.{
  ℕ, zero, suc, ◌+◌, ◌-◌, ◌*◌, ◌/◌, ◌%◌, ◌^◌, ◌<◌, ◌≡◌, refl, sym, ap, ◌∙◌, inl, inr, [], ◌∷◌, ◌++◌,
  arith, ltb, if◌then◌else◌, ltb→lt, Bool-cases, length, length-append, All-append,
}
use ezstream.CString.{Bytes}
use ezstream.CString.Digits.{IsDigits, value}

-- The digits, where more than `more` digits in front of the last are left out.
unfoldable pub digits : ℕ → ℕ → Bytes
digits zero n = (b'0' + n % 10) ∷ []
digits (suc more) n =
    let front = digits more (n / 10) in
    if ltb n 10 then (b'0' + n) ∷ [] else front ++ (b'0' + n % 10) ∷ []

abbrev max_more : ℕ
max_more = 9

-- `%u`
unfoldable pub decimal : ℕ → Bytes
decimal n = digits max_more n

digit-IsDigits : (n : ℕ) → n < 10 → IsDigits ((b'0' + n) ∷ [])
digit-IsDigits n less = ((omega arith, omega arith), tt)

digits-IsDigits : (more n : ℕ) → IsDigits (digits more n)
unfolding digits
digits-IsDigits zero n = digit-IsDigits (n % 10) (omega arith)
digits-IsDigits (suc more) n = elim (Bool-cases (ltb n 10)) [
  | inl e ↦ rw e (digit-IsDigits n (ltb→lt n 10 e))
  | inr e ↦ rw e (
      All-append _ (digits more (n / 10)) ((b'0' + n % 10) ∷ []) (digits-IsDigits more (n / 10))
        (digit-IsDigits (n % 10) (omega arith)))
]

distribute : (a p v d : ℕ) → a * (10 * p) + (10 * v + d) ≡ 10 * (a * p + v) + d
distribute a p v d = grind arith

longer : (s : Bytes) (d : ℕ) → 10 ^ length (s ++ (b'0' + d) ∷ []) ≡ 10 * 10 ^ length s
longer s d = rw (length-append s ((b'0' + d) ∷ [])) (ap (◌^◌ 10) (omega arith) ∙ power (length s))
  where
    power : (n : ℕ) → 10 ^ suc n ≡ 10 * 10 ^ n
    power n = omega arith

value-append : (s : Bytes) (d : ℕ) → value (s ++ (b'0' + d) ∷ []) ≡ 10 * value s + d
unfolding value
value-append [] d = omega arith
value-append (c ∷ s) d =
    rw (value-append s d) (rw (longer s d) (distribute (c - b'0') (10 ^ length s) (value s) d))

shorter : (more n : ℕ) → n < 10 ^ suc (suc more) → n / 10 < 10 ^ suc more
shorter more n less =
    let power : 10 ^ suc (suc more) ≡ 10 * 10 ^ suc more = omega arith in omega arith

value-digits : (more n : ℕ) → n < 10 ^ suc more → value (digits more n) ≡ n
unfolding digits value
value-digits zero n less = omega arith
value-digits (suc more) n less = elim (Bool-cases (ltb n 10)) [
  | inl e ↦ rw e (omega arith)
  | inr e ↦ rw e (
      value-append (digits more (n / 10)) (n % 10)
      ∙ ap (λ m. 10 * m + n % 10) (value-digits more (n / 10) (shorter more n less))
      ∙ omega arith)
]

digits-nonempty : (more n : ℕ) → (c : ℕ) × (s : Bytes) × (digits more n ≡ c ∷ s)
unfolding digits
digits-nonempty zero n = (_, _, refl)
digits-nonempty (suc more) n = elim (Bool-cases (ltb n 10)) [
  | inl e ↦ rw e (_, _, refl)
  | inr e ↦ let (c, s, f) = digits-nonempty more (n / 10) in rw e (rw f (c, _, refl))
]

-- The text of a number that fits is made of digits, begins with one, and stands for the number.
pub decimal_lem :
    (n : ℕ)
    → n < 10 ^ 10
    → (c : ℕ) × (s : Bytes) × (decimal n ≡ c ∷ s) × IsDigits (c ∷ s) × (value (c ∷ s) ≡ n)
unfolding decimal
decimal_lem n less =
    let (c, s, e) = digits-nonempty max_more n in
    (
      c,
      s,
      e,
      subst IsDigits e (digits-IsDigits max_more n),
      ap value (sym e) ∙ value-digits max_more n less,
    )
