-- ===== src/Cfg/Errors.antt =====
-- What the macros of src/cfg_private.h leave behind after an error.
use mathlib.Core.Option.{some-injective, none-ne-some}
use ezstream.Prelude.{
  ℕ, ◌<◌, ◌≡◌, refl, sym, ap, ◌≢◌, ◌↔◌, Bool, true, false, Option, none, some, [], ◌∷◌, arith, leb,
  if◌then◌else◌, length, ℤ, pos,
}
use ezstream.CString.{Bytes, strlcpy}
use ezstream.CString.Copy.{strlcpy_fits}
use ezstream.CString.Numbers.{NumError, strtonum}
use ezstream.Cfg.{
  Error, Outcome, unless_empty, set_strlcpy, uint_max, to_unsigned, store_choice, store_number,
  set_uintnum, is_empty, too_long, number,
}

-- After any error but `too_long` the state is the old one.
abbrev pub Undone {ℓ} : {A : Type ℓ} → A → Outcome A → Type ℓ
Undone t r = (e : Error) → r.0 ≡ some e → e ≢ too_long → r.1 ≡ t

pub Undone-same {ℓ} : {A : Type ℓ} (t : A) (o : Option Error) → Undone t (o, t)
Undone-same t o e h k = refl

Undone-ok {ℓ} : {A : Type ℓ} (t u : A) → Undone t (none, u)
Undone-ok t u e h k = absurd (none-ne-some e h)

pub Undone-unless_empty {ℓ} :
    {A : Type ℓ} (t : A) (s : Option Bytes) (f : Bytes → Outcome A)
    → ((str : Bytes) → Undone t (f str))
    → Undone t (unless_empty t s f)
Undone-unless_empty t none f h = Undone-same t (some is_empty)
Undone-unless_empty t (some []) f h = Undone-same t (some is_empty)
Undone-unless_empty t (some (c ∷ s)) f h = h (c ∷ s)

pub Undone-store_choice {ℓ κ} :
    {A : Type ℓ} {B : Type κ} (t : A) (e : Error) (put : B → A) (o : Option B)
    → Undone t (store_choice t e put o)
Undone-store_choice t e put none = Undone-same t (some e)
Undone-store_choice t e put (some b) = Undone-ok t (put b)

pub Undone-store_number {ℓ} :
    {A : Type ℓ} (t : A) (cast : ℤ → A) (r : Option NumError × ℤ) → Undone t (store_number t cast r)
Undone-store_number t cast (none, v) = Undone-ok t (cast v)
Undone-store_number t cast (some n, v) = Undone-same t (some (number n))

too_long_or_ok : (b : Bool) (t u : Bytes) → Undone t ((if b then some too_long else none), u)
too_long_or_ok true t u e h k = absurd (k (sym (some-injective too_long e h)))
too_long_or_ok false t u e h k = Undone-ok t u e h k

pub Undone-set_strlcpy : (size : ℕ) (t : Bytes) (s : Option Bytes) → Undone t (set_strlcpy size t s)
unfolding set_strlcpy
Undone-set_strlcpy size t s =
    Undone-unless_empty t s _ (λ str. too_long_or_ok (leb size (length str)) t (strlcpy str size))

pub Undone-set_uintnum : (t : ℕ) (s : Option Bytes) → Undone t (set_uintnum t s)
unfolding set_uintnum
Undone-set_uintnum t s =
    Undone-unless_empty t s _
      (λ str. Undone-store_number t to_unsigned (strtonum str (pos 0) (pos uint_max)))

-- A fixed-size string is set to the whole argument or not at all: SET_STRLCPY succeeds exactly if
-- the argument is not NULL, not empty and shorter than the array, and then stores all of it.
pub set_strlcpy_ok :
    (size : ℕ) (t : Bytes) (s : Option Bytes)
    → ((set_strlcpy size t s).0 ≡ none) ↔ (
        (str : Bytes) × (s ≡ some str)
        × (str ≢ [])
        × (length str < size)
        × (set_strlcpy size t s ≡ (none, str)))
unfolding set_strlcpy
set_strlcpy_ok size t none =
    (λ h. absurd (none-ne-some is_empty (sym h)), λ (str, _, _, _, r). ap (λ z. z.0) r)
set_strlcpy_ok size t (some []) =
    (λ h. absurd (none-ne-some is_empty (sym h)), λ (str, _, _, _, r). ap (λ z. z.0) r)
set_strlcpy_ok size t (some (c ∷ s)) = (
  λ h.
      let fits : length (c ∷ s) < size = ground arith in
      (
        c ∷ s,
        refl,
        λ e. omega (arith, ap length e),
        fits,
        rw (strlcpy_fits (c ∷ s) size fits) (ap (λ o. (o, c ∷ s)) h),
      ),
  λ (str, _, _, _, r). ap (λ z. z.0) r,
)
