-- ===== src/Cfg/Bounds.antt =====
-- What the macros of src/cfg_private.h keep in bounds.
use ezstream.Prelude.{
  ℕ, ◌≤◌, ◌<◌, ◌≡◌, refl, Option, none, some, [], ◌∷◌, arith, length, ℤ, pos, negsuc, LeZ,
}
use ezstream.CString.{Bytes}
use ezstream.CString.Copy.{length-strlcpy}
use ezstream.CString.Numbers.{NumError, strtonum, strtonum-bounds}
use ezstream.Cfg.{
  Error, set_strlcpy, uint_max, to_unsigned, store_choice, store_number, set_uintnum,
}

pub set_strlcpy_bound :
    (size : ℕ) (t : Bytes) (s : Option Bytes)
    → 1 ≤ size
    → length t < size
    → length (set_strlcpy size t s).1 < size
unfolding set_strlcpy
set_strlcpy_bound size t none room h = h
set_strlcpy_bound size t (some []) room h = h
set_strlcpy_bound size t (some (c ∷ s)) room h = length-strlcpy (c ∷ s) size room

pub store_choice_lem {ℓ κ ι} :
    {A : Type ℓ} {B : Type κ} (P : A → Type ι) (t : A) (e : Error) (put : B → A) (o : Option B)
    → P t
    → ((b : B) → P (put b))
    → P (store_choice t e put o).1
store_choice_lem P t e put none old new = old
store_choice_lem P t e put (some b) old new = new b

module _ {ℓ κ} {A : Type ℓ} (P : A → Type κ) (t : A) (cast : ℤ → A) (s : Bytes) (lo hi : ℤ) where
  stored :
      (r : Option NumError × ℤ)
      → strtonum s lo hi ≡ r
      → P t
      → ((v : ℤ) → LeZ lo v → LeZ v hi → P (cast v))
      → P (store_number t cast r).1
  stored (none, v) e old new = let (low, high) = strtonum-bounds s lo hi v e in new v low high
  stored (some n, v) e old new = old

  -- What holds of the old value and of every number within the limits holds of the new value.
  pub store_number-strtonum :
      P t
      → ((v : ℤ) → LeZ lo v → LeZ v hi → P (cast v))
      → P (store_number t cast (strtonum s lo hi)).1
  store_number-strtonum = stored (strtonum s lo hi) refl

pub to_unsigned-le :
    (lo hi : ℕ) (v : ℤ) → hi ≤ uint_max → LeZ (pos lo) v → LeZ v (pos hi) → to_unsigned v ≤ hi
unfolding to_unsigned
to_unsigned-le lo hi (pos n) fits low high = omega arith
to_unsigned-le lo hi (negsuc n) fits low high = elim low [ ]

pub set_uintnum_bound : (t : ℕ) (s : Option Bytes) → t ≤ uint_max → (set_uintnum t s).1 ≤ uint_max
unfolding set_uintnum
set_uintnum_bound t none h = h
set_uintnum_bound t (some []) h = h
set_uintnum_bound t (some (c ∷ s)) h =
    store_number-strtonum (λ n. n ≤ uint_max) t to_unsigned (c ∷ s) (pos 0) (pos uint_max) h
      (λ v low high. to_unsigned-le 0 uint_max v (omega arith) low high)
