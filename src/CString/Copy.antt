-- ===== src/CString/Copy.antt =====
-- Bounded copies.
use ezstream.Prelude.{ℕ, ◌+◌, ◌-◌, ◌≤◌, ◌<◌, ◌≡◌, ap, ◌++◌, arith, length, take_all, length-take}
use ezstream.CString.{Bytes, strlcpy, strlcat, snprintf_s}

pub strlcpy_fits : (s : Bytes) (size : ℕ) → length s < size → strlcpy s size ≡ s
unfolding strlcpy
strlcpy_fits s size h = take_all (size - 1) s (omega arith)

pub length-strlcpy : (s : Bytes) (size : ℕ) → 1 ≤ size → length (strlcpy s size) < size
unfolding strlcpy
length-strlcpy s size h = omega (arith, length-take (size - 1) s)

pub strlcat_fits : (d s : Bytes) (size : ℕ) → length d + length s < size → strlcat d s size ≡ d ++ s
unfolding strlcat
strlcat_fits d s size h = ap (λ x. d ++ x) (take_all (size - length d - 1) s (omega arith))

pub snprintf_s_fits : (s : Bytes) (size : ℕ) → length s < size → snprintf_s size s ≡ s
unfolding snprintf_s
snprintf_s_fits s size h = take_all (size - 1) s (omega arith)
