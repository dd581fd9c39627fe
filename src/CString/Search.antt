-- ===== src/CString/Search.antt =====
-- What the searches find.
use ezstream.Prelude.{ℕ, ◌≤◌, ◌≡◌, refl, ◌≢◌, true, [], ◌∷◌, ◌++◌, arith, length, drop, All}
use ezstream.CString.{Bytes, starts_with, cut}

pub starts_with-append : (t s : Bytes) → starts_with (t ++ s) t ≡ true
unfolding starts_with
starts_with-append [] s = refl
starts_with-append (d ∷ t) s = ground (arith, starts_with-append t s)

-- A matched prefix and what follows it make up the text.
pub starts_with-drop : (s t : Bytes) → starts_with s t ≡ true → t ++ drop (length t) s ≡ s
unfolding starts_with
starts_with-drop s [] h = refl
starts_with-drop [] (d ∷ t) h = cc
starts_with-drop (c ∷ s) (d ∷ t) h = ground (arith, starts_with-drop s t)

pub length-starts_with : (s t : Bytes) → starts_with s t ≡ true → length t ≤ length s
unfolding starts_with
length-starts_with s [] h = omega arith
length-starts_with [] (d ∷ t) h = cc
length-starts_with (c ∷ s) (d ∷ t) h = ground (arith, length-starts_with s t)

-- `cut` ends at the first `c`, and changes nothing where there is none.
pub cut_none : (c : ℕ) (s : Bytes) → All (λ d. d ≢ c) s → cut c s ≡ s
unfolding cut
cut_none c [] h = refl
cut_none c (d ∷ s) h = ground (arith, cut_none c s h.1)

pub cut-append : (c : ℕ) (s t : Bytes) → All (λ d. d ≢ c) s → cut c (s ++ c ∷ t) ≡ s
unfolding cut
cut-append c [] t h = ground arith
cut-append c (d ∷ s) t h = ground (arith, cut-append c s t h.1)

pub length-cut-le : (c : ℕ) (s : Bytes) → length (cut c s) ≤ length s
unfolding cut
length-cut-le c [] = omega arith
length-cut-le c (d ∷ s) = ground (arith, length-cut-le c s)
