-- ===== src/Playlist/Read/Lines/Long.antt =====
-- Lines that do not fit the buffer.
use ezstream.Prelude.{
  ℕ, zero, suc, ◌-◌, ◌≡◌, refl, ap, ◌∙◌, ◌≢◌, true, Option, [], ◌∷◌, ◌++◌, arith, length, All,
  length-append,
}
use ezstream.CString.{Bytes, c_str}
use ezstream.CString.Input.{fgets}
use ezstream.CString.Search.{cut_none}
use ezstream.Playlist.{Playlist, path_max}
use ezstream.Playlist.Read.{too_long, skip_line, read_loop}
use ezstream.Playlist.Read.Lines.{newline, IsLine, fgets_line}

abbrev pub NoNul : Bytes → Type 0
NoNul = All (λ c. c ≢ 0)

fgets_full : (n : ℕ) (l rest : Bytes) → IsLine l → length l ≡ n → fgets n (l ++ rest) ≡ (l, rest)
unfolding fgets
fgets_full zero [] rest h e = refl
fgets_full zero (c ∷ l) rest h e = absurd (omega arith)
fgets_full (suc n) [] rest h e = absurd (omega arith)
fgets_full (suc n) (c ∷ l) rest (hc, h) e = ground (arith, fgets_full n l rest h (omega arith))

skip_line_lem : (l rest : Bytes) → IsLine l → skip_line (l ++ newline ∷ rest) ≡ rest
unfolding skip_line
skip_line_lem [] rest h = refl
skip_line_lem (c ∷ l) rest (hc, h) = ground (arith, skip_line_lem l rest h)

too_long_full : (l : Bytes) → NoNul l → length l ≡ path_max - 1 → too_long (c_str l) ≡ true
unfolding too_long c_str
too_long_full l h e = rw (cut_none 0 l h) (ground arith)

-- A round of the loop whose text fills the buffer.
read_loop_skip :
    (junk : Option Bytes) (fuel : ℕ) (content : Bytes) (pl : Playlist) (c : ℕ) (raw rest : Bytes)
    → fgets (path_max - 1) content ≡ (c ∷ raw, rest)
    → NoNul (c ∷ raw)
    → length (c ∷ raw) ≡ path_max - 1
    → read_loop junk (suc fuel) content pl ≡ read_loop junk fuel (skip_line rest) pl
unfolding read_loop
read_loop_skip junk fuel content pl c raw rest e h n =
    rw (e, read_loop) (rw e (rw (too_long_full (c ∷ raw) h n) refl))

NoNul-append : (a b : Bytes) → NoNul a → NoNul b → NoNul (a ++ b)
NoNul-append [] b _ h = h
NoNul-append (c ∷ a) b (hc, g) h = (hc, NoNul-append a b g h)

-- A line of `path_max - 1` bytes or more, which begins with the text `a` that fills the buffer, is
-- skipped up to its newline, and no other line is.
pub read_loop_long :
    (junk : Option Bytes) (fuel : ℕ) (a b rest : Bytes) (pl : Playlist)
    → IsLine a
    → NoNul a
    → length a ≡ path_max - 1
    → IsLine b
    → read_loop junk (suc fuel) (a ++ (b ++ newline ∷ rest)) pl ≡ read_loop junk fuel rest pl
read_loop_long junk fuel [] b rest pl ha na n hb = absurd (omega arith)
read_loop_long junk fuel (c ∷ a) b rest pl ha na n hb =
    read_loop_skip junk fuel _ pl c a (b ++ newline ∷ rest)
      (fgets_full (path_max - 1) (c ∷ a) (b ++ newline ∷ rest) ha n) na n
    ∙ ap (λ s. read_loop junk fuel s pl) (skip_line_lem b rest hb)

-- A line of exactly `path_max - 2` bytes fills the buffer together with its newline. It is taken
-- for one that is too long, and the loop that should discard its excess bytes discards the whole
-- next line instead: neither line becomes an entry.
pub read_loop_swallows :
    (junk : Option Bytes) (fuel : ℕ) (l next rest : Bytes) (pl : Playlist)
    → IsLine l
    → NoNul l
    → length l ≡ path_max - 2
    → IsLine next
    → read_loop junk (suc fuel) (l ++ newline ∷ (next ++ newline ∷ rest)) pl
      ≡ read_loop junk fuel rest pl
read_loop_swallows junk fuel [] next rest pl hl nl n hn = absurd (omega arith)
read_loop_swallows junk fuel (c ∷ l) next rest pl hl nl n hn =
    read_loop_skip junk fuel _ pl c (l ++ newline ∷ []) (next ++ newline ∷ rest)
      (fgets_line (path_max - 1) (c ∷ l) (next ++ newline ∷ rest) hl (omega arith))
      (NoNul-append (c ∷ l) (newline ∷ []) nl (omega arith))
      (omega (arith, length-append l (newline ∷ [])))
    ∙ ap (λ s. read_loop junk fuel s pl) (skip_line_lem next rest hn)
