-- ===== src/Playlist/Read/Lines.antt =====
-- Which lines of a file become entries.
pub mod Long
use ezstream.Prelude.{
  ℕ, zero, suc, ◌+◌, ◌-◌, ◌≤◌, ◌<◌, ◌≡◌, refl, ◌≢◌, Option, none, some, List, [], ◌∷◌, ◌++◌, arith,
  ◌==◌, if◌then◌else◌, length, All,
}
use ezstream.CString.{Bytes, cut, c_str}
use ezstream.CString.Input.{fgets}
use ezstream.Playlist.{path_max}
use ezstream.Playlist.Read.{line_entry}

abbrev pub newline : ℕ
newline = b'\n'

abbrev pub IsLine : Bytes → Type 0
IsLine = All (λ c. c ≢ newline)

-- A line that `playlist_read` can take: with its newline it leaves a byte of the buffer free.
abbrev pub IsShort : Bytes → Type 0
IsShort l = IsLine l × (length l + 2 < path_max)

-- The path that a line holds. A line that begins with `#` is a comment; a path ends at a carriage
-- return or NUL, and an empty path is none.
abbrev pub nonempty : Bytes → Option Bytes
nonempty [] = none
nonempty (c ∷ s) = some (c ∷ s)

unfoldable pub path_of : Bytes → Option Bytes
path_of [] = none
path_of (c ∷ l) = if c == b'#' then none else nonempty (cut b'\r' (c_str (c ∷ l)))

unfoldable pub paths : List Bytes → List Bytes
unfolding path_of
paths [] = []
paths (l ∷ ls) = elim (path_of l) [ none ↦ paths ls | some p ↦ p ∷ paths ls ]

-- The text of lines that each end in a newline.
abbrev pub unlines : List Bytes → Bytes
unlines [] = []
unlines (l ∷ ls) = l ++ newline ∷ unlines ls

pub fgets_line :
    (n : ℕ) (l rest : Bytes)
    → IsLine l
    → length l < n
    → fgets n (l ++ newline ∷ rest) ≡ (l ++ newline ∷ [], rest)
unfolding fgets
fgets_line zero l rest h room = elim room [ ]
fgets_line (suc n) [] rest h room = refl
fgets_line (suc n) (c ∷ l) rest (hc, h) room = ground (arith, fgets_line n l rest h (omega arith))

pub fgets_last : (n : ℕ) (l : Bytes) → IsLine l → length l ≤ n → fgets n l ≡ (l, [])
unfolding fgets
fgets_last zero [] h room = refl
fgets_last zero (c ∷ l) h room = absurd (omega arith)
fgets_last (suc n) [] h room = refl
fgets_last (suc n) (c ∷ l) (hc, h) room = ground (arith, fgets_last n l h (omega arith))

cut-c_str_line : (l : Bytes) → IsLine l → cut newline (c_str (l ++ newline ∷ [])) ≡ c_str l
unfolding cut c_str
cut-c_str_line [] h = refl
cut-c_str_line (c ∷ l) (hc, h) = ground (arith, cut-c_str_line l h)

cut-c_str_last : (l : Bytes) → IsLine l → cut newline (c_str l) ≡ c_str l
unfolding cut c_str
cut-c_str_last [] h = refl
cut-c_str_last (c ∷ l) (hc, h) = ground (arith, cut-c_str_last l h)

pub line_entry_line : (l : Bytes) → IsLine l → line_entry (c_str (l ++ newline ∷ [])) ≡ path_of l
unfolding line_entry path_of c_str cut
line_entry_line [] h = refl
line_entry_line (c ∷ l) (hc, h) = ground (arith, cut-c_str_line l h)

pub line_entry_last : (l : Bytes) → IsLine l → line_entry (c_str l) ≡ path_of l
unfolding line_entry path_of c_str cut
line_entry_last [] h = refl
line_entry_last (c ∷ l) (hc, h) = ground (arith, cut-c_str_last l h)
