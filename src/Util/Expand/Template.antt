-- ===== src/Util/Expand/Template.antt =====
-- Expansion of a format string that consists of placeholders `@x@` and of bytes other than `@`.
use ezstream.Prelude.{
  ℕ, ◌≡◌, refl, ◌∙◌, ◌≢◌, Option, none, some, List, [], ◌∷◌, ◌++◌, arith, if◌then◌else◌, length,
  drop, All,
}
use ezstream.CString.{Bytes, str_eq, starts_with}
use ezstream.CString.Case.{str_eq_iff}
use ezstream.Util.{Entry, find_entry, quote}
use ezstream.Util.Expand.{replace_first, expand}

abbrev pub at_sign : ℕ
at_sign = b'@'

abbrev pub marker : ℕ → Bytes
marker x = at_sign ∷ x ∷ at_sign ∷ []

-- A table of placeholders, as both callers fill it: every `from` is `@x@` for a letter `x`.
abbrev pub IsTable : List Entry → Type 0
IsTable = All (λ d. (x : ℕ) × (d.from ≡ marker x) × (x ≢ at_sign) × (x ≢ quote))

-- The first entry for `@x@`.
unfoldable pub entry_of : List Entry → ℕ → Option Entry
entry_of [] x = none
entry_of (d ∷ dicts) x = if str_eq d.from (marker x) then some d else entry_of dicts x

pub data Piece : Type 0 where
  byte : ℕ → Piece
  mark : ℕ → Piece

-- The format string that the pieces make up.
unfoldable pub render : List Piece → Bytes
render [] = []
render (byte c ∷ ps) = c ∷ render ps
render (mark x ∷ ps) = at_sign ∷ x ∷ at_sign ∷ render ps

abbrev value_of : Option Entry → Bytes
value_of none = []
value_of (some d) = d.to

-- The text with every placeholder replaced by its value, and nothing else changed.
unfoldable pub fill : List Entry → List Piece → Bytes
unfolding entry_of
fill dicts [] = []
fill dicts (byte c ∷ ps) = c ∷ fill dicts ps
fill dicts (mark x ∷ ps) = value_of (entry_of dicts x) ++ fill dicts ps

-- No byte piece is `@`, every placeholder is in the table, and its value satisfies `P`.
abbrev pub Fits {ℓ} : (Bytes → Type ℓ) → List Entry → List Piece → Type ℓ
Fits P dicts [] = Unit
Fits P dicts (byte c ∷ ps) = (c ≢ at_sign) × Fits P dicts ps
Fits P dicts (mark x ∷ ps) = ((d : Entry) × (entry_of dicts x ≡ some d) × P d.to) × Fits P dicts ps

-- How the tests of `strncmp` come out at each shape of text.
find_entry-marker :
    (dicts : List Entry) (x : ℕ) (s : Bytes)
    → IsTable dicts
    → find_entry dicts (at_sign ∷ x ∷ at_sign ∷ s) ≡ entry_of dicts x
unfolding find_entry entry_of starts_with str_eq
find_entry-marker [] x s t = refl
find_entry-marker (d ∷ dicts) x s ((y, e, _, _), t) =
    rw (e, find_entry, entry_of) (ground (arith, find_entry-marker dicts x s t))

find_entry_other :
    (dicts : List Entry) (c : ℕ) (s : Bytes)
    → IsTable dicts
    → c ≢ at_sign
    → find_entry dicts (c ∷ s) ≡ none
unfolding find_entry starts_with
find_entry_other [] c s t h = refl
find_entry_other (d ∷ dicts) c s ((y, e, _, _), t) h =
    rw (e, find_entry) (ground (arith, find_entry_other dicts c s t h))

-- `@` in front of a text completes no placeholder.
abbrev pub Inert : List Entry → Bytes → Type 0
Inert dicts t = find_entry dicts (at_sign ∷ t) ≡ none

pub Inert-quote : (dicts : List Entry) (s : Bytes) → IsTable dicts → Inert dicts (quote ∷ s)
unfolding find_entry starts_with
Inert-quote [] s t = refl
Inert-quote (d ∷ dicts) s ((y, e, _, n), t) =
    rw (e, find_entry) (ground (arith, Inert-quote dicts s t))

-- The first two bytes of a text; only the second can complete a placeholder.
abbrev pub SecondIsPlain : Bytes → Type 0
SecondIsPlain (c ∷ e ∷ s) = e ≢ at_sign
SecondIsPlain _ = Unit

pub Inert-plain : (dicts : List Entry) (s : Bytes) → IsTable dicts → SecondIsPlain s → Inert dicts s
unfolding find_entry starts_with
Inert-plain [] s t h = refl
Inert-plain (d ∷ dicts) [] ((y, e, _, _), t) h =
    rw (e, find_entry) (ground (arith, Inert-plain dicts [] t tt))
Inert-plain (d ∷ dicts) (c ∷ []) ((y, e, _, _), t) h =
    rw (e, find_entry) (ground (arith, Inert-plain dicts (c ∷ []) t tt))
Inert-plain (d ∷ dicts) (c ∷ f ∷ s) ((y, e, _, _), t) h =
    rw (e, find_entry) (ground (arith, Inert-plain dicts (c ∷ f ∷ s) t h))

entry_of_lem :
    (dicts : List Entry) (x : ℕ) (d : Entry)
    → IsTable dicts
    → entry_of dicts x ≡ some d
    → (d.from ≡ marker x) × (x ≢ at_sign)
unfolding entry_of
entry_of_lem [] x d t h = cc
entry_of_lem (e ∷ dicts) x d ((y, f, g, _), t) h =
    ground (arith, str_eq_iff e.from (marker x), entry_of_lem dicts x d t)

-- Expanding a format string replaces each of its placeholders, and touches nothing else, wherever
-- no filled rest can complete a placeholder.
abbrev pub AllInert : List Entry → List Piece → Type 0
AllInert dicts [] = Unit
AllInert dicts (p ∷ ps) = Inert dicts (fill dicts ps) × AllInert dicts ps

replace_first-none :
    (dicts : List Entry) (t : Bytes) → find_entry dicts t ≡ none → replace_first dicts t ≡ t
unfolding replace_first
replace_first-none dicts t h = rw (h, replace_first)

replace_first-some :
    (dicts : List Entry) (t : Bytes) (d : Entry)
    → find_entry dicts t ≡ some d
    → replace_first dicts t ≡ d.to ++ drop (length d.from) t
unfolding replace_first
replace_first-some dicts t d h = rw (h, replace_first)

module _ {ℓ} (P : Bytes → Type ℓ) (dicts : List Entry) (table : IsTable dicts) where
  pub expand-render_of_inert :
      (ps : List Piece)
      → Fits P dicts ps
      → AllInert dicts ps
      → expand dicts (render ps) ≡ fill dicts ps
  unfolding expand render fill
  expand-render_of_inert [] fits inert = refl
  expand-render_of_inert (byte c ∷ ps) (plain, fits) (_, inert) =
      rw (expand-render_of_inert ps fits inert) (
        replace_first-none dicts (c ∷ fill dicts ps)
          (find_entry_other dicts c (fill dicts ps) table plain))
  expand-render_of_inert (mark x ∷ ps) ((d, found, _), fits) (here, inert) =
      let (three, letter) = entry_of_lem dicts x d table found in
      let rest = fill dicts ps in
      rw (expand-render_of_inert ps fits inert) (
        rw (replace_first-none dicts (at_sign ∷ rest) here) (
          rw
            (replace_first-none dicts (x ∷ at_sign ∷ rest)
              (find_entry_other dicts x (at_sign ∷ rest) table letter))
            (rw
              (replace_first-some dicts (at_sign ∷ x ∷ at_sign ∷ rest) d
                (find_entry-marker dicts x rest table ∙ found))
              (rw (three, found) refl))))
