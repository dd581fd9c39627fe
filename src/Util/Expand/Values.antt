-- ===== src/Util/Expand/Values.antt =====
-- Which values a format string can be filled with so that no placeholder comes into being.

use ezstream.Prelude.{
  ℕ, ◌≡◌, refl, ap, ◌∙◌, ◌≢◌, ◌⊎◌, inl, inr, Option, none, some, List, [], ◌∷◌, ◌++◌, arith, ◌==◌,
  if◌then◌else◌, length, All,
}
use ezstream.CString.{Bytes}
use ezstream.Util.{Entry, util_expand_words, quote}
use ezstream.Util.Expand.{expand}
use ezstream.Util.Expand.Loop.{util_expand_words-eq-expand}
use ezstream.Util.Expand.Template.{
  at_sign, IsTable, Piece, render, fill, Fits, Inert, Inert-quote, SecondIsPlain, Inert-plain,
  AllInert, expand-render_of_inert, byte, mark,
}

abbrev pub NoAt : Bytes → Type 0
NoAt = All (λ c. c ≢ at_sign)

-- Empty, or in quotes.
abbrev pub IsQuoted : Bytes → Type 0
IsQuoted s = (s ≡ []) ⊎ ((t : Bytes) × (s ≡ quote ∷ t))

NoAt-append : (xs ys : Bytes) → NoAt xs → NoAt ys → NoAt (xs ++ ys)
NoAt-append [] ys _ h = h
NoAt-append (x ∷ xs) ys (px, g) h = (px, NoAt-append xs ys g h)

NoAt-fill : (dicts : List Entry) (ps : List Piece) → Fits NoAt dicts ps → NoAt (fill dicts ps)
unfolding fill
NoAt-fill dicts [] fits = tt
NoAt-fill dicts (byte c ∷ ps) (plain, fits) = (plain, NoAt-fill dicts ps fits)
NoAt-fill dicts (mark x ∷ ps) ((d, found, clean), fits) =
    rw found (NoAt-append d.to (fill dicts ps) clean (NoAt-fill dicts ps fits))

NoAt→SecondIsPlain : (s : Bytes) → NoAt s → SecondIsPlain s
NoAt→SecondIsPlain [] h = tt
NoAt→SecondIsPlain (c ∷ []) h = tt
NoAt→SecondIsPlain (c ∷ e ∷ s) h = h.1.0

NoAt-AllInert :
    (dicts : List Entry) (ps : List Piece) → IsTable dicts → Fits NoAt dicts ps → AllInert dicts ps
NoAt-AllInert dicts [] table fits = tt
NoAt-AllInert dicts (byte c ∷ ps) table (_, fits) = (
  Inert-plain dicts (fill dicts ps) table (NoAt→SecondIsPlain _ (NoAt-fill dicts ps fits)),
  NoAt-AllInert dicts ps table fits,
)
NoAt-AllInert dicts (mark x ∷ ps) table (_, fits) = (
  Inert-plain dicts (fill dicts ps) table (NoAt→SecondIsPlain _ (NoAt-fill dicts ps fits)),
  NoAt-AllInert dicts ps table fits,
)

-- With quoted values a filled text is empty or begins with a plain byte or with a quote.
quoted_head :
    (dicts : List Entry) (ps : List Piece)
    → Fits IsQuoted dicts ps
    → (fill dicts ps ≡ []) ⊎ ((c : ℕ) × (t : Bytes) × (fill dicts ps ≡ c ∷ t) × (c ≢ at_sign))
unfolding fill
quoted_head dicts [] fits = inl refl
quoted_head dicts (byte c ∷ ps) (plain, fits) = inr (c, fill dicts ps, refl, plain)
quoted_head dicts (mark x ∷ ps) ((d, found, inr (t, q)), fits) =
    inr (quote, t ++ fill dicts ps, ground (arith, found, q), omega arith)
quoted_head dicts (mark x ∷ ps) ((d, found, inl q), fits) =
    rw found (rw q (quoted_head dicts ps fits))

quoted_Inert :
    (dicts : List Entry) (ps : List Piece)
    → IsTable dicts
    → Fits IsQuoted dicts ps
    → Inert dicts (fill dicts ps)
unfolding fill
quoted_Inert dicts [] table fits = Inert-plain dicts [] table tt
quoted_Inert dicts (byte c ∷ ps) table (plain, fits) = elim (quoted_head dicts ps fits) [
  | inl e ↦ rw e (Inert-plain dicts (c ∷ []) table tt)
  | inr (f, t, e, h) ↦ rw e (Inert-plain dicts (c ∷ f ∷ t) table h)
]
quoted_Inert dicts (mark x ∷ ps) table ((d, found, inr (t, q)), fits) =
    rw found (rw q (Inert-quote dicts (t ++ fill dicts ps) table))
quoted_Inert dicts (mark x ∷ ps) table ((d, found, inl q), fits) =
    rw found (rw q (quoted_Inert dicts ps table fits))

quoted_AllInert :
    (dicts : List Entry) (ps : List Piece)
    → IsTable dicts
    → Fits IsQuoted dicts ps
    → AllInert dicts ps
quoted_AllInert dicts [] table fits = tt
quoted_AllInert dicts (byte c ∷ ps) table (_, fits) =
    (quoted_Inert dicts ps table fits, quoted_AllInert dicts ps table fits)
quoted_AllInert dicts (mark x ∷ ps) table (_, fits) =
    (quoted_Inert dicts ps table fits, quoted_AllInert dicts ps table fits)

not_empty : (s : Bytes) (o : Option Bytes) → s ≢ [] → (if length s == 0 then none else o) ≡ o
not_empty [] o h = absurd (h refl)
not_empty (c ∷ s) o h = ground arith

expand_words_filled :
    (dicts : List Entry) (ps : List Piece)
    → render ps ≢ []
    → expand dicts (render ps) ≡ fill dicts ps
    → util_expand_words (render ps) dicts ≡ some (fill dicts ps)
expand_words_filled dicts ps nonempty e =
    util_expand_words-eq-expand (render ps) dicts ∙ (not_empty (render ps) _ nonempty ∙ ap some e)

-- With values that hold no `@`, `util_expand_words` replaces every placeholder of a format string
-- by its value, and changes nothing else. The format is not empty, its placeholders are in the
-- table, and its other bytes are not `@`.
pub util_expand_words-render_plain :
    (dicts : List Entry) (ps : List Piece)
    → IsTable dicts
    → Fits NoAt dicts ps
    → render ps ≢ []
    → util_expand_words (render ps) dicts ≡ some (fill dicts ps)
util_expand_words-render_plain dicts ps table fits nonempty =
    expand_words_filled dicts ps nonempty
      (expand-render_of_inert NoAt dicts table ps fits (NoAt-AllInert dicts ps table fits))

-- With values that begin with a quote, as `util_shellquote` returns them, or are empty,
-- `util_expand_words` replaces every placeholder of a format string by its value, and changes
-- nothing else, even if the values hold placeholders themselves. The format is not empty, its
-- placeholders are in the table, and its other bytes are not `@`.
pub util_expand_words-render_quoted :
    (dicts : List Entry) (ps : List Piece)
    → IsTable dicts
    → Fits IsQuoted dicts ps
    → render ps ≢ []
    → util_expand_words (render ps) dicts ≡ some (fill dicts ps)
util_expand_words-render_quoted dicts ps table fits nonempty =
    expand_words_filled dicts ps nonempty
      (expand-render_of_inert IsQuoted dicts table ps fits (quoted_AllInert dicts ps table fits))
