-- ===== src/Main/Command/Quoted.antt =====
-- src/ezstream.c: what `_build_reencode_cmd` puts into a command.
use mathlib.Core.Option.{some-injective}
use mathlib.Core.Path.{subst}
use ezstream.Prelude.{
  ℕ, ◌-◌, ◌≡◌, refl, ap, ◌∙◌, ◌≢◌, ◌⊎◌, inl, inr, Bool, true, false, Option, none, some, List, [],
  ◌∷◌, arith, ◌==◌, if◌then◌else◌, length, take, All, ◌>>=◌,
}
use ezstream.CString.{Bytes, str_eq}
use ezstream.Util.Shell.{sh_word, sh_word-util_shellquote, outside}
use ezstream.Util.Expand.Loop.{util_expand_words-eq-expand}
use ezstream.Util.Expand.{expand}
use ezstream.Util.Expand.Template.{marker}
use ezstream.Mdata.{Mdata}
use ezstream.Mdata.Format.{mdata_strformat, mdata_strformat-some, copied, dicts}
use ezstream.Stream.Transfer.{bufsiz, buffer}
use ezstream.Cfg.{if_set}
use ezstream.Cfg.Decoder.{Decoder}
use ezstream.Cfg.Encoder.{Encoder}
use ezstream.Cfg.Global.{Metadata}
use ezstream.Util.{Entry, util_expand_words, util_shellquote}
use ezstream.Util.Expand.Template.{IsTable, Piece, render, fill, Fits, entry_of, byte, mark}
use ezstream.Util.Expand.Values.{IsQuoted, util_expand_words-render_quoted}
use ezstream.Main.Command.{
  quoted, wants_title, unless_title, custom_songinfo, for_encoder, command_dicts, pipeline,
  reencode,
}
use ezstream.Cfg.{if_set}
use ezstream.Cfg.Decoder.{Decoder}
use ezstream.Cfg.Encoder.{Encoder}
use ezstream.Cfg.Global.{Metadata}

-- No text, or exactly one word of a shell.
abbrev pub IsWord : Bytes → Type 0
IsWord t = (t ≡ []) ⊎ ((w : Bytes) × (sh_word outside t ≡ some w))

-- What may stand for a placeholder.
abbrev pub IsSafe : Bytes → Type 0
IsSafe t = IsQuoted t × IsWord t

-- Every value of a table may stand for its placeholder.
abbrev pub AllSafe : List Entry → Type 0
AllSafe = All (λ d. IsSafe d.to)

chosen-IsQuoted :
    (b : Bool) (c d : Entry) (o : Option Entry)
    → IsQuoted c.to
    → (o ≡ some d → IsQuoted d.to)
    → (if b then some c else o) ≡ some d
    → IsQuoted d.to
chosen-IsQuoted true c d o q h e = subst (λ c. IsQuoted c.to) (some-injective c d e) q
chosen-IsQuoted false c d o q h e = h e

entry_of-IsQuoted :
    (dicts : List Entry) (x : ℕ) (d : Entry)
    → AllSafe dicts
    → entry_of dicts x ≡ some d
    → IsQuoted d.to
unfolding entry_of
entry_of-IsQuoted [] x d h e = cc
entry_of-IsQuoted (c ∷ dicts) x d ((q, _), h) e =
    chosen-IsQuoted (str_eq c.from (marker x)) c d (entry_of dicts x) q
      (entry_of-IsQuoted dicts x d h) e

-- The bytes other than placeholders are not `@`, and every placeholder is in the table.
abbrev pub IsTemplate : List Entry → List Piece → Type 0
IsTemplate = Fits (λ s. Unit {0})

IsTemplate→Fits :
    (dicts : List Entry) (ps : List Piece)
    → AllSafe dicts
    → IsTemplate dicts ps
    → Fits IsQuoted dicts ps
IsTemplate→Fits dicts [] h t = tt
IsTemplate→Fits dicts (byte c ∷ ps) h (plain, t) = (plain, IsTemplate→Fits dicts ps h t)
IsTemplate→Fits dicts (mark x ∷ ps) h ((d, found, _), t) =
    ((d, found, entry_of-IsQuoted dicts x d h found), IsTemplate→Fits dicts ps h t)

util_shellquote-IsSafe : (s : Bytes) → IsSafe (util_shellquote s 0)
unfolding util_shellquote
util_shellquote-IsSafe s =
    let (k, word, _, _) = sh_word-util_shellquote s 0 in (inr (_, refl), inr (_, word))

quoted-IsSafe : (utf82char : Bytes → Bytes) (o : Option Bytes) → IsSafe (quoted utf82char o)
quoted-IsSafe utf82char none = util_shellquote-IsSafe []
quoted-IsSafe utf82char (some s) = util_shellquote-IsSafe (utf82char s)

nothing-IsSafe : IsSafe []
nothing-IsSafe = (inl refl, inl refl)

unless_title-IsSafe : (b : Bool) (t : Bytes) → IsSafe t → IsSafe (if b then [] else t)
unless_title-IsSafe true t h = nothing-IsSafe
unless_title-IsSafe false t h = h

command_dicts-AllSafe :
    (utf82char : Bytes → Bytes) (md : Mdata) (filename custom : Bytes)
    → IsSafe custom
    → AllSafe (command_dicts utf82char md filename custom)
unfolding command_dicts
command_dicts-AllSafe utf82char md filename custom h = (
  quoted-IsSafe utf82char md.artist,
  (
    quoted-IsSafe utf82char md.album,
    (quoted-IsSafe utf82char md.title, (util_shellquote-IsSafe filename, (h, tt))),
  ),
)

command_dicts-IsTable :
    (utf82char : Bytes → Bytes) (md : Mdata) (filename custom : Bytes)
    → IsTable (command_dicts utf82char md filename custom)
unfolding command_dicts
command_dicts-IsTable utf82char md filename custom = (
  (b'a', refl, omega arith, omega arith),
  (
    (b'b', refl, omega arith, omega arith),
    (
      (b't', refl, omega arith, omega arith),
      ((b'T', refl, omega arith, omega arith), ((b'M', refl, omega arith, omega arith), tt)),
    ),
  ),
)

-- A text that exists and is safe.
abbrev Gives : Option Bytes → Type 0
Gives o = (custom : Bytes) × (o ≡ some custom) × IsSafe custom

not_empty : (c : ℕ) (s : Bytes) (o : Option Bytes) → (if length (c ∷ s) == 0 then none else o) ≡ o
not_empty c s o = ground arith

formatted_text :
    (md : Mdata) (c : ℕ) (s filename : Bytes)
    → md.filename ≡ some filename
    → (buf : Bytes) × (buffer (mdata_strformat md bufsiz (some (c ∷ s))) ≡ some buf)
formatted_text md c s filename named = (
  take (bufsiz - 1) (expand (dicts md filename) (c ∷ s)),
  ap buffer (mdata_strformat-some md bufsiz (c ∷ s) filename named)
      ∙ ap (λ o. buffer (copied bufsiz o))
          (util_expand_words-eq-expand (c ∷ s) (dicts md filename) ∙ not_empty c s _),
)

unless_title-Gives :
    (program songinfo : Bytes) → IsSafe songinfo → Gives (unless_title (some program) songinfo)
unless_title-Gives program songinfo h =
    (_, refl, unless_title-IsSafe (wants_title program) songinfo h)

-- Where there is a metadata program and a format string, the metadata hold the name of a file.
abbrev pub IsNamed : Mdata → Option Bytes → Option Bytes → Type 0
IsNamed md none format = Unit
IsNamed md (some p) none = Unit
IsNamed md (some p) (some format) = (filename : Bytes) × (md.filename ≡ some filename)

custom_songinfo-Gives :
    (utf82char : Bytes → Bytes) (md : Mdata) (p format : Option Bytes) (program : Bytes)
    → format ≢ some []
    → IsNamed md p format
    → Gives (custom_songinfo utf82char md p format (some program))
unfolding custom_songinfo
custom_songinfo-Gives utf82char md none format program h named =
    unless_title-Gives program _ (quoted-IsSafe utf82char md.songinfo)
custom_songinfo-Gives utf82char md (some p) none program h named =
    (_, refl, quoted-IsSafe utf82char md.songinfo)
custom_songinfo-Gives utf82char md (some p) (some []) program h named = absurd (h refl)
custom_songinfo-Gives utf82char md (some p) (some (c ∷ s)) program h named =
    let (filename, known) = named in
    let (buf, e) = formatted_text md c s filename known in
    (
      quoted utf82char (some buf),
      ap (λ o. o >>= λ buf. some (quoted utf82char (some buf))) e,
      quoted-IsSafe utf82char (some buf),
    )

for_encoder-Gives :
    (p : Option Bytes) (program custom : Bytes)
    → IsSafe custom
    → Gives (for_encoder p (some program) custom)
unfolding for_encoder
for_encoder-Gives none program custom h = unless_title-Gives program custom h
for_encoder-Gives (some p) program custom h = (custom, refl, h)

-- The command of a decoder and an encoder whose programs are made of placeholders of the table and
-- of bytes other than `@` is the two programs with each placeholder replaced by its value and
-- nothing else changed, joined by ` | `. Whatever the metadata and the name of the file hold, a
-- shell reads each value as one word, or as nothing. The format string is not empty,
-- and where it is used the metadata hold a file name.
pub reencode-fill :
    (utf82char : Bytes → Bytes) (cfg : Metadata) (md : Mdata) (filename : Bytes) (decoder : Decoder)
    (encoder : Encoder) (ps qs : List Piece)
    → decoder.program ≡ some (render ps)
    → encoder.program ≡ some (render qs)
    → render ps ≢ []
    → render qs ≢ []
    → cfg.format_str ≢ some []
    → IsNamed md (if_set cfg.program) cfg.format_str
    → ((custom : Bytes) → IsTemplate (command_dicts utf82char md filename custom) ps)
    → ((custom : Bytes) → IsTemplate (command_dicts utf82char md filename custom) qs)
    → (custom : Bytes) × AllSafe (command_dicts utf82char md filename custom)
      × (reencode utf82char cfg md filename decoder encoder
          ≡ some (
              pipeline
                (fill (command_dicts utf82char md filename custom) ps)
                (fill (command_dicts utf82char md filename custom) qs)))
unfolding reencode
reencode-fill utf82char cfg md filename decoder encoder ps qs d e some_ps some_qs format named
      fits_ps fits_qs =
    let (first, given, safe_first) =
      custom_songinfo-Gives utf82char md (if_set cfg.program) cfg.format_str (render ps) format
        named in
    let (custom, taken, safe) =
      for_encoder-Gives (if_set cfg.program) (render qs) first safe_first in
    let table = command_dicts utf82char md filename custom in
    let all_safe = command_dicts-AllSafe utf82char md filename custom safe in
    let filled : (qs : List Piece)
        → render qs ≢ []
        → IsTemplate table qs
        → util_expand_words (render qs) table ≡ some (fill table qs) =
      λ qs nonempty fits.
        util_expand_words-render_quoted table qs
          (command_dicts-IsTable utf82char md filename custom)
          (IsTemplate→Fits table qs all_safe fits) nonempty in
    (
      custom,
      all_safe,
      rw (d, e)
          (rw given (
            rw taken (
              rw (filled ps some_ps (fits_ps custom), ◌>>=◌)
                (rw (filled qs some_qs (fits_qs custom)) refl)))),
    )
