-- ===== src/Mdata/Format.antt =====
-- src/mdata.c: `mdata_strformat`.
use ezstream.Prelude.{
  ℕ, zero, suc, ◌+◌, ◌-◌, ◌≡◌, refl, ap, ◌∙◌, ◌≢◌, Bool, false, ◌||◌, Option, none, some, List, [],
  ◌∷◌, arith, if◌then◌else◌, length, take, drop,
}
use ezstream.CString.{Bytes, str_eq}
use ezstream.Util.{Entry, Buffer, find_entry, expand_at, util_expand_words}
use ezstream.Util.Expand.Template.{IsTable, Piece, render, fill, Fits}
use ezstream.Util.Expand.Values.{NoAt, util_expand_words-render_plain}
use ezstream.Cfg.{
  placeholder_artist, placeholder_album, placeholder_title, placeholder_track, placeholder_string,
}
use ezstream.Mdata.{Mdata, nonempty}

abbrev pub or_empty : Option Bytes → Bytes
or_empty none = []
or_empty (some s) = s

-- The table of `mdata_strformat`, with a file name.
abbrev pub dicts : Mdata → Bytes → List Entry
dicts md filename =
    record { from = placeholder_artist; to = or_empty md.artist }
    ∷ record { from = placeholder_album; to = or_empty md.album }
    ∷ record { from = placeholder_title; to = or_empty md.title }
    ∷ record { from = placeholder_track; to = filename }
    ∷ record { from = placeholder_string; to = or_empty md.songinfo }
    ∷ []

-- The end of `mdata_strformat`: -1, or a crash in strlen(NULL), or the length and the buffer.
pub data Formatted : Type 0 where
  no_format : Formatted
  null_string : Formatted
  formatted : ℕ → Bytes → Formatted

abbrev pub copied : ℕ → Option Bytes → Formatted
copied bufsize none = null_string
copied bufsize (some str) = formatted (length str) (take (bufsize - 1) str)

-- Whether the placeholder of the file name is found in one of the rounds that are left of the loop
-- of `util_expand_words`.
unfoldable pub finds_track : List Entry → ℕ → Buffer → Bool
unfolding find_entry expand_at str_eq
finds_track table zero b = false
finds_track table (suc i) b =
    elim (find_entry table (drop i b.out)) [
      | none ↦ false
      | some d ↦ str_eq d.from placeholder_track
    ]
    || finds_track table i (expand_at table i b)

-- From the file name on. Where it is NULL, `strlen(d->to)` crashes as soon as its placeholder is
-- found; up to there its value is not used.
unfoldable pub strformat_with : Mdata → ℕ → Bytes → Option Bytes → Formatted
unfolding util_expand_words finds_track
strformat_with md bufsize format (some filename) =
    copied bufsize (util_expand_words format (dicts md filename))
strformat_with md bufsize format none =
    if finds_track (dicts md []) (length format)
      (record { out = format; out_size = length format + 1 })
    then null_string
    else copied bufsize (util_expand_words format (dicts md []))

unfoldable pub mdata_strformat : Mdata → ℕ → Option Bytes → Formatted
unfolding strformat_with
mdata_strformat md bufsize none = no_format
mdata_strformat md bufsize (some format) = strformat_with md bufsize format md.filename

-- With a file name.
pub mdata_strformat-some :
    (md : Mdata) (bufsize : ℕ) (format filename : Bytes)
    → md.filename ≡ some filename
    → mdata_strformat md bufsize (some format)
      ≡ copied bufsize (util_expand_words format (dicts md filename))
unfolding mdata_strformat strformat_with
mdata_strformat-some md bufsize format filename named = rw named refl

dicts-IsTable : (md : Mdata) (filename : Bytes) → IsTable (dicts md filename)
dicts-IsTable md filename = (
  (b'a', refl, omega arith, omega arith),
  (
    (b'b', refl, omega arith, omega arith),
    (
      (b't', refl, omega arith, omega arith),
      ((b'T', refl, omega arith, omega arith), ((b's', refl, omega arith, omega arith), tt)),
    ),
  ),
)

-- Where the metadata that a format asks for hold no `@`, `mdata_strformat` replaces every placeholder
-- of the format by the metadata that it stands for and changes nothing else. It returns the length of
-- the whole text and stores as much of it as the buffer takes. The metadata hold a file name. The
-- format is not empty and is made of the five placeholders and of bytes other than `@`.
pub mdata_strformat-render :
    (md : Mdata) (filename : Bytes) (bufsize : ℕ) (ps : List Piece)
    → md.filename ≡ some filename
    → Fits NoAt (dicts md filename) ps
    → render ps ≢ []
    → mdata_strformat md bufsize (some (render ps))
      ≡ formatted
          (length (fill (dicts md filename) ps))
          (take (bufsize - 1) (fill (dicts md filename) ps))
mdata_strformat-render md filename bufsize ps named fits nonempty =
    mdata_strformat-some md bufsize (render ps) filename named
    ∙ ap (copied bufsize) (
        util_expand_words-render_plain (dicts md filename) ps (dicts-IsTable md filename) fits
          nonempty)
