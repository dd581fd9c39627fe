-- ===== src/Mdata/Tests.antt =====
-- src/mdata.c on concrete inputs.
use mathlib.Core.Option
use ezstream.Prelude.{
  ◌≡◌, refl, ap, ◌≢◌, Bool, true, false, none, some, List, [], ◌∷◌, arith, ◌==◌, if◌then◌else◌,
  length, take,
}
use ezstream.CString.{codes, str_eq}
use ezstream.Util.Expand.Template.{entry_of, Piece, render, fill, Fits, byte, mark}
use ezstream.Util.Expand.Values.{NoAt}
use ezstream.Mdata.{
  Mdata, mdata_create, normalize_string, generate_songinfo, get_name_from_filename,
}
use ezstream.Mdata.Normal.{unwords, words, normalize_string-words}
use ezstream.Mdata.Songinfo.{joined, generate_songinfo-joined}
use ezstream.Mdata.Run.{Request, Status, mdata_refresh, Keeps, mdata_refresh-Keeps, not_started}
use ezstream.Mdata.Format.{dicts, mdata_strformat, mdata_strformat-render, formatted, null_string}

normalize_blanks : normalize_string (some (codes "  a  b ")) ≡ some (codes "a b")
unfolding normalize_string
normalize_blanks = refl

abbrev tagged : Mdata
tagged = record mdata_create {
  filename = some (codes "f");
  artist = some (codes "A");
  title = some (codes "T");
}

songinfo_two : (generate_songinfo tagged).songinfo ≡ some (codes "A - T")
unfolding generate_songinfo
songinfo_two = refl

name_without_extension : get_name_from_filename (λ s. s) (λ s. s) (codes "a.b.ogg") ≡ codes "a.b"
unfolding get_name_from_filename
name_without_extension = refl

normalize_string-words_example :
    normalize_string (some (codes " a  b "))
    ≡ Option.map (λ s. unwords (words s)) (some (codes " a  b "))
normalize_string-words_example = normalize_string-words (some (codes " a  b "))

generate_songinfo-joined_example : generate_songinfo tagged ≡ (
    if length (joined tagged.artist tagged.title tagged.album) == 0
    then tagged
    else record tagged { songinfo = some (joined tagged.artist tagged.title tagged.album) })
generate_songinfo-joined_example = generate_songinfo-joined tagged

abbrev no_answer : Request → Status
no_answer request = not_started

mdata_refresh-Keeps_example :
    (r : Bool × Mdata) × (mdata_refresh
        (λ s. s)
        (λ s. s)
        (λ f. (true, none))
        (λ f. (none, no_answer))
        tagged
      ≡ some r)
    × Keeps (codes "f") false tagged r
mdata_refresh-Keeps_example =
    mdata_refresh-Keeps (λ s. s) (λ s. s) (λ f. (true, none)) (λ f. (none, no_answer)) tagged
      (codes "f") refl

-- `-@a@@T@`
abbrev by_artist : List Piece
by_artist = byte b'-' ∷ mark b'a' ∷ mark b'T' ∷ []

by_artist_text : render by_artist ≢ []
unfolding render
by_artist_text e = omega (arith, ap length e)

by_artist-Fits : Fits NoAt (dicts tagged (codes "f")) by_artist
unfolding entry_of str_eq
by_artist-Fits = (
  omega arith,
  (
    (record { from = codes "@a@"; to = codes "A" }, refl, (omega arith, tt)),
    ((record { from = codes "@T@"; to = codes "f" }, refl, (omega arith, tt)), tt),
  ),
)

mdata_strformat-render_example :
    mdata_strformat tagged 9 (some (render by_artist))
    ≡ formatted
        (length (fill (dicts tagged (codes "f")) by_artist))
        (take 8 (fill (dicts tagged (codes "f")) by_artist))
mdata_strformat-render_example =
    mdata_strformat-render tagged (codes "f") 9 by_artist refl by_artist-Fits by_artist_text

-- Without a file name, a format that asks for it is a crash, and another one is not.
mdata_strformat_crash : mdata_strformat mdata_create 9 (some (codes "-@T@")) ≡ null_string
unfolding mdata_strformat
mdata_strformat_crash = refl

mdata_strformat_unnamed :
    mdata_strformat mdata_create 9 (some (codes "-@a@")) ≡ formatted 1 (codes "-")
unfolding mdata_strformat
mdata_strformat_unnamed = refl
