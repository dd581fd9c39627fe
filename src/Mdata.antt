-- ===== src/Mdata.antt =====
-- src/mdata.c: the metadata of a file or of a program. A string that is not there is NULL. TagLib,
-- basename(3), the conversion to UTF-8 and the programs that are run are arguments; a read error on
-- the output of a program ends the whole process and is left out.
pub mod Normal
pub mod Songinfo
pub mod Run
pub mod Format
pub mod Tests
use mathlib.Core.Option
use ezstream.CString.{Bytes, codes, strrchr, strlcpy, strlcat}
use ezstream.Prelude.{
  ℕ, ◌+◌, ◌-◌, Bool, true, false, Option, none, some, [], ◌∷◌, ◌==◌, if◌then◌else◌, length, take, ℤ,
  negsuc,
}

-- `struct mdata`
pub record Mdata : Type 0 where
  pub filename : Option Bytes
  pub name : Option Bytes
  pub artist : Option Bytes
  pub album : Option Bytes
  pub title : Option Bytes
  pub songinfo : Option Bytes
  pub seconds : ℤ
  pub normalize_strings : Bool
  pub run_program : Bool

-- `_mdata_clear`
unfoldable pub mdata_clear : Mdata → Mdata
mdata_clear md = record {
  filename = none;
  name = none;
  artist = none;
  album = none;
  title = none;
  songinfo = none;
  seconds = negsuc 0;
  normalize_strings = md.normalize_strings;
  run_program = false;
}

abbrev pub mdata_create : Mdata
mdata_create = record {
  filename = none;
  name = none;
  artist = none;
  album = none;
  title = none;
  songinfo = none;
  seconds = negsuc 0;
  normalize_strings = false;
  run_program = false;
}

unfoldable pub mdata_set_normalize_strings : Mdata → Bool → Mdata
mdata_set_normalize_strings md normalize_strings = record md {
  normalize_strings = normalize_strings;
}

abbrev pub space : ℕ
space = b' '

-- The loop of `_mdata_normalize_string`: what it appends.
unfoldable pub squeeze : Bool → Bytes → Bytes
squeeze is_space [] = []
squeeze is_space (c ∷ s) =
    let skipped = squeeze true s in
    let copied = squeeze false s in
    if c == space then (if is_space then skipped else space ∷ skipped) else c ∷ copied

-- A blank at the end is cut off.
unfoldable pub strip_end : Bytes → Bytes
strip_end [] = []
strip_end (c ∷ []) = if c == space then [] else c ∷ []
strip_end (c ∷ d ∷ s) = c ∷ strip_end (d ∷ s)

-- `_mdata_normalize_string`
unfoldable pub normalize_string : Option Bytes → Option Bytes
unfolding squeeze strip_end
normalize_string none = none
normalize_string (some s) = some (strip_end (squeeze true s))

-- `_mdata_normalize_strings`
unfoldable pub mdata_normalize_strings : Mdata → Mdata
unfolding normalize_string
mdata_normalize_strings md = record md {
  artist = normalize_string md.artist;
  album = normalize_string md.album;
  title = normalize_string md.title;
  songinfo = normalize_string md.songinfo;
}

abbrev pub separator : Bytes
separator = codes " - "

-- `str_size` with one part more.
unfoldable pub size_with : ℕ → Option Bytes → ℕ
size_with n none = n
size_with n (some part) = (if n == 0 then n else n + length separator) + length part

-- `str` with one part more.
unfoldable pub add_part : ℕ → Bytes → Option Bytes → Bytes
unfolding strlcat
add_part size str none = str
add_part size str (some part) =
    strlcat (if length str == 0 then str else strlcat str separator size) part size

unfoldable pub first_part : ℕ → Option Bytes → Bytes
unfolding strlcpy
first_part size none = []
first_part size (some artist) = strlcpy artist size

-- `_mdata_generate_songinfo`
unfoldable pub generate_songinfo : Mdata → Mdata
unfolding size_with add_part first_part
generate_songinfo md =
    let n = size_with (size_with (size_with 0 md.artist) md.title) md.album in
    let str_size = n + 1 in
    let str =
      add_part str_size (add_part str_size (first_part str_size md.artist) md.title) md.album in
    if n == 0 then md else record md { songinfo = some str }

-- What TagLib finds in a file.
pub record Tags : Type 0 where
  pub artist : Bytes
  pub album : Bytes
  pub title : Bytes
  pub seconds : ℤ

-- `if (0 < strlen(str))`
abbrev pub nonempty : Bytes → Option Bytes
nonempty [] = none
nonempty (c ∷ s) = some (c ∷ s)

-- The cleared metadata with the name of the file and with its tags.
unfoldable pub read_tags : Mdata → Bytes → Bytes → Tags → Mdata
unfolding mdata_clear
read_tags md filename name t = record (mdata_clear md) {
  filename = some filename;
  name = some name;
  artist = nonempty t.artist;
  album = nonempty t.album;
  title = nonempty t.title;
  seconds = t.seconds;
}

abbrev pub normalized : Mdata → Mdata
normalized md = if md.normalize_strings then mdata_normalize_strings md else md

module _ (basename char2utf8 : Bytes → Bytes) where
  -- `if (strlen(p1) == 0)`
  abbrev name_of : Bytes → Bytes
  name_of [] = codes "[unknown]"
  name_of (c ∷ s) = char2utf8 (c ∷ s)

  -- `_mdata_get_name_from_filename`
  unfoldable pub get_name_from_filename : Bytes → Bytes
  unfolding strrchr
  get_name_from_filename filename =
      let p1 = basename filename in
      elim (strrchr p1 b'.') [
        | none ↦ name_of p1
        | some p2 ↦ name_of (take (length p1 - length p2) p1)
      ]

  -- `mdata_parse_file`: 0 or -1, and the metadata. The file may be unreadable, and TagLib may not
  -- know it.
  unfoldable pub mdata_parse_file : Bool → Option Tags → Mdata → Bytes → Bool × Mdata
  unfolding get_name_from_filename mdata_clear read_tags mdata_normalize_strings generate_songinfo
  mdata_parse_file readable tags md filename =
      let name = get_name_from_filename filename in
      let fresh = record (mdata_clear md) { filename = some filename; name = some name } in
      if readable
      then elim tags [
        | none ↦ (true, record fresh { songinfo = some name })
        | some t ↦
            let read = read_tags md filename name t in
            (true, record (generate_songinfo (normalized read)) { run_program = false })
      ]
      else (false, md)
