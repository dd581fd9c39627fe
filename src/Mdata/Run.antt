-- ===== src/Mdata/Run.antt =====
-- src/mdata.c: metadata from a program, and reading it again.
use Prim.Native.Nat.{bit_and}
use ezstream.Prelude.{
  ℕ, ◌-◌, ◌≡◌, refl, ◌∙◌, Bool, true, false, not, ◌||◌, Option, none, some, ◌==◌, if◌then◌else◌,
  ◌>>=◌,
}
use ezstream.CString.{Bytes, codes, c_str}
use ezstream.CString.Input.{fgets, trim}
use ezstream.Mdata.{
  Mdata, mdata_clear, mdata_normalize_strings, generate_songinfo, Tags, nonempty, read_tags,
  normalized, get_name_from_filename, mdata_parse_file,
}

-- `enum mdata_request`
pub data Request : Type 0 where
  request_artist : Request
  request_album : Request
  request_title : Request
  request_songinfo : Request

-- How a program that is run ends: popen(3) fails, or it prints and pclose(3) fails, or a signal
-- ends it, or it exits.
pub data Status : Type 0 where
  not_started : Status
  not_waited : Bytes → Status
  signaled : Bytes → Status
  exited : Bytes → ℕ → Status

abbrev bufsiz : ℕ
bufsiz = 8192

-- `_mdata_run`: the first line of the output.
unfoldable pub mdata_run : Status → Option Bytes
unfolding fgets c_str trim
mdata_run not_started = none
mdata_run (not_waited output) = none
mdata_run (signaled output) = none
mdata_run (exited output code) =
    if code == 0 then some (trim (c_str (fgets (bufsiz - 1) output).0)) else none

-- The program ran for all four requests.
abbrev pub all_answers :
    Option Bytes
    → Option Bytes
    → Option Bytes
    → Option Bytes
    → Option (Bytes × Bytes × Bytes × Bytes)
all_answers (some artist) (some album) (some title) (some songinfo) =
    some (artist, album, title, songinfo)
all_answers _ _ _ _ = none

-- The cleared metadata with the answers.
unfoldable pub read_answers : Mdata → Bytes → Bytes × Bytes × Bytes × Bytes → Mdata
unfolding mdata_clear
read_answers md program (artist, album, title, songinfo) = record (mdata_clear md) {
  filename = some program;
  name = some (codes "[unknown]");
  artist = nonempty artist;
  album = nonempty album;
  title = nonempty title;
  songinfo = nonempty songinfo;
}

-- What `mdata_run_program` makes of the answers.
unfoldable pub take_answers : Mdata → Bytes → Option (Bytes × Bytes × Bytes × Bytes) → Bool × Mdata
unfolding read_answers mdata_normalize_strings
take_answers md program none = (false, md)
take_answers md program (some (artist, album, title, songinfo)) =
    let read = read_answers md program (artist, album, title, songinfo) in
    (true, record (normalized read) { run_program = true })

-- `mdata_run_program`, from the mode that `stat` reports, if it succeeds.
unfoldable pub mdata_run_program : (Request → Status) → Option ℕ → Mdata → Bytes → Bool × Mdata
unfolding mdata_run take_answers
mdata_run_program answer none md program = (false, md)
mdata_run_program answer (some st_mode) md program =
    let answers =
      all_answers (mdata_run (answer request_artist)) (mdata_run (answer request_album))
        (mdata_run (answer request_title)) (mdata_run (answer request_songinfo)) in
    if not (bit_and st_mode 0o002 == 0) || bit_and st_mode 0o111 == 0
    then (false, md)
    else take_answers md program answers

-- `mdata_refresh`: the file or the program is read again, by the name in the metadata. What is found
-- depends on the name. `none` where there is none: xstrdup(NULL) crashes.
unfoldable pub mdata_refresh :
    (basename char2utf8 : Bytes → Bytes)
    → (Bytes → Bool × Option Tags)
    → (Bytes → Option ℕ × (Request → Status))
    → Mdata
    → Option (Bool × Mdata)
unfolding mdata_parse_file mdata_run_program
mdata_refresh basename char2utf8 find_tags ask_program md = do
  filename ← md.filename
  let (st_mode, answer) = ask_program filename
  let (readable, tags) = find_tags filename
  some (
      if md.run_program
      then mdata_run_program answer st_mode md filename
      else mdata_parse_file basename char2utf8 readable tags md filename)

-- What an operation that reads `filename` again keeps; `by_program` is the way it reads.
abbrev pub Keeps : Bytes → Bool → Mdata → Bool × Mdata → Type 0
Keeps filename by_program md (ok, md') =
    (ok ≡ false → md' ≡ md)
    × (ok ≡ true → md'.filename ≡ some filename)
    × (ok ≡ true → md'.run_program ≡ by_program)
    × (md'.normalize_strings ≡ md.normalize_strings)

failed :
    (filename : Bytes) (by_program : Bool) (md : Mdata) → Keeps filename by_program md (false, md)
failed filename by_program md = (λ _. refl, λ e. cc, λ e. cc, refl)

abbrev Same : Mdata → Mdata → Type 0
Same md x = (x.filename ≡ md.filename) × (x.normalize_strings ≡ md.normalize_strings)

Same-if : (b : Bool) (md x y : Mdata) → Same md x → Same md y → Same md (if b then x else y)
Same-if true md x y hx hy = hx
Same-if false md x y hx hy = hy

songinfo_keeps : (md : Mdata) → Same md (generate_songinfo md)
unfolding generate_songinfo
songinfo_keeps md = Same-if _ md md _ (refl, refl) (refl, refl)

normalized_keeps : (md : Mdata) → Same md (normalized md)
unfolding mdata_normalize_strings
normalized_keeps md = Same-if _ md _ md (refl, refl) (refl, refl)

Keeps-if :
    (b : Bool) (filename : Bytes) (by_program : Bool) (md : Mdata) (x y : Bool × Mdata)
    → Keeps filename by_program md x
    → Keeps filename by_program md y
    → Keeps filename by_program md (if b then x else y)
Keeps-if true filename by_program md x y hx hy = hx
Keeps-if false filename by_program md x y hx hy = hy

parse-Keeps :
    (basename char2utf8 : Bytes → Bytes) (readable : Bool) (tags : Option Tags) (md : Mdata)
    (filename : Bytes)
    → Keeps filename false md (mdata_parse_file basename char2utf8 readable tags md filename)
unfolding mdata_parse_file
parse-Keeps basename char2utf8 false tags md filename = failed filename false md
parse-Keeps basename char2utf8 true none md filename = (λ e. cc, λ _. refl, λ _. refl, refl)
parse-Keeps basename char2utf8 true (some t) md filename =
    let read = read_tags md filename (get_name_from_filename basename char2utf8 filename) t in
    let (nf, nn) = normalized_keeps read in
    let (sf, sn) = songinfo_keeps (normalized read) in (λ e. cc, λ _. sf ∙ nf, λ _. refl, sn ∙ nn)

answers_keep :
    (md : Mdata) (program : Bytes) (answers : Option (Bytes × Bytes × Bytes × Bytes))
    → Keeps program true md (take_answers md program answers)
unfolding take_answers
answers_keep md program none = failed program true md
answers_keep md program (some (artist, album, title, songinfo)) =
    let (nf, nn) = normalized_keeps (read_answers md program (artist, album, title, songinfo)) in
    (λ e. cc, λ _. nf, λ _. refl, nn)

run-Keeps :
    (answer : Request → Status) (st_mode : Option ℕ) (md : Mdata) (program : Bytes)
    → Keeps program true md (mdata_run_program answer st_mode md program)
unfolding mdata_run_program
run-Keeps answer none md program = failed program true md
run-Keeps answer (some st_mode) md program =
    Keeps-if _ program true md (false, md) _ (failed program true md) (answers_keep md program _)

refresh-Keeps :
    (by_program : Bool) (filename : Bytes) (md : Mdata) (x y : Bool × Mdata)
    → Keeps filename true md x
    → Keeps filename false md y
    → Keeps filename by_program md (if by_program then x else y)
refresh-Keeps true filename md x y hx hy = hx
refresh-Keeps false filename md x y hx hy = hy

-- A refresh of metadata that hold the name of a file or of a program returns. If it fails, the
-- metadata are as they were. If it succeeds, they hold the same name, and they were read from it in
-- the same way as before, as a file or by a program. In both cases the choice to normalize is kept.
pub mdata_refresh-Keeps :
    (basename char2utf8 : Bytes → Bytes) (find_tags : Bytes → Bool × Option Tags)
    (ask_program : Bytes → Option ℕ × (Request → Status)) (md : Mdata) (filename : Bytes)
    → md.filename ≡ some filename
    → (r : Bool × Mdata) × (mdata_refresh basename char2utf8 find_tags ask_program md ≡ some r)
      × Keeps filename md.run_program md r
unfolding mdata_refresh
mdata_refresh-Keeps basename char2utf8 find_tags ask_program md filename named =
    let (st_mode, answer) = ask_program filename in
    let (readable, tags) = find_tags filename in
    (
      _,
      rw (named, ◌>>=◌) refl,
      refresh-Keeps md.run_program filename md _ _ (run-Keeps answer st_mode md filename)
          (parse-Keeps basename char2utf8 readable tags md filename),
    )
