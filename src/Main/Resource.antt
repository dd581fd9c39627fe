-- ===== src/Main/Resource.antt =====
-- src/ezstream.c: `openResource`.
pub mod Unnormalized
use ezstream.Prelude.{
  ℕ, Bool, true, false, ◌||◌, Option, none, some, List, [], ◌∷◌, if◌then◌else◌, ℤ, pos,
}
use ezstream.CString.{Bytes, codes, lower, str_case_eq, strrchr, strlcpy}
use ezstream.Mdata.{Mdata, mdata_create, mdata_parse_file}
use ezstream.Mdata.Run.{mdata_run_program}
use ezstream.Stream.Transfer.{Sent, stream_set_metadata, ended, sent}
use ezstream.Cfg.{if_set}
use ezstream.Main.{Read, Outside, Setup, World}
use ezstream.Main.Command.{Command, build_reencode_cmd, no_command, null_string, command}

-- What `openResource` returns: the file, or NULL; `*md_p`, `*isStdin` and `*songLen`; and what has
-- changed.
pub record Opened (S : Type 0) : Type 0 where
  pub file : Option (List Read)
  pub md : Option Mdata
  pub is_stdin : Bool
  pub song_len : ℤ
  pub world : World S

abbrev pub max_extension : ℕ
max_extension = 25

-- `extension`, as `openResource` cuts it off the name.
unfoldable pub extension_of : Bytes → Bytes
extension_of filename = elim (strrchr filename b'.') [
  | none ↦ []
  | some p ↦ lower (strlcpy p max_extension)
]

module _ {S : Type 0} (out : Outside S) (setup : Setup) where
  abbrev pub with_env : World S → S → World S
  with_env w env = record w { env = env }

  -- `mdata_run_program` on new metadata.
  unfoldable pub ask : Bytes → World S → (Bool × Mdata) × World S
  ask program w =
      let ((st_mode, answers), env) = out.ask_program program w.env in
      (mdata_run_program answers st_mode mdata_create program, with_env w env)

  -- `mdata_parse_file` on new metadata.
  unfoldable pub parse : Bytes → World S → (Bool × Mdata) × World S
  parse filename w =
      let ((readable, tags), env) = out.find_tags filename w.env in
      (
        mdata_parse_file out.basename out.char2utf8 readable tags mdata_create filename,
        with_env w env,
      )

  abbrev pub nothing_opened : World S → Opened S
  nothing_opened w = record {
    file = none;
    md = none;
    is_stdin = false;
    song_len = pos 0;
    world = w;
  }

  abbrev pub opened_stdin : Option Mdata → World S → Opened S
  opened_stdin md w = record {
    file = some (out.stdin w.env);
    md = md;
    is_stdin = true;
    song_len = pos 0;
    world = w;
  }

  -- With the metadata of the program; `none` where `stream_set_metadata` ends the program.
  abbrev pub after_metadata : World S → Mdata → Sent S → Option (Opened S)
  after_metadata w md ended = none
  after_metadata w md (sent false env md_str) = some (nothing_opened (with_env w env))
  after_metadata w md (sent true env md_str) = some (opened_stdin (some md) (with_env w env))

  abbrev pub after_ask : (Bool × Mdata) × World S → Option (Opened S)
  after_ask ((false, md), w) = some (nothing_opened w)
  after_ask ((true, md), w) =
      after_metadata w md (stream_set_metadata out.shout setup.metadata w.env (some md) none)

  -- The standard input, from the metadata program.
  unfoldable pub open_stdin : Option Bytes → World S → Option (Opened S)
  open_stdin none w = some (opened_stdin none w)
  open_stdin (some program) w = after_ask (ask program w)

  abbrev pub opened : Mdata → Option (List Read) × S → World S → Opened S
  opened md (file, env) w = record {
    file = file;
    md = some md;
    is_stdin = false;
    song_len = md.seconds;
    world = with_env w env;
  }

  -- The command is run; `none` where its text comes from a NULL string.
  abbrev pub run_command : Mdata → World S → Command → Option (Opened S)
  run_command md w null_string = none
  run_command md w no_command = some (record (nothing_opened w) { song_len = md.seconds })
  run_command md w (command cmd) = some (opened md (out.popen cmd w.env) w)

  -- With the metadata, from the name of the encoder.
  unfoldable pub open_with :
      Bytes → Bytes → Option Bytes → (Bool × Mdata) × World S → Option (Opened S)
  open_with extension filename encoder ((false, md), w) = some (nothing_opened w)
  open_with extension filename none ((true, md), w) = some (opened md (out.fopen filename w.env) w)
  open_with extension filename (some encoder) ((true, md), w) =
      run_command md w (build_reencode_cmd out.utf82char setup extension filename encoder md)

  -- The metadata of a file, from the metadata program.
  unfoldable pub read_metadata : Option Bytes → Bytes → World S → (Bool × Mdata) × World S
  read_metadata none filename w = parse filename w
  read_metadata (some program) filename w = ask program w

  -- A file, by its extension.
  unfoldable pub open_file : Bytes → Bytes → World S → Option (Opened S)
  open_file [] filename w = some (nothing_opened w)
  open_file (c ∷ extension) filename w =
      open_with (c ∷ extension) filename setup.stream.encoder
        (read_metadata (if_set setup.metadata.program) filename w)

  -- `openResource`; `none` where the program ends.
  unfoldable pub open_resource : Bool → Bytes → World S → Option (Opened S)
  open_resource is_stdin filename w =
      if is_stdin || str_case_eq filename (codes "stdin")
      then open_stdin (if_set setup.metadata.program) w
      else open_file (extension_of filename) filename w
