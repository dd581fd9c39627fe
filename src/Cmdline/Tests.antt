-- ===== src/Cmdline/Tests.antt =====
-- src/cmdline.c on concrete inputs.
use mathlib.Core.List.{Perm}
use ezstream.Prelude.{
  ◌≤◌, ◌≡◌, refl, true, false, Option, none, some, List, [], ◌∷◌, ◌++◌, arith, length,
}
use ezstream.CString.{Bytes, codes, cut, c_str}
use ezstream.Cfg.Global.{Program, cfg_set_program_verbosity, xmlfile}
use ezstream.Playlist.Read.{Source, contents}
use ezstream.Playlist.Read.Lines.{paths, unlines}
use ezstream.Playlist.Shuffle.Draws.{acceptable}
use ezstream.Cmdline.{
  Opt, State, take_options, start, cmdline_parse, opt_configfile, opt_rtstatus, opt_shufflefile,
  opt_verbose, opt_invalid, goes_on, success, failure,
}
use ezstream.Cmdline.Settings.{Quiet}
use ezstream.Cmdline.Shuffle.{cmdline_parse-shuffle}

abbrev nothing_set : Program
nothing_set = record {
  name = [];
  config_type = xmlfile;
  config_file = [];
  pid_file = [];
  quiet_stderr = false;
  rtstatus_output = false;
  verbosity = 0;
}

abbrev name : Bytes
name = codes "ezstream"

abbrev two_lines : List Bytes
two_lines = codes "a" ∷ codes "b" ∷ []

abbrev every_file : Option Bytes → Source
every_file file = contents (unlines two_lines ++ [])

abbrev with_name : Program
with_name = record nothing_set { name = name }

invalid_option :
    cmdline_parse none every_file [] nothing_set name (opt_verbose ∷ opt_invalid ∷ [])
    ≡ failure 2 [] with_name
unfolding cmdline_parse
invalid_option = refl

no_config_file :
    cmdline_parse none every_file [] nothing_set name (opt_verbose ∷ [])
    ≡ failure 2 [] (record with_name { verbosity = 1 })
unfolding cmdline_parse
no_config_file = refl

abbrev with_config : Program
with_config = record with_name {
  config_file = codes "c";
  rtstatus_output = true;
  quiet_stderr = true;
}

status_output :
    cmdline_parse none every_file [] nothing_set name
      (opt_rtstatus ∷ opt_configfile (codes "c") ∷ [])
    ≡ success with_config
unfolding cmdline_parse
status_output = refl

nothing_set-Quiet : Quiet nothing_set
nothing_set-Quiet e = cc

abbrev shuffle_option : List Opt
shuffle_option = opt_shufflefile (codes "-") ∷ []

abbrev left : State
left = record { cfg_program = with_name; playlist_file = some (codes "-"); verbosity = 0 }

left_by_options : take_options (start nothing_set name) shuffle_option ≡ goes_on left
unfolding take_options start
left_by_options = refl

two_acceptable :
    length (paths (two_lines ++ [] ∷ []))
    ≤ acceptable (length (paths (two_lines ++ [] ∷ []))) (3 ∷ 0 ∷ [])
unfolding acceptable paths cut c_str
two_acceptable = omega arith

cmdline_parse-shuffle_example :
    (es : List Bytes) × Perm es (paths (two_lines ++ [] ∷ []))
    × (cmdline_parse none every_file (3 ∷ 0 ∷ []) nothing_set name shuffle_option
        ≡ failure 0 es (cfg_set_program_verbosity with_name 0))
cmdline_parse-shuffle_example =
    cmdline_parse-shuffle none every_file (3 ∷ 0 ∷ []) nothing_set name shuffle_option left
      (codes "-") two_lines [] left_by_options refl refl
      (((omega arith, tt), omega arith), (((omega arith, tt), omega arith), tt)) (tt, omega arith)
      two_acceptable
