-- ===== src/Cmdline.antt =====
-- src/cmdline.c: the command line. What getopt(3) returns, one option after the other, is an
-- argument, as are the files that can be read and the random numbers. Usage texts are left out.
pub mod Settings
pub mod Shuffle
pub mod Tests
use mathlib.Core.Option
use ezstream.Prelude.{ℕ, ◌+◌, ◌-◌, true, Option, none, some, List, [], ◌∷◌, if◌then◌else◌}
use ezstream.CString.{Bytes, codes, str_eq}
use ezstream.Cfg.{Outcome}
use ezstream.Cfg.Global.{
  Program, cfg_set_program_name, cfg_set_program_config_type, cfg_set_program_config_file,
  cfg_set_program_pid_file, cfg_set_program_quiet_stderr, cfg_set_program_rtstatus_output,
  cfg_set_program_verbosity, xmlfile,
}
use ezstream.Playlist.{Playlist, Access, ok, out_of_bounds}
use ezstream.Playlist.Read.{Source, playlist_read}
use ezstream.Playlist.Shuffle.{playlist_shuffle}
use ezstream.Playlist.Walk.{walk}

-- `enum opt_vals`, with `optarg`.
pub data Opt : Type 0 where
  opt_configfile : Bytes → Opt
  opt_help : Opt
  opt_pidfile : Bytes → Opt
  opt_quietstderr : Opt
  opt_rtstatus : Opt
  opt_shufflefile : Bytes → Opt
  opt_version : Opt
  opt_verbose : Opt
  opt_invalid : Opt

-- The settings and the local variables of `cmdline_parse`.
pub record State : Type 0 where
  pub cfg_program : Program
  pub playlist_file : Option Bytes
  pub verbosity : ℕ

-- A step of the loop, or the whole loop: it returns -1 with `*ret_p`, or goes on.
pub data Loop : Type 0 where
  returns : ℕ → Program → Loop
  goes_on : State → Loop

-- After a setter that may fail.
abbrev pub checked : State → Outcome Program → Loop
checked st (none, p) = goes_on (record st { cfg_program = p })
checked st (some e, p) = returns 2 p

-- The body of the loop. The assertion on the configuration type always holds.
unfoldable pub take_option : State → Opt → Loop
unfolding cfg_set_program_config_file cfg_set_program_pid_file cfg_set_program_config_type
    cfg_set_program_quiet_stderr cfg_set_program_rtstatus_output
take_option st (opt_configfile optarg) = checked st (
    cfg_set_program_config_file (cfg_set_program_config_type st.cfg_program xmlfile).1
      (some optarg))
take_option st opt_help = returns 0 st.cfg_program
take_option st (opt_pidfile optarg) =
    checked st (cfg_set_program_pid_file st.cfg_program (some optarg))
take_option st opt_rtstatus = goes_on (record st {
  cfg_program =
      cfg_set_program_quiet_stderr (cfg_set_program_rtstatus_output st.cfg_program true) true;
})
take_option st opt_quietstderr =
    goes_on (record st { cfg_program = cfg_set_program_quiet_stderr st.cfg_program true })
take_option st (opt_shufflefile optarg) = goes_on (record st { playlist_file = some optarg })
take_option st opt_version = returns 0 st.cfg_program
take_option st opt_verbose = goes_on (record st { verbosity = st.verbosity + 1 })
take_option st opt_invalid = returns 2 st.cfg_program

abbrev pub and_then : Loop → (State → Loop) → Loop
and_then (returns ret p) f = returns ret p
and_then (goes_on st) f = f st

-- The loop.
unfoldable pub take_options : State → List Opt → Loop
unfolding take_option
take_options st [] = goes_on st
take_options st (o ∷ opts) = and_then (take_option st o) (λ st'. take_options st' opts)

-- The end of `cmdline_parse`: it returns 0, or -1 with `*ret_p` and the lines that it printed, or it
-- is still waiting for random numbers, or it has left an array.
pub data Parsed : Type 0 where
  success : Program → Parsed
  failure : ℕ → List Bytes → Program → Parsed
  waiting : Parsed
  crashed : Parsed

-- `-`, for the standard input, is NULL.
abbrev pub file_or_stdin : Bytes → Option Bytes
file_or_stdin file = if str_eq file (codes "-") then none else some file

-- The lines of the shuffled playlist.
abbrev pub printed_lines : Program → Option (Access (List Bytes)) → Parsed
printed_lines p none = waiting
printed_lines p (some out_of_bounds) = crashed
printed_lines p (some (ok lines)) = failure 0 lines p

unfoldable pub print_all : Program → Option Playlist → Parsed
unfolding walk
print_all p none = waiting
print_all p (some pl) = printed_lines p (walk (pl.num + 1) pl)

-- The playlist is shuffled and printed.
unfoldable pub print_shuffled : List ℕ → Program → Option Playlist → Parsed
unfolding playlist_shuffle print_all
print_shuffled draws p none = failure 1 [] p
print_shuffled draws p (some pl) = print_all p (playlist_shuffle draws pl)

-- The settings and the local variables in front of the loop.
unfoldable pub start : Program → Bytes → State
unfolding cfg_set_program_name
start cfg_program progname = record {
  cfg_program = (cfg_set_program_name cfg_program (some progname)).1;
  playlist_file = none;
  verbosity = 0;
}

module _ (junk : Option Bytes) (open_file : Option Bytes → Source) (draws : List ℕ) where
  -- What follows the loop, from `playlistFile` and the name of the configuration file.
  unfoldable pub finish_with : Option Bytes → Bytes → Program → Parsed
  unfolding print_shuffled playlist_read str_eq
  finish_with (some file) config_file p =
      print_shuffled draws p
        (playlist_read junk (file_or_stdin file) (open_file (file_or_stdin file)))
  finish_with none [] p = failure 2 [] p
  finish_with none (c ∷ s) p = success p

  unfoldable pub finish : State → Parsed
  unfolding finish_with cfg_set_program_verbosity
  finish st =
      let p = cfg_set_program_verbosity st.cfg_program st.verbosity in
      finish_with st.playlist_file p.config_file p

  abbrev pub parsed_as : Loop → Parsed
  parsed_as (returns ret p) = failure ret [] p
  parsed_as (goes_on st) = finish st

  unfoldable pub cmdline_parse : Program → Bytes → List Opt → Parsed
  unfolding take_options finish start
  cmdline_parse cfg_program progname opts =
      parsed_as (take_options (start cfg_program progname) opts)
