-- ===== src/Cmdline/Settings.antt =====
-- What a command line that the program goes on with has set.
use mathlib.Core.Path.{subst}
use ezstream.Prelude.{
  ℕ, ◌≡◌, refl, sym, ap, ◌∙◌, ◌≢◌, true, Option, none, some, List, [], ◌∷◌, arith, length,
}
use ezstream.CString.{Bytes}
use ezstream.Cfg.{Error}
use ezstream.Cfg.Global.{Program}
use ezstream.Playlist.{Playlist, Access, ok, out_of_bounds}
use ezstream.Playlist.Read.{Source, playlist_read}
use ezstream.Playlist.Shuffle.{playlist_shuffle}
use ezstream.Cmdline.{
  Opt, State, Loop, checked, take_option, and_then, take_options, Parsed, file_or_stdin,
  printed_lines, print_all, print_shuffled, start, finish_with, finish, parsed_as, cmdline_parse,
  opt_configfile, opt_help, opt_pidfile, opt_quietstderr, opt_rtstatus, opt_shufflefile,
  opt_version, opt_verbose, opt_invalid, returns, goes_on, success, failure, waiting, crashed,
}

-- Status output goes with silent programs.
abbrev pub Quiet : Program → Type 0
Quiet p = p.rtstatus_output ≡ true → p.quiet_stderr ≡ true

abbrev QuietLoop : Loop → Type 0
QuietLoop (returns ret p) = Unit
QuietLoop (goes_on st) = Quiet st.cfg_program

checked-Quiet :
    (st : State) (e : Option Error) (p : Program) → Quiet p → QuietLoop (checked st (e, p))
checked-Quiet st none p h = h
checked-Quiet st (some e) p h = tt

take_option-Quiet : (st : State) (o : Opt) → Quiet st.cfg_program → QuietLoop (take_option st o)
unfolding take_option
take_option-Quiet st (opt_configfile arg) h = checked-Quiet st _ _ h
take_option-Quiet st opt_help h = tt
take_option-Quiet st (opt_pidfile arg) h = checked-Quiet st _ _ h
take_option-Quiet st opt_rtstatus h = λ _. refl
take_option-Quiet st opt_quietstderr h = λ _. refl
take_option-Quiet st (opt_shufflefile arg) h = h
take_option-Quiet st opt_version h = tt
take_option-Quiet st opt_verbose h = h
take_option-Quiet st opt_invalid h = tt

and_then-Quiet :
    (l : Loop) (f : State → Loop)
    → QuietLoop l
    → ((st : State) → Quiet st.cfg_program → QuietLoop (f st))
    → QuietLoop (and_then l f)
and_then-Quiet (returns ret p) f h k = tt
and_then-Quiet (goes_on st) f h k = k st h

take_options-Quiet :
    (st : State) (opts : List Opt) → Quiet st.cfg_program → QuietLoop (take_options st opts)
unfolding take_options
take_options-Quiet st [] h = h
take_options-Quiet st (o ∷ opts) h =
    and_then-Quiet (take_option st o) _ (take_option-Quiet st o h)
      (λ st' h'. take_options-Quiet st' opts h')

-- `p` is the program's settings only where the end is success.
abbrev Good : Parsed → Type 0
Good (success p) = (p.config_file ≢ []) × Quiet p
Good (failure ret lines p) = Unit
Good waiting = Unit
Good crashed = Unit

printed-Good : (p : Program) (o : Option (Access (List Bytes))) → Good (printed_lines p o)
printed-Good p none = tt
printed-Good p (some out_of_bounds) = tt
printed-Good p (some (ok lines)) = tt

all-Good : (p : Program) (o : Option Playlist) → Good (print_all p o)
unfolding print_all
all-Good p none = tt
all-Good p (some pl) = printed-Good p _

shuffled-Good :
    (draws : List ℕ) (p : Program) (o : Option Playlist) → Good (print_shuffled draws p o)
unfolding print_shuffled
shuffled-Good draws p none = tt
shuffled-Good draws p (some pl) = all-Good p (playlist_shuffle draws pl)

module _ (junk : Option Bytes) (open_file : Option Bytes → Source) (draws : List ℕ) where
  finish_with-Good :
      (file : Option Bytes) (config_file : Bytes) (p : Program)
      → p.config_file ≡ config_file
      → Quiet p
      → Good (finish_with junk open_file draws file config_file p)
  unfolding finish_with
  finish_with-Good (some file) config_file p e h =
      shuffled-Good draws p
        (playlist_read junk (file_or_stdin file) (open_file (file_or_stdin file)))
  finish_with-Good none [] p e h = tt
  finish_with-Good none (c ∷ s) p e h = (λ z. omega (arith, ap length (sym e ∙ z)), h)

  parsed-Good : (l : Loop) → QuietLoop l → Good (parsed_as junk open_file draws l)
  unfolding finish
  parsed-Good (returns ret p) h = tt
  parsed-Good (goes_on st) h = finish_with-Good st.playlist_file _ _ refl h

  -- A command line with which the program goes on names a configuration file that is not empty, and
  -- asks for status output only together with silent programs, if the settings did so before.
  pub cmdline_parse_success :
      (cfg_program : Program) (progname : Bytes) (opts : List Opt) (p : Program)
      → Quiet cfg_program
      → cmdline_parse junk open_file draws cfg_program progname opts ≡ success p
      → (p.config_file ≢ []) × Quiet p
  unfolding cmdline_parse
  cmdline_parse_success cfg_program progname opts p h e =
      subst Good e (parsed-Good _ (take_options-Quiet (start cfg_program progname) opts h))
