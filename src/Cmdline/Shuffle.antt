-- ===== src/Cmdline/Shuffle.antt =====
-- `ezstream -s file` prints the lines of the file in another order.
use mathlib.Core.Option
use mathlib.Core.List.{Perm}
use mathlib.Core.Path.{subst}
use ezstream.Prelude.{
  ℕ, ◌+◌, ◌≤◌, ◌≡◌, refl, sym, ap, ◌∙◌, Bool, true, false, Option, none, some, List, [], ◌∷◌, ◌++◌,
  if◌then◌else◌, length, All,
}
use ezstream.CString.{Bytes}
use ezstream.Cfg.Global.{Program, cfg_set_program_verbosity}
use ezstream.Playlist.{Playlist}
use ezstream.Playlist.Read.{Source, contents, playlist_read}
use ezstream.Playlist.Read.Lines.{IsShort, paths, unlines}
use ezstream.Playlist.Read.Entries.{IsFresh, playlist_read-IsFresh}
use ezstream.Playlist.Shuffle.{playlist_shuffle}
use ezstream.Playlist.Shuffle.Order.{playlist_shuffle-perm}
use ezstream.Playlist.Shuffle.Draws.{acceptable, playlist_shuffle_total}
use ezstream.Playlist.Walk.{walk, walk_all}
use ezstream.Cmdline.{
  Opt, State, take_options, file_or_stdin, printed_lines, print_all, print_shuffled, start,
  finish_with, parsed_as, cmdline_parse, goes_on, failure,
}

-- The position and the kind of the playlist, if there is one.
abbrev Stays : Playlist → Option Playlist → Type 0
Stays pl none = Unit
Stays pl (some pl') = (pl'.index ≡ pl.index) × (pl'.program ≡ pl.program)

Stays-if :
    (pl : Playlist) (b : Bool) (o : Option (List (Option Bytes)))
    → Stays pl (if b then some pl else Option.map (λ slots. record pl { list = slots }) o)
Stays-if pl true o = (refl, refl)
Stays-if pl false none = tt
Stays-if pl false (some slots) = (refl, refl)

shuffle-Stays : (draws : List ℕ) (pl : Playlist) → Stays pl (playlist_shuffle draws pl)
unfolding playlist_shuffle
shuffle-Stays draws pl = Stays-if pl _ _

print_shuffled-perm :
    (draws : List ℕ) (p : Program) (pl : Playlist) (es : List Bytes)
    → IsFresh pl es
    → length es ≤ acceptable (length es) draws
    → (es' : List Bytes) × Perm es' es × (print_shuffled draws p (some pl) ≡ failure 0 es' p)
unfolding print_shuffled
print_shuffled-perm draws p pl es fresh enough =
    let enough' = subst (λ n. n ≤ acceptable n draws) (sym fresh.holds.count) enough in
    let (pl', shuffled) = playlist_shuffle_total draws pl enough' in
    let (es', holds, perm) = playlist_shuffle-perm draws pl pl' es fresh.holds shuffled in
    let (same_index, same_kind) = subst (Stays pl) shuffled (shuffle-Stays draws pl) in
    let fresh' : IsFresh pl' es' = record {
      holds = holds;
      at_start = same_index ∙ fresh.at_start;
      no_program = same_kind ∙ fresh.no_program;
    } in
    (
      es',
      perm,
      ap (print_all p) shuffled
          ∙ ap (λ n. printed_lines p (walk (n + 1) pl')) holds.count
          ∙ ap (printed_lines p) (walk_all pl' es' fresh'),
    )

-- With `-s file`, where the file has short lines only and enough random numbers come that every
-- range accepts, the program prints the paths of the file, each as often as the file has it, in
-- some order, and exits with 0. The other options leave the loop in `st`.
pub cmdline_parse-shuffle :
    (junk : Option Bytes) (open_file : Option Bytes → Source) (draws : List ℕ)
    (cfg_program : Program) (progname : Bytes) (opts : List Opt) (st : State) (file : Bytes)
    (ls : List Bytes) (last : Bytes)
    → take_options (start cfg_program progname) opts ≡ goes_on st
    → st.playlist_file ≡ some file
    → open_file (file_or_stdin file) ≡ contents (unlines ls ++ last)
    → All IsShort ls
    → IsShort last
    → length (paths (ls ++ last ∷ [])) ≤ acceptable (length (paths (ls ++ last ∷ []))) draws
    → (es : List Bytes) × Perm es (paths (ls ++ last ∷ []))
      × (cmdline_parse junk open_file draws cfg_program progname opts
          ≡ failure 0 es (cfg_set_program_verbosity st.cfg_program st.verbosity))
unfolding cmdline_parse
cmdline_parse-shuffle junk open_file draws cfg_program progname opts st file ls last looped chosen
      opened shorts short enough =
    let name = file_or_stdin file in
    let p = cfg_set_program_verbosity st.cfg_program st.verbosity in
    let (pl, read, fresh) = playlist_read-IsFresh junk name ls last shorts short in
    let (es, perm, printed) = print_shuffled-perm draws p pl _ fresh enough in
    (
      es,
      perm,
      ap (parsed_as junk open_file draws) looped
          ∙ ap (λ f. finish_with junk open_file draws f p.config_file p) chosen
          ∙ ap (λ source. print_shuffled draws p (playlist_read junk name source)) opened
          ∙ ap (print_shuffled draws p) read
          ∙ printed,
    )
