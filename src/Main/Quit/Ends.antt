-- ===== src/Main/Quit/Ends.antt =====
-- src/ezstream.c: the end of the program.

use ezstream.Prelude.{
  refl, ℕ, suc, ◌≡◌, ap, ◌∙◌, Bool, true, false, Option, none, some, List, if_elim,
}
use ezstream.CString.{Bytes, strlcpy}
use ezstream.Mdata.{Mdata}
use ezstream.Stream.Transfer.{Sent, stream_set_metadata, ended, sent}
use ezstream.Playlist.{Playlist, Access, path_max, playlist_get_next, ok, out_of_bounds}
use ezstream.Main.{Flags, Read, Outside, Setup, World}
use ezstream.Main.Resource.{Opened, with_env}
use ezstream.Main.File.{
  FileEnd, stream_loop, close_file, first_metadata, loop_from, with_resource, after_open,
  stream_file, is_stdin_type, returns, exited, out_of_fuel, is_mp3,
}
use ezstream.Cfg.Intake.{IntakeType}
use ezstream.Main.Songs.{
  RunEnd, new_playlist, open_playlist, shuffled, go_on_with, after_song, after_file, after_next,
  song_loop, with_playlist, stream_playlist, of_file, one_pass, after_pass, main_loop, finished,
  exits, crashes, waits, no_fuel,
}
use ezstream.Main.Quit.{Quits, poll-Quits, Stopped, stream_loop-Quits}
use ezstream.Main.Quit.Opened.{Same, open_resource-Same}

-- It has ended, and the program still quits.
abbrev FileQuits : {S : Type 0} → FileEnd S → Type 0
FileQuits out_of_fuel = ⊥
FileQuits exited = Unit
FileQuits (returns retval left w) = Quits w

-- The fuel did not run out, and the program still quits.
abbrev pub RunQuits : {S : Type 0} → RunEnd S → Type 0
RunQuits no_fuel = ⊥
RunQuits exits = Unit
RunQuits crashes = Unit
RunQuits waits = Unit
RunQuits (finished cont w) = Quits w

module _ {S : Type 0} (out : Outside S) (setup : Setup) where
  close_file_quits :
      (b : Bool) (reads : List Read) (e : FileEnd S)
      → Stopped out setup reads e
      → FileQuits (close_file out setup b e)
  close_file_quits true reads (returns retval left w) (few, h) = h
  close_file_quits true reads exited h = tt
  close_file_quits true reads out_of_fuel h = elim h [ ]
  close_file_quits false reads (returns retval left w) (few, h) = h
  close_file_quits false reads exited h = tt
  close_file_quits false reads out_of_fuel h = elim h [ ]

  abbrev WorldQuits : Option (World S) → Type 0
  WorldQuits none = Unit
  WorldQuits (some w) = Quits w

  loop_from_quits :
      (o : Option (World S)) (b : Bool) (reads : List Read)
      → WorldQuits o
      → FileQuits (loop_from out setup o b reads)
  loop_from_quits none b reads h = tt
  loop_from_quits (some w) b reads h =
      close_file_quits b reads (stream_loop out setup reads w)
        (stream_loop-Quits out setup reads w h)

  set-Quits :
      (w : World S) (set : Sent S)
      → Quits w
      → WorldQuits
          (elim set [ ended ↦ none | sent done env md_str ↦ some (with_env out setup w env) ])
  set-Quits w ended h = tt
  set-Quits w (sent done env md_str) h = h

  first_metadata-Quits :
      (md : Option Mdata) (w : World S) → Quits w → WorldQuits (first_metadata out setup md w)
  unfolding first_metadata
  first_metadata-Quits none w h = h
  first_metadata-Quits (some md) w h =
      if_elim WorldQuits (is_mp3 out setup setup.stream.format)
        (set-Quits w (stream_set_metadata out.shout setup.metadata w.env (some md) none) h) h

  with_resource-Quits :
      (reads : Option (List Read)) (o : Opened S)
      → Quits o.world
      → FileQuits (with_resource out setup reads o)
  unfolding with_resource
  with_resource-Quits none o h = h
  with_resource-Quits (some reads) o h =
      loop_from_quits _ o.is_stdin reads
        (first_metadata-Quits o.md (record o.world { resource_errors = 0 }) h)

  after_open_quits :
      (f : Flags) (o : Option (Opened S))
      → f.quit ≡ true
      → Same f o
      → FileQuits (after_open out setup o)
  after_open_quits f none h same = tt
  after_open_quits f (some o) h same = with_resource-Quits o.file o (ap (λ f. f.quit) same ∙ h)

  stream_file-Quits :
      (filename : Bytes) (w : World S) → Quits w → FileQuits (stream_file out setup filename w)
  unfolding stream_file
  stream_file-Quits filename w h =
      after_open_quits w.flags _ h
        (open_resource-Same out setup (is_stdin_type out setup setup.intake.intake_type) filename w)

  after_song-Quits :
      (last_song : Bytes) (pl : Playlist) (w : World S) (f : Playlist → World S → RunEnd S)
      → Quits w
      → RunQuits (after_song out setup last_song pl w f)
  unfolding after_song
  after_song-Quits last_song pl w f h = rw (poll-Quits out w h) (poll-Quits out w h)

  after_file_quits :
      (song : Bytes) (pl : Playlist) (e : FileEnd S) (f : Playlist → World S → RunEnd S)
      → FileQuits e
      → RunQuits (after_file out setup song pl e f)
  after_file_quits song pl exited f h = tt
  after_file_quits song pl out_of_fuel f h = elim h [ ]
  after_file_quits song pl (returns false left w) f h = h
  after_file_quits song pl (returns true left w) f h =
      after_song-Quits (strlcpy song path_max) pl w f h

  after_next-Quits :
      (r : Access (Option Bytes × Playlist)) (w : World S)
      (f : Bytes → Playlist → World S → RunEnd S)
      → Quits w
      → ((song : Bytes) (pl : Playlist) → RunQuits (f song pl w))
      → RunQuits (after_next out setup r w f)
  after_next-Quits out_of_bounds w f h g = tt
  after_next-Quits (ok (none, pl)) w f h g = h
  after_next-Quits (ok (some song, pl)) w f h g = g song pl

  song_loop-Quits :
      (fuel : ℕ) (pl : Playlist) (w : World S)
      → Quits w
      → RunQuits (song_loop out setup (suc fuel) pl w)
  unfolding song_loop
  song_loop-Quits fuel pl w h =
      let (run, env) = out.run_playlist w.env in
      let w' = with_env out setup w env in
      after_next-Quits (playlist_get_next run pl) w' _ h (λ song pl.
        after_file_quits song pl (stream_file out setup song w') _ (stream_file-Quits song w' h))

  go_on_with_quits :
      (r : Option Playlist × World S) (f : Playlist → World S → RunEnd S)
      → ((pl : Playlist) → RunQuits (f pl r.1))
      → RunQuits (go_on_with out setup r f)
  go_on_with_quits (none, w) f g = tt
  go_on_with_quits (some pl, w) f g = g pl

  shuffled_flags : (pl : Playlist) (w : World S) → (shuffled out setup pl w).1.flags ≡ w.flags
  unfolding shuffled
  shuffled_flags pl w = refl

  with_playlist-Quits :
      (fuel : ℕ) (r : Option Playlist × World S)
      → Quits r.1
      → RunQuits (with_playlist out setup (suc fuel) r)
  with_playlist-Quits fuel (none, w) h = h
  with_playlist-Quits fuel (some pl, w) h =
      if_elim RunQuits _
        (go_on_with_quits (shuffled out setup pl w) _
          (λ pl'. song_loop-Quits fuel pl' _ (ap (λ f. f.quit) (shuffled_flags pl w) ∙ h)))
        (song_loop-Quits fuel pl w h)

  new_playlist-Quits :
      (t : IntakeType) (filename : Option Bytes) (w : World S)
      → Quits w
      → Quits (new_playlist out setup t filename w).1
  unfolding new_playlist
  new_playlist-Quits IntakeType.program none w h = h
  new_playlist-Quits IntakeType.program (some filename) w h = h
  new_playlist-Quits IntakeType.stdin filename w h = h
  new_playlist-Quits IntakeType.autodetect filename w h = h
  new_playlist-Quits IntakeType.file filename w h = h
  new_playlist-Quits IntakeType.playlist filename w h = h

  open_playlist-Quits :
      (pl : Option Playlist) (w : World S) → Quits w → Quits (open_playlist out setup pl w).1
  unfolding open_playlist
  open_playlist-Quits none w h = new_playlist-Quits setup.intake.intake_type _ w h
  open_playlist-Quits (some pl) w h = h

  stream_playlist-Quits :
      (fuel : ℕ) (w : World S) → Quits w → RunQuits (stream_playlist out setup (suc fuel) w)
  unfolding stream_playlist
  stream_playlist-Quits fuel w h =
      with_playlist-Quits fuel (open_playlist out setup w.playlist w)
        (open_playlist-Quits w.playlist w h)

  of_file_quits : (e : FileEnd S) → FileQuits e → RunQuits (of_file out setup e)
  of_file_quits out_of_fuel h = elim h [ ]
  of_file_quits exited h = tt
  of_file_quits (returns cont left w) h = h

  one_pass-Quits : (fuel : ℕ) (w : World S) → Quits w → RunQuits (one_pass out setup (suc fuel) w)
  unfolding one_pass
  one_pass-Quits fuel w h =
      if_elim RunQuits _ (stream_playlist-Quits fuel w h)
        (of_file_quits _ (stream_file-Quits setup.intake.filename w h))

  after_pass_quits :
      (r : RunEnd S) (f : World S → RunEnd S) → RunQuits r → RunQuits (after_pass out setup r f)
  after_pass_quits no_fuel f h = elim h [ ]
  after_pass_quits exits f h = tt
  after_pass_quits crashes f h = tt
  after_pass_quits waits f h = tt
  after_pass_quits (finished cont w) f h = rw (poll-Quits out w h) refl

  -- Once a signal has told the program to quit, the loop of `main` ends in the pass that it is in
  -- and with the song that comes next, whatever the server, the files, the metadata and further
  -- signals do: fuel for one pass of one song is enough, and the signal is never forgotten.
  pub main_loop-Quits :
      (passes fuel : ℕ) (w : World S)
      → Quits w
      → RunQuits (main_loop out setup (suc passes) (suc fuel) w)
  unfolding main_loop
  main_loop-Quits passes fuel w h =
      after_pass_quits (one_pass out setup (suc fuel) w) _ (one_pass-Quits fuel w h)
