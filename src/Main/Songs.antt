-- ===== src/Main/Songs.antt =====
-- src/ezstream.c: `streamPlaylist`, and the loop of `main`.
pub mod Resume
pub mod Tests
use ezstream.Prelude.{
  ℕ, zero, suc, Bool, true, false, not, ◌&&◌, ◌||◌, Option, none, some, ◌==◌, if◌then◌else◌,
}
use ezstream.CString.{Bytes, codes, strlcpy}
use ezstream.Util.{util_strrcasecmp}
use ezstream.Cfg.Intake.{IntakeType, cfg_intake_get_filename}
use ezstream.Playlist.{
  Playlist, Access, path_max, playlist_program, playlist_get_next, playlist_skip_next,
  playlist_goto_entry, playlist_rewind, ok, out_of_bounds,
}
use ezstream.Playlist.Read.{playlist_read, playlist_reread}
use ezstream.Playlist.Shuffle.{playlist_shuffle}
use ezstream.Main.{Outside, Setup, World, poll}
use ezstream.Main.Resource.{with_env}
use ezstream.Main.File.{FileEnd, stream_file, returns, exited, out_of_fuel}

-- The end of `streamPlaylist` or of the whole loop: what is returned, and what has changed; or the
-- program ends; or it reads outside of an array; or it waits for random numbers; or the fuel ran
-- out.
pub data RunEnd (S : Type 0) : Type 0 where
  finished : Bool → World S → RunEnd S
  exits crashes waits no_fuel : RunEnd S

abbrev pub is_program : IntakeType → Bool
is_program IntakeType.program = true
is_program IntakeType.stdin = false
is_program IntakeType.file = false
is_program IntakeType.playlist = false
is_program IntakeType.autodetect = false

module _ {S : Type 0} (out : Outside S) (setup : Setup) where
  -- `playlist_program` and `playlist_read`, by the type of the intake.
  unfoldable pub new_playlist : IntakeType → Option Bytes → World S → Option Playlist × World S
  new_playlist IntakeType.program none w = (none, w)
  new_playlist IntakeType.program (some filename) w =
      let (st_mode, env) = out.program_mode filename w.env in
      (playlist_program filename st_mode, with_env out setup w env)
  new_playlist IntakeType.stdin filename w =
      let (source, env) = out.playlist_source none w.env in
      (playlist_read out.junk none source, with_env out setup w env)
  new_playlist _ filename w =
      let (source, env) = out.playlist_source filename w.env in
      (playlist_read out.junk filename source, with_env out setup w env)

  -- The playlist is read, or rewound; `none` for NULL.
  unfoldable pub open_playlist : Option Playlist → World S → Option Playlist × World S
  open_playlist none w =
      new_playlist setup.intake.intake_type (cfg_intake_get_filename setup.intake) w
  open_playlist (some pl) w = (some (playlist_rewind pl), w)

  unfoldable pub shuffled : Playlist → World S → Option Playlist × World S
  shuffled pl w =
      let (draws, env) = out.draws w.env in (playlist_shuffle draws pl, with_env out setup w env)

  abbrev pub keep_playlist : World S → Playlist → World S
  keep_playlist w pl = record w { playlist = some pl }

  abbrev pub go_on_with : Option Playlist × World S → (Playlist → World S → RunEnd S) → RunEnd S
  go_on_with (none, w) f = waits
  go_on_with (some pl, w) f = f pl w

  abbrev pub go_on_at : Access Playlist → (Playlist → RunEnd S) → RunEnd S
  go_on_at out_of_bounds f = crashes
  go_on_at (ok pl) f = f pl

  -- The playlist that was read again, from the entry that was streamed last.
  unfoldable pub resume :
      Bytes → Bool × Playlist → World S → (Playlist → World S → RunEnd S) → RunEnd S
  resume last_song (false, pl) w f = finished false (keep_playlist w pl)
  resume last_song (true, pl) w f =
      if setup.intake.shuffle
      then go_on_with (shuffled pl w) f
      else go_on_at (playlist_skip_next (playlist_goto_entry last_song pl).1) (λ pl. f pl w)

  -- `playlist_reread`
  unfoldable pub reread : Playlist → World S → (Bool × Playlist) × World S
  reread pl w =
      let (source, env) = out.playlist_source (some pl.filename) w.env in
      (playlist_reread out.junk source pl, with_env out setup w env)

  abbrev pub clear_reread : World S → World S
  clear_reread w = record w {
    flags = record w.flags { reread_playlist = false; reread_playlist_notify = false };
  }

  -- What follows a song that was streamed, up to the next round of the loop.
  unfoldable pub after_song :
      Bytes → Playlist → World S → (Playlist → World S → RunEnd S) → RunEnd S
  after_song last_song pl w f =
      let w1 = poll out w in
      let w2 = poll out w1 in
      let cleared = clear_reread w2 in
      let (again, w3) = reread pl cleared in
      if w1.flags.quit
      then finished true (keep_playlist w1 pl)
      else if w2.flags.reread_playlist
      then (if is_program setup.intake.intake_type
          then f pl cleared
          else resume last_song again w3 f)
      else f pl w2

  abbrev pub after_file : Bytes → Playlist → FileEnd S → (Playlist → World S → RunEnd S) → RunEnd S
  after_file song pl exited f = exits
  after_file song pl out_of_fuel f = no_fuel
  after_file song pl (returns false left w) f = finished false (keep_playlist w pl)
  after_file song pl (returns true left w) f = after_song (strlcpy song path_max) pl w f

  abbrev pub after_next :
      Access (Option Bytes × Playlist)
      → World S
      → (Bytes → Playlist → World S → RunEnd S)
      → RunEnd S
  after_next out_of_bounds w f = crashes
  after_next (ok (none, pl)) w f = finished true (keep_playlist w pl)
  after_next (ok (some song, pl)) w f = f song pl w

  -- The loop, with fuel for the songs.
  unfoldable pub song_loop : ℕ → Playlist → World S → RunEnd S
  song_loop zero pl w = no_fuel
  song_loop (suc fuel) pl w =
      let (run, env) = out.run_playlist w.env in
      after_next (playlist_get_next run pl) (with_env out setup w env) (λ song pl w.
        after_file song pl (stream_file out setup song w) (λ pl w. song_loop fuel pl w))

  -- `streamPlaylist`
  abbrev pub with_playlist : ℕ → Option Playlist × World S → RunEnd S
  with_playlist fuel (none, w) = finished false w
  with_playlist fuel (some pl, w) =
      if not (is_program setup.intake.intake_type) && setup.intake.shuffle
      then go_on_with (shuffled pl w) (song_loop fuel)
      else song_loop fuel pl w

  unfoldable pub stream_playlist : ℕ → World S → RunEnd S
  stream_playlist fuel w = with_playlist fuel (open_playlist w.playlist w)

  -- `playlistMode`
  abbrev pub suffix_mode : Option Bytes → Bool
  suffix_mode none = false
  suffix_mode (some filename) =
      util_strrcasecmp filename (codes ".m3u") == 0 || util_strrcasecmp filename (codes ".txt") == 0

  unfoldable pub playlist_mode : Bool
  playlist_mode = elim setup.intake.intake_type [
    | IntakeType.program ↦ true
    | IntakeType.playlist ↦ true
    | IntakeType.autodetect ↦ suffix_mode (cfg_intake_get_filename setup.intake)
    | IntakeType.file ↦ false
    | IntakeType.stdin ↦ false
  ]

  abbrev pub of_file : FileEnd S → RunEnd S
  of_file exited = exits
  of_file out_of_fuel = no_fuel
  of_file (returns cont left w) = finished cont w

  -- One pass of the loop of `main`. A file name that is not set is NULL, which cannot be opened.
  unfoldable pub one_pass : ℕ → World S → RunEnd S
  one_pass fuel w =
      if playlist_mode
      then stream_playlist fuel w
      else of_file (stream_file out setup setup.intake.filename w)

  abbrev pub after_pass : RunEnd S → (World S → RunEnd S) → RunEnd S
  after_pass exits f = exits
  after_pass crashes f = crashes
  after_pass waits f = waits
  after_pass no_fuel f = no_fuel
  after_pass (finished cont w) f =
      let polled = poll out w in
      if polled.flags.quit || setup.intake.stream_once || not cont
      then finished cont polled
      else f polled

  -- The loop of `main`, with fuel for the passes and for the songs of each.
  unfoldable pub main_loop : ℕ → ℕ → World S → RunEnd S
  main_loop zero fuel w = no_fuel
  main_loop (suc passes) fuel w = after_pass (one_pass fuel w) (λ w. main_loop passes fuel w)
