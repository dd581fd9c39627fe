-- ===== src/Main/Songs/Resume.antt =====
-- src/ezstream.c: how `streamPlaylist` goes on after a HUP signal.
use ezstream.Prelude.{◌+◌, ◌≡◌, refl, ap, ◌∙◌, true, false, List, [], ◌∷◌, ◌++◌, arith, length}
use ezstream.CString.{Bytes}
use ezstream.Playlist.{Playlist, playlist_skip_next, playlist_goto_entry, ok}
use ezstream.Playlist.Slots.{Holds}
use ezstream.Playlist.Goto.{Lacks, playlist_skip_next-goto_entry, playlist_goto_entry_missing}
use ezstream.Playlist.Walk.{slot_at}
use ezstream.Main.{Outside, Setup, World, poll}
use ezstream.Main.Songs.{RunEnd, is_program, go_on_at, resume, reread, clear_reread, after_song}

skips_first :
    (pl : Playlist) (d : Bytes) (es : List Bytes)
    → Holds pl (d ∷ es)
    → pl.program ≡ false
    → pl.index ≡ 0
    → playlist_skip_next pl ≡ ok (record pl { index = 1 })
unfolding playlist_skip_next
skips_first pl d es holds no_program start =
    ground (arith, slot_at pl [] es d holds start, holds.count)

module _ {S : Type 0} (out : Outside S) (setup : Setup) where
  -- The program is not told to quit, a HUP signal has arrived, the intake is not a program, it is not
  -- shuffled, and reading the playlist `pl` again succeeds, with `fresh`.
  pub record Rereads (pl : Playlist) (w : World S) (fresh : Playlist) (w' : World S) : Type 0 where
    pub runs_on : (poll out w).flags.quit ≡ false
    pub hup : (poll out (poll out w)).flags.reread_playlist ≡ true
    pub no_program : is_program setup.intake.intake_type ≡ false
    pub no_shuffle : setup.intake.shuffle ≡ false
    pub read_again :
        reread out setup pl (clear_reread out setup (poll out (poll out w))) ≡ ((true, fresh), w')

  resumes :
      (pl fresh : Playlist) (w w' : World S) (last_song : Bytes) (f : Playlist → World S → RunEnd S)
      → Rereads pl w fresh w'
      → after_song out setup last_song pl w f
        ≡ go_on_at out setup
            (playlist_skip_next (playlist_goto_entry last_song fresh).1)
            (λ pl. f pl w')
  unfolding after_song resume
  resumes pl fresh w w' last_song f h =
      rw h.read_again (rw h.no_shuffle (rw h.no_program (rw h.hup (rw h.runs_on refl))))

  -- After a HUP signal the playlist that is read again goes on with the entry behind the first
  -- occurrence of the song that was streamed last. The conditions are that the program is not told to
  -- quit, that the intake is not a program and does not shuffle, and that the playlist can be read
  -- again, is not one of a program, and then holds that song.
  pub after_song-resume :
      (pl fresh : Playlist) (w w' : World S) (a b : List Bytes) (e : Bytes)
      (f : Playlist → World S → RunEnd S)
      → Rereads pl w fresh w'
      → Holds fresh (a ++ e ∷ b)
      → fresh.program ≡ false
      → Lacks e a
      → after_song out setup e pl w f ≡ f (record fresh { index = length a + 1 }) w'
  after_song-resume pl fresh w w' a b e f h holds no_program lacks =
      resumes pl fresh w w' e f h
      ∙ ap (λ r. go_on_at out setup r (λ pl. f pl w'))
          (playlist_skip_next-goto_entry fresh a b e holds no_program lacks)

  -- If after a HUP signal the playlist that is read again no longer holds the song that was streamed
  -- last, its first entry is skipped: it goes on with the second one. The conditions are that the
  -- program is not told to quit, that the intake is not a program and does not shuffle, and that the
  -- playlist can be read again, is not one of a program, holds at least one entry and begins at its
  -- start.
  pub after_song_missing :
      (pl fresh : Playlist) (w w' : World S) (d : Bytes) (es : List Bytes) (e : Bytes)
      (f : Playlist → World S → RunEnd S)
      → Rereads pl w fresh w'
      → Holds fresh (d ∷ es)
      → fresh.program ≡ false
      → fresh.index ≡ 0
      → Lacks e (d ∷ es)
      → after_song out setup e pl w f ≡ f (record fresh { index = 1 }) w'
  after_song_missing pl fresh w w' d es e f h holds no_program start lacks =
      resumes pl fresh w w' e f h
      ∙ ap (λ r. go_on_at out setup (playlist_skip_next r.1) (λ pl. f pl w'))
          (playlist_goto_entry_missing fresh (d ∷ es) e holds lacks)
      ∙ ap (λ r. go_on_at out setup r (λ pl. f pl w'))
          (skips_first fresh d es holds no_program start)
