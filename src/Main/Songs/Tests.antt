-- ===== src/Main/Songs/Tests.antt =====
-- `streamPlaylist` after a HUP signal, on concrete playlists.
use ezstream.Prelude.{◌+◌, ◌≡◌, refl, true, false, none, some, [], ◌∷◌, arith}
use ezstream.CString.{Bytes, codes}
use ezstream.Playlist.{Playlist, playlist_create, first_slots, grow_slots, playlist_add}
use ezstream.Playlist.Read.{read_loop, playlist_read, playlist_reread}
use ezstream.Playlist.Goto.{Lacks}
use ezstream.Playlist.Slots.{Holds, Holds-playlist_create, playlist_add-Holds}
use ezstream.Main.{sig_handler, handle_all, World, poll, sighup}
use ezstream.Main.Songs.{RunEnd, reread, after_song, finished}
use ezstream.Main.Songs.Resume.{Rereads, after_song-resume, after_song_missing}
use ezstream.Main.Tests.{Host, host, setup, world}

abbrev a : Bytes
a = codes "a"

abbrev b : Bytes
b = codes "b"

abbrev list : Playlist
list = playlist_add none (playlist_add none (playlist_create (codes "l")) a) b

list-Holds : Holds list (a ∷ b ∷ [])
list-Holds =
    playlist_add-Holds none (playlist_add none (playlist_create (codes "l")) a) (a ∷ []) b (
      playlist_add-Holds none (playlist_create (codes "l")) [] a
        (Holds-playlist_create (codes "l")))

abbrev hup : World Host
hup = world ([] ∷ (sighup ∷ []) ∷ []) []

abbrev read_again : World Host
read_again = world [] []

list_Rereads : Rereads host setup list hup list read_again
unfolding poll handle_all sig_handler reread playlist_reread playlist_read read_loop playlist_add
    playlist_create
list_Rereads = record {
  runs_on = refl;
  hup = refl;
  no_program = refl;
  no_shuffle = refl;
  read_again = refl;
}

abbrev stop : Playlist → World Host → RunEnd Host
stop pl w = finished true (record w { playlist = some pl })

list_plain : list.program ≡ false
unfolding playlist_add playlist_create first_slots grow_slots
list_plain = refl

list_start : list.index ≡ 0
unfolding playlist_add playlist_create first_slots grow_slots
list_start = refl

after_song-resume_example :
    after_song host setup a list hup stop ≡ stop (record list { index = 0 + 1 }) read_again
after_song-resume_example =
    after_song-resume host setup list list hup read_again [] (b ∷ []) a stop list_Rereads list-Holds
      list_plain tt

c_missing : Lacks (codes "c") (a ∷ b ∷ [])
c_missing = (ground arith, (ground arith, tt))

after_song_missing_example :
    after_song host setup (codes "c") list hup stop ≡ stop (record list { index = 1 }) read_again
after_song_missing_example =
    after_song_missing host setup list list hup read_again a (b ∷ []) (codes "c") stop list_Rereads
      list-Holds list_plain list_start c_missing
