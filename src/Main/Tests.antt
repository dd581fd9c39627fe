-- ===== src/Main/Tests.antt =====
-- src/ezstream.c on concrete inputs.
use ezstream.Prelude.{
  ℕ, ◌+◌, ◌≡◌, refl, inl, Bool, true, false, none, some, List, [], ◌∷◌, ◌++◌, arith,
}
use ezstream.CString.{Bytes, codes}
use ezstream.Cfg.Server.{new_server}
use ezstream.Cfg.Stream.{new_stream, mp3}
use ezstream.Cfg.Intake.{new_intake}
use ezstream.Cfg.Global.{Metadata, cfg_reset}
use ezstream.Mdata.Run.{not_started}
use ezstream.Playlist.{not_run}
use ezstream.Playlist.Read.{contents}
use ezstream.Stream.Transfer.{stream_connect, stream_disconnect, stream_get_connected, stream_send}
use ezstream.Main.{
  Signal, Flags, sig_handler, handle_all, Outside, Setup, World, poll, sigint, block, short_block,
  eintr, other_errno,
}
use ezstream.Main.Reconnect.{
  try_connect, reconnect, Fails, after_fails, reconnect_succeeds, reconnect_gives_up,
}
use ezstream.Main.Send.{
  ends, send_stream, stream_done, stream_cont, ensure_connected, send_block, after_block,
}
use ezstream.Main.Send.Calm.{IsCalm, send_all, blocks, send_stream_calm}
use ezstream.Main.Resource.{open_resource}
use ezstream.Main.Resource.Unnormalized.{with_normalize, open_resource_unnormalized}
use ezstream.Main.File.{stream_loop, stream_file}
use ezstream.Main.File.Ends.{Ended, stream_file-Ended}
use ezstream.Main.Songs.{main_loop}
use ezstream.Main.Quit.{Quits, Stopped, stream_loop-Quits}
use ezstream.Main.Quit.Ends.{RunQuits, main_loop-Quits}

-- What is outside: the signals that will arrive, what the attempts to connect will come to, whether
-- the handle is connected, the seconds that were waited, and what was sent.
pub record Host : Type 0 where
  pub arriving : List (List Signal)
  pub attempts : List Bool
  pub on : Bool
  pub waited : ℕ
  pub output : List Bytes

abbrev try_open : List Bool → Host → Bool × Host
try_open [] h = (false, h)
try_open (b ∷ bs) h = (b, record h { attempts = bs; on = b })

abbrev next_signals : List (List Signal) → Host → List Signal × Host
next_signals [] h = ([], h)
next_signals (sigs ∷ more) h = (sigs, record h { arriving = more })

abbrev pub host : Outside Host
host = record {
  shout = record {
    shout_open = λ h. try_open h.attempts h;
    shout_close = λ h. record h { on = false };
    shout_send = λ block h. (true, record h { output = h.output ++ block ∷ [] });
    shout_get_connected = λ h. h.on;
    shout_set_metadata = λ pairs h. (true, h);
    shout_close-connected = λ h. refl;
  };
  signals = λ h. next_signals h.arriving h;
  sleep = λ seconds h. record h { waited = h.waited + seconds };
  now = λ h. (0, h);
  fopen = λ filename h. (some (block (codes "x") ∷ block (codes "y") ∷ []), h);
  popen = λ cmd h. (none, h);
  stdin = λ h. [];
  set_stdin = λ reads h. h;
  ask_program = λ program h. ((none, λ request. not_started), h);
  find_tags = λ filename h. ((true, none), h);
  playlist_source = λ filename h. (contents (codes "a\nb\n"), h);
  program_mode = λ filename h. (none, h);
  run_playlist = λ h. (not_run, h);
  draws = λ h. ([], h);
  junk = none;
  basename = λ s. s;
  char2utf8 = λ s. s;
  utf82char = λ s. s;
}

-- The same, without signals.
abbrev calm_host : Outside Host
calm_host = record host { signals = λ h. ([], h) }

abbrev pub metadata : Metadata
metadata = cfg_reset.metadata

abbrev pub setup : Setup
setup = record {
  stream = record (new_stream (codes "s")) { mountpoint = some (codes "/s"); format = mp3 };
  server = new_server (codes "default");
  intake = record (new_intake (codes "i")) { filename = codes "a.mp3" };
  decoders = [];
  encoders = [];
  metadata = metadata;
}

abbrev no_flags : Flags
no_flags = record {
  reread_playlist = false;
  reread_playlist_notify = false;
  skip_track = false;
  query_metadata = false;
  quit = false;
}

abbrev pub world : List (List Signal) → List Bool → World Host
world arriving attempts = record {
  flags = no_flags;
  resource_errors = 0;
  playlist = none;
  env = record { arriving = arriving; attempts = attempts; on = true; waited = 0; output = [] };
}

abbrev told_to_quit : World Host
told_to_quit = poll host (world ((sigint ∷ []) ∷ []) [])

told : Quits told_to_quit
unfolding poll handle_all sig_handler
told = refl

main_loop-Quits_example : RunQuits (main_loop host setup 1 1 told_to_quit)
main_loop-Quits_example = main_loop-Quits host setup 0 0 told_to_quit told

stream_loop-Quits_example :
    Stopped host setup
      (block (codes "x") ∷ block (codes "y") ∷ [])
      (stream_loop host setup (block (codes "x") ∷ block (codes "y") ∷ []) told_to_quit)
stream_loop-Quits_example =
    stream_loop-Quits host setup (block (codes "x") ∷ block (codes "y") ∷ []) told_to_quit told

stream_file-Ended_example : Ended (stream_file host setup (codes "a.mp3") told_to_quit)
stream_file-Ended_example = stream_file-Ended host setup (codes "a.mp3") told_to_quit

abbrev flaky : World Host
flaky = world ([] ∷ []) (false ∷ true ∷ [])

flaky-Fails : Fails host 1 flaky
unfolding try_connect poll handle_all stream_connect stream_disconnect
flaky-Fails = (refl, refl, tt)

flaky_connects : (try_connect host (after_fails host 1 flaky)).0 ≡ true
unfolding try_connect poll handle_all stream_connect stream_disconnect
flaky_connects = refl

reconnect_succeeds_example :
    reconnect host 0 flaky ≡ (true, (try_connect host (after_fails host 1 flaky)).1)
reconnect_succeeds_example =
    reconnect_succeeds host 1 0 flaky (omega arith) (inl refl) flaky-Fails flaky_connects

abbrev pub dead : World Host
dead = world [] []

dead-Fails : Fails host 2 dead
unfolding try_connect poll handle_all stream_connect stream_disconnect
dead-Fails = (refl, refl, (refl, refl, tt))

dead_fails : (try_connect host (after_fails host 2 dead)).0 ≡ false
unfolding try_connect poll handle_all stream_connect stream_disconnect
dead_fails = refl

reconnect_gives_up_example :
    reconnect host 3 dead ≡ (false, (try_connect host (after_fails host 2 dead)).1)
reconnect_gives_up_example = reconnect_gives_up host 2 dead (omega arith) dead-Fails dead_fails

-- Three failures are two pauses.
gives_up_pauses : (try_connect host (after_fails host 2 dead)).1.env.waited ≡ 10
unfolding try_connect poll handle_all stream_connect stream_disconnect
gives_up_pauses = refl

is_calm : IsCalm calm_host
is_calm = record {
  no_signals = λ h. refl;
  time = λ h. refl;
  takes = λ b h on. refl;
  stays_connected = λ b h on. on;
}

send_stream_calm_example :
    send_stream calm_host setup (blocks calm_host setup (codes "x" ∷ codes "y" ∷ [])) dead
    ≡ ends stream_done []
        (record dead { env = send_all calm_host setup (codes "x" ∷ codes "y" ∷ []) dead.env })
send_stream_calm_example =
    send_stream_calm calm_host setup is_calm 0 (codes "x" ∷ codes "y" ∷ []) dead refl
      (refl, refl, refl, refl) refl

open_resource_unnormalized_example :
    open_resource host (with_normalize true setup) false (codes "a.mp3") dead
    ≡ open_resource host setup false (codes "a.mp3") dead
open_resource_unnormalized_example =
    open_resource_unnormalized host setup true false (codes "a.mp3") dead

-- A block that EINTR has cut short is sent, and `sendStream` asks to be called again.
send_stream_interrupted :
    send_stream host setup (short_block (codes "x") eintr ∷ []) dead
    ≡ ends stream_cont [] (record dead { env = record dead.env { output = codes "x" ∷ [] } })
unfolding send_stream ensure_connected send_block after_block poll handle_all stream_get_connected
    stream_send
send_stream_interrupted = refl

-- After any other error the rest of the file is done.
send_stream_failed :
    send_stream host setup (short_block (codes "x") other_errno ∷ []) dead
    ≡ ends stream_done [] (record dead { env = record dead.env { output = codes "x" ∷ [] } })
unfolding send_stream ensure_connected send_block after_block poll handle_all stream_get_connected
    stream_send
send_stream_failed = refl
