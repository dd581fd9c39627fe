-- ===== src/Main.antt =====
-- src/ezstream.c: the main program. What the program finds outside (signals, the clock, files and
-- programs, the server) is a type of states with the operations of Outside. A file that is read is
-- the list of what fread(3) gives, so that every input ends.
pub mod Reconnect
pub mod Send
pub mod Command
pub mod Resource
pub mod File
pub mod Songs
pub mod Quit
pub mod Start
pub mod Tests
use ezstream.Prelude.{ℕ, Bool, true, Option, List, [], ◌∷◌}
use ezstream.CString.{Bytes}
use ezstream.Cfg.Server.{Server}
use ezstream.Cfg.Stream.{Stream}
use ezstream.Cfg.Intake.{Intake}
use ezstream.Cfg.Decoder.{Decoder}
use ezstream.Cfg.Encoder.{Encoder}
use ezstream.Cfg.Global.{Metadata}
use ezstream.Mdata.{Tags}
use ezstream.Mdata.Run.{Request, Status}
use ezstream.Playlist.{Playlist, Run}
use ezstream.Playlist.Read.{Source}
use ezstream.Stream.Transfer.{Libshout}

-- The signals that `main` installs the handler for, and any other.
pub data Signal : Type 0 where
  sigterm sigint sighup sigusr1 sigusr2 other_signal : Signal

-- The `sig_atomic_t` variables.
pub record Flags : Type 0 where
  pub reread_playlist : Bool
  pub reread_playlist_notify : Bool
  pub skip_track : Bool
  pub query_metadata : Bool
  pub quit : Bool

unfoldable pub sig_handler : Signal → Flags → Flags
sig_handler sigterm f = record f { quit = true }
sig_handler sigint f = record f { quit = true }
sig_handler sighup f = record f { reread_playlist = true; reread_playlist_notify = true }
sig_handler sigusr1 f = record f { skip_track = true }
sig_handler sigusr2 f = record f { query_metadata = true }
sig_handler other_signal f = f

-- Signals that arrive one after the other.
unfoldable pub handle_all : List Signal → Flags → Flags
unfolding sig_handler
handle_all [] f = f
handle_all (sig ∷ sigs) f = handle_all sigs (sig_handler sig f)

-- `errno`, as `sendStream` tells it apart.
pub data Errno : Type 0 where
  eintr ebadf other_errno : Errno

-- What fread(3) gives: bytes, and the error that cut them short if there was one; or none and an
-- error. At the end of the list it gives none and no error.
pub data Read : Type 0 where
  block : Bytes → Read
  short_block : Bytes → Errno → Read
  no_block : Errno → Read

pub record Outside (S : Type 0) : Type 0 where
  pub shout : Libshout S
  -- The signals that have arrived since this was asked the last time.
  pub signals : S → List Signal × S
  -- sleep(3)
  pub sleep : ℕ → S → S
  -- The seconds of CLOCK_MONOTONIC.
  pub now : S → ℕ × S
  pub fopen : Bytes → S → Option (List Read) × S
  pub popen : Bytes → S → Option (List Read) × S
  -- What is still to be read on the standard input.
  pub stdin : S → List Read
  pub set_stdin : List Read → S → S
  -- For `mdata_run_program`: the mode of the program, and its answers.
  pub ask_program : Bytes → S → (Option ℕ × (Request → Status)) × S
  -- For `mdata_parse_file`: whether the file is readable, and its tags.
  pub find_tags : Bytes → S → (Bool × Option Tags) × S
  -- For `playlist_read`, `playlist_program`, `playlist_get_next` and `playlist_shuffle`.
  pub playlist_source : Option Bytes → S → Source × S
  pub program_mode : Bytes → S → Option ℕ × S
  pub run_playlist : S → Run × S
  pub draws : S → List ℕ × S
  -- What the uninitialised slots of a playlist hold.
  pub junk : Option Bytes
  pub basename : Bytes → Bytes
  pub char2utf8 : Bytes → Bytes
  pub utf82char : Bytes → Bytes

-- What the program looks up in the configuration, which does not change while it runs.
pub record Setup : Type 0 where
  pub stream : Stream
  pub server : Server
  pub intake : Intake
  pub decoders : List Decoder
  pub encoders : List Encoder
  pub metadata : Metadata

-- The variables of the program, and what is outside.
pub record World (S : Type 0) : Type 0 where
  pub flags : Flags
  pub resource_errors : ℕ
  pub playlist : Option Playlist
  pub env : S

module _ {S : Type 0} (out : Outside S) where
  -- In front of each test of a flag: a signal may arrive at any time.
  unfoldable pub poll : World S → World S
  unfolding handle_all
  poll w =
      let (sigs, env) = out.signals w.env in record w { flags = handle_all sigs w.flags; env = env }
