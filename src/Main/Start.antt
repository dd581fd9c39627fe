-- ===== src/Main/Start.antt =====
-- src/ezstream.c: `main` up to its loop. Writing the file with the process id, whose failure is only
-- logged, is left out; log_init, playlist_init, stream_init and cfg_check always succeed.
pub mod Ready
pub mod Tests
use mathlib.Core.Path.{subst}
use ezstream.Prelude.{
  ℕ, ◌≡◌, refl, sym, ap, ◌∙◌, Bool, true, false, Option, none, some, List, ◌++◌, if◌then◌else◌,
  if_elim, ◌>>=◌,
}
use ezstream.CString.{Bytes}
use ezstream.Cfg.Server.{Server}
use ezstream.Cfg.Stream.{Stream}
use ezstream.Cfg.Global.{
  Config, Global, ConfigType, Ended, cfg_reset, cfg_init, cfg_commit, cfg_load, cfg_save,
  cfg_file_reload, load_as, finish_reload, xmlfile, other_type, returned, aborted,
}
use ezstream.Cmdline.{Opt, Parsed, cmdline_parse, success, failure, waiting, crashed}
use ezstream.Playlist.Read.{Source}
use ezstream.Stream.{
  Setting, StreamHandle, Answer, stream_create, element, server_of, stream_get_cfg_stream,
  stream_get_cfg_server, stream_get_cfg_intake, stream_configure, null_pointer, answer,
}
use ezstream.Stream.Settings.{server_settings, tls_settings, stream_settings}
use ezstream.Stream.Configured.{stream_configure_success}
use ezstream.Stream.Transfer.{stream_connect}
use ezstream.Cfgfile.{Libxml, cfg_default}
use ezstream.Cfgfile.Settings.{cfgfile_xml_parse}
use ezstream.Cfgfile.Complete.{IsComplete, IsDistinct}
use ezstream.Cfgfile.Reloaded.{LeavesComplete, cfg_file_reload-LeavesComplete}
use ezstream.Main.{Outside, Setup, World}

-- What `main` comes to before its loop: an exit status, or no exit that is in order; or it is
-- connected, with the configuration that was loaded, the handle and what was looked up.
pub data Start (S : Type 0) : Type 0 where
  stops : ℕ → Start S
  breaks : Start S
  streams : Config → StreamHandle → Setup → World S → Start S

-- The variables when the program starts.
abbrev pub first_world : {S : Type 0} → S → World S
first_world s = record {
  flags = record {
    reread_playlist = false;
    reread_playlist_notify = false;
    skip_track = false;
    query_metadata = false;
    quit = false;
  };
  resource_errors = 0;
  playlist = none;
  env = s;
}

-- `cfg_server`, `cfg_stream` and `cfg_intake`; `none` where one is NULL.
unfoldable pub look_up : Config → StreamHandle → Option Setup
look_up cfg s =
    let (cfg1, i) = stream_get_cfg_server cfg s in
    let j = stream_get_cfg_stream cfg1 s in
    let (cfg2, k) = stream_get_cfg_intake cfg1 s in
    do
      server ← element cfg2.servers i
      stream ← element cfg2.streams j
      intake ← element cfg2.intakes k
      some (record {
        stream = stream;
        server = server;
        intake = intake;
        decoders = cfg2.decoders;
        encoders = cfg2.encoders;
        metadata = cfg2.metadata;
      })

module _ {S : Type 0} (out : Outside S) (lib : Libxml) (accepts : List Setting → Setting → Bool)
    (can_read can_enter : Bytes → Bool) (installs_handlers : Bool) where
  -- The initial connection.
  abbrev pub connected : Config → StreamHandle → Bool × S → Option Setup → Start S
  connected loaded s (false, env) setup = stops 1
  connected loaded s (true, env) none = breaks
  connected loaded s (true, env) (some setup) = streams loaded s setup (first_world env)

  -- From the end of `stream_configure` on, with the signal handlers.
  abbrev pub configured : Config → Answer → S → Start S
  configured loaded null_pointer env = breaks
  configured loaded (answer false cfg s) env = stops 1
  configured loaded (answer true cfg s) env =
      if installs_handlers
      then connected loaded s (stream_connect out.shout env) (look_up cfg s)
      else stops 1

  -- From the end of `cfg_file_reload` on.
  abbrev pub loaded : Ended (Bool × Global) → S → Start S
  loaded aborted env = breaks
  loaded (returned (false, g)) env = stops 1
  loaded (returned (true, g)) env =
      configured g.cfg
        (stream_configure accepts can_read can_enter g.cfg (stream_create cfg_default)) env

  -- From the end of `cmdline_parse` on.
  abbrev pub parsed : Parsed → Global → S → Start S
  parsed waiting g env = breaks
  parsed crashed g env = breaks
  parsed (failure ret lines p) g env = stops ret
  parsed (success p) g env =
      loaded (cfg_file_reload (cfgfile_xml_parse lib) (record g { cfg_program = p })) env

  unfoldable pub main_start :
      Option Bytes → (Option Bytes → Source) → List ℕ → Global → Bytes → List Opt → S → Start S
  main_start junk open_file draws g progname opts env =
      let g0 = cfg_init g in
      parsed (cmdline_parse junk open_file draws g0.cfg_program progname opts) g0 env
