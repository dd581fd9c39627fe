-- ===== src/Main/Start/Ready.antt =====
-- src/ezstream.c: what has been done when the loop of `main` begins.
use mathlib.Core.Path.{subst}
use ezstream.Prelude.{
  ℕ, ◌≡◌, refl, sym, ap, ◌∙◌, Bool, true, false, Option, none, some, List, ◌++◌, if_elim,
}
use ezstream.CString.{Bytes}
use ezstream.Cfg.Server.{Server}
use ezstream.Cfg.Stream.{Stream}
use ezstream.Cfg.Global.{
  Config, Global, ConfigType, Ended, cfg_reset, cfg_init, cfg_commit, cfg_load, cfg_save,
  cfg_file_reload, load_as, finish_reload, xmlfile, other_type, returned, aborted,
}
use ezstream.Cmdline.{Opt, Parsed, success, failure, waiting, crashed}
use ezstream.Playlist.Read.{Source}
use ezstream.Stream.{
  Setting, StreamHandle, Answer, stream_create, element, server_of, stream_get_cfg_stream,
  stream_configure, null_pointer, answer,
}
use ezstream.Stream.Settings.{server_settings, tls_settings, stream_settings}
use ezstream.Stream.Configured.{stream_configure_success}
use ezstream.Stream.Transfer.{stream_connect}
use ezstream.Cfgfile.{Libxml, cfg_default}
use ezstream.Cfgfile.Settings.{cfgfile_xml_parse}
use ezstream.Cfgfile.Complete.{IsComplete, IsDistinct}
use ezstream.Cfgfile.Reloaded.{LeavesComplete, cfg_file_reload-LeavesComplete}
use ezstream.Main.{Outside, Setup, World}
use ezstream.Main.Start.{
  Start, stops, breaks, streams, look_up, connected, configured, loaded, parsed, main_start,
}

module _ {S : Type 0} (out : Outside S) (lib : Libxml) (accepts : List Setting → Setting → Bool)
    (can_read can_enter : Bytes → Bool) (installs_handlers : Bool) where
  -- What has been done where the loop begins: the configuration that was loaded is complete and its
  -- names are different, the handle has exactly the settings of a stream and its server, and the
  -- connection is there.
  abbrev Ready : S → Start S → Type 0
  Ready env (stops n) = Unit
  Ready env breaks = Unit
  Ready env (streams cfg s setup w) =
      IsComplete cfg
      × IsDistinct cfg
      × ((stream : Stream) × (server : Server) × (element cfg.streams
              (stream_get_cfg_stream cfg (stream_create cfg_default))
            ≡ some stream)
          × (server_of cfg stream ≡ some server)
          × (s.shout ≡ server_settings server ++ (tls_settings server ++ stream_settings stream)))
      × (stream_connect out.shout env ≡ (true, w.env))

  connected-Ready :
      (cfg : Config) (s : StreamHandle) (r : Bool × S) (env : S) (setup : Option Setup)
      → IsComplete cfg
      → IsDistinct cfg
      → ((stream : Stream) × (server : Server) × (element cfg.streams
              (stream_get_cfg_stream cfg (stream_create cfg_default))
            ≡ some stream)
          × (server_of cfg stream ≡ some server)
          × (s.shout ≡ server_settings server ++ (tls_settings server ++ stream_settings stream)))
      → stream_connect out.shout env ≡ r
      → Ready env (connected out lib accepts can_read can_enter installs_handlers cfg s r setup)
  connected-Ready cfg s (false, env') env setup complete distinct found e = tt
  connected-Ready cfg s (true, env') env none complete distinct found e = tt
  connected-Ready cfg s (true, env') env (some setup) complete distinct found e =
      (complete, distinct, found, e)

  configured-Ready :
      (cfg : Config) (a : Answer) (env : S)
      → IsComplete cfg
      → IsDistinct cfg
      → stream_configure accepts can_read can_enter cfg (stream_create cfg_default) ≡ a
      → Ready env (configured out lib accepts can_read can_enter installs_handlers cfg a env)
  unfolding stream_create
  configured-Ready cfg null_pointer env complete distinct e = tt
  configured-Ready cfg (answer false cfg' s) env complete distinct e = tt
  configured-Ready cfg (answer true cfg' s) env complete distinct e =
      let (stream, server, at, of, same) =
        stream_configure_success accepts can_read can_enter cfg (stream_create cfg_default) cfg' s
          e in
      if_elim (Ready env) installs_handlers
        (connected-Ready cfg s (stream_connect out.shout env) env (look_up cfg' s) complete distinct
          (stream, server, at, of, ap (λ s. s.shout) same) refl)
        tt

  loaded-Ready :
      (r : Ended (Bool × Global)) (env : S)
      → ((g : Global) → r ≡ returned (true, g) → IsComplete g.cfg × IsDistinct g.cfg)
      → Ready env (loaded out lib accepts can_read can_enter installs_handlers r env)
  loaded-Ready aborted env h = tt
  loaded-Ready (returned (false, g)) env h = tt
  loaded-Ready (returned (true, g)) env h =
      let (complete, distinct) = h g refl in configured-Ready g.cfg _ env complete distinct refl

  empty-IsComplete : IsComplete cfg_reset
  empty-IsComplete = record {
    servers = tt;
    streams = tt;
    intakes = tt;
    decoders = tt;
    encoders = tt;
  }

  empty-IsDistinct : IsDistinct cfg_reset
  empty-IsDistinct = record {
    servers = tt;
    streams = tt;
    intakes = tt;
    decoders = tt;
    encoders = tt;
  }

  unknown_type :
      (g : Global) (n : ℕ)
      → g.cfg_program.config_type ≡ other_type n
      → cfg_file_reload (cfgfile_xml_parse lib) g ≡ aborted
  unfolding cfg_file_reload cfg_load cfg_save
  unknown_type g n e =
      ap
        (λ t.
          finish_reload
            (load_as t (cfgfile_xml_parse lib g.cfg_program.config_file cfg_reset) (cfg_save g)))
        e

  reload-Complete :
      (g g' : Global) (t : ConfigType)
      → g.cfg_program.config_type ≡ t
      → g.cfg ≡ cfg_reset
      → cfg_file_reload (cfgfile_xml_parse lib) g ≡ returned (true, g')
      → IsComplete g'.cfg × IsDistinct g'.cfg
  reload-Complete g g' xmlfile xml empty e = subst (LeavesComplete lib) e (
      cfg_file_reload-LeavesComplete lib g xml (subst IsComplete (sym empty) empty-IsComplete)
        (subst IsDistinct (sym empty) empty-IsDistinct))
  reload-Complete g g' (other_type n) other empty e =
      absurd (subst Aborts (sym (unknown_type g n other) ∙ e) tt)
    where
      Aborts : Ended (Bool × Global) → Type 0
      Aborts aborted = Unit
      Aborts (returned r) = ⊥

  parsed-Ready :
      (p : Parsed) (g : Global) (env : S)
      → g.cfg ≡ cfg_reset
      → Ready env (parsed out lib accepts can_read can_enter installs_handlers p g env)
  parsed-Ready waiting g env empty = tt
  parsed-Ready crashed g env empty = tt
  parsed-Ready (failure ret lines p) g env empty = tt
  parsed-Ready (success p) g env empty =
      loaded-Ready _ env
        (λ g'. reload-Complete (record g { cfg_program = p }) g' p.config_type refl empty)

  -- Whatever the options, the configuration file, libshout and the server do: if the program comes
  -- to its loop, the configuration that was loaded is complete, no two elements of a kind have the
  -- same name, the handle of libshout has exactly the settings of the stream called "default" and of
  -- its server, and the connection was made.
  pub main_start-Ready :
      (junk : Option Bytes) (open_file : Option Bytes → Source) (draws : List ℕ) (g : Global)
      (progname : Bytes) (opts : List Opt) (env : S) (cfg : Config) (s : StreamHandle)
      (setup : Setup) (w : World S)
      → main_start out lib accepts can_read can_enter installs_handlers junk open_file draws g
          progname opts env
        ≡ streams cfg s setup w
      → IsComplete cfg
        × IsDistinct cfg
        × ((stream : Stream) × (server : Server) × (element cfg.streams
                (stream_get_cfg_stream cfg (stream_create cfg_default))
              ≡ some stream)
            × (server_of cfg stream ≡ some server)
            × (s.shout ≡ server_settings server ++ (tls_settings server ++ stream_settings stream)))
        × (stream_connect out.shout env ≡ (true, w.env))
  unfolding main_start cfg_init cfg_commit
  main_start-Ready junk open_file draws g progname opts env cfg s setup w started =
      subst (Ready env) started (parsed-Ready _ _ env refl)
