-- ===== src/Main/Start/Tests.antt =====
-- The start of `main` on a concrete configuration.
use ezstream.Prelude.{◌≡◌, refl, true, false, none, some, [], ◌∷◌, ◌++◌}
use ezstream.Cfg.Server.{
  cfg_server_set_hostname, cfg_server_set_password, cfg_server_validate, Server, new_server,
}
use ezstream.Cfg.Stream.{
  cfg_stream_set_mountpoint, cfg_stream_set_format, cfg_stream_validate, Stream, new_stream, mp3,
}
use ezstream.Cfg.Intake.{cfg_intake_set_filename, Intake, new_intake}
use ezstream.Cfg.Global.{cfg_file_reload, cfg_file_check, Config, Global, cfg_reset, xmlfile}
use ezstream.Cfgfile.{
  each, on_element, set_fields, parse_at, parse_element, parse_if_tagged, parse_elements, Node,
  Nodes, Libxml, cfg_default, node, next, no_more,
}
use ezstream.Cfgfile.Settings.{parse_section, parse_sections, cfgfile_xml_parse}
use ezstream.Stream.{
  stream_create, stream_get_cfg_server, stream_configure, StreamHandle, element, server_of,
  stream_get_cfg_stream,
}
use ezstream.Stream.Transfer.{stream_connect}
use ezstream.Cmdline.{cmdline_parse, opt_configfile}
use ezstream.Main.Start.{look_up, main_start, Start, first_world, streams}
use ezstream.Stream.Settings.{server_settings, tls_settings, stream_settings}
use ezstream.Cfgfile.Complete.{IsComplete, IsDistinct}
use ezstream.Main.{Setup, World}
use ezstream.Main.Tests.{Host, host, dead}
use ezstream.Playlist.Read.{unopened}
use ezstream.CString.{Bytes, codes, str_case_eq}
use ezstream.Main.Start.Ready.{main_start-Ready}

abbrev leaf : Bytes → Bytes → Node
leaf name text = node name (some text) no_more

abbrev section : Bytes → Bytes → Nodes → Node
section name tag settings = node name none (next (node tag none settings) no_more)

abbrev xml : Libxml
xml = record {
  same_name = str_case_eq;
  parse_file = λ file. some (
      some (
        node (codes "ezstream") none (
          next
            (section (codes "servers") (codes "server") (
              next (leaf (codes "hostname") (codes "h"))
                (next (leaf (codes "password") (codes "p")) no_more)))
            (next
              (section (codes "streams") (codes "stream") (
                next (leaf (codes "mountpoint") (codes "/s"))
                  (next (leaf (codes "format") (codes "mp3")) no_more)))
              (next
                (section (codes "intakes") (codes "intake")
                  (next (leaf (codes "filename") (codes "a.mp3")) no_more))
                no_more)))));
  stat_mode = λ file. some 0o600;
}

abbrev global : Global
global = record {
  cfg_program = record {
    name = [];
    config_type = xmlfile;
    config_file = [];
    pid_file = [];
    quiet_stderr = false;
    rtstatus_output = false;
    verbosity = 0;
  };
  cfg = cfg_reset;
  cfg_tmp = cfg_reset;
}

-- An attempt to connect will succeed.
abbrev alive : Host
alive = record dead.env { attempts = true ∷ [] }

abbrev started : Start Host
started =
    main_start host xml (λ h x. true) (λ f. true) (λ f. true) true none (λ f. unopened) [] global
      (codes "ezstream") (opt_configfile (codes "f") ∷ []) alive

abbrev server : Server
server = record (new_server (codes "default")) { hostname = codes "h"; password = codes "p" }

abbrev stream : Stream
stream = record (new_stream (codes "default")) { mountpoint = some (codes "/s"); format = mp3 }

abbrev intake : Intake
intake = record (new_intake (codes "default")) { filename = codes "a.mp3" }

abbrev config : Config
config = record cfg_reset { servers = server ∷ []; streams = stream ∷ []; intakes = intake ∷ [] }

abbrev handle : StreamHandle
handle = record {
  name = codes "default";
  shout = server_settings server ++ (tls_settings server ++ stream_settings stream);
}

abbrev setup : Setup
setup = record {
  stream = stream;
  server = server;
  intake = intake;
  decoders = [];
  encoders = [];
  metadata = cfg_reset.metadata;
}

-- When the loop begins, the attempt has been made.
abbrev first : World Host
first = first_world (record alive { attempts = []; on = true })

comes_to_loop : started ≡ streams config handle setup first
unfolding cfg_server_set_hostname cfg_server_set_password cfg_server_validate
    cfg_stream_set_mountpoint cfg_stream_set_format cfg_stream_validate cfg_intake_set_filename
    cfg_file_reload cfg_file_check each on_element set_fields parse_at parse_element parse_if_tagged
    parse_elements parse_section parse_sections cfgfile_xml_parse stream_create
    stream_get_cfg_server stream_configure stream_connect cmdline_parse look_up main_start
comes_to_loop = refl

main_start-Ready_example :
    IsComplete config
    × IsDistinct config
    × ((stream : Stream) × (server : Server) × (element config.streams
            (stream_get_cfg_stream config (stream_create cfg_default))
          ≡ some stream)
        × (server_of config stream ≡ some server)
        × (handle.shout
            ≡ server_settings server ++ (tls_settings server ++ stream_settings stream)))
    × (stream_connect host.shout alive ≡ (true, first.env))
main_start-Ready_example =
    main_start-Ready host xml (λ h x. true) (λ f. true) (λ f. true) true none (λ f. unopened) []
      global (codes "ezstream") (opt_configfile (codes "f") ∷ []) alive config handle setup first
      comes_to_loop
