-- ===== src/Stream/Tests.antt =====
-- src/stream.c on concrete inputs.
use ezstream.Prelude.{◌≡◌, refl, ◌⊎◌, Bool, true, false, some, List, [], ◌∷◌, ◌++◌, All, get_elem?}
use ezstream.CString.{Bytes, codes}
use ezstream.Cfg.Server.{Server, new_server, cfg_server_get_tls, https, tls_required}
use ezstream.Cfg.Stream.{Stream, new_stream, mp3}
use ezstream.Cfg.Intake.{new_intake}
use ezstream.Cfg.Global.{Config, cfg_reset}
use ezstream.Stream.{
  stream_get_cfg_server, Setting, StreamHandle, forced, stream_get_cfg_stream, element, server_of,
  stream_configure, set_tls, answer,
}
use ezstream.Stream.Transfer.{Libshout, stream_send}
use ezstream.Stream.Settings.{server_settings, tls_settings, stream_settings}
use ezstream.Stream.Configured.{stream_configure_success, stream_configure_failure}
use ezstream.Stream.Secure.{Guarded, stream_configure-Guarded}

abbrev server : Server
server = record (new_server (codes "default")) {
  protocol = https;
  hostname = codes "h";
  password = codes "p";
  ca_file = codes "f";
}

abbrev stream : Stream
stream = record (new_stream (codes "s")) {
  mountpoint = some (codes "/s");
  format = mp3;
  stream_name = some (codes "n");
}

abbrev cfg : Config
cfg = record cfg_reset {
  servers = server ∷ [];
  streams = stream ∷ [];
  intakes = record (new_intake (codes "default")) { filename = codes "a" } ∷ [];
}

abbrev handle : StreamHandle
handle = record { name = codes "s"; shout = [] }

abbrev all_accepted : List Setting → Setting → Bool
all_accepted h x = true

abbrev first_accepted : List Setting → Setting → Bool
first_accepted [] x = true
first_accepted (y ∷ h) x = false

abbrev every_file : Bytes → Bool
every_file f = true

abbrev set_up : StreamHandle
set_up = record {
  name = codes "s";
  shout = server_settings server ++ (tls_settings server ++ stream_settings stream);
}

configured : stream_configure all_accepted every_file every_file cfg handle ≡ answer true cfg set_up
unfolding stream_configure
configured = refl

refused : stream_configure first_accepted every_file every_file cfg handle ≡ answer false cfg handle
unfolding stream_configure
refused = refl

stream_found : element cfg.streams (stream_get_cfg_stream cfg handle) ≡ some stream
unfolding stream_get_cfg_stream
stream_found = refl

server_found : server_of cfg stream ≡ some server
unfolding server_of
server_found = refl

server_got : (stream_get_cfg_server cfg handle).1 ≡ some 0
unfolding stream_get_cfg_server
server_got = refl

tls_is_required : cfg_server_get_tls server ≡ tls_required
unfolding cfg_server_get_tls
tls_is_required = refl

stream_configure_success_example :
    (stream' : Stream) × (server' : Server) × (element cfg.streams
        (stream_get_cfg_stream cfg handle)
      ≡ some stream')
    × (server_of cfg stream' ≡ some server')
    × (set_up ≡ record handle {
      shout = [] ++ (server_settings server' ++ (tls_settings server' ++ stream_settings stream'));
    })
stream_configure_success_example =
    stream_configure_success all_accepted every_file every_file cfg handle cfg set_up configured

stream_configure_failure_example : (handle ≡ handle) ⊎ (handle ≡ record handle { shout = [] })
stream_configure_failure_example =
    stream_configure_failure first_accepted every_file every_file cfg handle cfg handle refused

stream_configure-Guarded_example :
    All Guarded set_up.shout × (get_elem? set_up.shout 5 ≡ some (set_tls (forced https)))
stream_configure-Guarded_example =
    stream_configure-Guarded all_accepted every_file every_file cfg handle stream server cfg set_up
      refl stream_found server_found tls_is_required configured

-- A handle that is only whether it is connected; nothing can be sent.
abbrev broken : Libshout Bool
broken = record {
  shout_open = λ s. (true, true);
  shout_close = λ s. false;
  shout_send = λ block s. (false, s);
  shout_get_connected = λ s. s;
  shout_set_metadata = λ pairs s. (false, s);
  shout_close-connected = λ s. refl;
}

not_sent : (stream_send broken (codes "x") true).0 ≡ false
unfolding stream_send
not_sent = refl
