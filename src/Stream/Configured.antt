-- ===== src/Stream/Configured.antt =====
-- src/stream.c: the end of `stream_configure`.
use mathlib.Core.Path.{subst}
use ezstream.Prelude.{
  ◌≡◌, refl, ◌⊎◌, inl, inr, Bool, true, false, Option, none, some, List, [], ◌++◌,
}
use ezstream.CString.{Bytes}
use ezstream.Cfg.{Error}
use ezstream.Cfg.Server.{Server}
use ezstream.Cfg.Stream.{Stream}
use ezstream.Cfg.Global.{Config}
use ezstream.Stream.{
  Setting, StreamHandle, stream_reset, Answer, stream_get_cfg_stream, element, check_intake,
  after_steps, configure_with, server_of, configure_found, stream_configure, null_pointer, answer,
}
use ezstream.Stream.Settings.{server_settings, tls_settings, stream_settings, steps-Adds}

-- What an answer says of the settings on the handle `s`: after a success there is a server and a
-- stream whose settings were added, after a failure nothing was added or the handle is new.
abbrev Says :
    (Config → Option Stream)
    → (Config → Stream → Option Server)
    → Config
    → StreamHandle
    → Answer
    → Type 0
Says streams servers cfg s null_pointer = Unit
Says streams servers cfg s (answer true cfg' s') =
    (stream : Stream) × (server : Server) × (streams cfg ≡ some stream)
    × (servers cfg stream ≡ some server)
    × (s' ≡ record s {
      shout =
          s.shout ++ (server_settings server ++ (tls_settings server ++ stream_settings stream));
    })
Says streams servers cfg s (answer false cfg' s') = (s' ≡ s) ⊎ (s' ≡ record s { shout = [] })

module _ (accepts : List Setting → Setting → Bool) (can_read : Bytes → Bool)
    (can_enter : Bytes → Bool) where
  -- The stream that is found, and its server.
  abbrev found : Config → StreamHandle → Config → Option Stream
  unfolding stream_get_cfg_stream
  found cfg s c = element c.streams (stream_get_cfg_stream c s)

  checked-Says :
      (streams : Config → Option Stream) (servers : Config → Stream → Option Server)
      (cfg0 cfg : Config) (s s' : StreamHandle) (stream : Stream) (server : Server)
      (o : Option (Option Error))
      → streams cfg0 ≡ some stream
      → servers cfg0 stream ≡ some server
      → s'.name ≡ s.name
      → s'.shout
        ≡ s.shout ++ (server_settings server ++ (tls_settings server ++ stream_settings stream))
      → Says streams servers cfg0 s (check_intake cfg s' o)
  unfolding stream_reset
  checked-Says streams servers cfg0 cfg s s' stream server none f g n e = tt
  checked-Says streams servers cfg0 cfg s s' stream server (some none) f g n e =
      (stream, server, f, g, cc)
  checked-Says streams servers cfg0 cfg s s' stream server (some (some x)) f g n e = inr cc

  after_steps-Says :
      (streams : Config → Option Stream) (servers : Config → Stream → Option Server) (cfg : Config)
      (s : StreamHandle) (stream : Stream) (server : Server) (r : Bool × List Setting)
      → streams cfg ≡ some stream
      → servers cfg stream ≡ some server
      → ((h : List Setting)
          → r ≡ (true, h)
          → h
            ≡ s.shout
              ++ (server_settings server ++ (tls_settings server ++ stream_settings stream)))
      → Says streams servers cfg s (after_steps accepts can_read can_enter cfg s r)
  unfolding stream_reset after_steps
  after_steps-Says streams servers cfg s stream server (false, h) f g k = inr refl
  after_steps-Says streams servers cfg s stream server (true, h) f g k =
      checked-Says streams servers cfg _ s (record s { shout = h }) stream server _ f g refl
        (k h refl)

  configure_with-Says :
      (streams : Config → Option Stream) (cfg : Config) (s : StreamHandle) (stream : Stream)
      (o : Option Server)
      → streams cfg ≡ some stream
      → server_of cfg stream ≡ o
      → Says streams server_of cfg s (configure_with accepts can_read can_enter cfg s stream o)
  unfolding configure_with
  configure_with-Says streams cfg s stream none f g = inl refl
  configure_with-Says streams cfg s stream (some server) f g =
      after_steps-Says streams server_of cfg s stream server _ f g
        (steps-Adds accepts can_read can_enter server stream s.shout)

  configure_found-Says :
      (streams : Config → Option Stream) (cfg : Config) (s : StreamHandle) (o : Option Stream)
      → streams cfg ≡ o
      → Says streams server_of cfg s (configure_found accepts can_read can_enter cfg s o)
  unfolding configure_found
  configure_found-Says streams cfg s none f = inl refl
  configure_found-Says streams cfg s (some stream) f =
      configure_with-Says streams cfg s stream _ f refl

  stream_configure-Says :
      (cfg : Config) (s : StreamHandle)
      → Says (found cfg s) server_of cfg s (stream_configure accepts can_read can_enter cfg s)
  unfolding stream_configure found
  stream_configure-Says cfg s = configure_found-Says (found cfg s) cfg s _ refl

  -- Where `stream_configure` succeeds, the configuration has the stream and its server, and the
  -- handle of libshout has got exactly the settings of the server, of its TLS and of the stream,
  -- each once and in this order.
  pub stream_configure_success :
      (cfg : Config) (s : StreamHandle) (cfg' : Config) (s' : StreamHandle)
      → stream_configure accepts can_read can_enter cfg s ≡ answer true cfg' s'
      → (stream : Stream) × (server : Server) × (element cfg.streams (stream_get_cfg_stream cfg s)
          ≡ some stream)
        × (server_of cfg stream ≡ some server)
        × (s' ≡ record s {
          shout =
              s.shout
              ++ (server_settings server ++ (tls_settings server ++ stream_settings stream));
        })
  unfolding found
  stream_configure_success cfg s cfg' s' e =
      subst (Says (found cfg s) server_of cfg s) e (stream_configure-Says cfg s)

  -- Where `stream_configure` fails, the handle is either as it was before or a new one: no setting
  -- of the attempt stays on it.
  pub stream_configure_failure :
      (cfg : Config) (s : StreamHandle) (cfg' : Config) (s' : StreamHandle)
      → stream_configure accepts can_read can_enter cfg s ≡ answer false cfg' s'
      → (s' ≡ s) ⊎ (s' ≡ record s { shout = [] })
  stream_configure_failure cfg s cfg' s' e =
      subst (Says (found cfg s) server_of cfg s) e (stream_configure-Says cfg s)
