-- ===== src/Stream/Secure.antt =====
-- src/stream.c: TLS that is required.
use mathlib.Core.Option.{some-injective}
use mathlib.Core.Path.{subst}
use ezstream.Prelude.{
  All-append, ◌≡◌, refl, sym, ap, ◌∙◌, Bool, true, false, Option, none, some, List, [], ◌++◌, All,
  get_elem?,
}
use ezstream.CString.{Bytes}
use ezstream.Cfg.{if_set}
use ezstream.Cfg.Server.{
  Protocol, Server, cfg_server_get_tls, http, https, icy, roaraudio, tls_required,
}
use ezstream.Cfg.Stream.{Stream, Format, ogg, mp3, webm, matroska, unset_format}
use ezstream.Cfg.Global.{Config}
use ezstream.Stream.{
  Setting, StreamHandle, forced, tls_req, stream_get_cfg_stream, element, server_of,
  stream_configure, tls_disabled, tls_auto, tls_rfc2818, tls_auto_no_plain, meta_name, meta_url,
  meta_genre, meta_description, quality, bitrate, samplerate, channels, set_protocol, set_host,
  set_port, set_user, set_password, set_tls, set_ca_directory, set_ca_file, set_client_certificate,
  set_allowed_ciphers, set_mount, set_content_format, set_public, set_meta, set_audio_info, answer,
}
use ezstream.Stream.Configured.{stream_configure_success}
use ezstream.Stream.Settings.{
  given, format_settings, server_settings, tls_settings, audio_settings, meta_settings,
  stream_settings,
}
use ezstream.Stream.Configured.{stream_configure_success}

-- Whether a setting lets libshout go on without TLS.
abbrev pub allows_plain : Setting → Bool
allows_plain (set_tls tls_disabled) = true
allows_plain (set_tls tls_auto) = true
allows_plain (set_tls tls_rfc2818) = false
allows_plain (set_tls tls_auto_no_plain) = false
allows_plain (set_protocol x) = false
allows_plain (set_host x) = false
allows_plain (set_port x) = false
allows_plain (set_user x) = false
allows_plain (set_password x) = false
allows_plain (set_ca_directory x) = false
allows_plain (set_ca_file x) = false
allows_plain (set_client_certificate x) = false
allows_plain (set_allowed_ciphers x) = false
allows_plain (set_mount x) = false
allows_plain (set_content_format x) = false
allows_plain (set_public x) = false
allows_plain (set_meta x v) = false
allows_plain (set_audio_info x v) = false

abbrev pub Guarded : Setting → Type 0
Guarded x = allows_plain x ≡ false

given-Guarded :
    (o : Option Bytes) (f : Bytes → Setting)
    → ((v : Bytes) → Guarded (f v))
    → All Guarded (given o f)
given-Guarded none f h = tt
given-Guarded (some v) f h = (h v, tt)

forced-Guarded : (p : Protocol) → Guarded (set_tls (forced p))
forced-Guarded http = refl
forced-Guarded https = refl
forced-Guarded icy = refl
forced-Guarded roaraudio = refl

tls_settings-Guarded :
    (s : Server) → cfg_server_get_tls s ≡ tls_required → All Guarded (tls_settings s)
tls_settings-Guarded s e = (
  ap (λ t. allows_plain (set_tls (tls_req s.protocol t))) e ∙ forced-Guarded s.protocol,
  All-append Guarded (given (if_set s.ca_dir) set_ca_directory) _
      (given-Guarded (if_set s.ca_dir) set_ca_directory (λ v. refl))
      (All-append Guarded (given (if_set s.ca_file) set_ca_file) _
        (given-Guarded (if_set s.ca_file) set_ca_file (λ v. refl))
        (All-append Guarded (given (if_set s.client_cert) set_client_certificate) _
          (given-Guarded (if_set s.client_cert) set_client_certificate (λ v. refl))
          (given-Guarded (if_set s.tls_cipher_suite) set_allowed_ciphers (λ v. refl)))),
)

format-Guarded : (f : Format) → All Guarded (format_settings f)
format-Guarded ogg = (refl, tt)
format-Guarded mp3 = (refl, tt)
format-Guarded webm = (refl, tt)
format-Guarded matroska = (refl, tt)
format-Guarded unset_format = tt

audio-Guarded : (s : Stream) → All Guarded (audio_settings s)
audio-Guarded s =
    All-append _ _ _ (given-Guarded s.stream_quality (set_audio_info quality) (λ v. refl)) (
      All-append _ _ _ (given-Guarded s.stream_bitrate (set_audio_info bitrate) (λ v. refl)) (
        All-append _ _ _ (given-Guarded s.stream_samplerate (set_audio_info samplerate) (λ v. refl))
          (given-Guarded s.stream_channels (set_audio_info channels) (λ v. refl))))

meta-Guarded : (s : Stream) → All Guarded (meta_settings s)
meta-Guarded s = All-append _ _ _ (given-Guarded s.stream_name (set_meta meta_name) (λ v. refl)) (
    All-append _ _ _ (given-Guarded s.stream_url (set_meta meta_url) (λ v. refl)) (
      All-append _ _ _ (given-Guarded s.stream_genre (set_meta meta_genre) (λ v. refl)) (
        All-append _ _ _
          (given-Guarded s.stream_description (set_meta meta_description) (λ v. refl))
          (audio-Guarded s))))

stream_settings-Guarded : (s : Stream) → All Guarded (stream_settings s)
stream_settings-Guarded s =
    (refl, All-append _ _ _ (format-Guarded s.format) (refl, meta-Guarded s))

settings-Guarded :
    (server : Server) (stream : Stream)
    → cfg_server_get_tls server ≡ tls_required
    → All Guarded (server_settings server ++ (tls_settings server ++ stream_settings stream))
settings-Guarded server stream e =
    All-append Guarded (server_settings server) (tls_settings server ++ stream_settings stream)
      (refl, (refl, (refl, (refl, (refl, tt)))))
      (All-append Guarded (tls_settings server) (stream_settings stream)
        (tls_settings-Guarded server e) (stream_settings-Guarded stream))

module _ (accepts : List Setting → Setting → Bool) (can_read : Bytes → Bool)
    (can_enter : Bytes → Bool) where
  -- Where the server of a stream requires TLS, as one with the protocol HTTPS does, a stream with a
  -- new handle that is configured has told libshout so, and none of its settings lets libshout go
  -- on without TLS.
  pub stream_configure-Guarded :
      (cfg : Config) (s : StreamHandle) (stream : Stream) (server : Server) (cfg' : Config)
      (s' : StreamHandle)
      → s.shout ≡ []
      → element cfg.streams (stream_get_cfg_stream cfg s) ≡ some stream
      → server_of cfg stream ≡ some server
      → cfg_server_get_tls server ≡ tls_required
      → stream_configure accepts can_read can_enter cfg s ≡ answer true cfg' s'
      → All Guarded s'.shout × (get_elem? s'.shout 5 ≡ some (set_tls (forced server.protocol)))
  stream_configure-Guarded cfg s stream server cfg' s' fresh found served required e =
      let (stream', server', found', served', set) =
        stream_configure_success accepts can_read can_enter cfg s cfg' s' e in
      let one : stream' ≡ stream = some-injective _ _ (sym found' ∙ found) in
      let same : server' ≡ server =
        some-injective _ _ (sym served' ∙ ap (server_of cfg) one ∙ served) in
      let all : s'.shout
          ≡ server_settings server ++ (tls_settings server ++ stream_settings stream) =
        cc in
      (
        subst (All Guarded) (sym all) (settings-Guarded server stream required),
        ap (λ l. get_elem? l 5) all ∙ ap (λ t. some (set_tls (tls_req server.protocol t))) required,
      )
