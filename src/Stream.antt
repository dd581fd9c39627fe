-- ===== src/Stream.antt =====
-- src/stream.c: how a stream is configured. The calls that set up a connection of libshout are
-- the constructors of Setting; whether libshout accepts one, after those that it has accepted on
-- the same handle, is an argument, as is access(2). libshout is one that supports TLS.
pub mod Settings
pub mod Configured
pub mod Secure
pub mod Transfer
pub mod Tests
use mathlib.Core.Option
use ezstream.Prelude.{
  ℕ, ◌+◌, ◌%◌, ◌^◌, Bool, true, false, ◌&&◌, Option, none, some, List, [], ◌∷◌, ◌++◌, map,
  if◌then◌else◌, get_elem?,
}
use ezstream.CString.{Bytes, codes}
use ezstream.Cfg.{Error, if_set}
use ezstream.Cfg.Server.{
  Protocol, http, https, icy, roaraudio, Tls, tls_may, tls_none, tls_required, Server,
  cfg_server_list_find, cfg_server_list_get, cfg_server_get_hostname, cfg_server_get_password,
  cfg_server_get_port, cfg_server_get_user, cfg_server_get_tls,
}
use ezstream.Cfg.Stream.{
  Format, unset_format, ogg, mp3, webm, matroska, Stream, cfg_stream_list_find, cfg_stream_list_get,
}
use ezstream.Cfg.Intake.{cfg_intake_list_get, cfg_intake_validate}
use ezstream.Cfg.Global.{Config}

-- The constants of libshout that the code names.
pub data ShoutProtocol : Type 0 where
  protocol_http : ShoutProtocol
  protocol_icy : ShoutProtocol
  protocol_roaraudio : ShoutProtocol

pub data ShoutTls : Type 0 where
  tls_disabled : ShoutTls
  tls_auto : ShoutTls
  tls_rfc2818 : ShoutTls
  tls_auto_no_plain : ShoutTls

pub data ShoutFormat : Type 0 where
  format_ogg : ShoutFormat
  format_mp3 : ShoutFormat
  format_webm : ShoutFormat
  format_matroska : ShoutFormat

pub data ShoutMeta : Type 0 where
  meta_name : ShoutMeta
  meta_url : ShoutMeta
  meta_genre : ShoutMeta
  meta_description : ShoutMeta

pub data ShoutAudio : Type 0 where
  quality : ShoutAudio
  bitrate : ShoutAudio
  samplerate : ShoutAudio
  channels : ShoutAudio

-- The calls of libshout: `shout_set_protocol` and so on.
pub data Setting : Type 0 where
  set_protocol : ShoutProtocol → Setting
  set_host : Option Bytes → Setting
  set_port : ℕ → Setting
  set_user : Bytes → Setting
  set_password : Option Bytes → Setting
  set_tls : ShoutTls → Setting
  set_ca_directory : Bytes → Setting
  set_ca_file : Bytes → Setting
  set_client_certificate : Bytes → Setting
  set_allowed_ciphers : Bytes → Setting
  set_mount : Option Bytes → Setting
  set_content_format : ShoutFormat → Setting
  set_public : ℕ → Setting
  set_meta : ShoutMeta → Bytes → Setting
  set_audio_info : ShoutAudio → Bytes → Setting

-- `struct stream`: the handle of libshout is what has been set on it.
pub record StreamHandle : Type 0 where
  pub name : Bytes
  pub shout : List Setting

unfoldable pub stream_create : Bytes → StreamHandle
stream_create name = record { name = name; shout = [] }

-- `_stream_reset`: a handle that is new.
unfoldable pub stream_reset : StreamHandle → StreamHandle
stream_reset s = record s { shout = [] }

-- A step works on the handle and returns whether the code goes on.
abbrev pub Step : Type 0
Step = List Setting → Bool × List Setting

abbrev pub continue : Bool × List Setting → Step → Bool × List Setting
continue (false, h) b = (false, h)
continue (true, h) b = b h

abbrev pub ◌andthen◌ : Step → Step → Step
a andthen b = λ h. continue (a h) b

infixr 4 ◌andthen◌
abbrev pub done : Step
done h = (true, h)

abbrev pub fail : Step
fail h = (false, h)

-- `if (0 > access(...)) return (-1);`
abbrev pub need : Bool → Step
need b h = (b, h)

-- What depends on a pointer that is not NULL.
abbrev pub if_given : Option Bytes → (Bytes → Step) → Step
if_given none f = done
if_given (some s) f = f s

abbrev pub protocol_of : Protocol → ShoutProtocol
protocol_of http = protocol_http
protocol_of https = protocol_http
protocol_of icy = protocol_icy
protocol_of roaraudio = protocol_roaraudio

-- TLS that is required, by the protocol.
abbrev pub forced : Protocol → ShoutTls
forced https = tls_rfc2818
forced http = tls_auto_no_plain
forced icy = tls_auto_no_plain
forced roaraudio = tls_auto_no_plain

abbrev pub tls_req : Protocol → Tls → ShoutTls
tls_req p tls_none = tls_disabled
tls_req p tls_may = tls_auto
tls_req p tls_required = forced p

abbrev pub bit : Bool → ℕ
bit b = if b then 1 else 0

abbrev pub or_default : Option Bytes → Bytes
or_default none = codes "default"
or_default (some s) = s

-- `-1`, or a pointer that is NULL is followed, or the answer with the configuration and the stream.
pub data Answer : Type 0 where
  null_pointer : Answer
  answer : Bool → Config → StreamHandle → Answer

unfoldable pub stream_get_cfg_stream : Config → StreamHandle → Option ℕ
unfolding cfg_stream_list_find
stream_get_cfg_stream cfg s = cfg_stream_list_find cfg.streams s.name

-- The element of a list that `cfg_*_list_get` returns.
abbrev pub element {ℓ} : {A : Type ℓ} → List A → Option ℕ → Option A
element xs none = none
element xs (some i) = get_elem? xs i

-- The intake of a stream; the list gets it where it is not there.
abbrev pub intake_of : Config → Option Stream → Config × Option ℕ
intake_of cfg none = (cfg, none)
intake_of cfg (some stream) =
    let (intakes, i) = cfg_intake_list_get cfg.intakes (or_default stream.intake) in
    (record cfg { intakes = intakes }, i)

unfoldable pub stream_get_cfg_intake : Config → StreamHandle → Config × Option ℕ
unfolding cfg_stream_list_get cfg_intake_list_get
stream_get_cfg_intake cfg s =
    let (streams, i) = cfg_stream_list_get cfg.streams s.name in
    intake_of (record cfg { streams = streams }) (element streams i)

-- The server of a stream; the list gets it where it is not there.
abbrev pub server_entry : Config → Option Stream → Config × Option ℕ
server_entry cfg none = (cfg, none)
server_entry cfg (some stream) =
    let (servers, i) = cfg_server_list_get cfg.servers (or_default stream.server) in
    (record cfg { servers = servers }, i)

unfoldable pub stream_get_cfg_server : Config → StreamHandle → Config × Option ℕ
unfolding cfg_stream_list_get cfg_server_list_get
stream_get_cfg_server cfg s =
    let (streams, i) = cfg_stream_list_get cfg.streams s.name in
    server_entry (record cfg { streams = streams }) (element streams i)

-- The server that `stream_configure` finds.
unfoldable pub server_of : Config → Stream → Option Server
unfolding cfg_server_list_find
server_of cfg stream =
    element cfg.servers (cfg_server_list_find cfg.servers (or_default stream.server))

-- The end of `stream_configure`, by the check of the intake.
abbrev pub check_intake : Config → StreamHandle → Option (Option Error) → Answer
check_intake cfg s none = null_pointer
check_intake cfg s (some none) = answer true cfg s
check_intake cfg s (some (some e)) = answer false cfg (stream_reset s)

module _ (accepts : List Setting → Setting → Bool) (can_read : Bytes → Bool)
    (can_enter : Bytes → Bool) where
  -- A call of libshout, and the return where it fails.
  unfoldable pub attempt : Setting → Step
  attempt x h = if accepts h x then (true, h ++ x ∷ []) else (false, h)

  -- `_stream_cfg_server`
  unfoldable pub stream_cfg_server : Server → Step
  unfolding cfg_server_get_hostname cfg_server_get_port cfg_server_get_user cfg_server_get_password
      attempt
  stream_cfg_server s =
      attempt (set_protocol (protocol_of s.protocol))
      andthen attempt (set_host (cfg_server_get_hostname s))
      andthen attempt (set_port (cfg_server_get_port s % 2 ^ 16))
      andthen attempt (set_user (cfg_server_get_user s))
      andthen attempt (set_password (cfg_server_get_password s))

  -- `_stream_cfg_tls`
  unfoldable pub stream_cfg_tls : Server → Step
  unfolding cfg_server_get_tls attempt
  stream_cfg_tls s =
      attempt (set_tls (tls_req s.protocol (cfg_server_get_tls s)))
      andthen if_given (if_set s.ca_dir) (λ ca_dir.
        need (can_read ca_dir && can_enter ca_dir) andthen attempt (set_ca_directory ca_dir))
      andthen if_given (if_set s.ca_file)
          (λ ca_file. need (can_read ca_file) andthen attempt (set_ca_file ca_file))
      andthen if_given (if_set s.client_cert)
          (λ cert. need (can_read cert) andthen attempt (set_client_certificate cert))
      andthen if_given (if_set s.tls_cipher_suite) (λ suite. attempt (set_allowed_ciphers suite))

  abbrev pub set_format : Format → Step
  set_format ogg = attempt (set_content_format format_ogg)
  set_format mp3 = attempt (set_content_format format_mp3)
  set_format webm = attempt (set_content_format format_webm)
  set_format matroska = attempt (set_content_format format_matroska)
  set_format unset_format = fail

  -- `_stream_cfg_stream`
  unfoldable pub stream_cfg_stream : Stream → Step
  unfolding attempt
  stream_cfg_stream s =
      attempt (set_mount s.mountpoint)
      andthen set_format s.format
      andthen attempt (set_public (bit s.public))
      andthen if_given s.stream_name (λ v. attempt (set_meta meta_name v))
      andthen if_given s.stream_url (λ v. attempt (set_meta meta_url v))
      andthen if_given s.stream_genre (λ v. attempt (set_meta meta_genre v))
      andthen if_given s.stream_description (λ v. attempt (set_meta meta_description v))
      andthen if_given s.stream_quality (λ v. attempt (set_audio_info quality v))
      andthen if_given s.stream_bitrate (λ v. attempt (set_audio_info bitrate v))
      andthen if_given s.stream_samplerate (λ v. attempt (set_audio_info samplerate v))
      andthen if_given s.stream_channels (λ v. attempt (set_audio_info channels v))

  -- What follows the three steps, from their end.
  unfoldable pub after_steps : Config → StreamHandle → Bool × List Setting → Answer
  unfolding stream_get_cfg_intake cfg_intake_validate stream_reset
  after_steps cfg s (false, h) = answer false cfg (stream_reset (record s { shout = h }))
  after_steps cfg s (true, h) =
      let (cfg', i) = stream_get_cfg_intake cfg (record s { shout = h }) in
      check_intake cfg' (record s { shout = h })
        (Option.map cfg_intake_validate (element cfg'.intakes i))

  unfoldable pub configure_with : Config → StreamHandle → Stream → Option Server → Answer
  unfolding stream_cfg_server stream_cfg_tls stream_cfg_stream after_steps
  configure_with cfg s stream none = answer false cfg s
  configure_with cfg s stream (some server) = after_steps cfg s (
      (stream_cfg_server server andthen stream_cfg_tls server andthen stream_cfg_stream stream)
        s.shout)

  unfoldable pub configure_found : Config → StreamHandle → Option Stream → Answer
  unfolding configure_with server_of
  configure_found cfg s none = answer false cfg s
  configure_found cfg s (some stream) = configure_with cfg s stream (server_of cfg stream)

  unfoldable pub stream_configure : Config → StreamHandle → Answer
  unfolding stream_get_cfg_stream configure_found
  stream_configure cfg s = configure_found cfg s (element cfg.streams (stream_get_cfg_stream cfg s))
