-- ===== src/Cfgfile/Print.antt =====
-- src/cfgfile_xml.c: `cfgfile_xml_print`, as the bytes that it writes.
pub mod Read
pub mod Encoders
pub mod Intakes
pub mod Texts
pub mod Streams
pub mod Fields
pub mod Numbers
pub mod Servers
pub mod Decoders
pub mod Tests
use ezstream.Prelude.{
  Bool, true, false, Option, none, some, List, [], ◌∷◌, ◌++◌, map, ◌==◌, ℤ, pos, negsuc,
}
use ezstream.CString.{Bytes, codes, str_case_eq}
use ezstream.CString.Decimal.{decimal}
use ezstream.Cfg.{if_set}
use ezstream.Cfg.Server.{
  Server, Tls, default_port, default_user, cfg_server_get_protocol_str, cfg_server_get_hostname,
  cfg_server_get_port, cfg_server_get_user, cfg_server_get_password, cfg_server_get_tls,
  cfg_server_get_tls_str, tls_may, tls_none, tls_required,
}
use ezstream.Cfg.Stream.{Stream, cfg_stream_get_format_str, cfg_stream_fmt2str}
use ezstream.Cfg.Intake.{
  Intake, IntakeType, cfg_intake_get_type_str, cfg_intake_get_filename, autodetect, file, playlist,
  program, stdin,
}
use ezstream.Cfg.Encoder.{Encoder}
use ezstream.Cfg.Decoder.{Decoder}
use ezstream.Cfg.Global.{Metadata, Config}
use ezstream.Cfgfile.{cfg_default}

-- The name of a node and its text.
abbrev pub Field : Type 0
Field = Bytes × Bytes

-- The lines of several calls, one after the other.
abbrev pub concat {ℓ} : {A : Type ℓ} → List (List A) → List A
concat [] = []
concat (l ∷ ls) = l ++ concat ls

abbrev pub optional : Bytes → Option Bytes → List Field
optional tag none = []
optional tag (some text) = (tag, text) ∷ []

abbrev pub unless : Bool → Bytes → Bytes → List Field
unless true tag text = []
unless false tag text = (tag, text) ∷ []

abbrev pub yes_if : Bool → Bytes → List Field
yes_if true tag = (tag, codes "yes") ∷ []
yes_if false tag = []

-- No name is printed where it is the default name, in upper or lower case.
abbrev pub name_field : Bytes → List Field
name_field name = unless (str_case_eq name cfg_default) (codes "name") name

abbrev pub is_may : Tls → Bool
is_may tls_may = true
is_may tls_none = false
is_may tls_required = false

abbrev pub is_autodetect : IntakeType → Bool
is_autodetect autodetect = true
is_autodetect file = false
is_autodetect playlist = false
is_autodetect program = false
is_autodetect stdin = false

-- `_cfgfile_xml_print_server`, between the tags of the server.
unfoldable pub server_fields : Server → List Field
server_fields s = concat (
    name_field s.name
    ∷ ((codes "protocol", cfg_server_get_protocol_str s) ∷ [])
    ∷ optional (codes "hostname") (cfg_server_get_hostname s)
    ∷ unless (cfg_server_get_port s == default_port) (codes "port")
        (decimal (cfg_server_get_port s))
    ∷ unless (str_case_eq (cfg_server_get_user s) default_user) (codes "user")
        (cfg_server_get_user s)
    ∷ optional (codes "password") (cfg_server_get_password s)
    ∷ unless (is_may (cfg_server_get_tls s)) (codes "tls") (cfg_server_get_tls_str s)
    ∷ optional (codes "tls_cipher_suite") (if_set s.tls_cipher_suite)
    ∷ optional (codes "ca_dir") (if_set s.ca_dir)
    ∷ optional (codes "ca_file") (if_set s.ca_file)
    ∷ optional (codes "client_cert") (if_set s.client_cert)
    ∷ unless (s.reconnect_attempts == 0) (codes "reconnect_attempts") (decimal s.reconnect_attempts)
    ∷ [])

-- `_cfgfile_xml_print_intake`
unfoldable pub intake_fields : Intake → List Field
intake_fields i = concat (
    name_field i.name
    ∷ unless (is_autodetect i.intake_type) (codes "type") (cfg_intake_get_type_str i)
    ∷ optional (codes "filename") (cfg_intake_get_filename i)
    ∷ yes_if i.shuffle (codes "shuffle")
    ∷ yes_if i.stream_once (codes "stream_once")
    ∷ [])

-- `_cfgfile_xml_print_decoder_ext`
abbrev pub ext_fields : List Bytes → List Field
ext_fields exts = map (λ ext. (codes "file_ext", ext)) exts

-- `_cfgfile_xml_print_decoder`
unfoldable pub decoder_fields : Decoder → List Field
decoder_fields d =
    concat (name_field d.name ∷ optional (codes "program") d.program ∷ ext_fields d.exts ∷ [])

-- Where a format is not set its name is NULL; `null_text` is what fprintf(3) prints then.
module _ (null_text : Bytes) where
  abbrev pub or_null : Option Bytes → Bytes
  or_null none = null_text
  or_null (some text) = text

  -- `_cfgfile_xml_print_stream`
  unfoldable pub stream_fields : Stream → List Field
  stream_fields s = concat (
      name_field s.name
      ∷ optional (codes "mountpoint") s.mountpoint
      ∷ optional (codes "intake") s.intake
      ∷ optional (codes "server") s.server
      ∷ yes_if s.public (codes "public")
      ∷ ((codes "format", or_null (cfg_stream_get_format_str s)) ∷ [])
      ∷ optional (codes "encoder") s.encoder
      ∷ optional (codes "stream_name") s.stream_name
      ∷ optional (codes "stream_url") s.stream_url
      ∷ optional (codes "stream_genre") s.stream_genre
      ∷ optional (codes "stream_description") s.stream_description
      ∷ optional (codes "stream_quality") s.stream_quality
      ∷ optional (codes "stream_bitrate") s.stream_bitrate
      ∷ optional (codes "stream_samplerate") s.stream_samplerate
      ∷ optional (codes "stream_channels") s.stream_channels
      ∷ [])

  -- `_cfgfile_xml_print_encoder`
  unfoldable pub encoder_fields : Encoder → List Field
  encoder_fields e = concat (
      name_field e.name
      ∷ ((codes "format", or_null (cfg_stream_fmt2str e.format)) ∷ [])
      ∷ optional (codes "program") e.program
      ∷ [])

  abbrev pub interval_field : ℤ → List Field
  interval_field (pos n) = (codes "refresh_interval", decimal n) ∷ []
  interval_field (negsuc n) = []

  -- The settings of the metadata.
  unfoldable pub metadata_fields : Metadata → List Field
  metadata_fields m = concat (
      optional (codes "program") (if_set m.program)
      ∷ optional (codes "format_str") m.format_str
      ∷ interval_field m.refresh_interval
      ∷ yes_if m.normalize_strings (codes "normalize_strings")
      ∷ yes_if m.no_updates (codes "no_updates")
      ∷ [])

  -- One line; the text is not escaped.
  unfoldable pub print_field : Bytes → Field → Bytes
  print_field indent (tag, text) =
      indent ++ codes "<" ++ tag ++ codes ">" ++ text ++ codes "</" ++ tag ++ codes ">\n"

  abbrev pub print_fields : Bytes → List Field → Bytes
  print_fields indent [] = []
  print_fields indent (f ∷ fields) = print_field indent f ++ print_fields indent fields

  unfoldable pub print_tagged : Bytes → Bytes → Bytes → Bytes
  print_tagged indent tag content =
      indent
      ++ codes "<"
      ++ tag
      ++ codes ">\n"
      ++ content
      ++ indent
      ++ codes "</"
      ++ tag
      ++ codes ">\n"

  abbrev pub print_elements {ℓ} : {A : Type ℓ} → Bytes → (A → List Field) → List A → Bytes
  print_elements tag fields [] = []
  print_elements tag fields (a ∷ l) =
      print_tagged (codes "    ") tag (print_fields (codes "      ") (fields a))
      ++ print_elements tag fields l

  abbrev pub decoders_section : List Decoder → Bytes
  decoders_section [] = []
  decoders_section (d ∷ dl) =
      codes "\n"
      ++ print_tagged (codes "  ") (codes "decoders")
          (print_elements (codes "decoder") decoder_fields (d ∷ dl))

  abbrev pub encoders_section : List Encoder → Bytes
  encoders_section [] = []
  encoders_section (e ∷ el) =
      codes "\n"
      ++ print_tagged (codes "  ") (codes "encoders")
          (print_elements (codes "encoder") encoder_fields (e ∷ el))

  abbrev pub metadata_section : List Field → Bytes
  metadata_section [] = []
  metadata_section (f ∷ fields) =
      codes "\n"
      ++ print_tagged (codes "  ") (codes "metadata") (print_fields (codes "    ") (f ∷ fields))

  unfoldable pub cfgfile_xml_print : Config → Bytes
  cfgfile_xml_print cfg =
      codes "<ezstream>\n\n"
      ++ print_tagged (codes "  ") (codes "servers")
          (print_elements (codes "server") server_fields cfg.servers)
      ++ codes "\n"
      ++ print_tagged (codes "  ") (codes "streams")
          (print_elements (codes "stream") stream_fields cfg.streams)
      ++ codes "\n"
      ++ print_tagged (codes "  ") (codes "intakes")
          (print_elements (codes "intake") intake_fields cfg.intakes)
      ++ decoders_section cfg.decoders
      ++ encoders_section cfg.encoders
      ++ metadata_section (metadata_fields cfg.metadata)
      ++ codes "</ezstream>\n"
