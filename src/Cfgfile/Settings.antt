-- ===== src/Cfgfile/Settings.antt =====
-- src/cfgfile_xml.c: the settings of each kind of element, and the sections of the file.
use ezstream.Prelude.{
  Bool, true, false, ◌&&◌, Option, none, some, List, [], ◌∷◌, if◌then◌else◌, set,
}
use ezstream.CString.{Bytes, codes}
use ezstream.Cfg.{Outcome}
use ezstream.Cfg.Server.{
  Server, named_server, cfg_server_set_name, cfg_server_set_protocol, cfg_server_set_hostname,
  cfg_server_set_port, cfg_server_set_user, cfg_server_set_password, cfg_server_set_tls,
  cfg_server_set_tls_cipher_suite, cfg_server_set_ca_dir, cfg_server_set_ca_file,
  cfg_server_set_client_cert, cfg_server_set_reconnect_attempts, cfg_server_validate,
}
use ezstream.Cfg.Stream.{
  Stream, named_stream, cfg_stream_set_name, cfg_stream_set_mountpoint, cfg_stream_set_intake,
  cfg_stream_set_server, cfg_stream_set_public, cfg_stream_set_format, cfg_stream_set_encoder,
  cfg_stream_set_stream_name, cfg_stream_set_stream_url, cfg_stream_set_stream_genre,
  cfg_stream_set_stream_description, cfg_stream_set_stream_quality, cfg_stream_set_stream_bitrate,
  cfg_stream_set_stream_samplerate, cfg_stream_set_stream_channels, cfg_stream_validate,
}
use ezstream.Cfg.Intake.{
  Intake, named_intake, cfg_intake_set_name, cfg_intake_set_type, cfg_intake_set_filename,
  cfg_intake_set_shuffle, cfg_intake_set_stream_once, cfg_intake_validate,
}
use ezstream.Cfg.Encoder.{
  Encoder, named_encoder, cfg_encoder_set_name, cfg_encoder_set_format_str, cfg_encoder_set_program,
  cfg_encoder_validate,
}
use ezstream.Cfg.Decoder.{
  Decoder, named_decoder, cfg_decoder_set_name, cfg_decoder_set_program, cfg_decoder_add_match,
  cfg_decoder_validate,
}
use ezstream.Cfg.Global.{Metadata, Config, cfg_file_check}
use ezstream.Cfg.Global.Settings.{
  cfg_set_metadata_program, cfg_set_metadata_format_str, cfg_set_metadata_refresh_interval,
  cfg_set_metadata_normalize_strings, cfg_set_metadata_no_updates,
}
use ezstream.Cfgfile.{
  Node, Nodes, name_of, value_of, children_of, Libxml, succeeded, on_element, Kind, parse_elements,
  no_more, next,
}

abbrev pub server_kind : Kind Server
server_kind = record {
  tag = codes "server";
  named = named_server;
  setters =
      (codes "name", cfg_server_set_name)
      ∷ (codes "protocol", on_element cfg_server_set_protocol)
      ∷ (codes "hostname", on_element cfg_server_set_hostname)
      ∷ (codes "port", on_element cfg_server_set_port)
      ∷ (codes "user", on_element cfg_server_set_user)
      ∷ (codes "password", on_element cfg_server_set_password)
      ∷ (codes "reconnect_attempts", on_element cfg_server_set_reconnect_attempts)
      ∷ (codes "tls", on_element cfg_server_set_tls)
      ∷ (codes "tls_cipher_suite", on_element cfg_server_set_tls_cipher_suite)
      ∷ (codes "ca_dir", on_element cfg_server_set_ca_dir)
      ∷ (codes "ca_file", on_element cfg_server_set_ca_file)
      ∷ (codes "client_cert", on_element cfg_server_set_client_cert)
      ∷ [];
  validate = cfg_server_validate;
}

abbrev pub stream_kind : Kind Stream
stream_kind = record {
  tag = codes "stream";
  named = named_stream;
  setters =
      (codes "name", cfg_stream_set_name)
      ∷ (codes "mountpoint", on_element cfg_stream_set_mountpoint)
      ∷ (codes "intake", on_element cfg_stream_set_intake)
      ∷ (codes "server", on_element cfg_stream_set_server)
      ∷ (codes "public", on_element cfg_stream_set_public)
      ∷ (codes "format", on_element cfg_stream_set_format)
      ∷ (codes "encoder", on_element cfg_stream_set_encoder)
      ∷ (codes "stream_name", on_element cfg_stream_set_stream_name)
      ∷ (codes "stream_url", on_element cfg_stream_set_stream_url)
      ∷ (codes "stream_genre", on_element cfg_stream_set_stream_genre)
      ∷ (codes "stream_description", on_element cfg_stream_set_stream_description)
      ∷ (codes "stream_quality", on_element cfg_stream_set_stream_quality)
      ∷ (codes "stream_bitrate", on_element cfg_stream_set_stream_bitrate)
      ∷ (codes "stream_samplerate", on_element cfg_stream_set_stream_samplerate)
      ∷ (codes "stream_channels", on_element cfg_stream_set_stream_channels)
      ∷ [];
  validate = cfg_stream_validate;
}

abbrev pub intake_kind : Kind Intake
intake_kind = record {
  tag = codes "intake";
  named = named_intake;
  setters =
      (codes "name", cfg_intake_set_name)
      ∷ (codes "type", on_element cfg_intake_set_type)
      ∷ (codes "filename", on_element cfg_intake_set_filename)
      ∷ (codes "shuffle", on_element cfg_intake_set_shuffle)
      ∷ (codes "stream_once", on_element cfg_intake_set_stream_once)
      ∷ [];
  validate = cfg_intake_validate;
}

abbrev pub decoder_kind : Kind Decoder
decoder_kind = record {
  tag = codes "decoder";
  named = named_decoder;
  setters =
      (codes "name", cfg_decoder_set_name)
      ∷ (codes "program", on_element cfg_decoder_set_program)
      ∷ (codes "file_ext", cfg_decoder_add_match)
      ∷ [];
  validate = cfg_decoder_validate;
}

abbrev pub encoder_kind : Kind Encoder
encoder_kind = record {
  tag = codes "encoder";
  named = named_encoder;
  setters =
      (codes "name", cfg_encoder_set_name)
      ∷ (codes "format", on_element cfg_encoder_set_format_str)
      ∷ (codes "program", on_element cfg_encoder_set_program)
      ∷ [];
  validate = cfg_encoder_validate;
}

abbrev pub metadata_setters : List (Bytes × (Metadata → Option Bytes → Outcome Metadata))
metadata_setters =
    (codes "program", cfg_set_metadata_program)
    ∷ (codes "format_str", cfg_set_metadata_format_str)
    ∷ (codes "refresh_interval", cfg_set_metadata_refresh_interval)
    ∷ (codes "normalize_strings", cfg_set_metadata_normalize_strings)
    ∷ (codes "no_updates", cfg_set_metadata_no_updates)
    ∷ []

-- A failure is noted, and the walk goes on.
abbrev pub noted {ℓ} : {A : Type ℓ} → Bool → Bool × A → Bool × A
noted ok (b, a) = (ok && b, a)

module _ (lib : Libxml) where
  -- The calls of XML_STRCONFIG for one child node.
  unfoldable pub set_metadata :
      List (Bytes × (Metadata → Option Bytes → Outcome Metadata))
      → Node
      → Bool × Metadata
      → Bool × Metadata
  set_metadata [] n state = state
  set_metadata ((key, set) ∷ setters) n (ok, m) =
      set_metadata setters n (
        if lib.same_name (name_of n) key
        then noted ok (succeeded (set m (value_of n)))
        else (ok, m))

  unfoldable pub metadata_loop : Nodes → Bool × Metadata → Bool × Metadata
  metadata_loop no_more state = state
  metadata_loop (next n ns) state = metadata_loop ns (set_metadata metadata_setters n state)

  -- `_cfgfile_xml_parse_metadata`
  unfoldable pub parse_metadata : Node → Metadata → Bool × Metadata
  parse_metadata n m = metadata_loop (children_of n) (true, m)

  -- The body of the loop of `cfgfile_xml_parse`.
  unfoldable pub parse_section : Node → Config → Bool × Config
  parse_section n cfg =
      let (servers_ok, servers) = parse_elements lib server_kind n cfg.servers in
      let (streams_ok, streams) = parse_elements lib stream_kind n cfg.streams in
      let (intakes_ok, intakes) = parse_elements lib intake_kind n cfg.intakes in
      let (metadata_ok, metadata) = parse_metadata n cfg.metadata in
      let (decoders_ok, decoders) = parse_elements lib decoder_kind n cfg.decoders in
      let (encoders_ok, encoders) = parse_elements lib encoder_kind n cfg.encoders in
      if lib.same_name (name_of n) (codes "servers")
      then (servers_ok, record cfg { servers = servers })
      else if lib.same_name (name_of n) (codes "streams")
      then (streams_ok, record cfg { streams = streams })
      else if lib.same_name (name_of n) (codes "intakes")
      then (intakes_ok, record cfg { intakes = intakes })
      else if lib.same_name (name_of n) (codes "metadata")
      then (metadata_ok, record cfg { metadata = metadata })
      else if lib.same_name (name_of n) (codes "decoders")
      then (decoders_ok, record cfg { decoders = decoders })
      else if lib.same_name (name_of n) (codes "encoders")
      then (encoders_ok, record cfg { encoders = encoders })
      else (true, cfg)

  unfoldable pub parse_sections : Nodes → Bool × Config → Bool × Config
  parse_sections no_more state = state
  parse_sections (next n ns) (ok, cfg) = parse_sections ns (noted ok (parse_section n cfg))

  abbrev pub parse_document : Option (Option Node) → Config → Bool × Config
  parse_document none cfg = (false, cfg)
  parse_document (some none) cfg = (false, cfg)
  parse_document (some (some root)) cfg =
      if lib.same_name (name_of root) (codes "ezstream")
      then parse_sections (children_of root) (true, cfg)
      else (false, cfg)

  unfoldable pub cfgfile_xml_parse : Bytes → Config → Bool × Config
  cfgfile_xml_parse config_file cfg =
      if cfg_file_check (lib.stat_mode config_file)
      then parse_document (lib.parse_file config_file) cfg
      else (false, cfg)
