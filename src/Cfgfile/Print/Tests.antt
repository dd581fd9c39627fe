-- ===== src/Cfgfile/Print/Tests.antt =====
-- `cfgfile_xml_print` on concrete settings.
use ezstream.Prelude.{◌≡◌, refl, true, none, some, [], ◌∷◌, arith}
use ezstream.CString.{codes, str_case_eq}
use ezstream.CString.Decimal.{decimal, digits}
use ezstream.Cfg.Server.{
  Server, new_server, cfg_server_get_hostname, cfg_server_get_password, cfg_server_validate,
  cfg_server_get_protocol_str, cfg_server_get_port, cfg_server_get_user, cfg_server_get_tls,
  cfg_server_get_tls_str, https,
}
use ezstream.Cfg.Stream.{Stream, new_stream, mp3, cfg_stream_validate}
use ezstream.Cfg.Intake.{Intake, IntakeType, new_intake, cfg_intake_validate}
use ezstream.Cfg.Decoder.{Decoder, new_decoder, cfg_decoder_validate}
use ezstream.Cfg.Global.{cfg_reset}
use ezstream.Cfgfile.{Libxml, parse_element}
use ezstream.Cfgfile.Settings.{server_kind, stream_kind, intake_kind, decoder_kind}
use ezstream.Cfgfile.Print.{
  cfgfile_xml_print, server_fields, stream_fields, intake_fields, decoder_fields, metadata_fields,
  print_field, print_tagged,
}
use ezstream.Cfgfile.Print.Read.{IsPrintable, element_node}
use ezstream.Cfgfile.Print.Servers.{shown, server_read}
use ezstream.Cfgfile.Print.Streams.{IsFilled, stream_read}
use ezstream.Cfgfile.Print.Intakes.{intake_read}
use ezstream.Cfgfile.Print.Decoders.{decoder_read}

abbrev lib : Libxml
lib = record { same_name = str_case_eq; parse_file = λ file. none; stat_mode = λ file. none }

name-IsPrintable : IsPrintable (codes "a")
unfolding str_case_eq
name-IsPrintable = record { nonempty = ground arith; by_letter = λ e. absurd (ground arith) }

abbrev server : Server
server = record (new_server (codes "a")) {
  protocol = https;
  hostname = codes "h";
  port = 8443;
  user = codes "Source";
  password = codes "p";
}

server_valid : cfg_server_validate server ≡ none
unfolding cfg_server_validate
server_valid = refl

server_read_example :
    (parse_element lib server_kind (element_node (codes "server") (server_fields server)) []
      ≡ (true, shown lib server ∷ []))
    × (cfg_server_get_port (shown lib server) ≡ cfg_server_get_port server)
    × (cfg_server_get_tls (shown lib server) ≡ cfg_server_get_tls server)
    × (str_case_eq (cfg_server_get_user (shown lib server)) (cfg_server_get_user server) ≡ true)
server_read_example = server_read lib server refl server_valid name-IsPrintable (
  omega arith,
  omega arith,
  omega arith,
  omega arith,
  omega arith,
  omega arith,
  omega arith,
  omega arith,
  omega arith,
)

abbrev stream : Stream
stream = record (new_stream (codes "a")) { format = mp3; mountpoint = some (codes "/s") }

stream_valid : cfg_stream_validate stream ≡ none
unfolding cfg_stream_validate
stream_valid = refl

stream-IsFilled : IsFilled stream
stream-IsFilled = record {
  mountpoint = ground arith;
  intake = ground arith;
  server = ground arith;
  encoder = ground arith;
  stream_name = ground arith;
  stream_url = ground arith;
  stream_genre = ground arith;
  stream_description = ground arith;
  stream_quality = ground arith;
  stream_bitrate = ground arith;
  stream_samplerate = ground arith;
  stream_channels = ground arith;
}

stream_read_example :
    parse_element lib stream_kind (element_node (codes "stream") (stream_fields [] stream)) []
    ≡ (true, stream ∷ [])
stream_read_example = stream_read lib [] stream refl stream_valid name-IsPrintable stream-IsFilled

abbrev intake : Intake
intake = record (new_intake (codes "a")) {
  intake_type = IntakeType.playlist;
  filename = codes "f";
  shuffle = true;
}

intake_valid : cfg_intake_validate intake ≡ none
unfolding cfg_intake_validate
intake_valid = refl

intake_read_example :
    parse_element lib intake_kind (element_node (codes "intake") (intake_fields intake)) []
    ≡ (true, intake ∷ [])
intake_read_example = intake_read lib intake refl intake_valid name-IsPrintable (omega arith)

abbrev decoder : Decoder
decoder = record (new_decoder (codes "a")) {
  program = some (codes "d @T@");
  exts = codes ".a" ∷ codes ".b" ∷ [];
}

decoder_valid : cfg_decoder_validate decoder ≡ none
unfolding cfg_decoder_validate
decoder_valid = refl

decoder_read_example :
    parse_element lib decoder_kind (element_node (codes "decoder") (decoder_fields decoder)) []
    ≡ (true, decoder ∷ [])
unfolding str_case_eq
decoder_read_example =
    decoder_read lib decoder refl decoder_valid name-IsPrintable (ground arith)
      (ground arith, (ground arith, tt)) ((refl, tt), (tt, tt))

decimal_8443 : decimal 8443 ≡ codes "8443"
unfolding decimal digits
decimal_8443 = refl

printed :
    cfgfile_xml_print [] (record cfg_reset { servers = record server { user = [] } ∷ [] })
    ≡ codes
        "<ezstream>\n\n  <servers>\n    <server>\n      <name>a</name>\n      <protocol>https</protocol>\n      <hostname>h</hostname>\n      <port>8443</port>\n      <password>p</password>\n      <tls>required</tls>\n    </server>\n  </servers>\n\n  <streams>\n  </streams>\n\n  <intakes>\n  </intakes>\n</ezstream>\n"
unfolding cfgfile_xml_print server_fields decimal print_field print_tagged metadata_fields
    str_case_eq cfg_server_get_protocol_str cfg_server_get_hostname cfg_server_get_port digits
    cfg_server_get_user cfg_server_get_password cfg_server_get_tls cfg_server_get_tls_str
printed = refl
