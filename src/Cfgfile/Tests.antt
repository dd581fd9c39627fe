-- ===== src/Cfgfile/Tests.antt =====
-- src/cfgfile_xml.c on a concrete file.
use ezstream.Prelude.{◌≡◌, refl, true, false, none, some, []}
use ezstream.CString.{Bytes, codes, str_case_eq}
use ezstream.Cfg.Global.{Global, cfg_reset, cfg_file_reload, xmlfile}
use ezstream.Cfg.{set_boolean}
use ezstream.Cfg.Global.{cfg_file_check}
use ezstream.Cfg.Global.Settings.{cfg_set_metadata_no_updates}
use ezstream.Cfg.Names.{list_get}
use ezstream.Cfg.Server.{
  cfg_server_set_name, cfg_server_set_hostname, cfg_server_set_password, cfg_server_validate,
}
use ezstream.Cfgfile.{
  Node, Libxml, each, on_element, set_fields, parse_at, parse_element, parse_if_tagged,
  parse_elements, node, no_more, next,
}
use ezstream.Cfgfile.Settings.{
  set_metadata, metadata_loop, parse_metadata, parse_section, parse_sections, cfgfile_xml_parse,
}
use ezstream.Cfgfile.Complete.{IsComplete, IsDistinct}
use ezstream.Cfgfile.Reloaded.{
  cfgfile_xml_parse-IsComplete, LeavesComplete, cfg_file_reload-LeavesComplete,
}

abbrev leaf : Bytes → Bytes → Node
leaf name value = node name (some value) no_more

abbrev server : Node
server = node (codes "Server") none (
    next (leaf (codes "name") (codes "a")) (
      next (leaf (codes "hostname") (codes "h")) (
        next (leaf (codes "text") (codes " "))
          (next (leaf (codes "password") (codes "p")) no_more))))

abbrev no_password : Node
no_password = node (codes "server") none (next (leaf (codes "hostname") (codes "h")) no_more)

abbrev file_of : Node → Node
file_of server = node (codes "ezstream") none (
    next (node (codes "servers") none (next server no_more)) (
      next (node (codes "metadata") none (next (leaf (codes "no_updates") (codes "yes")) no_more))
        no_more))

abbrev xml : Node → Libxml
xml root = record {
  same_name = str_case_eq;
  parse_file = λ file. some (some root);
  stat_mode = λ file. some 0o644;
}

abbrev good : Libxml
good = xml (file_of server)

abbrev bad : Libxml
bad = xml (file_of no_password)

good_parsed : (cfgfile_xml_parse good (codes "f") cfg_reset).0 ≡ true
unfolding cfgfile_xml_parse parse_sections parse_section cfg_file_check str_case_eq parse_elements
    each parse_if_tagged parse_element list_get parse_at set_fields cfg_server_set_name on_element
    cfg_server_set_hostname cfg_server_set_password cfg_server_validate parse_metadata metadata_loop
    set_metadata cfg_set_metadata_no_updates set_boolean
good_parsed = refl

bad_parsed : (cfgfile_xml_parse bad (codes "f") cfg_reset).0 ≡ false
unfolding cfgfile_xml_parse parse_sections parse_section cfg_file_check str_case_eq parse_elements
    each parse_if_tagged parse_element list_get parse_at set_fields on_element
    cfg_server_set_hostname cfg_server_validate
bad_parsed = refl

cfgfile_xml_parse-IsComplete_example :
    IsComplete (cfgfile_xml_parse good (codes "f") cfg_reset).1
    × IsDistinct (cfgfile_xml_parse good (codes "f") cfg_reset).1
cfgfile_xml_parse-IsComplete_example = cfgfile_xml_parse-IsComplete good (codes "f") good_parsed

abbrev global : Global
global = record {
  cfg_program = record {
    name = codes "ezstream";
    config_type = xmlfile;
    config_file = codes "f";
    pid_file = [];
    quiet_stderr = false;
    rtstatus_output = false;
    verbosity = 0;
  };
  cfg = cfg_reset;
  cfg_tmp = cfg_reset;
}

cfg_file_reload-LeavesComplete_example :
    LeavesComplete good (cfg_file_reload (cfgfile_xml_parse good) global)
cfg_file_reload-LeavesComplete_example =
    cfg_file_reload-LeavesComplete good global refl
      record { servers = tt; streams = tt; intakes = tt; decoders = tt; encoders = tt }
      record { servers = tt; streams = tt; intakes = tt; decoders = tt; encoders = tt }
