-- ===== src/Cfg/Global/Tests.antt =====
-- src/cfg.c on concrete inputs.
use ezstream.Prelude.{◌≡◌, refl, Bool, true, false, some, []}
use ezstream.CString.{Bytes, codes}
use ezstream.Cfg.{placeholder_title, duplicate_placeholder}
use ezstream.Cfg.Global.{Metadata, Config, Global, cfg_reset, cfg_file_reload, xmlfile, returned}
use ezstream.Cfg.Global.Reload.{reloaded, cfg_file_reload-reloaded}
use ezstream.Cfg.Global.Settings.{cfg_set_metadata_format_str}

abbrev started : Global
started = record {
  cfg_program = record {
    name = codes "ezstream";
    config_type = xmlfile;
    config_file = codes "f";
    pid_file = [];
    quiet_stderr = false;
    rtstatus_output = false;
    verbosity = 0;
  };
  cfg = cfg_reset;
  cfg_tmp = cfg_reset;
}

abbrev failing : Bytes → Config → Bool × Config
failing file c = (false, record c { metadata = record c.metadata { no_updates = true } })

cfg_file_reload-reloaded_example :
    cfg_file_reload failing started ≡ returned (reloaded (failing (codes "f") cfg_reset) started)
cfg_file_reload-reloaded_example = cfg_file_reload-reloaded failing started refl

abbrev settings : Metadata
settings = cfg_reset.metadata

format_str_twice :
    cfg_set_metadata_format_str settings (some (codes "@t@ @t@"))
    ≡ (some (duplicate_placeholder placeholder_title), settings)
unfolding cfg_set_metadata_format_str
format_str_twice = refl
