-- ===== src/Cfgfile/Reloaded.antt =====
-- src/cfgfile_xml.c and src/cfg.c: the configuration that the parser and a reload leave.
use mathlib.Core.Path.{subst}
use ezstream.Prelude.{◌≡◌, refl, sym, ap, Bool, true, false}
use ezstream.CString.{Bytes}
use ezstream.Cfg.Names.Reach.{Reach-Distinct, none_yet}
use ezstream.Cfg.Server.{named_server}
use ezstream.Cfg.Stream.{named_stream}
use ezstream.Cfg.Intake.{named_intake}
use ezstream.Cfg.Encoder.{named_encoder}
use ezstream.Cfg.Decoder.{named_decoder}
use ezstream.Cfg.Global.{
  Config, Global, Ended, cfg_reset, cfg_file_reload, xmlfile, returned, aborted,
}
use ezstream.Cfg.Global.Reload.{reloaded, cfg_file_reload-reloaded}
use ezstream.Cfgfile.{Libxml}
use ezstream.Cfgfile.Settings.{cfgfile_xml_parse}
use ezstream.Cfgfile.Complete.{IsComplete, IsMade, IsDistinct}
use ezstream.Cfgfile.Complete.Document.{parse-Parsed}

module _ (lib : Libxml) where
  empty-IsComplete : IsComplete cfg_reset
  empty-IsComplete = record {
    servers = tt;
    streams = tt;
    intakes = tt;
    decoders = tt;
    encoders = tt;
  }

  empty-IsMade : IsMade cfg_reset
  empty-IsMade = record {
    servers = none_yet;
    streams = none_yet;
    intakes = none_yet;
    decoders = none_yet;
    encoders = none_yet;
  }

  IsMade→IsDistinct : (cfg : Config) → IsMade cfg → IsDistinct cfg
  IsMade→IsDistinct cfg m = record {
    servers = Reach-Distinct named_server cfg.servers m.servers;
    streams = Reach-Distinct named_stream cfg.streams m.streams;
    intakes = Reach-Distinct named_intake cfg.intakes m.intakes;
    decoders = Reach-Distinct named_decoder cfg.decoders m.decoders;
    encoders = Reach-Distinct named_encoder cfg.encoders m.encoders;
  }

  -- Whatever tree libxml2 makes of the file: if the parser succeeds, every server, stream, intake
  -- and encoder of the configuration passes its check, every decoder has a program whose
  -- placeholders are right, and no two elements of a kind have the same name, provided that the
  -- parser begins with an empty configuration, as a reload does.
  pub cfgfile_xml_parse-IsComplete :
      (file : Bytes)
      → (cfgfile_xml_parse lib file cfg_reset).0 ≡ true
      → IsComplete (cfgfile_xml_parse lib file cfg_reset).1
        × IsDistinct (cfgfile_xml_parse lib file cfg_reset).1
  cfgfile_xml_parse-IsComplete file ok =
      let p = parse-Parsed lib file cfg_reset in
      (p.complete ok empty-IsComplete, IsMade→IsDistinct _ (p.made empty-IsMade))

  after_reload :
      (file : Bytes) (g : Global) (r : Bool × Config)
      → r ≡ cfgfile_xml_parse lib file cfg_reset
      → IsComplete g.cfg
      → IsDistinct g.cfg
      → IsComplete (reloaded r g).1.cfg × IsDistinct (reloaded r g).1.cfg
  after_reload file g (false, new) e complete distinct = (complete, distinct)
  after_reload file g (true, new) e complete distinct =
      subst (λ new. IsComplete new × IsDistinct new) (sym (ap (λ r. r.1) e))
        (cfgfile_xml_parse-IsComplete file (sym (ap (λ r. r.0) e)))

  -- What the program can see of the end of a reload.
  abbrev pub LeavesComplete : Ended (Bool × Global) → Type 0
  LeavesComplete aborted = ⊥
  LeavesComplete (returned (ok, g)) = IsComplete g.cfg × IsDistinct g.cfg

  -- A reload of an XML file returns, and whether it succeeds or not the configuration that is active
  -- afterwards is complete and has different names, if the one before was. So a broken file can
  -- never leave a server without a host name or a password, an intake that needs a file name without
  -- one, or a stream or an encoder without a format.
  pub cfg_file_reload-LeavesComplete :
      (g : Global)
      → g.cfg_program.config_type ≡ xmlfile
      → IsComplete g.cfg
      → IsDistinct g.cfg
      → LeavesComplete (cfg_file_reload (cfgfile_xml_parse lib) g)
  cfg_file_reload-LeavesComplete g xml complete distinct =
      subst LeavesComplete (sym (cfg_file_reload-reloaded (cfgfile_xml_parse lib) g xml))
        (after_reload g.cfg_program.config_file g _ refl complete distinct)
