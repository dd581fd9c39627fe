-- ===== src/Cfg/Global/Reload.antt =====
-- `cfg_file_reload` is a transaction.
use ezstream.Prelude.{◌≡◌, refl, ap, ◌∙◌, Bool, true, false}
use ezstream.CString.{Bytes}
use ezstream.Cfg.Global.{
  Config, Global, cfg_reset, cfg_save, cfg_restore, cfg_commit, load_as, finish_reload, cfg_load,
  cfg_file_reload, xmlfile, returned,
}

-- What a reload comes to: the whole new configuration, which does not depend on the old one, or the
-- old configuration, untouched.
abbrev pub reloaded : Bool × Config → Global → Bool × Global
reloaded (true, new) g = (true, record g { cfg = new; cfg_tmp = cfg_reset })
reloaded (false, new) g = (false, record g { cfg_tmp = cfg_reset })

cfg_load_xmlfile :
    (parse : Bytes → Config → Bool × Config) (g : Global)
    → g.cfg_program.config_type ≡ xmlfile
    → cfg_load parse g
      ≡ (let r = parse g.cfg_program.config_file g.cfg in returned (r.0, record g { cfg = r.1 }))
unfolding cfg_load
cfg_load_xmlfile parse g h = ap (λ t. load_as t (parse g.cfg_program.config_file g.cfg) g) h

finished :
    (g : Global) (r : Bool × Config)
    → finish_reload (returned (r.0, record (cfg_save g) { cfg = r.1 })) ≡ returned (reloaded r g)
unfolding cfg_save cfg_restore cfg_commit
finished g (true, new) = refl
finished g (false, new) = refl

-- Whatever the parser does, a reload that succeeds leaves exactly what the parser makes of an empty
-- configuration, and one that fails leaves the configuration that was there before. The copy that
-- is kept meanwhile is empty again afterwards. The configuration is an XML file.
pub cfg_file_reload-reloaded :
    (parse : Bytes → Config → Bool × Config) (g : Global)
    → g.cfg_program.config_type ≡ xmlfile
    → cfg_file_reload parse g ≡ returned (reloaded (parse g.cfg_program.config_file cfg_reset) g)
unfolding cfg_file_reload
cfg_file_reload-reloaded parse g h =
    ap finish_reload (cfg_load_xmlfile parse (cfg_save g) h)
    ∙ finished g (parse g.cfg_program.config_file cfg_reset)
