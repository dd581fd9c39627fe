-- ===== src/Cfgfile/Complete/Document.antt =====
-- src/cfgfile_xml.c: the sections of the document, one after the other.

use ezstream.Prelude.{◌≡◌, refl, Bool, true, false, ◌&&◌, Option, none, some, if_elim}
use ezstream.CString.{Bytes, codes}
use ezstream.Cfg.Global.{Config, cfg_file_check}
use ezstream.Cfgfile.{Node, Nodes, name_of, children_of, Libxml, no_more, next}
use ezstream.Cfgfile.Settings.{parse_section, parse_sections, parse_document, cfgfile_xml_parse}
use ezstream.Cfgfile.Complete.{
  Parsed, servers-Parsed, streams-Parsed, intakes-Parsed, decoders-Parsed, encoders-Parsed,
  metadata-Parsed, unchanged, then_parsed, both_true,
}

module _ (lib : Libxml) where
  section-Parsed : (n : Node) (cfg : Config) → Parsed cfg (parse_section lib n cfg)
  unfolding parse_section
  section-Parsed n cfg =
      if_elim (Parsed cfg) (lib.same_name (name_of n) (codes "servers")) (servers-Parsed lib n cfg)
        (if_elim (Parsed cfg) (lib.same_name (name_of n) (codes "streams"))
          (streams-Parsed lib n cfg)
          (if_elim (Parsed cfg) (lib.same_name (name_of n) (codes "intakes"))
            (intakes-Parsed lib n cfg)
            (if_elim (Parsed cfg) (lib.same_name (name_of n) (codes "metadata"))
              (metadata-Parsed lib n cfg)
              (if_elim (Parsed cfg) (lib.same_name (name_of n) (codes "decoders"))
                (decoders-Parsed lib n cfg)
                (if_elim (Parsed cfg) (lib.same_name (name_of n) (codes "encoders"))
                  (encoders-Parsed lib n cfg) (unchanged true cfg))))))

  -- An error that was noted stays noted.
  sections_ok :
      (ns : Nodes) (ok : Bool) (cfg : Config)
      → (parse_sections lib ns (ok, cfg)).0 ≡ true
      → ok ≡ true
  unfolding parse_sections
  sections_ok no_more ok cfg e = e
  sections_ok (next n ns) ok cfg e =
      (both_true ok (parse_section lib n cfg).0
        (sections_ok ns (ok && (parse_section lib n cfg).0) (parse_section lib n cfg).1 e)).0

  sections-Parsed :
      (ns : Nodes) (ok : Bool) (cfg : Config) → Parsed cfg (parse_sections lib ns (ok, cfg))
  unfolding parse_sections
  sections-Parsed no_more ok cfg = unchanged ok cfg
  sections-Parsed (next n ns) ok cfg =
      let r = parse_section lib n cfg in
      then_parsed ok cfg r.1 r _ refl (section-Parsed n cfg) (sections-Parsed ns (ok && r.0) r.1)
        (λ e. (both_true ok r.0 (sections_ok ns (ok && r.0) r.1 e)).1)

  document-Parsed :
      (o : Option (Option Node)) (cfg : Config) → Parsed cfg (parse_document lib o cfg)
  document-Parsed none cfg = unchanged false cfg
  document-Parsed (some none) cfg = unchanged false cfg
  document-Parsed (some (some root)) cfg =
      if_elim (Parsed cfg) (lib.same_name (name_of root) (codes "ezstream"))
        (sections-Parsed (children_of root) true cfg) (unchanged false cfg)

  pub parse-Parsed : (file : Bytes) (cfg : Config) → Parsed cfg (cfgfile_xml_parse lib file cfg)
  unfolding cfgfile_xml_parse
  parse-Parsed file cfg =
      if_elim (Parsed cfg) (cfg_file_check (lib.stat_mode file))
        (document-Parsed (lib.parse_file file) cfg) (unchanged false cfg)
