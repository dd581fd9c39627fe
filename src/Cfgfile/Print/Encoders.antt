-- ===== src/Cfgfile/Print/Encoders.antt =====
-- src/cfgfile_xml.c: an encoder that is printed is read back.
use mathlib.Core.Option.{none-ne-some}
use ezstream.Prelude.{ℕ, ◌≡◌, refl, sym, ◌≢◌, true, Option, none, some, [], ◌∷◌}
use ezstream.CString.{Bytes, codes, str_case_eq}
use ezstream.Cfg.{Error}
use ezstream.Cfg.Stream.{
  Format, cfg_stream_fmt2str, cfg_stream_str2fmt, missing_format, unset_format, ogg, mp3, webm,
  matroska,
}
use ezstream.Cfg.Encoder.{
  Encoder, new_encoder, check_encoder, cfg_encoder_set_name, cfg_encoder_set_format_str,
  cfg_encoder_set_program, cfg_encoder_validate,
}
use ezstream.Cfgfile.{Libxml, each, on_element, cfg_default, set_fields, parse_element}
use ezstream.Cfgfile.Settings.{encoder_kind}
use ezstream.Cfgfile.Print.{or_null, encoder_fields}
use ezstream.Cfgfile.Print.Read.{
  element_node, Reads, Reads-append, Reads-nothing, Reads-optional, IsPrintable, read_back,
  set_name_alone, Reads-name_field,
}

module _ (lib : Libxml) (null_text : Bytes) where
  Reads-name :
      (x : Encoder) (c : ℕ) (s : Bytes)
      → Reads lib encoder_kind ((codes "name", c ∷ s) ∷ []) x (record x { name = c ∷ s })
  unfolding each set_fields str_case_eq cfg_encoder_set_name
  Reads-name x c s = rw (set_name_alone lib encoder_kind x c s) refl

  Reads-format :
      (x : Encoder) (c : ℕ) (s : Bytes) (f : Format)
      → cfg_stream_str2fmt (c ∷ s) ≡ some f
      → Reads lib encoder_kind ((codes "format", c ∷ s) ∷ []) x (record x { format = f })
  unfolding each set_fields str_case_eq on_element cfg_encoder_set_format_str
  Reads-format x c s f e = rw e refl

  Reads-program :
      (x : Encoder) (c : ℕ) (s : Bytes)
      → Reads lib encoder_kind
          ((codes "program", c ∷ s) ∷ [])
          x
          (record x { program = some (c ∷ s) })
  unfolding each set_fields str_case_eq on_element cfg_encoder_set_program
  Reads-program x c s = refl

  format_read :
      (x : Encoder) (f : Format)
      → missing_format f ≡ none
      → Reads lib encoder_kind
          ((codes "format", or_null null_text (cfg_stream_fmt2str f)) ∷ [])
          x
          (record x { format = f })
  unfolding cfg_stream_fmt2str cfg_stream_str2fmt str_case_eq
  format_read x unset_format h = absurd (none-ne-some _ (sym h))
  format_read x ogg h = Reads-format x _ _ ogg refl
  format_read x mp3 h = Reads-format x _ _ mp3 refl
  format_read x webm h = Reads-format x _ _ webm refl
  format_read x matroska h = Reads-format x _ _ matroska refl

  has_format :
      (f : Option Error) (program : Option Bytes) → check_encoder f program ≡ none → f ≡ none
  has_format none program h = refl
  has_format (some e) program h = absurd (none-ne-some _ (sym h))

  encoder-Reads :
      (e : Encoder)
      → missing_format e.format ≡ none
      → IsPrintable e.name
      → e.program ≢ some []
      → Reads lib encoder_kind (encoder_fields null_text e) (new_encoder cfg_default) e
  unfolding encoder_fields
  encoder-Reads e format name program =
      let x = new_encoder cfg_default in
      let x1 = record x { name = e.name } in
      let x2 = record e { program = none } in
      Reads-append lib encoder_kind _ _ x x1 e
        (Reads-name_field lib encoder_kind e.name (λ n. record x { name = n }) name (Reads-name x))
        (Reads-append lib encoder_kind
          ((codes "format", or_null null_text (cfg_stream_fmt2str e.format)) ∷ []) _ x1 x2 e
          (format_read x1 e.format format)
          (Reads-append lib encoder_kind _ [] x2 e e
            (Reads-optional lib encoder_kind (codes "program") e.program
              (λ p. record e { program = p }) (Reads-program x2) program)
            (Reads-nothing lib encoder_kind e)))

  -- An encoder that passes its check, is printed and read again is the same. The program is not
  -- empty, and the name can be printed; names are compared by strcasecmp(3), and libxml2 makes a
  -- leaf of every line.
  pub encoder_read :
      (e : Encoder)
      → lib.same_name ≡ str_case_eq
      → cfg_encoder_validate e ≡ none
      → IsPrintable e.name
      → e.program ≢ some []
      → parse_element lib encoder_kind
          (element_node (codes "encoder") (encoder_fields null_text e))
          []
        ≡ (true, e ∷ [])
  unfolding cfg_encoder_validate
  encoder_read e names valid name program =
      read_back lib encoder_kind (codes "encoder") (encoder_fields null_text e) e names valid
        (encoder-Reads e (has_format (missing_format e.format) e.program valid) name program)
