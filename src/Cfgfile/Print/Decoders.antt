-- ===== src/Cfgfile/Print/Decoders.antt =====
-- src/cfgfile_xml.c: a decoder that is printed is read back, with its extensions.
use mathlib.Core.Path.{subst}
use ezstream.Prelude.{
  ℕ, ◌≡◌, refl, sym, ◌∙◌, ◌≢◌, true, false, none, some, List, [], ◌∷◌, ◌++◌, append-nil,
  append_assoc, arith, All,
}
use ezstream.CString.{Bytes, codes, str_case_eq}
use ezstream.CString.Case.{str_case_eq_comm}
use ezstream.Cfg.Decoder.{
  Decoder, new_decoder, has_ext, cfg_decoder_list_findext, cfg_decoder_extsupport,
  cfg_decoder_set_name, cfg_decoder_set_program, cfg_decoder_add_match, cfg_decoder_validate,
}
use ezstream.Cfg.Decoder.Extensions.{Other, Distinct}
use ezstream.Cfgfile.{Libxml, each, on_element, cfg_default, set_fields, parse_element}
use ezstream.Cfgfile.Settings.{decoder_kind}
use ezstream.Cfgfile.Careful.Decoders.{add_match_new}
use ezstream.Cfgfile.Print.{ext_fields, decoder_fields}
use ezstream.Cfgfile.Print.Read.{
  accepted_list, element_node, Reads, Reads-append, Reads-nothing, Reads-optional, IsPrintable,
  read_back, set_name_alone, Reads-name_field,
}

All-front :
    (a : List Bytes) (e : Bytes) (rest : List Bytes) → Distinct (a ++ e ∷ rest) → All (Other e) a
All-front [] e rest h = tt
All-front (x ∷ a) e rest (hx, h) = (str_case_eq_comm x e ∙ here a hx, All-front a e rest h)
  where
    here : (a : List Bytes) → All (Other x) (a ++ e ∷ rest) → Other x e
    here [] (p, q) = p
    here (y ∷ a) (p, q) = here a q

lacks_ext : (exts : List Bytes) (e : Bytes) → All (Other e) exts → has_ext exts e ≡ false
unfolding has_ext
lacks_ext [] e h = refl
lacks_ext (x ∷ exts) e (hx, h) = ground (arith, hx, lacks_ext exts e h)

not_found :
    (d : Decoder) (e : Bytes) → All (Other e) d.exts → cfg_decoder_list_findext (d ∷ []) e ≡ none
unfolding cfg_decoder_list_findext cfg_decoder_extsupport
not_found d e h = ground (arith, lacks_ext d.exts e h)

abbrev pub AllFilled : List Bytes → Type 0
AllFilled = All (λ e. e ≢ [])

module _ (lib : Libxml) where
  Reads-name :
      (x : Decoder) (c : ℕ) (s : Bytes)
      → Reads lib decoder_kind ((codes "name", c ∷ s) ∷ []) x (record x { name = c ∷ s })
  unfolding each set_fields str_case_eq cfg_decoder_set_name
  Reads-name x c s =
      accepted_list lib decoder_kind (cfg_decoder_set_name 0 (x ∷ []) (some (c ∷ s))) _
        (set_name_alone lib decoder_kind x c s)

  Reads-program :
      (x : Decoder) (c : ℕ) (s : Bytes)
      → Reads lib decoder_kind
          ((codes "program", c ∷ s) ∷ [])
          x
          (record x { program = some (c ∷ s) })
  unfolding each set_fields str_case_eq on_element cfg_decoder_set_program
  Reads-program x c s = refl

  Reads-ext :
      (x : Decoder) (c : ℕ) (s : Bytes)
      → All (Other (c ∷ s)) x.exts
      → Reads lib decoder_kind
          ((codes "file_ext", c ∷ s) ∷ [])
          x
          (record x { exts = x.exts ++ (c ∷ s) ∷ [] })
  unfolding each set_fields str_case_eq
  Reads-ext x c s other =
      accepted_list lib decoder_kind (cfg_decoder_add_match 0 (x ∷ []) (some (c ∷ s))) _
        (add_match_new 0 (x ∷ []) c s (not_found x (c ∷ s) other))

  exts_read :
      (x : Decoder) (exts : List Bytes)
      → AllFilled exts
      → Distinct (x.exts ++ exts)
      → Reads lib decoder_kind (ext_fields exts) x (record x { exts = x.exts ++ exts })
  exts_read x [] filled distinct =
      subst (λ exts. Reads lib decoder_kind [] x (record x { exts = exts }))
        (sym (append-nil x.exts)) (Reads-nothing lib decoder_kind x)
  exts_read x ([] ∷ exts) (nonempty, filled) distinct = absurd (nonempty refl)
  exts_read x ((c ∷ s) ∷ exts) (nonempty, filled) distinct =
      let y = record x { exts = x.exts ++ (c ∷ s) ∷ [] } in
      let path : y.exts ++ exts ≡ x.exts ++ (c ∷ s) ∷ exts =
        append_assoc x.exts ((c ∷ s) ∷ []) exts in
      Reads-append lib decoder_kind ((codes "file_ext", c ∷ s) ∷ []) (ext_fields exts) x y _
        (Reads-ext x c s (All-front x.exts (c ∷ s) exts distinct))
        (subst (λ all. Reads lib decoder_kind (ext_fields exts) y (record x { exts = all })) path
          (exts_read y exts filled (subst Distinct (sym path) distinct)))

  decoder-Reads :
      (d : Decoder)
      → IsPrintable d.name
      → d.program ≢ some []
      → AllFilled d.exts
      → Distinct d.exts
      → Reads lib decoder_kind (decoder_fields d) (new_decoder cfg_default) d
  unfolding decoder_fields
  decoder-Reads d name program filled distinct =
      let x0 = new_decoder cfg_default in
      let x1 = record x0 { name = d.name } in
      let x2 = record x1 { program = d.program } in
      Reads-append lib decoder_kind _ _ x0 x1 d
        (Reads-name_field lib decoder_kind d.name (λ n. record x0 { name = n }) name
          (Reads-name x0))
        (Reads-append lib decoder_kind _ _ x1 x2 d
          (Reads-optional lib decoder_kind (codes "program") d.program
            (λ p. record x1 { program = p }) (Reads-program x1) program)
          (Reads-append lib decoder_kind (ext_fields d.exts) [] x2 d d
            (exts_read x2 d.exts filled distinct) (Reads-nothing lib decoder_kind d)))

  -- A decoder that passes its check, is printed and read again is the same, with its extensions in
  -- the same order. Its program and its extensions are not empty, the extensions are different, and
  -- the name can be printed; names are compared by strcasecmp(3), and libxml2 makes a leaf of every
  -- line.
  pub decoder_read :
      (d : Decoder)
      → lib.same_name ≡ str_case_eq
      → cfg_decoder_validate d ≡ none
      → IsPrintable d.name
      → d.program ≢ some []
      → AllFilled d.exts
      → Distinct d.exts
      → parse_element lib decoder_kind (element_node (codes "decoder") (decoder_fields d)) []
        ≡ (true, d ∷ [])
  decoder_read d names valid name program filled distinct =
      read_back lib decoder_kind (codes "decoder") (decoder_fields d) d names valid
        (decoder-Reads d name program filled distinct)
