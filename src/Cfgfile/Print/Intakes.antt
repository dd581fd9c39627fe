-- ===== src/Cfgfile/Print/Intakes.antt =====
-- src/cfgfile_xml.c: an intake that is printed is read back.
use ezstream.Prelude.{ℕ, ◌<◌, ◌≡◌, refl, ap, true, none, some, [], ◌∷◌, length}
use ezstream.CString.{Bytes, codes, str_case_eq}
use ezstream.Cfg.{path_max, if_set, set_boolean}
use ezstream.Cfg.Intake.{
  Intake, IntakeType, new_intake, find_type, type_str, cfg_intake_get_type_str,
  cfg_intake_get_filename, cfg_intake_set_name, cfg_intake_set_type, cfg_intake_set_filename,
  cfg_intake_set_shuffle, cfg_intake_set_stream_once, cfg_intake_validate, autodetect, file,
  playlist, program, stdin,
}
use ezstream.Cfgfile.{Libxml, each, on_element, cfg_default, set_fields, parse_element}
use ezstream.Cfgfile.Settings.{intake_kind}
use ezstream.Cfgfile.Print.{optional, unless, is_autodetect, intake_fields}
use ezstream.Cfgfile.Print.Read.{
  set_strlcpy_fits, accepted, element_node, Reads, Reads-append, Reads-nothing, Reads-yes,
  IsPrintable, read_back, set_name_alone, Reads-name_field,
}

module _ (lib : Libxml) where
  Reads-name :
      (x : Intake) (c : ℕ) (s : Bytes)
      → Reads lib intake_kind ((codes "name", c ∷ s) ∷ []) x (record x { name = c ∷ s })
  unfolding each set_fields str_case_eq cfg_intake_set_name
  Reads-name x c s = rw (set_name_alone lib intake_kind x c s) refl

  Reads-type :
      (x : Intake) (c : ℕ) (s : Bytes) (t : IntakeType)
      → find_type (c ∷ s) ≡ some t
      → Reads lib intake_kind ((codes "type", c ∷ s) ∷ []) x (record x { intake_type = t })
  unfolding each set_fields str_case_eq on_element cfg_intake_set_type
  Reads-type x c s f e = rw e refl

  set_filename :
      (x : Intake) (c : ℕ) (s : Bytes)
      → length (c ∷ s) < path_max
      → cfg_intake_set_filename x (some (c ∷ s)) ≡ (none, record x { filename = c ∷ s })
  unfolding cfg_intake_set_filename
  set_filename x c s fits =
      ap (λ r. (r.0, record x { filename = r.1 })) (set_strlcpy_fits path_max x.filename c s fits)

  Reads-filename :
      (x : Intake) (c : ℕ) (s : Bytes)
      → length (c ∷ s) < path_max
      → Reads lib intake_kind ((codes "filename", c ∷ s) ∷ []) x (record x { filename = c ∷ s })
  unfolding each set_fields str_case_eq on_element
  Reads-filename x c s fits =
      accepted lib intake_kind (cfg_intake_set_filename x (some (c ∷ s))) _
        (set_filename x c s fits)

  Reads-shuffle :
      (x : Intake)
      → Reads lib intake_kind ((codes "shuffle", codes "yes") ∷ []) x (record x { shuffle = true })
  unfolding each set_fields str_case_eq on_element cfg_intake_set_shuffle set_boolean
  Reads-shuffle x = refl

  Reads-stream_once :
      (x : Intake)
      → Reads lib intake_kind
          ((codes "stream_once", codes "yes") ∷ [])
          x
          (record x { stream_once = true })
  unfolding each set_fields str_case_eq on_element cfg_intake_set_stream_once set_boolean
  Reads-stream_once x = refl

  type_read :
      (x : Intake) (t : IntakeType)
      → Reads lib intake_kind
          (unless (is_autodetect t) (codes "type") (type_str t))
          (record x { intake_type = autodetect })
          (record x { intake_type = t })
  unfolding find_type str_case_eq
  type_read x autodetect = Reads-nothing lib intake_kind _
  type_read x file = Reads-type _ _ _ file refl
  type_read x playlist = Reads-type _ _ _ playlist refl
  type_read x program = Reads-type _ _ _ program refl
  type_read x stdin = Reads-type _ _ _ stdin refl

  filename_read :
      (x : Intake) (filename : Bytes)
      → length filename < path_max
      → Reads lib intake_kind
          (optional (codes "filename") (if_set filename))
          (record x { filename = [] })
          (record x { filename = filename })
  filename_read x [] fits = Reads-nothing lib intake_kind _
  filename_read x (c ∷ s) fits = Reads-filename _ c s fits

  intake-Reads :
      (i : Intake)
      → IsPrintable i.name
      → length i.filename < path_max
      → Reads lib intake_kind (intake_fields i) (new_intake cfg_default) i
  unfolding intake_fields cfg_intake_get_type_str cfg_intake_get_filename
  intake-Reads i name fits =
      let x0 = new_intake cfg_default in
      let x1 = record x0 { name = i.name } in
      let x2 = record x1 { intake_type = i.intake_type } in
      let x3 = record x2 { filename = i.filename } in
      let x4 = record x3 { shuffle = i.shuffle } in
      Reads-append lib intake_kind _ _ x0 x1 i
        (Reads-name_field lib intake_kind i.name (λ n. record x0 { name = n }) name (Reads-name x0))
        (Reads-append lib intake_kind _ _ x1 x2 i (type_read x1 i.intake_type) (
          Reads-append lib intake_kind _ _ x2 x3 i (filename_read x2 i.filename fits) (
            Reads-append lib intake_kind _ _ x3 x4 i
              (Reads-yes lib intake_kind (codes "shuffle") i.shuffle
                (λ b. record x3 { shuffle = b }) (Reads-shuffle x3))
              (Reads-append lib intake_kind _ _ x4 i i
                (Reads-yes lib intake_kind (codes "stream_once") i.stream_once
                  (λ b. record x4 { stream_once = b }) (Reads-stream_once x4))
                (Reads-nothing lib intake_kind i)))))

  -- An intake that passes its check, is printed and read again is the same. The file name fits its
  -- buffer, and the name can be printed; names are compared by strcasecmp(3), and libxml2 makes a
  -- leaf of every line.
  pub intake_read :
      (i : Intake)
      → lib.same_name ≡ str_case_eq
      → cfg_intake_validate i ≡ none
      → IsPrintable i.name
      → length i.filename < path_max
      → parse_element lib intake_kind (element_node (codes "intake") (intake_fields i)) []
        ≡ (true, i ∷ [])
  intake_read i names valid name fits =
      read_back lib intake_kind (codes "intake") (intake_fields i) i names valid
        (intake-Reads i name fits)
