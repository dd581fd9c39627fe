-- ===== src/Cfgfile/Print/Numbers.antt =====
-- src/cfgfile_xml.c: the numbers and the user of a server that are printed are accepted.
use mathlib.Core.Path.{subst}
use ezstream.Prelude.{
  ℕ, ◌≤◌, ◌<◌, ◌≡◌, refl, sym, ap, ◌∙◌, Bool, true, false, none, some, [], ◌∷◌, arith, ◌==◌,
  if◌then◌else◌, length,
}
use ezstream.CString.{Bytes, codes, str_case_eq}
use ezstream.CString.Digits.{IsDigits, value, strtonum_digits}
use ezstream.CString.Decimal.{decimal, decimal_lem}
use ezstream.Cfg.{ucreds_size, uint_max, if_set, set_uintnum, to_unsigned}
use ezstream.Cfg.Server.{
  default_user, Server, cfg_server_set_port, cfg_server_set_user, cfg_server_set_reconnect_attempts,
}
use ezstream.Cfg.Server.Choices.{set_port_digits}
use ezstream.Cfgfile.{Libxml, each, on_element, set_fields}
use ezstream.Cfgfile.Settings.{server_kind}
use ezstream.Cfgfile.Print.{unless}
use ezstream.Cfgfile.Print.Read.{set_strlcpy_fits, accepted, Reads, Reads-nothing}

module _ (lib : Libxml) where
  set_user :
      (x : Server) (c : ℕ) (s : Bytes)
      → length (c ∷ s) < ucreds_size
      → cfg_server_set_user x (some (c ∷ s)) ≡ (none, record x { user = c ∷ s })
  unfolding cfg_server_set_user
  set_user x c s fits =
      ap (λ r. (r.0, record x { user = r.1 })) (set_strlcpy_fits ucreds_size x.user c s fits)

  Reads-user :
      (x : Server) (c : ℕ) (s : Bytes)
      → length (c ∷ s) < ucreds_size
      → Reads lib server_kind ((codes "user", c ∷ s) ∷ []) x (record x { user = c ∷ s })
  unfolding each set_fields str_case_eq on_element
  Reads-user x c s fits =
      accepted lib server_kind (cfg_server_set_user x (some (c ∷ s))) _ (set_user x c s fits)

  -- The user that is printed: none where it is the default, in upper or lower case.
  abbrev pub shown_user : Bytes → Bytes
  shown_user [] = []
  shown_user (c ∷ s) = if str_case_eq (c ∷ s) default_user then [] else c ∷ s

  user_or_not :
      (x : Server) (c : ℕ) (s : Bytes) (b : Bool)
      → length (c ∷ s) < ucreds_size
      → Reads lib server_kind
          (unless b (codes "user") (c ∷ s))
          (record x { user = [] })
          (record x { user = if b then [] else c ∷ s })
  user_or_not x c s true fits = Reads-nothing lib server_kind _
  user_or_not x c s false fits = Reads-user _ c s fits

  abbrev pub user_text : Bytes → Bytes
  user_text user = elim (if_set user) [ none ↦ default_user | some user ↦ user ]

  pub user_read :
      (x : Server) (user : Bytes)
      → length user < ucreds_size
      → Reads lib server_kind
          (unless (str_case_eq (user_text user) default_user) (codes "user") (user_text user))
          (record x { user = [] })
          (record x { user = shown_user user })
  unfolding str_case_eq
  user_read x [] fits = Reads-nothing lib server_kind _
  user_read x (c ∷ s) fits = user_or_not x c s (str_case_eq (c ∷ s) default_user) fits

  set_port_fits :
      (x : Server) (c : ℕ) (ds : Bytes)
      → IsDigits (c ∷ ds)
      → 1 ≤ value (c ∷ ds)
      → value (c ∷ ds) ≤ 65535
      → cfg_server_set_port x (some (c ∷ ds)) ≡ (none, record x { port = value (c ∷ ds) })
  set_port_fits x c ds digits low high = set_port_digits x c ds digits ∙ ground arith

  Reads-port :
      (x : Server) (c : ℕ) (ds : Bytes)
      → IsDigits (c ∷ ds)
      → 1 ≤ value (c ∷ ds)
      → value (c ∷ ds) ≤ 65535
      → Reads lib server_kind ((codes "port", c ∷ ds) ∷ []) x (record x { port = value (c ∷ ds) })
  unfolding each set_fields str_case_eq on_element
  Reads-port x c ds digits low high =
      accepted lib server_kind (cfg_server_set_port x (some (c ∷ ds))) _
        (set_port_fits x c ds digits low high)

  Reads-port_number :
      (x : Server) (n : ℕ)
      → 1 ≤ n
      → n ≤ 65535
      → Reads lib server_kind ((codes "port", decimal n) ∷ []) x (record x { port = n })
  Reads-port_number x n low high =
      let (c, ds, text, digits, number) = decimal_lem n (omega arith) in
      subst (λ s. Reads lib server_kind ((codes "port", s) ∷ []) x (record x { port = n }))
        (sym text)
        (subst (λ m. Reads lib server_kind ((codes "port", c ∷ ds) ∷ []) x (record x { port = m }))
          number (Reads-port x c ds digits (omega (arith, number)) (omega (arith, number))))

  -- A port is only printed where it is not the default.
  pub port_read :
      (x : Server) (n : ℕ) (b : Bool)
      → 1 ≤ n
      → n ≤ 65535
      → Reads lib server_kind
          (unless b (codes "port") (decimal n))
          (record x { port = 0 })
          (record x { port = if b then 0 else n })
  port_read x n true low high = Reads-nothing lib server_kind _
  port_read x n false low high = Reads-port_number _ n low high

  set_attempts_fits :
      (x : Server) (c : ℕ) (ds : Bytes)
      → IsDigits (c ∷ ds)
      → value (c ∷ ds) ≤ uint_max
      → cfg_server_set_reconnect_attempts x (some (c ∷ ds))
        ≡ (none, record x { reconnect_attempts = value (c ∷ ds) })
  unfolding cfg_server_set_reconnect_attempts set_uintnum to_unsigned
  set_attempts_fits x c ds digits high =
      rw (strtonum_digits c ds 0 uint_max digits (omega arith) (omega arith)) (ground arith)

  Reads-attempts :
      (x : Server) (c : ℕ) (ds : Bytes)
      → IsDigits (c ∷ ds)
      → value (c ∷ ds) ≤ uint_max
      → Reads lib server_kind
          ((codes "reconnect_attempts", c ∷ ds) ∷ [])
          x
          (record x { reconnect_attempts = value (c ∷ ds) })
  unfolding each set_fields str_case_eq on_element
  Reads-attempts x c ds digits high =
      accepted lib server_kind (cfg_server_set_reconnect_attempts x (some (c ∷ ds))) _
        (set_attempts_fits x c ds digits high)

  Reads-attempts_number :
      (x : Server) (n : ℕ)
      → n ≤ uint_max
      → Reads lib server_kind
          ((codes "reconnect_attempts", decimal n) ∷ [])
          x
          (record x { reconnect_attempts = n })
  Reads-attempts_number x n high =
      let (c, ds, text, digits, number) = decimal_lem n (omega arith) in
      subst
        (λ s.
          Reads lib server_kind ((codes "reconnect_attempts", s) ∷ []) x
            (record x { reconnect_attempts = n }))
        (sym text)
        (subst
          (λ m.
            Reads lib server_kind ((codes "reconnect_attempts", c ∷ ds) ∷ []) x
              (record x { reconnect_attempts = m }))
          number (Reads-attempts x c ds digits (omega (arith, number))))

  attempts_or_not :
      (x : Server) (n : ℕ) (b : Bool)
      → (b ≡ true → n ≡ 0)
      → n ≤ uint_max
      → Reads lib server_kind
          (unless b (codes "reconnect_attempts") (decimal n))
          (record x { reconnect_attempts = 0 })
          (record x { reconnect_attempts = n })
  attempts_or_not x n true zero_if high =
      subst
        (λ m.
          Reads lib server_kind [] (record x { reconnect_attempts = 0 })
            (record x { reconnect_attempts = m }))
        (sym (zero_if refl)) (Reads-nothing lib server_kind _)
  attempts_or_not x n false zero_if high = Reads-attempts_number _ n high

  pub attempts_read :
      (x : Server) (n : ℕ)
      → n ≤ uint_max
      → Reads lib server_kind
          (unless (n == 0) (codes "reconnect_attempts") (decimal n))
          (record x { reconnect_attempts = 0 })
          (record x { reconnect_attempts = n })
  attempts_read x n high = attempts_or_not x n (n == 0) (λ e. ground (arith, e)) high
