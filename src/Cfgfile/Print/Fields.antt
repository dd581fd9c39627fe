-- ===== src/Cfgfile/Print/Fields.antt =====
-- src/cfgfile_xml.c: the settings of a server that are printed are accepted one by one.

use ezstream.Prelude.{ℕ, ◌<◌, ◌≡◌, refl, ap, none, some, [], ◌∷◌, length}
use ezstream.CString.{Bytes, codes, str_case_eq}
use ezstream.Cfg.{path_max, ni_maxhost, ucreds_size, csuite_size, if_set}
use ezstream.Cfg.Server.{
  Protocol, Tls, Server, cfg_server_set_name, find_protocol, cfg_server_set_protocol,
  cfg_server_set_hostname, cfg_server_set_password, find_tls, cfg_server_set_tls,
  cfg_server_set_tls_cipher_suite, cfg_server_set_ca_dir, cfg_server_set_ca_file,
  cfg_server_set_client_cert, protocol_str, tls_str, http, https, icy, roaraudio, tls_may, tls_none,
  tls_required,
}
use ezstream.Cfgfile.{Libxml, each, on_element, set_fields}
use ezstream.Cfgfile.Settings.{server_kind}
use ezstream.Cfgfile.Print.{optional, unless, is_may}
use ezstream.Cfgfile.Print.Read.{
  set_strlcpy_fits, accepted, accepted_list, Reads, Reads-nothing, set_name_alone,
}

module _ (lib : Libxml) where
  pub Reads-name :
      (x : Server) (c : ℕ) (s : Bytes)
      → Reads lib server_kind ((codes "name", c ∷ s) ∷ []) x (record x { name = c ∷ s })
  unfolding each set_fields str_case_eq cfg_server_set_name
  Reads-name x c s =
      accepted_list lib server_kind (cfg_server_set_name 0 (x ∷ []) (some (c ∷ s))) _
        (set_name_alone lib server_kind x c s)

  Reads-protocol :
      (x : Server) (c : ℕ) (s : Bytes) (p : Protocol)
      → find_protocol (c ∷ s) ≡ some p
      → Reads lib server_kind ((codes "protocol", c ∷ s) ∷ []) x (record x { protocol = p })
  unfolding each set_fields str_case_eq on_element cfg_server_set_protocol
  Reads-protocol x c s p e = rw e refl

  pub protocol_read :
      (x : Server) (p : Protocol)
      → Reads lib server_kind
          ((codes "protocol", protocol_str p) ∷ [])
          x
          (record x { protocol = p })
  unfolding find_protocol str_case_eq
  protocol_read x http = Reads-protocol x _ _ http refl
  protocol_read x https = Reads-protocol x _ _ https refl
  protocol_read x icy = Reads-protocol x _ _ icy refl
  protocol_read x roaraudio = Reads-protocol x _ _ roaraudio refl

  Reads-tls :
      (x : Server) (c : ℕ) (s : Bytes) (t : Tls)
      → find_tls (c ∷ s) ≡ some t
      → Reads lib server_kind ((codes "tls", c ∷ s) ∷ []) x (record x { tls = t })
  unfolding each set_fields str_case_eq on_element cfg_server_set_tls
  Reads-tls x c s t e = rw e refl

  pub tls_read :
      (x : Server) (t : Tls)
      → Reads lib server_kind
          (unless (is_may t) (codes "tls") (tls_str t))
          (record x { tls = tls_may })
          (record x { tls = t })
  unfolding find_tls str_case_eq
  tls_read x tls_may = Reads-nothing lib server_kind _
  tls_read x tls_none = Reads-tls _ _ _ tls_none refl
  tls_read x tls_required = Reads-tls _ _ _ tls_required refl

  set_hostname :
      (x : Server) (c : ℕ) (s : Bytes)
      → length (c ∷ s) < ni_maxhost
      → cfg_server_set_hostname x (some (c ∷ s)) ≡ (none, record x { hostname = c ∷ s })
  unfolding cfg_server_set_hostname
  set_hostname x c s fits =
      ap (λ r. (r.0, record x { hostname = r.1 })) (set_strlcpy_fits ni_maxhost x.hostname c s fits)

  Reads-hostname :
      (x : Server) (c : ℕ) (s : Bytes)
      → length (c ∷ s) < ni_maxhost
      → Reads lib server_kind ((codes "hostname", c ∷ s) ∷ []) x (record x { hostname = c ∷ s })
  unfolding each set_fields str_case_eq on_element
  Reads-hostname x c s fits =
      accepted lib server_kind (cfg_server_set_hostname x (some (c ∷ s))) _
        (set_hostname x c s fits)

  pub hostname_read :
      (x : Server) (s : Bytes)
      → length s < ni_maxhost
      → Reads lib server_kind
          (optional (codes "hostname") (if_set s))
          (record x { hostname = [] })
          (record x { hostname = s })
  hostname_read x [] fits = Reads-nothing lib server_kind _
  hostname_read x (c ∷ s) fits = Reads-hostname _ c s fits

  set_password :
      (x : Server) (c : ℕ) (s : Bytes)
      → length (c ∷ s) < ucreds_size
      → cfg_server_set_password x (some (c ∷ s)) ≡ (none, record x { password = c ∷ s })
  unfolding cfg_server_set_password
  set_password x c s fits =
      ap (λ r. (r.0, record x { password = r.1 }))
        (set_strlcpy_fits ucreds_size x.password c s fits)

  Reads-password :
      (x : Server) (c : ℕ) (s : Bytes)
      → length (c ∷ s) < ucreds_size
      → Reads lib server_kind ((codes "password", c ∷ s) ∷ []) x (record x { password = c ∷ s })
  unfolding each set_fields str_case_eq on_element
  Reads-password x c s fits =
      accepted lib server_kind (cfg_server_set_password x (some (c ∷ s))) _
        (set_password x c s fits)

  pub password_read :
      (x : Server) (s : Bytes)
      → length s < ucreds_size
      → Reads lib server_kind
          (optional (codes "password") (if_set s))
          (record x { password = [] })
          (record x { password = s })
  password_read x [] fits = Reads-nothing lib server_kind _
  password_read x (c ∷ s) fits = Reads-password _ c s fits

  set_tls_cipher_suite :
      (x : Server) (c : ℕ) (s : Bytes)
      → length (c ∷ s) < csuite_size
      → cfg_server_set_tls_cipher_suite x (some (c ∷ s))
        ≡ (none, record x { tls_cipher_suite = c ∷ s })
  unfolding cfg_server_set_tls_cipher_suite
  set_tls_cipher_suite x c s fits =
      ap (λ r. (r.0, record x { tls_cipher_suite = r.1 }))
        (set_strlcpy_fits csuite_size x.tls_cipher_suite c s fits)

  Reads-tls_cipher_suite :
      (x : Server) (c : ℕ) (s : Bytes)
      → length (c ∷ s) < csuite_size
      → Reads lib server_kind
          ((codes "tls_cipher_suite", c ∷ s) ∷ [])
          x
          (record x { tls_cipher_suite = c ∷ s })
  unfolding each set_fields str_case_eq on_element
  Reads-tls_cipher_suite x c s fits =
      accepted lib server_kind (cfg_server_set_tls_cipher_suite x (some (c ∷ s))) _
        (set_tls_cipher_suite x c s fits)

  pub tls_cipher_suite_read :
      (x : Server) (s : Bytes)
      → length s < csuite_size
      → Reads lib server_kind
          (optional (codes "tls_cipher_suite") (if_set s))
          (record x { tls_cipher_suite = [] })
          (record x { tls_cipher_suite = s })
  tls_cipher_suite_read x [] fits = Reads-nothing lib server_kind _
  tls_cipher_suite_read x (c ∷ s) fits = Reads-tls_cipher_suite _ c s fits

  set_ca_dir :
      (x : Server) (c : ℕ) (s : Bytes)
      → length (c ∷ s) < path_max
      → cfg_server_set_ca_dir x (some (c ∷ s)) ≡ (none, record x { ca_dir = c ∷ s })
  unfolding cfg_server_set_ca_dir
  set_ca_dir x c s fits =
      ap (λ r. (r.0, record x { ca_dir = r.1 })) (set_strlcpy_fits path_max x.ca_dir c s fits)

  Reads-ca_dir :
      (x : Server) (c : ℕ) (s : Bytes)
      → length (c ∷ s) < path_max
      → Reads lib server_kind ((codes "ca_dir", c ∷ s) ∷ []) x (record x { ca_dir = c ∷ s })
  unfolding each set_fields str_case_eq on_element
  Reads-ca_dir x c s fits =
      accepted lib server_kind (cfg_server_set_ca_dir x (some (c ∷ s))) _ (set_ca_dir x c s fits)

  pub ca_dir_read :
      (x : Server) (s : Bytes)
      → length s < path_max
      → Reads lib server_kind
          (optional (codes "ca_dir") (if_set s))
          (record x { ca_dir = [] })
          (record x { ca_dir = s })
  ca_dir_read x [] fits = Reads-nothing lib server_kind _
  ca_dir_read x (c ∷ s) fits = Reads-ca_dir _ c s fits

  set_ca_file :
      (x : Server) (c : ℕ) (s : Bytes)
      → length (c ∷ s) < path_max
      → cfg_server_set_ca_file x (some (c ∷ s)) ≡ (none, record x { ca_file = c ∷ s })
  unfolding cfg_server_set_ca_file
  set_ca_file x c s fits =
      ap (λ r. (r.0, record x { ca_file = r.1 })) (set_strlcpy_fits path_max x.ca_file c s fits)

  Reads-ca_file :
      (x : Server) (c : ℕ) (s : Bytes)
      → length (c ∷ s) < path_max
      → Reads lib server_kind ((codes "ca_file", c ∷ s) ∷ []) x (record x { ca_file = c ∷ s })
  unfolding each set_fields str_case_eq on_element
  Reads-ca_file x c s fits =
      accepted lib server_kind (cfg_server_set_ca_file x (some (c ∷ s))) _ (set_ca_file x c s fits)

  pub ca_file_read :
      (x : Server) (s : Bytes)
      → length s < path_max
      → Reads lib server_kind
          (optional (codes "ca_file") (if_set s))
          (record x { ca_file = [] })
          (record x { ca_file = s })
  ca_file_read x [] fits = Reads-nothing lib server_kind _
  ca_file_read x (c ∷ s) fits = Reads-ca_file _ c s fits

  set_client_cert :
      (x : Server) (c : ℕ) (s : Bytes)
      → length (c ∷ s) < path_max
      → cfg_server_set_client_cert x (some (c ∷ s)) ≡ (none, record x { client_cert = c ∷ s })
  unfolding cfg_server_set_client_cert
  set_client_cert x c s fits =
      ap (λ r. (r.0, record x { client_cert = r.1 }))
        (set_strlcpy_fits path_max x.client_cert c s fits)

  Reads-client_cert :
      (x : Server) (c : ℕ) (s : Bytes)
      → length (c ∷ s) < path_max
      → Reads lib server_kind
          ((codes "client_cert", c ∷ s) ∷ [])
          x
          (record x { client_cert = c ∷ s })
  unfolding each set_fields str_case_eq on_element
  Reads-client_cert x c s fits =
      accepted lib server_kind (cfg_server_set_client_cert x (some (c ∷ s))) _
        (set_client_cert x c s fits)

  pub client_cert_read :
      (x : Server) (s : Bytes)
      → length s < path_max
      → Reads lib server_kind
          (optional (codes "client_cert") (if_set s))
          (record x { client_cert = [] })
          (record x { client_cert = s })
  client_cert_read x [] fits = Reads-nothing lib server_kind _
  client_cert_read x (c ∷ s) fits = Reads-client_cert _ c s fits
