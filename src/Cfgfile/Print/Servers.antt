-- ===== src/Cfgfile/Print/Servers.antt =====
-- src/cfgfile_xml.c: a server that is printed is read back.
use ezstream.Prelude.{
  ℕ, ◌≤◌, ◌≡◌, refl, ◌∙◌, Bool, true, false, none, [], ◌∷◌, arith, ◌==◌, if◌then◌else◌,
}
use ezstream.CString.{Bytes, codes, str_case_eq}
use ezstream.CString.Case.{str_case_eq_refl, str_case_eq_comm}
use ezstream.Cfg.Server.{
  Protocol, Tls, default_port, default_user, Server, new_server, cfg_server_get_hostname,
  cfg_server_get_password, cfg_server_validate, protocol_str, cfg_server_get_protocol_str,
  cfg_server_get_port, cfg_server_get_user, effective_tls, cfg_server_get_tls, effective_tls_str,
  cfg_server_get_tls_str, tls_may,
}
use ezstream.Cfg.Server.Valid.{Bounded}
use ezstream.Cfg.Server.Choices.{tls_str-effective, effective_twice}
use ezstream.Cfgfile.{Libxml, cfg_default, parse_element}
use ezstream.Cfgfile.Settings.{server_kind}
use ezstream.Cfgfile.Print.{unless, is_may, server_fields}
use ezstream.Cfgfile.Print.Read.{
  element_node, Reads, Reads-append, Reads-nothing, IsPrintable, read_back, Reads-name_field,
}
use ezstream.Cfgfile.Print.Fields.{
  Reads-name, protocol_read, tls_read, hostname_read, password_read, tls_cipher_suite_read,
  ca_dir_read, ca_file_read, client_cert_read,
}
use ezstream.Cfgfile.Print.Numbers.{shown_user, user_text, user_read, port_read, attempts_read}

-- The port that is used: 8000 for 0.
abbrev pub port_used : ℕ → ℕ
port_used port = if port == 0 then default_port else port

-- The server that is read again: without the defaults, and with the TLS that its protocol implies.
abbrev pub shown : (lib : Libxml) → Server → Server
shown lib s = record s {
  port = if port_used s.port == default_port then 0 else port_used s.port;
  user = shown_user lib s.user;
  tls = effective_tls s.protocol s.tls;
}

module _ (lib : Libxml) where
  shown_tls_read :
      (x : Server) (p : Protocol) (t : Tls)
      → Reads lib server_kind
          (unless (is_may (effective_tls p t)) (codes "tls") (effective_tls_str p t))
          (record x { tls = tls_may })
          (record x { tls = effective_tls p t })
  shown_tls_read x p t = rw (tls_str-effective p t) (tls_read lib x (effective_tls p t))

  used_low : (n : ℕ) → 1 ≤ port_used n
  used_low n = ground arith

  used_high : (n : ℕ) → n ≤ 65535 → port_used n ≤ 65535
  used_high n h = ground arith

  server-Reads :
      (s : Server)
      → IsPrintable s.name
      → Bounded s
      → Reads lib server_kind (server_fields s) (new_server cfg_default) (shown lib s)
  unfolding server_fields cfg_server_get_protocol_str cfg_server_get_hostname cfg_server_get_port
      cfg_server_get_user cfg_server_get_password cfg_server_get_tls cfg_server_get_tls_str
  server-Reads s name (host, port, user, password, suite, dir, file, cert, attempts) =
      let z = shown lib s in
      let x0 = new_server cfg_default in
      let x1 = record x0 { name = z.name } in
      let x2 = record x1 { protocol = z.protocol } in
      let x3 = record x2 { hostname = z.hostname } in
      let x4 = record x3 { port = z.port } in
      let x5 = record x4 { user = z.user } in
      let x6 = record x5 { password = z.password } in
      let x7 = record x6 { tls = z.tls } in
      let x8 = record x7 { tls_cipher_suite = z.tls_cipher_suite } in
      let x9 = record x8 { ca_dir = z.ca_dir } in
      let x10 = record x9 { ca_file = z.ca_file } in
      let x11 = record x10 { client_cert = z.client_cert } in
      Reads-append lib server_kind _ _ x0 x1 z
        (Reads-name_field lib server_kind s.name (λ n. record x0 { name = n }) name
          (Reads-name lib x0))
        (Reads-append lib server_kind ((codes "protocol", protocol_str s.protocol) ∷ []) _ x1 x2 z
          (protocol_read lib x1 s.protocol)
          (Reads-append lib server_kind _ _ x2 x3 z (hostname_read lib x2 s.hostname host) (
            Reads-append lib server_kind _ _ x3 x4 z
              (port_read lib x3 (port_used s.port) (port_used s.port == default_port)
                (used_low s.port) (used_high s.port port))
              (Reads-append lib server_kind _ _ x4 x5 z (user_read lib x4 s.user user) (
                Reads-append lib server_kind _ _ x5 x6 z (password_read lib x5 s.password password)
                  (Reads-append lib server_kind _ _ x6 x7 z (shown_tls_read x6 s.protocol s.tls) (
                    Reads-append lib server_kind _ _ x7 x8 z
                      (tls_cipher_suite_read lib x7 s.tls_cipher_suite suite)
                      (Reads-append lib server_kind _ _ x8 x9 z (ca_dir_read lib x8 s.ca_dir dir) (
                        Reads-append lib server_kind _ _ x9 x10 z
                          (ca_file_read lib x9 s.ca_file file)
                          (Reads-append lib server_kind _ _ x10 x11 z
                            (client_cert_read lib x10 s.client_cert cert)
                            (Reads-append lib server_kind _ [] x11 z z
                              (attempts_read lib x11 s.reconnect_attempts attempts)
                              (Reads-nothing lib server_kind z))))))))))))

  same_port :
      (n : ℕ) → port_used (if port_used n == default_port then 0 else port_used n) ≡ port_used n
  same_port n = ground arith

  user_by :
      (c : ℕ) (s : Bytes) (b : Bool)
      → str_case_eq (c ∷ s) default_user ≡ b
      → str_case_eq (user_text lib (if b then [] else c ∷ s)) (c ∷ s) ≡ true
  user_by c s true e = str_case_eq_comm default_user (c ∷ s) ∙ e
  user_by c s false e = str_case_eq_refl (c ∷ s)

  same_user :
      (user : Bytes) → str_case_eq (user_text lib (shown_user lib user)) (user_text lib user) ≡ true
  same_user [] = str_case_eq_refl default_user
  same_user (c ∷ s) = user_by c s (str_case_eq (c ∷ s) default_user) refl

  -- A server that passes its check and fits its buffers, is printed and read again gets the same
  -- settings: the port that is used and the TLS are the same, the user is the same up to upper and
  -- lower case, and everything else is unchanged. The name can be printed; names are compared by
  -- strcasecmp(3), and libxml2 makes a leaf of every line.
  pub server_read :
      (s : Server)
      → lib.same_name ≡ str_case_eq
      → cfg_server_validate s ≡ none
      → IsPrintable s.name
      → Bounded s
      → (parse_element lib server_kind (element_node (codes "server") (server_fields s)) []
          ≡ (true, shown lib s ∷ []))
        × (cfg_server_get_port (shown lib s) ≡ cfg_server_get_port s)
        × (cfg_server_get_tls (shown lib s) ≡ cfg_server_get_tls s)
        × (str_case_eq (cfg_server_get_user (shown lib s)) (cfg_server_get_user s) ≡ true)
  unfolding cfg_server_validate cfg_server_get_port cfg_server_get_tls cfg_server_get_user
  server_read s names valid name bounds = (
    read_back lib server_kind (codes "server") (server_fields s) (shown lib s) names valid
        (server-Reads s name bounds),
    same_port s.port,
    effective_twice s.protocol s.tls,
    same_user s.user,
  )
