-- ===== src/Cfg/Server/Errors.antt =====
-- What a failed setter leaves behind, and when a server is complete.
use mathlib.Core.Option.{none-ne-some}
use ezstream.Prelude.{
  ℕ, ◌≡◌, refl, sym, ap, ◌∙◌, ◌≢◌, ◌↔◌, Option, none, some, [], ◌∷◌, arith, length, pos,
}
use ezstream.CString.{Bytes}
use ezstream.CString.Numbers.{strtonum}
use ezstream.Cfg.{
  path_max, ni_maxhost, ucreds_size, csuite_size, Error, Outcome, set_strlcpy, to_unsigned, if_set,
  set_uintnum, too_long, invalid_value, unsupported, hostname_missing, password_missing,
}
use ezstream.Cfg.Errors.{
  Undone, Undone-unless_empty, Undone-store_choice, Undone-store_number, Undone-set_strlcpy,
  Undone-set_uintnum,
}
use ezstream.Cfg.Server.{Server, find_protocol, find_tls, first_missing, cfg_server_validate}
use ezstream.Cfg.Server.Valid.{
  Setter, call, to_protocol, to_hostname, to_port, to_user, to_password, to_tls,
  to_tls_cipher_suite, to_ca_dir, to_ca_file, to_client_cert, to_reconnect_attempts,
}

Undone-field {ℓ} :
    {A : Type ℓ} (s : Server) (get : Server → A) (put : A → Server) (r : Outcome A)
    → put (get s) ≡ s
    → Undone (get s) r
    → Undone s (r.0, put r.1)
Undone-field s get put r same h e k l = ap put (h e k l) ∙ same

-- A setter that fails leaves the server as it was, unless the error is that the argument is too
-- long for a fixed-size string.
pub call_error :
    (setter : Setter) (s : Server) (arg : Option Bytes) (e : Error)
    → (call setter s arg).0 ≡ some e
    → e ≢ too_long
    → (call setter s arg).1 ≡ s
unfolding call
call_error to_protocol s arg =
    Undone-unless_empty s arg _ (λ str.
      Undone-store_choice s unsupported (λ p. record s { protocol = p }) (find_protocol str))
call_error to_port s arg = Undone-unless_empty s arg _ (λ str.
    Undone-store_number s (λ port. record s { port = to_unsigned port })
      (strtonum str (pos 1) (pos 65535)))
call_error to_tls s arg =
    Undone-unless_empty s arg _
      (λ str. Undone-store_choice s invalid_value (λ t. record s { tls = t }) (find_tls str))
call_error to_hostname s arg =
    Undone-field s (λ s. s.hostname) (λ t. record s { hostname = t })
      (set_strlcpy ni_maxhost s.hostname arg) refl (Undone-set_strlcpy ni_maxhost s.hostname arg)
call_error to_user s arg =
    Undone-field s (λ s. s.user) (λ t. record s { user = t }) (set_strlcpy ucreds_size s.user arg)
      refl (Undone-set_strlcpy ucreds_size s.user arg)
call_error to_password s arg =
    Undone-field s (λ s. s.password) (λ t. record s { password = t })
      (set_strlcpy ucreds_size s.password arg) refl (Undone-set_strlcpy ucreds_size s.password arg)
call_error to_tls_cipher_suite s arg =
    Undone-field s (λ s. s.tls_cipher_suite) (λ t. record s { tls_cipher_suite = t })
      (set_strlcpy csuite_size s.tls_cipher_suite arg) refl
      (Undone-set_strlcpy csuite_size s.tls_cipher_suite arg)
call_error to_ca_dir s arg =
    Undone-field s (λ s. s.ca_dir) (λ t. record s { ca_dir = t })
      (set_strlcpy path_max s.ca_dir arg) refl (Undone-set_strlcpy path_max s.ca_dir arg)
call_error to_ca_file s arg =
    Undone-field s (λ s. s.ca_file) (λ t. record s { ca_file = t })
      (set_strlcpy path_max s.ca_file arg) refl (Undone-set_strlcpy path_max s.ca_file arg)
call_error to_client_cert s arg =
    Undone-field s (λ s. s.client_cert) (λ t. record s { client_cert = t })
      (set_strlcpy path_max s.client_cert arg) refl (Undone-set_strlcpy path_max s.client_cert arg)
call_error to_reconnect_attempts s arg =
    Undone-field s (λ s. s.reconnect_attempts) (λ t. record s { reconnect_attempts = t })
      (set_uintnum s.reconnect_attempts arg) refl (Undone-set_uintnum s.reconnect_attempts arg)

cons-ne-nil : (c : ℕ) (s : Bytes) → c ∷ s ≢ []
cons-ne-nil c s e = omega (arith, ap length e)

first_missing_iff :
    (hostname password : Bytes)
    → (first_missing (if_set hostname) (if_set password) ≡ none)
      ↔ ((hostname ≢ []) × (password ≢ []))
first_missing_iff [] p =
    (λ e. absurd (none-ne-some hostname_missing (sym e)), λ (h, _). absurd (h refl))
first_missing_iff (c ∷ h) [] =
    (λ e. absurd (none-ne-some password_missing (sym e)), λ (_, p). absurd (p refl))
first_missing_iff (c ∷ h) (d ∷ p) = (λ _. (cons-ne-nil c h, cons-ne-nil d p), λ _. refl)

-- A server is complete exactly if it has a host name and a password.
pub validate_iff :
    (s : Server) → (cfg_server_validate s ≡ none) ↔ ((s.hostname ≢ []) × (s.password ≢ []))
unfolding cfg_server_validate
validate_iff s = first_missing_iff s.hostname s.password
