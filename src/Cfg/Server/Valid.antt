-- ===== src/Cfg/Server/Valid.antt =====
-- What every sequence of setters keeps: the strings fit their arrays, the numbers their ranges.
use ezstream.Prelude.{◌≤◌, ◌<◌, Option, none, some, List, [], ◌∷◌, arith, length, pos}
use ezstream.CString.{Bytes}
use ezstream.Cfg.Bounds.{
  set_strlcpy_bound, store_choice_lem, store_number-strtonum, to_unsigned-le, set_uintnum_bound,
}
use ezstream.Cfg.{
  path_max, ni_maxhost, ucreds_size, csuite_size, Outcome, uint_max, to_unsigned, invalid_value,
  unsupported,
}
use ezstream.Cfg.Server.{
  Server, new_server, find_protocol, cfg_server_set_protocol, cfg_server_set_hostname,
  cfg_server_set_port, cfg_server_set_user, cfg_server_set_password, find_tls, cfg_server_set_tls,
  cfg_server_set_tls_cipher_suite, cfg_server_set_ca_dir, cfg_server_set_ca_file,
  cfg_server_set_client_cert, cfg_server_set_reconnect_attempts, cfg_server_get_port,
}

-- The bounds of `struct cfg_server`, field by field.
abbrev pub Bounded : Server → Type 0
Bounded s =
    (length s.hostname < ni_maxhost)
    × (s.port ≤ 65535)
    × (length s.user < ucreds_size)
    × (length s.password < ucreds_size)
    × (length s.tls_cipher_suite < csuite_size)
    × (length s.ca_dir < path_max)
    × (length s.ca_file < path_max)
    × (length s.client_cert < path_max)
    × (s.reconnect_attempts ≤ uint_max)

-- The setters of one server.
pub data Setter : Type 0 where
  to_protocol : Setter
  to_hostname : Setter
  to_port : Setter
  to_user : Setter
  to_password : Setter
  to_tls : Setter
  to_tls_cipher_suite : Setter
  to_ca_dir : Setter
  to_ca_file : Setter
  to_client_cert : Setter
  to_reconnect_attempts : Setter

unfoldable pub call : Setter → Server → Option Bytes → Outcome Server
unfolding cfg_server_set_protocol cfg_server_set_hostname cfg_server_set_port cfg_server_set_user
    cfg_server_set_password cfg_server_set_tls cfg_server_set_tls_cipher_suite cfg_server_set_ca_dir
    cfg_server_set_ca_file cfg_server_set_client_cert cfg_server_set_reconnect_attempts
call to_protocol = cfg_server_set_protocol
call to_hostname = cfg_server_set_hostname
call to_port = cfg_server_set_port
call to_user = cfg_server_set_user
call to_password = cfg_server_set_password
call to_tls = cfg_server_set_tls
call to_tls_cipher_suite = cfg_server_set_tls_cipher_suite
call to_ca_dir = cfg_server_set_ca_dir
call to_ca_file = cfg_server_set_ca_file
call to_client_cert = cfg_server_set_client_cert
call to_reconnect_attempts = cfg_server_set_reconnect_attempts

-- What a caller that ignores errors makes of a server.
unfoldable pub call_all : List (Setter × Option Bytes) → Server → Server
unfolding call
call_all [] s = s
call_all ((setter, arg) ∷ calls) s = call_all calls (call setter s arg).1

set_protocol_bound :
    (s : Server) (arg : Option Bytes) → Bounded s → Bounded (cfg_server_set_protocol s arg).1
unfolding cfg_server_set_protocol
set_protocol_bound s none h = h
set_protocol_bound s (some []) h = h
set_protocol_bound s (some (c ∷ str)) h =
    store_choice_lem Bounded s unsupported (λ p. record s { protocol = p })
      (find_protocol (c ∷ str)) h (λ p. h)

set_tls_bound : (s : Server) (arg : Option Bytes) → Bounded s → Bounded (cfg_server_set_tls s arg).1
unfolding cfg_server_set_tls
set_tls_bound s none h = h
set_tls_bound s (some []) h = h
set_tls_bound s (some (c ∷ str)) h =
    store_choice_lem Bounded s invalid_value (λ t. record s { tls = t }) (find_tls (c ∷ str)) h
      (λ t. h)

set_port_bound :
    (s : Server) (arg : Option Bytes) → Bounded s → Bounded (cfg_server_set_port s arg).1
unfolding cfg_server_set_port
set_port_bound s none h = h
set_port_bound s (some []) h = h
set_port_bound s (some (c ∷ str)) h =
    store_number-strtonum Bounded s (λ port. record s { port = to_unsigned port }) (c ∷ str) (pos 1)
      (pos 65535) h
      (λ v low high.
        let new = to_unsigned-le 1 65535 v (omega arith) low high in
        (h.0, new, h.2, h.3, h.4, h.5, h.6, h.7, h.8))

-- A setter keeps the bounds, whatever its argument is and whether it succeeds or not.
pub call-Bounded :
    (setter : Setter) (s : Server) (arg : Option Bytes) → Bounded s → Bounded (call setter s arg).1
unfolding call
call-Bounded to_protocol s arg h = set_protocol_bound s arg h
call-Bounded to_port s arg h = set_port_bound s arg h
call-Bounded to_tls s arg h = set_tls_bound s arg h
call-Bounded to_hostname s arg h =
    let new = set_strlcpy_bound ni_maxhost s.hostname arg (omega arith) h.0 in
    (new, h.1, h.2, h.3, h.4, h.5, h.6, h.7, h.8)
call-Bounded to_user s arg h =
    let new = set_strlcpy_bound ucreds_size s.user arg (omega arith) h.2 in
    (h.0, h.1, new, h.3, h.4, h.5, h.6, h.7, h.8)
call-Bounded to_password s arg h =
    let new = set_strlcpy_bound ucreds_size s.password arg (omega arith) h.3 in
    (h.0, h.1, h.2, new, h.4, h.5, h.6, h.7, h.8)
call-Bounded to_tls_cipher_suite s arg h =
    let new = set_strlcpy_bound csuite_size s.tls_cipher_suite arg (omega arith) h.4 in
    (h.0, h.1, h.2, h.3, new, h.5, h.6, h.7, h.8)
call-Bounded to_ca_dir s arg h =
    let new = set_strlcpy_bound path_max s.ca_dir arg (omega arith) h.5 in
    (h.0, h.1, h.2, h.3, h.4, new, h.6, h.7, h.8)
call-Bounded to_ca_file s arg h =
    let new = set_strlcpy_bound path_max s.ca_file arg (omega arith) h.6 in
    (h.0, h.1, h.2, h.3, h.4, h.5, new, h.7, h.8)
call-Bounded to_client_cert s arg h =
    let new = set_strlcpy_bound path_max s.client_cert arg (omega arith) h.7 in
    (h.0, h.1, h.2, h.3, h.4, h.5, h.6, new, h.8)
call-Bounded to_reconnect_attempts s arg h =
    let new = set_uintnum_bound s.reconnect_attempts arg h.8 in
    (h.0, h.1, h.2, h.3, h.4, h.5, h.6, h.7, new)

call_all_keeps :
    (calls : List (Setter × Option Bytes)) (s : Server) → Bounded s → Bounded (call_all calls s)
unfolding call_all
call_all_keeps [] s h = h
call_all_keeps ((setter, arg) ∷ calls) s h =
    call_all_keeps calls (call setter s arg).1 (call-Bounded setter s arg h)

new_server-Bounded : (name : Bytes) → Bounded (new_server name)
new_server-Bounded name = (
  omega arith,
  omega arith,
  omega arith,
  omega arith,
  omega arith,
  omega arith,
  omega arith,
  omega arith,
  omega arith,
)

-- Every server that calls of the setters make of a new one fits its arrays and ranges, and the port
-- to connect to is one from 1 to 65535.
pub call_all-Bounded :
    (calls : List (Setter × Option Bytes)) (name : Bytes)
    → Bounded (call_all calls (new_server name))
      × (1 ≤ cfg_server_get_port (call_all calls (new_server name)))
      × (cfg_server_get_port (call_all calls (new_server name)) ≤ 65535)
unfolding cfg_server_get_port
call_all-Bounded calls name =
    let bounds = call_all_keeps calls (new_server name) (new_server-Bounded name) in
    (bounds, ground arith, ground (arith, bounds.1))
