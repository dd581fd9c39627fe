-- ===== src/Cfg/Server.antt =====
-- src/cfg_server.c: the servers of the configuration. A setter gets the server and an argument that
-- may be NULL, and returns the error and the server afterwards. A fixed-size string that is empty
-- is not set.
pub mod Valid
pub mod Choices
pub mod Errors
use mathlib.Core.Option
use ezstream.Prelude.{ℕ, ◌-◌, refl, Option, none, some, List, [], ◌==◌, if◌then◌else◌, length, pos}
use ezstream.CString.{Bytes, codes, str_case_eq}
use ezstream.CString.Numbers.{strtonum}
use ezstream.Cfg.{
  path_max, ni_maxhost, ucreds_size, csuite_size, Error, Outcome, unless_empty, set_strlcpy,
  to_unsigned, if_set, store_choice, store_number, set_uintnum, invalid_value, unsupported,
  hostname_missing, password_missing,
}
use ezstream.Cfg.Names.{Named, list_find, create, list_get, set_name}

-- `enum cfg_server_protocol`
pub data Protocol : Type 0 where
  http : Protocol
  https : Protocol
  icy : Protocol
  roaraudio : Protocol

-- `enum cfg_server_tls`
pub data Tls : Type 0 where
  tls_may : Tls
  tls_none : Tls
  tls_required : Tls

abbrev pub default_port : ℕ
default_port = 8000

abbrev pub default_user : Bytes
default_user = codes "source"

-- `struct cfg_server`
pub record Server : Type 0 where
  pub name : Bytes
  pub protocol : Protocol
  pub hostname : Bytes
  pub port : ℕ
  pub user : Bytes
  pub password : Bytes
  pub tls : Tls
  pub tls_cipher_suite : Bytes
  pub ca_dir : Bytes
  pub ca_file : Bytes
  pub client_cert : Bytes
  pub reconnect_attempts : ℕ

-- `cfg_server_create` for a name that is not empty: everything else is zero.
abbrev pub new_server : Bytes → Server
new_server name = record {
  name = name;
  protocol = http;
  hostname = [];
  port = 0;
  user = [];
  password = [];
  tls = tls_may;
  tls_cipher_suite = [];
  ca_dir = [];
  ca_file = [];
  client_cert = [];
  reconnect_attempts = 0;
}

abbrev pub named_server : Named Server
named_server = record {
  fresh = new_server;
  name_of = λ s. s.name;
  rename = λ name s. record s { name = name };
  name_of-fresh = λ name. refl;
  name_of-rename = λ name s. refl;
}

unfoldable pub cfg_server_create : Bytes → Option Server
unfolding create
cfg_server_create = create named_server

abbrev pub cfg_server_list_nentries : List Server → ℕ
cfg_server_list_nentries = length

unfoldable pub cfg_server_list_find : List Server → Bytes → Option ℕ
unfolding list_find
cfg_server_list_find = list_find named_server

unfoldable pub cfg_server_list_get : List Server → Bytes → List Server × Option ℕ
unfolding list_get
cfg_server_list_get = list_get named_server

unfoldable pub cfg_server_set_name : ℕ → List Server → Option Bytes → Outcome (List Server)
unfolding set_name
cfg_server_set_name = set_name named_server

-- The comparisons of `cfg_server_set_protocol`.
unfoldable pub find_protocol : Bytes → Option Protocol
unfolding str_case_eq
find_protocol s =
    if str_case_eq (codes "http") s
    then some http
    else if str_case_eq (codes "https") s
    then some https
    else if str_case_eq (codes "icy") s
    then some icy
    else if str_case_eq (codes "roaraudio") s
    then some roaraudio
    else none

unfoldable pub cfg_server_set_protocol : Server → Option Bytes → Outcome Server
unfolding find_protocol
cfg_server_set_protocol s protocol =
    unless_empty s protocol
      (λ str. store_choice s unsupported (λ p. record s { protocol = p }) (find_protocol str))

unfoldable pub cfg_server_set_hostname : Server → Option Bytes → Outcome Server
unfolding set_strlcpy
cfg_server_set_hostname s hostname =
    let (e, t) = set_strlcpy ni_maxhost s.hostname hostname in (e, record s { hostname = t })

unfoldable pub cfg_server_set_port : Server → Option Bytes → Outcome Server
unfolding strtonum to_unsigned
cfg_server_set_port s port_str = unless_empty s port_str (λ str.
    store_number s (λ port. record s { port = to_unsigned port })
      (strtonum str (pos 1) (pos 65535)))

unfoldable pub cfg_server_set_user : Server → Option Bytes → Outcome Server
unfolding set_strlcpy
cfg_server_set_user s user =
    let (e, t) = set_strlcpy ucreds_size s.user user in (e, record s { user = t })

unfoldable pub cfg_server_set_password : Server → Option Bytes → Outcome Server
unfolding set_strlcpy
cfg_server_set_password s password =
    let (e, t) = set_strlcpy ucreds_size s.password password in (e, record s { password = t })

-- The comparisons of `cfg_server_set_tls`.
unfoldable pub find_tls : Bytes → Option Tls
unfolding str_case_eq
find_tls s =
    if str_case_eq (codes "may") s
    then some tls_may
    else if str_case_eq (codes "none") s
    then some tls_none
    else if str_case_eq (codes "required") s
    then some tls_required
    else none

unfoldable pub cfg_server_set_tls : Server → Option Bytes → Outcome Server
unfolding find_tls
cfg_server_set_tls s tls =
    unless_empty s tls
      (λ str. store_choice s invalid_value (λ t. record s { tls = t }) (find_tls str))

unfoldable pub cfg_server_set_tls_cipher_suite : Server → Option Bytes → Outcome Server
unfolding set_strlcpy
cfg_server_set_tls_cipher_suite s suite =
    let (e, t) = set_strlcpy csuite_size s.tls_cipher_suite suite in
    (e, record s { tls_cipher_suite = t })

unfoldable pub cfg_server_set_ca_dir : Server → Option Bytes → Outcome Server
unfolding set_strlcpy
cfg_server_set_ca_dir s ca_dir =
    let (e, t) = set_strlcpy path_max s.ca_dir ca_dir in (e, record s { ca_dir = t })

unfoldable pub cfg_server_set_ca_file : Server → Option Bytes → Outcome Server
unfolding set_strlcpy
cfg_server_set_ca_file s ca_file =
    let (e, t) = set_strlcpy path_max s.ca_file ca_file in (e, record s { ca_file = t })

unfoldable pub cfg_server_set_client_cert : Server → Option Bytes → Outcome Server
unfolding set_strlcpy
cfg_server_set_client_cert s client_cert =
    let (e, t) = set_strlcpy path_max s.client_cert client_cert in (e, record s { client_cert = t })

unfoldable pub cfg_server_set_reconnect_attempts : Server → Option Bytes → Outcome Server
unfolding set_uintnum
cfg_server_set_reconnect_attempts s num_str =
    let (e, n) = set_uintnum s.reconnect_attempts num_str in
    (e, record s { reconnect_attempts = n })

unfoldable pub cfg_server_get_hostname : Server → Option Bytes
cfg_server_get_hostname s = if_set s.hostname

unfoldable pub cfg_server_get_password : Server → Option Bytes
cfg_server_get_password s = if_set s.password

abbrev pub first_missing : Option Bytes → Option Bytes → Option Error
first_missing none password = some hostname_missing
first_missing (some hostname) none = some password_missing
first_missing (some hostname) (some password) = none

unfoldable pub cfg_server_validate : Server → Option Error
unfolding cfg_server_get_hostname cfg_server_get_password
cfg_server_validate s = first_missing (cfg_server_get_hostname s) (cfg_server_get_password s)

abbrev pub protocol_str : Protocol → Bytes
protocol_str https = codes "https"
protocol_str icy = codes "icy"
protocol_str roaraudio = codes "roaraudio"
protocol_str http = codes "http"

unfoldable pub cfg_server_get_protocol_str : Server → Bytes
cfg_server_get_protocol_str s = protocol_str s.protocol

unfoldable pub cfg_server_get_port : Server → ℕ
cfg_server_get_port s = if s.port == 0 then default_port else s.port

unfoldable pub cfg_server_get_user : Server → Bytes
cfg_server_get_user s = elim (if_set s.user) [ none ↦ default_user | some user ↦ user ]

abbrev pub effective_tls : Protocol → Tls → Tls
effective_tls https tls = tls_required
effective_tls http tls = tls
effective_tls icy tls = tls
effective_tls roaraudio tls = tls

unfoldable pub cfg_server_get_tls : Server → Tls
cfg_server_get_tls s = effective_tls s.protocol s.tls

abbrev pub tls_str : Tls → Bytes
tls_str tls_none = codes "none"
tls_str tls_required = codes "required"
tls_str tls_may = codes "may"

abbrev pub effective_tls_str : Protocol → Tls → Bytes
effective_tls_str https tls = codes "required"
effective_tls_str http tls = tls_str tls
effective_tls_str icy tls = tls_str tls
effective_tls_str roaraudio tls = tls_str tls

unfoldable pub cfg_server_get_tls_str : Server → Bytes
cfg_server_get_tls_str s = effective_tls_str s.protocol s.tls
