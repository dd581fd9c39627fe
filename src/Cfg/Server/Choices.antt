-- ===== src/Cfg/Server/Choices.antt =====
-- Protocol, TLS and port of a server: as texts and as values, and with their defaults.
use ezstream.Prelude.{ℕ, ◌≡◌, refl, ap, ◌∙◌, none, some, ◌∷◌, arith, ltb, ◌==◌, if◌then◌else◌}
use ezstream.CString.{Bytes}
use ezstream.CString.Numbers.{too_small, too_large}
use ezstream.CString.Digits.{IsDigits, value, strtonum_digits}
use ezstream.Cfg.{number}
use ezstream.Cfg.Server.{
  Protocol, Tls, Server, cfg_server_set_protocol, cfg_server_set_port, cfg_server_set_tls,
  protocol_str, cfg_server_get_protocol_str, effective_tls, cfg_server_get_tls, tls_str,
  effective_tls_str, cfg_server_get_tls_str, http, https, icy, roaraudio, tls_may, tls_none,
  tls_required,
}

set_protocol_str :
    (s : Server) (p : Protocol)
    → cfg_server_set_protocol s (some (protocol_str p)) ≡ (none, record s { protocol = p })
unfolding cfg_server_set_protocol
set_protocol_str s http = refl
set_protocol_str s https = refl
set_protocol_str s icy = refl
set_protocol_str s roaraudio = refl

-- Setting the protocol to the text of a server's protocol succeeds and changes nothing.
pub protocol_roundtrip :
    (s : Server) → cfg_server_set_protocol s (some (cfg_server_get_protocol_str s)) ≡ (none, s)
unfolding cfg_server_get_protocol_str
protocol_roundtrip s = set_protocol_str s s.protocol

set_tls_str :
    (s : Server) (t : Tls) → cfg_server_set_tls s (some (tls_str t)) ≡ (none, record s { tls = t })
unfolding cfg_server_set_tls
set_tls_str s tls_may = refl
set_tls_str s tls_none = refl
set_tls_str s tls_required = refl

pub tls_str-effective :
    (p : Protocol) (t : Tls) → effective_tls_str p t ≡ tls_str (effective_tls p t)
tls_str-effective http t = refl
tls_str-effective https t = refl
tls_str-effective icy t = refl
tls_str-effective roaraudio t = refl

pub effective_twice :
    (p : Protocol) (t : Tls) → effective_tls p (effective_tls p t) ≡ effective_tls p t
effective_twice http t = refl
effective_twice https t = refl
effective_twice icy t = refl
effective_twice roaraudio t = refl

-- Setting TLS to the text that a server reports for it succeeds, and the server still asks for the
-- same TLS, whatever its protocol is.
pub tls_roundtrip :
    (s : Server)
    → ((cfg_server_set_tls s (some (cfg_server_get_tls_str s))).0 ≡ none)
      × (cfg_server_get_tls (cfg_server_set_tls s (some (cfg_server_get_tls_str s))).1
          ≡ cfg_server_get_tls s)
unfolding cfg_server_get_tls_str cfg_server_get_tls
tls_roundtrip s =
    let stored =
      ap (λ str. cfg_server_set_tls s (some str)) (tls_str-effective s.protocol s.tls)
      ∙ set_tls_str s (effective_tls s.protocol s.tls) in
    (
      ap (λ r. r.0) stored,
      ap (λ r. effective_tls r.1.protocol r.1.tls) stored ∙ effective_twice s.protocol s.tls,
    )

-- A port that is a text of digits is stored if it is one from 1 to 65535; otherwise the server is
-- unchanged and the error says on which side the number is.
pub set_port_digits :
    (s : Server) (c : ℕ) (ds : Bytes)
    → IsDigits (c ∷ ds)
    → cfg_server_set_port s (some (c ∷ ds)) ≡ (
        if value (c ∷ ds) == 0
        then (some (number too_small), s)
        else if ltb 65535 (value (c ∷ ds))
        then (some (number too_large), s)
        else (none, record s { port = value (c ∷ ds) }))
unfolding cfg_server_set_port
set_port_digits s c ds h =
    rw (strtonum_digits c ds 1 65535 h (omega arith) (omega arith)) (ground arith)
