-- ===== src/Cfg/Tests.antt =====
-- The configuration on concrete inputs.
use ezstream.Prelude.{◌≤◌, ◌<◌, ◌≡◌, refl, Option, none, some, List, [], ◌∷◌, map, arith, length}
use ezstream.CString.{Bytes, codes}
use ezstream.CString.Numbers.{invalid, too_small}
use ezstream.CString.Digits.{IsDigits}
use ezstream.Cfg.{invalid_value, unsupported, number}
use ezstream.Cfg.Names.{list_get, set_name}
use ezstream.Cfg.Names.Reach.{Reach, none_yet, got}
use ezstream.Cfg.Server.{
  Server, new_server, named_server, cfg_server_set_protocol, cfg_server_set_port,
  cfg_server_get_port, https,
}
use ezstream.Cfg.Server.Valid.{
  Bounded, Setter, call, call_all, call_all-Bounded, to_hostname, to_port, to_tls,
}
use ezstream.Cfg.Stream.{new_stream}
use ezstream.Cfg.Stream.Errors.{call as call_stream, to_format}
use ezstream.Cfg.Decoder.{Decoder, new_decoder, cfg_decoder_add_match, cfg_decoder_validate}
use ezstream.Cfg.Decoder.Extensions.{Distinct, all_exts}
use ezstream.Cfg.Decoder.Match.{add_match-Distinct}

abbrev a_name : Bytes
a_name = codes "a"

abbrev server : Server
server = new_server a_name

abbrev servers : List Server
servers = (list_get named_server [] a_name).0

set_port_plain :
    cfg_server_set_port server (some (codes "8008")) ≡ (none, record server { port = 8008 })
unfolding cfg_server_set_port
set_port_plain = refl

set_port_zero : cfg_server_set_port server (some (codes "0")) ≡ (some (number too_small), server)
unfolding cfg_server_set_port
set_port_zero = refl

set_port_junk : cfg_server_set_port server (some (codes "80x")) ≡ (some (number invalid), server)
unfolding cfg_server_set_port
set_port_junk = refl

set_protocol_mixed :
    cfg_server_set_protocol server (some (codes "HtTpS"))
    ≡ (none, record server { protocol = https })
unfolding cfg_server_set_protocol
set_protocol_mixed = refl

reached : Reach named_server servers
reached = got a_name none_yet

one_server : 0 < length servers
unfolding list_get
one_server = omega arith

renamed_ok : (set_name named_server 0 servers (some (codes "b"))).0 ≡ none
unfolding set_name list_get
renamed_ok = refl

abbrev calls : List (Setter × Option Bytes)
calls = (to_port, some (codes "99999")) ∷ (to_hostname, some (codes "h")) ∷ []

call_all-Bounded_example :
    Bounded (call_all calls server)
    × (1 ≤ cfg_server_get_port (call_all calls server))
    × (cfg_server_get_port (call_all calls server) ≤ 65535)
call_all-Bounded_example = call_all-Bounded calls a_name

unknown_tls : (call to_tls server (some (codes "x"))).0 ≡ some invalid_value
unfolding call
unknown_tls = refl

eighty : IsDigits (codes "80")
eighty = ((omega arith, omega arith), ((omega arith, omega arith), tt))

unknown_format : (call_stream to_format (new_stream a_name) (some (codes "x"))).0 ≡ some unsupported
unfolding call_stream
unknown_format = refl

abbrev flac : Bytes
flac = codes ".flac"

abbrev decoder : Decoder
decoder = record (new_decoder a_name) { program = some (codes "flac -d @T@"); exts = flac ∷ [] }

abbrev decoders : List Decoder
decoders = decoder ∷ new_decoder (codes "b") ∷ []

-- The extension moves from the first decoder to the second.
moved_ext :
    map (λ d. d.exts) (cfg_decoder_add_match 1 decoders (some (codes ".FLAC"))).1
    ≡ [] ∷ (flac ∷ []) ∷ []
unfolding cfg_decoder_add_match
moved_ext = refl

add_match-Distinct_example :
    Distinct (all_exts (cfg_decoder_add_match 1 decoders (some (codes ".FLAC"))).1)
add_match-Distinct_example =
    add_match-Distinct 1 decoders (some (codes ".FLAC")) (omega arith) (tt, tt)

decoder_complete : cfg_decoder_validate decoder ≡ none
unfolding cfg_decoder_validate
decoder_complete = refl
