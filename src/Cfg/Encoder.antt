-- ===== src/Cfg/Encoder.antt =====
-- src/cfg_encoder.c: the encoders of the configuration.
pub mod Complete
use mathlib.Core.Option
use ezstream.Prelude.{ℕ, ◌-◌, refl, Option, none, some, List, [], ◌∷◌, length, remove}
use ezstream.CString.{Bytes}
use ezstream.Cfg.{
  Error, Outcome, unless_empty, store_choice, checkph_prohibited, checkph_duplicate, first_error,
  placeholder_metadata, placeholder_artist, placeholder_title, placeholder_track,
  placeholder_string, unsupported, program_not_set,
}
use ezstream.Cfg.Names.{Named, list_find, create, list_get, set_name}
use ezstream.Cfg.Stream.{Format, cfg_stream_str2fmt, missing_format, unset_format}

-- `struct cfg_encoder`
pub record Encoder : Type 0 where
  pub name : Bytes
  pub format : Format
  pub program : Option Bytes

-- `cfg_encoder_create` for a name that is not empty.
abbrev pub new_encoder : Bytes → Encoder
new_encoder name = record { name = name; format = unset_format; program = none }

abbrev pub named_encoder : Named Encoder
named_encoder = record {
  fresh = new_encoder;
  name_of = λ s. s.name;
  rename = λ name s. record s { name = name };
  name_of-fresh = λ name. refl;
  name_of-rename = λ name s. refl;
}

unfoldable pub cfg_encoder_create : Bytes → Option Encoder
unfolding create
cfg_encoder_create = create named_encoder

abbrev pub cfg_encoder_list_nentries : List Encoder → ℕ
cfg_encoder_list_nentries = length

unfoldable pub cfg_encoder_list_find : List Encoder → Bytes → Option ℕ
unfolding list_find
cfg_encoder_list_find = list_find named_encoder

unfoldable pub cfg_encoder_list_get : List Encoder → Bytes → List Encoder × Option ℕ
unfolding list_get
cfg_encoder_list_get = list_get named_encoder

unfoldable pub cfg_encoder_set_name : ℕ → List Encoder → Option Bytes → Outcome (List Encoder)
unfolding set_name
cfg_encoder_set_name = set_name named_encoder

abbrev pub cfg_encoder_list_remove : List Encoder → ℕ → List Encoder
cfg_encoder_list_remove = remove

unfoldable pub cfg_encoder_set_format_str : Encoder → Option Bytes → Outcome Encoder
unfolding cfg_stream_str2fmt
cfg_encoder_set_format_str e fmt_str =
    unless_empty e fmt_str (λ str.
      store_choice e unsupported (λ fmt. record e { format = fmt }) (cfg_stream_str2fmt str))

unfoldable pub cfg_encoder_set_program : Encoder → Option Bytes → Outcome Encoder
cfg_encoder_set_program e program =
    unless_empty e program (λ str. (none, record e { program = some str }))

-- The tests on the command of an encoder.
abbrev pub encoder_checks : Bytes → List (Option Error)
encoder_checks program =
    checkph_prohibited program placeholder_track
    ∷ checkph_prohibited program placeholder_string
    ∷ checkph_duplicate program placeholder_metadata
    ∷ checkph_duplicate program placeholder_artist
    ∷ checkph_duplicate program placeholder_title
    ∷ []

unfoldable pub check_encoder_program : Bytes → Option Error
unfolding checkph_prohibited checkph_duplicate
check_encoder_program program = first_error (encoder_checks program)

abbrev pub check_program : Option Bytes → Option Error
check_program none = some program_not_set
check_program (some program) = check_encoder_program program

abbrev pub check_encoder : Option Error → Option Bytes → Option Error
check_encoder (some e) program = some e
check_encoder none program = check_program program

unfoldable pub cfg_encoder_validate : Encoder → Option Error
unfolding check_encoder_program
cfg_encoder_validate e = check_encoder (missing_format e.format) e.program
