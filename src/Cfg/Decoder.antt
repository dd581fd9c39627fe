-- ===== src/Cfg/Decoder.antt =====
-- src/cfg_decoder.c: the decoders of the configuration, and the file extensions that they are for.
pub mod Extensions
pub mod Match
pub mod Complete
use mathlib.Core.Option
use ezstream.Prelude.{
  ℕ, suc, ◌+◌, ◌-◌, refl, Bool, true, false, Option, none, some, List, [], ◌∷◌, ◌++◌, map,
  if◌then◌else◌, length, get_elem?, update, remove,
}
use ezstream.CString.{Bytes, str_case_eq}
use ezstream.Cfg.{
  Error, Outcome, unless_empty, checkph_prohibited, checkph_duplicate, checkph_required,
  first_error, placeholder_metadata, placeholder_artist, placeholder_title, placeholder_track,
  placeholder_string, program_not_set, no_extensions,
}
use ezstream.Cfg.Names.{Named, list_find, create, list_get, set_name}

-- `struct cfg_decoder`
pub record Decoder : Type 0 where
  pub name : Bytes
  pub program : Option Bytes
  pub exts : List Bytes

-- `cfg_decoder_create` for a name that is not empty.
abbrev pub new_decoder : Bytes → Decoder
new_decoder name = record { name = name; program = none; exts = [] }

abbrev pub named_decoder : Named Decoder
named_decoder = record {
  fresh = new_decoder;
  name_of = λ d. d.name;
  rename = λ name d. record d { name = name };
  name_of-fresh = λ name. refl;
  name_of-rename = λ name d. refl;
}

unfoldable pub cfg_decoder_create : Bytes → Option Decoder
unfolding create
cfg_decoder_create = create named_decoder

abbrev pub cfg_decoder_list_nentries : List Decoder → ℕ
cfg_decoder_list_nentries = length

unfoldable pub cfg_decoder_list_find : List Decoder → Bytes → Option ℕ
unfolding list_find
cfg_decoder_list_find = list_find named_decoder

unfoldable pub cfg_decoder_list_get : List Decoder → Bytes → List Decoder × Option ℕ
unfolding list_get
cfg_decoder_list_get = list_get named_decoder

abbrev pub cfg_decoder_list_remove : List Decoder → ℕ → List Decoder
cfg_decoder_list_remove = remove

unfoldable pub cfg_decoder_set_name : ℕ → List Decoder → Option Bytes → Outcome (List Decoder)
unfolding set_name
cfg_decoder_set_name = set_name named_decoder

unfoldable pub cfg_decoder_set_program : Decoder → Option Bytes → Outcome Decoder
cfg_decoder_set_program d program =
    unless_empty d program (λ str. (none, record d { program = some str }))

unfoldable pub has_ext : List Bytes → Bytes → Bool
unfolding str_case_eq
has_ext [] ext = false
has_ext (e ∷ exts) ext = if str_case_eq e ext then true else has_ext exts ext

unfoldable pub cfg_decoder_extsupport : Decoder → Bytes → Bool
unfolding has_ext
cfg_decoder_extsupport d ext = has_ext d.exts ext

unfoldable pub cfg_decoder_list_findext : List Decoder → Bytes → Option ℕ
unfolding cfg_decoder_extsupport
cfg_decoder_list_findext [] ext = none
cfg_decoder_list_findext (d ∷ dl) ext =
    if cfg_decoder_extsupport d ext
    then some 0
    else Option.map suc (cfg_decoder_list_findext dl ext)

-- The loop of `cfg_decoder_add_match`: the first entry that is equal to `ext`, and the others.
unfoldable pub take_ext : List Bytes → Bytes → Option (Bytes × List Bytes)
unfolding str_case_eq
take_ext [] ext = none
take_ext (e ∷ exts) ext =
    if str_case_eq e ext
    then some (e, exts)
    else Option.map (λ (f, rest). (f, e ∷ rest)) (take_ext exts ext)

abbrev pub insert_ext : ℕ → List Decoder → Bytes → List Decoder
insert_ext i dl e = update dl i (λ d. record d { exts = d.exts ++ e ∷ [] })

-- `cfg_decoder_add_match` on the decoder at `i`: the entry for the extension is moved from the
-- decoder that has it, or made.
unfoldable pub cfg_decoder_add_match : ℕ → List Decoder → Option Bytes → Outcome (List Decoder)
unfolding cfg_decoder_list_findext take_ext
cfg_decoder_add_match i dl ext = unless_empty dl ext (λ ext.
    elim (cfg_decoder_list_findext dl ext) [
      | none ↦ (none, insert_ext i dl ext)
      | some j ↦ elim (get_elem? dl j) [
        | none ↦ (none, insert_ext i dl ext)
        | some d2 ↦ elim (take_ext d2.exts ext) [
          | none ↦ (none, insert_ext i dl ext)
          | some (e, rest) ↦ (none, insert_ext i (update dl j (λ d. record d { exts = rest })) e)
        ]
      ]
    ])

-- The tests on the command of a decoder.
abbrev pub decoder_checks : Bytes → List (Option Error)
decoder_checks program =
    checkph_prohibited program placeholder_string
    ∷ checkph_duplicate program placeholder_track
    ∷ checkph_duplicate program placeholder_metadata
    ∷ checkph_duplicate program placeholder_artist
    ∷ checkph_duplicate program placeholder_title
    ∷ checkph_required program placeholder_track
    ∷ []

unfoldable pub check_decoder_program : Bytes → Option Error
unfolding checkph_prohibited checkph_duplicate checkph_required
check_decoder_program program = first_error (decoder_checks program)

abbrev pub check_decoder : Option Bytes → List Bytes → Option Error
check_decoder none exts = some program_not_set
check_decoder (some program) [] = some no_extensions
check_decoder (some program) (e ∷ exts) = check_decoder_program program

unfoldable pub cfg_decoder_validate : Decoder → Option Error
unfolding check_decoder_program
cfg_decoder_validate d = check_decoder d.program d.exts
