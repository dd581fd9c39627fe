-- ===== src/Cfg/Intake.antt =====
-- src/cfg_intake.c: the intakes of the configuration.
pub mod Types
use mathlib.Core.Option
use ezstream.Prelude.{
  ℕ, ◌-◌, refl, Bool, false, Option, none, some, List, [], if◌then◌else◌, length,
}
use ezstream.CString.{Bytes, codes, str_case_eq}
use ezstream.Cfg.{
  path_max, Error, Outcome, unless_empty, set_strlcpy, set_boolean, if_set, store_choice,
  unsupported, filename_missing,
}
use ezstream.Cfg.Names.{Named, list_find, create, list_get, set_name}

-- `enum cfg_intake_type`
pub data IntakeType : Type 0 where
  autodetect : IntakeType
  file : IntakeType
  playlist : IntakeType
  program : IntakeType
  stdin : IntakeType

-- `struct cfg_intake`; the type has the name of a keyword in the source.
pub record Intake : Type 0 where
  pub name : Bytes
  pub intake_type : IntakeType
  pub filename : Bytes
  pub shuffle : Bool
  pub stream_once : Bool

-- `cfg_intake_create` for a name that is not empty: everything else is zero.
abbrev pub new_intake : Bytes → Intake
new_intake name = record {
  name = name;
  intake_type = autodetect;
  filename = [];
  shuffle = false;
  stream_once = false;
}

abbrev pub named_intake : Named Intake
named_intake = record {
  fresh = new_intake;
  name_of = λ s. s.name;
  rename = λ name s. record s { name = name };
  name_of-fresh = λ name. refl;
  name_of-rename = λ name s. refl;
}

unfoldable pub cfg_intake_create : Bytes → Option Intake
unfolding create
cfg_intake_create = create named_intake

abbrev pub cfg_intake_list_nentries : List Intake → ℕ
cfg_intake_list_nentries = length

unfoldable pub cfg_intake_list_find : List Intake → Bytes → Option ℕ
unfolding list_find
cfg_intake_list_find = list_find named_intake

unfoldable pub cfg_intake_list_get : List Intake → Bytes → List Intake × Option ℕ
unfolding list_get
cfg_intake_list_get = list_get named_intake

unfoldable pub cfg_intake_set_name : ℕ → List Intake → Option Bytes → Outcome (List Intake)
unfolding set_name
cfg_intake_set_name = set_name named_intake

-- The comparisons of `cfg_intake_set_type`.
unfoldable pub find_type : Bytes → Option IntakeType
unfolding str_case_eq
find_type s =
    if str_case_eq (codes "autodetect") s
    then some autodetect
    else if str_case_eq (codes "file") s
    then some file
    else if str_case_eq (codes "playlist") s
    then some playlist
    else if str_case_eq (codes "program") s
    then some program
    else if str_case_eq (codes "stdin") s
    then some stdin
    else none

unfoldable pub cfg_intake_set_type : Intake → Option Bytes → Outcome Intake
unfolding find_type
cfg_intake_set_type i t =
    unless_empty i t
      (λ str. store_choice i unsupported (λ k. record i { intake_type = k }) (find_type str))

unfoldable pub cfg_intake_set_filename : Intake → Option Bytes → Outcome Intake
unfolding set_strlcpy
cfg_intake_set_filename i filename =
    let (e, t) = set_strlcpy path_max i.filename filename in (e, record i { filename = t })

unfoldable pub cfg_intake_set_shuffle : Intake → Option Bytes → Outcome Intake
unfolding set_boolean
cfg_intake_set_shuffle i shuffle =
    let (e, t) = set_boolean i.shuffle shuffle in (e, record i { shuffle = t })

unfoldable pub cfg_intake_set_stream_once : Intake → Option Bytes → Outcome Intake
unfolding set_boolean
cfg_intake_set_stream_once i stream_once =
    let (e, t) = set_boolean i.stream_once stream_once in (e, record i { stream_once = t })

unfoldable pub cfg_intake_get_filename : Intake → Option Bytes
cfg_intake_get_filename i = if_set i.filename

-- A file name is needed unless the intake is the standard input.
abbrev pub check_filename : Option Bytes → IntakeType → Option Error
check_filename (some filename) t = none
check_filename none stdin = none
check_filename none autodetect = some filename_missing
check_filename none file = some filename_missing
check_filename none playlist = some filename_missing
check_filename none program = some filename_missing

unfoldable pub cfg_intake_validate : Intake → Option Error
unfolding cfg_intake_get_filename
cfg_intake_validate i = check_filename (cfg_intake_get_filename i) i.intake_type

abbrev pub type_str : IntakeType → Bytes
type_str file = codes "file"
type_str playlist = codes "playlist"
type_str program = codes "program"
type_str stdin = codes "stdin"
type_str autodetect = codes "autodetect"

unfoldable pub cfg_intake_get_type_str : Intake → Bytes
cfg_intake_get_type_str i = type_str i.intake_type
