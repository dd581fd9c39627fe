-- ===== src/Cfg.antt =====
-- src/cfg_private.h: the macros that the setters of the configuration are made of. A setter gets
-- the old value and an argument that may be NULL; it returns the error and the new value.
pub mod Placeholders
pub mod Names
pub mod Bounds
pub mod Errors
pub mod Server
pub mod Stream
pub mod Decoder
pub mod Encoder
pub mod Intake
pub mod Global
pub mod Tests
use mathlib.Core.Option
use ezstream.Prelude.{
  ℕ, ◌-◌, ◌%◌, ◌^◌, Bool, true, false, ◌||◌, Option, none, some, List, [], ◌∷◌, leb, if◌then◌else◌,
  length, drop, ℤ, pos, negsuc,
}
use ezstream.CString.{Bytes, codes, str_case_eq, strstr, strlcpy}
use ezstream.CString.Numbers.{NumError, strtonum}

abbrev pub path_max : ℕ
path_max = 4096

abbrev pub ni_maxhost : ℕ
ni_maxhost = 1025

abbrev pub ucreds_size : ℕ
ucreds_size = 256

abbrev pub csuite_size : ℕ
csuite_size = 2048

-- What `*errstrp` is set to.
pub data Error : Type 0 where
  is_empty : Error
  too_long : Error
  already_exists : Error
  invalid_value : Error
  unsupported : Error
  number : NumError → Error
  hostname_missing : Error
  password_missing : Error
  format_missing : Error
  filename_missing : Error
  program_not_set : Error
  no_extensions : Error
  prohibited_placeholder : Bytes → Error
  duplicate_placeholder : Bytes → Error
  missing_placeholder : Bytes → Error

-- `none` for 0, and the error for -1, with the state afterwards.
abbrev pub Outcome {ℓ} : Type ℓ → Type ℓ
Outcome A = Option Error × A

-- `if (!s || !s[0])`: the error "empty", and otherwise what `f` does.
abbrev pub unless_empty {ℓ} : {A : Type ℓ} → A → Option Bytes → (Bytes → Outcome A) → Outcome A
unless_empty t none f = (some is_empty, t)
unless_empty t (some []) f = (some is_empty, t)
unless_empty t (some (c ∷ s)) f = f (c ∷ s)

-- SET_STRLCPY: the copy is made before its length is tested.
unfoldable pub set_strlcpy : ℕ → Bytes → Option Bytes → Outcome Bytes
unfolding strlcpy
set_strlcpy size t s =
    unless_empty t s (λ s. (if leb size (length s) then some too_long else none, strlcpy s size))

-- SET_XSTRDUP
unfoldable pub set_xstrdup : Option Bytes → Option Bytes → Outcome (Option Bytes)
set_xstrdup t s = unless_empty t s (λ s. (none, some s))

-- SET_BOOLEAN
unfoldable pub set_boolean : Bool → Option Bytes → Outcome Bool
unfolding str_case_eq
set_boolean t s = unless_empty t s (λ s.
    if str_case_eq s (codes "true") || str_case_eq s (codes "yes") || str_case_eq s (codes "1")
    then (none, true)
    else if str_case_eq s (codes "false") || str_case_eq s (codes "no") || str_case_eq s (codes "0")
    then (none, false)
    else (some invalid_value, t))

abbrev pub uint_max : ℕ
uint_max = 2 ^ 32 - 1

abbrev pub int_max : ℕ
int_max = 2 ^ 31 - 1

-- The cast to `unsigned int`.
unfoldable pub to_unsigned : ℤ → ℕ
to_unsigned (pos n) = n % 2 ^ 32
to_unsigned (negsuc n) = uint_max - n % 2 ^ 32

-- The cast to `int`.
unfoldable pub to_int : ℤ → ℤ
unfolding to_unsigned
to_int v = let n = to_unsigned v in if leb n int_max then pos n else negsuc (uint_max - n)

-- `s->field[0] ? s->field : NULL`
abbrev pub if_set : Bytes → Option Bytes
if_set [] = none
if_set (c ∷ s) = some (c ∷ s)

-- What a setter does with the result of a chain of comparisons.
abbrev pub store_choice {ℓ κ} :
    {A : Type ℓ} {B : Type κ} → A → Error → (B → A) → Option B → Outcome A
store_choice t e put none = (some e, t)
store_choice t e put (some choice) = (none, put choice)

-- What a setter does with the result of `strtonum`.
abbrev pub store_number {ℓ} : {A : Type ℓ} → A → (ℤ → A) → Option NumError × ℤ → Outcome A
store_number t cast (none, num) = (none, cast num)
store_number t cast (some errstr, num) = (some (number errstr), t)

-- SET_UINTNUM
unfoldable pub set_uintnum : ℕ → Option Bytes → Outcome ℕ
unfolding strtonum to_unsigned
set_uintnum t s =
    unless_empty t s (λ s. store_number t to_unsigned (strtonum s (pos 0) (pos uint_max)))

-- SET_INTNUM
unfoldable pub set_intnum : ℤ → Option Bytes → Outcome ℤ
unfolding strtonum to_int
set_intnum t s =
    unless_empty t s (λ s. store_number t to_int (strtonum s (negsuc int_max) (pos int_max)))

-- CHECKPH_PROHIBITED
unfoldable pub checkph_prohibited : Bytes → Bytes → Option Error
unfolding strstr
checkph_prohibited s p = elim (strstr s p) [
  | none ↦ none
  | some c ↦ some (prohibited_placeholder p)
]

-- CHECKPH_DUPLICATE
unfoldable pub checkph_duplicate : Bytes → Bytes → Option Error
unfolding strstr
checkph_duplicate s p = elim (strstr s p) [
  | none ↦ none
  | some c ↦ elim (strstr (drop (length p) c) p) [
    | none ↦ none
    | some d ↦ some (duplicate_placeholder p)
  ]
]

-- CHECKPH_REQUIRED
unfoldable pub checkph_required : Bytes → Bytes → Option Error
unfolding strstr
checkph_required s p = elim (strstr s p) [ none ↦ some (missing_placeholder p) | some c ↦ none ]

-- Tests one after the other, up to the first that fails.
abbrev pub first_error : List (Option Error) → Option Error
first_error [] = none
first_error (none ∷ es) = first_error es
first_error (some e ∷ es) = some e

-- src/cfg.h
abbrev pub placeholder_metadata : Bytes
placeholder_metadata = codes "@M@"

abbrev pub placeholder_artist : Bytes
placeholder_artist = codes "@a@"

abbrev pub placeholder_album : Bytes
placeholder_album = codes "@b@"

abbrev pub placeholder_title : Bytes
placeholder_title = codes "@t@"

abbrev pub placeholder_track : Bytes
placeholder_track = codes "@T@"

abbrev pub placeholder_string : Bytes
placeholder_string = codes "@s@"
