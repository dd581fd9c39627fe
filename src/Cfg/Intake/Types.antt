-- ===== src/Cfg/Intake/Types.antt =====
-- The type of an intake, as a text and as a value, and when an intake is complete.
use mathlib.Core.Option.{none-ne-some}
use ezstream.Prelude.{◌≡◌, refl, sym, ap, ◌≢◌, ◌↔◌, Option, none, some, [], ◌∷◌, arith, length}
use ezstream.CString.{Bytes}
use ezstream.Cfg.{Error, if_set, filename_missing}
use ezstream.Cfg.Intake.{
  IntakeType, Intake, cfg_intake_set_type, check_filename, cfg_intake_validate, type_str,
  cfg_intake_get_type_str, autodetect, file, playlist, program, stdin,
}

set_type_str :
    (i : Intake) (t : IntakeType)
    → cfg_intake_set_type i (some (type_str t)) ≡ (none, record i { intake_type = t })
unfolding cfg_intake_set_type
set_type_str i autodetect = refl
set_type_str i file = refl
set_type_str i playlist = refl
set_type_str i program = refl
set_type_str i stdin = refl

-- Setting the type to the text of an intake's type succeeds and changes nothing.
pub type_roundtrip :
    (i : Intake) → cfg_intake_set_type i (some (cfg_intake_get_type_str i)) ≡ (none, i)
unfolding cfg_intake_get_type_str
type_roundtrip i = set_type_str i i.intake_type

nameless :
    (t : IntakeType)
    → t ≢ stdin
    → (◌≡◌ {A = Option Error} (some filename_missing) none) ↔ (◌≡◌ {A = Bytes} [] [] → t ≡ stdin)
nameless t other =
    (λ h. absurd (none-ne-some filename_missing (sym h)), λ k. absurd (other (k refl)))

check_filename_iff :
    (name : Bytes) (t : IntakeType)
    → (check_filename (if_set name) t ≡ none) ↔ ((name ≡ [] → t ≡ stdin))
check_filename_iff [] stdin = (λ _ _. refl, λ _. refl)
check_filename_iff [] autodetect = nameless autodetect (λ e. cc)
check_filename_iff [] file = nameless file (λ e. cc)
check_filename_iff [] playlist = nameless playlist (λ e. cc)
check_filename_iff [] program = nameless program (λ e. cc)
check_filename_iff (c ∷ s) t = (λ _ e. absurd (omega (arith, ap length e)), λ _. refl)

-- An intake is complete exactly if it has a file name or is the standard input.
pub intake_validate_iff :
    (i : Intake) → (cfg_intake_validate i ≡ none) ↔ (i.filename ≡ [] → i.intake_type ≡ stdin)
unfolding cfg_intake_validate
intake_validate_iff i = check_filename_iff i.filename i.intake_type
