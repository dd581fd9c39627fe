-- ===== src/Cfg/Encoder/Complete.antt =====
-- When an encoder is complete.
use mathlib.Core.Path.{subst}
use mathlib.Core.Option.{none-ne-some, some-injective}
use ezstream.Prelude.{◌≡◌, refl, sym, ◌≢◌, ◌↔◌, Option, none, some}
use ezstream.CString.{Bytes}
use ezstream.Cfg.{
  placeholder_metadata, placeholder_artist, placeholder_title, placeholder_track,
  placeholder_string, format_missing, program_not_set,
}
use ezstream.Cfg.Placeholders.{
  Occurs, Twice, checkph_prohibited_iff, checkph_duplicate_iff, first_error_iff,
}
use ezstream.Cfg.Stream.{Format, missing_format, unset_format, ogg, mp3, webm, matroska}
use ezstream.Cfg.Encoder.{
  Encoder, encoder_checks, check_encoder_program, check_program, check_encoder,
  cfg_encoder_validate,
}

-- The command of an encoder names no track, and repeats no placeholder that may stand once.
abbrev pub EncoderCommand : Bytes → Type 0
EncoderCommand p =
    (Occurs placeholder_track p → ⊥)
    × (Occurs placeholder_string p → ⊥)
    × (Twice placeholder_metadata p → ⊥)
    × (Twice placeholder_artist p → ⊥)
    × (Twice placeholder_title p → ⊥)

check_encoder_program_iff : (p : Bytes) → (check_encoder_program p ≡ none) ↔ EncoderCommand p
unfolding check_encoder_program
check_encoder_program_iff p =
    let t = checkph_prohibited_iff p placeholder_track in
    let s = checkph_prohibited_iff p placeholder_string in
    let m = checkph_duplicate_iff p placeholder_metadata in
    let a = checkph_duplicate_iff p placeholder_artist in
    let l = checkph_duplicate_iff p placeholder_title in
    (
      λ h.
          let (ht, (hs, (hm, (ha, (hl, _))))) = (first_error_iff (encoder_checks p)).0 h in
          (t.0 ht, s.0 hs, m.0 hm, a.0 ha, l.0 hl),
      λ (ht, hs, hm, ha, hl).
          (first_error_iff (encoder_checks p)).1
            (t.1 ht, (s.1 hs, (m.1 hm, (a.1 ha, (l.1 hl, tt))))),
    )

check_program_iff :
    (program : Option Bytes)
    → (check_program program ≡ none) ↔ ((p : Bytes) × (program ≡ some p) × EncoderCommand p)
check_program_iff none =
    (λ h. absurd (none-ne-some program_not_set (sym h)), λ (p, e, _). absurd (none-ne-some p e))
check_program_iff (some program) =
    let (there, back) = check_encoder_program_iff program in
    (
      λ h. (program, refl, there h),
      λ (p, same, command).
          back (subst EncoderCommand (sym (some-injective program p same)) command),
    )

abbrev Ready : Format → Option Bytes → Type 0
Ready f program = (f ≢ unset_format) × ((p : Bytes) × (program ≡ some p) × EncoderCommand p)

with_format :
    (f : Format) (program : Option Bytes)
    → f ≢ unset_format
    → (check_program program ≡ none) ↔ Ready f program
with_format f program known =
    let (there, back) = check_program_iff program in (λ h. (known, there h), λ (_, h). back h)

check_encoder_iff :
    (f : Format) (program : Option Bytes)
    → (check_encoder (missing_format f) program ≡ none) ↔ Ready f program
check_encoder_iff unset_format program =
    (λ h. absurd (none-ne-some format_missing (sym h)), λ (known, _). absurd (known refl))
check_encoder_iff ogg program = with_format ogg program (λ e. cc)
check_encoder_iff mp3 program = with_format mp3 program (λ e. cc)
check_encoder_iff webm program = with_format webm program (λ e. cc)
check_encoder_iff matroska program = with_format matroska program (λ e. cc)

-- An encoder is complete exactly if its format is set and it has a command, and the command
-- contains the metadata, artist and title placeholders once at most, and the track and string
-- placeholders not at all.
pub encoder_validate_iff :
    (e : Encoder)
    → (cfg_encoder_validate e ≡ none)
      ↔ ((e.format ≢ unset_format) × ((p : Bytes) × (e.program ≡ some p) × EncoderCommand p))
unfolding cfg_encoder_validate
encoder_validate_iff e = check_encoder_iff e.format e.program
