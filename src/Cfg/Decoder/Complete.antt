-- ===== src/Cfg/Decoder/Complete.antt =====
-- When a decoder is complete.
use mathlib.Core.Option.{none-ne-some, some-injective}
use mathlib.Core.Path.{subst}
use ezstream.Prelude.{
  ◌≡◌, refl, sym, ap, ◌≢◌, ◌↔◌, Option, none, some, List, [], ◌∷◌, arith, length,
}
use ezstream.CString.{Bytes}
use ezstream.Cfg.{
  placeholder_metadata, placeholder_artist, placeholder_title, placeholder_track,
  placeholder_string, program_not_set, no_extensions,
}
use ezstream.Cfg.Placeholders.{
  Occurs, Twice, checkph_prohibited_iff, checkph_required_iff, checkph_duplicate_iff,
  first_error_iff,
}
use ezstream.Cfg.Decoder.{
  Decoder, decoder_checks, check_decoder_program, check_decoder, cfg_decoder_validate,
}

-- The command of a decoder names the track, and repeats no placeholder that may stand once.
abbrev pub DecoderCommand : Bytes → Type 0
DecoderCommand p =
    (Occurs placeholder_string p → ⊥)
    × (Twice placeholder_track p → ⊥)
    × (Twice placeholder_metadata p → ⊥)
    × (Twice placeholder_artist p → ⊥)
    × (Twice placeholder_title p → ⊥)
    × Occurs placeholder_track p

check_decoder_program_iff : (p : Bytes) → (check_decoder_program p ≡ none) ↔ DecoderCommand p
unfolding check_decoder_program
check_decoder_program_iff p =
    let s = checkph_prohibited_iff p placeholder_string in
    let t = checkph_duplicate_iff p placeholder_track in
    let m = checkph_duplicate_iff p placeholder_metadata in
    let a = checkph_duplicate_iff p placeholder_artist in
    let l = checkph_duplicate_iff p placeholder_title in
    let r = checkph_required_iff p placeholder_track in
    (
      λ h.
          let (hs, (ht, (hm, (ha, (hl, (hr, _)))))) = (first_error_iff (decoder_checks p)).0 h in
          (s.0 hs, t.0 ht, m.0 hm, a.0 ha, l.0 hl, r.0 hr),
      λ (hs, ht, hm, ha, hl, hr).
          (first_error_iff (decoder_checks p)).1
            (s.1 hs, (t.1 ht, (m.1 hm, (a.1 ha, (l.1 hl, (r.1 hr, tt)))))),
    )

check_decoder_iff :
    (program : Option Bytes) (exts : List Bytes)
    → (check_decoder program exts ≡ none)
      ↔ ((p : Bytes) × (program ≡ some p) × (exts ≢ []) × DecoderCommand p)
check_decoder_iff none exts =
    (λ h. absurd (none-ne-some program_not_set (sym h)), λ (p, e, _, _). absurd (none-ne-some p e))
check_decoder_iff (some program) [] = (
  λ h. absurd (none-ne-some no_extensions (sym h)),
  λ (p, e, nonempty, _). absurd (nonempty refl),
)
check_decoder_iff (some program) (e ∷ exts) =
    let (there, back) = check_decoder_program_iff program in
    (
      λ h. (program, refl, λ empty_eq. omega (arith, ap length empty_eq), there h),
      λ (p, same, _, command).
          back (subst DecoderCommand (sym (some-injective program p same)) command),
    )

-- A decoder is complete exactly if it has a command and at least one extension, and the command
-- contains the track placeholder once, the metadata, artist and title placeholders once at most,
-- and the string placeholder not at all.
pub decoder_validate_iff :
    (d : Decoder)
    → (cfg_decoder_validate d ≡ none)
      ↔ ((p : Bytes) × (d.program ≡ some p) × (d.exts ≢ []) × DecoderCommand p)
unfolding cfg_decoder_validate
decoder_validate_iff d = check_decoder_iff d.program d.exts
