-- ===== src/Cfg/Global/Settings.antt =====
-- src/cfg.c: the settings of the metadata.

use ezstream.Prelude.{ℕ, ◌≡◌, ap, ◌↔◌, inl, inr, Option, none, some, List, [], ◌∷◌, Option-cases}
use ezstream.CString.{Bytes}
use ezstream.Cfg.{
  path_max, Error, Outcome, unless_empty, set_strlcpy, set_boolean, set_intnum, checkph_prohibited,
  checkph_duplicate, first_error, placeholder_metadata, placeholder_artist, placeholder_title,
  placeholder_track, placeholder_string,
}
use ezstream.Cfg.Placeholders.{
  Occurs, Twice, checkph_prohibited_iff, checkph_duplicate_iff, first_error_iff,
}
use ezstream.Cfg.Global.{Metadata}

unfoldable pub cfg_set_metadata_program : Metadata → Option Bytes → Outcome Metadata
unfolding set_strlcpy
cfg_set_metadata_program m program =
    let (e, t) = set_strlcpy path_max m.program program in (e, record m { program = t })

abbrev pub format_checks : Bytes → List (Option Error)
format_checks format_str =
    checkph_prohibited format_str placeholder_metadata
    ∷ checkph_duplicate format_str placeholder_track
    ∷ checkph_duplicate format_str placeholder_string
    ∷ checkph_duplicate format_str placeholder_artist
    ∷ checkph_duplicate format_str placeholder_title
    ∷ []

-- `t` with the new string, unless a test failed.
abbrev pub store_checked {ℓ} : {A : Type ℓ} → A → A → Option Error → Outcome A
store_checked t u none = (none, u)
store_checked t u (some e) = (some e, t)

unfoldable pub cfg_set_metadata_format_str : Metadata → Option Bytes → Outcome Metadata
unfolding checkph_prohibited checkph_duplicate
cfg_set_metadata_format_str m format_str =
    unless_empty m format_str (λ str.
      store_checked m (record m { format_str = some str }) (first_error (format_checks str)))

unfoldable pub cfg_set_metadata_refresh_interval : Metadata → Option Bytes → Outcome Metadata
unfolding set_intnum
cfg_set_metadata_refresh_interval m num_str =
    let (e, n) = set_intnum m.refresh_interval num_str in (e, record m { refresh_interval = n })

unfoldable pub cfg_set_metadata_normalize_strings : Metadata → Option Bytes → Outcome Metadata
unfolding set_boolean
cfg_set_metadata_normalize_strings m normalize_strings =
    let (e, t) = set_boolean m.normalize_strings normalize_strings in
    (e, record m { normalize_strings = t })

unfoldable pub cfg_set_metadata_no_updates : Metadata → Option Bytes → Outcome Metadata
unfolding set_boolean
cfg_set_metadata_no_updates m no_updates =
    let (e, t) = set_boolean m.no_updates no_updates in (e, record m { no_updates = t })

abbrev pub FormatString : Bytes → Type 0
FormatString s =
    (Occurs placeholder_metadata s → ⊥)
    × (Twice placeholder_track s → ⊥)
    × (Twice placeholder_string s → ⊥)
    × (Twice placeholder_artist s → ⊥)
    × (Twice placeholder_title s → ⊥)

format_checks_iff : (s : Bytes) → (first_error (format_checks s) ≡ none) ↔ FormatString s
format_checks_iff p =
    let m = checkph_prohibited_iff p placeholder_metadata in
    let t = checkph_duplicate_iff p placeholder_track in
    let s = checkph_duplicate_iff p placeholder_string in
    let a = checkph_duplicate_iff p placeholder_artist in
    let l = checkph_duplicate_iff p placeholder_title in
    (
      λ h.
          let (hm, (ht, (hs, (ha, (hl, _))))) = (first_error_iff (format_checks p)).0 h in
          (m.0 hm, t.0 ht, s.0 hs, a.0 ha, l.0 hl),
      λ (hm, ht, hs, ha, hl).
          (first_error_iff (format_checks p)).1
            (m.1 hm, (t.1 ht, (s.1 hs, (a.1 ha, (l.1 hl, tt))))),
    )

stored_if :
    (m : Metadata) (str : Bytes)
    → FormatString str
    → store_checked m (record m { format_str = some str }) (first_error (format_checks str))
      ≡ (none, record m { format_str = some str })
stored_if m str good =
    ap (store_checked m (record m { format_str = some str })) ((format_checks_iff str).1 good)

refused_if :
    (m : Metadata) (str : Bytes)
    → (FormatString str → ⊥)
    → (e : Error) × (store_checked m
          (record m { format_str = some str })
          (first_error (format_checks str))
        ≡ (some e, m))
refused_if m str bad = elim (Option-cases (first_error (format_checks str))) [
  | inl h ↦ absurd (bad ((format_checks_iff str).0 h))
  | inr (e, h) ↦ (e, ap (store_checked m (record m { format_str = some str })) h)
]

-- A format string that is not empty is stored exactly if it does not contain the metadata
-- placeholder and contains the track, string, artist and title placeholders once at most;
-- otherwise the settings are unchanged.
pub set_format_str_iff :
    (m : Metadata) (c : ℕ) (s : Bytes)
    → (FormatString (c ∷ s)
        → cfg_set_metadata_format_str m (some (c ∷ s))
          ≡ (none, record m { format_str = some (c ∷ s) }))
      × ((FormatString (c ∷ s) → ⊥)
          → (e : Error) × (cfg_set_metadata_format_str m (some (c ∷ s)) ≡ (some e, m)))
unfolding cfg_set_metadata_format_str
set_format_str_iff m c s = (stored_if m (c ∷ s), refused_if m (c ∷ s))
