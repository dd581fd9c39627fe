-- ===== src/Cfg/Decoder/Match.antt =====
-- `cfg_decoder_add_match`: every extension belongs to one decoder.
use mathlib.Core.Path.{subst}
use ezstream.Prelude.{
  All-append, ℕ, zero, suc, ◌<◌, ◌≡◌, refl, sym, ap, ◌∙◌, ◌⊎◌, inl, inr, true, false, Option, none,
  some, List, [], ◌∷◌, ◌++◌, append_assoc, arith, Bool-cases, Option-cases, length, get_elem?, All,
  update, length-update,
}
use ezstream.CString.{Bytes, str_case_eq}
use ezstream.CString.Case.{str_case_eq_refl, str_case_eq_sym}
use ezstream.Cfg.Decoder.{
  Decoder, has_ext, cfg_decoder_list_findext, take_ext, insert_ext, cfg_decoder_add_match,
}
use ezstream.Cfg.Decoder.Extensions.{
  Other, Distinct, all_exts, All-Other-cong, Around, take_ext_lem, has_ext-none, Around-append,
  append-Around, Distinct-with, Distinct-without,
}

-- Without the entry for `ext`, if there is one: the entry to insert, and the decoders.
abbrev pub Detached : Bytes → List Decoder → Bytes → List Decoder → Type 0
Detached ext dl e dl' =
    (str_case_eq e ext ≡ true)
    × (length dl' ≡ length dl)
    × (((dl' ≡ dl) × All (Other ext) (all_exts dl)) ⊎ Around e (all_exts dl) (all_exts dl'))

detach_here :
    (d : Decoder) (dl : List Decoder) (e : Bytes) (rest : List Bytes)
    → Around e d.exts rest
    → Around e (all_exts (d ∷ dl)) (all_exts (record d { exts = rest } ∷ dl))
detach_here d dl e rest h = Around-append e d.exts rest (all_exts dl) h

findext-none :
    (dl : List Decoder) (ext : Bytes)
    → cfg_decoder_list_findext dl ext ≡ none
    → All (Other ext) (all_exts dl)
unfolding cfg_decoder_list_findext
findext-none [] ext h = tt
findext-none (d ∷ dl) ext h = elim (Option-cases (cfg_decoder_list_findext dl ext)) [
  | inl e ↦
      All-append (Other ext) d.exts (all_exts dl) (has_ext-none d.exts ext (ground (arith, e)))
        (findext-none dl ext e)
  | inr (j, e) ↦ absurd (ground (arith, e))
]

-- The decoder at `j` has an entry for the extension.
abbrev FoundAt : List Decoder → Bytes → ℕ → Type 0
FoundAt dl ext j =
    (d : Decoder) × (e : Bytes) × (rest : List Bytes) × (get_elem? dl j ≡ some d)
    × (take_ext d.exts ext ≡ some (e, rest))
    × (str_case_eq e ext ≡ true)
    × Around e (all_exts dl) (all_exts (update dl j (λ d. record d { exts = rest })))

findext-some :
    (dl : List Decoder) (ext : Bytes) (j : ℕ)
    → cfg_decoder_list_findext dl ext ≡ some j
    → FoundAt dl ext j
unfolding cfg_decoder_list_findext
findext-some [] ext j h = cc
findext-some (d ∷ dl) ext j h = elim (Bool-cases (has_ext d.exts ext)) [
  | inl e ↦
      let (f, rest, taken, same, around) = take_ext_lem d.exts ext e in
      let z : j ≡ 0 = ground (arith, e) in
      subst (FoundAt (d ∷ dl) ext) (sym z)
        (d, f, rest, refl, taken, same, detach_here d dl f rest around)
  | inr e ↦ elim (Option-cases (cfg_decoder_list_findext dl ext)) [
    | inl f ↦ absurd (ground (arith, e, f))
    | inr (k, f) ↦
        let (d', g, rest, at, taken, same, around) = findext-some dl ext k f in
        let z : j ≡ suc k = ground (arith, e, f) in
        subst (FoundAt (d ∷ dl) ext) (sym z)
          (d', g, rest, at, taken, same, append-Around g d.exts _ _ around)
  ]
]

-- What `cfg_decoder_add_match` does to the decoders before it inserts the entry.
add_match-Detached :
    (i : ℕ) (dl : List Decoder) (c : ℕ) (str : Bytes)
    → (e : Bytes) × (dl' : List Decoder) × Detached (c ∷ str) dl e dl'
      × (cfg_decoder_add_match i dl (some (c ∷ str)) ≡ (none, insert_ext i dl' e))
unfolding cfg_decoder_add_match
add_match-Detached i dl c str = elim (Option-cases (cfg_decoder_list_findext dl (c ∷ str))) [
  | inl h ↦ (
    c ∷ str,
    dl,
    (str_case_eq_refl (c ∷ str), refl, inl (refl, findext-none dl (c ∷ str) h)),
    ground (arith, h),
  )
  | inr (j, h) ↦
      let (d, e, rest, at, taken, same, around) = findext-some dl (c ∷ str) j h in
      (
        e,
        update dl j (λ d. record d { exts = rest }),
        (same, length-update dl j (λ d. record d { exts = rest }), inr around),
        ground (arith, h, at, taken),
      )
]

insert-Around :
    (i : ℕ) (dl : List Decoder) (e : Bytes)
    → i < length dl
    → Around e (all_exts (insert_ext i dl e)) (all_exts dl)
insert-Around i [] e room = elim room [ ]
insert-Around zero (d ∷ dl) e room = record {
  before = d.exts;
  behind = all_exts dl;
  whole_eq = append_assoc d.exts (e ∷ []) (all_exts dl);
  rest_eq = refl;
}
insert-Around (suc i) (d ∷ dl) e room =
    append-Around e d.exts _ _ (insert-Around i dl e (omega arith))

-- Once the entry for the extension is gone, no decoder has the extension.
Detached-clean :
    (ext e : Bytes) (dl dl' : List Decoder)
    → Detached ext dl e dl'
    → Distinct (all_exts dl)
    → Distinct (all_exts dl') × All (Other ext) (all_exts dl')
Detached-clean ext e dl dl' (same, _, inl (unchanged, other)) h =
    subst (λ l. Distinct (all_exts l) × All (Other ext) (all_exts l)) (sym unchanged) (h, other)
Detached-clean ext e dl dl' (same, _, inr around) h =
    let (fewer, other) = Distinct-without e _ _ around h in
    (fewer, All-Other-cong e ext (all_exts dl') same other)

-- `cfg_decoder_add_match` keeps all extensions of all decoders different: none is listed twice,
-- neither with one decoder nor with two.
pub add_match-Distinct :
    (i : ℕ) (dl : List Decoder) (ext : Option Bytes)
    → i < length dl
    → Distinct (all_exts dl)
    → Distinct (all_exts (cfg_decoder_add_match i dl ext).1)
unfolding cfg_decoder_add_match
add_match-Distinct i dl none room h = h
add_match-Distinct i dl (some []) room h = h
add_match-Distinct i dl (some (c ∷ str)) room h =
    let (e, dl', detached, result) = add_match-Detached i dl c str in
    let (fewer, other) = Detached-clean (c ∷ str) e dl dl' detached h in
    let inserted = insert-Around i dl' e (omega (arith, detached.1)) in
    subst (λ r. Distinct (all_exts r.1)) (sym result)
      (Distinct-with e _ _ inserted fewer
        (All-Other-cong (c ∷ str) e (all_exts dl') (str_case_eq_sym e (c ∷ str) detached.0) other))

has_ext_end :
    (exts : List Bytes) (e ext : Bytes)
    → str_case_eq e ext ≡ true
    → has_ext (exts ++ e ∷ []) ext ≡ true
unfolding has_ext
has_ext_end [] e ext h = ground (arith, h)
has_ext_end (x ∷ exts) e ext h = ground (arith, has_ext_end exts e ext h)

has_no_ext :
    (exts rest : List Bytes) (ext : Bytes)
    → All (Other ext) (exts ++ rest)
    → (has_ext exts ext ≡ false) × All (Other ext) rest
unfolding has_ext
has_no_ext [] rest ext h = (refl, h)
has_no_ext (x ∷ exts) rest ext (hx, h) =
    let (lacks, later) = has_no_ext exts rest ext h in (ground (arith, hx, lacks), later)

findext-insert :
    (i : ℕ) (dl : List Decoder) (e ext : Bytes)
    → i < length dl
    → str_case_eq e ext ≡ true
    → All (Other ext) (all_exts dl)
    → cfg_decoder_list_findext (insert_ext i dl e) ext ≡ some i
unfolding cfg_decoder_list_findext
findext-insert i [] e ext room same h = elim room [ ]
findext-insert zero (d ∷ dl) e ext room same h = ground (arith, has_ext_end d.exts e ext same)
findext-insert (suc i) (d ∷ dl) e ext room same h =
    let (lacks, later) = has_no_ext d.exts (all_exts dl) ext h in
    ground (arith, lacks, findext-insert i dl e ext (omega arith) same later)

-- After `cfg_decoder_add_match` with an extension that is not empty, the decoder is the one that is
-- found for it, whichever decoder had it before.
pub add_match-findext :
    (i : ℕ) (dl : List Decoder) (c : ℕ) (str : Bytes)
    → i < length dl
    → Distinct (all_exts dl)
    → ((cfg_decoder_add_match i dl (some (c ∷ str))).0 ≡ none)
      × (cfg_decoder_list_findext (cfg_decoder_add_match i dl (some (c ∷ str))).1 (c ∷ str)
          ≡ some i)
add_match-findext i dl c str room h =
    let (e, dl', detached, result) = add_match-Detached i dl c str in
    let (_, other) = Detached-clean (c ∷ str) e dl dl' detached h in
    (
      ap (λ r. r.0) result,
      ap (λ r. cfg_decoder_list_findext r.1 (c ∷ str)) result
          ∙ findext-insert i dl' e (c ∷ str) (omega (arith, detached.1)) detached.0 other,
    )
