-- ===== src/Cfgfile/Careful/Decoders.antt =====
-- src/cfgfile_xml.c: the setters of decoders, one of which takes extensions from other decoders.
use mathlib.Core.Path.{subst}
use mathlib.Core.Option.{none-ne-some}
use ezstream.Prelude.{
  ℕ, ◌≡◌, refl, sym, inl, inr, Option, none, some, List, [], ◌∷◌, ◌++◌, arith, Option-cases,
  get_elem?, update,
}
use ezstream.CString.{Bytes}
use ezstream.Cfg.{Outcome}
use ezstream.Cfgfile.{Libxml}
use ezstream.Cfgfile.Settings.{decoder_kind}
use ezstream.Cfg.Names.Reach.{changed}
use ezstream.Cfg.Decoder.{
  Decoder, named_decoder, take_ext, insert_ext, cfg_decoder_list_findext, cfg_decoder_set_name,
  cfg_decoder_set_program, cfg_decoder_add_match, cfg_decoder_validate, check_decoder,
  check_decoder_program,
}
use ezstream.Cfgfile.Valid.{
  Step, IsCareful, on_element-IsCareful, set_name-IsCareful, same_list, then_step, map-AllBut,
}
use ezstream.Cfgfile.Valid.Walk.{AllCareful}
use ezstream.Cfgfile.Careful.{unless_empty_name}

-- The decoder has a program whose placeholders are right.
pub record HasProgram (d : Decoder) : Type 0 where
  pub program : Bytes
  pub given : d.program ≡ some program
  pub checked : check_decoder_program program ≡ none

with_exts-HasProgram :
    (d : Decoder) (exts : List Bytes) → HasProgram d → HasProgram (record d { exts = exts })
with_exts-HasProgram d exts h = record { program = h.program; given = h.given; checked = h.checked }

pub validated-HasProgram : (d : Decoder) → cfg_decoder_validate d ≡ none → HasProgram d
unfolding cfg_decoder_validate
validated-HasProgram d h = go d.program d.exts refl h
  where
    go :
        (program : Option Bytes) (exts : List Bytes)
        → d.program ≡ program
        → check_decoder program exts ≡ none
        → HasProgram d
    go none exts e h = absurd (none-ne-some _ (sym h))
    go (some program) [] e h = absurd (none-ne-some _ (sym h))
    go (some program) (x ∷ exts) e h = record { program = program; given = e; checked = h }

change_exts-Step :
    (i j : ℕ) (dl : List Decoder) (f : Decoder → List Bytes)
    → Step named_decoder HasProgram i dl (update dl j (λ d. record d { exts = f d }))
change_exts-Step i j dl f = record {
  reach = λ r. changed j (λ d. record d { exts = f d }) (λ d. refl) r;
  others = λ h.
      map-AllBut HasProgram i j dl (λ d. record d { exts = f d })
        (λ d. with_exts-HasProgram d (f d)) h;
}

insert_ext-Step :
    (i : ℕ) (dl : List Decoder) (e : Bytes) → Step named_decoder HasProgram i dl (insert_ext i dl e)
insert_ext-Step i dl e = change_exts-Step i i dl (λ d. d.exts ++ e ∷ [])

move_ext-Step :
    (i j : ℕ) (dl : List Decoder) (rest : List Bytes) (e : Bytes)
    → Step named_decoder HasProgram i dl
        (insert_ext i (update dl j (λ d. record d { exts = rest })) e)
move_ext-Step i j dl rest e =
    then_step named_decoder HasProgram i dl (update dl j (λ d. record d { exts = rest })) _
      (change_exts-Step i j dl (λ d. rest)) (insert_ext-Step i _ e)

pub add_match_new :
    (i : ℕ) (dl : List Decoder) (c : ℕ) (ext : Bytes)
    → cfg_decoder_list_findext dl (c ∷ ext) ≡ none
    → cfg_decoder_add_match i dl (some (c ∷ ext)) ≡ (none, insert_ext i dl (c ∷ ext))
unfolding cfg_decoder_add_match
add_match_new i dl c ext f = ground (arith, f)

add_match-Step :
    (i : ℕ) (dl : List Decoder) (r s : Outcome (List Decoder))
    → r ≡ s
    → Step named_decoder HasProgram i dl s.1
    → Step named_decoder HasProgram i dl r.1
add_match-Step i dl r s e step = subst (λ r. Step named_decoder HasProgram i dl r.1) (sym e) step

add_match-IsCareful : IsCareful named_decoder HasProgram cfg_decoder_add_match
unfolding cfg_decoder_add_match
add_match-IsCareful i dl none = same_list named_decoder HasProgram i dl
add_match-IsCareful i dl (some []) = same_list named_decoder HasProgram i dl
add_match-IsCareful i dl (some (c ∷ ext)) =
    let r = cfg_decoder_add_match i dl (some (c ∷ ext)) in
    let inserted = insert_ext-Step i dl (c ∷ ext) in
    elim (Option-cases (cfg_decoder_list_findext dl (c ∷ ext))) [
      | inl f ↦ add_match-Step i dl r _ (add_match_new i dl c ext f) inserted
      | inr (j, f) ↦ elim (Option-cases (get_elem? dl j)) [
        | inl g ↦
            add_match-Step i dl r (none, insert_ext i dl (c ∷ ext)) (ground (arith, f, g)) inserted
        | inr (d, g) ↦ elim (Option-cases (take_ext d.exts (c ∷ ext))) [
          | inl t ↦
              add_match-Step i dl r (none, insert_ext i dl (c ∷ ext)) (ground (arith, f, g, t))
                inserted
          | inr ((e, rest), t) ↦
              add_match-Step i dl r
                (none, insert_ext i (update dl j (λ d. record d { exts = rest })) e)
                (ground (arith, f, g, t)) (move_ext-Step i j dl rest e)
        ]
      ]
    ]

program_name : (d : Decoder) (v : Option Bytes) → (cfg_decoder_set_program d v).1.name ≡ d.name
unfolding cfg_decoder_set_program
program_name d v = unless_empty_name (λ d. d.name) d v _ (λ str. refl)

decoder_name-IsCareful : IsCareful named_decoder HasProgram cfg_decoder_set_name
unfolding cfg_decoder_set_name
decoder_name-IsCareful = set_name-IsCareful named_decoder HasProgram

pub decoder_kind-AllCareful :
    (lib : Libxml) → AllCareful lib decoder_kind HasProgram decoder_kind.setters
decoder_kind-AllCareful lib = (
  decoder_name-IsCareful,
  (on_element-IsCareful named_decoder HasProgram _ program_name, (add_match-IsCareful, tt)),
)
