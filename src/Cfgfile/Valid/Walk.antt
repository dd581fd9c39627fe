-- ===== src/Cfgfile/Valid/Walk.antt =====
-- src/cfgfile_xml.c: the walk over the nodes of one section.
use mathlib.Core.Path.{subst}
use mathlib.Core.Option.{some-injective}
use mathlib.Core.Bool.{true≢false}
use ezstream.Prelude.{
  ℕ, ◌≡◌, refl, sym, ap, ◌∙◌, inl, inr, Bool, true, false, Option, none, some, List, [], ◌∷◌, ◌++◌,
  Option-cases, length, get_elem?, set, All, if_elim,
}
use ezstream.CString.{Bytes}
use ezstream.Cfg.{Error, Outcome}
use ezstream.Cfg.Names.{list_get, list_find}
use ezstream.Cfg.Names.Reach.{Reach, list_get_found, list_get_new, got}
use ezstream.Cfgfile.{
  Node, Nodes, name_of, value_of, children_of, Libxml, and_then, succeeded, each, Setter, Kind,
  cfg_default, set_fields, is_valid, parse_at, with_element, parse_element, parse_if_tagged,
  parse_elements, no_more, next,
}
use ezstream.Cfgfile.Valid.{
  AllBut, All→AllBut, append-AllBut, AllBut→All, Step, IsCareful, same_list, then_step, Kept,
}

module _ {ℓ} {A : Type ℓ} (lib : Libxml) (kind : Kind A) (P : A → Type 0) where
  abbrev pub AllCareful : List (Bytes × Setter A) → Type ℓ
  AllCareful [] = Unit
  AllCareful ((key, set) ∷ setters) = IsCareful kind.named P set × AllCareful setters

  two_steps :
      (i : ℕ) (l : List A) (r : Bool × List A) (f : List A → Bool × List A)
      → Step kind.named P i l r.1
      → ((l' : List A) → Step kind.named P i l' (f l').1)
      → Step kind.named P i l (and_then r f).1
  two_steps i l (false, l') f s t = s
  two_steps i l (true, l') f s t = then_step kind.named P i l l' (f l').1 s (t l')

  succeeded-Step :
      (i : ℕ) (l : List A) (o : Outcome (List A))
      → Step kind.named P i l o.1
      → Step kind.named P i l (succeeded o).1
  succeeded-Step i l (none, l') s = s
  succeeded-Step i l (some e, l') s = s

  set_fields-Step :
      (setters : List (Bytes × Setter A))
      → AllCareful setters
      → (n : Node) (i : ℕ) (l : List A) → Step kind.named P i l (set_fields lib setters n i l).1
  unfolding set_fields
  set_fields-Step [] careful n i l = same_list kind.named P i l
  set_fields-Step ((key, set) ∷ setters) (first, careful) n i l =
      if_elim {A = Bool × List A} (λ r. Step kind.named P i l r.1) (lib.same_name (name_of n) key)
        (two_steps i l (succeeded (set i l (value_of n))) (set_fields lib setters n i)
          (succeeded-Step i l (set i l (value_of n)) (first i l (value_of n)))
          (set_fields-Step setters careful n i))
        (set_fields-Step setters careful n i l)

  fields_loop-Step :
      AllCareful kind.setters
      → (ns : Nodes) (i : ℕ) (l : List A)
      → Step kind.named P i l (each (λ c. set_fields lib kind.setters c i) ns l).1
  unfolding each
  fields_loop-Step careful no_more i l = same_list kind.named P i l
  fields_loop-Step careful (next n ns) i l =
      two_steps i l (set_fields lib kind.setters n i l)
        (each (λ c. set_fields lib kind.setters c i) ns)
        (set_fields-Step kind.setters careful n i l) (fields_loop-Step careful ns i)

  is_valid-none : (o : Option Error) → elim o [ none ↦ true | some e ↦ false ] ≡ true → o ≡ none
  is_valid-none none h = refl
  is_valid-none (some e) h = absurd (true≢false (sym h))

  module _ (careful : AllCareful kind.setters)
      (valid : (a : A) → kind.validate a ≡ none → P a) where
    valid_here :
        (i : ℕ) (l : List A) (o : Option A)
        → get_elem? l i ≡ o
        → is_valid lib kind o ≡ true
        → AllBut P i l
        → All P l
    valid_here i l none at ok h = absurd (true≢false (sym ok))
    valid_here i l (some a) at ok h =
        AllBut→All P i l a h at (valid a (is_valid-none (kind.validate a) ok))

    checked-Kept :
        (i : ℕ) (l l0 : List A) (r : Bool × List A)
        → (Reach kind.named l0 → Reach kind.named l)
        → (All P l0 → AllBut P i l)
        → Step kind.named P i l r.1
        → Kept kind.named P l0 (and_then r (λ l. (is_valid lib kind (get_elem? l i), l)))
    checked-Kept i l l0 (false, l') got_reach got_others s = record {
      reach = λ r. s.reach (got_reach r);
      complete = λ e h. absurd (true≢false (sym e));
    }
    checked-Kept i l l0 (true, l') got_reach got_others s = record {
      reach = λ r. s.reach (got_reach r);
      complete = λ e h. valid_here i l' (get_elem? l' i) refl e (s.others (got_others h));
    }

    parse_at-Kept :
        (n : Node) (i : ℕ) (l l0 : List A)
        → (Reach kind.named l0 → Reach kind.named l)
        → (All P l0 → AllBut P i l)
        → Kept kind.named P l0 (parse_at lib kind n i l)
    unfolding parse_at
    parse_at-Kept n i l l0 got_reach got_others =
        checked-Kept i l l0 (each (λ c. set_fields lib kind.setters c i) (children_of n) l)
          got_reach got_others (fields_loop-Step careful (children_of n) i l)

    with_element-Kept :
        (n : Node) (l : List A) (r : List A × Option ℕ)
        → (Reach kind.named l → Reach kind.named r.0)
        → ((i : ℕ) → r.1 ≡ some i → All P l → AllBut P i r.0)
        → Kept kind.named P l (with_element lib kind r (parse_at lib kind n))
    with_element-Kept n l (l', none) got_reach got_others = record {
      reach = got_reach;
      complete = λ e h. absurd (true≢false (sym e));
    }
    with_element-Kept n l (l', some i) got_reach got_others =
        parse_at-Kept n i l' l got_reach (got_others i refl)

    default_others :
        (l : List A) (i : ℕ)
        → (list_get kind.named l cfg_default).1 ≡ some i
        → All P l
        → AllBut P i (list_get kind.named l cfg_default).0
    default_others l i at h = elim (Option-cases (list_find kind.named l cfg_default)) [
      | inr (j, e) ↦
          subst (λ r. AllBut P i r.0) (sym (list_get_found kind.named l cfg_default j e))
            (All→AllBut P i l h)
      | inl e ↦
          let new = list_get_new kind.named l _ _ e in
          let index : length l ≡ i = some-injective (length l) i (sym (ap (λ r. r.1) new) ∙ at) in
          subst (λ r. AllBut P i r.0) (sym new)
            (subst (λ j. AllBut P j (l ++ kind.named.fresh cfg_default ∷ [])) index
              (append-AllBut P l (kind.named.fresh cfg_default) h))
    ]

    parse_element-Kept : (n : Node) (l : List A) → Kept kind.named P l (parse_element lib kind n l)
    unfolding parse_element
    parse_element-Kept n l =
        with_element-Kept n l (list_get kind.named l cfg_default) (λ r. got cfg_default r)
          (default_others l)

    then-Kept :
        (l : List A) (r : Bool × List A) (f : List A → Bool × List A)
        → Kept kind.named P l r
        → ((l' : List A) → Kept kind.named P l' (f l'))
        → Kept kind.named P l (and_then r f)
    then-Kept l (false, l') f k m = k
    then-Kept l (true, l') f k m = record {
      reach = λ r. (m l').reach (k.reach r);
      complete = λ e h. (m l').complete e (k.complete refl h);
    }

    same-Kept : (l : List A) → Kept kind.named P l (true, l)
    same-Kept l = record { reach = λ r. r; complete = λ e h. h }

    parse_if_tagged-Kept :
        (n : Node) (l : List A) → Kept kind.named P l (parse_if_tagged lib kind n l)
    unfolding parse_if_tagged
    parse_if_tagged-Kept n l =
        if_elim (Kept kind.named P l) (lib.same_name (name_of n) kind.tag) (parse_element-Kept n l)
          (same-Kept l)

    loop-Kept :
        (ns : Nodes) (l : List A) → Kept kind.named P l (each (parse_if_tagged lib kind) ns l)
    unfolding each
    loop-Kept no_more l = same-Kept l
    loop-Kept (next n ns) l =
        then-Kept l (parse_if_tagged lib kind n l) (each (parse_if_tagged lib kind) ns)
          (parse_if_tagged-Kept n l) (loop-Kept ns)

    pub parse_elements-Kept :
        (n : Node) (l : List A) → Kept kind.named P l (parse_elements lib kind n l)
    unfolding parse_elements
    parse_elements-Kept n l = loop-Kept (children_of n) l
