-- ===== src/Cfg/Names/Reach.antt =====
-- Every list that the operations make has different names.

use ezstream.Prelude.{
  ℕ, zero, suc, ◌<◌, ◌≡◌, refl, ap, ◌∙◌, inl, inr, true, Option, none, some, List, [], ◌∷◌, ◌++◌,
  arith, Bool-cases, Option-cases, length, get_elem?, All, update, remove, get_elem?-append,
}
use ezstream.CString.{Bytes, str_case_eq}
use ezstream.CString.Case.{str_case_eq_refl}
use ezstream.Cfg.Names.{Named, is_other, list_find, create, list_get, set_name}
use ezstream.Cfg.Names.Unique.{
  Other, Distinct, list_find-none, list_find-append, Distinct-append, All-update, Distinct-rename,
  list_find-rename,
}

module _ {ℓ} {A : Type ℓ} (named : Named A) where
  -- The lists that the operations of the five files make, one step each: getting an element by its
  -- name, renaming one, removing one, and setters that leave the name alone.
  pub data Reach : List A → Type ℓ where
    none_yet : Reach []
    got : {sl : List A} (name : Bytes) → Reach sl → Reach (list_get named sl name).0
    renamed :
        {sl : List A} (i : ℕ) (name : Option Bytes) → Reach sl → Reach (set_name named i sl name).1
    removed : {sl : List A} (i : ℕ) → Reach sl → Reach (remove sl i)
    changed :
        {sl : List A} (i : ℕ) (f : A → A)
        → ((s : A) → named.name_of (f s) ≡ named.name_of s)
        → Reach sl
        → Reach (update sl i f)

  pub list_get_found :
      (sl : List A) (name : Bytes) (i : ℕ)
      → list_find named sl name ≡ some i
      → list_get named sl name ≡ (sl, some i)
  unfolding list_get
  list_get_found sl name i e = rw (e, list_get) refl

  pub list_get_new :
      (sl : List A) (c : ℕ) (name : Bytes)
      → list_find named sl (c ∷ name) ≡ none
      → list_get named sl (c ∷ name) ≡ (sl ++ named.fresh (c ∷ name) ∷ [], some (length sl))
  unfolding list_get create
  list_get_new sl c name e = rw (e, list_get) refl

  list_get_nameless :
      (sl : List A) → list_find named sl [] ≡ none → list_get named sl [] ≡ (sl, none)
  unfolding list_get create
  list_get_nameless sl e = rw (e, list_get) refl

  list_get-Distinct :
      (sl : List A) (name : Bytes) → Distinct named sl → Distinct named (list_get named sl name).0
  list_get-Distinct sl [] h = elim (Option-cases (list_find named sl [])) [
    | inr (i, e) ↦ rw (list_get_found sl [] i e) h
    | inl e ↦ rw (list_get_nameless sl e) h
  ]
  list_get-Distinct sl (c ∷ name) h = elim (Option-cases (list_find named sl (c ∷ name))) [
    | inr (i, e) ↦ rw (list_get_found sl (c ∷ name) i e) h
    | inl e ↦ rw (list_get_new sl c name e) (
        Distinct-append named sl (named.fresh (c ∷ name)) h
          (rw (named.name_of-fresh (c ∷ name)) (list_find-none named sl (c ∷ name) e)))
  ]

  set_name-Distinct :
      (sl : List A) (i : ℕ) (name : Option Bytes)
      → Distinct named sl
      → Distinct named (set_name named i sl name).1
  unfolding set_name
  set_name-Distinct sl i none h = h
  set_name-Distinct sl i (some []) h = h
  set_name-Distinct sl i (some (c ∷ name)) h =
      elim (Bool-cases (is_other (list_find named sl (c ∷ name)) i)) [
        | inl e ↦ rw e h
        | inr e ↦ rw e (Distinct-rename named sl i (c ∷ name) h e)
      ]

  All-remove :
      (name : Bytes) (sl : List A) (i : ℕ)
      → All (Other named name) sl
      → All (Other named name) (remove sl i)
  All-remove name [] i h = tt
  All-remove name (x ∷ sl) zero (hx, h) = h
  All-remove name (x ∷ sl) (suc i) (hx, h) = (hx, All-remove name sl i h)

  remove-Distinct : (sl : List A) (i : ℕ) → Distinct named sl → Distinct named (remove sl i)
  remove-Distinct [] i h = tt
  remove-Distinct (x ∷ sl) zero (hx, h) = h
  remove-Distinct (x ∷ sl) (suc i) (hx, h) =
      (All-remove (named.name_of x) sl i hx, remove-Distinct sl i h)

  update-Distinct :
      (sl : List A) (i : ℕ) (f : A → A)
      → ((s : A) → named.name_of (f s) ≡ named.name_of s)
      → Distinct named sl
      → Distinct named (update sl i f)
  update-Distinct [] i f k h = tt
  update-Distinct (x ∷ sl) zero f k (hx, h) = (rw (k x) hx, h)
  update-Distinct (x ∷ sl) (suc i) f k (hx, h) =
      (All-update named (named.name_of x) sl i f hx (λ s o. rw (k s) o), update-Distinct sl i f k h)

  -- In every list that the operations make from the empty list, no two elements have names that
  -- are equal up to case.
  pub Reach-Distinct : (sl : List A) → Reach sl → Distinct named sl
  Reach-Distinct _ none_yet = tt
  Reach-Distinct _ (got {sl} name r) = list_get-Distinct sl name (Reach-Distinct sl r)
  Reach-Distinct _ (renamed {sl} i name r) = set_name-Distinct sl i name (Reach-Distinct sl r)
  Reach-Distinct _ (removed {sl} i r) = remove-Distinct sl i (Reach-Distinct sl r)
  Reach-Distinct _ (changed {sl} i f k r) = update-Distinct sl i f k (Reach-Distinct sl r)

  find-get_elem? :
      (sl : List A) (name : Bytes) (i : ℕ)
      → list_find named sl name ≡ some i
      → (s : A) × (get_elem? sl i ≡ some s) × (str_case_eq (named.name_of s) name ≡ true)
  unfolding list_find
  find-get_elem? [] name i h = cc
  find-get_elem? (s ∷ sl) name i h = elim (Bool-cases (str_case_eq (named.name_of s) name)) [
    | inl e ↦ (s, let z : i ≡ 0 = ground (arith, e) in ap (get_elem? (s ∷ sl)) z, e)
    | inr e ↦ elim (Option-cases (list_find named sl name)) [
      | inl f ↦ absurd (ground (arith, e, f))
      | inr (j, f) ↦
          let (x, at, same) = find-get_elem? sl name j f in
          let z : i ≡ suc j = ground (arith, e, f) in (x, ap (get_elem? (s ∷ sl)) z ∙ at, same)
    ]
  ]

  -- What `list_get` returns for a name that is not empty: an element of the new list that has the
  -- name, up to case, and that looking up the name finds.
  pub list_get-find :
      (sl : List A) (c : ℕ) (name : Bytes)
      → (i : ℕ) × (s : A) × ((list_get named sl (c ∷ name)).1 ≡ some i)
        × (list_find named (list_get named sl (c ∷ name)).0 (c ∷ name) ≡ some i)
        × (get_elem? (list_get named sl (c ∷ name)).0 i ≡ some s)
        × (str_case_eq (named.name_of s) (c ∷ name) ≡ true)
  list_get-find sl c name = elim (Option-cases (list_find named sl (c ∷ name))) [
    | inr (i, e) ↦
        let (s, at, same) = find-get_elem? sl (c ∷ name) i e in
        rw (list_get_found sl (c ∷ name) i e) (i, s, refl, e, at, same)
    | inl e ↦
        let same : str_case_eq (named.name_of (named.fresh (c ∷ name))) (c ∷ name) ≡ true =
          rw (named.name_of-fresh (c ∷ name)) (str_case_eq_refl (c ∷ name)) in
        rw (list_get_new sl c name e) (
          length sl,
          named.fresh (c ∷ name),
          refl,
          list_find-append named sl (named.fresh (c ∷ name)) (c ∷ name)
              (list_find-none named sl (c ∷ name) e) same,
          get_elem?-append sl (named.fresh (c ∷ name)) [] (length sl) refl,
          same,
        )
  ]

  -- After a successful `set_name` on an element of the list, looking up the name finds the element.
  pub set_name-find :
      (sl : List A) (i c : ℕ) (name : Bytes)
      → i < length sl
      → (set_name named i sl (some (c ∷ name))).0 ≡ none
      → list_find named (set_name named i sl (some (c ∷ name))).1 (c ∷ name) ≡ some i
  unfolding set_name
  set_name-find sl i c name room ok =
      elim (Bool-cases (is_other (list_find named sl (c ∷ name)) i)) [
        | inl e ↦ ground (arith, e)
        | inr e ↦ rw e (list_find-rename named sl i (c ∷ name) room e)
      ]
