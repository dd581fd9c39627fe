-- ===== src/Cfg/Names/Unique.antt =====
-- Names stay different, and looking up finds what was made.
use ezstream.Prelude.{
  ℕ, zero, suc, ◌<◌, ◌≡◌, sym, ◌∙◌, ◌⊎◌, inl, inr, true, false, none, some, List, [], ◌∷◌, ◌++◌,
  arith, Option-cases, length, All, update,
}
use ezstream.CString.{Bytes, str_case_eq}
use ezstream.CString.Case.{str_case_eq_refl, str_case_eq_cong, str_case_eq_comm}
use ezstream.Cfg.Names.{Named, is_other, list_find}

module _ {ℓ} {A : Type ℓ} (named : Named A) where
  abbrev pub Other : Bytes → A → Type 0
  Other name s = str_case_eq (named.name_of s) name ≡ false

  -- No two elements have the same name, in upper or lower case.
  abbrev pub Distinct : List A → Type 0
  Distinct [] = Unit
  Distinct (s ∷ sl) = All (Other (named.name_of s)) sl × Distinct sl

  find_none-cons :
      (s : A) (sl : List A) (name : Bytes)
      → list_find named (s ∷ sl) name ≡ none
      → Other name s × (list_find named sl name ≡ none)
  unfolding list_find
  find_none-cons s sl name h = elim (Option-cases (list_find named sl name)) [
    | inl e ↦ (ground arith, e)
    | inr (i, e) ↦ ground (arith, e)
  ]

  -- Where nothing is found, every element has another name.
  pub list_find-none :
      (sl : List A) (name : Bytes) → list_find named sl name ≡ none → All (Other name) sl
  list_find-none [] name h = tt
  list_find-none (s ∷ sl) name h =
      let (here, rest) = find_none-cons s sl name h in (here, list_find-none sl name rest)

  pub list_find-append :
      (sl : List A) (s : A) (name : Bytes)
      → All (Other name) sl
      → str_case_eq (named.name_of s) name ≡ true
      → list_find named (sl ++ s ∷ []) name ≡ some (length sl)
  unfolding list_find
  list_find-append [] s name h e = ground (arith, e)
  list_find-append (x ∷ sl) s name (hx, h) e = ground (arith, hx, list_find-append sl s name h e)

  Other-sym : (a b : Bytes) → str_case_eq a b ≡ false → str_case_eq b a ≡ false
  Other-sym a b h = str_case_eq_comm b a ∙ h

  All-snoc :
      (name : Bytes) (sl : List A) (s : A)
      → All (Other name) sl
      → Other name s
      → All (Other name) (sl ++ s ∷ [])
  All-snoc name [] s h hs = (hs, tt)
  All-snoc name (x ∷ sl) s (hx, h) hs = (hx, All-snoc name sl s h hs)

  pub Distinct-append :
      (sl : List A) (s : A)
      → Distinct sl
      → All (Other (named.name_of s)) sl
      → Distinct (sl ++ s ∷ [])
  Distinct-append [] s h o = (tt, tt)
  Distinct-append (x ∷ sl) s (hx, h) (ox, o) = (
    All-snoc (named.name_of x) sl s hx (Other-sym (named.name_of x) (named.name_of s) ox),
    Distinct-append sl s h o,
  )

  pub All-update :
      (name : Bytes) (sl : List A) (i : ℕ) (f : A → A)
      → All (Other name) sl
      → ((s : A) → Other name s → Other name (f s))
      → All (Other name) (update sl i f)
  All-update name [] i f h k = tt
  All-update name (x ∷ sl) zero f (hx, h) k = (k x hx, h)
  All-update name (x ∷ sl) (suc i) f (hx, h) k = (hx, All-update name sl i f h k)

  All-cong :
      (a b : Bytes) (sl : List A) → str_case_eq a b ≡ true → All (Other a) sl → All (Other b) sl
  All-cong a b [] e h = tt
  All-cong a b (x ∷ sl) e (hx, h) = (
    str_case_eq_comm (named.name_of x) b
        ∙ sym (str_case_eq_cong a b (named.name_of x) e)
        ∙ str_case_eq_comm a (named.name_of x)
        ∙ hx,
    All-cong a b sl e h,
  )

  find_here :
      (s : A) (sl : List A) (name : Bytes)
      → is_other (list_find named (s ∷ sl) name) 0 ≡ false
      → (str_case_eq (named.name_of s) name ≡ true) ⊎ (list_find named sl name ≡ none)
  unfolding list_find
  find_here s sl name o = elim (Option-cases (list_find named sl name)) [
    | inl e ↦ inr e
    | inr (i, e) ↦ inl (ground (arith, e))
  ]

  find_there :
      (s : A) (sl : List A) (name : Bytes) (i : ℕ)
      → is_other (list_find named (s ∷ sl) name) (suc i) ≡ false
      → Other name s × (is_other (list_find named sl name) i ≡ false)
  unfolding list_find
  find_there s sl name i o = elim (Option-cases (list_find named sl name)) [
    | inl e ↦ ground (arith, e)
    | inr (j, e) ↦ ground (arith, e)
  ]

  -- The names stay different if one is replaced by a name that no other element has.
  pub Distinct-rename :
      (sl : List A) (i : ℕ) (name : Bytes)
      → Distinct sl
      → is_other (list_find named sl name) i ≡ false
      → Distinct (update sl i (named.rename name))
  Distinct-rename [] i name h o = tt
  Distinct-rename (s ∷ sl) zero name (hs, h) o = (
    rw (named.name_of-rename name s) (elim (find_here s sl name o) [
      | inl e ↦ All-cong (named.name_of s) name sl e hs
      | inr e ↦ list_find-none sl name e
    ]),
    h,
  )
  Distinct-rename (s ∷ sl) (suc i) name (hs, h) o =
      let (different, later) = find_there s sl name i o in
      (
        All-update (named.name_of s) sl i (named.rename name) hs
            (λ x _. rw (named.name_of-rename name x) (Other-sym (named.name_of s) name different)),
        Distinct-rename sl i name h later,
      )

  named_now : (name : Bytes) (s : A) → str_case_eq (named.name_of (named.rename name s)) name ≡ true
  named_now name s = rw (named.name_of-rename name s) (str_case_eq_refl name)

  -- A new name that no other element has is found at the element that gets it.
  pub list_find-rename :
      (sl : List A) (i : ℕ) (name : Bytes)
      → i < length sl
      → is_other (list_find named sl name) i ≡ false
      → list_find named (update sl i (named.rename name)) name ≡ some i
  unfolding list_find
  list_find-rename [] i name room o = elim room [ ]
  list_find-rename (s ∷ sl) zero name room o = ground (arith, named_now name s)
  list_find-rename (s ∷ sl) (suc i) name room o =
      let (different, later) = find_there s sl name i o in
      ground (arith, different, list_find-rename sl i name (omega arith) later)
