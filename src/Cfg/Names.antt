-- ===== src/Cfg/Names.antt =====
-- The lists of src/cfg_server.c, src/cfg_stream.c, src/cfg_intake.c, src/cfg_encoder.c and
-- src/cfg_decoder.c, which share this part word for word: elements with a name, compared without
-- case. A pointer to an element is its index. The name that is looked up is not NULL.
pub mod Unique
pub mod Reach
use mathlib.Core.Option
use ezstream.Prelude.{
  ℕ, suc, ◌+◌, ◌-◌, ◌≡◌, Bool, false, not, Option, none, some, List, [], ◌∷◌, ◌++◌, map, ◌==◌,
  if◌then◌else◌, length, update,
}
use ezstream.CString.{Bytes, str_case_eq}
use ezstream.Cfg.{Outcome, unless_empty, already_exists}

-- What a kind of element provides.
pub record Named {ℓ} (A : Type ℓ) : Type ℓ where
  pub fresh : Bytes → A
  pub name_of : A → Bytes
  pub rename : Bytes → A → A
  pub name_of-fresh : (name : Bytes) → name_of (fresh name) ≡ name
  pub name_of-rename : (name : Bytes) (a : A) → name_of (rename name a) ≡ name

-- `s2 && s2 != s`
abbrev pub is_other : Option ℕ → ℕ → Bool
is_other none i = false
is_other (some j) i = not (i == j)

module _ {ℓ} {A : Type ℓ} (named : Named A) where
  -- `cfg_*_list_find`
  unfoldable pub list_find : List A → Bytes → Option ℕ
  unfolding str_case_eq
  list_find [] name = none
  list_find (s ∷ sl) name =
      if str_case_eq (named.name_of s) name then some 0 else Option.map suc (list_find sl name)

  -- `cfg_*_create`
  unfoldable pub create : Bytes → Option A
  create [] = none
  create (c ∷ name) = some (named.fresh (c ∷ name))

  -- `cfg_*_list_get`: the list, and the element.
  unfoldable pub list_get : List A → Bytes → List A × Option ℕ
  unfolding list_find create
  list_get sl name = elim (list_find sl name) [
    | some i ↦ (sl, some i)
    | none ↦ elim (create name) [ none ↦ (sl, none) | some s ↦ (sl ++ s ∷ [], some (length sl)) ]
  ]

  -- `cfg_*_set_name` on the element at `i`.
  unfoldable pub set_name : ℕ → List A → Option Bytes → Outcome (List A)
  unfolding list_find
  set_name i sl name = unless_empty sl name (λ name.
      if is_other (list_find sl name) i
      then (some already_exists, sl)
      else (none, update sl i (named.rename name)))
