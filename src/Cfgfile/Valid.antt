-- ===== src/Cfgfile/Valid.antt =====
-- src/cfgfile_xml.c: what the parser does to one list of elements.
pub mod Walk
use mathlib.Core.Path.{subst}
use mathlib.Core.Option.{some-injective}
use ezstream.Prelude.{
  ℕ, zero, suc, ◌≡◌, sym, Bool, true, Option, none, some, List, [], ◌∷◌, ◌++◌, length, get_elem?,
  set, All, update, if_elim,
}
use ezstream.CString.{Bytes}
use ezstream.Cfg.{Outcome}
use ezstream.Cfg.Names.{Named, list_find, set_name, is_other}
use ezstream.Cfg.Names.Reach.{Reach, renamed, changed}
use ezstream.Cfgfile.{name_of, Setter, on_element}

module _ {ℓ} {A : Type ℓ} (P : A → Type 0) where
  -- Every element but the one at an index has the property.
  abbrev pub AllBut : ℕ → List A → Type 0
  AllBut i [] = Unit
  AllBut zero (a ∷ l) = All P l
  AllBut (suc i) (a ∷ l) = P a × AllBut i l

  map-All :
      (j : ℕ) (l : List A) (f : A → A) → ((a : A) → P a → P (f a)) → All P l → All P (update l j f)
  map-All j [] f keeps h = tt
  map-All zero (a ∷ l) f keeps (p, h) = (keeps a p, h)
  map-All (suc j) (a ∷ l) f keeps (p, h) = (p, map-All j l f keeps h)

  pub All→AllBut : (i : ℕ) (l : List A) → All P l → AllBut i l
  All→AllBut i [] h = tt
  All→AllBut zero (a ∷ l) (p, h) = h
  All→AllBut (suc i) (a ∷ l) (p, h) = (p, All→AllBut i l h)

  pub update-AllBut : (i : ℕ) (l : List A) (f : A → A) → AllBut i l → AllBut i (update l i f)
  update-AllBut i [] f h = tt
  update-AllBut zero (a ∷ l) f h = h
  update-AllBut (suc i) (a ∷ l) f (p, h) = (p, update-AllBut i l f h)

  pub map-AllBut :
      (i j : ℕ) (l : List A) (f : A → A)
      → ((a : A) → P a → P (f a))
      → AllBut i l
      → AllBut i (update l j f)
  map-AllBut i j [] f keeps h = tt
  map-AllBut zero zero (a ∷ l) f keeps h = h
  map-AllBut zero (suc j) (a ∷ l) f keeps h = map-All j l f keeps h
  map-AllBut (suc i) zero (a ∷ l) f keeps (p, h) = (keeps a p, h)
  map-AllBut (suc i) (suc j) (a ∷ l) f keeps (p, h) = (p, map-AllBut i j l f keeps h)

  pub append-AllBut : (l : List A) (a : A) → All P l → AllBut (length l) (l ++ a ∷ [])
  append-AllBut [] a h = tt
  append-AllBut (b ∷ l) a (p, h) = (p, append-AllBut l a h)

  pub AllBut→All :
      (i : ℕ) (l : List A) (a : A) → AllBut i l → get_elem? l i ≡ some a → P a → All P l
  AllBut→All i [] a h at p = tt
  AllBut→All zero (b ∷ l) a h at p = (subst P (sym (some-injective b a at)) p, h)
  AllBut→All (suc i) (b ∷ l) a (q, h) at p = (q, AllBut→All i l a h at p)

module _ {ℓ} {A : Type ℓ} (named : Named A) (P : A → Type 0) where
  -- What a setter may do: only the element at the index loses the property, and the list is still
  -- one that the operations make.
  pub record Step (i : ℕ) (l l' : List A) : Type ℓ where
    pub reach : Reach named l → Reach named l'
    pub others : AllBut P i l → AllBut P i l'

  abbrev pub IsCareful : Setter A → Type ℓ
  IsCareful set = (i : ℕ) (l : List A) (value : Option Bytes) → Step i l (set i l value).1

  pub same_list : (i : ℕ) (l : List A) → Step i l l
  same_list i l = record { reach = λ r. r; others = λ h. h }

  pub then_step : (i : ℕ) (l l' l'' : List A) → Step i l l' → Step i l' l'' → Step i l l''
  then_step i l l' l'' s t = record {
    reach = λ r. t.reach (s.reach r);
    others = λ h. t.others (s.others h);
  }

  element-Step :
      (set : A → Option Bytes → Outcome A) (i : ℕ) (l : List A) (value : Option Bytes)
      → ((a : A) → named.name_of (set a value).1 ≡ named.name_of a)
      → (o : Option A)
      → Step i l
          (elim o as (λ _. Outcome (List A)) [
            | none ↦ (none, l)
            | some a ↦ ((set a value).0, update l i (λ s. (set s value).1))
          ]).1
  element-Step set i l value keeps none = same_list i l
  element-Step set i l value keeps (some a) = record {
    reach = λ r. changed i (λ s. (set s value).1) keeps r;
    others = λ h. update-AllBut P i l (λ s. (set s value).1) h;
  }

  pub on_element-IsCareful :
      (set : A → Option Bytes → Outcome A)
      → ((a : A) (value : Option Bytes) → named.name_of (set a value).1 ≡ named.name_of a)
      → IsCareful (on_element set)
  unfolding on_element
  on_element-IsCareful set keeps i l value =
      element-Step set i l value (λ a. keeps a value) (get_elem? l i)

  set_name-others :
      (i : ℕ) (l : List A) (name : Option Bytes)
      → AllBut P i l
      → AllBut P i (set_name named i l name).1
  unfolding set_name
  set_name-others i l none h = h
  set_name-others i l (some []) h = h
  set_name-others i l (some (c ∷ name)) h =
      if_elim {A = Outcome (List A)} (λ r. AllBut P i r.1)
        (is_other (list_find named l (c ∷ name)) i) h
        (update-AllBut P i l (named.rename (c ∷ name)) h)

  pub set_name-IsCareful : IsCareful (set_name named)
  set_name-IsCareful i l name = record {
    reach = λ r. renamed i name r;
    others = λ h. set_name-others i l name h;
  }

  -- A walk over a list keeps what the operations keep, and where it succeeds every element has the
  -- property, if every one had it before.
  pub record Kept (l : List A) (r : Bool × List A) : Type ℓ where
    pub reach : Reach named l → Reach named r.1
    pub complete : r.0 ≡ true → All P l → All P r.1
