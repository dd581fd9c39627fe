-- ===== src/Cfgfile/Print/Read.antt =====
-- src/cfgfile_xml.c: reading the settings of one element that were printed. libxml2 makes a leaf of
-- a printed line, where the text needs no escape.
use mathlib.Core.Path.{subst}
use ezstream.Prelude.{
  ℕ, ◌-◌, ◌<◌, ◌≡◌, refl, sym, ap, ◌∙◌, ◌≢◌, inl, inr, Bool, true, false, Option, none, some, List,
  [], ◌∷◌, ◌++◌, arith, Bool-cases, length, get_elem?, set, take_all,
}
use ezstream.CString.{Bytes, codes, str_case_eq, strlcpy}
use ezstream.Cfg.{Error, Outcome, set_strlcpy}
use ezstream.Cfg.Names.{list_get, list_find, create, set_name}
use ezstream.Cfgfile.{
  Node, Nodes, Libxml, and_then, succeeded, each, Kind, cfg_default, set_fields, is_valid, parse_at,
  parse_element, node, no_more, next,
}
use ezstream.Cfgfile.Print.{Field, optional, yes_if, name_field}

abbrev pub leaves : List Field → Nodes
leaves [] = no_more
leaves ((tag, text) ∷ fields) = next (node tag (some text) no_more) (leaves fields)

abbrev pub element_node : Bytes → List Field → Node
element_node tag fields = node tag none (leaves fields)

-- With names that are compared by strcasecmp(3).
abbrev pub strcase : Libxml → Libxml
strcase lib = record lib { same_name = str_case_eq }

-- A text that is not empty and fits the buffer is stored.
pub set_strlcpy_fits :
    (size : ℕ) (t : Bytes) (c : ℕ) (s : Bytes)
    → length (c ∷ s) < size
    → set_strlcpy size t (some (c ∷ s)) ≡ (none, c ∷ s)
unfolding set_strlcpy strlcpy
set_strlcpy_fits size t c s fits = ground (arith, take_all (size - 1) (c ∷ s) (omega arith))

-- A name can be printed if it is not empty, and is the default name only letter by letter.
pub record IsPrintable (name : Bytes) : Type 0 where
  pub nonempty : name ≢ []
  pub by_letter : str_case_eq name cfg_default ≡ true → name ≡ cfg_default

module _ {A : Type 0} (lib : Libxml) (kind : Kind A) where
  -- The settings are accepted one after the other, and make one element of another.
  abbrev pub Reads : List Field → A → A → Type 0
  Reads fields x y =
      each (λ c. set_fields (strcase lib) kind.setters c 0) (leaves fields) (x ∷ [])
      ≡ (true, y ∷ [])

  and_then_assoc :
      (r : Bool × List A) (f g h : List A → Bool × List A)
      → ((l : List A) → f l ≡ and_then (g l) h)
      → and_then r f ≡ and_then (and_then r g) h
  and_then_assoc (false, l) f g h e = refl
  and_then_assoc (true, l) f g h e = e l

  each-append :
      (f : Node → List A → Bool × List A) (fields more : List Field) (l : List A)
      → each f (leaves (fields ++ more)) l
        ≡ and_then (each f (leaves fields) l) (each f (leaves more))
  unfolding each
  each-append f [] more l = refl
  each-append f ((tag, text) ∷ fields) more l =
      and_then_assoc (f (node tag (some text) no_more) l) (each f (leaves (fields ++ more)))
        (each f (leaves fields)) (each f (leaves more)) (each-append f fields more)

  pub Reads-append :
      (fields more : List Field) (x y z : A)
      → Reads fields x y
      → Reads more y z
      → Reads (fields ++ more) x z
  Reads-append fields more x y z first later =
      each-append (λ c. set_fields (strcase lib) kind.setters c 0) fields more (x ∷ [])
      ∙ ap (λ r. and_then r (each (λ c. set_fields (strcase lib) kind.setters c 0) (leaves more)))
          first
      ∙ later

  pub Reads-nothing : (x : A) → Reads [] x x
  unfolding each
  Reads-nothing x = refl

  -- What the calls for one setting come to.
  pub accepted :
      (o : Outcome A) (y : A)
      → o ≡ (none, y)
      → and_then (and_then (succeeded (o.0, o.1 ∷ [])) (λ l. (true, l))) (λ l. (true, l))
        ≡ (true, y ∷ [])
  accepted o y e = rw e refl

  pub accepted_list :
      (o : Outcome (List A)) (l : List A)
      → o ≡ (none, l)
      → and_then (and_then (succeeded o) (λ l. (true, l))) (λ l. (true, l)) ≡ (true, l)
  accepted_list o l e = rw e refl

  pub Reads-optional :
      (tag : Bytes) (o : Option Bytes) (put : Option Bytes → A)
      → ((c : ℕ) (s : Bytes) → Reads ((tag, c ∷ s) ∷ []) (put none) (put (some (c ∷ s))))
      → o ≢ some []
      → Reads (optional tag o) (put none) (put o)
  Reads-optional tag none put set some_text = Reads-nothing (put none)
  Reads-optional tag (some []) put set some_text = absurd (some_text refl)
  Reads-optional tag (some (c ∷ s)) put set some_text = set c s

  pub Reads-yes :
      (tag : Bytes) (b : Bool) (put : Bool → A)
      → Reads ((tag, codes "yes") ∷ []) (put false) (put true)
      → Reads (yes_if b tag) (put false) (put b)
  Reads-yes tag false put set = Reads-nothing (put false)
  Reads-yes tag true put set = set

  -- The element that is read is the one that was printed.
  pub read_back :
      (tag : Bytes) (fields : List Field) (a : A)
      → lib.same_name ≡ str_case_eq
      → kind.validate a ≡ none
      → Reads fields (kind.named.fresh cfg_default) a
      → parse_element lib kind (element_node tag fields) [] ≡ (true, a ∷ [])
  unfolding parse_element parse_at list_get list_find create
  read_back tag fields a names valid reads =
      subst
        (λ f.
          parse_element (record lib { same_name = f }) kind (element_node tag fields) []
          ≡ (true, a ∷ []))
        (sym names)
        (ap (λ r. and_then r (λ l. (is_valid (strcase lib) kind (get_elem? l 0), l))) reads
          ∙ ap (λ (o : Option Error). (elim o [ none ↦ true | some e ↦ false ], a ∷ [])) valid)

  -- A list of one element takes every name that is not empty.
  pub set_name_alone :
      (x : A) (c : ℕ) (name : Bytes)
      → set_name kind.named 0 (x ∷ []) (some (c ∷ name))
        ≡ (none, kind.named.rename (c ∷ name) x ∷ [])
  unfolding set_name list_find
  set_name_alone x c name = elim (Bool-cases (str_case_eq (kind.named.name_of x) (c ∷ name))) [
    | inl e ↦ rw e refl
    | inr e ↦ rw e refl
  ]

  pub Reads-name_field :
      (name : Bytes) (put : Bytes → A)
      → IsPrintable name
      → ((c : ℕ) (s : Bytes) → Reads ((codes "name", c ∷ s) ∷ []) (put cfg_default) (put (c ∷ s)))
      → Reads (name_field name) (put cfg_default) (put name)
  Reads-name_field [] put h set = absurd (h.nonempty refl)
  Reads-name_field (c ∷ s) put h set = elim (Bool-cases (str_case_eq (c ∷ s) cfg_default)) [
    | inl e ↦ rw e (
        subst (λ name. Reads [] (put cfg_default) (put name)) (sym (h.by_letter e))
          (Reads-nothing (put cfg_default)))
    | inr e ↦ rw e (set c s)
  ]
