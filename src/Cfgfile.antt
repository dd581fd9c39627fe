-- ===== src/Cfgfile.antt =====
-- src/cfgfile_xml.c: the parser of the configuration file. What libxml2 makes of a file is a tree;
-- the parser walks it and calls the setters of the configuration. Log messages are left out.
pub mod Settings
pub mod Valid
pub mod Careful
pub mod Complete
pub mod Reloaded
pub mod Print
pub mod Tests
use ezstream.Prelude.{
  ℕ, Bool, true, false, Option, none, some, List, [], ◌∷◌, if◌then◌else◌, get_elem?, set, update,
}
use ezstream.CString.{Bytes, codes}
use ezstream.Cfg.{Error, Outcome}
use ezstream.Cfg.Names.{Named, list_get}

-- A node of the tree: its name, what xmlNodeListGetString gives for its children, and the children.
mutual
  pub data Node : Type 0 where
    node : Bytes → Option Bytes → Nodes → Node

  pub data Nodes : Type 0 where
    no_more : Nodes
    next : Node → Nodes → Nodes

abbrev pub name_of : Node → Bytes
name_of (node name value children) = name

abbrev pub value_of : Node → Option Bytes
value_of (node name value children) = value

abbrev pub children_of : Node → Nodes
children_of (node name value children) = children

-- The parts of libxml2 and of the system that are called, on one run.
pub record Libxml : Type 0 where
  -- Whether xmlStrcasecmp gives 0.
  pub same_name : Bytes → Bytes → Bool
  -- xmlParseFile and xmlDocGetRootElement: no document, an empty one, or its root.
  pub parse_file : Bytes → Option (Option Node)
  -- For `cfg_file_check`: the mode that `stat` reports.
  pub stat_mode : Bytes → Option ℕ

-- A call that may fail, and what follows it.
abbrev pub and_then {ℓ} : {A : Type ℓ} → Bool × A → (A → Bool × A) → Bool × A
and_then (false, a) f = (false, a)
and_then (true, a) f = f a

abbrev pub succeeded {ℓ} : {A : Type ℓ} → Outcome A → Bool × A
succeeded (none, a) = (true, a)
succeeded (some e, a) = (false, a)

-- The loop over the children, up to the first failure.
unfoldable pub each {ℓ} : {A : Type ℓ} → (Node → A → Bool × A) → Nodes → A → Bool × A
each f no_more a = (true, a)
each f (next n ns) a = and_then (f n a) (each f ns)

-- A setter that gets the element, as its index, and its list.
abbrev pub Setter {ℓ} : Type ℓ → Type ℓ
Setter A = ℕ → List A → Option Bytes → Outcome (List A)

-- A setter of `cfg_*.c` that only changes the element.
unfoldable pub on_element {ℓ} : {A : Type ℓ} → (A → Option Bytes → Outcome A) → Setter A
on_element set i l value = elim (get_elem? l i) [
  | none ↦ (none, l)
  | some a ↦ ((set a value).0, update l i (λ s. (set s value).1))
]

-- The setters of a kind of element, by the names of the child nodes.
pub record Kind {ℓ} (A : Type ℓ) : Type ℓ where
  pub tag : Bytes
  pub named : Named A
  pub setters : List (Bytes × Setter A)
  pub validate : A → Option Error

-- CFG_DEFAULT
abbrev pub cfg_default : Bytes
cfg_default = codes "default"

module _ (lib : Libxml) where
  -- The calls of XML_SERVER_SET and its kin for one child node, one after the other.
  unfoldable pub set_fields {ℓ} :
      {A : Type ℓ} → List (Bytes × Setter A) → Node → ℕ → List A → Bool × List A
  set_fields [] n i l = (true, l)
  set_fields ((key, set) ∷ setters) n i l =
      let later = set_fields setters n i in
      if lib.same_name (name_of n) key
      then and_then (succeeded (set i l (value_of n))) later
      else later l

  module _ {ℓ} {A : Type ℓ} (kind : Kind A) where
    abbrev pub is_valid : Option A → Bool
    is_valid none = false
    is_valid (some a) = elim (kind.validate a) [ none ↦ true | some e ↦ false ]

    -- `_cfgfile_xml_parse_server` and its kin from the loop on.
    unfoldable pub parse_at : Node → ℕ → List A → Bool × List A
    parse_at n i l =
        and_then (each (λ c. set_fields kind.setters c i) (children_of n) l)
          (λ l. (is_valid (get_elem? l i), l))

    -- The element that is called "default" always exists, as that name is not empty.
    abbrev pub with_element : List A × Option ℕ → (ℕ → List A → Bool × List A) → Bool × List A
    with_element (l, none) f = (false, l)
    with_element (l, some i) f = f i l

    -- `_cfgfile_xml_parse_server` and its kin.
    unfoldable pub parse_element : Node → List A → Bool × List A
    parse_element n l = with_element (list_get kind.named l cfg_default) (parse_at n)

    unfoldable pub parse_if_tagged : Node → List A → Bool × List A
    parse_if_tagged n l =
        if lib.same_name (name_of n) kind.tag then parse_element n l else (true, l)

    -- `_cfgfile_xml_parse_servers` and its kin.
    unfoldable pub parse_elements : Node → List A → Bool × List A
    parse_elements n l = each parse_if_tagged (children_of n) l
