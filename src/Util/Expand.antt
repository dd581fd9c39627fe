-- ===== src/Util/Expand.antt =====
-- `util_expand_words`: the loop over the buffer computes a recursion on the text, from right to left.
pub mod Loop
pub mod Template
pub mod Values
use ezstream.Prelude.{◌+◌, ◌-◌, ◌≡◌, true, none, some, List, [], ◌∷◌, ◌++◌, arith, length, drop}
use ezstream.CString.{Bytes, starts_with}
use ezstream.Util.{Entry, find_entry}

-- The text with the entry that matches at its beginning replaced, if there is one.
unfoldable pub replace_first : List Entry → Bytes → Bytes
unfolding find_entry
replace_first dicts s = elim (find_entry dicts s) [
  | none ↦ s
  | some d ↦ d.to ++ drop (length d.from) s
]

-- The reference: expand what follows the first byte, then try every entry at that byte.
unfoldable pub expand : List Entry → Bytes → Bytes
unfolding replace_first
expand dicts [] = []
expand dicts (c ∷ s) = replace_first dicts (c ∷ expand dicts s)

-- A found entry is a prefix of the text.
pub find_entry-starts_with :
    (dicts : List Entry) (s : Bytes) (d : Entry)
    → find_entry dicts s ≡ some d
    → starts_with s d.from ≡ true
unfolding find_entry
find_entry-starts_with [] s d h = cc
find_entry-starts_with (e ∷ dicts) s d h = ground (arith, find_entry-starts_with dicts s d)
