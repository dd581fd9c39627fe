-- ===== src/Util.antt =====
-- src/util.c: placeholder expansion, shell quoting and suffix tests. `_util_iconvert` and the pid
-- file are not modelled here.
pub mod Shell
pub mod Expand
pub mod Suffix
pub mod Tests
use ezstream.Prelude.{
  ℕ, zero, suc, ◌+◌, ◌-◌, ◌||◌, Option, none, some, List, [], ◌∷◌, ◌++◌, ltb, ◌==◌, drop, length,
  if◌then◌else◌,
}
use ezstream.CString.{Bytes, str_eq, lower, to_lower, starts_with, snprintf_s}

-- `util_strrcmp`: 0 if `s` ends in `sub`.
unfoldable pub util_strrcmp : Bytes → Bytes → ℕ
unfolding str_eq
util_strrcmp s sub =
    if ltb (length s) (length sub)
    then 1
    else if str_eq (drop (length s - length sub) s) sub
    then 0
    else 1

unfoldable pub util_strrcasecmp : Bytes → Bytes → ℕ
unfolding util_strrcmp to_lower
util_strrcasecmp s sub = util_strrcmp (lower s) (lower sub)

-- One entry of a `struct util_dict[]`; the list ends where the array has `from == NULL`.
pub record Entry : Type 0 where
  pub from : Bytes
  pub to : Bytes

-- The inner loop of `util_expand_words`: the first entry that matches at `&out[i]`.
unfoldable pub find_entry : List Entry → Bytes → Option Entry
unfolding starts_with
find_entry [] s = none
find_entry (d ∷ dicts) s = if starts_with s d.from then some d else find_entry dicts s

-- The buffer `out` and the size that is kept for it.
pub record Buffer : Type 0 where
  pub out : Bytes
  pub out_size : ℕ

-- The body of the outer loop at `i`. Each `snprintf` cuts at the size that it is given.
unfoldable pub expand_at : List Entry → ℕ → Buffer → Buffer
unfolding find_entry snprintf_s
expand_at dicts i b = elim (find_entry dicts (drop i b.out)) [
  | none ↦ b
  | some d ↦
      let buf_len = length (drop i b.out) + length d.to - length d.from in
      let buf = snprintf_s (buf_len + 1) (d.to ++ drop (i + length d.from) b.out) in
      let out_size = b.out_size + buf_len in
      record {
        out = snprintf_s (i + 1) b.out ++ snprintf_s (out_size - i) buf;
        out_size = out_size;
      }
]

-- `while (i--)`
unfoldable pub expand_loop : List Entry → ℕ → Buffer → Buffer
unfolding expand_at
expand_loop dicts zero b = b
expand_loop dicts (suc i) b = expand_loop dicts i (expand_at dicts i b)

unfoldable pub util_expand_words : Bytes → List Entry → Option Bytes
unfolding expand_loop
util_expand_words input dicts =
    let out_size = length input + 1 in
    if out_size == 1
    then none
    else some (expand_loop dicts (out_size - 1) (record { out = input; out_size = out_size })).out

-- The single quote and the backslash.
abbrev pub quote : ℕ
quote = 39

abbrev pub backslash : ℕ
backslash = 92

abbrev pub shellquote_outlen_max : ℕ
shellquote_outlen_max = 8191

-- The loop of `util_shellquote`: what it appends, where `n` is `out_len`.
unfoldable pub quote_loop : Bytes → ℕ → Bytes
quote_loop [] n = []
quote_loop (c ∷ s) n =
    let quoted = quote ∷ backslash ∷ quote ∷ c ∷ quote_loop s (n - 4) in
    let plain = c ∷ quote_loop s (n - 1) in
    if ltb 1 n then (if c == quote then (if ltb 4 n then quoted else []) else plain) else []

-- The limit that the call works with.
unfoldable pub outlen_limit : ℕ → ℕ
outlen_limit outlen_max =
    if outlen_max == 0 || ltb shellquote_outlen_max outlen_max
    then shellquote_outlen_max
    else outlen_max

unfoldable pub util_shellquote : Bytes → ℕ → Bytes
unfolding quote_loop outlen_limit
util_shellquote input outlen_max =
    quote ∷ (quote_loop input (outlen_limit outlen_max - 1) ++ quote ∷ [])
