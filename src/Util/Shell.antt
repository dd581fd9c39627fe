-- ===== src/Util/Shell.antt =====
-- What `util_shellquote` returns, as a POSIX shell reads it.
use mathlib.Core.Option
use native.Mathlib.Decide.{dec_lt}
use ezstream.Prelude.{
  ℕ, suc, ◌+◌, ◌-◌, ◌≤◌, ◌<◌, ◌≡◌, refl, ap, ◌∙◌, ◌≢◌, ◌⊎◌, inl, inr, true, false, Option, none,
  some, [], ◌∷◌, ◌++◌, arith, ltb, ◌==◌, if◌then◌else◌, length, take, length-append, take_all,
}
use ezstream.CString.{Bytes}
use ezstream.Util.{quote, backslash, quote_loop, outlen_limit, util_shellquote}

-- The states of the shell inside one word: outside quotes, between single quotes, behind a backslash.
pub data Mode : Type 0 where
  outside inside escaped : Mode

-- The value of a text that is a single word made of single-quoted parts and escaped characters.
-- `none` for an open quote, and for any unquoted character, where a word could end or the shell
-- could expand or run something.
pub sh_word : Mode → Bytes → Option Bytes
sh_word outside [] = some []
sh_word outside (c ∷ s) = elim (c == quote) [
  | true ↦ sh_word inside s
  | false ↦ elim (c == backslash) [ true ↦ sh_word escaped s | false ↦ none ]
]
sh_word inside [] = none
sh_word inside (c ∷ s) = elim (c == quote) [
  | true ↦ sh_word outside s
  | false ↦ Option.map (◌∷◌ c) (sh_word inside s)
]
sh_word escaped [] = none
sh_word escaped (c ∷ s) = Option.map (◌∷◌ c) (sh_word outside s)

-- How many bytes of the input the loop copies before the buffer is full.
pub kept : Bytes → ℕ → ℕ
kept [] n = 0
kept (c ∷ s) n =
    let quoted = suc (kept s (n - 4)) in
    let plain = suc (kept s (n - 1)) in
    if ltb 1 n then (if c == quote then (if ltb 4 n then quoted else 0) else plain) else 0

-- The length of a text with each quote written as four bytes.
unfoldable pub quoted_length : Bytes → ℕ
quoted_length [] = 0
quoted_length (c ∷ s) = (if c == quote then 4 else 1) + quoted_length s

sh_word-quote_loop :
    (s : Bytes) (n : ℕ) → sh_word inside (quote_loop s n ++ quote ∷ []) ≡ some (take (kept s n) s)
unfolding sh_word quote_loop kept
sh_word-quote_loop [] n = refl
sh_word-quote_loop (c ∷ s) n =
    ground (arith, sh_word-quote_loop s (n - 4), sh_word-quote_loop s (n - 1))

kept-le : (s : Bytes) (n : ℕ) → kept s n ≤ length s
unfolding kept
kept-le [] n = omega arith
kept-le (c ∷ s) n = ground (arith, kept-le s (n - 4), kept-le s (n - 1))

kept_all : (s : Bytes) (n : ℕ) → quoted_length s < n → kept s n ≡ length s
unfolding kept quoted_length
kept_all [] n h = refl
kept_all (c ∷ s) n h = ground (arith, kept_all s (n - 4), kept_all s (n - 1))

length-quote_loop : (s : Bytes) (n : ℕ) → 1 ≤ n → length (quote_loop s n) < n
unfolding quote_loop
length-quote_loop [] n h = omega arith
length-quote_loop (c ∷ s) n h =
    ground (arith, length-quote_loop s (n - 4), length-quote_loop s (n - 1))

kept_nothing : (s : Bytes) (n : ℕ) → n ≤ 1 → kept s n ≡ 0
unfolding kept
kept_nothing [] n h = refl
kept_nothing (c ∷ s) n h = ground arith

-- What is kept fits.
kept_fits : (s : Bytes) (n : ℕ) → 1 ≤ n → quoted_length (take (kept s n) s) < n
unfolding kept quoted_length
kept_fits [] n h = omega arith
kept_fits (c ∷ s) n h = ground (arith, kept_fits s (n - 4), kept_fits s (n - 1))

-- With one more byte it would not fit.
kept_cut : (s : Bytes) (n : ℕ) → kept s n < length s → n ≤ quoted_length (take (suc (kept s n)) s)
unfolding kept quoted_length
kept_cut [] n h = omega arith
kept_cut (c ∷ s) n h = ground (arith, kept_cut s (n - 4), kept_cut s (n - 1))

cut_end :
    (s : Bytes) (limit : ℕ)
    → (kept s (limit - 1) ≡ length s)
      ⊎ (kept s (limit - 1) < length s)
        × (limit < quoted_length (take (suc (kept s (limit - 1))) s) + 2)
cut_end s limit = elim (dec_lt (kept s (limit - 1)) (length s)) [
  | yes less ↦ inr (less, omega (arith, kept_cut s (limit - 1) less))
  | no more ↦ inl (omega (arith, kept-le s (limit - 1)))
]

fits_limit :
    (s : Bytes) (limit : ℕ)
    → (kept s (limit - 1) ≡ 0) ⊎ (quoted_length (take (kept s (limit - 1)) s) + 2 ≤ limit)
fits_limit s limit = elim (dec_lt 1 limit) [
  | yes more ↦ inr (omega (arith, kept_fits s (limit - 1) (omega arith)))
  | no less ↦ inl (kept_nothing s (limit - 1) (omega arith))
]

-- Whatever bytes the input holds, a shell reads the result as a single word, whose value is a
-- beginning of the input, as long as the buffer allows: it is the whole input, or with one more byte
-- the quoted text and its two outer quotes would be longer than the limit. Unless the value is
-- empty, its quoted text and the two outer quotes fit the limit.
pub sh_word-util_shellquote :
    (s : Bytes) (outlen_max : ℕ)
    → (k : ℕ) × (sh_word outside (util_shellquote s outlen_max) ≡ some (take k s))
      × ((k ≡ length s)
          ⊎ (k < length s) × (outlen_limit outlen_max < quoted_length (take (suc k) s) + 2))
      × ((k ≡ 0) ⊎ (quoted_length (take k s) + 2 ≤ outlen_limit outlen_max))
unfolding util_shellquote sh_word
sh_word-util_shellquote s outlen_max =
    let n = outlen_limit outlen_max - 1 in
    (
      kept s n,
      sh_word-quote_loop s n,
      cut_end s (outlen_limit outlen_max),
      fits_limit s (outlen_limit outlen_max),
    )

-- If the quoted text and its two outer quotes fit the limit, a shell reads the result as exactly
-- the input.
pub sh_word-util_shellquote_fits :
    (s : Bytes) (outlen_max : ℕ)
    → quoted_length s + 2 ≤ outlen_limit outlen_max
    → sh_word outside (util_shellquote s outlen_max) ≡ some s
unfolding util_shellquote sh_word
sh_word-util_shellquote_fits s outlen_max h =
    let n = outlen_limit outlen_max - 1 in
    sh_word-quote_loop s n
    ∙ ap (λ k. some (take k s)) (kept_all s n (omega arith))
    ∙ ap some (take_all (length s) s (omega arith))

-- For every limit but 1 the result and its NUL fit the buffer of `outlen_limit outlen_max + 1`
-- bytes, and the result is no longer than the limit.
pub length-util_shellquote :
    (s : Bytes) (outlen_max : ℕ)
    → outlen_max ≢ 1
    → length (util_shellquote s outlen_max) ≤ outlen_limit outlen_max
unfolding util_shellquote outlen_limit
length-util_shellquote s outlen_max h = ground (
  arith,
  length-append (quote_loop s (outlen_limit outlen_max - 1)) (quote ∷ []),
  length-quote_loop s (outlen_limit outlen_max - 1),
)

-- With a limit of 1 the two quotes fill the whole buffer of 2 bytes, and no byte is left for the
-- terminating NUL.
pub length-util_shellquote_one : (s : Bytes) → length (util_shellquote s 1) ≡ outlen_limit 1 + 1
unfolding util_shellquote outlen_limit quote_loop
length-util_shellquote_one [] = refl
length-util_shellquote_one (c ∷ s) = refl
