-- ===== src/Util/Expand/Loop.antt =====
-- The loop of `util_expand_words` against the recursion, with the sizes that it keeps.
use ezstream.Prelude.{
  ℕ, zero, suc, ◌+◌, ◌-◌, ◌<◌, ◌≡◌, refl, sym, ap, ◌∙◌, inl, inr, none, some, List, [], ◌∷◌, ◌++◌,
  append-nil, arith, ◌==◌, if◌then◌else◌, Option-cases, length, take, drop, rev_append,
  length-append, take-append, drop-append,
}
use ezstream.CString.{Bytes, snprintf_s}
use ezstream.CString.Copy.{snprintf_s_fits}
use ezstream.CString.Search.{length-starts_with}
use ezstream.Util.{Entry, Buffer, find_entry, expand_at, expand_loop, util_expand_words}
use ezstream.Util.Expand.{replace_first, expand, find_entry-starts_with}

rev_append_nil : (r t : Bytes) → rev_append r [] ++ t ≡ rev_append r t
rev_append_nil r t = rev_append_onto r [] t
  where
    rev_append_onto : (r s t : Bytes) → rev_append r s ++ t ≡ rev_append r (s ++ t)
    rev_append_onto [] s t = refl
    rev_append_onto (c ∷ r) s t = rev_append_onto r (c ∷ s) t

length-rev_append : (r t : Bytes) → length (rev_append r t) ≡ length r + length t
length-rev_append [] t = omega arith
length-rev_append (c ∷ r) t = omega (arith, length-rev_append r (c ∷ t))

drop-rev_append : (r t : Bytes) → drop (length r) (rev_append r t) ≡ t
drop-rev_append r t =
    let e : length (rev_append r []) ≡ length r = omega (arith, length-rev_append r []) in
    rw (← rev_append_nil r t) (rw (← e) (drop-append (rev_append r []) t))

take-rev_append : (r t : Bytes) → take (length r) (rev_append r t) ≡ rev_append r []
take-rev_append r t =
    let e : length (rev_append r []) ≡ length r = omega (arith, length-rev_append r []) in
    rw (← rev_append_nil r t) (rw (← e) (take-append (rev_append r []) t))

drop_nil {ℓ} : {A : Type ℓ} (k : ℕ) → drop {A = A} k [] ≡ []
drop_nil zero = refl
drop_nil (suc k) = refl

drop-add {ℓ} : {A : Type ℓ} (i k : ℕ) (s : List A) → drop (i + k) s ≡ drop k (drop i s)
drop-add zero k s = let e : 0 + k ≡ k = omega arith in ap (λ n. drop n s) e
drop-add {A} (suc i) k [] = drop_nil (suc i + k) ∙ sym (drop_nil {A = A} k)
drop-add (suc i) k (x ∷ s) =
    let e : suc i + k ≡ suc (i + k) = omega arith in ap (λ n. drop n (x ∷ s)) e ∙ drop-add i k s

length-drop : (n : ℕ) (s : Bytes) → length (drop n s) ≡ length s - n
length-drop zero s = omega arith
length-drop (suc n) [] = omega arith
length-drop (suc n) (x ∷ s) = omega (arith, length-drop n s)

-- What one round does to the buffer: it replaces the text from `i` on, and the size that is kept
-- stays above the length of the text.
abbrev Rewrites : List Entry → Bytes → Bytes → Buffer → Type 0
Rewrites dicts r t b = (b.out ≡ rev_append r (replace_first dicts t)) × (length b.out < b.out_size)

module _ (dicts : List Entry) (r t : Bytes) (b : Buffer) (shape : b.out ≡ rev_append r t) where
  suffix_at : drop (length r) b.out ≡ t
  suffix_at = ap (drop (length r)) shape ∙ drop-rev_append r t

  prefix_at : take (length r) b.out ≡ rev_append r []
  prefix_at = ap (take (length r)) shape ∙ take-rev_append r t

  -- The sizes given to `snprintf` cut nothing.
  prefix_copy : snprintf_s (length r + 1) b.out ≡ rev_append r []
  unfolding snprintf_s
  prefix_copy =
      let e : length r + 1 - 1 ≡ length r = omega arith in ap (λ n. take n b.out) e ∙ prefix_at

  module _ (d : Entry) (found : find_entry dicts t ≡ some d) where
    abbrev replaced : Bytes
    replaced = d.to ++ drop (length d.from) t

    abbrev buf_len : ℕ
    buf_len = length t + length d.to - length d.from

    length-replaced : length replaced ≡ buf_len
    length-replaced = omega (
      arith,
      length-append d.to (drop (length d.from) t),
      length-drop (length d.from) t,
      length-starts_with t d.from (find_entry-starts_with dicts t d found),
    )

    rest_at : drop (length r + length d.from) b.out ≡ drop (length d.from) t
    rest_at = drop-add (length r) (length d.from) b.out ∙ ap (drop (length d.from)) suffix_at

    replaced_copy :
        length b.out < b.out_size
        → snprintf_s (b.out_size + buf_len - length r) (snprintf_s (buf_len + 1) replaced)
          ≡ replaced
    replaced_copy room =
        rw (snprintf_s_fits replaced (buf_len + 1) (omega (arith, length-replaced))) (
          snprintf_s_fits replaced _
            (omega (arith, length-replaced, ap length shape, length-rev_append r t)))

    expand_at_found : length b.out < b.out_size → Rewrites dicts r t (expand_at dicts (length r) b)
    unfolding expand_at replace_first
    expand_at_found room =
        rw (suffix_at, found, expand_at, replace_first)
          (rw (suffix_at, rest_at, prefix_copy, replaced_copy room)
            (
              rev_append_nil r replaced,
              omega (
                arith,
                length-append (rev_append r []) replaced,
                length-replaced,
                length-rev_append r [],
                ap length shape,
                length-rev_append r t,
              ),
            ))

  expand_at_lem : length b.out < b.out_size → Rewrites dicts r t (expand_at dicts (length r) b)
  unfolding expand_at replace_first
  expand_at_lem room = elim (Option-cases (find_entry dicts t)) [
    | inl missing ↦ rw (suffix_at, missing, expand_at, replace_first) (shape, room)
    | inr (d, found) ↦ expand_at_found d found room
  ]

-- The rounds that are left rewrite the whole text.
expand_loop_lem :
    (dicts : List Entry) (r t : Bytes) (b : Buffer)
    → b.out ≡ rev_append r (expand dicts t)
    → length b.out < b.out_size
    → (expand_loop dicts (length r) b).out ≡ expand dicts (rev_append r t)
unfolding expand_loop
expand_loop_lem dicts [] t b shape room = shape
expand_loop_lem dicts (c ∷ r) t b shape room =
    let (shape', room') = expand_at_lem dicts r (c ∷ expand dicts t) b shape room in
    expand_loop_lem dicts r (c ∷ t) (expand_at dicts (length r) b) (unfold expand in shape') room'

rev_append_twice : (r s t : Bytes) → rev_append (rev_append r s) t ≡ rev_append s (r ++ t)
rev_append_twice [] s t = refl
rev_append_twice (c ∷ r) s t = rev_append_twice r (c ∷ s) t

expand_loop_all :
    (dicts : List Entry) (input : Bytes) (size : ℕ)
    → length input < size
    → (expand_loop dicts (length input) (record { out = input; out_size = size })).out
      ≡ expand dicts input
expand_loop_all dicts input size room =
    let r = rev_append input [] in
    let back : rev_append r [] ≡ input = rev_append_twice input [] [] ∙ append-nil input in
    let n : length r ≡ length input = omega (arith, length-rev_append input []) in
    ap (λ k. (expand_loop dicts k (record { out = input; out_size = size })).out) (sym n)
    ∙ expand_loop_lem dicts r [] (record { out = input; out_size = size })
        (unfold expand in sym back) room
    ∙ ap (expand dicts) back

-- `util_expand_words` returns the recursive expansion of its input, and NULL exactly for the empty
-- text: the sizes that the loop computes are large enough, so that no copy is cut short.
pub util_expand_words-eq-expand :
    (input : Bytes) (dicts : List Entry)
    → util_expand_words input dicts
      ≡ (if length input == 0 then none else some (expand dicts input))
unfolding util_expand_words
util_expand_words-eq-expand input dicts =
    let e : length input + 1 - 1 ≡ length input = omega arith in
    rw e (ground (arith, expand_loop_all dicts input (length input + 1)))
