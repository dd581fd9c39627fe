-- ===== src/Mdata/Normal.antt =====
-- src/mdata.c: `_mdata_normalize_string` against the words of the text.
use mathlib.Core.Option
use ezstream.Prelude.{
  ℕ, ◌≡◌, refl, sym, ap, ◌∙◌, inl, inr, Bool, true, false, Option, none, some, List, [], ◌∷◌, ◌++◌,
  append-nil, ◌==◌, if◌then◌else◌, Bool-cases,
}
use ezstream.CString.{Bytes}
use ezstream.Mdata.{space, squeeze, strip_end, normalize_string}

-- A byte in front of the first field.
abbrev pub push : ℕ → List Bytes → List Bytes
push c [] = (c ∷ []) ∷ []
push c (w ∷ ws) = (c ∷ w) ∷ ws

-- The fields between blanks, empty ones included.
unfoldable pub fields : Bytes → List Bytes
fields [] = [] ∷ []
fields (c ∷ s) = if c == space then [] ∷ fields s else push c (fields s)

abbrev pub drop_empty : List Bytes → List Bytes
drop_empty [] = []
drop_empty ([] ∷ ws) = drop_empty ws
drop_empty ((c ∷ w) ∷ ws) = (c ∷ w) ∷ drop_empty ws

-- Words with one blank between each two of them.
abbrev pub unwords : List Bytes → Bytes
unwords [] = []
unwords (w ∷ []) = w
unwords (w ∷ v ∷ ws) = w ++ space ∷ unwords (v ∷ ws)

abbrev pub words : Bytes → List Bytes
words s = drop_empty (fields s)

-- A blank in front of what follows, if anything does.
abbrev glue : Bytes → Bytes
glue [] = []
glue (c ∷ s) = space ∷ c ∷ s

unwords-cons : (c : ℕ) (w : Bytes) (ws : List Bytes) → unwords ((c ∷ w) ∷ ws) ≡ c ∷ unwords (w ∷ ws)
unwords-cons c w [] = refl
unwords-cons c w (v ∷ ws) = refl

unwords-glue :
    (w : Bytes) (ws : List Bytes)
    → unwords (w ∷ drop_empty ws) ≡ w ++ glue (unwords (drop_empty ws))
unwords-glue w [] = sym (append-nil w)
unwords-glue w ([] ∷ ws) = unwords-glue w ws
unwords-glue w ((c ∷ v) ∷ ws) =
    let start = unwords-cons c v (drop_empty ws) in
    ap (λ u. w ++ space ∷ u) start ∙ ap (λ u. w ++ glue u) (sym start)

push_twice :
    (x c : ℕ) (ws : List Bytes)
    → unwords (drop_empty (push x (push c ws))) ≡ x ∷ unwords (drop_empty (push c ws))
push_twice x c [] = refl
push_twice x c (w ∷ ws) = unwords-cons x (c ∷ w) (drop_empty ws)

squeeze_blank :
    (b : Bool) (c : ℕ) (s : Bytes)
    → (c == space) ≡ true
    → squeeze b (c ∷ s) ≡ (if b then squeeze true s else space ∷ squeeze true s)
unfolding squeeze
squeeze_blank b c s h = rw (h, squeeze) refl

squeeze_other :
    (b : Bool) (c : ℕ) (s : Bytes) → (c == space) ≡ false → squeeze b (c ∷ s) ≡ c ∷ squeeze false s
unfolding squeeze
squeeze_other b c s h = rw (h, squeeze) refl

fields_blank : (c : ℕ) (s : Bytes) → (c == space) ≡ true → fields (c ∷ s) ≡ [] ∷ fields s
unfolding fields
fields_blank c s h = rw (h, fields) refl

fields_other : (c : ℕ) (s : Bytes) → (c == space) ≡ false → fields (c ∷ s) ≡ push c (fields s)
unfolding fields
fields_other c s h = rw (h, fields) refl

-- A byte that is no blank stays at the front.
strip_end_head :
    (c : ℕ) (s : Bytes) → (c == space) ≡ false → (u : Bytes) × (strip_end (c ∷ s) ≡ c ∷ u)
unfolding strip_end
strip_end_head c [] h = ([], rw (h, strip_end) refl)
strip_end_head c (d ∷ s) h = (strip_end (d ∷ s), refl)

-- The squeezed text begins with a byte that is no blank, if it is not empty.
strip_end-space :
    (s : Bytes) → strip_end (space ∷ squeeze true s) ≡ glue (strip_end (squeeze true s))
unfolding strip_end squeeze
strip_end-space [] = refl
strip_end-space (c ∷ s) = elim (Bool-cases (c == space)) [
  | inl e ↦
      let same = squeeze_blank true c s e in
      ap (λ t. strip_end (space ∷ t)) same
      ∙ strip_end-space s
      ∙ ap (λ t. glue (strip_end t)) (sym same)
  | inr e ↦
      let same = squeeze_other true c s e in
      let (u, head) = strip_end_head c (squeeze false s) e in
      ap (λ t. strip_end (space ∷ t)) same
      ∙ ap (λ t. space ∷ t) head
      ∙ ap glue (sym head)
      ∙ ap (λ t. glue (strip_end t)) (sym same)
]

strip_end_two : (x c : ℕ) (t : Bytes) → strip_end (x ∷ c ∷ t) ≡ x ∷ strip_end (c ∷ t)
unfolding strip_end
strip_end_two x c t = refl

nothing_left :
    (x : ℕ)
    → (x == space) ≡ false
    → strip_end (x ∷ squeeze false []) ≡ unwords (drop_empty (push x (fields [])))
unfolding strip_end squeeze fields
nothing_left x h = rw (h, strip_end) refl

nothing_at_all : strip_end (squeeze true []) ≡ unwords (words [])
unfolding strip_end squeeze fields
nothing_at_all = refl

-- The loop at the start of a field and behind the byte `x` of one.
normal_both :
    (s : Bytes)
    → (strip_end (squeeze true s) ≡ unwords (words s))
      × ((x : ℕ)
          → (x == space) ≡ false
          → strip_end (x ∷ squeeze false s) ≡ unwords (drop_empty (push x (fields s))))
normal_both [] = (nothing_at_all, nothing_left)
normal_both (c ∷ s) = elim (Bool-cases (c == space)) [
  | inl e ↦
      let (start, _) = normal_both s in
      (
        ap strip_end (squeeze_blank true c s e)
            ∙ start
            ∙ ap (λ f. unwords (drop_empty f)) (sym (fields_blank c s e)),
        λ x h.
            ap (λ t. strip_end (x ∷ t)) (squeeze_blank false c s e)
            ∙ strip_end_two x space (squeeze true s)
            ∙ ap (◌∷◌ x) (strip_end-space s ∙ ap glue start)
            ∙ sym (unwords-glue (x ∷ []) (fields s))
            ∙ ap (λ f. unwords (drop_empty (push x f))) (sym (fields_blank c s e)),
      )
  | inr e ↦
      let (_, word) = normal_both s in
      (
        ap strip_end (squeeze_other true c s e)
            ∙ word c e
            ∙ ap (λ f. unwords (drop_empty f)) (sym (fields_other c s e)),
        λ x h.
            ap (λ t. strip_end (x ∷ t)) (squeeze_other false c s e)
            ∙ strip_end_two x c (squeeze false s)
            ∙ ap (◌∷◌ x) (word c e)
            ∙ sym (push_twice x c (fields s))
            ∙ ap (λ f. unwords (drop_empty (push x f))) (sym (fields_other c s e)),
      )
]

-- Normalizing leaves the words of the text, in their order, with one blank between each two of them
-- and none before or behind them. NULL stays NULL.
pub normalize_string-words :
    (o : Option Bytes) → normalize_string o ≡ Option.map (λ s. unwords (words s)) o
unfolding normalize_string
normalize_string-words none = refl
normalize_string-words (some s) = ap some (normal_both s).0
