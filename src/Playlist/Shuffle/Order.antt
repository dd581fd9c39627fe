-- ===== src/Playlist/Shuffle/Order.antt =====
-- The shuffle permutes the entries.
use mathlib.Core.Option
use mathlib.Core.Option.{none-ne-some, some-injective}
use mathlib.Core.List.{Perm, perm-cons}
use mathlib.Core.List.Perm
use mathlib.Core.Path.{subst}
use ezstream.Prelude.{
  ℕ, zero, suc, ◌+◌, ◌%◌, ◌≤◌, ◌<◌, ◌≡◌, refl, sym, ap, ◌∙◌, inl, inr, ◌||◌, Option, none, some,
  List, [], ◌∷◌, ◌++◌, map, arith, ltb, Bool-cases, Option-cases, length, get_elem?, set, replicate,
  length-set,
}
use ezstream.CString.{Bytes}
use ezstream.Playlist.{Playlist}
use ezstream.Playlist.Slots.{Holds, length-Terminated}
use ezstream.Playlist.Shuffle.{draw, swap, shuffle_loop, playlist_shuffle}

module _ {ℓ} {A : Type ℓ} where
  -- A write exchanges the old element with the new one.
  set-perm :
      (xs : List A) (i : ℕ) (x y : A) → get_elem? xs i ≡ some x → Perm (x ∷ set xs i y) (y ∷ xs)
  set-perm [] i x y h = absurd (none-ne-some x h)
  set-perm (z ∷ xs) zero x y h = rw (some-injective z x h) (Perm.swap y x xs)
  set-perm (z ∷ xs) (suc i) x y h =
      Perm.trans (Perm.swap z x (set xs i y))
        (Perm.trans (Perm.cons z (set-perm xs i x y h)) (Perm.swap y z xs))

  get_elem?-set_same :
      (xs : List A) (d i : ℕ) (s : A) → get_elem? xs i ≡ some s → get_elem? (set xs d s) i ≡ some s
  get_elem?-set_same [] d i s h = h
  get_elem?-set_same (x ∷ xs) zero zero s h = refl
  get_elem?-set_same (x ∷ xs) zero (suc i) s h = h
  get_elem?-set_same (x ∷ xs) (suc d) zero s h = h
  get_elem?-set_same (x ∷ xs) (suc d) (suc i) s h = get_elem?-set_same xs d i s h

  swap-perm :
      (xs : List A) (i d : ℕ) (s t : A)
      → get_elem? xs i ≡ some s
      → get_elem? xs d ≡ some t
      → Perm (set (set xs d s) i t) xs
  swap-perm xs i d s t hi hd = (perm-cons s).0 (
      Perm.trans (set-perm (set xs d s) i s t (get_elem?-set_same xs d i s hi))
        (set-perm xs d t s hd))

  get_elem?-some : (xs : List A) (i : ℕ) → i < length xs → (x : A) × (get_elem? xs i ≡ some x)
  get_elem?-some [] i h = elim h [ ]
  get_elem?-some (x ∷ xs) zero h = (x, refl)
  get_elem?-some (x ∷ xs) (suc i) h = get_elem?-some xs i (omega arith)

get_elem?-map :
    (es : List Bytes) (tail : List (Option Bytes)) (i : ℕ) (e : Bytes)
    → get_elem? es i ≡ some e
    → get_elem? (map some es ++ tail) i ≡ some (some e)
get_elem?-map [] tail i e h = cc
get_elem?-map (x ∷ es) tail zero e h = cc
get_elem?-map (x ∷ es) tail (suc i) e h = get_elem?-map es tail i e h

set-map :
    (es : List Bytes) (tail : List (Option Bytes)) (i : ℕ) (e : Bytes)
    → i < length es
    → set (map some es ++ tail) i (some e) ≡ map some (set es i e) ++ tail
set-map [] tail i e h = elim h [ ]
set-map (x ∷ es) tail zero e h = refl
set-map (x ∷ es) tail (suc i) e h = ap (◌∷◌ (some x)) (set-map es tail i e (omega arith))

-- What the shuffle keeps: the slots stay a permutation of the entries, with the same rest.
abbrev Permutes : List Bytes → List (Option Bytes) → List (Option Bytes) → Type 0
Permutes es tail slots =
    (es' : List Bytes) × (slots ≡ map some es' ++ tail) × Perm es' es × (length es' ≡ length es)

swap_entries :
    (es : List Bytes) (tail : List (Option Bytes)) (i d : ℕ)
    → i < length es
    → d < length es
    → Permutes es tail (swap (map some es ++ tail) i d)
unfolding swap
swap_entries es tail i d hi hd =
    let (s, at_i) = get_elem?-some es i hi in
    let (t, at_d) = get_elem?-some es d hd in
    (
      set (set es d s) i t,
      rw (get_elem?-map es tail d t at_d, swap)
          (rw (get_elem?-map es tail i s at_i, swap)
            (rw (set-map es tail d s hd)
              (set-map (set es d s) tail i t (omega (arith, length-set es d s))))),
      swap-perm es i d s t at_i at_d,
      length-set (set es d s) i t ∙ length-set es d s,
    )

-- The index that a round draws lies between `i` and the last entry.
pub draw_in_range : (d n i num : ℕ) → i + suc n ≡ num → (i ≤ i + d % suc n) × (i + d % suc n < num)
draw_in_range d n i num h = omega arith

shuffle_entries :
    (n i : ℕ) (draws : List ℕ) (es : List Bytes) (tail slots : List (Option Bytes))
    → i + n ≡ length es
    → shuffle_loop n i draws (map some es ++ tail) ≡ some slots
    → Permutes es tail slots
unfolding shuffle_loop
shuffle_entries zero i draws es tail slots e h =
    (es, sym (some-injective _ slots h), Perm.refl es, refl)
shuffle_entries (suc n) i draws es tail slots e h = elim (Option-cases (draw (suc n) draws)) [
  | inl starved ↦ absurd (none-ne-some slots (rw (starved, shuffle_loop) at h))
  | inr ((d, rest), drawn) ↦
      let bounds = draw_in_range d n i (length es) e in
      let (es', shape, perm, same) =
        swap_entries es tail i (i + d % suc n) (omega arith) bounds.1 in
      let h' : shuffle_loop n (i + 1) rest (map some es' ++ tail) ≡ some slots =
        ap (shuffle_loop n (i + 1) rest) (sym shape) ∙ (rw (drawn, shuffle_loop) at h) in
      let (es'', shape', perm', same') =
        shuffle_entries n (i + 1) rest es' tail slots (omega arith) h' in
      (es'', shape', Perm.trans perm' perm, same' ∙ same)
]

Option-map-some {ℓ κ} :
    {A : Type ℓ} {B : Type κ} (f : A → B) (o : Option A) (b : B)
    → Option.map f o ≡ some b
    → (a : A) × (o ≡ some a) × (f a ≡ b)
Option-map-some f none b h = absurd (none-ne-some b h)
Option-map-some f (some a) b h = (a, refl, some-injective (f a) b h)

-- A playlist with the slots of a permutation holds the permutation.
Holds-permuted :
    (pl : Playlist) (es es' : List Bytes) (k : ℕ)
    → Holds pl es
    → pl.list ≡ map some es ++ replicate (suc k) none
    → length es' ≡ length es
    → Holds (record pl { list = map some es' ++ replicate (suc k) none }) es'
Holds-permuted pl es es' k h shape same = record {
  count = h.count ∙ sym same;
  bytes = omega (arith, h.bytes, ap length shape, length-Terminated es k, length-Terminated es' k);
  slots = inr (k, refl);
}

-- A shuffle, whatever numbers are drawn, rearranges the entries: none is lost, added or repeated,
-- and the array stays terminated.
pub playlist_shuffle-perm :
    (draws : List ℕ) (pl pl' : Playlist) (es : List Bytes)
    → Holds pl es
    → playlist_shuffle draws pl ≡ some pl'
    → (es' : List Bytes) × Holds pl' es' × Perm es' es
unfolding playlist_shuffle
playlist_shuffle-perm draws pl pl' es h shuffled = elim (Bool-cases (pl.program || ltb pl.num 2)) [
  | inl trivial ↦
      let same : pl ≡ pl' = some-injective pl pl' (rw trivial at shuffled) in
      (es, subst (λ q. Holds q es) same h, Perm.refl es)
  | inr busy ↦ elim h.slots [
    | inl (_, none_yet) ↦ absurd (ground (arith, h.count, ap length none_yet))
    | inr (k, shape) ↦
        let tail = replicate (suc k) none in
        let (slots, looped, made) = Option-map-some _ _ pl' (rw busy at shuffled) in
        let looped' : shuffle_loop pl.num 0 draws (map some es ++ tail) ≡ some slots =
          ap (shuffle_loop pl.num 0 draws) (sym shape) ∙ looped in
        let (es', shape', perm, same) =
          shuffle_entries pl.num 0 draws es tail slots (omega (arith, h.count)) looped' in
        let pl_eq : record pl { list = map some es' ++ tail } ≡ pl' =
          ap (λ l. record pl { list = l }) (sym shape') ∙ made in
        (es', subst (λ q. Holds q es') pl_eq (Holds-permuted pl es es' k h shape same), perm)
  ]
]
