-- ===== src/Playlist/Walk.antt =====
-- Going through a playlist: what `playlist_get_next`, `playlist_skip_next` and
-- `playlist_goto_entry` do on one that holds a list of entries.
use mathlib.Core.List.{map-append, cons-ne-nil}
use mathlib.Core.Path.{subst}
use ezstream.Prelude.{
  ℕ, zero, suc, ◌+◌, ◌≤◌, ◌≡◌, refl, sym, ap, ◌∙◌, ◌≢◌, inl, inr, false, Option, none, some, List,
  [], ◌∷◌, ◌++◌, map, append-nil, append_assoc, arith, length, get_elem?, replicate, length-append,
  get_elem?-append,
}
use ezstream.CString.{Bytes}
use ezstream.Playlist.{Playlist, Run, Access, playlist_get_next, not_run, ok, out_of_bounds}
use ezstream.Playlist.Slots.{Holds, length-map-some}
use ezstream.Playlist.Read.Entries.{IsFresh}

-- The callers' loop `while (NULL != (entry = playlist_get_next(pl)))`: the entries that it gets,
-- with fuel; `none` means that the fuel ran out.
unfoldable pub walk : ℕ → Playlist → Option (Access (List Bytes))
walk zero pl = none
walk (suc fuel) pl = elim (playlist_get_next not_run pl) [
  | out_of_bounds ↦ some out_of_bounds
  | ok (none, pl') ↦ some (ok [])
  | ok (some e, pl') ↦ elim (walk fuel pl') [
    | none ↦ none
    | some out_of_bounds ↦ some out_of_bounds
    | some (ok es) ↦ some (ok (e ∷ es))
  ]
]

get_elem?-none {ℓ} : {A : Type ℓ} (xs : List A) (i : ℕ) → length xs ≤ i → get_elem? xs i ≡ none
get_elem?-none [] i h = refl
get_elem?-none (x ∷ xs) zero h = absurd (omega arith)
get_elem?-none (x ∷ xs) (suc i) h = get_elem?-none xs i (omega arith)

-- The slot at the position of an entry, and the one behind the last entry.
module _ (pl : Playlist) (a b : List Bytes) where
  pub slot_at :
      (e : Bytes)
      → Holds pl (a ++ e ∷ b)
      → pl.index ≡ length a
      → get_elem? pl.list pl.index ≡ some (some e)
  slot_at e h at = elim h.slots [
    | inl (_, gone) ↦ absurd (omega (arith, ap length gone, length-append a (e ∷ b)))
    | inr (k, shape) ↦
        let tail = replicate {A = Option Bytes} (suc k) none in
        let shape' : pl.list ≡ map some a ++ some e ∷ (map some b ++ tail) =
          shape
          ∙ ap (λ l. l ++ tail) (map-append some a (e ∷ b))
          ∙ append_assoc (map some a) (some e ∷ map some b) tail in
        ap (λ l. get_elem? l pl.index) shape'
        ∙ get_elem?-append (map some a) (some e) _ pl.index (omega (arith, length-map-some a))
  ]

slot_behind :
    (pl : Playlist) (es : List Bytes)
    → Holds pl es
    → es ≢ []
    → pl.index ≡ length es
    → get_elem? pl.list pl.index ≡ some none
slot_behind pl es h nonempty at = elim h.slots [
  | inl (_, gone) ↦ absurd (nonempty gone)
  | inr (k, shape) ↦
      ap (λ l. get_elem? l pl.index) shape
      ∙ get_elem?-append (map some es) none _ pl.index (omega (arith, length-map-some es))
]

-- In front of an entry `playlist_get_next` returns it and goes on to the next.
pub playlist_get_next_entry :
    (run : Run) (pl : Playlist) (a b : List Bytes) (e : Bytes)
    → Holds pl (a ++ e ∷ b)
    → pl.program ≡ false
    → pl.index ≡ length a
    → playlist_get_next run pl ≡ ok (some e, record pl { index = pl.index + 1 })
unfolding playlist_get_next
playlist_get_next_entry run pl a b e h no_program at =
    ground (arith, slot_at pl a b e h at, h.count, length-append a (e ∷ b))

-- Behind the last entry it returns NULL.
pub playlist_get_next_end :
    (run : Run) (pl : Playlist) (es : List Bytes)
    → Holds pl es
    → pl.program ≡ false
    → pl.index ≡ length es
    → (pl' : Playlist) × (playlist_get_next run pl ≡ ok (none, pl'))
unfolding playlist_get_next
playlist_get_next_end run pl [] h no_program at = (pl, ground (arith, h.count))
playlist_get_next_end run pl (e ∷ es) h no_program at = (
  record pl { index = pl.index + 1 },
  ground (arith, slot_behind pl (e ∷ es) h (cons-ne-nil e es) at, h.count),
)

-- Going on behind that NULL can leave the array: where only one slot is spare, the next call reads
-- beyond it.
pub playlist_get_next_twice :
    (run : Run) (pl : Playlist) (es : List Bytes)
    → Holds pl es
    → pl.program ≡ false
    → es ≢ []
    → pl.list ≡ map some es ++ none ∷ []
    → pl.index ≡ length es
    → (pl' : Playlist) × (playlist_get_next run pl ≡ ok (none, pl'))
      × (playlist_get_next run pl' ≡ out_of_bounds)
unfolding playlist_get_next
playlist_get_next_twice run pl es h no_program nonempty shape at =
    let i = pl.index in
    let past : get_elem? (map some es ++ none ∷ []) (i + 1) ≡ none =
      get_elem?-none (map some es ++ none ∷ []) (i + 1)
        (omega (arith, length-append (map some es) (none ∷ []), length-map-some es)) in
    (
      record pl { index = i + 1 },
      ground (arith, slot_behind pl es h nonempty at, h.count),
      ground (arith, past, ap (λ l. get_elem? l (i + 1)) shape, h.count),
    )

walk_from :
    (pl : Playlist) (a b : List Bytes)
    → Holds pl (a ++ b)
    → pl.program ≡ false
    → pl.index ≡ length a
    → walk (suc (length b)) pl ≡ some (ok b)
unfolding walk
walk_from pl a [] h no_program at =
    let (pl', end) =
      playlist_get_next_end not_run pl a (subst (Holds pl) (append-nil a) h) no_program at in
    rw (end, walk) refl
walk_from pl a (e ∷ b) h no_program at =
    let pl' = record pl { index = pl.index + 1 } in
    let h' : Holds pl' (a ++ e ∷ b) = record {
      count = h.count;
      bytes = h.bytes;
      slots = h.slots;
    } in
    rw (playlist_get_next_entry not_run pl a b e h no_program at, walk)
      (rw
        (walk_from pl' (a ++ e ∷ []) b (subst (Holds pl') (sym (append_assoc a (e ∷ []) b)) h')
          no_program (omega (arith, length-append a (e ∷ []))))
        refl)

-- From the start, the loop of the callers gets exactly the entries, in their order, and then NULL,
-- and never reads beyond the array.
pub walk_all :
    (pl : Playlist) (es : List Bytes) → IsFresh pl es → walk (length es + 1) pl ≡ some (ok es)
walk_all pl es h =
    let e : length es + 1 ≡ suc (length es) = omega arith in
    rw e (walk_from pl [] es h.holds h.no_program h.at_start)
