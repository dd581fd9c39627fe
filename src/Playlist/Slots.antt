-- ===== src/Playlist/Slots.antt =====
-- The array of a playlist holds its entries and is terminated by NULL.

use ezstream.Prelude.{
  ℕ, zero, suc, ◌+◌, ◌-◌, ◌*◌, ◌/◌, ◌≤◌, ◌<◌, ◌≡◌, refl, sym, ap, ◌∙◌, ◌≢◌, ◌⊎◌, inl, inr, Option,
  none, some, List, [], ◌∷◌, ◌++◌, map, append_assoc, arith, length, set, replicate, length-append,
  length-replicate, length-set, take-append,
}
use ezstream.CString.{Bytes}
use ezstream.Playlist.{ptr_size, Playlist, playlist_create, first_slots, grow_slots, playlist_add}

-- The slots of the entries, and at least one NULL behind them.
abbrev pub Terminated : List (Option Bytes) → List Bytes → Type 0
Terminated slots es = (k : ℕ) × (slots ≡ map some es ++ replicate (suc k) none)

-- `pl` stands for the entries `es`: either nothing was ever added and there is no array, or the
-- array is terminated.
pub record Holds (pl : Playlist) (es : List Bytes) : Type 0 where
  pub count : pl.num ≡ length es
  pub bytes : pl.size ≡ ptr_size * length pl.list
  pub slots : ((pl.list ≡ []) × (es ≡ [])) ⊎ Terminated pl.list es

pub Holds-playlist_create : (filename : Bytes) → Holds (playlist_create filename) []
unfolding playlist_create
Holds-playlist_create filename = record {
  count = refl;
  bytes = omega arith;
  slots = inl (refl, refl);
}

pub length-map-some : (es : List Bytes) → length (map {B = Option Bytes} some es) ≡ length es
length-map-some [] = refl
length-map-some (e ∷ es) = ap suc (length-map-some es)

set-append {ℓ} :
    {A : Type ℓ} (xs : List A) (y : A) (ys : List A) (n : ℕ) (v : A)
    → n ≡ length xs
    → set (xs ++ y ∷ ys) n v ≡ xs ++ v ∷ ys
set-append [] y ys zero v h = refl
set-append [] y ys (suc n) v h = absurd (omega arith)
set-append (x ∷ xs) y ys zero v h = absurd (omega arith)
set-append (x ∷ xs) y ys (suc n) v h = ap (◌∷◌ x) (set-append xs y ys n v (omega arith))

map-some-snoc :
    (es : List Bytes) (e : Bytes) (ys : List (Option Bytes))
    → map some es ++ some e ∷ ys ≡ map some (es ++ e ∷ []) ++ ys
map-some-snoc [] e ys = refl
map-some-snoc (x ∷ es) e ys = ap (◌∷◌ (some x)) (map-some-snoc es e ys)

pub length-Terminated :
    (es : List Bytes) (k : ℕ) → length (map some es ++ replicate (suc k) none) ≡ length es + suc k
length-Terminated es k = omega (
  arith,
  length-append (map some es) (replicate (suc k) none),
  length-map-some es,
  length-replicate {A = Option Bytes} (suc k) none,
)

-- A playlist whose array is there, with `n` entries and `k` spare slots.
record Allocated (pl : Playlist) (es : List Bytes) (k : ℕ) : Type 0 where
  count : pl.num ≡ length es
  bytes : pl.size ≡ ptr_size * length pl.list
  slots : pl.list ≡ map some es ++ replicate k none

first_slots_empty : (pl : Playlist) → pl.size ≡ 0 → (first_slots pl).list ≡ none ∷ none ∷ []
unfolding first_slots
first_slots_empty pl h = ground arith

first_slots_size : (pl : Playlist) → pl.size ≡ 0 → (first_slots pl).size ≡ 16
unfolding first_slots
first_slots_size pl h = ground arith

first_slots_num : (pl : Playlist) → (first_slots pl).num ≡ pl.num
unfolding first_slots
first_slots_num pl = ground arith

first_slots_later : (pl : Playlist) → pl.size ≢ 0 → first_slots pl ≡ pl
unfolding first_slots
first_slots_later pl h = ground arith

-- After the first test there is an array with a spare slot.
first_slots-Allocated :
    (pl : Playlist) (es : List Bytes)
    → Holds pl es
    → (k : ℕ) × Allocated (first_slots pl) es (suc k)
first_slots-Allocated pl es h = elim h.slots [
  | inl (empty, none_yet) ↦
      let zero_size : pl.size ≡ 0 = omega (arith, h.bytes, ap length empty) in
      (
        1,
        record {
          count = first_slots_num pl ∙ h.count;
          bytes =
              first_slots_size pl zero_size
              ∙ ap (λ l. ptr_size * length l) (sym (first_slots_empty pl zero_size));
          slots =
              first_slots_empty pl zero_size
              ∙ ap (λ l. map some l ++ none ∷ none ∷ []) (sym none_yet);
        },
      )
  | inr (k, slots) ↦
      let later =
        first_slots_later pl (omega (arith, h.bytes, ap length slots, length-Terminated es k)) in
      (k, rw later (record { count = h.count; bytes = h.bytes; slots = slots }))
]

grow_slots_num :
    (junk : Option Bytes) (num : ℕ) (pl : Playlist) → (grow_slots junk num pl).num ≡ pl.num
unfolding grow_slots
grow_slots_num junk num pl = ground arith

grow_slots_full :
    (junk : Option Bytes) (pl : Playlist)
    → pl.size / ptr_size ≤ length pl.list
    → ((grow_slots junk (length pl.list) pl).list
        ≡ pl.list ++ replicate (2 * pl.size / ptr_size - length pl.list) none)
      × ((grow_slots junk (length pl.list) pl).size ≡ 2 * pl.size)
unfolding grow_slots
grow_slots_full junk pl h =
    rw (take-append pl.list (replicate (2 * pl.size / ptr_size - length pl.list) junk))
      (ground arith)

grow_slots_room :
    (junk : Option Bytes) (num : ℕ) (pl : Playlist)
    → num < pl.size / ptr_size
    → grow_slots junk num pl ≡ pl
unfolding grow_slots
grow_slots_room junk num pl h = ground arith

-- After the second test there are two spare slots at least.
grow_slots-Allocated :
    (junk : Option Bytes) (pl : Playlist) (es : List Bytes) (k : ℕ) (num : ℕ)
    → Allocated pl es (suc k)
    → num ≡ length es + 1
    → (j : ℕ) × Allocated (grow_slots junk num pl) es (suc (suc j))
grow_slots-Allocated junk pl es zero num h e =
    let n = length-Terminated es 0 in
    let full : num ≡ length pl.list = omega (arith, e, n, ap length h.slots) in
    let (list_eq, size_eq) = grow_slots_full junk pl (omega (arith, h.bytes)) in
    let spare : 2 * pl.size / ptr_size - length pl.list ≡ suc (length es) =
      omega (arith, h.bytes, n, ap length h.slots) in
    let shape : (grow_slots junk num pl).list
        ≡ map some es ++ replicate (suc (suc (length es))) none =
      rw full (list_eq ∙ rw spare (rw h.slots (append_assoc (map some es) (none ∷ []) _))) in
    (
      length es,
      record {
        count = grow_slots_num junk num pl ∙ h.count;
        bytes = omega (
          arith,
          h.bytes,
          ap length shape,
          length-Terminated es (suc (length es)),
          n,
          ap length h.slots,
          ap (λ m. (grow_slots junk m pl).size) full,
          size_eq,
        );
        slots = shape;
      },
    )
grow_slots-Allocated junk pl es (suc k) num h e = (
  k,
  rw
      (grow_slots_room junk num pl
        (omega (arith, e, h.bytes, ap length h.slots, length-Terminated es (suc k))))
      h,
)

set_entry-Holds :
    (pl : Playlist) (es : List Bytes) (e : Bytes) (j num : ℕ)
    → Allocated pl es (suc (suc j))
    → num ≡ length es + 1
    → Holds (record pl { list = set pl.list (num - 1) (some e); num = num }) (es ++ e ∷ [])
set_entry-Holds pl es e j num h n = record {
  count = n ∙ sym (length-append es (e ∷ []));
  bytes = h.bytes ∙ ap (λ m. ptr_size * m) (sym (length-set pl.list (num - 1) (some e)));
  slots = inr (
    j,
    ap (λ l. set l (num - 1) (some e)) h.slots
        ∙ set-append (map some es) none (replicate (suc j) none) (num - 1) (some e)
            (omega (arith, length-map-some es))
        ∙ map-some-snoc es e (replicate (suc j) none),
  );
}

-- Adding an entry to a playlist that holds `es` gives one that holds `es` and the entry, whatever
-- an uninitialised slot contains.
pub playlist_add-Holds :
    (junk : Option Bytes) (pl : Playlist) (es : List Bytes) (e : Bytes)
    → Holds pl es
    → Holds (playlist_add junk pl e) (es ++ e ∷ [])
unfolding playlist_add
playlist_add-Holds junk pl es e h =
    let (k, a) = first_slots-Allocated pl es h in
    let n : pl.num + 1 ≡ length es + 1 = omega (arith, h.count) in
    let (j, b) = grow_slots-Allocated junk (first_slots pl) es k (pl.num + 1) a n in
    set_entry-Holds (grow_slots junk (pl.num + 1) (first_slots pl)) es e j (pl.num + 1) b n
