-- ===== src/Playlist/Goto.antt =====
-- Finding an entry again, as after a reread: `playlist_goto_entry`, then `playlist_skip_next`.

use ezstream.Prelude.{
  ℕ, suc, ◌+◌, ◌≡◌, refl, sym, ap, ◌∙◌, ◌≢◌, inl, inr, true, false, Option, none, some, List, [],
  ◌∷◌, ◌++◌, map, arith, length, take, replicate, All, length-append, take-append,
}
use ezstream.CString.{Bytes}
use ezstream.CString.Case.{str_eq_iff, str_eq_refl}
use ezstream.Playlist.{Playlist, playlist_skip_next, find_slot, playlist_goto_entry, ok}
use ezstream.Playlist.Slots.{Holds, length-map-some}
use ezstream.Playlist.Walk.{slot_at}

-- No entry of the list is the given one.
abbrev pub Lacks : Bytes → List Bytes → Type 0
Lacks e = All (λ x. x ≢ e)

find_slot_found :
    (a b : List Bytes) (e : Bytes) (i : ℕ)
    → Lacks e a
    → find_slot (map some (a ++ e ∷ b)) e i ≡ some (i + length a)
unfolding find_slot
find_slot_found [] b e i lacks = ground (arith, str_eq_refl e)
find_slot_found (x ∷ a) b e i (other, lacks) =
    ground (arith, str_eq_iff x e, find_slot_found a b e (i + 1) lacks)

find_slot_missing :
    (es : List Bytes) (e : Bytes) (i : ℕ) → Lacks e es → find_slot (map some es) e i ≡ none
unfolding find_slot
find_slot_missing [] e i lacks = refl
find_slot_missing (x ∷ es) e i (other, lacks) =
    ground (arith, str_eq_iff x e, find_slot_missing es e (i + 1) lacks)

entry_slots : (pl : Playlist) (es : List Bytes) → Holds pl es → take pl.num pl.list ≡ map some es
entry_slots pl es h = elim h.slots [
  | inl (empty, none_yet) ↦
      let zero_num : pl.num ≡ 0 = omega (arith, h.count, ap length none_yet) in
      ap (λ n. take n pl.list) zero_num ∙ ap (map some) (sym none_yet)
  | inr (k, shape) ↦
      let n : pl.num ≡ length (map {B = Option Bytes} some es) =
        omega (arith, h.count, length-map-some es) in
      ap (take pl.num) shape
      ∙ ap (λ m. take m (map some es ++ replicate (suc k) none)) n
      ∙ take-append (map some es) (replicate (suc k) none)
]

-- `playlist_goto_entry` goes to the first occurrence of an entry, and changes nothing and reports
-- failure if there is none.
pub playlist_goto_entry_lem :
    (pl : Playlist) (a b : List Bytes) (e : Bytes)
    → Holds pl (a ++ e ∷ b)
    → pl.program ≡ false
    → Lacks e a
    → playlist_goto_entry e pl ≡ (true, record pl { index = length a })
unfolding playlist_goto_entry
playlist_goto_entry_lem pl a b e h no_program lacks =
    let zero : 0 + length a ≡ length a = omega arith in
    let found : find_slot (take pl.num pl.list) e 0 ≡ some (length a) =
      ap (λ l. find_slot l e 0) (entry_slots pl (a ++ e ∷ b) h)
      ∙ find_slot_found a b e 0 lacks
      ∙ ap some zero in
    ground (arith, found)

pub playlist_goto_entry_missing :
    (pl : Playlist) (es : List Bytes) (e : Bytes)
    → Holds pl es
    → Lacks e es
    → playlist_goto_entry e pl ≡ (false, pl)
unfolding playlist_goto_entry
playlist_goto_entry_missing pl es e h lacks =
    let missing : find_slot (take pl.num pl.list) e 0 ≡ none =
      ap (λ l. find_slot l e 0) (entry_slots pl es h) ∙ find_slot_missing es e 0 lacks in
    ground (arith, missing)

-- After `playlist_goto_entry` and `playlist_skip_next` the playlist goes on with the entry behind
-- the first occurrence of the given one.
pub playlist_skip_next-goto_entry :
    (pl : Playlist) (a b : List Bytes) (e : Bytes)
    → Holds pl (a ++ e ∷ b)
    → pl.program ≡ false
    → Lacks e a
    → playlist_skip_next (playlist_goto_entry e pl).1 ≡ ok (record pl { index = length a + 1 })
unfolding playlist_skip_next
playlist_skip_next-goto_entry pl a b e h no_program lacks =
    let pl' = record pl { index = length a } in
    let h' : Holds pl' (a ++ e ∷ b) = record {
      count = h.count;
      bytes = h.bytes;
      slots = h.slots;
    } in
    rw (playlist_goto_entry_lem pl a b e h no_program lacks)
      (ground (arith, slot_at pl' a b e h' refl, h.count, length-append a (e ∷ b)))
