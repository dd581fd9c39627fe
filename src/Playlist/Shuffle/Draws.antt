-- ===== src/Playlist/Shuffle/Draws.antt =====
-- The shuffle ends once enough acceptable numbers are drawn, and which numbers it accepts.

use native.Mathlib.Nat.{mod-lt}
use ezstream.Prelude.{
  ℕ, zero, suc, ◌+◌, ◌%◌, ◌≤◌, ◌<◌, ◌≡◌, refl, inl, inr, true, false, ◌||◌, Option, some, List, [],
  ◌∷◌, arith, ltb, leb, if◌then◌else◌, Bool-cases,
}
use ezstream.CString.{Bytes}
use ezstream.Playlist.{Playlist}
use ezstream.Playlist.Shuffle.{rand_max, rejects, draw, swap, shuffle_loop, playlist_shuffle}

-- How many of the drawn numbers every range up to `num` accepts.
unfoldable pub acceptable : ℕ → List ℕ → ℕ
acceptable num [] = 0
acceptable num (d ∷ draws) = (if leb (d + num) rand_max then 1 else 0) + acceptable num draws

-- What a range up to `num` rejects is not counted.
rejected_not_counted :
    (num n d : ℕ) → suc n ≤ num → rejects (suc n) d ≡ true → leb (d + num) rand_max ≡ false
unfolding rejects
rejected_not_counted num n d h r = ground (arith, mod-lt rand_max {m = suc n} (omega arith))

acceptable_skip :
    (num d : ℕ) (draws : List ℕ)
    → leb (d + num) rand_max ≡ false
    → acceptable num (d ∷ draws) ≡ acceptable num draws
unfolding acceptable
acceptable_skip num d draws h = ground arith

-- What is left behind a draw: the accepted number counts once at most.
record Drawn (num n : ℕ) (draws : List ℕ) : Type 0 where
  number : ℕ
  rest : List ℕ
  drawn : draw (suc n) draws ≡ some (number, rest)
  left : acceptable num draws ≤ suc (acceptable num rest)

draw_lem : (num n : ℕ) (draws : List ℕ) → suc n ≤ num → 0 < acceptable num draws → Drawn num n draws
unfolding draw
draw_lem num n [] h room = let none_left : 0 < 0 = (unfold acceptable in room) in elim none_left [ ]
draw_lem num n (d ∷ draws) h room = elim (Bool-cases (rejects (suc n) d)) [
  | inl rejected ↦
      let same = acceptable_skip num d draws (rejected_not_counted num n d h rejected) in
      let later = draw_lem num n draws h (rw same at room) in
      record {
        number = later.number;
        rest = later.rest;
        drawn = rw rejected later.drawn;
        left = rw same later.left;
      }
  | inr accepted ↦ record {
    number = d;
    rest = draws;
    drawn = rw accepted refl;
    left = unfold acceptable in ground arith;
  }
]

shuffle_loop_total :
    (num n i : ℕ) (draws : List ℕ) (slots : List (Option Bytes))
    → n ≤ num
    → n ≤ acceptable num draws
    → (slots' : List (Option Bytes)) × (shuffle_loop n i draws slots ≡ some slots')
unfolding shuffle_loop
shuffle_loop_total num zero i draws slots h room = (slots, refl)
shuffle_loop_total num (suc n) i draws slots h room =
    let d = draw_lem num n draws h (omega arith) in
    let left = d.left in
    let (slots', looped) =
      shuffle_loop_total num n (i + 1) d.rest (swap slots i (i + d.number % suc n)) (omega arith)
        (omega arith) in
    (slots', rw (d.drawn, shuffle_loop) looped)

-- The shuffle ends: it returns as soon as the source of randomness has given `num` numbers that
-- are at least `num` below `RAND_MAX`, in any order and among any others.
pub playlist_shuffle_total :
    (draws : List ℕ) (pl : Playlist)
    → pl.num ≤ acceptable pl.num draws
    → (pl' : Playlist) × (playlist_shuffle draws pl ≡ some pl')
unfolding playlist_shuffle
playlist_shuffle_total draws pl h =
    let (slots, looped) = shuffle_loop_total pl.num pl.num 0 draws pl.list (omega arith) h in
    elim (Bool-cases (pl.program || ltb pl.num 2)) [
      | inl trivial ↦ (pl, rw trivial refl)
      | inr busy ↦ (record pl { list = slots }, rw busy (rw looped refl))
    ]
