-- ===== src/Playlist/Shuffle.antt =====
-- src/playlist.c: `playlist_shuffle`. Randomness is the list of the numbers that are drawn.
pub mod Order
pub mod Draws
pub mod Remainders
use mathlib.Core.Option
use ezstream.Prelude.{
  ℕ, zero, suc, ◌+◌, ◌-◌, ◌%◌, ◌^◌, Bool, ◌||◌, Option, none, some, List, [], ◌∷◌, map, ltb,
  if◌then◌else◌, get_elem?, set,
}
use ezstream.CString.{Bytes}
use ezstream.Playlist.{Playlist}

abbrev pub rand_max : ℕ
rand_max = 2 ^ 31 - 1

-- `d > RAND_MAX - (RAND_MAX % range)`
unfoldable pub rejects : ℕ → ℕ → Bool
rejects range d = ltb (rand_max - rand_max % range) d

-- The `do` loop: the first drawn number that is not rejected, and the numbers left. `none` means
-- that there is none among them.
unfoldable pub draw : ℕ → List ℕ → Option (ℕ × List ℕ)
unfolding rejects
draw range [] = none
draw range (d ∷ draws) = if rejects range d then draw range draws else some (d, draws)

-- `temp = list[d]; list[d] = list[i]; list[i] = temp`
unfoldable pub swap : List (Option Bytes) → ℕ → ℕ → List (Option Bytes)
swap slots i d = elim (get_elem? slots d) [
  | none ↦ slots
  | some temp ↦ elim (get_elem? slots i) [
    | none ↦ slots
    | some slot ↦ set (set slots d slot) i temp
  ]
]

-- The `for` loop from `i` on, with `n` rounds left, so that `range` is `n` in its first round.
unfoldable pub shuffle_loop : ℕ → ℕ → List ℕ → List (Option Bytes) → Option (List (Option Bytes))
unfolding draw swap
shuffle_loop zero i draws slots = some slots
shuffle_loop (suc n) i draws slots = elim (draw (suc n) draws) [
  | none ↦ none
  | some (d, rest) ↦ shuffle_loop n (i + 1) rest (swap slots i (i + d % suc n))
]

-- `playlist_shuffle`; `none` means that the drawn numbers ran out.
unfoldable pub playlist_shuffle : List ℕ → Playlist → Option Playlist
unfolding shuffle_loop
playlist_shuffle draws pl =
    if pl.program || ltb pl.num 2
    then some pl
    else Option.map (λ slots. record pl { list = slots }) (shuffle_loop pl.num 0 draws pl.list)
