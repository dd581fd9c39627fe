-- ===== src/Playlist.antt =====
-- src/playlist.c: the playlist, its array of slots and the operations on it. `size` is the size of
-- the array in bytes; a slot is NULL or a path. Logging is left out, and the output of a program is
-- an argument. Reading a file stands in Playlist/Read, the shuffle in Playlist/Shuffle.
pub mod Slots
pub mod Read
pub mod Shuffle
pub mod Walk
pub mod Goto
pub mod Tests
use mathlib.Core.Option
use Prim.Native.Nat.{bit_and}
use ezstream.Prelude.{
  ℕ, ◌+◌, ◌-◌, ◌*◌, ◌/◌, Bool, true, false, not, ◌||◌, Option, none, some, List, [], ◌∷◌, ◌++◌, leb,
  ◌==◌, if◌then◌else◌, length, get_elem?, set, take, replicate,
}
use ezstream.CString.{Bytes, str_eq, c_str}
use ezstream.CString.Input.{fgets, trim}

abbrev pub path_max : ℕ
path_max = 4096

-- `sizeof(char *)`
abbrev pub ptr_size : ℕ
ptr_size = 8

-- `struct playlist`
pub record Playlist : Type 0 where
  pub filename : Bytes
  pub list : List (Option Bytes)
  pub size : ℕ
  pub num : ℕ
  pub index : ℕ
  pub program : Bool
  pub prog_track : Option Bytes

-- `_playlist_create`
unfoldable pub playlist_create : Bytes → Playlist
playlist_create filename = record {
  filename = filename;
  list = [];
  size = 0;
  num = 0;
  index = 0;
  program = false;
  prog_track = none;
}

-- `if (pl->size == 0)`: the first two slots, which `xcalloc` clears.
unfoldable pub first_slots : Playlist → Playlist
first_slots pl =
    if pl.size == 0 then record pl { list = replicate 2 none; size = 2 * ptr_size } else pl

-- The slots behind index `num` are set to NULL. `junk` is what an uninitialised slot holds.
module _ (junk : Option Bytes) where
  -- `if (pl->size / sizeof(char *) <= num)`: twice the size. `xreallocarray` keeps the slots and
  -- does not clear the new ones; the loop clears those from `num` on.
  unfoldable pub grow_slots : ℕ → Playlist → Playlist
  grow_slots num pl =
      let slots = 2 * pl.size / ptr_size in
      let grown = pl.list ++ replicate (slots - length pl.list) junk in
      if leb (pl.size / ptr_size) num
      then record pl { list = take num grown ++ replicate (slots - num) none; size = 2 * pl.size }
      else pl

  -- `_playlist_add`
  unfoldable pub playlist_add : Playlist → Bytes → Playlist
  unfolding first_slots grow_slots
  playlist_add pl entry =
      let num = pl.num + 1 in
      let grown = grow_slots num (first_slots pl) in
      record grown { list = set grown.list (num - 1) (some entry); num = num }

abbrev s_iwoth : ℕ
s_iwoth = 0o002

-- `S_IEXEC | S_IXGRP | S_IXOTH`
abbrev s_ixany : ℕ
s_ixany = 0o111

-- `playlist_program`, from the mode that `stat` reports, if it succeeds.
unfoldable pub playlist_program : Bytes → Option ℕ → Option Playlist
unfolding playlist_create
playlist_program filename none = none
playlist_program filename (some st_mode) =
    if not (bit_and st_mode s_iwoth == 0)
    then none
    else if bit_and st_mode s_ixany == 0
    then none
    else some (record (playlist_create filename) { program = true })

-- What a run of the program gives: `popen` fails, or no byte can be read, or its output.
pub data Run : Type 0 where
  not_run : Run
  silent : Run
  printed : Bytes → Run

-- The result of an access to the array.
pub data Access {ℓ} (A : Type ℓ) : Type ℓ where
  ok : A → Access A
  out_of_bounds : Access A

-- `_playlist_run_program`
unfoldable pub run_program : Run → Playlist → Option Bytes × Playlist
unfolding fgets c_str trim
run_program not_run pl = (none, pl)
run_program silent pl = (none, pl)
run_program (printed output) pl =
    let buf = c_str (fgets path_max output).0 in
    if length buf == path_max then (none, pl) else elim (trim buf) [
      | [] ↦ (none, pl)
      | c ∷ s ↦ (some (c ∷ s), record pl { prog_track = some (c ∷ s) })
    ]

abbrev read_slot : Option (Option Bytes) → Playlist → Access (Option Bytes × Playlist)
read_slot none pl = out_of_bounds
read_slot (some entry) pl = ok (entry, record pl { index = pl.index + 1 })

-- `playlist_get_next`
unfoldable pub playlist_get_next : Run → Playlist → Access (Option Bytes × Playlist)
unfolding run_program
playlist_get_next run pl =
    if pl.program
    then ok (run_program run pl)
    else if pl.num == 0
    then ok (none, pl)
    else read_slot (get_elem? pl.list pl.index) pl

abbrev skip_slot : Option (Option Bytes) → Playlist → Access Playlist
skip_slot none pl = out_of_bounds
skip_slot (some none) pl = ok pl
skip_slot (some (some entry)) pl = ok (record pl { index = pl.index + 1 })

-- `playlist_skip_next`
unfoldable pub playlist_skip_next : Playlist → Access Playlist
playlist_skip_next pl =
    if pl.program || pl.num == 0 then ok pl else skip_slot (get_elem? pl.list pl.index) pl

unfoldable pub playlist_get_num_items : Playlist → ℕ
playlist_get_num_items pl = if pl.program then 0 else pl.num

unfoldable pub playlist_get_position : Playlist → ℕ
playlist_get_position pl = if pl.program then 0 else pl.index

-- `strcmp(pl->list[i], entry) == 0`; the loop reads filled slots only.
abbrev slot_eq : Option Bytes → Bytes → Bool
slot_eq none entry = false
slot_eq (some path) entry = str_eq path entry

-- The loop of `playlist_goto_entry` over the slots from `i` on.
unfoldable pub find_slot : List (Option Bytes) → Bytes → ℕ → Option ℕ
unfolding str_eq
find_slot [] entry i = none
find_slot (slot ∷ slots) entry i =
    if slot_eq slot entry then some i else find_slot slots entry (i + 1)

unfoldable pub playlist_goto_entry : Bytes → Playlist → Bool × Playlist
unfolding find_slot
playlist_goto_entry entry pl =
    if pl.program then (false, pl) else elim (find_slot (take pl.num pl.list) entry 0) [
      | none ↦ (false, pl)
      | some i ↦ (true, record pl { index = i })
    ]

unfoldable pub playlist_rewind : Playlist → Playlist
playlist_rewind pl = if pl.program then pl else record pl { index = 0 }

-- The strings that `playlist_free` frees: its loop stops at the first NULL.
unfoldable pub freed : List (Option Bytes) → List Bytes
freed [] = []
freed (none ∷ slots) = []
freed (some path ∷ slots) = path ∷ freed slots

unfoldable pub playlist_free : Playlist → List Bytes
unfolding freed
playlist_free pl = freed pl.list
