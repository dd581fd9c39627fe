-- ===== src/Playlist/Tests.antt =====
-- src/playlist.c on concrete inputs.
use mathlib.Core.Option
use mathlib.Core.List.{Perm}
use ezstream.Prelude.{
  ℕ, zero, suc, ◌+◌, ◌/◌, ◌≤◌, ◌≡◌, refl, ap, ◌≢◌, false, none, some, List, [], ◌∷◌, ◌++◌, arith,
  ◌==◌, if◌then◌else◌, replicate, All, length-replicate,
}
use ezstream.Playlist.Shuffle.Remainders.{counted, counted-rand_max}
use ezstream.CString.{Bytes, codes}
use ezstream.Playlist.{
  Playlist, playlist_create, playlist_add, playlist_program, playlist_skip_next,
  playlist_get_num_items, playlist_goto_entry, ok,
}
use ezstream.Playlist.Slots.{Holds, Holds-playlist_create, playlist_add-Holds}
use ezstream.Playlist.Read.{read_loop, playlist_read, contents}
use ezstream.Playlist.Read.Lines.{newline, paths, unlines}
use ezstream.Playlist.Read.Lines.Long.{read_loop_swallows}
use ezstream.Playlist.Read.Entries.{IsFresh, playlist_read-IsFresh}
use ezstream.Playlist.Shuffle.{rand_max, rejects, playlist_shuffle}
use ezstream.Playlist.Shuffle.Order.{playlist_shuffle-perm}
use ezstream.Playlist.Shuffle.Draws.{acceptable, playlist_shuffle_total}
use ezstream.Playlist.Walk.{walk, walk_all}
use ezstream.Playlist.Goto.{playlist_skip_next-goto_entry}

abbrev a : Bytes
a = codes "a"

abbrev b : Bytes
b = codes "b"

abbrev c : Bytes
c = codes "c"

abbrev no_entry : Playlist
no_entry = playlist_create (codes "list")

abbrev one : Playlist
one = playlist_add none no_entry a

abbrev two : Playlist
two = playlist_add none one b

abbrev three : Playlist
three = playlist_add none two c

one-Holds : Holds one (a ∷ [])
one-Holds = playlist_add-Holds none no_entry [] a (Holds-playlist_create (codes "list"))

two-Holds : Holds two (a ∷ b ∷ [])
two-Holds = playlist_add-Holds none one (a ∷ []) b one-Holds

three-Holds : Holds three (a ∷ b ∷ c ∷ [])
three-Holds = playlist_add-Holds none two (a ∷ b ∷ []) c two-Holds

three-slots : three.list ≡ some a ∷ some b ∷ some c ∷ none ∷ []
unfolding playlist_add playlist_create
three-slots = refl

playlist_read_comment :
    Option.map playlist_get_num_items (playlist_read none none (contents (codes "#x\na\r\n\nb")))
    ≡ some 2
unfolding playlist_read playlist_get_num_items
playlist_read_comment = refl

playlist_program_writable : playlist_program a (some 0o777) ≡ none
unfolding playlist_program
playlist_program_writable = refl

playlist_program_plain : playlist_program a (some 0o644) ≡ none
unfolding playlist_program
playlist_program_plain = refl

playlist_add-Holds_example : Holds (playlist_add none two c) (a ∷ b ∷ c ∷ [])
playlist_add-Holds_example = playlist_add-Holds none two (a ∷ b ∷ []) c two-Holds

playlist_read-IsFresh_example :
    (pl : Playlist) × (playlist_read none none
        (contents (unlines (codes "a" ∷ codes "#b" ∷ []) ++ codes "c"))
      ≡ some pl)
    × IsFresh pl (paths (codes "a" ∷ codes "#b" ∷ codes "c" ∷ []))
playlist_read-IsFresh_example =
    playlist_read-IsFresh none none (codes "a" ∷ codes "#b" ∷ []) (codes "c")
      (((omega arith, tt), omega arith), (((omega arith, (omega arith, tt)), omega arith), tt))
      ((omega arith, tt), omega arith)

All-replicate {ℓ} : (P : ℕ → Type ℓ) (n x : ℕ) → P x → All P (replicate n x)
All-replicate P zero x p = tt
All-replicate P (suc n) x p = (p, All-replicate P n x p)

read_loop_swallows_example :
    read_loop none 2
      (replicate 4094 b'x' ++ newline ∷ (codes "b" ++ newline ∷ codes "c\n"))
      no_entry
    ≡ read_loop none 1 (codes "c\n") no_entry
read_loop_swallows_example =
    read_loop_swallows none 1 (replicate 4094 b'x') (codes "b") (codes "c\n") no_entry
      (All-replicate (λ x. x ≢ newline) 4094 b'x' (omega arith))
      (All-replicate (λ x. x ≢ 0) 4094 b'x' (omega arith)) (length-replicate {A = ℕ} 4094 b'x')
      (omega arith, tt)

abbrev shuffled : Playlist
shuffled = record three { list = some b ∷ some c ∷ some a ∷ none ∷ [] }

three-shuffled : playlist_shuffle (4 ∷ 7 ∷ 0 ∷ []) three ≡ some shuffled
unfolding playlist_shuffle playlist_add playlist_create
three-shuffled = refl

playlist_shuffle-perm_example : (es : List Bytes) × Holds shuffled es × Perm es (a ∷ b ∷ c ∷ [])
playlist_shuffle-perm_example =
    playlist_shuffle-perm (4 ∷ 7 ∷ 0 ∷ []) three shuffled (a ∷ b ∷ c ∷ []) three-Holds
      three-shuffled

three_acceptable : three.num ≤ acceptable three.num (4 ∷ 7 ∷ 0 ∷ [])
unfolding acceptable playlist_add playlist_create
three_acceptable = omega arith

playlist_shuffle_total_example :
    (pl : Playlist) × (playlist_shuffle (4 ∷ 7 ∷ 0 ∷ []) three ≡ some pl)
playlist_shuffle_total_example = playlist_shuffle_total (4 ∷ 7 ∷ 0 ∷ []) three three_acceptable

a-ne-b : a ≢ b
a-ne-b h = omega (arith, ap {B = ℕ} (λ s. elim s [ [] ↦ 0 | x ∷ _ ↦ x ]) h)

three-no_program : three.program ≡ false
unfolding playlist_add playlist_create
three-no_program = refl

three-IsFresh : IsFresh three (a ∷ b ∷ c ∷ [])
unfolding playlist_add playlist_create
three-IsFresh = record { holds = three-Holds; at_start = refl; no_program = refl }

walk_all_example : walk 4 three ≡ some (ok (a ∷ b ∷ c ∷ []))
walk_all_example = walk_all three (a ∷ b ∷ c ∷ []) three-IsFresh

-- Behind the last of three entries.
abbrev at_end : Playlist
at_end = record three { index = 3 }

at_end-Holds : Holds at_end (a ∷ b ∷ c ∷ [])
at_end-Holds = record {
  count = three-Holds.count;
  bytes = three-Holds.bytes;
  slots = three-Holds.slots;
}

playlist_skip_next-goto_entry_example :
    playlist_skip_next (playlist_goto_entry b three).1 ≡ ok (record three { index = 2 })
playlist_skip_next-goto_entry_example =
    playlist_skip_next-goto_entry three (a ∷ []) (c ∷ []) b three-Holds three-no_program
      (a-ne-b, tt)

counted-rand_max_example : counted 10 0 (suc rand_max) ≡ rand_max / 10 + (if 0 == 0 then 1 else 0)
counted-rand_max_example = counted-rand_max 10 0 (omega arith)

-- The same count on a few numbers: 0, 10 and 20 leave the remainder 0.
counted_few : counted 10 0 25 ≡ 3
unfolding counted rejects
counted_few = refl
