-- ===== src/Playlist/Read/Entries.antt =====
-- `playlist_read` on a file of short lines: the loop ends, and the playlist holds the paths.
use ezstream.Prelude.{
  ℕ, zero, suc, ◌+◌, ◌-◌, ◌<◌, ◌≡◌, refl, sym, ap, ◌∙◌, inl, inr, false, Option, none, some, List,
  [], ◌∷◌, ◌++◌, append-nil, append_assoc, arith, Option-cases, length, All, length-append,
}
use ezstream.CString.{Bytes, c_str}
use ezstream.CString.Input.{fgets}
use ezstream.CString.Search.{length-cut-le}
use ezstream.Playlist.{path_max, Playlist, playlist_create, first_slots, grow_slots, playlist_add}
use ezstream.Playlist.Slots.{Holds, Holds-playlist_create, playlist_add-Holds}
use ezstream.Playlist.Read.{line_entry, add_entry, too_long, read_loop, playlist_read, contents}
use ezstream.Playlist.Read.Lines.{
  newline, IsShort, path_of, paths, unlines, fgets_line, fgets_last, line_entry_line,
  line_entry_last,
}

-- A playlist that holds `es`, at its first entry, and is no program.
pub record IsFresh (pl : Playlist) (es : List Bytes) : Type 0 where
  pub holds : Holds pl es
  pub at_start : pl.index ≡ 0
  pub no_program : pl.program ≡ false

IsFresh-create : (filename : Bytes) → IsFresh (playlist_create filename) []
unfolding playlist_create
IsFresh-create filename = record {
  holds = Holds-playlist_create filename;
  at_start = refl;
  no_program = refl;
}

first_slots_keeps :
    (pl : Playlist) → ((first_slots pl).index ≡ pl.index) × ((first_slots pl).program ≡ pl.program)
unfolding first_slots
first_slots_keeps pl = ground arith

grow_slots_keeps :
    (junk : Option Bytes) (num : ℕ) (pl : Playlist)
    → ((grow_slots junk num pl).index ≡ pl.index) × ((grow_slots junk num pl).program ≡ pl.program)
unfolding grow_slots
grow_slots_keeps junk num pl = ground arith

playlist_add_keeps :
    (junk : Option Bytes) (pl : Playlist) (e : Bytes)
    → ((playlist_add junk pl e).index ≡ pl.index) × ((playlist_add junk pl e).program ≡ pl.program)
unfolding playlist_add
playlist_add_keeps junk pl e =
    let (index, program) = first_slots_keeps pl in
    let (index', program') = grow_slots_keeps junk (pl.num + 1) (first_slots pl) in
    (index' ∙ index, program' ∙ program)

abbrev with_path : List Bytes → Option Bytes → List Bytes
with_path es none = es
with_path es (some e) = es ++ e ∷ []

add_entry-IsFresh :
    (junk : Option Bytes) (pl : Playlist) (es : List Bytes) (e : Option Bytes)
    → IsFresh pl es
    → IsFresh (add_entry junk pl e) (with_path es e)
unfolding add_entry
add_entry-IsFresh junk pl es none h = h
add_entry-IsFresh junk pl es (some e) h =
    let (index, program) = playlist_add_keeps junk pl e in
    record {
      holds = playlist_add-Holds junk pl es e h.holds;
      at_start = index ∙ h.at_start;
      no_program = program ∙ h.no_program;
    }

too_long_short : (l : Bytes) → length l + 1 < path_max → too_long (c_str l) ≡ false
unfolding too_long c_str
too_long_short l h = ground (arith, length-cut-le 0 l)

-- A round of the loop at a text that fits the buffer.
read_loop_step :
    (junk : Option Bytes) (fuel : ℕ) (content : Bytes) (pl : Playlist) (c : ℕ) (raw rest : Bytes)
    → fgets (path_max - 1) content ≡ (c ∷ raw, rest)
    → length (c ∷ raw) + 1 < path_max
    → read_loop junk (suc fuel) content pl
      ≡ read_loop junk fuel rest (add_entry junk pl (line_entry (c_str (c ∷ raw))))
unfolding read_loop
read_loop_step junk fuel content pl c raw rest e h =
    rw (e, read_loop) (rw e (rw (too_long_short (c ∷ raw) h) refl))

read_loop_end :
    (junk : Option Bytes) (fuel : ℕ) (pl : Playlist) → read_loop junk (suc fuel) [] pl ≡ some pl
unfolding read_loop fgets
read_loop_end junk fuel pl = refl

-- The result of the loop, which ends, on a playlist that holds `es` already.
record Reads (junk : Option Bytes) (fuel : ℕ) (content : Bytes) (pl : Playlist) (es : List Bytes)
    : Type 0 where
  result : Playlist
  returned : read_loop junk fuel content pl ≡ some result
  fresh : IsFresh result es

with_path-paths :
    (es : List Bytes) (l : Bytes) (ls : List Bytes)
    → with_path es (path_of l) ++ paths ls ≡ es ++ paths (l ∷ ls)
unfolding paths
with_path-paths es l ls = elim (Option-cases (path_of l)) [
  | inl e ↦ rw (e, paths) refl
  | inr (p, e) ↦ rw (e, paths) (append_assoc es (p ∷ []) (paths ls))
]

with_path_last : (es : List Bytes) (l : Bytes) → with_path es (path_of l) ≡ es ++ paths (l ∷ [])
with_path_last es l =
    sym (append-nil (with_path es (path_of l))) ∙ (unfold paths in with_path-paths es l [])

module _ (junk : Option Bytes) where
  -- One short line that ends in a newline.
  read_line :
      (fuel : ℕ) (l rest : Bytes) (pl : Playlist)
      → IsShort l
      → read_loop junk (suc fuel) (l ++ newline ∷ rest) pl
        ≡ read_loop junk fuel rest (add_entry junk pl (path_of l))
  read_line fuel [] rest pl (h, room) =
      read_loop_step junk fuel (newline ∷ rest) pl newline [] rest
        (fgets_line (path_max - 1) [] rest h (omega arith)) (omega arith)
      ∙ ap (λ e. read_loop junk fuel rest (add_entry junk pl e)) (line_entry_line [] h)
  read_line fuel (c ∷ l) rest pl (h, room) =
      read_loop_step junk fuel (c ∷ l ++ newline ∷ rest) pl c (l ++ newline ∷ []) rest
        (fgets_line (path_max - 1) (c ∷ l) rest h (omega arith))
        (omega (arith, length-append l (newline ∷ [])))
      ∙ ap (λ e. read_loop junk fuel rest (add_entry junk pl e)) (line_entry_line (c ∷ l) h)

  -- The text behind the last newline.
  read_last :
      (fuel : ℕ) (l : Bytes) (pl : Playlist) (es : List Bytes)
      → IsShort l
      → length l < fuel
      → IsFresh pl es
      → Reads junk fuel l pl (es ++ paths (l ∷ []))
  read_last zero l pl es short room fresh = absurd (omega arith)
  read_last (suc fuel) [] pl es short room fresh = record {
    result = pl;
    returned = read_loop_end junk fuel pl;
    fresh =
        let e : with_path es (path_of []) ≡ es = (unfold path_of in refl) in
        rw (← with_path_last es []) (rw e fresh);
  }
  read_last (suc zero) (c ∷ l) pl es short room fresh = absurd (omega arith)
  read_last (suc (suc fuel)) (c ∷ l) pl es short room fresh = record {
    result = add_entry junk pl (path_of (c ∷ l));
    returned =
        read_loop_step junk (suc fuel) (c ∷ l) pl c l []
          (fgets_last (path_max - 1) (c ∷ l) short.0 (omega arith)) (omega arith)
        ∙ ap (λ e. read_loop junk (suc fuel) [] (add_entry junk pl e))
            (line_entry_last (c ∷ l) short.0)
        ∙ read_loop_end junk fuel _;
    fresh = rw (← with_path_last es (c ∷ l)) (add_entry-IsFresh junk pl es (path_of (c ∷ l)) fresh);
  }

  read_lines :
      (fuel : ℕ) (ls : List Bytes) (last : Bytes) (pl : Playlist) (es : List Bytes)
      → All IsShort ls
      → IsShort last
      → length (unlines ls ++ last) < fuel
      → IsFresh pl es
      → Reads junk fuel (unlines ls ++ last) pl (es ++ paths (ls ++ last ∷ []))
  read_lines fuel [] last pl es shorts short room fresh = read_last fuel last pl es short room fresh
  read_lines zero (l ∷ ls) last pl es shorts short room fresh = absurd (omega arith)
  read_lines (suc fuel) (l ∷ ls) last pl es (hl, shorts) short room fresh =
      let tail = unlines ls ++ last in
      let text : (l ++ newline ∷ unlines ls) ++ last ≡ l ++ newline ∷ tail =
        append_assoc l (newline ∷ unlines ls) last in
      let rest =
        read_lines fuel ls last (add_entry junk pl (path_of l)) (with_path es (path_of l)) shorts
          short (omega (arith, ap length text, length-append l (newline ∷ tail)))
          (add_entry-IsFresh junk pl es (path_of l) fresh) in
      record {
        result = rest.result;
        returned =
            ap (λ s. read_loop junk (suc fuel) s pl) text
            ∙ read_line fuel l tail pl hl
            ∙ rest.returned;
        fresh = rw (← with_path-paths es l (ls ++ last ∷ [])) rest.fresh;
      }

-- Reading a file whose lines are short succeeds, and the playlist holds the paths of the lines, in
-- their order, at its first entry. The file is `unlines ls` and the text behind the last newline.
pub playlist_read-IsFresh :
    (junk filename : Option Bytes) (ls : List Bytes) (last : Bytes)
    → All IsShort ls
    → IsShort last
    → (pl : Playlist) × (playlist_read junk filename (contents (unlines ls ++ last)) ≡ some pl)
      × IsFresh pl (paths (ls ++ last ∷ []))
unfolding playlist_read
playlist_read-IsFresh junk filename ls last shorts short =
    let r =
      read_lines junk (length (unlines ls ++ last) + 1) ls last (playlist_create _) [] shorts short
        (omega arith) (IsFresh-create _) in
    (r.result, r.returned, r.fresh)
