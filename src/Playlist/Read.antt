-- ===== src/Playlist/Read.antt =====
-- src/playlist.c: `playlist_read` and `playlist_reread`. A file is given by its bytes.
pub mod Lines
pub mod Entries
use ezstream.Prelude.{
  ℕ, zero, suc, ◌+◌, ◌-◌, Bool, true, false, Option, none, some, [], ◌∷◌, ◌==◌, if◌then◌else◌,
  length,
}
use ezstream.CString.{Bytes, codes, c_str}
use ezstream.CString.Input.{fgets, trim}
use ezstream.Playlist.{path_max, Playlist, playlist_create, playlist_add}

-- The loop that discards the rest of a line that is too long.
unfoldable pub skip_line : Bytes → Bytes
skip_line [] = []
skip_line (c ∷ content) = if c == b'\n' then content else skip_line content

-- What the loop body makes of a line that fits the buffer: nothing, or an entry.
unfoldable pub line_entry : Bytes → Option Bytes
unfolding trim
line_entry [] = none
line_entry (c ∷ buf) =
    if c == b'#' then none else elim (trim (c ∷ buf)) [ [] ↦ none | d ∷ s ↦ some (d ∷ s) ]

unfoldable pub add_entry : Option Bytes → Playlist → Option Bytes → Playlist
unfolding playlist_add
add_entry junk pl none = pl
add_entry junk pl (some entry) = playlist_add junk pl entry

-- `strlen(buf) == sizeof(buf) - 1`
unfoldable pub too_long : Bytes → Bool
too_long buf = length buf == path_max - 1

-- The `while` loop of `playlist_read`, with fuel; `none` means that the fuel ran out.
unfoldable pub read_loop : Option Bytes → ℕ → Bytes → Playlist → Option Playlist
unfolding fgets skip_line line_entry add_entry c_str too_long
read_loop junk zero content pl = none
read_loop junk (suc fuel) content pl =
    let (raw, rest) = fgets (path_max - 1) content in
    let buf = c_str raw in
    elim raw [
      | [] ↦ some pl
      | c ∷ _ ↦
          read_loop junk fuel (if too_long buf then skip_line rest else rest)
            (if too_long buf then pl else add_entry junk pl (line_entry buf))
    ]

-- What opening and reading a file gives.
pub data Source : Type 0 where
  unopened : Source
  contents : Bytes → Source
  read_error : Bytes → Source

abbrev name_or_stdin : Option Bytes → Bytes
name_or_stdin none = codes "stdin"
name_or_stdin (some filename) = filename

-- `playlist_read`; `none` is NULL. Every round of the loop takes a byte at least.
unfoldable pub playlist_read : Option Bytes → Option Bytes → Source → Option Playlist
unfolding read_loop playlist_create
playlist_read junk filename unopened = none
playlist_read junk filename (contents content) =
    read_loop junk (length content + 1) content (playlist_create (name_or_stdin filename))
playlist_read junk filename (read_error content) = none

-- `playlist_reread`: the flag, and the playlist that `*plist` points to afterwards.
unfoldable pub playlist_reread : Option Bytes → Source → Playlist → Bool × Playlist
unfolding playlist_read
playlist_reread junk source pl =
    if pl.program then (false, pl) else elim (playlist_read junk (some pl.filename) source) [
      | none ↦ (false, pl)
      | some fresh ↦ (true, fresh)
    ]
